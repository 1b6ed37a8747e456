-- ===== src/Usock/Network.antt =====
-- `usock_rcv_network` of usock.c, the requests about the network. The length of the message is not
-- looked at; `msg` is the memory behind the header.
use mathlib.Core.Option
use system_test_suite.Base.{
  ℕ, zero, suc, [], ◌∷◌, ◌+◌, Option, none, some, ◌++◌, ◌==◌, if◌then◌else◌, Bytes, codes, length,
  get_elem?, ◌>>=◌,
}
use system_test_suite.Base.Text.{u32_at, decimal_ℤ}
use system_test_suite.Atcmd.Mlparse.Texts.{to_int32}
use system_test_suite.Atcmd.Queue.{Atcmd}
use system_test_suite.Usock.Message.{
  MsgHdr, null_cmd_cb, network_vmail_cb, network_sigq_cb, network_oper_cb, network_opers_cb,
  network_pref_opers_cb, network_pref_num_cb, network_ownnumbers_cb, World, Action, submits, einval,
  fill, submitted, printed,
}

-- `sizeof(gsmd_oper_numeric)`, and the size of `buffer`
abbrev pub oper_size : ℕ
oper_size = 6

abbrev pub buffer_size : ℕ
buffer_size = 21

-- "%.*s": at most `n` bytes, up to a zero; `none` is a read past the end of the memory
unfoldable pub precise : ℕ → Bytes → Option Bytes
precise zero memory = some []
precise (suc n) [] = none
precise (suc n) (c ∷ memory) =
    let rest = Option.map (◌∷◌ c) (precise n memory) in if c == 0 then some [] else rest

-- the operator
abbrev pub oper_text : Bytes → Option Bytes
oper_text msg = precise oper_size msg

-- a command printed into `buffer`
abbrev pub buffered : World → Bytes → Option Action
buffered w text = do
  buffer ← printed buffer_size text
  some (submitted (fill w 0 buffer (length buffer + 1) null_cmd_cb 0))

unfoldable pub network_register : World → Bytes → Option Action
unfolding precise
network_register w msg = do
  first ← get_elem? msg 0
  let chosen = do oper ← oper_text msg; buffered w (codes "AT+COPS=1,2,\"" ++ oper ++ codes "\"")
  if first == 0 then buffered w (codes "AT+COPS=0") else chosen

-- A command that prepares the one of the request. The pointer that `atcmd_fill` returns is not
-- tested: where it is NULL, `atcmd_submit` reads through it.
abbrev pub prepared : Option Atcmd → Action → Option Action
prepared none a = none
prepared (some cmd) a = some (submits cmd a)

unfoldable pub network_pref_del : World → Bytes → Option Action
network_pref_del w msg = do
  index ← u32_at msg 0
  buffered w (codes "AT+CPOL=" ++ decimal_ℤ (to_int32 index))

unfoldable pub network_pref_add : World → Bytes → Option Action
unfolding precise
network_pref_add w msg = do
  oper ← oper_text msg
  buffered w (codes "AT+CPOL=,2,\"" ++ oper ++ codes "\"")

-- the preferred operators and the own numbers
unfoldable pub network_lists : World → MsgHdr → Bytes → Option Action
unfolding network_pref_del network_pref_add
network_lists w gph msg =
    if gph.msg_subtype == 10
    then prepared (fill w 0 (codes "AT+CPOL=,0") 11 null_cmd_cb 0)
        (submitted (fill w 1 (codes "AT+CPOL?") 9 network_pref_opers_cb 0))
    else if gph.msg_subtype == 11
    then network_pref_del w msg
    else if gph.msg_subtype == 12
    then network_pref_add w msg
    else if gph.msg_subtype == 13
    then some (submitted (fill w 0 (codes "AT+CPOL=?") 10 network_pref_num_cb 0))
    else if gph.msg_subtype == 9
    then some (submitted (fill w 0 (codes "AT+CNUM") 8 network_ownnumbers_cb 0))
    else some einval

unfoldable pub usock_rcv_network : World → MsgHdr → Bytes → Option Action
unfolding network_register network_lists
usock_rcv_network w gph msg =
    if gph.msg_subtype == 1
    then network_register w msg
    else if gph.msg_subtype == 8
    then some (submitted (fill w 0 (codes "AT+COPS=2") 10 null_cmd_cb 0))
    else if gph.msg_subtype == 3
    then some (submitted (fill w 0 (codes "AT+CSVM?") 9 network_vmail_cb 0))
    else if gph.msg_subtype == 4
    then some (submitted (fill w 0 (codes "AT+CSVM=") 9 network_vmail_cb 0))
    else if gph.msg_subtype == 2
    then some (submitted (fill w 0 (codes "AT+CSQ") 7 network_sigq_cb 0))
    else if gph.msg_subtype == 5
    then prepared (fill w 0 (codes "AT+COPS=3,0") 12 null_cmd_cb 0)
        (submitted (fill w 1 (codes "AT+COPS?") 9 network_oper_cb 0))
    else if gph.msg_subtype == 6
    then some (submitted (fill w 0 (codes "AT+COPS=?") 10 network_opers_cb 0))
    else network_lists w gph msg
