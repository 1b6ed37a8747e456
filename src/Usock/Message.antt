-- ===== src/Usock/Message.antt =====
-- The messages of clients, and what their handlers do: they submit or cancel commands, change the
-- client's state, and return a code. `World` is what a handler reads besides the message.
use system_test_suite.Base.{
  ℕ, suc, Bool, true, false, Option, none, some, List, [], ◌∷◌, ◌++◌, ltb, if◌then◌else◌, Bytes,
  length, get_elem?, drop, ◌>>=◌,
}
use system_test_suite.Base.Int.{ℤ, pos, negsuc}
use system_test_suite.Base.Text.{u16_at}
use system_test_suite.Atcmd.Queue.{
  Callback, Atcmd, Gsmd, Env, atcmd_fill, atcmd_submit, cancel_atcmd,
}
use system_test_suite.Events.{Ucmd, User, usock_cmd_enqueue}

-- `struct gsmd_msg_hdr`, of 8 octets
pub record MsgHdr : Type 0 where
  pub version : ℕ
  pub msg_type : ℕ
  pub msg_subtype : ℕ
  pub id : ℕ
  pub len : ℕ

abbrev pub hdr_size : ℕ
hdr_size = 8

unfoldable pub msg_hdr : Bytes → Option MsgHdr
msg_hdr buf = do
  version ← get_elem? buf 0
  msg_type ← get_elem? buf 1
  msg_subtype ← get_elem? buf 2
  id ← u16_at buf 4
  len ← u16_at buf 6
  some (record {
    version = version;
    msg_type = msg_type;
    msg_subtype = msg_subtype;
    id = id;
    len = len;
  })

-- the callbacks of usock.c and sms_cb.c
pub data CmdCb : Type 0 where
  usock_cmd_cb null_cmd_cb pin_cmd_cb phone_powerup_cb : CmdCb
  network_vmail_cb network_sigq_cb network_oper_cb network_opers_cb network_pref_opers_cb : CmdCb
  network_pref_num_cb network_ownnumbers_cb : CmdCb
  phonebook_find_cb phonebook_read_cb phonebook_readrg_cb phonebook_write_cb phonebook_delete_cb :
      CmdCb
  phonebook_get_support_cb phonebook_list_storage_cb get_imsi_cb : CmdCb
  sms_list_cb sms_read_cb sms_send_cb sms_write_cb sms_delete_cb usock_cpms_cb usock_get_smsc_cb :
      CmdCb

-- The environment of the queues, the number of each callback with this client as its context,
-- whether the n-th allocation succeeds, the flag GSMD_FLAG_SMS_FMT_TEXT, and what stands in the
-- register of the return code and in new memory.
pub record World : Type 0 where
  pub env : Env
  pub cb : CmdCb → Callback
  pub allocated : ℕ → Bool
  pub fmt_text : Bool
  pub register : ℤ
  pub memory : Bytes

-- `struct gsmd_phonebook`
pub record Phonebook : Type 0 where
  pub index : ℕ
  pub numb : Bytes
  pub type : ℕ
  pub text : Bytes

-- the daemon and a client of it; `on` is `dev_state.on`
pub record Session : Type 0 where
  pub gsmd : Gsmd
  pub user : User
  pub pb_readrg_list : List Phonebook
  pub pb_find_list : List Phonebook
  pub on : Bool

-- What a handler, or a callback of a command, does, up to its `return`.
pub data Action : Type 0 where
  returns : ℤ → Action
  submits : Atcmd → Action → Action
  cancels : Atcmd → Action
  subscribes : ℕ → Action → Action
  turns_off : Action → Action
  empties_readrg empties_find : Action → Action
  replies : Ucmd → Action → Action
  turns_on : Action → Action
  collects_readrg collects_find : List Phonebook → Action → Action

unfoldable pub perform : Env → Action → Session → Session × ℤ
perform env (returns rc) s = (s, rc)
perform env (submits cmd a) s = perform env a (record s { gsmd = atcmd_submit env s.gsmd cmd })
perform env (cancels cmd) s =
    let (g, rc) = cancel_atcmd env s.gsmd cmd in (record s { gsmd = g }, rc)
perform env (subscribes mask a) s =
    perform env a (record s { user = record s.user { subscriptions = mask } })
perform env (turns_off a) s = perform env a (record s { on = false })
perform env (empties_readrg a) s = perform env a (record s { pb_readrg_list = [] })
perform env (empties_find a) s = perform env a (record s { pb_find_list = [] })
perform env (replies ucmd a) s = perform env a (record s { user = usock_cmd_enqueue ucmd s.user })
perform env (turns_on a) s = perform env a (record s { on = true })
perform env (collects_readrg pbs a) s =
    perform env a (record s { pb_readrg_list = s.pb_readrg_list ++ pbs })
perform env (collects_find pbs a) s =
    perform env a (record s { pb_find_list = s.pb_find_list ++ pbs })

-- `-EINVAL`, `-ENOMEM` and `-ENOSYS`
abbrev pub einval : Action
einval = returns (negsuc 21)

abbrev pub enomem : Action
enomem = returns (negsuc 11)

abbrev pub enosys : Action
enosys = returns (negsuc 37)

abbrev pub fill : World → ℕ → Bytes → ℕ → CmdCb → ℕ → Option Atcmd
fill w n text rlen f id = atcmd_fill (w.allocated n) text rlen (w.cb f) id

-- `if (!cmd) return -ENOMEM; return atcmd_submit(gu->gsmd, cmd);`
abbrev pub submitted : Option Atcmd → Action
submitted none = enomem
submitted (some cmd) = submits cmd (returns (pos 0))

-- A text printed into an array of `size` bytes, with its zero; `none` where it does not fit.
abbrev pub printed : ℕ → Bytes → Option Bytes
printed size text = if ltb (length text) size then some text else none

-- `sprintf(cmd->buf, ...)`, for a command that has memory of `buflen` bytes
unfoldable pub print_to : Atcmd → Bytes → Option Atcmd
print_to cmd text = do
  fits ← printed cmd.buflen text
  some (record cmd { buf = fits ++ 0 ∷ drop (suc (length fits)) cmd.buf })

-- the command is filled, its text printed, and it is submitted
abbrev pub submitted_printed : Option Atcmd → Bytes → Option Action
submitted_printed none text = some enomem
submitted_printed (some cmd) text = do
  full ← print_to cmd text
  some (submits full (returns (pos 0)))
