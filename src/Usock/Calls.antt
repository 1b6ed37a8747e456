-- ===== src/Usock/Calls.antt =====
-- The handlers of pass-through commands, subscriptions, voice calls, PINs and the phone's power of
-- usock.c. `msg` is the memory behind the header, `len` the number of octets that were read.
use system_test_suite.Base.{
  ℕ, ◌+◌, not, ◌&&◌, ◌||◌, Option, none, some, [], ◌∷◌, ◌++◌, ltb, ◌==◌, if◌then◌else◌, Bytes,
  codes, length, get_elem?, set, ◌>>=◌,
}
use system_test_suite.Base.Text.{c_string_at, u32_at}
use system_test_suite.Atcmd.Queue.{Atcmd}
use system_test_suite.Usock.Message.{
  MsgHdr, hdr_size, usock_cmd_cb, pin_cmd_cb, phone_powerup_cb, null_cmd_cb, World, Action, returns,
  cancels, subscribes, turns_off, einval, enomem, fill, submitted, submitted_printed,
}

abbrev passed_through : World → MsgHdr → Bytes → Option Action
passed_through w gph text =
    if length text == 0 && gph.len == 0
    then none
    else some (submitted (fill w 0 text gph.len usock_cmd_cb gph.id))

-- A text without a byte, and no room for one, makes `atcmd_fill` write in front of the text.
unfoldable pub usock_rcv_passthrough : World → MsgHdr → Bytes → Option Action
usock_rcv_passthrough w gph msg = c_string_at msg 0 >>= passed_through w gph

abbrev evt_subscriptions : ℕ
evt_subscriptions = 12

-- The function has no `return` behind the assignment.
unfoldable pub usock_rcv_event : World → MsgHdr → Bytes → ℕ → Option Action
usock_rcv_event w gph msg len =
    let changed = (u32_at msg 0 >>= λ evtmask. some (subscribes evtmask (returns w.register))) in
    if ltb len (hdr_size + 4)
    then some einval
    else if not (gph.msg_subtype == evt_subscriptions)
    then some einval
    else changed

-- `sizeof(struct gsmd_addr)`, and the place of the last byte of its number
abbrev addr_size : ℕ
addr_size = 34

abbrev number_last : ℕ
number_last = 33

abbrev pub dialled : World → MsgHdr → Bytes → Option Action
dialled w gph msg = do
  number ← c_string_at (set msg number_last 0) 1
  submitted_printed (fill w 0 (codes "ATD") (5 + length number) usock_cmd_cb gph.id)
      (codes "ATD" ++ number ++ codes ";")

unfoldable pub voicecall_dial : World → MsgHdr → Bytes → ℕ → Option Action
voicecall_dial w gph msg len =
    if ltb len (hdr_size + addr_size) then some einval else dialled w gph msg

abbrev pub cancelled : Option Atcmd → Action
cancelled none = enomem
cancelled (some cmd) = cancels cmd

-- one digit
abbrev dtmf_printed : World → MsgHdr → Bytes → Option Action
dtmf_printed w gph msg = do
  digit ← get_elem? msg 1
  submitted_printed (fill w 0 (codes "AT+VTS=") 10 usock_cmd_cb gph.id)
      (codes "AT+VTS=" ++ digit ∷ codes ";")

abbrev dtmf_digits : World → MsgHdr → Bytes → ℕ → ℕ → Option Action
dtmf_digits w gph msg len digits =
    if ltb len (hdr_size + 1 + digits)
    then some einval
    else if not (digits == 1)
    then some einval
    else dtmf_printed w gph msg

unfoldable pub voicecall_dtmf : World → MsgHdr → Bytes → ℕ → Option Action
voicecall_dtmf w gph msg len =
    if ltb len (hdr_size + 1) then some einval else get_elem? msg 0 >>= dtmf_digits w gph msg len

unfoldable pub usock_rcv_voicecall : World → MsgHdr → Bytes → ℕ → Option Action
unfolding voicecall_dial voicecall_dtmf
usock_rcv_voicecall w gph msg len =
    if gph.msg_subtype == 1
    then voicecall_dial w gph msg len
    else if gph.msg_subtype == 2
    then some (cancelled (fill w 0 (codes "ATH") 4 usock_cmd_cb gph.id))
    else if gph.msg_subtype == 3
    then some (submitted (fill w 0 (codes "ATA") 4 usock_cmd_cb gph.id))
    else if gph.msg_subtype == 4
    then voicecall_dtmf w gph msg len
    else some einval

-- `sizeof(struct gsmd_pin)`: the type, and two texts of 9 bytes
abbrev pin_size : ℕ
pin_size = 22

-- GSMD_PIN_SIM_PUK and GSMD_PIN_SIM_PUK2 come with a new PIN.
abbrev pub new_pin : ℕ → Bytes → Option Bytes
new_pin type msg =
    let second = (c_string_at msg 13 >>= λ pin. some (codes "\",\"" ++ pin)) in
    if type == 2 || type == 7 then second else some []

abbrev pub pin_entered : World → Bytes → Option Action
pin_entered w msg = do
  type ← u32_at msg 0
  pin ← c_string_at msg 4
  newpin ← new_pin type msg
  submitted_printed (fill w 0 (codes "AT+CPIN=\"") 30 pin_cmd_cb 0)
      (codes "AT+CPIN=\"" ++ pin ++ newpin ++ codes "\"")

unfoldable pub usock_rcv_pin : World → MsgHdr → Bytes → ℕ → Option Action
usock_rcv_pin w gph msg len =
    if ltb gph.len pin_size || ltb len (pin_size + hdr_size)
    then some einval
    else if gph.msg_subtype == 1
    then pin_entered w msg
    else some einval

unfoldable pub usock_rcv_phone : World → MsgHdr → Option Action
usock_rcv_phone w gph =
    if gph.msg_subtype == 1
    then some (submitted (fill w 0 (codes "AT+CFUN=1") 10 phone_powerup_cb 0))
    else if gph.msg_subtype == 2
    then some (turns_off (submitted (fill w 0 (codes "AT+CFUN=0") 10 null_cmd_cb 0)))
    else some einval
