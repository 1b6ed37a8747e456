-- ===== src/Libgsmd/Dialing.antt =====
-- From a call of the library to the command for the modem.
use system_test_suite.Base.{
  ℕ, suc, ◌+◌, ◌%◌, ◌^◌, ◌<◌, ◌≡◌, refl, sym, ap, ◌∙◌, true, some, [], ◌∷◌, ◌++◌, append_assoc,
  lt→ltb, Bytes, codes, length, length-append, set, take, take_self, drop, ◌>>=◌, arith,
}
use system_test_suite.Base.Int.{pos}
use system_test_suite.Base.Text.{c_string, is_text, c_string-append, is_text-append}
use system_test_suite.Atcmd.Queue.{Atcmd, Callback, new_atcmd, atcmd_fill}
use system_test_suite.Usock.Message.{
  MsgHdr, CmdCb, usock_cmd_cb, World, Session, Action, returns, submits, perform, fill,
  submitted_printed, print_to,
}
use system_test_suite.Usock.Room.{new_atcmd-buflen}
use system_test_suite.Usock.Calls.{dialled, voicecall_dial, usock_rcv_voicecall}
use system_test_suite.Usock.Client.{handler, dispatched, pcmd_action, usock_rcv_pcmd}
use system_test_suite.Libgsmd.{message_octets, lgsm_gmh_fill, sent, send_checked}
use system_test_suite.Libgsmd.Layout.{msg_hdr-message_octets}
use system_test_suite.Libgsmd.Requests.{lgsm_addr_size, lgsm_voice_out_init}

-- The action submits one command with this text and number, and returns 0.
abbrev pub Submits : Action → Bytes → ℕ → Callback → Type 0
Submits a text id cb =
    (cmd : Atcmd) × (a ≡ submits cmd (returns (pos 0)))
    × (c_string cmd.buf ≡ some text)
    × (cmd.id ≡ id)
    × (cmd.cb ≡ cb)

pub submitted_printed-Submits :
    (w : World) (name : Bytes) (rlen : ℕ) (f : CmdCb) (id : ℕ) (text : Bytes)
    → w.allocated 0 ≡ true
    → length text < rlen
    → is_text text ≡ true
    → (a : Action) × (submitted_printed (fill w 0 name rlen f id) text ≡ some a)
      × Submits a text id (w.cb f)
unfolding atcmd_fill print_to
submitted_printed-Submits w name rlen f id text memory fits plain =
    let cmd = new_atcmd name rlen (w.cb f) id in
    let rest = drop (suc (length text)) cmd.buf in
    let full : Atcmd = record cmd { buf = text ++ 0 ∷ rest } in
    let room : length text < cmd.buflen = omega (arith, new_atcmd-buflen name rlen (w.cb f) id) in
    (
      submits full (returns (pos 0)),
      rw (memory, lt→ltb (length text) cmd.buflen room) refl,
      (
        full,
        refl,
        c_string-append text rest plain,
        unfold new_atcmd in refl,
        unfold new_atcmd in refl,
      ),
    )

-- What the daemon does with a message that stands at the start of its array.
pub rcv_message :
    (w : World) (s : Session) (gmh : MsgHdr) (payload rest : Bytes) (len : ℕ)
    → gmh.id < 2 ^ 16
    → gmh.len < 2 ^ 16
    → usock_rcv_pcmd w s (message_octets gmh payload ++ rest) len
      ≡ (dispatched w s gmh (payload ++ rest) len >>= λ a. some (perform w.env a s))
unfolding usock_rcv_pcmd pcmd_action
rcv_message w s gmh payload rest len hi hl =
    rw (msg_hdr-message_octets gmh (payload ++ rest) hi hl) refl

set_same : (s : Bytes) (c : ℕ) (r : Bytes) → set (s ++ c ∷ r) (length s) c ≡ s ++ c ∷ r
set_same [] c r = refl
set_same (d ∷ s) c r = ap (◌∷◌ d) (set_same s c r)

dialled-number :
    (w : World) (gph : MsgHdr) (type : ℕ) (number junk rest : Bytes)
    → is_text number ≡ true
    → length (number ++ 0 ∷ junk) ≡ lgsm_addr_size
    → dialled w gph (type ∷ (number ++ 0 ∷ junk ++ 0 ∷ rest))
      ≡ submitted_printed
          (fill w 0 (codes "ATD") (5 + length number) usock_cmd_cb gph.id)
          (codes "ATD" ++ number ++ codes ";")
dialled-number w gph type number junk rest plain size =
    let ended : set (number ++ 0 ∷ junk ++ 0 ∷ rest) 32 0 ≡ number ++ 0 ∷ junk ++ 0 ∷ rest =
      ap (λ n. set (number ++ 0 ∷ junk ++ 0 ∷ rest) n 0) (sym size)
      ∙ set_same (number ++ 0 ∷ junk) 0 rest in
    rw
      (
        ended,
        append_assoc number (0 ∷ junk) (0 ∷ rest),
        c_string-append number (junk ++ 0 ∷ rest) plain,
      )
      refl

-- A number of at most 31 characters, a text with a zero behind it, given to `lgsm_voice_out_init` in its array, is sent in one
-- message, whose number has 16 bits. The daemon that reads the message at the start of its array, with memory left, submits one
-- command, which dials the number and bears the number of the message. `lgsm_voice_out_init` returns 0 if
-- `send` returns the 42 octets of the message.
pub lgsm_voice_out_init-dial :
    (w : World) (s : Session) (next_msg_id type : ℕ) (number junk rest : Bytes)
    → w.allocated 0 ≡ true
    → next_msg_id < 2 ^ 16
    → is_text number ≡ true
    → length (number ++ 0 ∷ junk) ≡ lgsm_addr_size
    → (octets : Bytes) × (lgsm_voice_out_init true next_msg_id (pos 42) type (number ++ 0 ∷ junk)
        ≡ sent octets (pos 0))
      × (length octets ≡ 42)
      × (a : Action) × (usock_rcv_pcmd w s (octets ++ rest) (length octets)
          ≡ some (perform w.env a s))
      × Submits a (codes "ATD" ++ number ++ codes ";") next_msg_id (w.cb usock_cmd_cb)
unfolding lgsm_voice_out_init send_checked usock_rcv_pcmd pcmd_action handler usock_rcv_voicecall
    voicecall_dial
lgsm_voice_out_init-dial w s next_msg_id type number junk rest memory hid plain size =
    let addr = number ++ 0 ∷ junk in
    let text = codes "ATD" ++ number ++ codes ";" in
    let gmh : MsgHdr = record (lgsm_gmh_fill 3 1 34) { id = next_msg_id } in
    let whole : take lgsm_addr_size addr ≡ addr =
      ap (λ n. take n addr) (sym size) ∙ take_self addr in
    let count : length (addr ++ 0 ∷ []) ≡ 33 = omega (arith, length-append addr (0 ∷ []), size) in
    let short : length number < 32 = omega (arith, length-append number (0 ∷ junk), size) in
    let (a, printed, done) =
      submitted_printed-Submits w (codes "ATD") (5 + length number) usock_cmd_cb next_msg_id text
        memory (omega (arith, length-append number (codes ";")))
        (unfold is_text in is_text-append number (codes ";") plain refl) in
    let payload = (type % 256) ∷ (addr ++ 0 ∷ []) in
    let octets = message_octets gmh payload in
    let forty_two : length octets ≡ 42 = omega (arith, count) in
    (
      octets,
      rw (whole, count) refl,
      forty_two,
      a,
      rcv_message w s gmh payload rest (length octets) hid (omega arith)
          ∙ rw
              (
                forty_two,
                append_assoc addr (0 ∷ []) rest,
                dialled-number w gmh (type % 256) number junk rest plain size,
                printed,
              )
              refl,
      done,
    )
