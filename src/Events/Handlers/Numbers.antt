-- ===== src/Events/Handlers/Numbers.antt =====
-- The number of a call, from the modem's line to the clients.
use system_test_suite.Base.{
  ℕ, zero, suc, ◌+◌, ◌≤◌, ◌≡◌, refl, ◌∙◌, Option, some, List, [], ◌∷◌, ◌++◌, append_assoc, arith,
  Bytes, true, Bool-cases, inl, inr, length, length-append, length-take, length-drop, take, drop,
  le→ltb_false, ◌==◌,
}
use system_test_suite.Base.Text.{is_text, c_string, c_string_at}
use system_test_suite.Atcmd.Queue.{find_char}
use system_test_suite.Events.{Ucmd, User, usock_evt_send}
use system_test_suite.Events.Handlers.{
  sent, addr_maxlen, auxdata_size, msg_event, with_number, address_event,
}

c_string-take :
    (n : ℕ) (s r : Bytes) → is_text s ≡ true → c_string (take n s ++ 0 ∷ r) ≡ some (take n s)
unfolding c_string is_text
c_string-take zero s r h = refl
c_string-take (suc n) [] r h = refl
c_string-take (suc n) (c ∷ s) r h = elim (Bool-cases (c == 0)) [
  | inl e ↦ absurd (cc (rw e at h))
  | inr e ↦ rw (e, c_string-take n s r (rw e at h)) refl
]

drop-take_one : (b r : Bytes) → 1 ≤ length b → drop 1 (take 1 b ++ r) ≡ r
drop-take_one [] r h = absurd (omega arith)
drop-take_one (c ∷ b) r h = refl

with_number-length :
    (number : Bytes) (ucmd : Ucmd)
    → 2 + length number ≤ length ucmd.buf
    → length (with_number number ucmd).buf ≡ length ucmd.buf
with_number-length number ucmd h =
    let more = drop (2 + length number) ucmd.buf in
    omega (
      arith,
      length-append (take 1 ucmd.buf ++ number) (0 ∷ more),
      length-append (take 1 ucmd.buf) number,
      length-take 1 ucmd.buf,
      length-drop (2 + length number) ucmd.buf,
    )

-- A number of at most 32 characters, in front of a comma, reaches the clients whole: the event that is
-- sent has the number as a C string behind the octet of its type, is as long as it was, and has the kind
-- given in its header. The parameter has no zero, and the message got has the length asked for.
pub address_event-number :
    (memory : ℕ → Option Bytes) (users : List User) (fresh : Ucmd) (evt n : ℕ) (param : Bytes)
    → length fresh.buf ≡ auxdata_size
    → is_text param ≡ true
    → find_char b',' param ≡ some n
    → n ≤ addr_maxlen
    → (ucmd : Ucmd) × (address_event memory users (some fresh) evt param
        ≡ sent (usock_evt_send memory users ucmd evt))
      × (c_string_at ucmd.buf 1 ≡ some (take n param))
      × (length ucmd.buf ≡ auxdata_size)
      × (ucmd.msg_type ≡ msg_event)
      × (ucmd.msg_subtype ≡ evt)
      × (ucmd.len ≡ auxdata_size)
      × (ucmd.id ≡ fresh.id)
unfolding address_event
address_event-number memory users fresh evt n param size text e h =
    let number = take n param in
    let built : Ucmd = record fresh {
      msg_type = msg_event;
      msg_subtype = evt;
      len = auxdata_size;
    } in
    let more = drop (2 + length number) built.buf in
    (
      with_number number built,
      rw (e, address_event, le→ltb_false addr_maxlen n h) refl,
      rw
          (
            append_assoc (take 1 fresh.buf) number (0 ∷ more),
            drop-take_one fresh.buf (number ++ 0 ∷ more) (omega arith),
          )
          (c_string-take n param more text),
      with_number-length number built (omega (arith, length-take n param)) ∙ size,
      refl,
      refl,
      refl,
      refl,
    )
