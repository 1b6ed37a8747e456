-- ===== src/Libgsmd/Pins.antt =====
-- From `lgsm_pin` to the command that enters the PIN.
use system_test_suite.Base.{
  ℕ, ◌-◌, ◌^◌, ◌≤◌, ◌<◌, ◌≡◌, refl, ◌∙◌, true, ◌||◌, some, [], ◌∷◌, ◌++◌, append_assoc,
  lt→leb_false, le→ltb_false, ◌==◌, if◌then◌else◌, Bool-cases, inl, inr, Bytes, codes, length,
  length-append, zeros, length-zeros, zeros-pred, drop_at, arith,
}
use system_test_suite.Base.Int.{ℤ}
use system_test_suite.Base.Text.{c_string, is_text, c_string-append, is_text-append}
use system_test_suite.Usock.Message.{
  MsgHdr, pin_cmd_cb, World, Session, Action, perform, fill, submitted_printed,
}
use system_test_suite.Usock.Calls.{new_pin, pin_entered, usock_rcv_pin}
use system_test_suite.Usock.Client.{handler, usock_rcv_pcmd}
use system_test_suite.Libgsmd.{u32_octets, message_octets, lgsm_gmh_fill, sent}
use system_test_suite.Libgsmd.Layout.{u32_back}
use system_test_suite.Libgsmd.Requests.{text_in, second_pin, gsmd_pin_maxlen, lgsm_pin}
use system_test_suite.Libgsmd.Dialing.{Submits, submitted_printed-Submits, rcv_message}

-- what stands between the PIN and the last quotation mark
abbrev pub entered : ℕ → Bytes → Bytes
entered type newpin = if type == 2 || type == 7 then codes "\",\"" ++ newpin else []

-- the text of the command
abbrev pub pin_text : ℕ → Bytes → Bytes → Bytes
pin_text type pin newpin = codes "AT+CPIN=\"" ++ pin ++ entered type newpin ++ codes "\""

entered_safe :
    (type : ℕ) (newpin : Bytes)
    → is_text newpin ≡ true
    → length newpin ≤ gsmd_pin_maxlen
    → (length (entered type newpin) ≤ 11) × (is_text (entered type newpin) ≡ true)
unfolding is_text
entered_safe type newpin hn fn = elim (Bool-cases (type == 2 || type == 7)) [
  | inl y ↦ rw y (omega arith, hn)
  | inr n ↦ rw n (omega arith, refl)
]

pin_text_safe :
    (type : ℕ) (pin newpin : Bytes)
    → is_text pin ≡ true
    → length pin ≤ gsmd_pin_maxlen
    → is_text newpin ≡ true
    → length newpin ≤ gsmd_pin_maxlen
    → (length (pin_text type pin newpin) < 30) × (is_text (pin_text type pin newpin) ≡ true)
unfolding is_text
pin_text_safe type pin newpin hp fp hn fn =
    let mid = entered type newpin in
    let (short, plain) = entered_safe type newpin hn fn in
    (
      omega (arith, length-append (pin ++ mid) (codes "\""), length-append pin mid, short),
      is_text-append (pin ++ mid) (codes "\"") (is_text-append pin mid hp plain) refl,
    )

pub length-text_in : (size : ℕ) (s : Bytes) → length s ≤ size → length (text_in size s) ≡ size
length-text_in size s h =
    omega (arith, length-append s (zeros (size - length s)), length-zeros (size - length s))

-- a text that is shorter than its array is read back, whatever follows the array
pub text_back :
    (size : ℕ) (s rest : Bytes)
    → is_text s ≡ true
    → length s < size
    → c_string (text_in size s ++ rest) ≡ some s
text_back size s rest plain h =
    rw
      (
        zeros-pred (size - length s) (omega arith),
        append_assoc s (0 ∷ zeros (size - length s - 1)) rest,
      )
      (c_string-append s (zeros (size - length s - 1) ++ rest) plain)

-- the octets of `struct gsmd_pin`, and what follows
abbrev pin_msg : ℕ → Bytes → Bytes → Bytes → Bytes
pin_msg type pin second rest = u32_octets type ++ (text_in 9 pin ++ (text_in 9 second ++ rest))

-- the texts that `usock_rcv_pin` reads
new_pin_back :
    (type : ℕ) (pin newpin rest : Bytes)
    → length pin ≤ gsmd_pin_maxlen
    → is_text newpin ≡ true
    → length newpin ≤ gsmd_pin_maxlen
    → (second : Bytes) × (length second ≤ gsmd_pin_maxlen)
      × (second_pin type (some newpin) ≡ some second)
      × (new_pin type (pin_msg type pin second rest) ≡ some (entered type newpin))
new_pin_back type pin newpin rest hp plain hn = elim (Bool-cases (type == 2 || type == 7)) [
  | inl y ↦ (
    newpin,
    hn,
    rw y refl,
    rw
        (
          y,
          drop_at (text_in 9 pin) (text_in 9 newpin ++ rest) {i = 9}
              (omega (arith, length-text_in 9 pin (omega arith))),
          text_back 9 newpin rest plain (omega arith),
        )
        refl,
  )
  | inr n ↦ ([], omega arith, rw n refl, rw n refl)
]

pin_entered_lem :
    (w : World) (type : ℕ) (pin second newpin rest : Bytes)
    → type < 2 ^ 32
    → is_text pin ≡ true
    → length pin ≤ gsmd_pin_maxlen
    → new_pin type (pin_msg type pin second rest) ≡ some newpin
    → pin_entered w (pin_msg type pin second rest)
      ≡ submitted_printed
          (fill w 0 (codes "AT+CPIN=\"") 30 pin_cmd_cb 0)
          (codes "AT+CPIN=\"" ++ pin ++ newpin ++ codes "\"")
pin_entered_lem w type pin second newpin rest small plain fits e =
    rw (u32_back type small, text_back 9 pin (text_in 9 second ++ rest) plain (omega arith), e) refl

-- PINs of at most 8 characters, C strings, given to `lgsm_pin` with a known type and a new PIN, are sent in one
-- message, whose number has 16 bits. The daemon that reads the message at the start of its array, with
-- memory left, submits one command, which enters the PIN, and
-- the new PIN behind it if the type is a PUK that asks for one. The code that `send` gives is returned.
pub lgsm_pin-entered :
    (w : World) (s : Session) (next_msg_id type : ℕ) (rc : ℤ) (pin newpin rest : Bytes)
    → w.allocated 0 ≡ true
    → next_msg_id < 2 ^ 16
    → type < 16
    → is_text pin ≡ true
    → length pin ≤ gsmd_pin_maxlen
    → is_text newpin ≡ true
    → length newpin ≤ gsmd_pin_maxlen
    → (octets : Bytes) × (lgsm_pin true next_msg_id rc type pin (some newpin) ≡ sent octets rc)
      × (length octets ≡ 30)
      × (a : Action) × (usock_rcv_pcmd w s (octets ++ rest) (length octets)
          ≡ some (perform w.env a s))
      × Submits a (pin_text type pin newpin) 0 (w.cb pin_cmd_cb)
unfolding lgsm_pin handler usock_rcv_pin
lgsm_pin-entered w s next_msg_id type rc pin newpin rest memory hid small plain_pin fits_pin
      plain_new fits_new =
    let (second, brief, chosen, read) =
      new_pin_back type pin newpin rest fits_pin plain_new fits_new in
    let safe = pin_text_safe type pin newpin plain_pin fits_pin plain_new fits_new in
    let gmh : MsgHdr = record (lgsm_gmh_fill 8 1 22) { id = next_msg_id } in
    let payload = u32_octets type ++ (text_in 9 pin ++ text_in 9 second) in
    let octets = message_octets gmh payload in
    let thirty : length octets ≡ 30 = omega (
      arith,
      length-append (text_in 9 pin) (text_in 9 second),
      length-text_in 9 pin (omega arith),
      length-text_in 9 second (omega arith),
    ) in
    let (a, printed, done) =
      submitted_printed-Submits w (codes "AT+CPIN=\"") 30 pin_cmd_cb 0 (pin_text type pin newpin)
        memory safe.0 safe.1 in
    (
      octets,
      rw
          (
            le→ltb_false gsmd_pin_maxlen (length pin) fits_pin,
            le→ltb_false gsmd_pin_maxlen (length newpin) fits_new,
            lt→leb_false 16 type small,
            chosen,
          )
          refl,
      thirty,
      a,
      rcv_message w s gmh payload rest (length octets) hid (omega arith)
          ∙ rw
              (
                thirty,
                append_assoc (text_in 9 pin) (text_in 9 second) rest,
                pin_entered_lem w type pin second (entered type newpin) rest (omega arith) plain_pin
                    fits_pin read,
                printed,
              )
              refl,
      done,
    )
