-- ===== src/Usock/Incoming/Inlined.antt =====
-- A message that the modem hands on at once.
use mathlib.Core.Option
use system_test_suite.Base.{
  ℕ, zero, suc, ◌+◌, ◌-◌, ◌*◌, ◌/◌, ◌%◌, ◌^◌, ◌≤◌, ◌<◌, ◌≡◌, refl, ap, ◌∙◌, true, false, Option,
  none, some, inl, inr, [], ◌∷◌, ◌++◌, Bool-cases, ltb, lt→ltb, ◌==◌, ==_iff, if◌then◌else◌, Bytes,
  All, length, drop, arith,
}
use system_test_suite.Base.Int.{negsuc}
use system_test_suite.Atcmd.Queue.{find_char}
use system_test_suite.Atcmd.Mlparse.Texts.{is_space, is_digit, digits_value, strtoul, to_int32}
use system_test_suite.Sms.Digits.{IsDigit}
use system_test_suite.Sms.Types.{SmsList}
use system_test_suite.Sms.Submit.{hex_digit, to_hex}
use system_test_suite.Sms.Pdu.{sms_pdu_to_msg}
use system_test_suite.Usock.Incoming.{
  sms_told, refused, after_digits, number_end, pdu_len, sms_max_pdu_size, pdu_octets, numbered,
  sms_inlined, behind_comma, cmt_parse,
}

-- two hexadecimal digits, as `sscanf` is documented to read them
abbrev pub IsHexScan : (ℕ → ℕ → Option ℕ) → Type 0
IsHexScan hex =
    (octet : ℕ) → octet < 256 → hex (hex_digit (octet / 16)) (hex_digit (octet % 16)) ≡ some octet

abbrev pub IsOctets : Bytes → Type 0
IsOctets = All (λ b. b < 256)

hex_digit_plain : (n : ℕ) → ltb (hex_digit n) b'0' ≡ false
hex_digit_plain n = ground arith

pdu_octets-to_hex :
    (hex : ℕ → ℕ → Option ℕ) (room : ℕ) (pdu : Bytes)
    → IsHexScan hex
    → IsOctets pdu
    → length pdu ≤ room
    → pdu_octets hex room (to_hex pdu) ≡ some pdu
unfolding pdu_octets to_hex
pdu_octets-to_hex hex zero [] scans v h = refl
pdu_octets-to_hex hex (suc room) [] scans v h = refl
pdu_octets-to_hex hex zero (b ∷ pdu) scans v h = absurd (omega arith)
pdu_octets-to_hex hex (suc room) (b ∷ pdu) scans (small, v) h =
    rw
      (
        hex_digit_plain (b / 16),
        hex_digit_plain (b % 16),
        scans b small,
        pdu_octets-to_hex hex room pdu scans v (omega arith),
      )
      refl

digit_test : (c : ℕ) → IsDigit c → is_digit c ≡ true
digit_test c h = ground arith

-- the digits in front of a newline
digits_value-newline :
    (acc : ℕ) (ds rest : Bytes) → digits_value acc (ds ++ b'\n' ∷ rest) ≡ digits_value acc ds
unfolding digits_value
digits_value-newline acc [] rest = refl
digits_value-newline acc (d ∷ ds) rest =
    ap (λ v. if is_digit d then v else acc) (digits_value-newline (acc * 10 + (d - b'0')) ds rest)

after_digits-newline :
    (ds rest : Bytes) → All IsDigit ds → after_digits (ds ++ b'\n' ∷ rest) ≡ b'\n' ∷ rest
unfolding after_digits
after_digits-newline [] rest v = refl
after_digits-newline (d ∷ ds) rest (h, v) = rw (digit_test d h, after_digits-newline ds rest v) refl

digit_only :
    (d : ℕ) → IsDigit d → (is_space d ≡ false) × ((d == b'+') ≡ false) × ((d == b'-') ≡ false)
digit_only d h = (ground arith, ground arith, ground arith)

number_read :
    (ds rest : Bytes)
    → All IsDigit ds
    → 1 ≤ length ds
    → digits_value 0 ds < 2 ^ 31
    → (number_end (ds ++ b'\n' ∷ rest) ≡ b'\n' ∷ rest)
      × (pdu_len (to_int32 (strtoul (ds ++ b'\n' ∷ rest))) ≡ digits_value 0 ds)
unfolding number_end strtoul
number_read [] rest v h small = absurd (omega arith)
number_read (d ∷ ds) rest (hd, v) h small =
    let (space, plus, minus) = digit_only d hd in
    let digit = digit_test d hd in
    let value = digits_value-newline 0 (d ∷ ds) rest in
    (
      rw (space, plus, minus, digit, after_digits-newline ds rest v) refl,
      rw
          (
            space,
            minus,
            plus,
            value,
            lt→ltb (digits_value 0 (d ∷ ds)) (2 ^ 32) (omega arith),
            lt→ltb (digits_value 0 (d ∷ ds)) (2 ^ 31) small,
          )
          refl,
    )

unmapped : (o : Option ℕ) → Option.map suc o ≡ none → o ≡ none
unmapped none h = refl
unmapped (some k) h = absurd cc

find_char-append :
    (c : ℕ) (s rest : Bytes) → find_char c s ≡ none → find_char c (s ++ c ∷ rest) ≡ some (length s)
unfolding find_char
find_char-append c [] rest h = rw ((==_iff c c).1 refl) refl
find_char-append c (d ∷ s) rest h = elim (Bool-cases (c == d)) [
  | inl y ↦ absurd (cc (rw y at h))
  | inr n ↦ rw (n, find_char-append c s rest (unmapped (find_char c s) (rw n at h))) refl
]

behind_lem : (s rest : Bytes) → drop (suc (length s)) (s ++ b',' ∷ rest) ≡ rest
behind_lem [] rest = refl
behind_lem (c ∷ s) rest = behind_lem s rest

-- A line of +CMT with a length and a newline, and then the hexadecimal digits of a PDU of at most 180 octets: the
-- decoder gets the octets of the PDU and the length, and the message that it makes is sent to the clients as
-- an incoming short message, or -EINVAL is returned if it refuses the PDU. The text in front of the
-- length has no comma, the length is a number of an `int`, and `hex` reads two digits.
pub cmt_parse-sms_pdu_to_msg :
    (hex : ℕ → ℕ → Option ℕ) (dst msg : SmsList) (alpha ds pdu : Bytes) (rc : ℕ)
    → IsHexScan hex
    → find_char b',' alpha ≡ none
    → All IsDigit ds
    → 1 ≤ length ds
    → digits_value 0 ds < 2 ^ 31
    → IsOctets pdu
    → length pdu ≤ sms_max_pdu_size
    → sms_pdu_to_msg dst pdu (digits_value 0 ds) (length pdu) ≡ some (msg, rc)
    → cmt_parse hex true dst (alpha ++ b',' ∷ (ds ++ b'\n' ∷ to_hex pdu))
      ≡ some (if rc == 0 then sms_told 2 msg else refused (negsuc 21))
unfolding cmt_parse
cmt_parse-sms_pdu_to_msg hex dst msg alpha ds pdu rc scans plain v some_digit small octets fits
      decoded =
    let tail = ds ++ b'\n' ∷ to_hex pdu in
    let (ended, value) = number_read ds (to_hex pdu) v some_digit small in
    let on = sms_inlined hex 2 dst in
    ap (λ o. behind_comma hex o (alpha ++ b',' ∷ tail) (λ s. numbered hex s on))
      (find_char-append b',' alpha tail plain)
    ∙ ap (λ s. numbered hex s on) (behind_lem alpha tail)
    ∙ rw (ended, value, pdu_octets-to_hex hex sms_max_pdu_size pdu scans octets fits, decoded) refl
