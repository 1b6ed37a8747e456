-- ===== src/Sms/RoundTrip/Parts.antt =====
-- The parts of a message sent, read back one by one.
use Prim.Native.Nat.{bit_and}
use system_test_suite.Base.{
  ℕ, ◌+◌, ◌-◌, ◌/◌, ◌≤◌, ◌≡◌, ◌⊎◌, inl, inr, refl, some, ◌∷◌, arith, Bytes, length, zeros,
  Bool-cases, slice-cons, slice-take, take_self, le→ltb_false,
}
use system_test_suite.Sms.Types.{
  SmsSubmit, SmsList, gsmd_sms_data_maxlen, alphabet_default, alphabet_8bit, tp_mti_submit,
  tp_udhi_with_header,
}
use system_test_suite.Sms.Dcs.{test_bits}
use system_test_suite.Sms.Address.{sms_data_bytelen}
use system_test_suite.Sms.Pdu.{coding_scheme, user_data, submit_body}
use system_test_suite.Sms.Submit.{first_octet}

user_data_back :
    (dst : SmsList) (udl len : ℕ) (ud : Bytes)
    → length ud ≡ sms_data_bytelen dst.payload.coding_scheme udl
    → length ud ≤ gsmd_sms_data_maxlen
    → 1 + length ud ≤ len
    → user_data dst (udl ∷ ud) len
      ≡ some (record dst { payload = record dst.payload { length = udl; payload_data = ud } }, 0)
unfolding user_data
user_data_back dst udl len ud count fits room = rw (
  ← count,
  le→ltb_false len (1 + length ud) room,
  le→ltb_false gsmd_sms_data_maxlen (length ud) fits,
  slice-cons udl ud 0 (length ud),
  slice-take ud (length ud) (omega arith),
  take_self ud,
)

pub submit_body_back :
    (dst : SmsList) (pid dcs udl len : ℕ) (ud : Bytes)
    → coding_scheme dcs ≡ some dcs
    → length ud ≡ sms_data_bytelen dcs udl
    → length ud ≤ gsmd_sms_data_maxlen
    → 3 + length ud ≤ len
    → submit_body 0 dst (pid ∷ dcs ∷ udl ∷ ud) len
      ≡ some (
        record dst {
          time_stamp = zeros 7;
          payload = record dst.payload { coding_scheme = dcs; length = udl; payload_data = ud };
        },
        0,
      )
unfolding submit_body
submit_body_back dst pid dcs udl len ud scheme count fits room = rw scheme (
    user_data_back
      (record dst { time_stamp = zeros 7; payload = record dst.payload { coding_scheme = dcs } })
      udl (len - 2) ud count fits (omega arith))

pub first_octet_fields :
    (s : SmsSubmit)
    → (test_bits (first_octet s) tp_udhi_with_header ≡ s.payload.has_header)
      × (bit_and (first_octet s / 8) 3 ≡ 0)
      × (bit_and (first_octet s) 3 ≡ tp_mti_submit)
unfolding first_octet
first_octet_fields s = elim (Bool-cases s.ask_ds) [
  | inl asked ↦ elim (Bool-cases s.payload.has_header) [
    | inl header ↦ rw (asked, header) (refl, refl, refl)
    | inr plain ↦ rw (asked, plain) (refl, refl, refl)
  ]
  | inr quiet ↦ elim (Bool-cases s.payload.has_header) [
    | inl header ↦ rw (quiet, header) (refl, refl, refl)
    | inr plain ↦ rw (quiet, plain) (refl, refl, refl)
  ]
]

pub coding_scheme_kept :
    (dcs : ℕ) → (dcs ≡ alphabet_default) ⊎ (dcs ≡ alphabet_8bit) → coding_scheme dcs ≡ some dcs
unfolding coding_scheme
coding_scheme_kept dcs (inl e) = rw e
coding_scheme_kept dcs (inr e) = rw e
