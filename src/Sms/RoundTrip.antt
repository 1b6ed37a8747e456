-- ===== src/Sms/RoundTrip.antt =====
-- A message that `sms_pdu_make_smssubmit` encodes is read back by `sms_pdu_to_msg`.
mod Parts
use Prim.Native.Nat.{bit_and}
use system_test_suite.Base.{
  ℕ, ◌+◌, ◌-◌, ◌/◌, ◌%◌, ◌≤◌, ◌≡◌, ◌≢◌, ◌⊎◌, inl, inr, refl, false, some, [], ◌∷◌, ◌++◌,
  append_assoc, arith, Bytes, length, take, zeros, All, drop_at, Bool-cases, slice-cons, slice-take,
  take_self, le→ltb_false, length-append, length-take,
}
use system_test_suite.Sms.Types.{
  SmsSubmit, SmsList, gsmd_addr_maxlen, gsmd_sms_data_maxlen, alphabet_default, alphabet_8bit,
  gsmd_toa_ton_alphanumeric, gsmd_toa_ton_mask, tp_mti_submit, tp_udhi_with_header,
}
use system_test_suite.Sms.Dcs.{test_bits}
use system_test_suite.Sms.Address.{sms_number_bytelen, sms_data_bytelen}
use system_test_suite.Sms.Pdu.{
  coding_scheme, user_data, submit_body, with_address, submit, tpdu, sms_pdu_to_msg,
}
use system_test_suite.Sms.Digits.{number_bytelen_lem, IsDigit, length-number_octets, address_back}
use system_test_suite.Sms.Submit.{number_octets, first_octet, submit_header, submit_octets}
use system_test_suite.Sms.RoundTrip.Parts.{submit_body_back, first_octet_fields, coding_scheme_kept}

-- What the decoder leaves in `dst` for a message sent.
abbrev pub received : SmsSubmit → SmsList → SmsList
received s dst =
    let count = sms_data_bytelen s.payload.coding_scheme s.payload.length in
    record dst {
      time_stamp = zeros 7;
      addr = s.addr;
      payload = record dst.payload {
        length = s.payload.length;
        coding_scheme = s.payload.coding_scheme;
        has_header = s.payload.has_header;
        is_voicemail = false;
        payload_data = take count s.payload.payload_data;
      };
    }

-- A message that the two agree on: a number of at most 32 digits whose type is not alphanumeric, the
-- default or the 8-bit alphabet, and user data of 1 to 164 octets that are there.
pub record IsSendable (s : SmsSubmit) : Type 0 where
  pub type_of_number : bit_and s.addr.type gsmd_toa_ton_mask ≢ gsmd_toa_ton_alphanumeric
  pub digits : All IsDigit s.addr.number
  pub number_fits : length s.addr.number ≤ gsmd_addr_maxlen
  pub scheme :
      (s.payload.coding_scheme ≡ alphabet_default) ⊎ (s.payload.coding_scheme ≡ alphabet_8bit)
  pub some_data : 1 ≤ sms_data_bytelen s.payload.coding_scheme s.payload.length
  pub data_fits : sms_data_bytelen s.payload.coding_scheme s.payload.length ≤ gsmd_sms_data_maxlen
  pub data_there :
      sms_data_bytelen s.payload.coding_scheme s.payload.length ≤ length s.payload.payload_data

submit_back :
    (s : SmsSubmit) (dst : SmsList) (reference pid len : ℕ) (ud : Bytes)
    → IsSendable s
    → length ud ≡ sms_data_bytelen s.payload.coding_scheme s.payload.length
    → len ≡ 7 + (length s.addr.number + 1) / 2 + length ud
    → submit 0 dst
        (first_octet s
          ∷ reference
          ∷ length s.addr.number
          ∷ s.addr.type
          ∷ (number_octets s.addr.number
              ++ (pid ∷ s.payload.coding_scheme ∷ s.payload.length ∷ ud)))
        len
      ≡ some (
        record dst {
          time_stamp = zeros 7;
          addr = s.addr;
          payload = record dst.payload {
            coding_scheme = s.payload.coding_scheme;
            length = s.payload.length;
            payload_data = ud;
          };
        },
        0,
      )
unfolding submit with_address
submit_back s dst reference pid len ud v count total =
    let n = length s.addr.number in
    let i = (n + 1) / 2 in
    let rest = pid ∷ s.payload.coding_scheme ∷ s.payload.length ∷ ud in
    let front = first_octet s ∷ reference ∷ n ∷ s.addr.type ∷ number_octets s.addr.number in
    rw
      (
        number_bytelen_lem s.addr.type n,
        le→ltb_false len 4 (omega arith),
        le→ltb_false len (8 + i) (omega (arith, v.some_data)),
        address_back s.addr dst.addr rest v.type_of_number v.digits v.number_fits,
        drop_at front rest {i = 4 + i} (omega (arith, length-number_octets s.addr.number)),
        submit,
      )
      (submit_body_back (record dst { addr = s.addr }) pid s.payload.coding_scheme s.payload.length
        (len - (4 + i)) ud (coding_scheme_kept _ v.scheme) count (omega (arith, v.data_fits))
        (omega arith))

tpdu_back :
    (s : SmsSubmit) (dst : SmsList) (reference pid len : ℕ) (ud : Bytes)
    → IsSendable s
    → length ud ≡ sms_data_bytelen s.payload.coding_scheme s.payload.length
    → len ≡ 7 + (length s.addr.number + 1) / 2 + length ud
    → tpdu dst
        (first_octet s
          ∷ reference
          ∷ length s.addr.number
          ∷ s.addr.type
          ∷ (number_octets s.addr.number
              ++ (pid ∷ s.payload.coding_scheme ∷ s.payload.length ∷ ud)))
        len
      ≡ some (
        record dst {
          time_stamp = zeros 7;
          addr = s.addr;
          payload = record dst.payload {
            has_header = s.payload.has_header;
            coding_scheme = s.payload.coding_scheme;
            length = s.payload.length;
            payload_data = ud;
          };
        },
        0,
      )
unfolding tpdu
tpdu_back s dst reference pid len ud v count total =
    let f = first_octet_fields s in
    rw (f.0, f.1, f.2)
      (submit_back s
        (record dst { payload = record dst.payload { has_header = s.payload.has_header } })
        reference pid len ud v count total)

whole_back :
    (s : SmsSubmit) (dst : SmsList) (ud : Bytes) (len : ℕ)
    → IsSendable s
    → length ud ≡ sms_data_bytelen s.payload.coding_scheme s.payload.length
    → len ≡ 8 + (length s.addr.number + 1) / 2 + length ud
    → sms_pdu_to_msg dst
        (0
          ∷ first_octet s
          ∷ 0
          ∷ length s.addr.number
          ∷ s.addr.type
          ∷ (number_octets s.addr.number ++ (0 ∷ s.payload.coding_scheme ∷ s.payload.length ∷ ud)))
        (len - 1)
        len
      ≡ some (
        record dst {
          time_stamp = zeros 7;
          addr = s.addr;
          payload = record dst.payload {
            is_voicemail = false;
            has_header = s.payload.has_header;
            coding_scheme = s.payload.coding_scheme;
            length = s.payload.length;
            payload_data = ud;
          };
        },
        0,
      )
unfolding sms_pdu_to_msg
whole_back s dst ud len v count total =
    rw
      (
        le→ltb_false len 1 (omega arith),
        le→ltb_false len (1 + 0 + (len - 1)) (omega arith),
        le→ltb_false (len - 1) 1 (omega arith),
      )
      (tpdu_back s (record dst { payload = record dst.payload { is_voicemail = false } }) 0 0
        (len - 1) ud v count (omega arith))

-- A sendable message is encoded with no read outside its data, and the octets encoded, taken whole,
-- are decoded with return code 0 into the message that was sent: the same number and type of
-- number, header mark, coding scheme, length and user data, no voice mail mark, and a time stamp
-- of zeros. The index and the decoded data coding scheme stay as they were in `dst`.
pub sms_pdu_to_msg-submit_octets :
    (s : SmsSubmit) (dst : SmsList)
    → IsSendable s
    → (octets : Bytes) × (submit_octets s ≡ some octets)
      × (sms_pdu_to_msg dst octets (length octets - 1) (length octets) ≡ some (received s dst, 0))
unfolding submit_octets submit_header
sms_pdu_to_msg-submit_octets s dst v =
    let count = sms_data_bytelen s.payload.coding_scheme s.payload.length in
    let ud = take count s.payload.payload_data in
    let one_octet : length s.addr.number % 256 ≡ length s.addr.number =
      omega (arith, v.number_fits) in
    let size =
      length-append (number_octets s.addr.number)
        (0 ∷ s.payload.coding_scheme ∷ s.payload.length ∷ ud) in
    let there : length ud ≡ count =
      omega (arith, length-take count s.payload.payload_data, v.data_there) in
    (
      submit_header s ++ ud,
      rw (slice-take s.payload.payload_data count v.data_there),
      rw
          (
            one_octet,
            append_assoc (number_octets s.addr.number)
                (0 ∷ s.payload.coding_scheme ∷ s.payload.length ∷ []) ud,
          )
          (whole_back s dst ud _ v there (omega (arith, size, length-number_octets s.addr.number))),
    )
