-- ===== src/Sms/Submit.antt =====
-- `sms_pdu_make_smssubmit`. A `char` is unsigned, as on the phone's ARM.
use Prim.Native.Nat.{bit_or}
use system_test_suite.Base.{
  ℕ, ◌+◌, ◌-◌, ◌*◌, ◌/◌, ◌%◌, Option, some, [], ◌∷◌, ◌++◌, ltb, if◌then◌else◌, Bytes, length, slice,
  ◌>>=◌,
}
use system_test_suite.Sms.Types.{
  SmsSubmit, tp_mti_submit, tp_srr_status_request, tp_udhi_with_header,
}
use system_test_suite.Sms.Address.{sms_data_bytelen}

-- an octet of `header`
abbrev u8 : ℕ → ℕ
u8 n = n % 256

-- `number[i] - '0'`, as the octet that it is stored in
abbrev nibble : ℕ → ℕ
nibble c = u8 (c + 256 - b'0')

-- `header[pos] = number[i] - '0'; header[pos ++] |= (number[i + 1] - '0') << 4;`
unfoldable pub digit_pair : ℕ → ℕ → ℕ
digit_pair c d = bit_or (nibble c) (u8 (nibble d * 16))

-- the last digit of an odd number of them
unfoldable pub digit_last : ℕ → ℕ
digit_last c = bit_or (nibble c) 0xf0

unfoldable pub number_octets : Bytes → Bytes
unfolding digit_pair digit_last
number_octets [] = []
number_octets (c ∷ []) = digit_last c ∷ []
number_octets (c ∷ d ∷ number) = digit_pair c d ∷ number_octets number

-- the TP-MTI octet
unfoldable pub first_octet : SmsSubmit → ℕ
first_octet src =
    bit_or (bit_or tp_mti_submit (if src.ask_ds then tp_srr_status_request else 0))
      (if src.payload.has_header then tp_udhi_with_header else 0)

-- `header`, up to `pos`
unfoldable pub submit_header : SmsSubmit → Bytes
unfolding number_octets first_octet
submit_header src =
    0x00
    ∷ first_octet src
    ∷ 0x00
    ∷ u8 (length src.addr.number)
    ∷ src.addr.type
    ∷ (number_octets src.addr.number
        ++ (0x00 ∷ src.payload.coding_scheme ∷ src.payload.length ∷ []))

-- The octets of the PDU: the header and `len` octets of the data, `none` where that reads past
-- the data.
unfoldable pub submit_octets : SmsSubmit → Option Bytes
unfolding submit_header
submit_octets src = do
  user_data ←
      slice src.payload.payload_data 0
        (sms_data_bytelen src.payload.coding_scheme src.payload.length)
  some (submit_header src ++ user_data)

-- "%02X" of an octet
abbrev pub hex_digit : ℕ → ℕ
hex_digit n = if ltb n 10 then b'0' + n else b'A' + n - 10

unfoldable pub to_hex : Bytes → Bytes
to_hex [] = []
to_hex (b ∷ bytes) = hex_digit (b / 16) ∷ hex_digit (b % 16) ∷ to_hex bytes

-- What is written to `dest`, and the number of octets returned.
unfoldable pub sms_pdu_make_smssubmit : SmsSubmit → Option (Bytes × ℕ)
unfolding submit_octets to_hex
sms_pdu_make_smssubmit src = do octets ← submit_octets src; some (to_hex octets, length octets)
