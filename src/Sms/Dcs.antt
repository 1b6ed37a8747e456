-- ===== src/Sms/Dcs.antt =====
-- `sms_pdu_decode_dcs`: the TP-DCS octet of GSM 03.38, clause 4.
pub mod Table
use Prim.Native.Nat.{bit_and}
use system_test_suite.Base.{ℕ, ◌+◌, ◌/◌, Bool, not, ◌&&◌, ltb, ◌==◌, if◌then◌else◌}
use system_test_suite.Sms.Types.{DataCodingScheme}

abbrev pub msg_class_none : ℕ
msg_class_none = 4

abbrev pub sms_alphabet_7_bit_default : ℕ
sms_alphabet_7_bit_default = 0

abbrev pub sms_alphabet_8_bit : ℕ
sms_alphabet_8_bit = 1

abbrev pub sms_alphabet_ucs2 : ℕ
sms_alphabet_ucs2 = 2

-- `enum gsmd_sms_msg_waiting_group`
abbrev pub message_waiting_none : ℕ
message_waiting_none = 0

abbrev pub message_waiting_discard : ℕ
message_waiting_discard = 1

abbrev pub message_waiting_store : ℕ
message_waiting_store = 2

abbrev pub message_waiting_none_1111 : ℕ
message_waiting_none_1111 = 3

-- `enum gsmd_sms_msg_waiting_type`
abbrev pub message_waiting_voicemail : ℕ
message_waiting_voicemail = 0

abbrev pub message_waiting_other : ℕ
message_waiting_other = 3

-- a bit test of C, `data[pos] & mask`
abbrev pub test_bits : ℕ → ℕ → Bool
test_bits b mask = not (bit_and b mask == 0)

-- pattern 00xx xxxx
abbrev general_group : ℕ → DataCodingScheme
general_group b = record {
  msg_class = if test_bits b 0x10 then bit_and b 0x03 else msg_class_none;
  alphabet = bit_and b 0x0C / 4;
  is_compressed = bit_and b 0x20;
  mwi_group = message_waiting_none;
  mwi_active = 0;
  mwi_kind = message_waiting_other;
  raw_dcs_data = b;
}

-- pattern 1111 xxxx
abbrev class_group : ℕ → DataCodingScheme
class_group b = record {
  msg_class = bit_and b 0x03;
  alphabet = if test_bits b 0x04 then sms_alphabet_8_bit else sms_alphabet_7_bit_default;
  is_compressed = 0;
  mwi_group = message_waiting_none_1111;
  mwi_active = 0;
  mwi_kind = message_waiting_other;
  raw_dcs_data = b;
}

-- patterns 1100 xxxx, 1101 xxxx and 1110 xxxx
abbrev waiting_group : ℕ → DataCodingScheme
waiting_group b = record {
  msg_class = msg_class_none;
  alphabet =
      if bit_and b 0x30 == 0x00
      then sms_alphabet_7_bit_default
      else if bit_and b 0x30 == 0x10
      then sms_alphabet_7_bit_default
      else sms_alphabet_ucs2;
  is_compressed = 0;
  mwi_group = if bit_and b 0x30 == 0x00 then message_waiting_discard else message_waiting_store;
  mwi_active = if test_bits b 0x08 then 1 else 0;
  mwi_kind = bit_and b 0x03;
  raw_dcs_data = b;
}

abbrev reserved_group : ℕ → DataCodingScheme
reserved_group b = record {
  msg_class = msg_class_none;
  alphabet = sms_alphabet_7_bit_default;
  is_compressed = 0;
  mwi_group = message_waiting_none;
  mwi_active = 0;
  mwi_kind = message_waiting_other;
  raw_dcs_data = b;
}

-- the `switch` on bits 7-6
abbrev decode_group : ℕ → DataCodingScheme
decode_group b =
    let i = bit_and b 0xC0 / 64 in
    if i == 0
    then general_group b
    else if i == 3
    then if bit_and b 0x30 == 0x30 then class_group b else waiting_group b
    else reserved_group b

-- Every field is assigned on every path, so the structure passed in does not matter.
unfoldable pub sms_pdu_decode_dcs : ℕ → DataCodingScheme
sms_pdu_decode_dcs b =
    let dcs = decode_group b in
    if ltb sms_alphabet_ucs2 dcs.alphabet
    then record dcs { alphabet = sms_alphabet_7_bit_default }
    else dcs
