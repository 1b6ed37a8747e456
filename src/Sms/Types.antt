-- ===== src/Sms/Types.antt =====
-- The records and constants of usock.h that sms_pdu.c works on. An octet is a number below 256, an
-- `int` that is only a truth value is a Bool, and a `char` array is the bytes stored in front of
-- the terminating zero.
use system_test_suite.Base.{ℕ, Bool, Bytes}

abbrev pub gsmd_addr_maxlen : ℕ
gsmd_addr_maxlen = 32

abbrev pub gsmd_sms_data_maxlen : ℕ
gsmd_sms_data_maxlen = 164

-- `enum gsmd_sms_alphabet`; the source writes the last as `0x10 << 2`
abbrev pub alphabet_default : ℕ
alphabet_default = 0

abbrev pub alphabet_8bit : ℕ
alphabet_8bit = 0x04

abbrev pub alphabet_ucs2 : ℕ
alphabet_ucs2 = 0x40

-- `enum gsmd_toa_ton`
abbrev pub gsmd_toa_ton_alphanumeric : ℕ
gsmd_toa_ton_alphanumeric = 0x50

abbrev pub gsmd_toa_ton_mask : ℕ
gsmd_toa_ton_mask = 0x70

-- `enum gsmd_sms_tp_mti`
abbrev pub tp_mti_deliver : ℕ
tp_mti_deliver = 0

abbrev pub tp_mti_submit : ℕ
tp_mti_submit = 1

abbrev pub tp_mti_status_report : ℕ
tp_mti_status_report = 2

abbrev pub tp_srr_status_request : ℕ
tp_srr_status_request = 0x20

abbrev pub tp_udhi_with_header : ℕ
tp_udhi_with_header = 0x40

-- `struct gsmd_sms_datacodingscheme`
pub record DataCodingScheme : Type 0 where
  pub msg_class : ℕ
  pub alphabet : ℕ
  pub is_compressed : ℕ
  pub mwi_group : ℕ
  pub mwi_active : ℕ
  pub mwi_kind : ℕ
  pub raw_dcs_data : ℕ

-- `struct gsmd_addr`
pub record Addr : Type 0 where
  pub type : ℕ
  pub number : Bytes

-- `struct gsmd_sms`
pub record Sms : Type 0 where
  pub length : ℕ
  pub coding_scheme : ℕ
  pub has_header : Bool
  pub is_voicemail : Bool
  pub dcs : DataCodingScheme
  pub payload_data : Bytes

-- `struct gsmd_sms_submit`
pub record SmsSubmit : Type 0 where
  pub addr : Addr
  pub payload : Sms
  pub ask_ds : Bool

-- `struct gsmd_sms_list`, with the fields that the decoder writes
pub record SmsList : Type 0 where
  pub index : ℕ
  pub time_stamp : Bytes
  pub addr : Addr
  pub payload : Sms
