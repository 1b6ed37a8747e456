-- ===== src/Tests/Messages.antt =====
-- Short messages: a text of two characters to the number 123.
use system_test_suite.Base.{
  ℕ, ◌-◌, ◌*◌, length-zeros, ◌≡◌, ◌≢◌, ◌⊎◌, inr, refl, false, some, [], ◌∷◌, arith, Bytes, codes,
  length, zeros,
}
use system_test_suite.Sms.Types.{SmsSubmit, SmsList}
use system_test_suite.Sms.Dcs.{sms_pdu_decode_dcs}
use system_test_suite.Sms.Dcs.Table.{
  sms_pdu_decode_dcs_table, table_alphabet, table_class, table_group, table_kind, table_active,
  table_compressed,
}
use system_test_suite.Sms.Address.{sms_data_bytelen}
use system_test_suite.Sms.Pdu.{sms_pdu_to_msg}
use system_test_suite.Sms.Submit.{submit_octets}
use system_test_suite.Sms.RoundTrip.{IsSendable, received, sms_pdu_to_msg-submit_octets}
use system_test_suite.Sms.Safety.{IsStored, sms_pdu_to_msg-IsStored}
use system_test_suite.Sms.Cbs.{Cbm, cbm_max_pdu_size, cbs_pdu_to_msg}
use system_test_suite.Sms.Cbs.Page.{cbs_pdu_to_msg_total}

abbrev pub greeting : SmsSubmit
greeting = record {
  addr = record { type = 0x91; number = codes "123" };
  payload = record {
    length = 2;
    coding_scheme = 4;
    has_header = false;
    is_voicemail = false;
    dcs = sms_pdu_decode_dcs 4;
    payload_data = codes "Hi";
  };
  ask_ds = false;
}

abbrev pub empty_msg : SmsList
empty_msg = record {
  index = 0;
  time_stamp = [];
  addr = record { type = 0; number = [] };
  payload = record {
    length = 0;
    coding_scheme = 0;
    has_header = false;
    is_voicemail = false;
    dcs = sms_pdu_decode_dcs 0;
    payload_data = [];
  };
}

greeting-IsSendable : IsSendable greeting
unfolding sms_data_bytelen
greeting-IsSendable = record {
  type_of_number = omega arith;
  digits = ground arith;
  number_fits = omega arith;
  scheme = inr refl;
  some_data = omega arith;
  data_fits = omega arith;
  data_there = omega arith;
}

sms_pdu_to_msg-submit_octets_example :
    (octets : Bytes) × (submit_octets greeting ≡ some octets)
    × (sms_pdu_to_msg empty_msg octets (length octets - 1) (length octets)
        ≡ some (received greeting empty_msg, 0))
sms_pdu_to_msg-submit_octets_example =
    sms_pdu_to_msg-submit_octets greeting empty_msg greeting-IsSendable

-- the octets of that message, and one more
abbrev greeting_octets : Bytes
greeting_octets = 0 ∷ 1 ∷ 0 ∷ 3 ∷ 0x91 ∷ 0x21 ∷ 0xf3 ∷ 0 ∷ 4 ∷ 2 ∷ 72 ∷ 105 ∷ 0 ∷ []

sms_pdu_to_msg-IsStored_example :
    (m : SmsList) × (rc : ℕ) × (sms_pdu_to_msg empty_msg greeting_octets 11 12 ≡ some (m, rc))
    × (IsStored m ⊎ (rc ≢ 0))
sms_pdu_to_msg-IsStored_example =
    sms_pdu_to_msg-IsStored empty_msg greeting_octets 11 12 (omega arith)

sms_pdu_decode_dcs_table_example :
    ((sms_pdu_decode_dcs 0xc8).alphabet ≡ table_alphabet 0xc8)
    × ((sms_pdu_decode_dcs 0xc8).msg_class ≡ table_class 0xc8)
    × ((sms_pdu_decode_dcs 0xc8).mwi_group ≡ table_group 0xc8)
    × ((sms_pdu_decode_dcs 0xc8).mwi_kind ≡ table_kind 0xc8)
    × ((sms_pdu_decode_dcs 0xc8).mwi_active ≡ table_active 0xc8)
    × ((sms_pdu_decode_dcs 0xc8).is_compressed ≡ 32 * table_compressed 0xc8)
sms_pdu_decode_dcs_table_example = sms_pdu_decode_dcs_table 0xc8 (omega arith)

-- two characters of UCS2, of an SMS-DELIVER with the data coding octet 8
ucs2_named : (sms_pdu_decode_dcs 8).alphabet ≡ 2
unfolding sms_pdu_decode_dcs
ucs2_named = refl

abbrev no_page : Cbm
no_page = record {
  scope = 0;
  msg_code = 0;
  update_num = 0;
  msg_id = 0;
  language = 0;
  coding_scheme = 0;
  pages = 0;
  page = 0;
  page_data = [];
}

abbrev page_size : ℕ
page_size = 88

cbs_pdu_to_msg_total_example :
    ((cbs_pdu_to_msg no_page (zeros 88) page_size page_size ≡ some (no_page, 1))
      × ((page_size ≢ page_size) ⊎ (page_size ≢ cbm_max_pdu_size)))
    ⊎ ((m : Cbm) × (cbs_pdu_to_msg no_page (zeros 88) page_size page_size ≡ some (m, 0))
        × (page_size ≡ page_size)
        × (page_size ≡ cbm_max_pdu_size)
        × (length m.page_data ≡ 82))
cbs_pdu_to_msg_total_example =
    cbs_pdu_to_msg_total no_page (zeros 88) page_size page_size (omega (arith, length-zeros 88))
