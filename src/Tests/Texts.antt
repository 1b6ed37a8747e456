-- ===== src/Tests/Texts.antt =====
-- A text that a client sends.
use system_test_suite.Base.{
  ℕ, ◌+◌, ◌-◌, ◌/◌, ◌*◌, ◌≤◌, ◌≡◌, some, refl, true, false, [], ◌∷◌, ◌++◌, Bytes, codes, arith,
  replicate, length, drop,
}
use system_test_suite.Base.Text.{c_string}
use system_test_suite.Base.Int.{pos}
use system_test_suite.Sms.Types.{Addr, Sms, SmsSubmit, SmsList}
use system_test_suite.Sms.Pdu.{sms_pdu_to_msg}
use system_test_suite.Sms.Submit.{submit_octets}
use system_test_suite.Usock.Shortmsg.{submit_at}
use system_test_suite.Usock.Message.{hdr_size}
use system_test_suite.Libgsmd.{sent}
use system_test_suite.Libgsmd.Sevenbit.{
  LgsmSms, packed, packing_7bit_character, unpacking_7bit_character,
}
use system_test_suite.Libgsmd.Sevenbit.RoundTrip.{IsText, unpacking-packing_7bit_character}
use system_test_suite.Libgsmd.Messages.{lgsm_number2addr, lgsm_sms_send}
use system_test_suite.Libgsmd.Stored.{text-stored_read}

abbrev hello : Bytes
hello = codes "Hello!!"

hello-IsText : IsText hello
hello-IsText = (
  (omega arith, omega arith),
  (
    (omega arith, omega arith),
    (
      (omega arith, omega arith),
      (
        (omega arith, omega arith),
        (
          (omega arith, omega arith),
          ((omega arith, omega arith), ((omega arith, omega arith), tt)),
        ),
      ),
    ),
  ),
)

abbrev draft : LgsmSms
draft = record {
  addr = codes "+886912";
  alpha = 0;
  sms_data = replicate 141 0;
  length = 0;
  ask_ds = true;
}

abbrev no_sms : Sms
no_sms = record {
  length = 0;
  coding_scheme = 0;
  has_header = false;
  is_voicemail = false;
  dcs = record {
    msg_class = 0;
    alphabet = 0;
    is_compressed = 0;
    mwi_group = 0;
    mwi_active = 0;
    mwi_kind = 0;
    raw_dcs_data = 0;
  };
  payload_data = replicate 164 0;
}

unpacking-packing_7bit_character_example :
    let octets = (packed 0 hello).0 in
    let sent = record draft {
      alpha = 0;
      sms_data = octets ++ drop (length octets) draft.sms_data;
      length = (packed 0 hello).1;
    } in
    (packing_7bit_character hello draft ≡ some (sent, length octets))
    × (length hello ≤ sent.length)
    × (sent.length ≤ length hello + 1)
    × (length octets ≡ (sent.length * 7 + 7) / 8)
    × (out : Bytes) × (unpacking_7bit_character (record no_sms {
      has_header = false;
      payload_data = octets ++ 0 ∷ replicate 3 0;
      length = sent.length;
    })
        ≡ some out)
    × (c_string out ≡ some hello)
unpacking-packing_7bit_character_example =
    unpacking-packing_7bit_character hello draft no_sms 0 (replicate 3 0) hello-IsText (omega arith)
      (omega arith)

abbrev no_msg : SmsList
no_msg = record {
  index = 0;
  time_stamp = [];
  addr = record { type = 0; number = [] };
  payload = no_sms;
}

abbrev taiwan : Addr
taiwan = record { type = 145; number = codes "886912" }

text-stored_read_example :
    (sms : LgsmSms) × (n : ℕ) × (packing_7bit_character hello draft ≡ some (sms, n))
    × (octets : Bytes) × (lgsm_sms_send true 7 (pos 248) sms ≡ sent octets (pos 0))
    × (submit : SmsSubmit) × (submit_at (drop hdr_size octets ++ codes "left") 0 ≡ some submit)
    × (pdu : Bytes) × (submit_octets submit ≡ some pdu)
    × (msg : SmsList) × (sms_pdu_to_msg no_msg pdu (length pdu - 1) (length pdu) ≡ some (msg, 0))
    × (msg.addr ≡ taiwan)
    × (out : Bytes) × (unpacking_7bit_character
          (record msg.payload { payload_data = msg.payload.payload_data ++ 0 ∷ [] })
        ≡ some out)
    × (c_string out ≡ some hello)
unfolding lgsm_number2addr
text-stored_read_example =
    text-stored_read hello draft taiwan 7 (codes "left") no_msg 0 [] hello-IsText (omega arith)
      (omega arith) refl refl (omega arith)
