-- ===== src/Sms/Dcs/Table.antt =====
-- `sms_pdu_decode_dcs` against the coding table of GSM 03.38, clause 4, over every octet.
use system_test_suite.Base.{
  ℕ, ◌*◌, ◌/◌, ◌%◌, ◌<◌, ◌≡◌, refl, Bool, true, ◌&&◌, ◌||◌, ltb, leb, ◌==◌, if◌then◌else◌,
}
use system_test_suite.Base.Bits.{agree_below, agree_below_sound}
use system_test_suite.Sms.Dcs.{
  msg_class_none, sms_alphabet_7_bit_default, sms_alphabet_ucs2, message_waiting_none,
  message_waiting_discard, message_waiting_store, message_waiting_none_1111, message_waiting_other,
  sms_pdu_decode_dcs,
}

-- The table, by coding group (the high half of the octet) and the values of its low bits.
abbrev pub is_waiting : ℕ → Bool
is_waiting b = leb 12 (b / 16) && leb (b / 16) 14

abbrev pub table_alphabet : ℕ → ℕ
table_alphabet b =
    if ltb b 64
    then if b / 4 % 4 == 3 then sms_alphabet_7_bit_default else b / 4 % 4
    else if b / 16 == 14
    then sms_alphabet_ucs2
    else if b / 16 == 15
    then b / 4 % 2
    else sms_alphabet_7_bit_default

abbrev pub table_class : ℕ → ℕ
table_class b = if (ltb b 64 && b / 16 % 2 == 1) || b / 16 == 15 then b % 4 else msg_class_none

abbrev pub table_group : ℕ → ℕ
table_group b =
    if b / 16 == 12
    then message_waiting_discard
    else if is_waiting b
    then message_waiting_store
    else if b / 16 == 15
    then message_waiting_none_1111
    else message_waiting_none

abbrev pub table_kind : ℕ → ℕ
table_kind b = if is_waiting b then b % 4 else message_waiting_other

abbrev pub table_active : ℕ → ℕ
table_active b = if is_waiting b then b / 8 % 2 else 0

abbrev pub table_compressed : ℕ → ℕ
table_compressed b = if ltb b 64 then b / 32 % 2 else 0

all_octets :
    (agree_below 256 (λ b. (sms_pdu_decode_dcs b).alphabet) table_alphabet ≡ true)
    × (agree_below 256 (λ b. (sms_pdu_decode_dcs b).msg_class) table_class ≡ true)
    × (agree_below 256 (λ b. (sms_pdu_decode_dcs b).mwi_group) table_group ≡ true)
    × (agree_below 256 (λ b. (sms_pdu_decode_dcs b).mwi_kind) table_kind ≡ true)
    × (agree_below 256 (λ b. (sms_pdu_decode_dcs b).mwi_active) table_active ≡ true)
    × (agree_below 256 (λ b. (sms_pdu_decode_dcs b).is_compressed) (λ b. 0x20 * table_compressed b)
        ≡ true)
unfolding agree_below sms_pdu_decode_dcs
all_octets = (refl, refl, refl, refl, refl, refl)

-- For every octet the decoder gives the alphabet, message class and message waiting group, kind and
-- activity of the table. A compressed message is marked by the value 0x20.
pub sms_pdu_decode_dcs_table :
    (b : ℕ)
    → b < 256
    → ((sms_pdu_decode_dcs b).alphabet ≡ table_alphabet b)
      × ((sms_pdu_decode_dcs b).msg_class ≡ table_class b)
      × ((sms_pdu_decode_dcs b).mwi_group ≡ table_group b)
      × ((sms_pdu_decode_dcs b).mwi_kind ≡ table_kind b)
      × ((sms_pdu_decode_dcs b).mwi_active ≡ table_active b)
      × ((sms_pdu_decode_dcs b).is_compressed ≡ 0x20 * table_compressed b)
sms_pdu_decode_dcs_table b h = (
  agree_below_sound 256 _ table_alphabet b all_octets.0 h,
  agree_below_sound 256 _ table_class b all_octets.1 h,
  agree_below_sound 256 _ table_group b all_octets.2 h,
  agree_below_sound 256 _ table_kind b all_octets.3 h,
  agree_below_sound 256 _ table_active b all_octets.4 h,
  agree_below_sound 256 _ (λ b. 0x20 * table_compressed b) b all_octets.5 h,
)
