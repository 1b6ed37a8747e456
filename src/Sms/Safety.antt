-- ===== src/Sms/Safety.antt =====
-- `sms_pdu_to_msg` reads inside the octets it is given and stores what fits its arrays.
mod Address
mod Rules
use Prim.Native.Nat.{bit_and, min}
use native.Mathlib.Nat.{add-zero}
use system_test_suite.Base.{
  ℕ, zero, suc, ◌+◌, ◌-◌, ◌*◌, ◌/◌, ◌%◌, ◌^◌, ◌≤◌, ◌<◌, ◌≡◌, ◌≢◌, ◌⊎◌, inl, inr, refl, sym, ap, ap₂,
  ◌∙◌, Bool, true, false, ◌||◌, Option, none, some, List, [], ◌∷◌, ◌++◌, append_assoc, arith, ltb,
  leb, ◌==◌, Bytes, length, take, drop, zeros, get_elem?, slice, ◌>>=◌, get_elem?_total,
  get_elem?-drop, Bool-cases, slice_total, length-zeros, length-drop, le→ltb_false, ltb→lt, ne→==,
  if◌then◌else◌,
}
use system_test_suite.Sms.Types.{
  Addr, Sms, SmsList, gsmd_addr_maxlen, gsmd_sms_data_maxlen, gsmd_toa_ton_alphanumeric,
  gsmd_toa_ton_mask, tp_mti_deliver, tp_mti_submit, tp_mti_status_report,
}
use system_test_suite.Sms.Address.{
  sms_number_bytelen, sms_data_bytelen, septet, alphanumeric, digit, digits_from, read_address,
  sms_address2ascii,
}
use system_test_suite.Sms.Digits.{number_bytelen_lem}
use system_test_suite.Sms.Pdu.{
  Outcome, coding_scheme, accepted, user_data, deliver_body, submit_body, status_body, with_address,
  deliver, submit, status_report, tpdu, sms_pdu_to_msg,
}
use system_test_suite.Sms.Safety.Rules.{
  Returns, Returns-read, Returns-slice, Returns-guard, Returns-accepted, Returns-with_address,
  Returns-result,
}

-- What a message that was decoded holds: arrays that are not overrun, and exactly the user data
-- that its length and coding scheme call for.
pub record IsStored (m : SmsList) : Type 0 where
  pub number_fits : length m.addr.number ≤ gsmd_addr_maxlen
  pub stamp_size : length m.time_stamp ≡ 7
  pub data_size :
      length m.payload.payload_data ≡ sms_data_bytelen m.payload.coding_scheme m.payload.length
  pub data_fits : length m.payload.payload_data ≤ gsmd_sms_data_maxlen

user_data-Returns :
    (dst : SmsList) (src : Bytes) (len : ℕ)
    → length dst.addr.number ≤ gsmd_addr_maxlen
    → length dst.time_stamp ≡ 7
    → 1 ≤ len
    → len ≤ length src
    → Returns IsStored (user_data dst src len)
unfolding user_data
user_data-Returns dst src len number stamp some_octet inside =
    Returns-read IsStored src 0 _ (omega arith) λ udl e.
      let i = sms_data_bytelen dst.payload.coding_scheme udl in
      Returns-guard IsStored (ltb len (1 + i) || ltb gsmd_sms_data_maxlen i) _ _ λ passed.
        Returns-slice IsStored src 1 i _ (ground arith) λ bs size. λ ok. record {
          number_fits = number;
          stamp_size = stamp;
          data_size = size;
          data_fits = ground arith;
        }

submit_body-Returns :
    (vpf : ℕ) (dst : SmsList) (src : Bytes) (len : ℕ)
    → length dst.addr.number ≤ gsmd_addr_maxlen
    → 4 ≤ len
    → len ≤ length src
    → Returns IsStored (submit_body vpf dst src len)
unfolding submit_body
submit_body-Returns vpf dst src len number some_octets inside =
    Returns-read IsStored src 1 _ (omega arith) λ dcs e.
      Returns-accepted IsStored (coding_scheme dcs) dst _ λ scheme. elim (Bool-cases (vpf == 0)) [
        | inl absent ↦ rw absent (
            user_data-Returns _ (drop 2 src) (len - 2) number (length-zeros 7) (omega arith)
              (omega (arith, length-drop 2 src)))
        | inr given ↦ rw given (
            user_data-Returns _ (drop 3 src) (len - 3) number (length-zeros 7) (omega arith)
              (omega (arith, length-drop 3 src)))
      ]

deliver_body-Returns :
    (dst : SmsList) (src : Bytes) (len : ℕ)
    → length dst.addr.number ≤ gsmd_addr_maxlen
    → 10 ≤ len
    → len ≤ length src
    → Returns IsStored (deliver_body dst src len)
unfolding deliver_body
deliver_body-Returns dst src len number some_octets inside =
    Returns-read IsStored src 0 _ (omega arith) λ pid e0.
      Returns-read IsStored src 1 _ (omega arith) λ dcs e1.
        Returns-accepted IsStored (coding_scheme dcs) _ _ λ scheme.
          Returns-slice IsStored src 2 7 _ (omega arith) λ stamp seven.
            user_data-Returns _ (drop 9 src) (len - 9) number seven (omega arith)
              (omega (arith, length-drop 9 src))

status_body-Returns :
    (dst : SmsList) (src : Bytes)
    → length dst.addr.number ≤ gsmd_addr_maxlen
    → 7 ≤ length src
    → Returns IsStored (status_body dst src)
unfolding status_body sms_data_bytelen
status_body-Returns dst src number inside = Returns-slice IsStored src 0 7 _ inside λ stamp seven.
    λ ok. record {
      number_fits = number;
      stamp_size = seven;
      data_size = ground arith;
      data_fits = omega arith;
    }

deliver-Returns :
    (dst : SmsList) (src : Bytes) (len : ℕ)
    → len ≤ length src
    → Returns IsStored (deliver dst src len)
unfolding deliver
deliver-Returns dst src len inside = Returns-guard IsStored (ltb len 3) dst _ λ three.
    Returns-read IsStored src 2 _ (ground arith) λ type e2.
      Returns-read IsStored src 1 _ (ground arith) λ n e1. rw (number_bytelen_lem type n) (
        Returns-guard IsStored (ltb len (13 + (n + 1) / 2)) dst _ λ enough.
          Returns-with_address IsStored dst src 1 n _ e1 (ground arith) λ addr fits.
            deliver_body-Returns _ _ _ fits (ground arith)
              (omega (arith, length-drop (3 + (n + 1) / 2) src)))

submit-Returns :
    (vpf : ℕ) (dst : SmsList) (src : Bytes) (len : ℕ)
    → len ≤ length src
    → Returns IsStored (submit vpf dst src len)
unfolding submit
submit-Returns vpf dst src len inside = Returns-guard IsStored (ltb len 4) dst _ λ four.
    Returns-read IsStored src 3 _ (ground arith) λ type e3.
      Returns-read IsStored src 2 _ (ground arith) λ n e2. rw (number_bytelen_lem type n) (
        Returns-guard IsStored (ltb len (8 + (n + 1) / 2)) dst _ λ enough.
          Returns-with_address IsStored dst src 2 n _ e2 (ground arith) λ addr fits.
            submit_body-Returns vpf _ _ _ fits (ground arith)
              (omega (arith, length-drop (4 + (n + 1) / 2) src)))

status_report-Returns :
    (dst : SmsList) (src : Bytes) (len : ℕ)
    → len < length src
    → Returns IsStored (status_report dst src len)
unfolding status_report
status_report-Returns dst src len inside = Returns-guard IsStored (ltb len 3) dst _ λ three.
    Returns-read IsStored src 1 _ (ground arith) λ reference e1.
      Returns-read IsStored src (len - 1) _ (omega arith) λ status es.
        Returns-read IsStored src 3 _ (ground arith) λ type e3.
          Returns-read IsStored src 2 _ (ground arith) λ n e2. rw (number_bytelen_lem type n) (
            Returns-guard IsStored (ltb len (13 + (n + 1) / 2)) _ _ λ enough.
              Returns-with_address IsStored _ src 2 n _ e2 (ground arith) λ addr fits.
                status_body-Returns _ _ fits (ground (arith, length-drop (4 + (n + 1) / 2) src)))

tpdu-Returns :
    (dst : SmsList) (src : Bytes) (len : ℕ) → len < length src → Returns IsStored (tpdu dst src len)
unfolding tpdu
tpdu-Returns dst src len inside = Returns-read IsStored src 0 _ (omega arith) λ first e.
    elim (Bool-cases (bit_and first 3 == tp_mti_deliver)) [
      | inl is ↦ rw is (deliver-Returns _ src len (omega arith))
      | inr not_deliver ↦ elim (Bool-cases (bit_and first 3 == tp_mti_submit)) [
        | inl is ↦ rw (not_deliver, is) (submit-Returns _ _ src len (omega arith))
        | inr not_submit ↦ elim (Bool-cases (bit_and first 3 == tp_mti_status_report)) [
          | inl is ↦ rw (not_deliver, not_submit, is) (status_report-Returns _ src len inside)
          | inr unknown ↦ rw (not_deliver, not_submit, unknown) (λ r. absurd (omega arith))
        ]
      ]
    ]

sms_pdu_to_msg-Returns :
    (dst : SmsList) (src : Bytes) (pdulen len : ℕ)
    → len < length src
    → Returns IsStored (sms_pdu_to_msg dst src pdulen len)
unfolding sms_pdu_to_msg
sms_pdu_to_msg-Returns dst src pdulen len inside = Returns-guard IsStored (ltb len 1) dst _ λ one.
    Returns-read IsStored src 0 _ (omega arith) λ smsc e.
      Returns-guard IsStored (ltb len (1 + smsc + pdulen) || ltb pdulen 1) dst _
        λ enough. tpdu-Returns _ _ _ (ground (arith, length-drop (1 + smsc) src))

-- Of octets with at least one more behind the `len` given, whatever they and `pdulen` are, the
-- decoder reads none outside, and it returns. Either it returns another code than 0, or the number
-- fits its array of 32 characters and the user data its array of 164 octets, the time stamp has 7
-- octets, and there are as many octets of user data as the length and the coding scheme stored beside
-- them call for.
pub sms_pdu_to_msg-IsStored :
    (dst : SmsList) (src : Bytes) (pdulen len : ℕ)
    → len < length src
    → (m : SmsList) × (rc : ℕ) × (sms_pdu_to_msg dst src pdulen len ≡ some (m, rc))
      × (IsStored m ⊎ (rc ≢ 0))
sms_pdu_to_msg-IsStored dst src pdulen len inside =
    Returns-result IsStored (sms_pdu_to_msg dst src pdulen len)
      (sms_pdu_to_msg-Returns dst src pdulen len inside)
