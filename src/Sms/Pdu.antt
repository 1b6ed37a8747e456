-- ===== src/Sms/Pdu.antt =====
-- `sms_pdu_to_msg`. A pointer that moves on is the list of the octets from there on; `none` is a
-- read past the end of the octets given, and the number is the return code. A `pdulen` below 1,
-- which the source refuses at once, is 0.
use Prim.Native.Nat.{bit_and}
use system_test_suite.Base.{
  ℕ, ◌+◌, ◌-◌, ◌/◌, false, ◌&&◌, ◌||◌, Option, none, some, [], ltb, leb, ◌==◌, if◌then◌else◌, Bytes,
  get_elem?, slice, drop, zeros, ◌>>=◌,
}
use system_test_suite.Sms.Types.{
  Sms, SmsList, gsmd_sms_data_maxlen, alphabet_default, alphabet_8bit, alphabet_ucs2,
  tp_mti_deliver, tp_mti_submit, tp_mti_status_report, tp_udhi_with_header,
}
use system_test_suite.Sms.Dcs.{
  message_waiting_voicemail, message_waiting_discard, message_waiting_store, test_bits,
  sms_pdu_decode_dcs,
}
use system_test_suite.Sms.Address.{sms_number_bytelen, sms_data_bytelen, sms_address2ascii}

-- the `switch` on the high half of TP-DCS, which stands twice in the source; `none` is its `default`
unfoldable pub coding_scheme : ℕ → Option ℕ
coding_scheme dcs =
    let group = dcs / 16 in
    if leb group 3 || group == 0xc
    then some (bit_and dcs 0xc)
    else if group == 0xd
    then some alphabet_default
    else if group == 0xe
    then some alphabet_ucs2
    else if group == 0xf
    then some (if test_bits dcs 4 then alphabet_8bit else alphabet_default)
    else none

abbrev pub Outcome : Type 0
Outcome = Option (SmsList × ℕ)

abbrev with_payload : SmsList → Sms → SmsList
with_payload dst p = record dst { payload = p }

-- `TP-UDL` and `TP-UD`, which stand twice in the source
unfoldable pub user_data : SmsList → Bytes → ℕ → Outcome
user_data dst src len = do
  udl ← get_elem? src 0
  let counted = with_payload dst (record dst.payload { length = udl })
  let i = sms_data_bytelen dst.payload.coding_scheme udl
  let copied = do
    bytes ← slice src 1 i
    some (with_payload counted (record counted.payload { payload_data = bytes }), 0)
  if ltb len (1 + i) || ltb gsmd_sms_data_maxlen i then some (counted, 1) else copied

-- the `default: return 1` of that `switch`, or what follows it
abbrev pub accepted : Option ℕ → SmsList × ℕ → (ℕ → Outcome) → Outcome
accepted none refused go_on = some refused
accepted (some scheme) refused go_on = go_on scheme

-- TP-PID and TP-DCS of an SMS-DELIVER: the voice mail marks and the decoded coding scheme
unfoldable pub voicemail_marks : Sms → ℕ → ℕ → Sms
voicemail_marks p pid dcs =
    let d = sms_pdu_decode_dcs dcs in
    record p {
      is_voicemail =
          pid == 0x5f
          || (d.mwi_kind == message_waiting_voicemail
              && (d.mwi_group == message_waiting_discard || d.mwi_group == message_waiting_store))
          || p.is_voicemail;
      dcs = d;
    }

-- SMS-DELIVER behind the address, from TP-PID on
unfoldable pub deliver_body : SmsList → Bytes → ℕ → Outcome
deliver_body dst src len = do
  pid ← get_elem? src 0
  dcs ← get_elem? src 1
  let marked = with_payload dst (voicemail_marks dst.payload pid dcs)
  let go_on = λ (scheme : ℕ). do
    stamp ← slice src 2 7
    user_data
        (record marked {
          time_stamp = stamp;
          payload = record marked.payload { coding_scheme = scheme };
        })
        (drop 9 src) (len - 9)
  accepted (coding_scheme dcs) (marked, 1) go_on

-- SMS-SUBMIT behind the address, from TP-PID on
unfoldable pub submit_body : ℕ → SmsList → Bytes → ℕ → Outcome
submit_body vpf dst src len = do
  dcs ← get_elem? src 1
  let skip = if vpf == 0 then 2 else 3
  let go_on = λ (scheme : ℕ).
      user_data
        (record dst {
          time_stamp = zeros 7;
          payload = record dst.payload { coding_scheme = scheme };
        })
        (drop skip src) (len - skip)
  accepted (coding_scheme dcs) (dst, 1) go_on

-- the address at `at`, and what follows if it was read
unfoldable pub with_address : SmsList → Bytes → ℕ → (SmsList → Outcome) → Outcome
with_address dst src at go_on = do
  (addr, rc) ← sms_address2ascii dst.addr (drop at src)
  let named = record dst { addr = addr }
  if rc == 0 then go_on named else some (named, 1)

unfoldable pub deliver : SmsList → Bytes → ℕ → Outcome
deliver dst src len =
    let go = do
      type ← get_elem? src 2
      n ← get_elem? src 1
      let i = sms_number_bytelen type n
      let rest = with_address dst src 1 (λ d. deliver_body d (drop (3 + i) src) (len - (3 + i)))
      if ltb len (13 + i) then some (dst, 1) else rest
    in if ltb len 3 then some (dst, 1) else go

unfoldable pub submit : ℕ → SmsList → Bytes → ℕ → Outcome
submit vpf dst src len =
    let go = do
      type ← get_elem? src 3
      n ← get_elem? src 2
      let i = sms_number_bytelen type n
      let rest = with_address dst src 2 (λ d. submit_body vpf d (drop (4 + i) src) (len - (4 + i)))
      if ltb len (8 + i) then some (dst, 1) else rest
    in if ltb len 4 then some (dst, 1) else go

-- TP-SCTS of a status report, and no user data
unfoldable pub status_body : SmsList → Bytes → Outcome
status_body dst src = do
  stamp ← slice src 0 7
  some (
    record dst {
      time_stamp = stamp;
      payload = record dst.payload { length = 0; payload_data = [] };
    },
    0,
  )

unfoldable pub status_report : SmsList → Bytes → ℕ → Outcome
status_report dst src len =
    let go = do
      reference ← get_elem? src 1
      status ← get_elem? src (len - 1)
      let marked = record dst {
        index = reference;
        payload = record dst.payload { coding_scheme = status };
      }
      type ← get_elem? src 3
      n ← get_elem? src 2
      let i = sms_number_bytelen type n
      let rest = with_address marked src 2 (λ d. status_body d (drop (4 + i) src))
      if ltb len (13 + i) then some (marked, 1) else rest
    in if ltb len 3 then some (dst, 1) else go

-- behind the SMSC number
unfoldable pub tpdu : SmsList → Bytes → ℕ → Outcome
tpdu dst src len = do
  first ← get_elem? src 0
  let marked =
      with_payload dst (record dst.payload { has_header = test_bits first tp_udhi_with_header })
  let vpf = bit_and (first / 8) 3
  let mti = bit_and first 3
  if mti == tp_mti_deliver
      then deliver marked src len
      else if mti == tp_mti_submit
      then submit vpf marked src len
      else if mti == tp_mti_status_report
      then status_report marked src len
      else some (marked, 1)

unfoldable pub sms_pdu_to_msg : SmsList → Bytes → ℕ → ℕ → Outcome
sms_pdu_to_msg dst src pdulen len =
    let cleared = with_payload dst (record dst.payload { is_voicemail = false }) in
    let go = do
      smsc ← get_elem? src 0
      if ltb len (1 + smsc + pdulen) || ltb pdulen 1
          then some (dst, 1)
          else tpdu cleared (drop (1 + smsc) src) (len - (1 + smsc))
    in if ltb len 1 then some (dst, 1) else go
