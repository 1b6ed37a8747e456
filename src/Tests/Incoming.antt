-- ===== src/Tests/Incoming.antt =====
-- A message that the modem hands on, and a line about the network.
use system_test_suite.Base.{
  ℕ, ◌+◌, ◌-◌, ◌*◌, ◌≡◌, ◌⊎◌, refl, ap, true, Option, none, some, [], ◌∷◌, ◌++◌, ltb, if◌then◌else◌,
  Bytes, codes, slice, arith,
}
use system_test_suite.Base.Int.{negsuc}
use system_test_suite.Atcmd.Queue.{callback, find_char}
use system_test_suite.Atcmd.Mlparse.Texts.{digits_value, strtoul}
use system_test_suite.Sms.Submit.{to_hex}
use system_test_suite.Sms.Address.{
  sms_data_bytelen, sms_number_bytelen, sms_address2ascii, digits_from, digit,
}
use system_test_suite.Sms.Pdu.{
  sms_pdu_to_msg, tpdu, submit, with_address, submit_body, coding_scheme, user_data,
}
use system_test_suite.Sms.RoundTrip.{received}
use system_test_suite.Events.Network.{Registered, registered, int_fits, atoi, creg_parse}
use system_test_suite.Events.Network.Noted.{Tells, creg_parse-noted}
use system_test_suite.Usock.Incoming.{sms_told, cmt_parse}
use system_test_suite.Usock.Incoming.Inlined.{IsHexScan, cmt_parse-sms_pdu_to_msg}
use system_test_suite.Tests.Commands.{busy_env, idle_gsmd}
use system_test_suite.Tests.Messages.{empty_msg, greeting}
use system_test_suite.Tests.Library.{fresh_event, no_evts, idle_client}

abbrev nibble : ℕ → ℕ
nibble c = if ltb c b'A' then c - b'0' else c - b'A' + 10

abbrev two_digits : ℕ → ℕ → Option ℕ
two_digits c d = some (16 * nibble c + nibble d)

two_digits-IsHexScan : IsHexScan two_digits
two_digits-IsHexScan octet h = ap some (ground arith)

abbrev submitted_octets : Bytes
submitted_octets = 0 ∷ 1 ∷ 0 ∷ 3 ∷ 0x91 ∷ 0x21 ∷ 0xf3 ∷ 0 ∷ 4 ∷ 2 ∷ 72 ∷ 105 ∷ []

cmt_parse-sms_pdu_to_msg_example :
    cmt_parse two_digits true empty_msg
      (codes "\"+123\"" ++ b',' ∷ (codes "11" ++ b'\n' ∷ to_hex submitted_octets))
    ≡ some (sms_told 2 (received greeting empty_msg))
unfolding find_char digits_value sms_pdu_to_msg sms_data_bytelen tpdu submit sms_number_bytelen
    with_address sms_address2ascii digits_from submit_body coding_scheme user_data slice digit
cmt_parse-sms_pdu_to_msg_example =
    cmt_parse-sms_pdu_to_msg two_digits empty_msg (received greeting empty_msg) (codes "\"+123\"")
      (codes "11") submitted_octets 0 two_digits-IsHexScan refl
      ((omega arith, omega arith), ((omega arith, omega arith), tt)) (omega arith) (omega arith)
      (
        omega arith,
        (
          omega arith,
          (
            omega arith,
            (
              omega arith,
              (
                omega arith,
                (
                  omega arith,
                  (
                    omega arith,
                    (omega arith, (omega arith, (omega arith, (omega arith, (omega arith, tt))))),
                  ),
                ),
              ),
            ),
          ),
        ),
      )
      (omega arith) refl

abbrev home : Registered
home =
    registered (λ k. none) [] (some fresh_event) (λ s. 195) busy_env (callback 0) (λ k. true)
      idle_gsmd 1 (record fresh_event { msg_type = 1; msg_subtype = 5; len = 40 }) (195, 195)

creg_parse-noted_example :
    (state : ℕ) × (atoi (codes "1,\"00C3\",\"A1B2\"") ≡ some state)
    × (((home.users ≡ []) × (home.gsmd ≡ idle_gsmd) × (home.rc ≡ negsuc 21))
        ⊎ Tells
            (λ k. none)
            []
            fresh_event
            (λ s. 195)
            busy_env
            (callback 0)
            (λ k. true)
            idle_gsmd
            no_evts
            none
            idle_client
            (codes "old")
            state
            home)
unfolding find_char strtoul digits_value int_fits atoi creg_parse
creg_parse-noted_example =
    creg_parse-noted (λ k. none) [] fresh_event (λ s. 195) busy_env (callback 0) (λ k. true)
      idle_gsmd no_evts none idle_client (codes "old") (codes "1,\"00C3\",\"A1B2\"") home refl refl
