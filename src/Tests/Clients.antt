-- ===== src/Tests/Clients.antt =====
-- Three clients, two of which subscribed to incoming calls, the error for a SIM PIN, a plug-in that
-- handles the network registration, and the number of a caller.
use system_test_suite.Base.{
  ℕ, ◌≡◌, ◌||◌, true, false, List, [], ◌∷◌, codes, if◌then◌else◌, ltb, ◌==◌, some, Bytes, ◌>>=◌,
  length,
}
use system_test_suite.Events.{
  Ucmd, User, usock_evt_send, pin, no_event, in_error, generate_event_from_cme,
}
use system_test_suite.Events.Errors.{wanted, generate_event_from_cme-wanted}
use system_test_suite.Atcmd.Queue.{cstr, find_char}
use system_test_suite.Atcmd.Mlparse.Texts.{starts_with}
use system_test_suite.Events.Dispatch.{
  text_at, Parse, Unsolicit, empty_table, unsolicited_parse, GenericParse, unsolicited_init,
}
use system_test_suite.Events.Dispatch.Lookup.{unsolicited_init-unsolicited_parse}
use system_test_suite.Base.Int.{pos}
use system_test_suite.Tests.Commands.{idle_gsmd}
use system_test_suite.Events.Delivery.{delivered_to, subscribers, usock_evt_send-subscribers}

abbrev clients : List User
clients =
    record { subscriptions = 2; finished = []; wants_write = false }
    ∷ record { subscriptions = 4; finished = []; wants_write = false }
    ∷ record { subscriptions = 6; finished = []; wants_write = true }
    ∷ []

abbrev call_event : Ucmd
call_event = record {
  msg_type = 1;
  msg_subtype = 1;
  id = 0;
  len = 20;
  buf = codes "abcdefghijklmnopqrst";
}

abbrev leftover : ℕ → Bytes
leftover n = codes "0123456789012345"

usock_evt_send-subscribers_example :
    usock_evt_send (λ k. some (leftover k)) clients call_event 1
    ≡ (delivered_to leftover call_event 1 clients, subscribers 1 clients)
usock_evt_send-subscribers_example = usock_evt_send-subscribers leftover clients call_event 1

generate_event_from_cme-wanted_example : generate_event_from_cme 11 ≡ (
    if ltb 0 (wanted 11)
    then pin (wanted 11)
    else if ltb 11 3 || 11 == 10
    then no_event
    else in_error 11)
generate_event_from_cme-wanted_example = generate_event_from_cme-wanted 11

abbrev generic_parses : GenericParse → Parse
generic_parses name = λ buf param g. (g, pos 0)

abbrev plug_in : List Unsolicit
plug_in =
    record {
      prefix = codes "+CREG";
      parse = λ buf param g. elim param [ text_at s ↦ (g, pos (length s)) | _ ↦ (g, pos 0) ];
    }
    ∷ []

unsolicited_init-unsolicited_parse_example :
    (unsolicited_init generic_parses (some plug_in) empty_table >>= λ slots.
    unsolicited_parse slots (codes "+CREG: 1,2") idle_gsmd)
    ≡ some (idle_gsmd, pos 3)
unfolding starts_with cstr find_char
unsolicited_init-unsolicited_parse_example =
    unsolicited_init-unsolicited_parse generic_parses (some plug_in) (codes "+CREG: 1,2") idle_gsmd
