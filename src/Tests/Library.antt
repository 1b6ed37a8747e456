-- ===== src/Tests/Library.antt =====
-- A client that dials, enters a PIN, writes an entry of the phone book, and gets messages and events.
use Prim.Native.Nat.{bit_or}
use system_test_suite.Base.{
  ℕ, Option, none, set, take, ◌≡◌, some, List, refl, true, [], ◌∷◌, ◌++◌, Bytes, codes, arith,
  replicate, length, inl,
}
use system_test_suite.Base.Text.{is_text, c_string_at, decimal_before}
use system_test_suite.Base.Int.{pos, negsuc}
use system_test_suite.Atcmd.Queue.{callback, find_char}
use system_test_suite.Atcmd.Mlparse.Texts.{to_int32}
use system_test_suite.Usock.Message.{Action, perform}
use system_test_suite.Usock.Client.{usock_rcv_pcmd}
use system_test_suite.Events.{Ucmd, usock_evt_send}
use system_test_suite.Events.Handlers
use system_test_suite.Events.Handlers.{address_event}
use system_test_suite.Libgsmd.{unsigned, sent}
use system_test_suite.Libgsmd.Events.{EvtHandler, Client, lgsm_evt_init}
use system_test_suite.Libgsmd.Events.Calls.{packet_of, address_event-handled}
use system_test_suite.Libgsmd.Entries.{lgsm_pb_write_entry}
use system_test_suite.Libgsmd.Entries.Written.{lgsm_pb_write_entry-entry_text}
use system_test_suite.Libgsmd.Requests.{lgsm_voice_out_init, lgsm_pin}
use system_test_suite.Libgsmd.Dialing.{Submits, lgsm_voice_out_init-dial}
use system_test_suite.Libgsmd.Pins.{lgsm_pin-entered}
use system_test_suite.Libgsmd.Packets.{Handlers, lgsm_handle_packet}
use system_test_suite.Libgsmd.Packets.Framing.{
  Packet, stream, delivered, lgsm_handle_packet-stream, lgsm_handle_packet-cut,
}
use system_test_suite.Tests.Requests.{world, session}

abbrev emergency : Bytes
emergency = codes "112"

lgsm_voice_out_init-dial_example :
    (octets : Bytes) × (lgsm_voice_out_init true 7 (pos 42) 129 (emergency ++ 0 ∷ replicate 28 0)
      ≡ sent octets (pos 0))
    × (length octets ≡ 42)
    × (a : Action) × (usock_rcv_pcmd world session (octets ++ codes "left") (length octets)
        ≡ some (perform world.env a session))
    × Submits a (codes "ATD112;") 7 (callback 0)
unfolding is_text
lgsm_voice_out_init-dial_example =
    lgsm_voice_out_init-dial world session 7 129 emergency (replicate 28 0) (codes "left") refl
      (omega arith) refl refl

lgsm_pin-entered_example :
    (octets : Bytes) × (lgsm_pin true 7 (pos 30) 2 (codes "12345678") (some (codes "4321"))
      ≡ sent octets (pos 30))
    × (length octets ≡ 30)
    × (a : Action) × (usock_rcv_pcmd world session (octets ++ codes "left") (length octets)
        ≡ some (perform world.env a session))
    × Submits a (codes "AT+CPIN=\"12345678\",\"4321\"") 0 (callback 0)
unfolding is_text
lgsm_pin-entered_example =
    lgsm_pin-entered world session 7 2 (pos 30) (codes "12345678") (codes "4321") (codes "left")
      refl (omega arith) (omega arith) refl (omega arith) refl (omega arith)

-- handlers that note the number of the message
abbrev noting : Handlers (List ℕ)
noting = replicate 11 (some (λ s gmh payload. (gmh.id ∷ s, pos 0)))

abbrev ring : Packet
ring = record {
  hdr = record { version = 1; msg_type = 1; msg_subtype = 1; id = 5; len = 4 };
  payload = codes "ring";
}

abbrev reply : Packet
reply = record {
  hdr = record { version = 1; msg_type = 3; msg_subtype = 2; id = 6; len = 3 };
  payload = codes "OK" ++ 0 ∷ [];
}

lgsm_handle_packet-stream_example :
    lgsm_handle_packet noting [] (stream (ring ∷ reply ∷ []) ++ codes "old") 23
    ≡ some (
        let end = delivered noting [] 0 (ring ∷ reply ∷ []) (codes "old") in
        (end.0, to_int32 end.1))
lgsm_handle_packet-stream_example =
    lgsm_handle_packet-stream noting refl (ring ∷ reply ∷ []) [] (codes "old") (
      (omega arith, omega arith, omega arith, refl),
      ((omega arith, omega arith, omega arith, refl), tt),
    )

lgsm_handle_packet-cut_example :
    lgsm_handle_packet noting [] (stream (ring ∷ []) ++ (1 ∷ 3 ∷ 2 ∷ [] ++ codes "old")) 15
    ≡ some ((delivered noting [] 0 (ring ∷ []) (1 ∷ 3 ∷ 2 ∷ [] ++ codes "old")).0, negsuc 21)
lgsm_handle_packet-cut_example =
    lgsm_handle_packet-cut noting refl (ring ∷ []) [] (1 ∷ 3 ∷ 2 ∷ []) (codes "old")
      ((omega arith, omega arith, omega arith, refl), tt) (inl (omega arith)) (omega arith)

abbrev pub fresh_event : Ucmd
fresh_event = record { msg_type = 0; msg_subtype = 0; id = 7; len = 0; buf = replicate 40 170 }

abbrev caller : Bytes
caller = codes "+49301234,145"

abbrev call_noting : EvtHandler (List ℕ)
call_noting lh event aux = (record lh { state = event ∷ lh.state }, pos 0)

abbrev pub no_evts : List (Option (EvtHandler (List ℕ)))
no_evts = replicate 17 none

abbrev pub idle_client : Client (List ℕ)
idle_client = record { netreg_state = 0; state = [] }

address_event-handled_example :
    (table : Handlers (Option (Client (List ℕ)))) × ((lgsm_evt_init
        (set no_evts 4 (some call_noting))
        (replicate 11 none)
        idle_client).1
      ≡ some (table, pos 0))
    × (ucmd : Ucmd) × (address_event (λ k. none) [] (some fresh_event) 4 caller
        ≡ Handlers.sent (usock_evt_send (λ k. none) [] ucmd 4))
    × (aux : Bytes) × (let octets = stream (packet_of ucmd ∷ []) in
        let end = call_noting idle_client 4 aux in
        lgsm_handle_packet table (some idle_client) (octets ++ codes "old") (length octets)
        ≡ some (some end.0, to_int32 (bit_or 0 (unsigned end.1))))
    × (c_string_at aux 1 ≡ some (take 9 caller))
unfolding is_text find_char
address_event-handled_example =
    address_event-handled (set no_evts 4 (some call_noting)) call_noting idle_client (λ k. none) []
      fresh_event 4 9 caller (codes "old") (replicate 11 none) refl (omega arith) refl refl
      (omega arith) (omega arith) (λ e. absurd (omega (arith, e))) refl refl

lgsm_pb_write_entry-entry_text_example :
    (octets : Bytes) × (lgsm_pb_write_entry true 7 (pos 70) (record {
      index = pos 12;
      numb = codes "+886912" ++ 0 ∷ replicate 37 0;
      type = 145;
      text = codes "Mum" ++ 0 ∷ replicate 11 0;
    })
      ≡ sent octets (pos 0))
    × (length octets ≡ 70)
    × (a : Action) × (usock_rcv_pcmd world session (octets ++ codes "left") (length octets)
        ≡ some (perform world.env a session))
    × Submits a (codes "AT+CPBW=12,\"+886912\",145,\"Mum\"") 7 (callback 0)
unfolding is_text decimal_before
lgsm_pb_write_entry-entry_text_example =
    lgsm_pb_write_entry-entry_text world session 7 12 145 (codes "+886912") (replicate 37 0)
      (codes "Mum") (replicate 11 0) (codes "left") refl (omega arith) (omega arith) (omega arith)
      refl refl refl refl
