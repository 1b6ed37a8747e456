-- ===== src/Libgsmd/Events/Calls.antt =====
-- The number of a call, from the modem's line to the handler of a client.
use Prim.Native.Nat.{bit_or}
use system_test_suite.Base.{
  ℕ, ◌^◌, ◌≤◌, ◌<◌, ◌≡◌, ◌≢◌, refl, sym, ap, ◌∙◌, true, Option, some, List, [], ◌∷◌, ◌++◌,
  lt→leb_false, ne→==, Bytes, length, length-set, set, get_elem?, get_elem?-set, drop_front, take,
  drop, arith,
}
use system_test_suite.Base.Int.{pos}
use system_test_suite.Base.Text.{c_string, c_string_at, is_text, c_string_more}
use system_test_suite.Atcmd.Queue.{find_char}
use system_test_suite.Atcmd.Mlparse.Texts.{to_int32}
use system_test_suite.Usock.Message.{MsgHdr}
use system_test_suite.Events.{Ucmd, User, usock_evt_send}
use system_test_suite.Events.Handlers.{sent, msg_event, addr_maxlen, auxdata_size, address_event}
use system_test_suite.Events.Handlers.Numbers.{address_event-number}
use system_test_suite.Libgsmd.{unsigned}
use system_test_suite.Libgsmd.Packets.{
  num_gsmd_msgs, Handlers, called, lgsm_register_handler, lgsm_handle_packet,
}
use system_test_suite.Libgsmd.Packets.Framing.{
  Packet, stream, handler_of, lgsm_handle_packet-stream,
}
use system_test_suite.Libgsmd.Events.{
  num_gsmd_evt, evt_netreg, Client, EvtHandler, EvtHandlers, evt_demux_msghandler, on_events,
  lgsm_evt_init,
}

-- a message as it is written to a client
abbrev pub packet_of : Ucmd → Packet
packet_of ucmd = record {
  hdr = record {
    version = 1;
    msg_type = ucmd.msg_type;
    msg_subtype = ucmd.msg_subtype;
    id = ucmd.id;
    len = ucmd.len;
  };
  payload = ucmd.buf;
}

module _ {S : Type 0} (evts : EvtHandlers S) (handler : EvtHandler S) (lh : Client S) where
  -- an event goes to its handler
  demux_handled :
      (gmh : MsgHdr) (aux : Bytes)
      → gmh.len ≡ auxdata_size
      → gmh.msg_type ≡ msg_event
      → gmh.msg_subtype < num_gsmd_evt
      → gmh.msg_subtype ≢ evt_netreg
      → get_elem? evts gmh.msg_subtype ≡ some (some handler)
      → evt_demux_msghandler evts lh gmh aux ≡ some (handler lh gmh.msg_subtype aux)
  unfolding evt_demux_msghandler
  demux_handled gmh aux size type known other found =
      rw
        (
          size,
          type,
          lt→leb_false num_gsmd_evt gmh.msg_subtype known,
          ne→== gmh.msg_subtype evt_netreg other,
          found,
        )
        refl

  -- what a handler of events gives, as one of messages
  abbrev joined : ℕ → Bytes → Option (Client S) × ℕ
  joined event aux = let end = handler lh event aux in (some end.0, bit_or 0 (unsigned end.1))

  event_called :
      (table : Handlers (Option (Client S))) (gmh : MsgHdr) (aux : Bytes)
      → get_elem? table gmh.msg_type ≡ some (some (on_events evts))
      → evt_demux_msghandler evts lh gmh aux ≡ some (handler lh gmh.msg_subtype aux)
      → called table (handler_of table gmh.msg_type) (some lh) 0 gmh aux
        ≡ joined gmh.msg_subtype aux
  event_called table gmh aux there e = rw (there, e) refl

  -- The event of a call, made by `address_event` from a parameter with a number of at most 32 characters in
  -- front of a comma, and written to a client that has called `lgsm_evt_init` and has a handler for this kind of
  -- event: `lgsm_handle_packet` calls the handler once, with the number as a C string behind the octet of
  -- its type. The state of the client and the code are those of the handler. The event is not one of the
  -- network registration, its message has the size and the number of one, the parameter has no zero, the
  -- handle has its 11 handlers, and the length given is that of the message.
  pub address_event-handled :
      (memory : ℕ → Option Bytes) (users : List User) (fresh : Ucmd) (evt n : ℕ)
      (param rest : Bytes) (handlers : Handlers (Option (Client S)))
      → length fresh.buf ≡ auxdata_size
      → fresh.id < 2 ^ 16
      → is_text param ≡ true
      → find_char b',' param ≡ some n
      → n ≤ addr_maxlen
      → evt < num_gsmd_evt
      → evt ≢ evt_netreg
      → length handlers ≡ num_gsmd_msgs
      → get_elem? evts evt ≡ some (some handler)
      → (table : Handlers (Option (Client S))) × ((lgsm_evt_init evts handlers lh).1
          ≡ some (table, pos 0))
        × (ucmd : Ucmd) × (address_event memory users (some fresh) evt param
            ≡ sent (usock_evt_send memory users ucmd evt))
        × (aux : Bytes) × (let octets = stream (packet_of ucmd ∷ []) in
            let end = handler lh evt aux in
            lgsm_handle_packet table (some lh) (octets ++ rest) (length octets)
            ≡ some (some end.0, to_int32 (bit_or 0 (unsigned end.1))))
        × (c_string_at aux 1 ≡ some (take n param))
  unfolding lgsm_register_handler
  address_event-handled memory users fresh evt n param rest handlers size hid text e h known other
        full found =
      let table = set handlers 1 (some (on_events evts)) in
      let (ucmd, made, number, long, type, subtype, len, id) =
        address_event-number memory users fresh evt n param size text e h in
      let p = packet_of ucmd in
      let aux = ucmd.buf ++ rest in
      let there : get_elem? table 1 ≡ some (some (on_events evts)) =
        get_elem?-set handlers 1 (some (on_events evts)) (omega (arith, full)) in
      let whole =
        lgsm_handle_packet-stream table (length-set handlers 1 (some (on_events evts)) ∙ full)
          (p ∷ []) (some lh) rest
          ((omega (arith, id), omega (arith, len), omega (arith, type), long ∙ sym len), tt) in
      (
        table,
        refl,
        ucmd,
        made,
        aux,
        whole
            ∙ ap (λ r. some (r.0, to_int32 r.1))
                (event_called table p.hdr aux (ap (get_elem? table) type ∙ there) (
                  demux_handled p.hdr aux len type (omega (arith, subtype))
                    (λ z. other (sym subtype ∙ z)) (ap (get_elem? evts) subtype ∙ found)))
            ∙ ap (λ k. let end = joined k aux in some (end.0, to_int32 end.1)) subtype,
        ap c_string (drop_front 1 ucmd.buf rest (omega (arith, long)))
            ∙ c_string_more (drop 1 ucmd.buf) rest (take n param) number,
      )
