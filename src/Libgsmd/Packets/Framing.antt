-- ===== src/Libgsmd/Packets/Framing.antt =====
-- A stream of messages, and one that is cut.
use system_test_suite.Base.{
  ℕ, zero, suc, ◌+◌, ◌-◌, ◌^◌, ◌≤◌, ◌<◌, ◌≡◌, ◌⊎◌, inl, inr, refl, sym, ap, ◌∙◌, Option, none, some,
  List, [], ◌∷◌, ◌++◌, append_assoc, lt→ltb, le→ltb_false, lt→leb_false, ne→==, Bytes, length,
  length-append, get_elem?, get_elem?_total, drop_at, All, arith,
}
use system_test_suite.Base.Int.{negsuc}
use system_test_suite.Atcmd.Mlparse.Texts.{to_int32}
use system_test_suite.Usock.Message.{MsgHdr, hdr_size}
use system_test_suite.Libgsmd.{message_octets}
use system_test_suite.Libgsmd.Layout.{msg_hdr-message_octets}
use system_test_suite.Libgsmd.Packets.{
  num_gsmd_msgs, Handler, Handlers, goes_on, ends, called, packet_round, packets,
  lgsm_handle_packet,
}

pub record Packet : Type 0 where
  pub hdr : MsgHdr
  pub payload : Bytes

-- a message of a known type, whose header tells the length of its data
abbrev pub IsPacket : Packet → Type 0
IsPacket p =
    (p.hdr.id < 2 ^ 16)
    × (p.hdr.len < 2 ^ 16)
    × (p.hdr.msg_type < num_gsmd_msgs)
    × (length p.payload ≡ p.hdr.len)

abbrev pub packet_octets : Packet → Bytes
packet_octets p = message_octets p.hdr p.payload

abbrev pub stream : List Packet → Bytes
stream [] = []
stream (p ∷ ps) = packet_octets p ++ stream ps

-- a part of a header, or a header with a part of its data
abbrev pub IsCut : Bytes → Type 0
IsCut part =
    (length part < hdr_size)
    ⊎ ((gmh : MsgHdr) × (payload : Bytes) × (part ≡ message_octets gmh payload)
        × (gmh.id < 2 ^ 16)
        × (gmh.len < 2 ^ 16)
        × (length payload < gmh.len))

abbrev pub known {ℓ} : {A : Type ℓ} → Option (Option A) → Option A
known none = none
known (some o) = o

module _ {S : Type 0} (handlers : Handlers S) where
  abbrev pub handler_of : ℕ → Option (Handler S)
  handler_of type = known (get_elem? handlers type)

  -- Each message goes to the handler of its type, in order, with the data and what follows; the codes
  -- are joined.
  abbrev pub delivered : S → ℕ → List Packet → Bytes → S × ℕ
  delivered s rc [] rest = (s, rc)
  delivered s rc (p ∷ ps) rest =
      let next =
        called handlers (handler_of p.hdr.msg_type) s rc p.hdr (p.payload ++ (stream ps ++ rest)) in
      delivered next.0 next.1 ps rest

  module _ (full : length handlers ≡ num_gsmd_msgs) where
    handler_there :
        (type : ℕ) → type < num_gsmd_msgs → get_elem? handlers type ≡ some (handler_of type)
    handler_there type h =
        let (handler, e) = get_elem?_total handlers type (omega (arith, full)) in
        e ∙ ap some (sym (ap known e))

    round_lem :
        (s : S) (rc m : ℕ) (p : Packet) (more : Bytes)
        → IsPacket p
        → packet_round handlers s rc (packet_octets p ++ more) (hdr_size + p.hdr.len + m)
          ≡ some (
              let next =
                called handlers (handler_of p.hdr.msg_type) s rc p.hdr (p.payload ++ more) in
              goes_on next.0 next.1 more m)
    unfolding packet_round
    round_lem s rc m p more (hi, hl, ht, size) =
        let found = handler_there p.hdr.msg_type ht in
        let len = p.hdr.len in
        let left : hdr_size + len + m - (hdr_size + len) ≡ m = omega arith in
        let message = msg_hdr-message_octets p.hdr (p.payload ++ more) hi hl in
        rw
          (
            le→ltb_false (hdr_size + len + m) hdr_size (omega arith),
            message,
            le→ltb_false (hdr_size + len + m - hdr_size) len (omega arith),
            lt→leb_false num_gsmd_msgs p.hdr.msg_type ht,
            found,
            drop_at (packet_octets p) more {i = hdr_size + len} (omega (arith, size)),
            left,
          )
          refl

    packets_step :
        (n : ℕ) (s : S) (rc m : ℕ) (p : Packet) (more : Bytes)
        → IsPacket p
        → packets handlers (suc n) s rc (packet_octets p ++ more) (hdr_size + p.hdr.len + m) ≡ (
            let next = called handlers (handler_of p.hdr.msg_type) s rc p.hdr (p.payload ++ more) in
            packets handlers n next.0 next.1 more m)
    unfolding packets
    packets_step n s rc m p more h =
        rw
          (
            ne→== (hdr_size + p.hdr.len + m) 0 (λ z. absurd (omega (arith, z))),
            round_lem s rc m p more h,
          )
          refl

    packets-stream :
        (ps : List Packet) (k : ℕ) (s : S) (rc m : ℕ) (rest : Bytes)
        → All IsPacket ps
        → packets handlers (length ps + k) s rc (stream ps ++ rest) (length (stream ps) + m)
          ≡ (let end = delivered s rc ps rest in packets handlers k end.0 end.1 rest m)
    packets-stream [] k s rc m rest v =
        let e : 0 + k ≡ k = omega arith in let f : 0 + m ≡ m = omega arith in rw (e, f) refl
    packets-stream (p ∷ ps) k s rc m rest (h, v) =
        let len = length (stream ps) + m in
        let rounds : suc (length ps) + k ≡ suc (length ps + k) = omega arith in
        let size : length (stream (p ∷ ps)) + m ≡ hdr_size + p.hdr.len + len =
          omega (arith, length-append p.payload (stream ps), h.3) in
        let next =
          called handlers (handler_of p.hdr.msg_type) s rc p.hdr
            (p.payload ++ (stream ps ++ rest)) in
        rw (rounds, size, append_assoc (packet_octets p) (stream ps) rest)
          (packets_step (length ps + k) s rc len p (stream ps ++ rest) h
            ∙ packets-stream ps k next.0 next.1 m rest v)

    stream_rounds : (ps : List Packet) → length ps ≤ length (stream ps)
    stream_rounds [] = omega arith
    stream_rounds (p ∷ ps) = omega (arith, stream_rounds ps, length-append p.payload (stream ps))

    -- the rounds and the octets that the stream takes
    stream_rest :
        (ps : List Packet) (s : S) (m : ℕ) (rest : Bytes) (len : ℕ)
        → All IsPacket ps
        → len ≡ length (stream ps) + m
        → lgsm_handle_packet handlers s (stream ps ++ rest) len ≡ (
            let end = delivered s 0 ps rest in
            packets handlers (len - length ps) end.0 end.1 rest m)
    unfolding lgsm_handle_packet
    stream_rest ps s m rest len v e =
        let n = length ps + (len - length ps) in
        let rounds : len ≡ n = omega (arith, e, stream_rounds ps) in
        ap (λ k. packets handlers k s 0 (stream ps ++ rest) len) rounds
        ∙ ap (packets handlers n s 0 (stream ps ++ rest)) e
        ∙ packets-stream ps (len - length ps) s 0 m rest v

    packets_done :
        (k : ℕ) (s : S) (rc : ℕ) (rest : Bytes)
        → packets handlers k s rc rest 0 ≡ some (s, to_int32 rc)
    unfolding packets
    packets_done zero s rc rest = refl
    packets_done (suc k) s rc rest = refl

    -- Messages that come whole, any number of them one behind the other in what was read, are handed to the
    -- handlers of their types one by one, in order, and the codes of the handlers are joined. The
    -- messages are of known types and their headers tell the lengths of their data.
    pub lgsm_handle_packet-stream :
        (ps : List Packet) (s : S) (rest : Bytes)
        → All IsPacket ps
        → lgsm_handle_packet handlers s (stream ps ++ rest) (length (stream ps))
          ≡ some (let end = delivered s 0 ps rest in (end.0, to_int32 end.1))
    lgsm_handle_packet-stream ps s rest v =
        let end = delivered s 0 ps rest in
        let len = length (stream ps) in
        stream_rest ps s 0 rest len v (omega arith)
        ∙ packets_done (len - length ps) end.0 end.1 rest

    cut_round :
        (s : S) (rc : ℕ) (part junk : Bytes)
        → IsCut part
        → packet_round handlers s rc (part ++ junk) (length part) ≡ some (ends (negsuc 21))
    unfolding packet_round
    cut_round s rc part junk (inl short) = rw (lt→ltb (length part) hdr_size short) refl
    cut_round s rc part junk (inr (gmh, payload, e, hi, hl, cut)) =
        let long : (length (message_octets gmh payload) - hdr_size) < gmh.len = omega arith in
        rw
          (
            e,
            le→ltb_false (length (message_octets gmh payload)) hdr_size (omega arith),
            msg_hdr-message_octets gmh (payload ++ junk) hi hl,
            lt→ltb (length (message_octets gmh payload) - hdr_size) gmh.len long,
          )
          refl

    cut_ends :
        (k : ℕ) (s : S) (rc : ℕ) (part junk : Bytes)
        → IsCut part
        → 0 < length part
        → packets handlers (suc k) s rc (part ++ junk) (length part) ≡ some (s, negsuc 21)
    unfolding packets
    cut_ends k s rc part junk h some_part =
        rw (ne→== (length part) 0 (λ z. absurd (omega (arith, z))), cut_round s rc part junk h) refl

    -- The same messages with the beginning of another behind them, one octet or more, but not all of its
    -- header and data: they are handled, and -EINVAL is returned. What was read of the last is lost,
    -- whatever stands behind it.
    pub lgsm_handle_packet-cut :
        (ps : List Packet) (s : S) (part junk : Bytes)
        → All IsPacket ps
        → IsCut part
        → 0 < length part
        → lgsm_handle_packet handlers s
            (stream ps ++ (part ++ junk))
            (length (stream ps) + length part)
          ≡ some ((delivered s 0 ps (part ++ junk)).0, negsuc 21)
    lgsm_handle_packet-cut ps s part junk v h some_part =
        let end = delivered s 0 ps (part ++ junk) in
        let len = length (stream ps) + length part in
        let left : len - length ps ≡ suc (len - length ps - 1) = omega (arith, stream_rounds ps) in
        stream_rest ps s (length part) (part ++ junk) len v refl
        ∙ rw left (cut_ends (len - length ps - 1) end.0 end.1 part junk h some_part)
