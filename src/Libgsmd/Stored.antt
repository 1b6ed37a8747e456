-- ===== src/Libgsmd/Stored.antt =====
-- From a text to the message that is read back: the packing of the library, its request, the structure
-- that the daemon reads, the PDU that it makes, and the decoder.
use system_test_suite.Base.{
  ℕ, zero, suc, ◌-◌, ◌%◌, ◌≤◌, ◌<◌, ◌≡◌, refl, sym, ap, ◌∙◌, true, false, some, inl, [], ◌∷◌, ◌++◌,
  Bytes, length, length-append, length-take, length-drop, take, drop, replicate, arith,
}
use system_test_suite.Base.Int.{pos}
use system_test_suite.Usock.Message.{hdr_size}
use system_test_suite.Libgsmd.{sent, lgsm_send, lgsm_gmh_fill, send_request, send_checked}
use system_test_suite.Base.Text.{c_string}
use system_test_suite.Sms.Types.{Addr, SmsSubmit, SmsList}
use system_test_suite.Sms.Address.{sms_data_bytelen}
use system_test_suite.Sms.Pdu.{sms_pdu_to_msg}
use system_test_suite.Sms.Submit.{submit_octets}
use system_test_suite.Sms.RoundTrip.{IsSendable, received, sms_pdu_to_msg-submit_octets}
use system_test_suite.Usock.Shortmsg.{submit_at}
use system_test_suite.Libgsmd.Layout.{send_checked-whole}
use system_test_suite.Libgsmd.Sevenbit.{
  LgsmSms, data_size, packed, packing_7bit_character, unpacking_7bit_character,
}
use system_test_suite.Libgsmd.Sevenbit.RoundTrip.{
  IsText, packed_sizes, packed_within, unpacking-packing_7bit_character,
}
use system_test_suite.Libgsmd.Messages.{addressed, lgsm_number2addr, submit_struct, lgsm_sms_send}
use system_test_suite.Libgsmd.Messages.Addresses.{
  submit_read, submit_struct-length, submit_at-submit_struct,
}
use system_test_suite.Libgsmd.Messages.Numbers.{IsFitAddr, lgsm_number2addr-IsFitAddr}

take_front :
    (front : Bytes) (m : ℕ) (z w : Bytes)
    → length front ≤ m
    → take (length front) (take m (front ++ z) ++ w) ≡ front
take_front [] m z w h = refl
take_front (c ∷ front) zero z w h = absurd (omega arith)
take_front (c ∷ front) (suc m) z w h = ap (◌∷◌ c) (take_front front m z w (omega arith))

-- the packed text, and what the library copies of its array
abbrev packed_sms : Bytes → LgsmSms → LgsmSms
packed_sms s dest =
    let octets = (packed 0 s).0 in
    record dest {
      alpha = 0;
      sms_data = octets ++ drop (length octets) dest.sms_data;
      length = (packed 0 s).1;
    }

module _ (s : Bytes) (dest : LgsmSms) (some_text : 1 ≤ length s) (fits : length s ≤ 160)
    (size : length dest.sms_data ≡ data_size) where
  septet_count : (1 ≤ (packed 0 s).1) × ((packed 0 s).1 ≤ 160)
  septet_count = (
    omega (arith, (packed_sizes 0 s (omega arith)).1),
    omega (arith, packed_within 20 0 s (omega arith) (omega arith)),
  )

  septets_kept : (packed 0 s).1 % 256 ≡ (packed 0 s).1
  septets_kept = omega (arith, septet_count)

  octet_count : length (packed 0 s).0 ≡ sms_data_bytelen 0 ((packed 0 s).1 % 256)
  unfolding sms_data_bytelen
  octet_count = omega (arith, septet_count, (packed_sizes 0 s (omega arith)).2)

  octets_fit : (1 ≤ length (packed 0 s).0) × (length (packed 0 s).0 ≤ 140)
  octets_fit =
      let (most, least, count) = packed_sizes 0 s (omega arith) in
      (omega (arith, septet_count, count), omega (arith, septet_count, count))

  array_room : 140 ≤ length (packed_sms s dest).sms_data
  array_room =
      let octets = (packed 0 s).0 in
      omega (
        arith,
        size,
        octets_fit,
        length-append octets (drop (length octets) dest.sms_data),
        length-drop (length octets) dest.sms_data,
      )

  -- the octets that the PDU takes are those of the text
  copied_lem :
      let sms = packed_sms s dest in
      take (sms_data_bytelen 0 (sms.length % 256)) (take 140 sms.sms_data ++ replicate 25 0)
      ≡ (packed 0 s).0
  copied_lem =
      let octets = (packed 0 s).0 in
      let stored = take 140 (packed_sms s dest).sms_data ++ replicate 25 0 in
      ap (λ k. take k stored) (sym octet_count)
      ∙ take_front octets 140 (drop (length octets) dest.sms_data) (replicate 25 0) octets_fit.1

  submit-IsSendable :
      (addr : Addr) → IsFitAddr addr → IsSendable (submit_read addr (packed_sms s dest))
  submit-IsSendable addr fit =
      let stored = take 140 (packed_sms s dest).sms_data in
      record {
        type_of_number = fit.3;
        digits = fit.0;
        number_fits = fit.2;
        scheme = inl refl;
        some_data = omega (arith, octet_count, octets_fit);
        data_fits = omega (arith, octet_count, octets_fit);
        data_there = omega (
          arith,
          octet_count,
          octets_fit,
          array_room,
          length-append stored (replicate 25 0),
          length-take 140 (packed_sms s dest).sms_data,
        );
      }

-- a request to send goes out whole
request_sent :
    (addr : Addr) (sms : LgsmSms) (next_msg_id : ℕ)
    → lgsm_number2addr sms.addr 1 ≡ some addr
    → length (submit_struct addr sms) ≡ 240
    → lgsm_sms_send true next_msg_id (pos 248) sms
      ≡ sent (lgsm_send next_msg_id (lgsm_gmh_fill 9 3 240) (submit_struct addr sms)) (pos 0)
unfolding lgsm_sms_send send_checked
request_sent addr sms next_msg_id e whole =
    ap
      (λ o.
        addressed true next_msg_id (pos 248) o
          (λ a. send_request true next_msg_id (pos 248) 9 3 (submit_struct a sms)))
      e
    ∙ send_checked-whole next_msg_id 9 3 240 (submit_struct addr sms) (submit_struct addr sms) refl
        whole

-- A text of 1 to 160 characters of 7 bits, none of them the zero, packed by the library into its array of
-- 141 octets and sent, with memory for the message, to a number that
-- `lgsm_number2addr` takes, goes out in one message, and 0 is returned if `send` returns its 248 octets. The
-- daemon reads a message from it that it encodes as a PDU. The PDU, taken whole, is decoded with return
-- code 0 into a message with the number as it was written, and with user data that are unpacked into the
-- text, as a C string. The array of the decoded message has an octet or more behind the user data.
pub text-stored_read :
    (s : Bytes) (dest : LgsmSms) (addr : Addr) (next_msg_id : ℕ) (rest : Bytes) (dst : SmsList)
    (r : ℕ) (more : Bytes)
    → IsText s
    → 1 ≤ length s
    → length s ≤ 160
    → length dest.sms_data ≡ data_size
    → lgsm_number2addr dest.addr 1 ≡ some addr
    → r < 256
    → (sms : LgsmSms) × (n : ℕ) × (packing_7bit_character s dest ≡ some (sms, n))
      × (octets : Bytes) × (lgsm_sms_send true next_msg_id (pos 248) sms ≡ sent octets (pos 0))
      × (submit : SmsSubmit) × (submit_at (drop hdr_size octets ++ rest) 0 ≡ some submit)
      × (pdu : Bytes) × (submit_octets submit ≡ some pdu)
      × (msg : SmsList) × (sms_pdu_to_msg dst pdu (length pdu - 1) (length pdu) ≡ some (msg, 0))
      × (msg.addr ≡ addr)
      × (out : Bytes) × (unpacking_7bit_character
            (record msg.payload { payload_data = msg.payload.payload_data ++ r ∷ more })
          ≡ some out)
      × (c_string out ≡ some s)
text-stored_read s dest addr next_msg_id rest dst r more v some_text fits size e hr =
    let sms = packed_sms s dest in
    let submit = submit_read addr sms in
    let fit = lgsm_number2addr-IsFitAddr dest.addr 1 addr e in
    let room = array_room s dest some_text fits size in
    let whole = submit_struct-length addr sms fit.2 room in
    let (pdu, encoded, decoded) =
      sms_pdu_to_msg-submit_octets submit dst
        (submit-IsSendable s dest some_text fits size addr fit) in
    let msg = received submit dst in
    let (packs, least, most, count, out, unpacked, text) =
      unpacking-packing_7bit_character s dest msg.payload r more v fits hr in
    let same : record msg.payload { payload_data = msg.payload.payload_data ++ r ∷ more }
        ≡ record msg.payload {
          has_header = false;
          payload_data = (packed 0 s).0 ++ r ∷ more;
          length = (packed 0 s).1;
        } =
      λ i. record msg.payload {
        has_header = false;
        payload_data = copied_lem s dest some_text fits size i ++ r ∷ more;
        length = septets_kept s dest some_text fits size i;
      } in
    (
      sms,
      length (packed 0 s).0,
      packs,
      lgsm_send next_msg_id (lgsm_gmh_fill 9 3 240) (submit_struct addr sms),
      request_sent addr sms next_msg_id e whole,
      submit,
      submit_at-submit_struct addr sms rest fit.1 fit.2 room,
      pdu,
      encoded,
      msg,
      decoded,
      refl,
      out,
      ap (λ m. unpacking_7bit_character m) same ∙ unpacked,
      text,
    )
