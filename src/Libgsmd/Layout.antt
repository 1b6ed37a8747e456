-- ===== src/Libgsmd/Layout.antt =====
-- The octets of a message, as the daemon reads them.
use system_test_suite.Base.{
  ℕ, ◌+◌, ◌*◌, ◌/◌, ◌%◌, ◌^◌, ◌<◌, ◌≡◌, refl, true, some, Bytes, length, le→ltb_false, arith,
}
use system_test_suite.Base.Int.{pos}
use system_test_suite.Usock.Message.{MsgHdr, hdr_size, msg_hdr}
use system_test_suite.Libgsmd.{message_octets, lgsm_gmh_fill, sent, send_checked}

pub u16_back : (n : ℕ) → n < 2 ^ 16 → n % 256 + 256 * (n / 256 % 256) ≡ n
u16_back n h = omega arith

pub u32_back :
    (n : ℕ)
    → n < 2 ^ 32
    → n % 256 + 256 * (n / 256 % 256) + 65536 * (n / 65536 % 256 + 256 * (n / 16777216 % 256)) ≡ n
u32_back n h = omega arith

-- the header is read back, whatever follows
pub msg_hdr-message_octets :
    (gmh : MsgHdr) (payload : Bytes)
    → gmh.id < 2 ^ 16
    → gmh.len < 2 ^ 16
    → msg_hdr (message_octets gmh payload) ≡ some gmh
unfolding msg_hdr
msg_hdr-message_octets gmh payload hi hl = rw (u16_back gmh.id hi, u16_back gmh.len hl) refl

-- a request that `send` takes whole
pub send_checked-whole :
    (next_msg_id type sub_type n : ℕ) (payload octets : Bytes)
    → payload ≡ octets
    → length octets ≡ n
    → send_checked true next_msg_id
        (pos (n + hdr_size))
        type
        sub_type
        payload
        (length payload + hdr_size)
      ≡ sent
          (message_octets (record (lgsm_gmh_fill type sub_type n) { id = next_msg_id }) octets)
          (pos 0)
unfolding send_checked
send_checked-whole next_msg_id type sub_type n payload octets same size =
    rw (same, size, le→ltb_false (n + hdr_size) (n + hdr_size) (omega arith)) refl
