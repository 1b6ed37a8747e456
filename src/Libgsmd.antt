-- ===== src/Libgsmd.antt =====
-- The library of the clients, gta02-dm1/user_space/gsm/src/libgsmd: the messages that it sends to the
-- daemon, `lgsm_gmh_fill`, `lgsm_send` and `lgsm_send_simple` of libgsmd.c. Whether `malloc` succeeds,
-- the next number of a message, and what `send` returns are arguments.
pub mod Sevenbit
pub mod Layout
pub mod Requests
pub mod Dialing
pub mod Pins
pub mod Packets
pub mod Messages
pub mod Stored
pub mod Entries
pub mod Events
use system_test_suite.Base.{
  ℕ, ◌+◌, ◌-◌, ◌/◌, ◌%◌, ◌^◌, Bool, [], ◌∷◌, ◌++◌, ltb, if◌then◌else◌, Bytes, length, zeros,
}
use system_test_suite.Base.Int.{ℤ, pos, negsuc}
use system_test_suite.Usock.Message.{MsgHdr, hdr_size}

-- an `int` as it is stored, and compared with a `size_t`
abbrev pub unsigned : ℤ → ℕ
unsigned (pos n) = n
unsigned (negsuc k) = 2 ^ 32 - 1 - k

abbrev pub u16_octets : ℕ → Bytes
u16_octets n = (n % 256) ∷ (n / 256 % 256) ∷ []

abbrev pub u32_octets : ℕ → Bytes
u32_octets n = (n % 256) ∷ (n / 256 % 256) ∷ (n / 65536 % 256) ∷ (n / 16777216 % 256) ∷ []

-- the octets of a message: the header, with its padding, and the data
abbrev pub message_octets : MsgHdr → Bytes → Bytes
message_octets gmh payload =
    gmh.version
    ∷ gmh.msg_type
    ∷ gmh.msg_subtype
    ∷ 0
    ∷ (u16_octets gmh.id ++ (u16_octets gmh.len ++ payload))

abbrev pub gsmd_proto_version : ℕ
gsmd_proto_version = 1

-- the header of a message, before it has a number
abbrev pub lgsm_gmh_fill : ℕ → ℕ → ℕ → MsgHdr
lgsm_gmh_fill type subtype payload_len = record {
  version = gsmd_proto_version;
  msg_type = type;
  msg_subtype = subtype;
  id = 0;
  len = payload_len;
}

-- What a function does: it returns a code, or hands octets to `send` and then returns one.
pub data Outcome : Type 0 where
  returned : ℤ → Outcome
  sent : Bytes → ℤ → Outcome

-- `gmh->id = next_msg_id++`; the next message has the next number of 16 bits.
abbrev pub lgsm_send : ℕ → MsgHdr → Bytes → Bytes
lgsm_send next_msg_id gmh payload = message_octets (record gmh { id = next_msg_id }) payload

module _ (allocated : Bool) (next_msg_id : ℕ) (rc : ℤ) where
  unfoldable pub lgsm_send_simple : ℕ → ℕ → Outcome
  lgsm_send_simple type sub_type =
      if allocated
      then sent (lgsm_send next_msg_id (lgsm_gmh_fill type sub_type 0) []) rc
      else returned (negsuc 11)

  -- The message of a request with data, and the check of what `send` returns: `rc < expected` compares
  -- as unsigned numbers.
  unfoldable pub send_checked : ℕ → ℕ → Bytes → ℕ → Outcome
  send_checked type sub_type payload expected =
      if allocated
      then sent (lgsm_send next_msg_id (lgsm_gmh_fill type sub_type (length payload)) payload)
          (if ltb (unsigned rc) expected then negsuc 4 else pos 0)
      else returned (negsuc 11)

  -- most requests expect the whole message
  abbrev pub send_request : ℕ → ℕ → Bytes → Outcome
  send_request type sub_type payload =
      send_checked type sub_type payload (length payload + hdr_size)
