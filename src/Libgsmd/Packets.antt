-- ===== src/Libgsmd/Packets.antt =====
-- What the library does with the messages of the daemon: `lgsm_handle_packet`, the registration of
-- handlers and `lgsm_blocking_wait_packet` of libgsmd.c. `S` is what the handlers change, and `buf` an array
-- with the octets that were read at its start. The result is `none` where memory behind the array is
-- read.
pub mod Framing
use Prim.Native.Nat.{bit_or}
use system_test_suite.Base.{
  ℕ, zero, suc, ◌+◌, ◌-◌, Option, none, some, List, [], ◌∷◌, ltb, leb, ◌==◌, if◌then◌else◌, Bytes,
  length, set, get_elem?, drop, ◌>>=◌,
}
use system_test_suite.Base.Int.{ℤ, pos, negsuc}
use system_test_suite.Atcmd.Mlparse.Texts.{to_int32}
use system_test_suite.Usock.Message.{MsgHdr, hdr_size, msg_hdr}
use system_test_suite.Libgsmd.{unsigned}

abbrev pub num_gsmd_msgs : ℕ
num_gsmd_msgs = 11

-- `lgsm_msg_handler`, given the header and the memory behind it
abbrev pub Handler : Type 0 → Type 0
Handler S = S → MsgHdr → Bytes → S × ℤ

-- `lh->handler`; a pointer that is null is `none`
abbrev pub Handlers : Type 0 → Type 0
Handlers S = List (Option (Handler S))

module _ {S : Type 0} where
  -- The type is a number of 32 bits; the guard does not keep out the negative ones.
  unfoldable pub lgsm_register_handler : Handlers S → ℤ → Handler S → Option (Handlers S × ℤ)
  lgsm_register_handler handlers (negsuc k) handler = none
  lgsm_register_handler handlers (pos type) handler = some (
      if leb num_gsmd_msgs type
      then (handlers, negsuc 21)
      else (set handlers type (some handler), pos 0))

  unfoldable pub lgsm_unregister_handler : Handlers S → ℤ → Option (Handlers S)
  lgsm_unregister_handler handlers (negsuc k) = none
  lgsm_unregister_handler handlers (pos type) =
      some (if ltb type num_gsmd_msgs then set handlers type none else handlers)

-- what one round of the loop leads to
pub data Round (S : Type 0) : Type 0 where
  ends : ℤ → Round S
  goes_on : S → ℕ → Bytes → ℕ → Round S

module _ {S : Type 0} (handlers : Handlers S) where
  -- `rc |= handler(lh, gmh)`, where there is a handler
  abbrev pub called : Option (Handler S) → S → ℕ → MsgHdr → Bytes → S × ℕ
  called none s rc gmh payload = (s, rc)
  called (some handler) s rc gmh payload =
      let (after, code) = handler s gmh payload in (after, bit_or rc (unsigned code))

  abbrev pub dispatched : S → ℕ → MsgHdr → Bytes → ℕ → Option (Round S)
  dispatched s rc gmh buf len = do
    handler ← get_elem? handlers gmh.msg_type
    let next = called handler s rc gmh (drop hdr_size buf)
    some (goes_on next.0 next.1 (drop (hdr_size + gmh.len) buf) (len - (hdr_size + gmh.len)))

  abbrev pub received : S → ℕ → MsgHdr → Bytes → ℕ → Option (Round S)
  received s rc gmh buf len =
      if ltb (len - hdr_size) gmh.len
      then some (ends (negsuc 21))
      else if leb num_gsmd_msgs gmh.msg_type
      then some (ends (negsuc 21))
      else dispatched s rc gmh buf len

  unfoldable pub packet_round : S → ℕ → Bytes → ℕ → Option (Round S)
  packet_round s rc buf len =
      let whole = (msg_hdr buf >>= λ gmh. received s rc gmh buf len) in
      if ltb len hdr_size then some (ends (negsuc 21)) else whole

  -- the loop `while (len)`, with rounds to go
  unfoldable pub packets : ℕ → S → ℕ → Bytes → ℕ → Option (S × ℤ)
  unfolding packet_round
  packets zero s rc buf len = if len == 0 then some (s, to_int32 rc) else none
  packets (suc rounds) s rc buf len =
      let more : Option (S × ℤ) = packet_round s rc buf len >>= λ r. elim r [
        | ends code ↦ some (s, code)
        | goes_on after rc2 buf2 left ↦ packets rounds after rc2 buf2 left
      ] in
      if len == 0 then some (s, to_int32 rc) else more

  -- Each round takes eight octets or more, so `len` rounds are enough.
  unfoldable pub lgsm_handle_packet : S → Bytes → ℕ → Option (S × ℤ)
  unfolding packets
  lgsm_handle_packet s buf len = packets len s 0 buf len

-- What `select` and `read` return, and the array that was read into.
pub record Read : Type 0 where
  pub select_rc : ℤ
  pub read_rc : ℤ
  pub buf : Bytes

-- What the call returns, with the array at the end.
pub record Waited (S : Type 0) : Type 0 where
  pub state : S
  pub rc : ℤ
  pub buf : Bytes

module _ {S : Type 0} (handlers : Handlers S) (id : ℕ) where
  -- a message read: is it the one?
  abbrev pub arrived : S → ℤ → Bytes → (S → Option (Waited S)) → Option (Waited S)
  arrived s (negsuc k) buf on = some (record { state = s; rc = negsuc k; buf = buf })
  arrived s (pos zero) buf on = some (record { state = s; rc = pos 0; buf = buf })
  arrived s (pos (suc n)) buf on = do
    gmh ← msg_hdr buf
    let others : Option (Waited S) = lgsm_handle_packet handlers s buf (suc n) >>= λ r. on r.0
    if gmh.id == id then some (record { state = s; rc = pos (suc n); buf = buf }) else others

  abbrev pub selected : S → Read → (S → Option (Waited S)) → Option (Waited S)
  selected s r on = elim r.select_rc [
    | negsuc k ↦ some (record { state = s; rc = negsuc k; buf = r.buf })
    | pos zero ↦ some (record { state = s; rc = pos 0; buf = r.buf })
    | pos (suc n) ↦ arrived s r.read_rc r.buf on
  ]

  -- The loop, for as many reads as are given; `none` where it waits for more.
  unfoldable pub lgsm_blocking_wait_packet : S → List Read → Option (Waited S)
  unfolding lgsm_handle_packet
  lgsm_blocking_wait_packet s [] = none
  lgsm_blocking_wait_packet s (r ∷ reads) =
      selected s r (λ after. lgsm_blocking_wait_packet after reads)
