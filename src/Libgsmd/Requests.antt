-- ===== src/Libgsmd/Requests.antt =====
-- The requests of libgsmd_voicecall.c, libgsmd_network.c, libgsmd_phone.c, libgsmd_pin.c and
-- libgsmd_passthrough.c. A parameter that is an array is the memory from its start.
use system_test_suite.Base.{
  ℕ, ◌+◌, ◌-◌, ◌%◌, Bool, false, ◌||◌, Option, none, some, [], ◌∷◌, ◌++◌, ltb, leb, ◌==◌,
  if◌then◌else◌, Bytes, length, take, zeros,
}
use system_test_suite.Base.Int.{ℤ, pos, negsuc}
use system_test_suite.Usock.Message.{hdr_size}
use system_test_suite.Libgsmd.{
  unsigned, u32_octets, lgsm_gmh_fill, Outcome, returned, sent, lgsm_send, lgsm_send_simple,
  send_checked, send_request,
}

-- the 32 bytes of `struct lgsm_addr`
abbrev pub lgsm_addr_size : ℕ
lgsm_addr_size = 32

abbrev pub gsmd_pin_maxlen : ℕ
gsmd_pin_maxlen = 8

abbrev pub pt_buf_size : ℕ
pt_buf_size = 1024

-- A text in an array of `size` bytes that was all zeros.
abbrev pub text_in : ℕ → Bytes → Bytes
text_in size s = s ++ zeros (size - length s)

abbrev too_long : Option Bytes → Bool
too_long none = false
too_long (some s) = ltb gsmd_pin_maxlen (length s)

-- the new PIN, for the two kinds of PUK
abbrev pub second_pin : ℕ → Option Bytes → Option Bytes
second_pin type newpin = if type == 2 || type == 7 then newpin else some []

module _ (allocated : Bool) (next_msg_id : ℕ) (rc : ℤ) where
  -- The copy of the number is one byte longer than the array that it is read from; that byte is
  -- overwritten.
  unfoldable pub lgsm_voice_out_init : ℕ → Bytes → Outcome
  unfolding send_checked
  lgsm_voice_out_init type addr =
      send_request allocated next_msg_id rc 3 1
        ((type % 256) ∷ (take lgsm_addr_size addr ++ 0 ∷ []))

  unfoldable pub lgsm_voice_dtmf : ℕ → Outcome
  unfolding send_checked
  lgsm_voice_dtmf dtmf_char = send_checked allocated next_msg_id rc 3 4 (1 ∷ dtmf_char ∷ []) 4

  abbrev pub lgsm_voice_in_accept : Outcome
  lgsm_voice_in_accept = lgsm_send_simple allocated next_msg_id rc 3 3

  abbrev pub lgsm_voice_hangup : Outcome
  lgsm_voice_hangup = lgsm_send_simple allocated next_msg_id rc 3 2

  abbrev pub lgsm_voice_volume_set : Outcome
  lgsm_voice_volume_set = lgsm_send_simple allocated next_msg_id rc 3 5

  abbrev pub lgsm_oper_get : Outcome
  lgsm_oper_get = lgsm_send_simple allocated next_msg_id rc 6 5

  abbrev pub lgsm_opers_get : Outcome
  lgsm_opers_get = lgsm_send_simple allocated next_msg_id rc 6 6

  abbrev pub lgsm_netreg_register : Bytes → Outcome
  lgsm_netreg_register oper = send_request allocated next_msg_id rc 6 1 (take 6 oper)

  abbrev pub lgsm_netreg_deregister : Outcome
  lgsm_netreg_deregister = lgsm_send_simple allocated next_msg_id rc 6 8

  abbrev pub lgsm_signal_quality : Outcome
  lgsm_signal_quality = lgsm_send_simple allocated next_msg_id rc 6 2

  abbrev pub lgsm_prefoper_list : Outcome
  lgsm_prefoper_list = lgsm_send_simple allocated next_msg_id rc 6 10

  abbrev pub lgsm_prefoper_delete : ℤ → Outcome
  lgsm_prefoper_delete index =
      send_request allocated next_msg_id rc 6 11 (u32_octets (unsigned index))

  abbrev pub lgsm_prefoper_add : Bytes → Outcome
  lgsm_prefoper_add oper = send_request allocated next_msg_id rc 6 12 (take 6 oper)

  abbrev pub lgsm_prefoper_get_space : Outcome
  lgsm_prefoper_get_space = lgsm_send_simple allocated next_msg_id rc 6 13

  abbrev pub lgsm_get_subscriber_num : Outcome
  lgsm_get_subscriber_num = lgsm_send_simple allocated next_msg_id rc 6 9

  abbrev pub lgsm_phone_power : Bool → Outcome
  lgsm_phone_power power = lgsm_send_simple allocated next_msg_id rc 7 (if power then 1 else 2)

  abbrev pub pin_sent : ℕ → Bytes → Option Bytes → Outcome
  pin_sent type pin none = returned (negsuc 21)
  pin_sent type pin (some second) =
      sent
        (lgsm_send next_msg_id (lgsm_gmh_fill 8 1 22)
          (u32_octets type ++ (text_in 9 pin ++ text_in 9 second)))
        rc

  -- The PINs are C strings. The return code is that of `send`.
  unfoldable pub lgsm_pin : ℕ → Bytes → Option Bytes → Outcome
  lgsm_pin type pin newpin =
      if ltb gsmd_pin_maxlen (length pin) || too_long newpin || leb 16 type
      then returned (negsuc 21)
      else if allocated
      then pin_sent type pin (second_pin type newpin)
      else returned (negsuc 11)

-- The message is built in an array with room for a text of `pt_buf_size` bytes and no zero behind it; the
-- result is `none` where the zero is written past it. `tx` is a C string.
unfoldable pub lgsm_passthrough_send : ℕ → ℤ → Bytes → Option Outcome
lgsm_passthrough_send next_msg_id rc tx =
    let octets = lgsm_send next_msg_id (lgsm_gmh_fill 2 1 (length tx + 1)) (tx ++ 0 ∷ []) in
    if ltb pt_buf_size (length tx)
    then some (returned (negsuc 21))
    else if length tx == pt_buf_size
    then none
    else some (
        sent octets
          (if ltb (unsigned rc) (length tx + hdr_size) then negsuc 4 else pos next_msg_id))
