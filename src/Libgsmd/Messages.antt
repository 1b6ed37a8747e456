-- ===== src/Libgsmd/Messages.antt =====
-- The requests about short messages and cell broadcasts of libgsmd_sms.c. An array or a text that is a
-- parameter is the memory from its start, or a C string.
pub mod Addresses
pub mod Numbers
use mathlib.Core.Option
use system_test_suite.Base.{
  ℕ, ◌+◌, ◌%◌, Bool, true, false, ◌&&◌, Option, none, some, [], ◌∷◌, ◌++◌, ltb, leb, ◌==◌,
  if◌then◌else◌, Bytes, length, take, drop, replicate,
}
use system_test_suite.Base.Int.{ℤ, pos, negsuc}
use system_test_suite.Atcmd.Mlparse.Texts.{first_char, is_digit}
use system_test_suite.Sms.Types.{Addr, gsmd_addr_maxlen}
use system_test_suite.Libgsmd.{
  unsigned, u32_octets, Outcome, returned, lgsm_send_simple, send_checked, send_request,
}
use system_test_suite.Libgsmd.Requests.{text_in}
use system_test_suite.Libgsmd.Sevenbit.{LgsmSms}

unfoldable pub all_digits : Bytes → Bool
all_digits [] = true
all_digits (c ∷ s) = is_digit c && all_digits s

-- GSMD_TOA_NPI_ISDN and GSMD_TOA_RESERVED, with GSMD_TOA_TON_INTERNATIONAL for a plus
abbrev pub addr_written : Bytes → ℕ → Addr
addr_written src skipplus =
    if first_char src == b'+'
    then record { type = 0x91; number = drop skipplus src }
    else record { type = 0x81; number = src }

-- The address that is written, `none` where the return code is 1.
unfoldable pub lgsm_number2addr : Bytes → ℕ → Option Addr
unfolding all_digits
lgsm_number2addr src skipplus =
    let addr = addr_written src skipplus in
    if ltb (gsmd_addr_maxlen + 1) (length src + 1)
    then none
    else if all_digits addr.number
    then some addr
    else none

-- `struct gsmd_addr`
abbrev pub addr_octets : Addr → Bytes
addr_octets addr = addr.type ∷ text_in 33 addr.number

-- `struct gsmd_sms`: no header, and zeros where nothing is written. 140 of the 165 octets of data are copied.
abbrev pub payload_octets : LgsmSms → Bytes
payload_octets sms =
    (sms.length % 256)
    ∷ (sms.alpha % 256)
    ∷ (replicate 33 0 ++ (take 140 sms.sms_data ++ replicate 25 0))

-- `struct gsmd_sms_submit`, with two octets between the message and the last word
abbrev pub submit_struct : Addr → LgsmSms → Bytes
submit_struct addr sms =
    addr_octets addr ++ (payload_octets sms ++ 0 ∷ 0 ∷ u32_octets (if sms.ask_ds then 1 else 0))

module _ (allocated : Bool) (next_msg_id : ℕ) (rc : ℤ) where
  abbrev pub lgsm_sms_list : ℤ → Outcome
  lgsm_sms_list stat = send_request allocated next_msg_id rc 9 1 (u32_octets (unsigned stat))

  abbrev pub lgsm_sms_read : ℤ → Outcome
  lgsm_sms_read index = send_request allocated next_msg_id rc 9 2 (u32_octets (unsigned index))

  abbrev pub lgsm_sms_delete : ℤ → ℤ → Outcome
  lgsm_sms_delete index delflg =
      send_request allocated next_msg_id rc 9 5
        ((unsigned index % 256) ∷ (unsigned delflg % 256) ∷ [])

  abbrev pub addressed : Option Addr → (Addr → Outcome) → Outcome
  addressed none send = returned (negsuc 21)
  addressed (some addr) send = send addr

  -- the address, and a message that has it
  abbrev pub with_addr : Bytes → ℕ → (Addr → Outcome) → Outcome
  with_addr src skipplus send =
      let written = addressed (lgsm_number2addr src skipplus) send in
      if allocated then written else returned (negsuc 11)

  unfoldable pub lgsm_sms_send : LgsmSms → Outcome
  unfolding lgsm_number2addr send_checked
  lgsm_sms_send sms =
      with_addr sms.addr 1
        (λ addr. send_request allocated next_msg_id rc 9 3 (submit_struct addr sms))

  unfoldable pub lgsm_sms_write : ℤ → LgsmSms → Outcome
  unfolding lgsm_number2addr send_checked
  lgsm_sms_write stat sms = with_addr sms.addr 1 (λ addr.
      send_request allocated next_msg_id rc 9 4 ((unsigned stat % 256) ∷ submit_struct addr sms))

  abbrev pub lgsm_sms_get_storage : Outcome
  lgsm_sms_get_storage = lgsm_send_simple allocated next_msg_id rc 9 6

  abbrev pub lgsm_sms_set_storage : ℕ → ℕ → ℕ → Outcome
  lgsm_sms_set_storage mem1 mem2 mem3 =
      send_request allocated next_msg_id rc 9 7
        (u32_octets mem1 ++ (u32_octets mem2 ++ u32_octets mem3))

  abbrev pub lgsm_sms_get_smsc : Outcome
  lgsm_sms_get_smsc = lgsm_send_simple allocated next_msg_id rc 9 8

  unfoldable pub lgsm_sms_set_smsc : Bytes → Outcome
  unfolding lgsm_number2addr send_checked
  lgsm_sms_set_smsc number =
      with_addr number 0 (λ addr. send_request allocated next_msg_id rc 9 9 (addr_octets addr))

  abbrev pub lgsm_cb_subscribe : Outcome
  lgsm_cb_subscribe = lgsm_send_simple allocated next_msg_id rc 10 1

  abbrev pub lgsm_cb_unsubscribe : Outcome
  lgsm_cb_unsubscribe = lgsm_send_simple allocated next_msg_id rc 10 2
