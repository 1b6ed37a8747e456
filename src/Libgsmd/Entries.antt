-- ===== src/Libgsmd/Entries.antt =====
-- The requests of libgsmd_phonebook.c. The arrays of a structure of the library are as they stand in memory,
-- and `storage` is a C string.
pub mod Written
use system_test_suite.Base.{ℕ, ◌+◌, ◌-◌, ◌%◌, Bool, [], ◌∷◌, ◌++◌, Bytes, take}
use system_test_suite.Base.Int.{ℤ}
use system_test_suite.Libgsmd.{
  unsigned, u32_octets, Outcome, lgsm_send_simple, send_checked, send_request,
}
use system_test_suite.Libgsmd.Requests.{text_in}

-- `struct lgsm_phonebook`, with arrays of 45 and 15 bytes
pub record LgsmPhonebook : Type 0 where
  pub index : ℤ
  pub numb : Bytes
  pub type : ℕ
  pub text : Bytes

-- an array of `size + 1` bytes, copied, with a zero in the last
abbrev pub ended : ℕ → Bytes → Bytes
ended size array = take size array ++ 0 ∷ []

-- `struct gsmd_phonebook`
abbrev pub phonebook_octets : LgsmPhonebook → Bytes
phonebook_octets pb =
    (unsigned pb.index % 256) ∷ (ended 44 pb.numb ++ (pb.type % 256) ∷ ended 14 pb.text)

module _ (allocated : Bool) (next_msg_id : ℕ) (rc : ℤ) where
  abbrev request : ℕ → Bytes → Outcome
  request sub_type payload = send_request allocated next_msg_id rc 5 sub_type payload

  abbrev pub lgsm_pb_set_storage : Bytes → Outcome
  lgsm_pb_set_storage storage = request 8 (text_in 2 (take 2 storage) ++ 0 ∷ [])

  abbrev pub lgsm_pb_find_entry : Bytes → Outcome
  lgsm_pb_find_entry findtext = request 1 (ended 14 findtext)

  abbrev pub lgsm_pb_read_entry : ℤ → Outcome
  lgsm_pb_read_entry index = request 2 (u32_octets (unsigned index))

  abbrev pub lgsm_pb_read_entries : ℤ → ℤ → Outcome
  lgsm_pb_read_entries index1 index2 =
      request 3 ((unsigned index1 % 256) ∷ (unsigned index2 % 256) ∷ [])

  abbrev pub lgsm_pb_del_entry : ℤ → Outcome
  lgsm_pb_del_entry index = request 5 (u32_octets (unsigned index))

  unfoldable pub lgsm_pb_write_entry : LgsmPhonebook → Outcome
  unfolding send_checked
  lgsm_pb_write_entry pb = request 4 (phonebook_octets pb)

  abbrev pub lgsm_pb_get_support : Outcome
  lgsm_pb_get_support = lgsm_send_simple allocated next_msg_id rc 5 6

  abbrev pub lgsm_pb_retrieve_readrg : ℤ → Outcome
  lgsm_pb_retrieve_readrg num = request 9 (u32_octets (unsigned num))

  abbrev pub lgsm_pb_retrieve_find : ℤ → Outcome
  lgsm_pb_retrieve_find num = request 10 (u32_octets (unsigned num))

  abbrev pub lgsm_get_imsi : Outcome
  lgsm_get_imsi = lgsm_send_simple allocated next_msg_id rc 5 11
