-- ===== src/Usock/Phonebooks.antt =====
-- `usock_rcv_phonebook` of usock.c, the requests about the phone book. `msg` is the memory behind the
-- header, `len` the number of octets that were read. `buf` has 1024 bytes.
use system_test_suite.Base.{
  ℕ, suc, ◌+◌, ◌-◌, ◌*◌, Option, none, some, List, [], ◌∷◌, ◌++◌, ltb, ◌==◌, if◌then◌else◌, Bytes,
  codes, length, get_elem?, take, drop, not, leb, ◌||◌, ◌%◌, ◌^◌, ◌>>=◌,
}
use system_test_suite.Base.Int.{pos}
use system_test_suite.Base.Text.{c_string_at, u32_at, decimal, decimal_ℤ}
use system_test_suite.Atcmd.Mlparse.Texts.{to_int32}
use system_test_suite.Atcmd.Queue.{Atcmd}
use system_test_suite.Usock.Message.{
  MsgHdr, hdr_size, CmdCb, usock_cmd_cb, phonebook_find_cb, phonebook_read_cb, phonebook_readrg_cb,
  phonebook_write_cb, phonebook_delete_cb, phonebook_get_support_cb, phonebook_list_storage_cb,
  get_imsi_cb, World, Phonebook, Session, Action, returns, replies, empties_readrg, empties_find,
  einval, enomem, fill, submitted, printed, submitted_printed,
}

-- The guards on the length of a message: `size` octets behind the header.
abbrev pub with_size : ℕ → ℕ → Option Action → Option Action
with_size len size a = if ltb len (hdr_size + size) then some einval else a

-- There is room for a name of two letters.
unfoldable pub set_storage : World → MsgHdr → Bytes → Option Action
set_storage w gph msg = do
  storage ← c_string_at msg 0
  submitted_printed (fill w 0 (codes "AT+CPBS=\"") 13 usock_cmd_cb gph.id)
      (codes "AT+CPBS=\"" ++ storage ++ codes "\"")

unfoldable pub find_entry : World → MsgHdr → Bytes → Option Action
find_entry w gph msg = do
  findtext ← c_string_at msg 0
  submitted_printed (fill w 0 (codes "AT+CPBF=\"") (11 + length findtext) phonebook_find_cb gph.id)
      (codes "AT+CPBF=\"" ++ findtext ++ codes "\"")

-- the command `name`, of 8 letters, with the arguments that were printed into `buf`
abbrev pub with_arguments : World → MsgHdr → Bytes → CmdCb → Bytes → Option Action
with_arguments w gph name f args = do
  buf ← printed 1024 args
  submitted_printed (fill w 0 name (9 + length buf) f gph.id) (name ++ buf)

abbrev pub index_text : Bytes → Option Bytes
index_text msg = do index ← u32_at msg 0; some (decimal_ℤ (to_int32 index))

unfoldable pub read_entry : World → MsgHdr → Bytes → Option Action
read_entry w gph msg = index_text msg >>= with_arguments w gph (codes "AT+CPBR=") phonebook_read_cb

unfoldable pub read_range : World → MsgHdr → Bytes → Option Action
read_range w gph msg = do
  index1 ← get_elem? msg 0
  index2 ← get_elem? msg 1
  with_arguments w gph (codes "AT+CPBR=") phonebook_readrg_cb
      (decimal index1 ++ codes "," ++ decimal index2)

-- The number is the bytes 1 to 45 of the entry, its type the byte 46, and its text follows.
unfoldable pub write_entry : World → MsgHdr → Bytes → Option Action
write_entry w gph msg = do
  index ← get_elem? msg 0
  numb ← c_string_at msg 1
  type ← get_elem? msg 46
  text ← c_string_at msg 47
  with_arguments w gph (codes "AT+CPBW=") phonebook_write_cb (
      decimal index
      ++ codes ",\""
      ++ numb
      ++ codes "\","
      ++ decimal type
      ++ codes ",\""
      ++ text
      ++ codes "\"")

unfoldable pub delete_entry : World → MsgHdr → Bytes → Option Action
delete_entry w gph msg =
    index_text msg >>= with_arguments w gph (codes "AT+CPBW=") phonebook_delete_cb

-- `sizeof(struct gsmd_phonebook)`, 45 bytes of number and 15 of text with the two octets
abbrev pub phonebook_size : ℕ
phonebook_size = 62

-- A text as `strcpy` stores it in an array of `size` bytes; behind it stays what was there.
abbrev strcpy_to : Bytes → ℕ → Bytes → Bytes
strcpy_to memory size text = text ++ 0 ∷ drop (suc (length text)) (take size memory)

-- the entries, copied one behind the other into the memory of the message
unfoldable pub entries_octets : Bytes → List Phonebook → Bytes
entries_octets memory [] = memory
entries_octets memory (pb ∷ pbs) =
    pb.index ∷ strcpy_to (drop 1 memory) 45 pb.numb
    ++ pb.type ∷ strcpy_to (drop 47 memory) 15 pb.text
    ++ entries_octets (drop phonebook_size memory) pbs

-- the octets that `gsmd_ucmd_fill` is asked for, an `int`
abbrev pub room_of : ℕ → ℕ
room_of num = phonebook_size * num % 2 ^ 32

-- the message with the entries, and the list emptied
abbrev filled : World → ℕ → (Action → Action) → List Phonebook → ℕ → Action
filled w subtype empty pbs room = empty (
    replies
      (record {
        msg_type = 5;
        msg_subtype = subtype;
        id = 0;
        len = room % 2 ^ 16;
        buf = entries_octets (take room w.memory) pbs;
      })
      (returns (pos 0)))

-- A list that was collected is sent, in a message with room for the number of entries that the client
-- asks for. The result is `none` where the entries, or the 16 octets of the link and the header, are
-- written past the room.
abbrev pub retrieve : World → ℕ → (Action → Action) → List Phonebook → ℕ → Option Action
retrieve w subtype empty pbs room =
    if not (w.allocated 0)
    then some enomem
    else if ltb room (phonebook_size * length pbs) || leb (2 ^ 32 - 16) room
    then none
    else some (filled w subtype empty pbs room)

unfoldable pub retrieved : World → ℕ → (Action → Action) → List Phonebook → Bytes → Option Action
unfolding entries_octets
retrieved w subtype empty pbs msg =
    u32_at msg 0 >>= λ num. retrieve w subtype empty pbs (room_of num)

-- A command that could not be filled is left out without an error.
abbrev pub submitted_or_not : Option Atcmd → Action
submitted_or_not none = returns (pos 0)
submitted_or_not (some cmd) = submitted (some cmd)

-- the requests that send a list, and the one for the subscriber's number
unfoldable pub phonebook_lists : World → Session → MsgHdr → Bytes → ℕ → Option Action
unfolding retrieved
phonebook_lists w s gph msg len =
    if gph.msg_subtype == 9
    then with_size len 4 (retrieved w 9 empties_readrg s.pb_readrg_list msg)
    else if gph.msg_subtype == 10
    then with_size len 4 (retrieved w 10 empties_find s.pb_find_list msg)
    else if gph.msg_subtype == 11
    then some (submitted_or_not (fill w 0 (codes "AT+CIMI") 8 get_imsi_cb 0))
    else some einval

unfoldable pub usock_rcv_phonebook : World → Session → MsgHdr → Bytes → ℕ → Option Action
unfolding set_storage find_entry read_entry read_range write_entry delete_entry phonebook_lists
usock_rcv_phonebook w s gph msg len =
    if gph.msg_subtype == 7
    then some (submitted_or_not (fill w 0 (codes "AT+CPBS=?") 10 phonebook_list_storage_cb gph.id))
    else if gph.msg_subtype == 8
    then with_size len 3 (set_storage w gph msg)
    else if gph.msg_subtype == 1
    then with_size len 15 (find_entry w gph msg)
    else if gph.msg_subtype == 2
    then with_size len 4 (read_entry w gph msg)
    else if gph.msg_subtype == 3
    then with_size len 2 (read_range w gph msg)
    else if gph.msg_subtype == 4
    then with_size len phonebook_size (write_entry w gph msg)
    else if gph.msg_subtype == 5
    then with_size len 4 (delete_entry w gph msg)
    else if gph.msg_subtype == 6
    then some (submitted_or_not (fill w 0 (codes "AT+CPBR=?") 10 phonebook_get_support_cb gph.id))
    else phonebook_lists w s gph msg len
