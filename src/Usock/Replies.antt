-- ===== src/Usock/Replies.antt =====
-- The callbacks of usock.c that make the answers to the clients. `resp` is the response without its
-- zero. An answer is `none` where the source reads or writes outside its memory. (`network_oper_cb` and
-- the others with `sscanf` are left out.)
use mathlib.Core.Option
use system_test_suite.Base.{
  ℕ, zero, ◌+◌, ◌-◌, ◌/◌, ◌%◌, ◌^◌, Bool, true, false, Option, none, some, List, [], ◌∷◌, ◌++◌, ltb,
  ◌==◌, if◌then◌else◌, Bytes, codes, length, get_elem?, take, drop, ◌>>=◌,
}
use system_test_suite.Base.Int.{pos, negsuc}
use system_test_suite.Atcmd.Queue.{Atcmd, find_char}
use system_test_suite.Atcmd.Mlparse.Texts.{is_space, digits_value, starts_with}
use system_test_suite.Usock.Message.{
  World, Phonebook, Action, returns, replies, turns_on, collects_readrg, collects_find, einval,
  enomem,
}
use system_test_suite.Usock.Phonebooks.{phonebook_size, entries_octets}

-- `atoi`, of a number that an `int` holds, stored in an octet
unfoldable pub atoi_u8 : Bytes → ℕ
unfolding digits_value
atoi_u8 [] = 0
atoi_u8 (c ∷ s) =
    let rest = atoi_u8 s in
    if is_space c
    then rest
    else if c == b'-'
    then (256 - digits_value 0 s % 256) % 256
    else if c == b'+'
    then digits_value 0 s % 256
    else digits_value 0 (c ∷ s) % 256

-- `gsmd_ucmd_fill` succeeds
abbrev with_memory : World → Option Action → Option Action
with_memory w a = if w.allocated 0 then a else some enomem

-- the answer `buf` is queued for the client
abbrev pub answer : ℕ → ℕ → ℕ → Bytes → Action
answer type subtype id buf =
    replies
      (record {
        msg_type = type;
        msg_subtype = subtype;
        id = id;
        len = length buf % 2 ^ 16;
        buf = buf;
      })
      (returns (pos 0))

-- the response itself, with its zero, as far as the length in the header goes
unfoldable pub usock_cmd_cb : World → Atcmd → Bytes → Option Action
usock_cmd_cb w cmd resp =
    with_memory w (some (answer 2 2 cmd.id (take ((length resp + 1) % 2 ^ 16) (resp ++ 0 ∷ []))))

-- `phonebook_write_cb`, `phonebook_delete_cb` and `get_imsi_cb`, by their subtypes
unfoldable pub phonebook_text_cb : World → ℕ → Bytes → Option Action
phonebook_text_cb w subtype resp = with_memory w (some (answer 5 subtype 0 (resp ++ 0 ∷ [])))

unfoldable pub phone_powerup_cb : Atcmd → Action
phone_powerup_cb cmd = elim cmd.ret [ pos zero ↦ turns_on (returns (pos 0)) | _ ↦ returns (pos 0) ]

abbrev only_commas : Bytes → Bool
only_commas [] = true
only_commas (c ∷ s) = if c == b',' then only_commas s else false

-- The answer to a command that sets the number is dropped; that to one that asks for it is stored
-- through a pointer that was never set.
unfoldable pub network_vmail_cb : World → Atcmd → Bytes → Option Action
network_vmail_cb w cmd resp =
    let asked = if only_commas resp then some einval else none in
    with_memory w (get_elem? cmd.buf 7 >>= λ c. if c == b'=' then some (returns (pos 0)) else asked)

-- `-EIO`
abbrev eio : Action
eio = returns (negsuc 4)

abbrev sigq_ber : ℕ → Bytes → Option ℕ → Action
sigq_ber rssi resp none = eio
sigq_ber rssi resp (some comma) = answer 6 2 0 (rssi ∷ atoi_u8 (drop (comma + 1) resp) ∷ [])

unfoldable pub network_sigq_cb : World → Bytes → Option Action
unfolding atoi_u8 find_char
network_sigq_cb w resp = with_memory w (
    if ltb (length resp) 6
    then none
    else some (sigq_ber (atoi_u8 (drop 6 resp)) resp (find_char b',' resp)))

-- what stands behind the first and behind the last `c`
unfoldable pub after_first : ℕ → Bytes → Option Bytes
after_first c [] = none
after_first c (d ∷ s) = let rest = after_first c s in if c == d then some s else rest

unfoldable pub after_last : ℕ → Bytes → Option Bytes
after_last c [] = none
after_last c (d ∷ s) = elim (after_last c s) [
  | some rest ↦ some rest
  | none ↦ if c == d then some s else none
]

-- the text up to `c`, which is there, and what stands behind it
unfoldable pub up_to : ℕ → Bytes → Option (Bytes × Bytes)
up_to c [] = none
up_to c (d ∷ s) =
    let rest = Option.map (λ p. (d ∷ p.0, p.1)) (up_to c s) in if c == d then some ([], s) else rest

-- the string behind its first byte
abbrev behind_byte : Bytes → Option Bytes
behind_byte [] = none
behind_byte (c ∷ s) = some s

-- a text that fits an array of `size` bytes with its zero
abbrev fitting : ℕ → Bytes → Option Bytes
fitting size text = if ltb (length text) size then some text else none

-- `+CPBR: <index>,"<number>",<type>,"<text>"`, as `phonebook_read_cb` and the two callbacks that
-- collect entries take it apart
unfoldable pub entry_of : Bytes → Option Phonebook
unfolding after_first after_last up_to atoi_u8
entry_of line = do
  index ← after_first b' ' line
  opened ← after_first b'"' line
  (number, closed) ← up_to b'"' opened
  numb ← fitting 45 number
  type ← behind_byte closed
  last ← after_last b',' line
  inside ← behind_byte last
  (words, rest) ← up_to b'"' inside
  text ← fitting 15 words
  some (record { index = atoi_u8 index; numb = numb; type = atoi_u8 type; text = text })

abbrev read_answer : World → Bytes → Option Action
read_answer w resp = entry_of resp >>= λ pb.
    some (answer 5 2 0 (entries_octets (take phonebook_size w.memory) (pb ∷ [])))

unfoldable pub phonebook_read_cb : World → Bytes → Option Action
unfolding entry_of entries_octets starts_with
phonebook_read_cb w resp =
    let absent = some (answer 5 2 0 (0 ∷ drop 1 (take phonebook_size w.memory))) in
    with_memory w (if starts_with (codes "+CPBR") resp then read_answer w resp else absent)

-- `strtok` with one separator: the parts between separators that are not empty, `part` being the
-- beginning of the first
abbrev pub add_part : Bytes → List Bytes → List Bytes
add_part [] parts = parts
add_part (c ∷ part) parts = (c ∷ part) ∷ parts

unfoldable pub strtok : ℕ → Bytes → Bytes → List Bytes
strtok sep part [] = add_part part []
strtok sep part (c ∷ s) =
    let next = add_part part (strtok sep [] s) in
    let more = strtok sep (part ++ c ∷ []) s in if sep == c then next else more

unfoldable pub entries_of : List Bytes → Option (List Phonebook)
unfolding entry_of
entries_of [] = some []
entries_of (line ∷ lines) = do pb ← entry_of line; pbs ← entries_of lines; some (pb ∷ pbs)

-- an `int`, as four octets
abbrev pub int_octets : ℕ → Bytes
int_octets n = n % 256 ∷ n / 256 % 256 ∷ n / 2 ^ 16 % 256 ∷ n / 2 ^ 24 % 256 ∷ []

unfoldable pub phonebook_readrg_cb : World → Bytes → Option Action
unfolding entries_of strtok
phonebook_readrg_cb w resp = with_memory w (
    entries_of (strtok b'\n' [] resp) >>= λ pbs.
    some (collects_readrg pbs (answer 5 3 0 (int_octets (length pbs)))))

unfoldable pub phonebook_find_cb : World → Bytes → Option Action
unfolding entries_of strtok
phonebook_find_cb w resp = with_memory w (
    entries_of (strtok b'\n' [] resp) >>= λ pbs.
    some (collects_find pbs (answer 5 1 0 (int_octets (length pbs)))))

-- `+CPBR: (1-100),44,16`
abbrev support_answer : Option Bytes → Option Bytes → Option Bytes → Action
support_answer none first last = eio
support_answer (some dash) none last = eio
support_answer (some dash) (some first) none = eio
support_answer (some dash) (some first) (some last) =
    answer 5 6 0 (atoi_u8 dash ∷ atoi_u8 first ∷ atoi_u8 last ∷ [])

unfoldable pub phonebook_get_support_cb : World → Bytes → Option Action
unfolding atoi_u8 after_first after_last
phonebook_get_support_cb w resp =
    with_memory w
      (some (support_answer (after_first b'-' resp) (after_first b',' resp) (after_last b',' resp)))
