-- ===== src/Events/Dispatch.antt =====
-- The table of the handlers of unsolicited codes: `unsolicited_register_array`, `unsolicited_init` and
-- `unsolicited_parse` of gta02-dm1/user_space/gsm/src/gsmd/unsolicited.c. What the handlers do is a
-- parameter. The result is `none` where the table is read past its end.
pub mod Lookup
use system_test_suite.Base.{
  ℕ, ◌+◌, Bool, Option, none, some, List, [], ◌∷◌, ◌++◌, ltb, if◌then◌else◌, Bytes, codes, length,
  map, take, drop, replicate, ◌>>=◌,
}
use mathlib.Core.Option
use system_test_suite.Base.Int.{ℤ, pos, negsuc}
use system_test_suite.Atcmd.Queue.{Gsmd, cstr, find_char}
use system_test_suite.Atcmd.Mlparse.Texts.{starts_with}

-- The pointer a handler gets: null, to a text, or to no memory.
pub data Param : Type 0 where
  null : Param
  text_at : Bytes → Param
  nowhere : Param

abbrev pub Parse : Type 0
Parse = Bytes → Param → Gsmd → Gsmd × ℤ

-- `struct gsmd_unsolicit`; a slot of the table whose prefix is null is `none`.
pub record Unsolicit : Type 0 where
  pub prefix : Bytes
  pub parse : Parse

abbrev pub Slots : Type 0
Slots = List (Option Unsolicit)

abbrev pub table_size : ℕ
table_size = 256

-- `static struct gsmd_unsolicit unsolicit[256] = {{ 0, 0 }};`
abbrev pub empty_table : Slots
empty_table = replicate table_size none

-- The `len` bytes of `buf` are given. Where there is no colon, 2 is added to the null pointer.
abbrev pub colon_param : Bytes → Option ℕ → Param
colon_param buf none = nowhere
colon_param buf (some i) =
    if ltb (length buf) (i + 2) then null else text_at (drop (i + 2) (cstr buf))

abbrev pub answered : Unsolicit → Bytes → Gsmd → Gsmd × ℤ
answered i buf g = i.parse buf (colon_param buf (find_char b':' (cstr buf))) g

abbrev pub enoent : ℤ
enoent = negsuc 1

abbrev pub enomem : ℤ
enomem = negsuc 11

unfoldable pub unsolicited_parse : Slots → Bytes → Gsmd → Option (Gsmd × ℤ)
unsolicited_parse [] buf g = none
unsolicited_parse (none ∷ slots) buf g = some (g, enoent)
unsolicited_parse (some i ∷ slots) buf g =
    let rest = unsolicited_parse slots buf g in
    if starts_with i.prefix (cstr buf) then some (answered i buf g) else rest

-- `while (unsolicit[curlen ++].prefix);`
unfoldable pub slots_used : Slots → Option ℕ
slots_used [] = none
slots_used (none ∷ slots) = some 1
slots_used (some i ∷ slots) = Option.map (λ n. n + 1) (slots_used slots)

unfoldable pub unsolicited_register_array : List Unsolicit → Slots → Option (Slots × ℤ)
unfolding slots_used
unsolicited_register_array arr slots = do
  curlen ← slots_used slots
  some (
      if ltb table_size (length arr + curlen)
      then (slots, enomem)
      else (map some arr ++ take curlen slots ++ drop (length arr + curlen) slots, pos 0))

pub data GenericParse : Type 0 where
  ring_parse cring_parse creg_parse ccwa_parse cusd_parse cccm_parse : GenericParse
  cgev_parse cgreg_parse clip_parse colp_parse ctzv_parse copn_parse : GenericParse

abbrev generic : (GenericParse → Parse) → Bytes → GenericParse → Unsolicit
generic parses prefix name = record { prefix = prefix; parse = parses name }

abbrev pub gsm0707_unsolicit : (GenericParse → Parse) → List Unsolicit
gsm0707_unsolicit parses =
    generic parses (codes "RING") ring_parse
    ∷ generic parses (codes "+CRING") cring_parse
    ∷ generic parses (codes "+CREG") creg_parse
    ∷ generic parses (codes "+CCWA") ccwa_parse
    ∷ generic parses (codes "+CUSD") cusd_parse
    ∷ generic parses (codes "+CCCM") cccm_parse
    ∷ generic parses (codes "+CGEV") cgev_parse
    ∷ generic parses (codes "+CGREG") cgreg_parse
    ∷ generic parses (codes "+CLIP") clip_parse
    ∷ generic parses (codes "+COLP") colp_parse
    ∷ generic parses (codes "+CTZV") ctzv_parse
    ∷ generic parses (codes "+COPN") copn_parse
    ∷ []

-- The handlers of the vendor's plug-in, `none` for no plug-in.
unfoldable pub unsolicited_init :
    (GenericParse → Parse) → Option (List Unsolicit) → Slots → Option Slots
unfolding unsolicited_register_array
unsolicited_init parses vendor slots = do
  generics ← unsolicited_register_array (gsm0707_unsolicit parses) slots
  elim vendor [
    | none ↦ some generics.0
    | some [] ↦ some generics.0
    | some (i ∷ arr) ↦ Option.map (λ r. r.0) (unsolicited_register_array (i ∷ arr) generics.0)
  ]
