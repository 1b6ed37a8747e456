-- ===== src/OperatorCache.antt =====
-- The cache of operator names: gta02-dm1/user_space/gsm/src/gsmd/operator_cache.c. The linked list
-- `g->operators` is a list of entries; whether `talloc` succeeds is an argument.
pub mod Entries
pub mod Names
use system_test_suite.Base.{
  ℕ, ◌+◌, ◌-◌, ◌*◌, ◌%◌, Bool, true, false, not, ◌&&◌, List, [], ◌∷◌, ◌++◌, leb, ◌==◌,
  if◌then◌else◌, Bytes, length, take, drop,
}

-- `struct opname`: the key, and the bytes of `alnum_long` that were written.
pub record Opname : Type 0 where
  pub mcc : ℕ
  pub mnc : ℕ
  pub alnum_long : Bytes

pub data Rc : Type 0 where
  done einval enomem : Rc

abbrev pub same_key : Opname → Opname → Bool
same_key op cur = op.mcc == cur.mcc && op.mnc == cur.mnc

-- the loop that deletes the entries of the same key
unfoldable pub remove_key : Opname → List Opname → List Opname
remove_key op [] = []
remove_key op (cur ∷ operators) =
    let rest = remove_key op operators in if same_key op cur then rest else cur ∷ rest

-- `_opname_add`
unfoldable pub opname_add : List Opname → Opname → List Opname
opname_add operators op = remove_key op operators ++ op ∷ []

abbrev pub is_digit : ℕ → Bool
is_digit c = leb b'0' c && leb c b'9'

-- the digits of `atoi`, up to the first byte that is none
unfoldable pub atoi_from : ℕ → Bytes → ℕ
atoi_from acc [] = acc
atoi_from acc (c ∷ s) =
    let rest = atoi_from (acc * 10 + (c - b'0')) s in if is_digit c then rest else acc

-- `strncpy(dst, src, n)`, without the zeros that fill up a shorter text
abbrev strncpy : Bytes → ℕ → Bytes
strncpy src n = take n src

-- `sizeof(op->alnum_long-1)`: the size of a pointer of the 32-bit target
abbrev pub sizeof_alnum_long : ℕ
sizeof_alnum_long = 4

-- The entry that `gsmd_opname_add` fills in. `atoi` is read on texts that begin with a digit.
unfoldable pub opname_of : Bytes → Bytes → Opname
unfolding atoi_from
opname_of numeric_bcd_string alnum_long = record {
  mcc = atoi_from 0 (strncpy numeric_bcd_string 3) % 65536;
  mnc = atoi_from 0 (strncpy (drop 3 numeric_bcd_string) 2) % 256;
  alnum_long = strncpy alnum_long sizeof_alnum_long;
}

unfoldable pub gsmd_opname_add : Bool → List Opname → Bytes → Bytes → List Opname × Rc
unfolding opname_of opname_add remove_key
gsmd_opname_add allocated operators numeric_bcd_string alnum_long =
    if not (length numeric_bcd_string == 5)
    then (operators, einval)
    else if not allocated
    then (operators, enomem)
    else (opname_add operators (opname_of numeric_bcd_string alnum_long), done)
