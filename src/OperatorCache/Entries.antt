-- ===== src/OperatorCache/Entries.antt =====
-- The cache as a map: one entry for a key, the others untouched.
use system_test_suite.Base.{
  ℕ, ◌+◌, ◌≡◌, inl, inr, ◌∙◌, false, ◌&&◌, Option, none, some, List, [], ◌∷◌, ◌++◌, arith, ◌==◌,
  if◌then◌else◌, Bool-cases,
}
use system_test_suite.OperatorCache.{Opname, remove_key, opname_add}

-- The entry for a country and a network code, as a search from the head finds it.
pub lookup : ℕ → ℕ → List Opname → Option Opname
lookup mcc mnc [] = none
lookup mcc mnc (op ∷ operators) =
    if op.mcc == mcc && op.mnc == mnc then some op else lookup mcc mnc operators

-- how many entries there are for a key
pub entries : ℕ → ℕ → List Opname → ℕ
entries mcc mnc [] = 0
entries mcc mnc (op ∷ operators) =
    (if op.mcc == mcc && op.mnc == mnc then 1 else 0) + entries mcc mnc operators

lookup-remove_key :
    (op : Opname) (mcc mnc : ℕ) (operators rest : List Opname)
    → lookup mcc mnc (remove_key op operators ++ rest) ≡ (
        if op.mcc == mcc && op.mnc == mnc
        then lookup mcc mnc rest
        else lookup mcc mnc (operators ++ rest))
unfolding lookup remove_key
lookup-remove_key op mcc mnc [] rest = ground arith
lookup-remove_key op mcc mnc (cur ∷ operators) rest =
    ground (arith, lookup-remove_key op mcc mnc operators rest)

lookup_last :
    (mcc mnc : ℕ) (operators : List Opname) (op : Opname)
    → (op.mcc == mcc && op.mnc == mnc) ≡ false
    → lookup mcc mnc (operators ++ op ∷ []) ≡ lookup mcc mnc operators
unfolding lookup
lookup_last mcc mnc [] op other = rw other
lookup_last mcc mnc (cur ∷ operators) op other =
    ground (arith, lookup_last mcc mnc operators op other)

-- Adding an entry makes it the one that its key finds, and changes no other key.
pub lookup-opname_add :
    (operators : List Opname) (op : Opname) (mcc mnc : ℕ)
    → lookup mcc mnc (opname_add operators op)
      ≡ (if op.mcc == mcc && op.mnc == mnc then some op else lookup mcc mnc operators)
unfolding opname_add
lookup-opname_add operators op mcc mnc = elim (Bool-cases (op.mcc == mcc && op.mnc == mnc)) [
  | inl same ↦
      rw same
        (lookup-remove_key op mcc mnc operators (op ∷ []) ∙ unfold lookup in rw (same, lookup))
  | inr other ↦ rw other (
      lookup-remove_key op mcc mnc operators (op ∷ [])
      ∙ rw other (lookup_last mcc mnc operators op other))
]

entries-remove_key :
    (op : Opname) (mcc mnc : ℕ) (operators rest : List Opname)
    → entries mcc mnc (remove_key op operators ++ rest)
      ≡ (if op.mcc == mcc && op.mnc == mnc then 0 else entries mcc mnc operators)
        + entries mcc mnc rest
unfolding entries remove_key
entries-remove_key op mcc mnc [] rest = ground arith
entries-remove_key op mcc mnc (cur ∷ operators) rest =
    ground (arith, entries-remove_key op mcc mnc operators rest)

-- Whatever the list held before, the key added has one entry afterwards, and every other key as
-- many as before.
pub entries-opname_add :
    (operators : List Opname) (op : Opname) (mcc mnc : ℕ)
    → entries mcc mnc (opname_add operators op)
      ≡ (if op.mcc == mcc && op.mnc == mnc then 1 else entries mcc mnc operators)
unfolding opname_add entries
entries-opname_add operators op mcc mnc =
    ground (arith, entries-remove_key op mcc mnc operators (op ∷ []))
