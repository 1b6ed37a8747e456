-- ===== src/OperatorCache/Names.antt =====
-- What is stored for a numeric operator code and a name.
use system_test_suite.Base.{
  ℕ, ◌+◌, ◌-◌, ◌*◌, ◌%◌, ◌≡◌, ◌≢◌, ◌⊎◌, ap₂, Bool, true, false, List, [], ◌∷◌, arith, Bytes, length,
  take, ◌==◌, if◌then◌else◌,
}
use system_test_suite.OperatorCache.{
  Opname, done, einval, enomem, is_digit, atoi_from, opname_of, opname_add, gsmd_opname_add,
}

mcc_value :
    (a b c : ℕ)
    → is_digit a ≡ true
    → is_digit b ≡ true
    → is_digit c ≡ true
    → atoi_from 0 (a ∷ b ∷ c ∷ []) % 65536 ≡ (a - b'0') * 100 + (b - b'0') * 10 + (c - b'0')
unfolding atoi_from
mcc_value a b c ha hb hc = ground arith

mnc_value :
    (d e : ℕ)
    → is_digit d ≡ true
    → is_digit e ≡ true
    → atoi_from 0 (d ∷ e ∷ []) % 256 ≡ (d - b'0') * 10 + (e - b'0')
unfolding atoi_from
mnc_value d e hd he = ground arith

-- Five digits are stored as the three-digit country code and the two-digit network code, with no
-- overflow, and of the name at most four bytes: the rest of it is lost. The entry is then added.
pub gsmd_opname_add_digits :
    (operators : List Opname) (a b c d e : ℕ) (name : Bytes)
    → is_digit a ≡ true
    → is_digit b ≡ true
    → is_digit c ≡ true
    → is_digit d ≡ true
    → is_digit e ≡ true
    → gsmd_opname_add true operators (a ∷ b ∷ c ∷ d ∷ e ∷ []) name ≡ (
      opname_add operators (record {
        mcc = (a - b'0') * 100 + (b - b'0') * 10 + (c - b'0');
        mnc = (d - b'0') * 10 + (e - b'0');
        alnum_long = take 4 name;
      }),
      done,
    )
unfolding gsmd_opname_add opname_of
gsmd_opname_add_digits operators a b c d e name ha hb hc hd he =
    ap₂
      (λ mcc mnc.
        (opname_add operators (record { mcc = mcc; mnc = mnc; alnum_long = take 4 name }), done))
      (mcc_value a b c ha hb hc) (mnc_value d e hd he)

-- A code that has not five characters is refused with -EINVAL, and when no memory is left the
-- answer is -ENOMEM; the cache is unchanged on both paths.
pub gsmd_opname_add_refused :
    (allocated : Bool) (operators : List Opname) (code name : Bytes)
    → (length code ≢ 5) ⊎ (allocated ≡ false)
    → gsmd_opname_add allocated operators code name
      ≡ (operators, if length code == 5 then enomem else einval)
unfolding gsmd_opname_add
gsmd_opname_add_refused allocated operators code name h = ground arith
