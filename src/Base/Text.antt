-- ===== src/Base/Text.antt =====
-- What `sprintf` prints and `strlen` reads.
use mathlib.Core.Option
use system_test_suite.Base.{
  ℕ, zero, suc, ◌+◌, ◌*◌, ◌/◌, ◌%◌, ◌^◌, ◌≤◌, Option, none, some, [], ◌∷◌, ◌++◌, ◌≡◌, refl, Bool,
  true, false, Bool-cases, inl, inr, ltb, ◌==◌, if◌then◌else◌, Bytes, length, get_elem?, drop,
  ◌>>=◌, arith,
}
use system_test_suite.Base.Int.{ℤ, pos, negsuc}

-- The C string at the start of some memory, or `none` where the memory ends before the string.
unfoldable pub c_string : Bytes → Option Bytes
c_string [] = none
c_string (c ∷ s) = let rest = Option.map (◌∷◌ c) (c_string s) in if c == 0 then some [] else rest

abbrev pub c_string_at : Bytes → ℕ → Option Bytes
c_string_at memory i = c_string (drop i memory)

-- little-endian words of 16 and 32 bits
abbrev pub u16_at : Bytes → ℕ → Option ℕ
u16_at memory i = do
  low ← get_elem? memory i
  high ← get_elem? memory (i + 1)
  some (low + 256 * high)

abbrev pub u32_at : Bytes → ℕ → Option ℕ
u32_at memory i = do low ← u16_at memory i; high ← u16_at memory (i + 2); some (low + 2 ^ 16 * high)

-- "%u": the digits, at most `fuel` of them, in front of `more`
unfoldable pub decimal_before : ℕ → ℕ → Bytes → Bytes
decimal_before zero n more = more
decimal_before (suc fuel) n more =
    let digits = (b'0' + n % 10) ∷ more in
    let rest = decimal_before fuel (n / 10) digits in if ltb n 10 then digits else rest

-- a word of 32 bits has ten digits at most
abbrev pub decimal : ℕ → Bytes
decimal n = decimal_before 10 n []

-- "%d"
abbrev pub decimal_ℤ : ℤ → Bytes
decimal_ℤ (pos n) = decimal n
decimal_ℤ (negsuc n) = b'-' ∷ decimal (suc n)

pub length-decimal_before :
    (fuel n : ℕ) (more : Bytes) → length (decimal_before fuel n more) ≤ fuel + length more
unfolding decimal_before
length-decimal_before zero n more = omega arith
length-decimal_before (suc fuel) n more =
    ground (arith, length-decimal_before fuel (n / 10) ((b'0' + n % 10) ∷ more))

-- the text has no zero
unfoldable pub is_text : Bytes → Bool
is_text [] = true
is_text (c ∷ s) = let rest = is_text s in if c == 0 then false else rest

pub c_string-append : (s r : Bytes) → is_text s ≡ true → c_string (s ++ 0 ∷ r) ≡ some s
unfolding c_string is_text
c_string-append [] r h = refl
c_string-append (c ∷ s) r h = elim (Bool-cases (c == 0)) [
  | inl e ↦ absurd (cc (rw e at h))
  | inr e ↦ rw (e, c_string-append s r (rw e at h)) refl
]

pub is_text-append : (s t : Bytes) → is_text s ≡ true → is_text t ≡ true → is_text (s ++ t) ≡ true
unfolding is_text
is_text-append [] t h k = k
is_text-append (c ∷ s) t h k = elim (Bool-cases (c == 0)) [
  | inl e ↦ absurd (cc (rw e at h))
  | inr e ↦ rw (e, is_text-append s t (rw e at h) k) refl
]

map_from :
    (c : ℕ) (o : Option Bytes) (s : Bytes)
    → Option.map (◌∷◌ c) o ≡ some s
    → (t : Bytes) × (o ≡ some t)
map_from c none s e = absurd cc
map_from c (some t) s e = (t, refl)

-- what follows a C string does not change it
pub c_string_more : (m r s : Bytes) → c_string m ≡ some s → c_string (m ++ r) ≡ some s
unfolding c_string
c_string_more [] r s e = absurd cc
c_string_more (c ∷ m) r s e = elim (Bool-cases (c == 0)) [
  | inl y ↦ rw y (rw y at e)
  | inr n ↦
      let e2 = rw n at e in
      let (t, f) = map_from c (c_string m) s e2 in rw (n, c_string_more m r t f) (rw f at e2)
]
