-- ===== src/Base/Bits.antt =====
-- Two functions of an octet compared at every value: what the bit operations compute is settled by
-- running them.
use system_test_suite.Base.{
  ℕ, zero, suc, ◌+◌, ◌<◌, ◌≡◌, Bool, true, ◌==◌, ==_iff, if◌then◌else◌, arith, false, ap, ◌∙◌,
}

-- The values `from`, ..., `from + count - 1` pass the test.
unfoldable pub passes : (ℕ → Bool) → ℕ → ℕ → Bool
passes test from zero = true
passes test from (suc count) =
    let above = passes test (from + 1) count in if test from then above else false

passes_at :
    (test : ℕ → Bool) (from count k : ℕ)
    → passes test from count ≡ true
    → k < count
    → test (from + k) ≡ true
unfolding passes
passes_at test from zero k all h = absurd (omega arith)
passes_at test from (suc count) zero all h = ground arith
passes_at test from (suc count) (suc k) all h =
    let later : passes test (from + 1) count ≡ true = ground arith in
    ground (arith, passes_at test (from + 1) count k later (omega arith))

-- the first `n` numbers
pub passes_below : (test : ℕ → Bool) (n x : ℕ) → passes test 0 n ≡ true → x < n → test x ≡ true
passes_below test n x all h =
    let same : x ≡ 0 + x = omega arith in ap test same ∙ passes_at test 0 n x all h

-- Two functions agree on them.
unfoldable pub agree_below : ℕ → (ℕ → ℕ) → (ℕ → ℕ) → Bool
unfolding passes
agree_below n f g = passes (λ x. f x == g x) 0 n

pub agree_below_sound : (n : ℕ) (f g : ℕ → ℕ) (x : ℕ) → agree_below n f g ≡ true → x < n → f x ≡ g x
unfolding agree_below
agree_below_sound n f g x all h = (==_iff (f x) (g x)).0 (passes_below (λ y. f y == g y) n x all h)
