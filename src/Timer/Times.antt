-- ===== src/Timer/Times.antt =====
-- The arithmetic and the order of times.
use system_test_suite.Base.{ℕ, zero, suc, ◌+◌, ◌*◌, ◌≤◌, ◌<◌, ◌≡◌, refl, some, leb, arith}
use system_test_suite.Base.Int.{
  ℤ, pos, negsuc, pos_part, neg_part, sub_ℕ, ◌+ℤ◌, ◌-ℤ◌, +ℤ_parts, -ℤ_parts,
}
use system_test_suite.Timer.{Timeval, TimevalDiff, tv_borrow, tv_sub, tv_add, tv_later}

-- a time in microseconds
abbrev pub micros : Timeval → ℕ
micros t = t.tv_sec * 1000000 + t.tv_usec

abbrev pub IsNormal : Timeval → Type 0
IsNormal t = t.tv_usec < 1000000

-- Adding times adds their microseconds, and the result is normalized.
pub tv_add-micros :
    (a b : Timeval) → (micros (tv_add a b) ≡ micros a + micros b) × IsNormal (tv_add a b)
unfolding tv_add
tv_add-micros a b = omega arith

-- For normalized times `tv_later` is the order of the microseconds; equal times count as later.
pub tv_later-micros :
    (a b : Timeval) → IsNormal a → IsNormal b → tv_later a b ≡ leb (micros b) (micros a)
unfolding tv_later
tv_later-micros a b ha hb = ground arith

borrow_step :
    (k : ℕ)
    → neg_part (negsuc k +ℤ pos 1000000) ≤ k × (pos_part (negsuc k +ℤ pos 1000000) < 1000000)
unfolding ◌+ℤ◌
borrow_step k = ground arith

tv_borrow_exact :
    (fuel : ℕ) (sec usec : ℤ)
    → neg_part usec < fuel
    → pos_part usec < 1000000
    → (r : TimevalDiff) × (tv_borrow fuel sec usec ≡ some r)
      × (pos_part r.tv_sec * 1000000 + r.tv_usec + neg_part sec * 1000000 + neg_part usec
          ≡ neg_part r.tv_sec * 1000000 + pos_part sec * 1000000 + pos_part usec)
      × (r.tv_usec < 1000000)
unfolding tv_borrow
tv_borrow_exact zero sec usec enough small = absurd (omega arith)
tv_borrow_exact (suc fuel) sec (pos u) enough small =
    (record { tv_sec = sec; tv_usec = u }, refl, omega arith, small)
tv_borrow_exact (suc fuel) sec (negsuc k) enough small =
    let (r, e, same, normal) =
      tv_borrow_exact fuel (sec -ℤ pos 1) (negsuc k +ℤ pos 1000000) (omega (arith, borrow_step k))
        (borrow_step k).1 in
    (r, e, omega (arith, same, -ℤ_parts sec (pos 1), +ℤ_parts (negsuc k) (pos 1000000)), normal)

-- The subtraction ends, and is exact: the seconds, which may be negative, and the microseconds
-- returned add up to the difference, and the microseconds lie in 0 to 999999. The time subtracted
-- from is normalized; the time subtracted need not be.
pub tv_sub_exact :
    (from sub : Timeval)
    → IsNormal from
    → (r : TimevalDiff) × (tv_sub from sub ≡ some r)
      × (pos_part r.tv_sec * 1000000 + r.tv_usec + micros sub
          ≡ neg_part r.tv_sec * 1000000 + micros from)
      × (r.tv_usec < 1000000)
unfolding tv_sub
tv_sub_exact from sub normal =
    let usec = sub_ℕ from.tv_usec sub.tv_usec in
    let (r, e, same, small) =
      tv_borrow_exact (suc (neg_part usec)) (sub_ℕ from.tv_sec sub.tv_sec) usec (omega arith)
        (ground arith) in
    (r, e, ground (arith, same), small)
