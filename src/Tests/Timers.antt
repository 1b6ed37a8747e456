-- ===== src/Tests/Timers.antt =====
-- Timers: two that wait, one that has expired.
use system_test_suite.Base.{ℕ, ◌+◌, ◌*◌, ◌<◌, ◌≡◌, refl, false, some, [], ◌∷◌, ◌++◌, arith}
use system_test_suite.Base.Int.{pos_part, neg_part}
use system_test_suite.Timer.{
  Timeval, TimevalDiff, Timer, Callbacks, tv_sub, tv_later, calc_next_expiration,
  gsmd_timer_check_n_run,
}
use system_test_suite.Timer.Times.{micros, tv_sub_exact}
use system_test_suite.Timer.Next.{Expires, NoneBefore, calc_next_expiration_least}
use system_test_suite.Timer.Run.{called, waiting, registered, gsmd_timer_check_n_run_exact}

abbrev at : ℕ → ℕ → Timeval
at sec usec = record { tv_sec = sec; tv_usec = usec }

abbrev soon : Timer
soon = record { expires = at 5 400000; callback = 1 }

abbrev late : Timer
late = record { expires = at 9 0; callback = 2 }

abbrev again : Callbacks
again c = late ∷ []

tv_later_waits : tv_later (at 7 0) (at 9 0) ≡ false
unfolding tv_later
tv_later_waits = refl

gsmd_timer_check_n_run_exact_example :
    let left =
      waiting (at 7 0) (soon ∷ late ∷ [])
      ++ registered again (called (at 7 0) (soon ∷ late ∷ [])) in
    gsmd_timer_check_n_run 8 again (some (at 7 0)) (at 7 1) (soon ∷ late ∷ [])
    ≡ some (called (at 7 0) (soon ∷ late ∷ []), left, calc_next_expiration (at 7 1) left)
unfolding tv_later
gsmd_timer_check_n_run_exact_example =
    gsmd_timer_check_n_run_exact again (at 7 0) (at 7 1) (soon ∷ late ∷ []) 8 (λ c. (refl, tt))
      (omega arith)

calc_next_expiration_least_example :
    (least : Timeval) × Expires least (late ∷ soon ∷ [])
    × NoneBefore least (late ∷ soon ∷ [])
    × ((r : TimevalDiff) × (calc_next_expiration (at 2 0) (late ∷ soon ∷ []) ≡ some r)
        × (pos_part r.tv_sec * 1000000 + r.tv_usec + micros (at 2 0)
            ≡ neg_part r.tv_sec * 1000000 + micros least))
calc_next_expiration_least_example =
    calc_next_expiration_least (at 2 0) late (soon ∷ []) (omega arith, (omega arith, tt))

tv_sub_exact_example :
    (r : TimevalDiff) × (tv_sub (at 3 1) (at 5 2) ≡ some r)
    × (pos_part r.tv_sec * 1000000 + r.tv_usec + micros (at 5 2)
        ≡ neg_part r.tv_sec * 1000000 + micros (at 3 1))
    × (r.tv_usec < 1000000)
tv_sub_exact_example = tv_sub_exact (at 3 1) (at 5 2) (omega arith)
