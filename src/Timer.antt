-- ===== src/Timer.antt =====
-- Timers: gta02-dm1/user_space/gsm/src/gsmd/timer.c. The list `gsmd_timers` is a list, the time of
-- day an argument that is `none` where `gettimeofday` fails, and the call of `setitimer` a result.
-- Times of day and expirations are not before the epoch; a difference of two may be negative.
pub mod Times
pub mod Next
pub mod Run
pub mod Early
use system_test_suite.Base.{
  ℕ, zero, suc, ◌+◌, ◌-◌, ◌*◌, ◌/◌, ◌%◌, Bool, true, false, Option, none, some, List, [], ◌∷◌, ◌++◌,
  ltb, leb, if◌then◌else◌, ◌>>=◌,
}
use system_test_suite.Base.Int.{ℤ, pos, negsuc, neg_part, sub_ℕ, ◌+ℤ◌, ◌-ℤ◌}

-- `struct timeval`
pub record Timeval : Type 0 where
  pub tv_sec : ℕ
  pub tv_usec : ℕ

-- a difference, as `tv_sub` leaves it
pub record TimevalDiff : Type 0 where
  pub tv_sec : ℤ
  pub tv_usec : ℕ

-- `struct gsmd_timer`; the number stands for its `cb` and `data`
pub record Timer : Type 0 where
  pub expires : Timeval
  pub callback : ℕ

unfoldable pub tv_normalize : Timeval → Timeval
tv_normalize out = record {
  tv_sec = out.tv_sec + out.tv_usec / 1000000;
  tv_usec = out.tv_usec % 1000000;
}

-- the loop `while (res->tv_usec < 0)`; `none` when the fuel runs out
unfoldable pub tv_borrow : ℕ → ℤ → ℤ → Option TimevalDiff
tv_borrow zero sec usec = none
tv_borrow (suc fuel) sec (pos u) = some (record { tv_sec = sec; tv_usec = u })
tv_borrow (suc fuel) sec (negsuc k) = tv_borrow fuel (sec -ℤ pos 1) (negsuc k +ℤ pos 1000000)

unfoldable pub tv_sub : Timeval → Timeval → Option TimevalDiff
unfolding tv_borrow ◌+ℤ◌ ◌-ℤ◌
tv_sub from sub =
    let usec = sub_ℕ from.tv_usec sub.tv_usec in
    tv_borrow (suc (neg_part usec)) (sub_ℕ from.tv_sec sub.tv_sec) usec

unfoldable pub tv_add : Timeval → Timeval → Timeval
unfolding tv_normalize
tv_add a1 a2 =
    tv_normalize (record { tv_sec = a1.tv_sec + a2.tv_sec; tv_usec = a1.tv_usec + a2.tv_usec })

unfoldable pub tv_later : Timeval → Timeval → Bool
tv_later expires now =
    if ltb expires.tv_sec now.tv_sec
    then false
    else if ltb now.tv_sec expires.tv_sec
    then true
    else leb now.tv_usec expires.tv_usec

unfoldable pub tv_smaller : Timeval → Timeval → Bool
unfolding tv_later
tv_smaller t1 t2 = tv_later t2 t1

-- the loop that looks for the least expiration
unfoldable pub min_expires : Timeval → List Timer → Timeval
min_expires min [] = min
min_expires min (cur ∷ timers) =
    min_expires (if tv_smaller cur.expires min then cur.expires else min) timers

-- What `setitimer` is asked for, `none` where it is not called. `tv_sub` always returns 0, so the
-- way back to `retry` is never taken.
unfoldable pub calc_next_expiration : Timeval → List Timer → Option TimevalDiff
unfolding tv_sub min_expires tv_smaller
calc_next_expiration now [] = none
calc_next_expiration now (first ∷ timers) = tv_sub (min_expires first.expires (first ∷ timers)) now

-- The timer made absolute, which `gsmd_timer_register` puts at the end of the list.
unfoldable pub made_absolute : Timeval → Timer → Timer
made_absolute tv timer = record timer {
  expires = record {
    tv_sec = timer.expires.tv_sec + tv.tv_sec;
    tv_usec = timer.expires.tv_usec + tv.tv_usec;
  };
}

-- `gsmd_timer_register`, with a relative expiration in `timer`: the list, and the call of
-- `setitimer`. `after` is the time that `calc_next_expiration` reads.
unfoldable pub gsmd_timer_register :
    Option Timeval → Timeval → List Timer → Timer → Option (List Timer × Option TimevalDiff)
unfolding calc_next_expiration made_absolute
gsmd_timer_register none after timers timer = none
gsmd_timer_register (some tv) after timers timer =
    let timers' = timers ++ made_absolute tv timer ∷ [] in
    some (timers', calc_next_expiration after timers')

-- What the callbacks do to the list: each appends the timers it registers.
abbrev pub Callbacks : Type 0
Callbacks = ℕ → List Timer

-- The loop of `gsmd_timer_check_n_run`, over the timers from `cur` on; `kept` stands before `cur`.
-- The next timer is fetched before the callback runs, so what the callback of the last timer
-- appends is not visited. The result is the callbacks called and the list; `none` when the fuel
-- runs out.
unfoldable pub run_timers :
    ℕ → Callbacks → Timeval → List Timer → List Timer → Option (List ℕ × List Timer)
run_timers fuel cb now kept [] = some ([], kept)
run_timers zero cb now kept (cur ∷ timers) = none
run_timers (suc fuel) cb now kept (cur ∷ []) =
    if tv_later now cur.expires
    then some (cur.callback ∷ [], kept ++ cb cur.callback)
    else some ([], kept ++ cur ∷ [])
run_timers (suc fuel) cb now kept (cur ∷ next ∷ timers) =
    let fired = do
      (called, left) ← run_timers fuel cb now kept (next ∷ (timers ++ cb cur.callback))
      some (cur.callback ∷ called, left)
    in let passed = run_timers fuel cb now (kept ++ cur ∷ []) (next ∷ timers) in
      if tv_later now cur.expires then fired else passed

-- The callbacks called, the timers left and the call of `setitimer`. The time is read before the loop
-- and once more behind it.
unfoldable pub gsmd_timer_check_n_run :
    ℕ
    → Callbacks
    → Option Timeval
    → Timeval
    → List Timer
    → Option (List ℕ × List Timer × Option TimevalDiff)
unfolding run_timers calc_next_expiration tv_later
gsmd_timer_check_n_run fuel cb none after timers = some ([], timers, none)
gsmd_timer_check_n_run fuel cb (some now) after timers = do
  (called, left) ← run_timers fuel cb now [] timers
  some (called, left, calc_next_expiration after left)
