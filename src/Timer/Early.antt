-- ===== src/Timer/Early.antt =====
-- A timer whose expiration was not normalized.
use system_test_suite.Base.{◌+◌, ◌<◌, ◌≡◌, refl, true, some, List, [], ◌∷◌, ◌++◌, arith}
use system_test_suite.Timer.{
  Timeval, Timer, tv_later, calc_next_expiration, made_absolute, gsmd_timer_register,
}
use system_test_suite.Timer.Times.{micros}

-- Where the microseconds of a timer and of the time of day add up to more than a second,
-- `gsmd_timer_register` stores them as they are (and then sets the kernel timer), and at some time before the expiration the timer
-- already counts as expired.
gsmd_timer_register_early :
    (tv after : Timeval) (timers : List Timer) (timer : Timer)
    → 1000000 < timer.expires.tv_usec + tv.tv_usec
    → (t : Timer) × (now : Timeval) × (gsmd_timer_register (some tv) after timers timer
        ≡ some (timers ++ t ∷ [], calc_next_expiration after (timers ++ t ∷ [])))
      × (micros t.expires ≡ micros timer.expires + micros tv)
      × (micros now < micros t.expires)
      × (tv_later now t.expires ≡ true)
unfolding gsmd_timer_register made_absolute tv_later
gsmd_timer_register_early tv after timers timer h =
    let stored : Timeval = record {
      tv_sec = timer.expires.tv_sec + tv.tv_sec;
      tv_usec = timer.expires.tv_usec + tv.tv_usec;
    } in
    (
      record timer { expires = stored },
      record { tv_sec = stored.tv_sec + 1; tv_usec = 0 },
      refl,
      omega arith,
      omega arith,
      ground arith,
    )
