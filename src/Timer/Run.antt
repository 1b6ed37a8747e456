-- ===== src/Timer/Run.antt =====
-- Which callbacks run, and which timers stay.
use system_test_suite.Base.{
  ℕ, zero, suc, ◌+◌, ◌≤◌, ◌≡◌, inl, inr, refl, sym, ap, ◌∙◌, true, false, Option, some, List, [],
  ◌∷◌, ◌++◌, append_assoc, append-nil, if◌then◌else◌, arith, All, Bool-cases, length, length-append,
  ◌>>=◌,
}
use system_test_suite.Timer.{
  Timeval, Timer, Callbacks, tv_later, run_timers, calc_next_expiration, gsmd_timer_check_n_run,
}

-- the callbacks of the timers that have expired, in order
abbrev pub called : Timeval → List Timer → List ℕ
called now [] = []
called now (t ∷ timers) =
    if tv_later now t.expires then t.callback ∷ called now timers else called now timers

-- the timers that have not
abbrev pub waiting : Timeval → List Timer → List Timer
waiting now [] = []
waiting now (t ∷ timers) =
    if tv_later now t.expires then waiting now timers else t ∷ waiting now timers

abbrev pub registered : Callbacks → List ℕ → List Timer
registered cb [] = []
registered cb (c ∷ cs) = cb c ++ registered cb cs

abbrev pub AllWait : Timeval → List Timer → Type 0
AllWait now = All (λ t. tv_later now t.expires ≡ false)

run_nil :
    (fuel : ℕ) (cb : Callbacks) (now : Timeval) (kept : List Timer)
    → run_timers fuel cb now kept [] ≡ some ([], kept)
unfolding run_timers
run_nil zero cb now kept = refl
run_nil (suc fuel) cb now kept = refl

run_waits :
    (fuel : ℕ) (cb : Callbacks) (now : Timeval) (kept : List Timer) (cur : Timer)
    (rest : List Timer)
    → tv_later now cur.expires ≡ false
    → run_timers (suc fuel) cb now kept (cur ∷ rest)
      ≡ run_timers fuel cb now (kept ++ cur ∷ []) rest
unfolding run_timers
run_waits fuel cb now kept cur [] w = rw (w, run_nil fuel cb now (kept ++ cur ∷ []))
run_waits fuel cb now kept cur (next ∷ rest) w = rw w

run-AllWait :
    (fuel : ℕ) (cb : Callbacks) (now : Timeval) (kept timers : List Timer)
    → AllWait now timers
    → length timers ≤ fuel
    → run_timers fuel cb now kept timers ≡ some ([], kept ++ timers)
run-AllWait fuel cb now kept [] v enough = rw append-nil (run_nil fuel cb now kept)
run-AllWait zero cb now kept (cur ∷ timers) v enough = absurd (omega arith)
run-AllWait (suc fuel) cb now kept (cur ∷ timers) v enough =
    run_waits fuel cb now kept cur timers v.0
    ∙ run-AllWait fuel cb now (kept ++ cur ∷ []) timers v.1 (omega arith)
    ∙ ap (λ l. some ([], l)) (append_assoc kept (cur ∷ []) timers)

abbrev after : ℕ → Option (List ℕ × List Timer) → Option (List ℕ × List Timer)
after c r = r >>= λ t. some (c ∷ t.0, t.1)

run_fires :
    (fuel : ℕ) (cb : Callbacks) (now : Timeval) (kept : List Timer) (cur : Timer)
    (rest : List Timer)
    → tv_later now cur.expires ≡ true
    → AllWait now (cb cur.callback)
    → length (cb cur.callback) ≤ fuel
    → run_timers (suc fuel) cb now kept (cur ∷ rest)
      ≡ after cur.callback (run_timers fuel cb now kept (rest ++ cb cur.callback))
unfolding run_timers
run_fires fuel cb now kept cur [] f v enough =
    rw (f, run-AllWait fuel cb now kept (cb cur.callback) v enough)
run_fires fuel cb now kept cur (next ∷ rest) f v enough = rw f

AllWait-append :
    (now : Timeval) (a b : List Timer) → AllWait now a → AllWait now b → AllWait now (a ++ b)
AllWait-append now [] b va vb = vb
AllWait-append now (t ∷ a) b va vb = (va.0, AllWait-append now a b va.1 vb)

module _ (cb : Callbacks) (now : Timeval) (late : (c : ℕ) → AllWait now (cb c)) where
  run_from :
      (fuel : ℕ) (kept timers added : List Timer)
      → AllWait now added
      → length timers + length added + length (registered cb (called now timers)) ≤ fuel
      → run_timers fuel cb now kept (timers ++ added)
        ≡ some (
          called now timers,
          kept ++ (waiting now timers ++ (added ++ registered cb (called now timers))),
        )
  run_from fuel kept [] added v enough =
      run-AllWait fuel cb now kept added v (omega arith)
      ∙ ap (λ l. some ([], kept ++ l)) (sym (append-nil added))
  run_from zero kept (cur ∷ timers) added v enough = absurd (omega arith)
  run_from (suc fuel) kept (cur ∷ timers) added v enough =
      elim (Bool-cases (tv_later now cur.expires)) [
        | inl f ↦
            let c = cur.callback in
            let cs = called now timers in
            let room = rw f at enough in
            rw f (
              run_fires fuel cb now kept cur (timers ++ added) f (late c)
                (omega (arith, room, length-append (cb c) (registered cb cs)))
              ∙ ap (λ l. after c (run_timers fuel cb now kept l)) (append_assoc timers added (cb c))
              ∙ ap (after c) (
                  run_from fuel kept timers (added ++ cb c)
                    (AllWait-append now added (cb c) v (late c))
                    (omega (
                      arith,
                      room,
                      length-append (cb c) (registered cb cs),
                      length-append added (cb c),
                    )))
              ∙ ap (λ l. some (c ∷ cs, kept ++ (waiting now timers ++ l)))
                  (append_assoc added (cb c) (registered cb cs)))
        | inr w ↦
            let room = rw w at enough in
            rw w (
              run_waits fuel cb now kept cur (timers ++ added) w
              ∙ run_from fuel (kept ++ cur ∷ []) timers added v (omega (arith, room))
              ∙ ap (λ l. some (called now timers, l)) (append_assoc kept (cur ∷ []) _))
      ]

-- When no callback registers a timer that has expired already, and with fuel for the timers and for
-- those registered, a run calls exactly the callbacks of the timers that have expired, in the
-- order of the list. Afterwards the list holds the other timers in their order and behind them what the
-- callbacks registered, and the kernel timer is set for that list.
pub gsmd_timer_check_n_run_exact :
    (cb : Callbacks) (now after : Timeval) (timers : List Timer) (fuel : ℕ)
    → ((c : ℕ) → AllWait now (cb c))
    → length timers + length (registered cb (called now timers)) ≤ fuel
    → let left = waiting now timers ++ registered cb (called now timers) in
      gsmd_timer_check_n_run fuel cb (some now) after timers
      ≡ some (called now timers, left, calc_next_expiration after left)
unfolding gsmd_timer_check_n_run
gsmd_timer_check_n_run_exact cb now after timers fuel late enough =
    let ran =
      ap (run_timers fuel cb now []) (sym (append-nil timers))
      ∙ run_from cb now late fuel [] timers [] tt (omega arith) in
    rw ran
