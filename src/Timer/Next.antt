-- ===== src/Timer/Next.antt =====
-- The expiration that the kernel timer is set to.
use system_test_suite.Base.{
  ◌+◌, ◌*◌, ◌≤◌, ◌≡◌, ◌⊎◌, inl, inr, refl, ◌∙◌, some, List, [], ◌∷◌, leb, if◌then◌else◌, arith, All,
  Bool-cases,
}
use system_test_suite.Base.Int.{pos_part, neg_part}
use system_test_suite.Timer.{
  Timeval, TimevalDiff, Timer, tv_smaller, min_expires, calc_next_expiration,
}
use system_test_suite.Timer.Times.{micros, IsNormal, tv_later-micros, tv_sub_exact}

abbrev pub AllNormal : List Timer → Type 0
AllNormal = All (λ t. IsNormal t.expires)

-- no timer of the list expires before the time
abbrev pub NoneBefore : Timeval → List Timer → Type 0
NoneBefore min = All (λ t. micros min ≤ micros t.expires)

-- some timer of the list expires at the time
abbrev pub Expires : Timeval → List Timer → Type 0
Expires min [] = ⊥
Expires min (t ∷ timers) = (min ≡ t.expires) ⊎ Expires min timers

smaller_micros :
    (a b : Timeval) → IsNormal a → IsNormal b → tv_smaller a b ≡ leb (micros a) (micros b)
unfolding tv_smaller
smaller_micros a b ha hb = tv_later-micros b a hb ha

lesser : Timeval → Timeval → Timeval
lesser min t = if tv_smaller t min then t else min

lesser_lem :
    (min t : Timeval)
    → IsNormal min
    → IsNormal t
    → (micros (lesser min t) ≤ micros min)
      × (micros (lesser min t) ≤ micros t)
      × IsNormal (lesser min t)
      × ((lesser min t ≡ min) ⊎ (lesser min t ≡ t))
unfolding lesser
lesser_lem min t hm ht = elim (Bool-cases (tv_smaller t min)) [
  | inl smaller ↦ rw smaller (ground (arith, smaller_micros t min ht hm), omega arith, ht, inr refl)
  | inr greater ↦ rw greater (omega arith, ground (arith, smaller_micros t min ht hm), hm, inl refl)
]

min_expires_least :
    (min : Timeval) (timers : List Timer)
    → IsNormal min
    → AllNormal timers
    → (micros (min_expires min timers) ≤ micros min)
      × NoneBefore (min_expires min timers) timers
      × IsNormal (min_expires min timers)
      × ((min_expires min timers ≡ min) ⊎ Expires (min_expires min timers) timers)
unfolding min_expires lesser
min_expires_least min [] normal v = (omega arith, tt, normal, inl refl)
min_expires_least min (cur ∷ timers) normal v =
    let (le_min, le_cur, lesser_normal, one) = lesser_lem min cur.expires normal v.0 in
    let (le, least, still, which) =
      min_expires_least (lesser min cur.expires) timers lesser_normal v.1 in
    (
      omega (arith, le, le_min),
      (omega (arith, le, le_cur), least),
      still,
      elim which [
        | inl e ↦ elim one [ inl is ↦ inl (e ∙ is) | inr is ↦ inr (inl (e ∙ is)) ]
        | inr there ↦ inr (inr there)
      ],
    )

-- With timers running, all of normalized expirations, the kernel timer is asked for exactly the time
-- from `now` to an expiration in the list before which no other timer expires. The time asked for is
-- negative if that expiration has passed.
pub calc_next_expiration_least :
    (now : Timeval) (first : Timer) (timers : List Timer)
    → AllNormal (first ∷ timers)
    → (least : Timeval) × Expires least (first ∷ timers)
      × NoneBefore least (first ∷ timers)
      × ((r : TimevalDiff) × (calc_next_expiration now (first ∷ timers) ≡ some r)
          × (pos_part r.tv_sec * 1000000 + r.tv_usec + micros now
              ≡ neg_part r.tv_sec * 1000000 + micros least))
unfolding calc_next_expiration
calc_next_expiration_least now first timers v =
    let (le, least, still, which) = min_expires_least first.expires (first ∷ timers) v.0 v in
    let (r, e, same, small) = tv_sub_exact (min_expires first.expires (first ∷ timers)) now still in
    (_, elim which [ inl same ↦ inl same | inr there ↦ there ], least, (r, e, same))
