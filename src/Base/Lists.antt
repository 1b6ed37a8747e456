-- ===== src/Base/Lists.antt =====
-- Lists measured and indexed by native numbers, under the library's names, and C buffers.
use Prim.Native.Nat.{ℕ, zero, suc, ◌+◌, ◌-◌, ◌≤◌, ◌<◌, min}
use mathlib.Core.Path.{◌≡◌, refl, ap, ◌∙◌}
use mathlib.Core.List.{List, [], ◌∷◌, ◌++◌}
use mathlib.Core.Option.{Option, none, some}
use native.Mathlib.Omega.{arith}

module _ {ℓ} {A : Type ℓ} where
  abbrev pub length : List A → ℕ
  length [] = 0
  length (x ∷ xs) = suc (length xs)

  abbrev pub get_elem? : List A → ℕ → Option A
  get_elem? [] i = none
  get_elem? (x ∷ xs) zero = some x
  get_elem? (x ∷ xs) (suc i) = get_elem? xs i

  abbrev pub set : List A → ℕ → A → List A
  set [] i v = []
  set (x ∷ xs) zero v = v ∷ xs
  set (x ∷ xs) (suc i) v = x ∷ set xs i v

  abbrev pub take : ℕ → List A → List A
  take zero xs = []
  take (suc n) [] = []
  take (suc n) (x ∷ xs) = x ∷ take n xs

  abbrev pub drop : ℕ → List A → List A
  drop zero xs = xs
  drop (suc n) [] = []
  drop (suc n) (x ∷ xs) = drop n xs

  abbrev pub replicate : ℕ → A → List A
  replicate zero a = []
  replicate (suc n) a = a ∷ replicate n a

  infixl 5 ◌>>=◌
  abbrev pub ◌>>=◌ {κ} : {B : Type κ} → Option A → (A → Option B) → Option B
  none >>= f = none
  some a >>= f = f a

  -- The predicate holds of every element.
  abbrev pub All {κ} : (A → Type κ) → List A → Type κ
  All P [] = Unit
  All P (x ∷ xs) = P x × All P xs

-- `memset` to 0.
pub zeros : ℕ → List ℕ
zeros zero = []
zeros (suc n) = 0 ∷ zeros n

pub length-zeros : (n : ℕ) → length (zeros n) ≡ n
unfolding zeros
length-zeros zero = refl
length-zeros (suc n) = ap suc (length-zeros n)

pub zeros-pred : (n : ℕ) → 0 < n → zeros n ≡ 0 ∷ zeros (n - 1)
unfolding zeros
zeros-pred zero h = absurd (omega arith)
zeros-pred (suc n) h = ap (λ k. 0 ∷ zeros k) (omega arith)

-- A write at the place behind `w`.
pub set-append {ℓ} :
    {A : Type ℓ} (w r : List A) (x b : A) → set (w ++ x ∷ r) (length w) b ≡ w ++ b ∷ r
set-append [] r x b = refl
set-append (y ∷ w) r x b = ap (◌∷◌ y) (set-append w r x b)

module _ {ℓ} {A : Type ℓ} where
  pub length-append : (xs ys : List A) → length (xs ++ ys) ≡ length xs + length ys
  length-append [] ys = omega arith
  length-append (x ∷ xs) ys = omega (arith, length-append xs ys)

  pub length-set : (xs : List A) (i : ℕ) (v : A) → length (set xs i v) ≡ length xs
  length-set [] i v = refl
  length-set (x ∷ xs) zero v = refl
  length-set (x ∷ xs) (suc i) v = ap suc (length-set xs i v)

  pub length-take : (n : ℕ) (xs : List A) → length (take n xs) ≡ min n (length xs)
  length-take zero xs = omega arith
  length-take (suc n) [] = omega arith
  length-take (suc n) (x ∷ xs) = omega (arith, length-take n xs)

  pub length-drop : (n : ℕ) (xs : List A) → length (drop n xs) ≡ length xs - n
  length-drop zero xs = omega arith
  length-drop (suc n) [] = omega arith
  length-drop (suc n) (x ∷ xs) = omega (arith, length-drop n xs)

  pub length-replicate : (n : ℕ) (a : A) → length (replicate n a) ≡ n
  length-replicate zero a = refl
  length-replicate (suc n) a = ap suc (length-replicate n a)

  pub take_self : (xs : List A) → take (length xs) xs ≡ xs
  take_self [] = refl
  take_self (x ∷ xs) = ap (◌∷◌ x) (take_self xs)

  pub take-append : (xs ys : List A) → take (length xs) (xs ++ ys) ≡ xs
  take-append [] ys = refl
  take-append (x ∷ xs) ys = ap (◌∷◌ x) (take-append xs ys)

  pub get_elem?_total : (xs : List A) (i : ℕ) → i < length xs → (a : A) × (get_elem? xs i ≡ some a)
  get_elem?_total [] i h = absurd (omega arith)
  get_elem?_total (x ∷ xs) zero h = (x, refl)
  get_elem?_total (x ∷ xs) (suc i) h = get_elem?_total xs i (omega arith)

  pub get_elem?-set :
      (xs : List A) (i : ℕ) (v : A) → i < length xs → get_elem? (set xs i v) i ≡ some v
  get_elem?-set [] i v h = absurd (omega arith)
  get_elem?-set (x ∷ xs) zero v h = refl
  get_elem?-set (x ∷ xs) (suc i) v h = get_elem?-set xs i v (omega arith)

  pub drop_front : (i : ℕ) (xs ys : List A) → i ≤ length xs → drop i (xs ++ ys) ≡ drop i xs ++ ys
  drop_front zero xs ys h = refl
  drop_front (suc i) [] ys h = absurd (omega arith)
  drop_front (suc i) (x ∷ xs) ys h = drop_front i xs ys (omega arith)

-- `memcpy` of `n` bytes from `src + i`; `none` when that reads past the end of `src`.
unfoldable pub slice : List ℕ → ℕ → ℕ → Option (List ℕ)
slice src i zero = some []
slice src i (suc n) = do b ← get_elem? src i; bs ← slice src (suc i) n; some (b ∷ bs)

module _ {ℓ} {A : Type ℓ} where
  pub get_elem?-append : (w r : List A) (x : A) → get_elem? (w ++ x ∷ r) (length w) ≡ some x
  get_elem?-append [] r x = refl
  get_elem?-append (y ∷ w) r x = get_elem?-append w r x

  pub drop-append : (w r : List A) → drop (length w) (w ++ r) ≡ r
  drop-append [] r = refl
  drop-append (y ∷ w) r = drop-append w r

  pub get_elem?_at :
      (w r : List A) (x : A) {i : ℕ} → i ≡ length w → get_elem? (w ++ x ∷ r) i ≡ some x
  get_elem?_at w r x e = ap (get_elem? (w ++ x ∷ r)) e ∙ get_elem?-append w r x

  pub drop_at : (w r : List A) {i : ℕ} → i ≡ length w → drop i (w ++ r) ≡ r
  drop_at w r e = ap (λ k. drop k (w ++ r)) e ∙ drop-append w r

pub slice-cons : (x : ℕ) (xs : List ℕ) (i n : ℕ) → slice (x ∷ xs) (suc i) n ≡ slice xs i n
unfolding slice
slice-cons x xs i zero = refl
slice-cons x xs i (suc n) =
    ap (λ r. get_elem? xs i >>= λ b. r >>= λ bs. some (b ∷ bs)) (slice-cons x xs (suc i) n)

-- A copy that stays inside gives the octets there.
pub slice-take : (xs : List ℕ) (n : ℕ) → n ≤ length xs → slice xs 0 n ≡ some (take n xs)
unfolding slice
slice-take xs zero h = refl
slice-take [] (suc n) h = absurd (omega arith)
slice-take (x ∷ xs) (suc n) h = rw (slice-cons x xs 0 n) (rw (slice-take xs n (omega arith)))

pub slice_total :
    (xs : List ℕ) (i n : ℕ)
    → i + n ≤ length xs
    → (bs : List ℕ) × (slice xs i n ≡ some bs) × (length bs ≡ n)
unfolding slice
slice_total xs i zero h = ([], refl, refl)
slice_total xs i (suc n) h =
    let (b, got) = get_elem?_total xs i (omega arith) in
    let (bs, later, size) = slice_total xs (suc i) n (omega arith) in
    (b ∷ bs, rw (got, later), ap suc size)

pub get_elem?-drop : (xs : List ℕ) (k i : ℕ) → get_elem? (drop k xs) i ≡ get_elem? xs (k + i)
get_elem?-drop xs zero i = ap (get_elem? xs) (omega arith)
get_elem?-drop [] (suc k) i = refl
get_elem?-drop (x ∷ xs) (suc k) i =
    get_elem?-drop xs k i ∙ ap (get_elem? (x ∷ xs)) {x = suc (k + i)} (omega arith)
