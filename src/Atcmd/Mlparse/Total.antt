-- ===== src/Atcmd/Mlparse/Total.antt =====
-- Where `ml_parse` reads nothing but what is there: the comparisons with the text of a command end at
-- the zero that `atcmd_fill` writes behind it.
use system_test_suite.Base.{
  ℕ, zero, suc, length-zeros, ◌∙◌, ◌-◌, ◌<◌, ◌≤◌, ◌≡◌, refl, ap, Bool, true, false, Bool-cases, inl,
  inr, Option, none, some, List, [], ◌∷◌, ◌++◌, All, ◌==◌, if◌then◌else◌, Bytes, length, take, drop,
  codes, zeros, get_elem?, arith, length-append, length-take,
}
use system_test_suite.Atcmd.Queue.{Atcmd, Gsmd, Env, cstr, find_char, atcmd_text}
use system_test_suite.Atcmd.Mlparse.Texts.{starts_with, equal_in, starts_in}
use system_test_suite.Atcmd.Mlparse.{
  Parsed, extended_other, extended_at, extended, is_ready, is_echo, is_extended, ml_parse,
}

-- a text without a zero
abbrev NoZero : Bytes → Type 0
NoZero = All (λ c. (c == 0) ≡ false)

cstr-NoZero : (s : Bytes) → NoZero (cstr s)
unfolding cstr
cstr-NoZero [] = tt
cstr-NoZero (c ∷ s) = elim (Bool-cases (c == 0)) [
  | inl z ↦ rw z tt
  | inr n ↦ rw n (n, cstr-NoZero s)
]

take-NoZero : (n : ℕ) (s : Bytes) → NoZero s → NoZero (take n s)
take-NoZero zero s v = tt
take-NoZero (suc n) [] v = tt
take-NoZero (suc n) (c ∷ s) (v, w) = (v, take-NoZero n s w)

abbrev Returned : {A : Type 0} → Option A → Type 0
Returned {A} o = (a : A) × (o ≡ some a)

equal_in_total : (s front : Bytes) → NoZero s → Returned (equal_in s (front ++ 0 ∷ []))
unfolding equal_in
equal_in_total [] [] v = (true, refl)
equal_in_total [] (d ∷ front) v = (_, refl)
equal_in_total (c ∷ s) [] (v, w) = (false, rw v refl)
equal_in_total (c ∷ s) (d ∷ front) (v, w) = elim (Bool-cases (c == d)) [
  | inl e ↦ let (b, f) = equal_in_total s front w in (b, rw e f)
  | inr n ↦ (false, rw n refl)
]

starts_in_total :
    (prefix front : Bytes) → NoZero prefix → Returned (starts_in prefix (front ++ 0 ∷ []))
unfolding starts_in
starts_in_total [] front v = (true, refl)
starts_in_total (c ∷ prefix) [] (v, w) = (false, rw v refl)
starts_in_total (c ∷ prefix) (d ∷ front) (v, w) = elim (Bool-cases (c == d)) [
  | inl e ↦ let (b, f) = starts_in_total prefix front w in (b, rw e f)
  | inr n ↦ (false, rw n refl)
]

-- The memory of a command is as `atcmd_fill` makes it, for more than two bytes.
pub record IsFilled (cmd : Atcmd) : Type 0 where
  pub text : Bytes
  pub size : ℕ
  pub room : 2 < size
  pub filled : cmd.buf ≡ atcmd_text text size

-- The memory ends in a zero, behind at least two bytes.
record Ends (memory : Bytes) : Type 0 where
  front : Bytes
  two : 2 ≤ length front
  zero_behind : memory ≡ front ++ 0 ∷ []

IsFilled-Ends : {cmd : Atcmd} → IsFilled cmd → Ends cmd.buf
unfolding atcmd_text
IsFilled-Ends {cmd} v = record {
  front = take (v.size - 1) (v.text ++ zeros v.size);
  two = omega (
    arith,
    v.room,
    length-take (v.size - 1) (v.text ++ zeros v.size),
    length-append v.text (zeros v.size),
    length-zeros v.size,
  );
  zero_behind = v.filled;
}

echo_total :
    (busy : List Atcmd) (s : Bytes) → All IsFilled busy → NoZero s → Returned (is_echo busy s)
echo_total [] s h v = (false, refl)
echo_total (cmd ∷ rest) s (h, hs) v =
    let ends = IsFilled-Ends h in
    let (b, e) = equal_in_total s ends.front v in (b, ap (equal_in s) ends.zero_behind ∙ e)

-- the third byte, and the comparison that starts there
third_byte :
    (prefix front : Bytes)
    → NoZero prefix
    → 2 ≤ length front
    → Returned (get_elem? (front ++ 0 ∷ []) 2)
      × Returned (starts_in prefix (drop 2 (front ++ 0 ∷ [])))
third_byte prefix [] v two = absurd (omega arith)
third_byte prefix (a ∷ []) v two = absurd (omega arith)
third_byte prefix (a ∷ b ∷ []) v two = ((0, refl), starts_in_total prefix [] v)
third_byte prefix (a ∷ b ∷ c ∷ front) v two = ((c, refl), starts_in_total prefix (c ∷ front) v)

if_Returned :
    {A : Type 0} (b : Bool) (x y : Option A)
    → Returned x
    → Returned y
    → Returned (if b then x else y)
if_Returned true x y hx hy = hx
if_Returned false x y hx hy = hy

extended_other_total :
    (env : Env) (g : Gsmd) (busy : List Atcmd) (stale buf : Bytes) (colon : ℕ)
    → All IsFilled busy
    → Returned (extended_other env g busy stale buf colon)
unfolding extended_other
extended_other_total env g [] stale buf colon h = (_, refl)
extended_other_total env g (cmd ∷ rest) stale buf colon (h, hs) =
    let ends = IsFilled-Ends h in
    let prefix = take colon (cstr buf) in
    let ((arg, third), (same, compared)) =
      third_byte prefix ends.front (take-NoZero colon (cstr buf) (cstr-NoZero buf)) ends.two in
    rw
      (
        ap (λ m. starts_in prefix (drop 2 m)) ends.zero_behind ∙ compared,
        ap (λ m. get_elem? m 2) ends.zero_behind ∙ third,
      )
      (if_Returned same _ _ (_, refl) (_, refl))

extended_total :
    (env : Env) (g : Gsmd) (stale buf : Bytes) (colon : Option ℕ)
    → All IsFilled g.busy
    → Returned (extended env g stale buf colon)
unfolding extended extended_at
extended_total env g stale buf none h = (_, refl)
extended_total env g stale buf (some colon) h =
    let s = drop 1 (cstr buf) in
    if_Returned (starts_with (codes "CME ERROR") s) _ _ (_, refl)
      (if_Returned (starts_with (codes "CMS ERROR") s) _ _ (_, refl)
        (extended_other_total env g g.busy stale buf colon h))

-- When the memory of the busy commands is as `atcmd_fill` makes it, for more than two bytes, the parser
-- returns on every line, in every state of its own: whatever the line holds, the comparisons with the
-- text of the first command and the look at its third byte read nothing outside the command.
pub ml_parse_total :
    (env : Env) (g : Gsmd) (stale buf : Bytes)
    → All IsFilled g.busy
    → (p : Parsed) × (ml_parse env g stale buf ≡ some p)
unfolding ml_parse
ml_parse_total env g stale buf h =
    let s = cstr buf in
    let (echo, e) = echo_total g.busy s h (cstr-NoZero buf) in
    if_Returned (is_ready s) _ _ (_, refl)
      (rw e (
        if_Returned echo _ _ (_, refl)
          (if_Returned (is_extended g.ext_chars s) _ _
            (extended_total env g stale buf (find_char b':' s) h) (_, refl))))
