-- ===== src/Events/Dispatch/Lookup.antt =====
-- Which handler an unsolicited code reaches.
use mathlib.Core.Option
use system_test_suite.Base.{
  ℕ, ◌+◌, ◌-◌, ◌≤◌, ◌<◌, ◌≡◌, refl, sym, ap, ◌∙◌, Option, none, some, List, [], ◌∷◌, ◌++◌,
  append_assoc, arith, ltb, if◌then◌else◌, Bytes, Bool-cases, inl, inr, lt→ltb, ltb→lt,
  le→ltb_false, length, map, take, drop, replicate, length-append, ◌>>=◌, false, suc, zero,
}
use system_test_suite.Base.Int.{ℤ, pos}
use system_test_suite.Atcmd.Queue.{Gsmd, cstr}
use system_test_suite.Atcmd.Mlparse.Texts.{starts_with}
use system_test_suite.Events.Dispatch.{
  Parse, Unsolicit, Slots, table_size, empty_table, answered, enoent, enomem, unsolicited_parse,
  slots_used, unsolicited_register_array, GenericParse, gsm0707_unsolicit, unsolicited_init,
}

-- the table with these handlers in front
abbrev table : List Unsolicit → Slots
table us = map some us ++ replicate (table_size - length us) none

-- the handlers that the text reaches, the first of them first
abbrev reached : List Unsolicit → Bytes → List Unsolicit
reached [] buf = []
reached (i ∷ us) buf =
    let rest = reached us buf in if starts_with i.prefix (cstr buf) then i ∷ rest else rest

abbrev first_answer : List Unsolicit → Bytes → Gsmd → Gsmd × ℤ
first_answer [] buf g = (g, enoent)
first_answer (i ∷ us) buf g = answered i buf g

module _ (buf : Bytes) (g : Gsmd) where
  unsolicited_parse-reached :
      (us : List Unsolicit) (n : ℕ)
      → unsolicited_parse (map some us ++ replicate (suc n) none) buf g
        ≡ some (first_answer (reached us buf) buf g)
  unfolding unsolicited_parse
  unsolicited_parse-reached [] n = refl
  unsolicited_parse-reached (i ∷ us) n = elim (Bool-cases (starts_with i.prefix (cstr buf))) [
    | inl e ↦ rw e refl
    | inr e ↦ rw e (unsolicited_parse-reached us n)
  ]

slots_used-table :
    (us : List Unsolicit) (n : ℕ)
    → slots_used (map some us ++ replicate (suc n) none) ≡ some (suc (length us))
unfolding slots_used
slots_used-table [] n = refl
slots_used-table (i ∷ us) n =
    ap (Option.map (λ k. k + 1)) (slots_used-table us n) ∙ ap some (omega arith)

drop-replicate {ℓ} : {A : Type ℓ} (k n : ℕ) (a : A) → drop k (replicate n a) ≡ replicate (n - k) a
drop-replicate zero n a = ap (λ m. replicate m a) {x = n} {y = n - 0} (omega arith)
drop-replicate (suc k) zero a = ap (λ m. replicate m a) {x = 0} {y = 0 - suc k} (omega arith)
drop-replicate (suc k) (suc n) a =
    drop-replicate k n a ∙ ap (λ m. replicate m a) {x = n - k} {y = suc n - suc k} (omega arith)

take-table :
    (us : List Unsolicit) (n : ℕ)
    → take (suc (length us)) (map some us ++ replicate (suc n) none) ≡ map some us ++ none ∷ []
take-table [] n = refl
take-table (i ∷ us) n = ap (◌∷◌ (some i)) (take-table us n)

drop-table :
    (k : ℕ) (us : List Unsolicit) (n : ℕ)
    → drop (k + suc (length us)) (map some us ++ replicate (suc n) none) ≡ replicate (n - k) none
drop-table k [] n =
    ap (λ m. drop m (replicate (suc n) none)) {x = k + 1} {y = suc k} (omega arith)
    ∙ drop-replicate k n none
drop-table k (i ∷ us) n =
    ap (λ m. drop m (map some (i ∷ us) ++ replicate (suc n) none)) {x = k + suc (suc (length us))}
      {y = suc (k + suc (length us))} (omega arith)
    ∙ drop-table k us n

table-append :
    (arr us : List Unsolicit) (m n : ℕ)
    → n ≡ suc m
    → map some arr ++ (map some us ++ none ∷ []) ++ replicate m none
      ≡ map some (arr ++ us) ++ replicate n none
table-append [] us m n e =
    append_assoc (map some us) (none ∷ []) (replicate m none)
    ∙ ap (λ k. map some us ++ replicate k none) (sym e)
table-append (i ∷ arr) us m n e = ap (◌∷◌ (some i)) (table-append arr us m n e)

table_lem :
    (us : List Unsolicit)
    → length us < table_size
    → table us ≡ map some us ++ replicate (suc (table_size - 1 - length us)) none
table_lem us h =
    ap (λ n. map some us ++ replicate n none) {x = table_size - length us}
      {y = suc (table_size - 1 - length us)} (omega arith)

register-table :
    (arr us : List Unsolicit)
    → length arr + length us < table_size
    → unsolicited_register_array arr (table us) ≡ some (table (arr ++ us), pos 0)
unfolding unsolicited_register_array
register-table arr us h =
    let n = table_size - 1 - length us in
    rw
      (
        table_lem us (omega arith),
        slots_used-table us n,
        le→ltb_false 256 (length arr + suc (length us)) (omega arith),
        take-table us n,
        drop-table (length arr) us n,
      )
      (ap (λ t. some (t, pos 0))
        (table-append arr us (n - length arr) (table_size - length (arr ++ us))
          (omega (arith, length-append arr us))))

register-full :
    (arr us : List Unsolicit)
    → length us < table_size
    → table_size ≤ length arr + length us
    → unsolicited_register_array arr (table us) ≡ some (table us, enomem)
unfolding unsolicited_register_array
register-full arr us h full =
    rw
      (
        table_lem us h,
        slots_used-table us (table_size - 1 - length us),
        lt→ltb 256 (length arr + suc (length us)) (omega arith),
      )
      refl

-- the handlers, in the order in which they are tried
abbrev registered : (GenericParse → Parse) → Option (List Unsolicit) → List Unsolicit
registered parses none = gsm0707_unsolicit parses
registered parses (some arr) =
    if ltb (length arr + 12) table_size
    then arr ++ gsm0707_unsolicit parses
    else gsm0707_unsolicit parses

not_ltb : (a b : ℕ) → ltb a b ≡ false → b ≤ a
not_ltb a b e = ground arith

register_vendor :
    (parses : GenericParse → Parse) (arr : List Unsolicit)
    → Option.map (λ r. r.0) (unsolicited_register_array arr (table (gsm0707_unsolicit parses)))
      ≡ some (table (registered parses (some arr)))
register_vendor parses arr =
    let us = gsm0707_unsolicit parses in
    elim (Bool-cases (ltb (length arr + 12) table_size)) [
      | inl e ↦
          rw (e, register-table arr us (omega (arith, ltb→lt (length arr + 12) table_size e))) refl
      | inr e ↦
          rw (e, register-full arr us (omega arith) (not_ltb (length arr + 12) table_size e)) refl
    ]

unsolicited_init-table :
    (parses : GenericParse → Parse) (vendor : Option (List Unsolicit))
    → unsolicited_init parses vendor empty_table ≡ some (table (registered parses vendor))
unfolding unsolicited_init
unsolicited_init-table parses none = refl
unsolicited_init-table parses (some []) = refl
unsolicited_init-table parses (some (i ∷ arr)) = register_vendor parses (i ∷ arr)

registered_length :
    (parses : GenericParse → Parse) (vendor : Option (List Unsolicit))
    → length (registered parses vendor) < table_size
registered_length parses none = omega arith
registered_length parses (some arr) = elim (Bool-cases (ltb (length arr + 12) table_size)) [
  | inl e ↦ rw e (
      omega (
        arith,
        length-append arr (gsm0707_unsolicit parses),
        ltb→lt (length arr + 12) table_size e,
      ))
  | inr e ↦ rw e (omega arith)
]

-- Once the table is set up, an unsolicited code reaches the first handler of the vendor's plug-in whose
-- prefix it begins with, else the first generic one, and its result is returned; when there is none,
-- -ENOENT is. A plug-in with more than 243 handlers is passed over as a whole. No slot past the table
-- is read.
pub unsolicited_init-unsolicited_parse :
    (parses : GenericParse → Parse) (vendor : Option (List Unsolicit)) (buf : Bytes) (g : Gsmd)
    → (unsolicited_init parses vendor empty_table >>= λ slots. unsolicited_parse slots buf g)
      ≡ some (first_answer (reached (registered parses vendor) buf) buf g)
unsolicited_init-unsolicited_parse parses vendor buf g =
    let us = registered parses vendor in
    rw (unsolicited_init-table parses vendor, table_lem us (registered_length parses vendor))
      (unsolicited_parse-reached buf g us (table_size - 1 - length us))
