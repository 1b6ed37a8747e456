-- ===== src/Sms/Safety/Rules.antt =====
-- Rules for the answer of the decoder, one for each way in which it goes on.
use native.Mathlib.Nat.{add-zero}
use system_test_suite.Base.{
  ℕ, zero, suc, ◌+◌, ◌/◌, ◌≤◌, ◌<◌, ◌≡◌, ◌≢◌, ◌⊎◌, inl, inr, refl, ap, ◌∙◌, Bool, true, false,
  Option, none, some, arith, ◌==◌, Bytes, length, drop, get_elem?, slice, ◌>>=◌, get_elem?_total,
  get_elem?-drop, slice_total, length-drop, ne→==, if◌then◌else◌,
}
use system_test_suite.Sms.Types.{Addr, SmsList, gsmd_addr_maxlen}
use system_test_suite.Sms.Pdu.{Outcome, accepted, with_address}
use system_test_suite.Sms.Safety.Address.{address_total}

-- Nothing is read outside the octets, and a message returned with code 0 satisfies `P`.
abbrev pub Returns : (SmsList → Type 0) → Outcome → Type 0
Returns P none = ⊥
Returns P (some (m, rc)) = rc ≡ 0 → P m

module _ (P : SmsList → Type 0) where
  pub Returns-read :
      (src : Bytes) (i : ℕ) (go_on : ℕ → Outcome)
      → i < length src
      → ((b : ℕ) → get_elem? src i ≡ some b → Returns P (go_on b))
      → Returns P (get_elem? src i >>= go_on)
  Returns-read src i go_on h k = let (b, e) = get_elem?_total src i h in rw e (k b e)

  pub Returns-slice :
      (src : Bytes) (i n : ℕ) (go_on : Bytes → Outcome)
      → i + n ≤ length src
      → ((bs : Bytes) → length bs ≡ n → Returns P (go_on bs))
      → Returns P (slice src i n >>= go_on)
  Returns-slice src i n go_on h k = let (bs, e, size) = slice_total src i n h in rw e (k bs size)

  -- a guard that returns 1
  pub Returns-guard :
      (b : Bool) (m : SmsList) (rest : Outcome)
      → (b ≡ false → Returns P rest)
      → Returns P (if b then some (m, 1) else rest)
  Returns-guard true m rest k = λ e. absurd (omega arith)
  Returns-guard false m rest k = k refl

  pub Returns-accepted :
      (o : Option ℕ) (m : SmsList) (go_on : ℕ → Outcome)
      → ((scheme : ℕ) → Returns P (go_on scheme))
      → Returns P (accepted o (m, 1) go_on)
  Returns-accepted none m go_on k = λ e. absurd (omega arith)
  Returns-accepted (some scheme) m go_on k = k scheme

module _ (P : SmsList → Type 0) where
  -- after the address: the message is refused unless the code is 0
  pub Returns-refused :
      (rc : ℕ) (m : SmsList) (go_on : SmsList → Outcome)
      → (rc ≡ 0 → Returns P (go_on m))
      → Returns P (if rc == 0 then go_on m else some (m, 1))
  Returns-refused zero m go_on k = k refl
  Returns-refused (suc rc) m go_on k =
      rw (ne→== (suc rc) 0 (omega arith)) (λ e. absurd (omega arith))

  pub Returns-with_address :
      (dst : SmsList) (src : Bytes) (at n : ℕ) (go_on : SmsList → Outcome)
      → get_elem? src at ≡ some n
      → at + 3 + (n + 1) / 2 ≤ length src
      → ((addr : Addr)
          → length addr.number ≤ gsmd_addr_maxlen
          → Returns P (go_on (record dst { addr = addr })))
      → Returns P (with_address dst src at go_on)
  unfolding with_address
  Returns-with_address dst src at n go_on got h k =
      let (addr, rc, read, fits) =
        address_total dst.addr n (drop at src)
          (get_elem?-drop src at 0 ∙ ap (get_elem? src) (add-zero at) ∙ got)
          (omega (arith, length-drop at src)) in
      rw read (Returns-refused rc (record dst { addr = addr }) go_on (λ ok. k addr (fits ok)))

-- the answer read off
pub Returns-result :
    (P : SmsList → Type 0) (o : Outcome)
    → Returns P o
    → (m : SmsList) × (rc : ℕ) × (o ≡ some (m, rc)) × (P m ⊎ (rc ≢ 0))
Returns-result P none w = absurd w
Returns-result P (some (m, zero)) w = (m, zero, refl, inl (w refl))
Returns-result P (some (m, suc rc)) w = (m, suc rc, refl, inr (omega arith))
