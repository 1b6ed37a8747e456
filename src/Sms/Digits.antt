-- ===== src/Sms/Digits.antt =====
-- The digits of a number, two to an octet, are read back from the octets that encode them.
use Prim.Native.Nat.{bit_and}
use system_test_suite.Base.{
  ℕ, suc, ◌+◌, ◌-◌, ◌*◌, ◌/◌, ◌%◌, ◌^◌, ◌≤◌, ◌<◌, ◌≡◌, ◌≢◌, refl, sym, ap, ap₂, ◌∙◌, true, some, [],
  ◌∷◌, ◌++◌, append_assoc, arith, Bytes, length, All, get_elem?_at, le→ltb_false, ne→==,
  length-append,
}
use system_test_suite.Base.Bits.{agree_below, agree_below_sound}
use system_test_suite.Sms.Types.{
  Addr, gsmd_addr_maxlen, gsmd_toa_ton_alphanumeric, gsmd_toa_ton_mask,
}
use system_test_suite.Sms.Address.{sms_number_bytelen, digit, digits_from, sms_address2ascii}
use system_test_suite.Sms.Submit.{digit_pair, digit_last, number_octets}

abbrev pub IsDigit : ℕ → Type 0
IsDigit c = (b'0' ≤ c) × (c ≤ b'9')

pair_table :
    (agree_below 160
        (λ x. digit 0 (digit_pair (b'0' + x % 16) (b'0' + x / 16)))
        (λ x. b'0' + x % 16)
      ≡ true)
    × (agree_below 160
          (λ x. digit 1 (digit_pair (b'0' + x % 16) (b'0' + x / 16)))
          (λ x. b'0' + x / 16)
        ≡ true)
    × (agree_below 10 (λ x. digit 0 (digit_last (b'0' + x))) (λ x. b'0' + x) ≡ true)
unfolding agree_below digit digit_pair digit_last
pair_table = (refl, refl, refl)

-- the shift of a place, and so the digit read there, goes by its parity
place_table :
    (agree_below 32 (λ k. bit_and (2 * k * 4) 4) (λ k. 0) ≡ true)
    × (agree_below 32 (λ k. bit_and ((2 * k + 1) * 4) 4) (λ k. 4) ≡ true)
unfolding agree_below
place_table = (refl, refl)

digit_even : (k octet : ℕ) → k < 32 → digit (2 * k) octet ≡ digit 0 octet
unfolding digit
digit_even k octet h =
    ap (λ s. b'0' + bit_and (octet / 2 ^ s) 0xf) (agree_below_sound 32 _ _ k place_table.0 h)

digit_odd : (k octet : ℕ) → k < 32 → digit (2 * k + 1) octet ≡ digit 1 octet
unfolding digit
digit_odd k octet h =
    ap (λ s. b'0' + bit_and (octet / 2 ^ s) 0xf) (agree_below_sound 32 _ _ k place_table.1 h)

digit_pair_low : (c d : ℕ) → IsDigit c → IsDigit d → digit 0 (digit_pair c d) ≡ c
digit_pair_low c d hc hd =
    let x = c - b'0' + 16 * (d - b'0') in
    let lo : b'0' + x % 16 ≡ c = omega arith in
    let hi : b'0' + x / 16 ≡ d = omega arith in
    ap₂ (λ a b. digit 0 (digit_pair a b)) (sym lo) (sym hi)
    ∙ agree_below_sound 160 _ _ x pair_table.0 (omega arith)
    ∙ lo

digit_pair_high : (c d : ℕ) → IsDigit c → IsDigit d → digit 1 (digit_pair c d) ≡ d
digit_pair_high c d hc hd =
    let x = c - b'0' + 16 * (d - b'0') in
    let lo : b'0' + x % 16 ≡ c = omega arith in
    let hi : b'0' + x / 16 ≡ d = omega arith in
    ap₂ (λ a b. digit 1 (digit_pair a b)) (sym lo) (sym hi)
    ∙ agree_below_sound 160 _ _ x pair_table.1 (omega arith)
    ∙ hi

digit_last_low : (c : ℕ) → IsDigit c → digit 0 (digit_last c) ≡ c
digit_last_low c h =
    let back : b'0' + (c - b'0') ≡ c = omega arith in
    ap (λ a. digit 0 (digit_last a)) (sym back)
    ∙ agree_below_sound 10 _ _ (c - b'0') pair_table.2 (omega arith)
    ∙ back

pub length-number_octets : (ds : Bytes) → length (number_octets ds) ≡ (length ds + 1) / 2
unfolding number_octets
length-number_octets [] = omega arith
length-number_octets (c ∷ []) = omega arith
length-number_octets (c ∷ d ∷ ds) = omega (arith, length-number_octets ds)

-- The digits behind `pre`, which ends where the octets of the places from `2 * k` on begin.
digits_from-number_octets :
    (ds : Bytes) (k : ℕ) (pre rest : Bytes)
    → All IsDigit ds
    → length pre ≡ 2 + k
    → 2 * k + length ds ≤ gsmd_addr_maxlen
    → digits_from (length ds) (2 * k) (pre ++ (number_octets ds ++ rest)) ≡ some ds
unfolding digits_from number_octets
digits_from-number_octets [] k pre rest v at fits = refl
digits_from-number_octets (c ∷ []) k pre rest v at fits =
    rw (get_elem?_at pre rest (digit_last c) {i = 2 + 2 * k / 2} (omega arith))
      (ap (λ z. some (z ∷ [])) (digit_even k _ (omega arith) ∙ digit_last_low c v.0))
digits_from-number_octets (c ∷ d ∷ ds) k pre rest v at fits =
    let o = digit_pair c d in
    let first = get_elem?_at pre (number_octets ds ++ rest) o {i = 2 + 2 * k / 2} (omega arith) in
    let second =
      get_elem?_at pre (number_octets ds ++ rest) o {i = 2 + (2 * k + 1) / 2} (omega arith) in
    let later =
      ap₂ (digits_from (length ds)) {x = 2 * k + 1 + 1} {y = 2 * suc k} (omega arith)
        (sym (append_assoc pre (o ∷ []) (number_octets ds ++ rest)))
      ∙ digits_from-number_octets ds (suc k) (pre ++ o ∷ []) rest v.1.1
          (omega (arith, length-append pre (o ∷ []))) (omega arith) in
    rw (first, second, later)
      (ap₂ (λ y z. some (y ∷ z ∷ ds)) (digit_even k o (omega arith) ∙ digit_pair_low c d v.0 v.1.0)
        (digit_odd k o (omega arith) ∙ digit_pair_high c d v.0 v.1.0))

-- The address field of an encoded message.
pub address_back :
    (addr dst : Addr) (rest : Bytes)
    → bit_and addr.type gsmd_toa_ton_mask ≢ gsmd_toa_ton_alphanumeric
    → All IsDigit addr.number
    → length addr.number ≤ gsmd_addr_maxlen
    → sms_address2ascii dst (length addr.number ∷ addr.type ∷ (number_octets addr.number ++ rest))
      ≡ some (addr, 0)
unfolding sms_address2ascii
address_back addr dst rest ton v fits =
    let short = le→ltb_false gsmd_addr_maxlen (length addr.number) fits in
    let read =
      digits_from-number_octets addr.number 0 (length addr.number ∷ addr.type ∷ []) rest v
        (omega arith) (omega arith) in
    rw (short, ne→== _ _ ton, read)

-- Both kinds of number take half an octet for a digit.
pub number_bytelen_lem : (type n : ℕ) → sms_number_bytelen type n ≡ (n + 1) / 2
unfolding sms_number_bytelen
number_bytelen_lem type n = ground arith
