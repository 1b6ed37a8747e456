-- ===== src/Sms/Safety/Address.antt =====
-- Reading an address takes place inside the octets, and its number fits.
use Prim.Native.Nat.{bit_and}
use system_test_suite.Base.{
  ℕ, zero, suc, ◌+◌, ◌*◌, ◌/◌, ◌≤◌, ◌≡◌, inl, inr, refl, ap, some, [], ◌∷◌, arith, ltb, ◌==◌, Bytes,
  length, get_elem?, get_elem?_total, Bool-cases, le→ltb_false, ltb→lt,
}
use system_test_suite.Sms.Types.{
  Addr, gsmd_addr_maxlen, gsmd_toa_ton_alphanumeric, gsmd_toa_ton_mask,
}
use system_test_suite.Sms.Address.{septet, alphanumeric, digit, digits_from, sms_address2ascii}

digits_from_total :
    (rounds i : ℕ) (src : Bytes)
    → 2 + (i + rounds + 1) / 2 ≤ length src
    → (ds : Bytes) × (digits_from rounds i src ≡ some ds) × (length ds ≡ rounds)
unfolding digits_from
digits_from_total zero i src h = ([], refl, refl)
digits_from_total (suc rounds) i src h =
    let (octet, got) = get_elem?_total src (2 + i / 2) (omega arith) in
    let (ds, later, size) = digits_from_total rounds (i + 1) src (omega arith) in
    (digit i octet ∷ ds, rw (got, later), ap suc size)

-- As many rounds as the length says are enough for the loop over septets. It may read one octet
-- past the address field.
alphanumeric_total :
    (rounds i n : ℕ) (src : Bytes)
    → n ≤ i + rounds
    → 3 + (n + 1) / 2 ≤ length src
    → (cs : Bytes) × (alphanumeric rounds i n src ≡ some cs) × (length cs ≤ rounds)
unfolding alphanumeric
alphanumeric_total zero i n src enough h =
    ([], rw (le→ltb_false ((i * 7 + 3) / 4) n (omega arith)), omega arith)
alphanumeric_total (suc rounds) i n src enough h = elim (Bool-cases (ltb ((i * 7 + 3) / 4) n)) [
  | inr past ↦ ([], rw past, omega arith)
  | inl more ↦
      let below = ltb→lt ((i * 7 + 3) / 4) n more in
      let (high, got_high) = get_elem?_total src (2 + (i * 7 + 7) / 8) (omega arith) in
      let (low, got_low) = get_elem?_total src (2 + i * 7 / 8) (omega arith) in
      let (cs, later, size) = alphanumeric_total rounds (i + 1) n src (omega arith) h in
      (septet i high low ∷ cs, rw (more, got_high, got_low, later), omega arith)
]

pub address_total :
    (dst : Addr) (n : ℕ) (src : Bytes)
    → get_elem? src 0 ≡ some n
    → 3 + (n + 1) / 2 ≤ length src
    → (addr : Addr) × (rc : ℕ) × (sms_address2ascii dst src ≡ some (addr, rc))
      × (rc ≡ 0 → length addr.number ≤ gsmd_addr_maxlen)
unfolding sms_address2ascii
address_total dst n src got h = elim (Bool-cases (ltb gsmd_addr_maxlen n)) [
  | inl long ↦ (dst, 1, rw (got, long), λ e. absurd (omega arith))
  | inr short ↦
      let (type, got_type) = get_elem?_total src 1 (omega arith) in
      elim (Bool-cases (bit_and type gsmd_toa_ton_mask == gsmd_toa_ton_alphanumeric)) [
        | inl text ↦
            let (cs, read, size) = alphanumeric_total n 0 n src (omega arith) h in
            (
              record { type = type; number = cs },
              0,
              rw (got, short, got_type, text, read),
              λ _. ground arith,
            )
        | inr plain ↦
            let (ds, read, size) = digits_from_total n 0 src (omega arith) in
            (
              record { type = type; number = ds },
              0,
              rw (got, short, got_type, plain, read),
              λ _. ground arith,
            )
      ]
]
