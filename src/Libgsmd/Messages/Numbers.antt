-- ===== src/Libgsmd/Messages/Numbers.antt =====
-- The addresses that `lgsm_number2addr` writes.
use Prim.Native.Nat.{bit_and}
use system_test_suite.Base.{
  ℕ, ◌+◌, ◌≤◌, ◌≡◌, ◌≢◌, refl, subst, true, false, some, inl, inr, [], ◌∷◌, Bytes, All, Bool-cases,
  length, length-drop, drop, ltb, ◌==◌, arith,
}
use system_test_suite.Base.Text.{is_text}
use system_test_suite.Atcmd.Mlparse.Texts.{first_char}
use system_test_suite.Sms.Types.{
  Addr, gsmd_addr_maxlen, gsmd_toa_ton_alphanumeric, gsmd_toa_ton_mask,
}
use system_test_suite.Sms.Digits.{IsDigit}
use system_test_suite.Libgsmd.Messages.{all_digits, addr_written, lgsm_number2addr}

not_longer : (n : ℕ) → ltb (gsmd_addr_maxlen + 1) (n + 1) ≡ false → n ≤ gsmd_addr_maxlen
not_longer n e = ground arith

-- an address that `lgsm_number2addr` writes can be sent
digits_back : (s : Bytes) → all_digits s ≡ true → All IsDigit s × (is_text s ≡ true)
unfolding all_digits is_text
digits_back [] h = (tt, refl)
digits_back (c ∷ s) h = ground (arith, digits_back s)

-- what a fit address is
abbrev pub IsFitAddr : Addr → Type 0
IsFitAddr addr =
    All IsDigit addr.number
    × (is_text addr.number ≡ true)
    × (length addr.number ≤ gsmd_addr_maxlen)
    × (bit_and addr.type gsmd_toa_ton_mask ≢ gsmd_toa_ton_alphanumeric)

addr_written-IsFitAddr :
    (src : Bytes) (skip : ℕ)
    → length src ≤ gsmd_addr_maxlen
    → all_digits (addr_written src skip).number ≡ true
    → IsFitAddr (addr_written src skip)
addr_written-IsFitAddr src skip h e = elim (Bool-cases (first_char src == b'+')) [
  | inl y ↦
      let digits = digits_back (drop skip src) (rw y at e) in
      rw y (digits.0, digits.1, omega (arith, length-drop skip src), λ z. absurd (omega (arith, z)))
  | inr n ↦
      let digits = digits_back src (rw n at e) in
      rw n (digits.0, digits.1, h, λ z. absurd (omega (arith, z)))
]

pub lgsm_number2addr-IsFitAddr :
    (src : Bytes) (skip : ℕ) (addr : Addr) → lgsm_number2addr src skip ≡ some addr → IsFitAddr addr
unfolding lgsm_number2addr
lgsm_number2addr-IsFitAddr src skip addr e =
    elim (Bool-cases (ltb (gsmd_addr_maxlen + 1) (length src + 1))) [
      | inl y ↦ absurd (cc (rw y at e))
      | inr n ↦ elim (Bool-cases (all_digits (addr_written src skip).number)) [
        | inl z ↦
            let same : addr_written src skip ≡ addr = cc (rw (n, z) at e) in
            subst IsFitAddr same (addr_written-IsFitAddr src skip (not_longer (length src) n) z)
        | inr z ↦ absurd (cc (rw (n, z) at e))
      ]
    ]
