-- ===== src/Libgsmd/Sevenbit/Octets.antt =====
-- What the shifts and masks of the packing compute, settled by running them on every value.
use Prim.Native.Nat.{bit_and, bit_or}
use system_test_suite.Base.{
  ℕ, zero, suc, ◌+◌, ◌-◌, ◌*◌, ◌/◌, ◌%◌, ◌^◌, ◌≤◌, ◌<◌, ◌≡◌, refl, Bool, true, ◌&&◌, ◌==◌, ltb,
  arith,
}
use system_test_suite.Base.Bits.{passes, passes_below, agree_below, agree_below_sound}
use system_test_suite.Sms.Address.{septet}
use system_test_suite.Libgsmd.Sevenbit.{packed_octet}

-- the bits of the character at the place that an octet in front of its own holds
abbrev pub low_part : ℕ → ℕ → ℕ → ℕ
low_part zero o c = o
low_part (suc k) o c = c % 2 ^ suc k

abbrev pub joined : ℕ → ℕ → ℕ → ℕ
joined k o low = bit_and (bit_or (o * 2 ^ k) low) 0x7f

abbrev holds : ℕ → ℕ → ℕ → Bool
holds k c n =
    let o = packed_octet k c n in
    joined k o (low_part k o c) == c && (o / 2 ^ (7 - k) == n % 2 ^ suc k && ltb o 256)

holds_table : passes (λ x. holds (x / 16384) (x % 128) (x / 128 % 128)) 0 114688 ≡ true
unfolding passes packed_octet
holds_table = refl

holds_all : (k c n : ℕ) → k ≤ 6 → c < 128 → n < 128 → holds k c n ≡ true
holds_all k c n hk hc hn =
    let x = k * 16384 + n * 128 + c in
    let e : x / 16384 ≡ k = omega arith in
    let f : x % 128 ≡ c = omega arith in
    let g : x / 128 % 128 ≡ n = omega arith in
    rw (e, f, g) at
      (passes_below (λ y. holds (y / 16384) (y % 128) (y / 128 % 128)) 114688 x holds_table
        (omega arith))

-- a character whose high bits stand in `o`, and whose low bits stand in the octet before, or in `o` too
pub joined_char :
    (k c n : ℕ)
    → k ≤ 6
    → c < 128
    → n < 128
    → joined k (packed_octet k c n) (low_part k (packed_octet k c n) c) ≡ c
joined_char k c n hk hc hn = ground (arith, holds_all k c n hk hc hn)

-- what the octet holds of the next character
pub octet_rest :
    (k c n : ℕ) → k ≤ 6 → c < 128 → n < 128 → packed_octet k c n / 2 ^ (7 - k) ≡ n % 2 ^ suc k
octet_rest k c n hk hc hn = ground (arith, holds_all k c n hk hc hn)

pub octet_fits : (k c n : ℕ) → k ≤ 6 → c < 128 → n < 128 → packed_octet k c n < 256
octet_fits k c n hk hc hn = ground (arith, holds_all k c n hk hc hn)

-- the last of eight characters, which stands whole in the octet before
last_table : agree_below 65536 (λ x. joined 7 (x / 256) (x % 256 / 2)) (λ x. x % 256 / 2) ≡ true
unfolding agree_below passes
last_table = refl

pub last_char : (high low : ℕ) → high < 256 → low < 256 → joined 7 high (low / 2) ≡ low / 2
last_char high low hh hl =
    let x = high * 256 + low in
    let e : x / 256 ≡ high = omega arith in
    let f : x % 256 ≡ low = omega arith in
    rw (e, f) at (agree_below_sound 65536 _ _ x last_table (omega arith))

shift_table :
    passes (λ i. bit_and (i * 7 + 7) 7 == 7 - i % 8 && bit_and (i * 7) 7 == (8 - i % 8) % 8) 0 256
    ≡ true
unfolding passes
shift_table = refl

shifts :
    (i : ℕ) → i < 256 → (bit_and (i * 7 + 7) 7 ≡ 7 - i % 8) × (bit_and (i * 7) 7 ≡ (8 - i % 8) % 8)
shifts i h =
    let all =
      passes_below (λ i. bit_and (i * 7 + 7) 7 == 7 - i % 8 && bit_and (i * 7) 7 == (8 - i % 8) % 8)
        256 i shift_table h in
    (ground (arith, all), ground (arith, all))

-- which septet stands at which place
pub septet-joined :
    (i high low : ℕ)
    → i < 256
    → septet i high low ≡ joined (i % 8) high (low / 2 ^ ((8 - i % 8) % 8))
unfolding septet
septet-joined i high low h =
    let same : 7 - (7 - i % 8) ≡ i % 8 = omega arith in
    rw ((shifts i h).0, (shifts i h).1, same) refl
