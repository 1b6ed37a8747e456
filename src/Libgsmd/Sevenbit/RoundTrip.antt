-- ===== src/Libgsmd/Sevenbit/RoundTrip.antt =====
-- From a text to octets and back.
use system_test_suite.Base.{
  ℕ, suc, ◌+◌, ◌-◌, ◌*◌, ◌/◌, ◌≤◌, ◌<◌, ◌≡◌, refl, false, some, [], ◌∷◌, ◌++◌, ◌==◌, le→ltb_false,
  Bool-cases, inl, inr, Bytes, All, length, drop, arith,
}
use system_test_suite.Base.Text.{c_string}
use system_test_suite.Sms.Types.{Sms}
use system_test_suite.Libgsmd.Sevenbit.{
  LgsmSms, data_size, packed, packing_7bit_character, unpacking_7bit_character,
}
use system_test_suite.Libgsmd.Sevenbit.Unpacked.{IsSeptets, padded, LowBits, unpack-packed}

-- a text of 7-bit characters other than the zero
abbrev pub IsText : Bytes → Type 0
IsText = All (λ c. (0 < c) × (c < 128))

text-IsSeptets : (s : Bytes) → IsText s → IsSeptets s
text-IsSeptets [] v = tt
text-IsSeptets (c ∷ s) (h, v) = (h.1, text-IsSeptets s v)

-- the packed octets, and the septets they stand for
pub packed_sizes :
    (k : ℕ) (s : Bytes)
    → k ≤ 6
    → ((packed k s).1 ≤ length s + 1)
      × (length s ≤ (packed k s).1)
      × (length (packed k s).0 + k ≡ ((k + (packed k s).1) * 7 + 7) / 8)
unfolding packed
packed_sizes k [] hk = omega arith
packed_sizes k (c ∷ []) hk = ground arith
packed_sizes k (c ∷ d ∷ s) hk = ground (arith, packed_sizes 0 s, packed_sizes (suc k) (d ∷ s))

-- no more septets than fit in whole octets of eight
pub packed_within :
    (q k : ℕ) (s : Bytes) → k ≤ 6 → k + length s ≤ 8 * q → k + (packed k s).1 ≤ 8 * q
unfolding packed
packed_within q k [] hk h = omega arith
packed_within q k (c ∷ []) hk h = ground arith
packed_within q k (c ∷ d ∷ s) hk h =
    ground (arith, packed_within (q - 1) 0 s, packed_within q (suc k) (d ∷ s))

nonzero : (c : ℕ) → 0 < c → (c == 0) ≡ false
nonzero c h = ground arith

padded_text : (k : ℕ) (s r : Bytes) → IsText s → c_string (padded k s ++ 0 ∷ r) ≡ some s
unfolding padded c_string
padded_text k [] r v = refl
padded_text k (c ∷ []) r v = elim (Bool-cases (k == 6)) [
  | inl y ↦ rw (y, nonzero c v.0.0) refl
  | inr n ↦ rw (n, nonzero c v.0.0) refl
]
padded_text k (c ∷ d ∷ s) r v = elim (Bool-cases (k == 6)) [
  | inl y ↦ rw (y, nonzero c v.0.0, nonzero d v.1.0.0, padded_text 0 s r v.1.1) refl
  | inr n ↦ rw (n, nonzero c v.0.0, padded_text (suc k) (d ∷ s) r v.1) refl
]

-- A text of at most 160 characters of 7 bits is packed into the octets of its septets, with no write past the
-- array. Whatever octets stand behind them, at least one, a message that has them, the length given
-- and no header is unpacked, with no read past its array, into the text, as a C string. The length is that
-- of the text, or one more.
pub unpacking-packing_7bit_character :
    (s : Bytes) (dest : LgsmSms) (src : Sms) (r : ℕ) (more : Bytes)
    → IsText s
    → length s ≤ 160
    → r < 256
    → let octets = (packed 0 s).0 in
      let sent = record dest {
        alpha = 0;
        sms_data = octets ++ drop (length octets) dest.sms_data;
        length = (packed 0 s).1;
      } in
      (packing_7bit_character s dest ≡ some (sent, length octets))
      × (length s ≤ sent.length)
      × (sent.length ≤ length s + 1)
      × (length octets ≡ (sent.length * 7 + 7) / 8)
      × (out : Bytes) × (unpacking_7bit_character (record src {
        has_header = false;
        payload_data = octets ++ r ∷ more;
        length = sent.length;
      })
          ≡ some out)
      × (c_string out ≡ some s)
unfolding packing_7bit_character unpacking_7bit_character
unpacking-packing_7bit_character s dest src r more v fits hr =
    let octets = (packed 0 s).0 in
    let (most, least, count) = packed_sizes 0 s (omega arith) in
    let all : (packed 0 s).1 - 0 ≡ (packed 0 s).1 = omega arith in
    let size : length octets ≡ ((packed 0 s).1 * 7 + 7) / 8 = omega (arith, count) in
    (
      rw (le→ltb_false data_size (length octets) (omega (arith, size, most))) refl,
      least,
      most,
      size,
      padded 0 s ++ 0 ∷ [],
      rw
          (
            all,
            unpack-packed (octets ++ r ∷ more) r more hr s 0 0 (text-IsSeptets s v) refl
                (omega arith) (omega (arith, most)) (unfold LowBits in λ n. absurd (n refl)) refl,
          )
          refl,
      padded_text 0 s [] v,
    )
