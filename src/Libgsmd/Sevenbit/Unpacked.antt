-- ===== src/Libgsmd/Sevenbit/Unpacked.antt =====
-- A packed text is unpacked into itself.
use system_test_suite.Base.{
  ℕ, zero, suc, ◌+◌, ◌-◌, ◌*◌, ◌/◌, ◌%◌, ◌^◌, ◌≤◌, ◌<◌, ◌≡◌, ◌≢◌, refl, ap, ◌∙◌, false, some, [],
  ◌∷◌, ◌++◌, ◌==◌, ==_iff, if◌then◌else◌, Bool-cases, inl, inr, Bytes, All, get_elem?, drop, arith,
}
use system_test_suite.Atcmd.Mlparse.Texts.{first_char}
use system_test_suite.Sms.Address.{septet}
use system_test_suite.Libgsmd.Sevenbit.{packed_octet, packed, unpack_from}
use system_test_suite.Libgsmd.Sevenbit.Octets.{
  joined_char, octet_rest, octet_fits, last_char, septet-joined,
}

abbrev pub IsSeptets : Bytes → Type 0
IsSeptets = All (λ c. c < 128)

-- what comes out: a text that ends with the seventh of eight characters has a zero behind it
unfoldable pub padded : ℕ → Bytes → Bytes
padded k [] = []
padded k (c ∷ []) = if k == 6 then c ∷ 0 ∷ [] else c ∷ []
padded k (c ∷ d ∷ s) =
    let over = padded 0 s in
    let on = padded (suc k) (d ∷ s) in if k == 6 then c ∷ d ∷ over else c ∷ on

drop_step :
    (j : ℕ) (octets : Bytes) {o : ℕ} {t : Bytes}
    → drop j octets ≡ o ∷ t
    → (get_elem? octets j ≡ some o) × (drop (suc j) octets ≡ t)
drop_step zero [] e = absurd (cc e)
drop_step zero (c ∷ octets) e = (cc e, cc e)
drop_step (suc j) [] e = absurd (cc e)
drop_step (suc j) (c ∷ octets) e = drop_step j octets e

-- The low bits of the character at place `i` stand in the octet before, if they are not all in its own.
unfoldable pub LowBits : Bytes → ℕ → ℕ → ℕ → Type 0
LowBits octets i k c =
    (k ≢ 0)
    → (low : ℕ) × (get_elem? octets (i * 7 / 8) ≡ some low) × (low / 2 ^ (8 - k) ≡ c % 2 ^ k)

unpack_step :
    (n i h l c : ℕ) (octets t : Bytes)
    → get_elem? octets ((i * 7 + 7) / 8) ≡ some h
    → get_elem? octets (i * 7 / 8) ≡ some l
    → septet i h l ≡ c
    → unpack_from n (i + 1) octets ≡ some t
    → unpack_from (suc n) i octets ≡ some (c ∷ t)
unfolding unpack_from
unpack_step n i h l c octets t high low e rest = rw (high, low, rest, e) refl

later_char :
    (i k c n low : ℕ)
    → i < 256
    → i % 8 ≡ suc k
    → suc k ≤ 6
    → c < 128
    → n < 128
    → low / 2 ^ (8 - suc k) ≡ c % 2 ^ suc k
    → septet i (packed_octet (suc k) c n) low ≡ c
later_char i k c n low hi e hk hc hn bits =
    let part : (8 - suc k) % 8 ≡ 8 - suc k = omega arith in
    septet-joined i (packed_octet (suc k) c n) low hi
    ∙ rw (e, part, bits) (joined_char (suc k) c n hk hc hn)

char_read :
    (octets : Bytes) (i k c n : ℕ)
    → i < 256
    → i % 8 ≡ k
    → k ≤ 6
    → c < 128
    → n < 128
    → LowBits octets i k c
    → get_elem? octets ((i * 7 + 7) / 8) ≡ some (packed_octet k c n)
    → (low : ℕ) × (get_elem? octets (i * 7 / 8) ≡ some low)
      × (septet i (packed_octet k c n) low ≡ c)
unfolding LowBits
char_read octets i zero c n hi e hk hc hn before high =
    let o = packed_octet 0 c n in
    let same : i * 7 / 8 ≡ (i * 7 + 7) / 8 = omega arith in
    let whole : o / 1 ≡ o = omega arith in
    (
      o,
      rw same high,
      septet-joined i o o hi ∙ rw (e, whole) (joined_char 0 c n (omega arith) hc hn),
    )
char_read octets i (suc k) c n hi e hk hc hn before high =
    let (low, l, bits) = before (λ z. absurd (omega (arith, z))) in
    (low, l, later_char i k c n low hi e hk hc hn bits)

-- the octet at the front, for the last of eight characters
front_octet :
    (s : Bytes) (r : ℕ) (more : Bytes)
    → IsSeptets s
    → r < 256
    → (h : ℕ) × (t : Bytes) × ((packed 0 s).0 ++ r ∷ more ≡ h ∷ t) × (h < 256)
unfolding packed
front_octet [] r more v hr = (r, more, refl, hr)
front_octet (c ∷ []) r more (hc, v) hr =
    (packed_octet 0 c 0, r ∷ more, refl, octet_fits 0 c 0 (omega arith) hc (omega arith))
front_octet (c ∷ d ∷ s) r more (hc, (hd, v)) hr =
    (packed_octet 0 c d, _, refl, octet_fits 0 c d (omega arith) hc hd)

-- the character with the next one's low bits in its octet
bits_on :
    (octets : Bytes) (i k c n : ℕ)
    → k ≤ 6
    → c < 128
    → n < 128
    → get_elem? octets ((i * 7 + 7) / 8) ≡ some (packed_octet k c n)
    → LowBits octets (i + 1) (suc k) n
unfolding LowBits
bits_on octets i k c n hk hc hn high _ =
    let place : (i + 1) * 7 / 8 ≡ (i * 7 + 7) / 8 = omega arith in
    let left : 8 - suc k ≡ 7 - k = omega arith in
    (packed_octet k c n, rw place high, rw left (octet_rest k c n hk hc hn))

module _ (octets : Bytes) where
  one_char :
      (i k c n m : ℕ) (tail t : Bytes)
      → i < 256
      → i % 8 ≡ k
      → k ≤ 6
      → c < 128
      → n < 128
      → LowBits octets i k c
      → drop ((i * 7 + 7) / 8) octets ≡ packed_octet k c n ∷ tail
      → unpack_from m (i + 1) octets ≡ some t
      → unpack_from (suc m) i octets ≡ some (c ∷ t)
  one_char i k c n m tail t hi e hk hc hn before rest later =
      let high = (drop_step ((i * 7 + 7) / 8) octets rest).0 in
      let (low, l, read) = char_read octets i k c n hi e hk hc hn before high in
      unpack_step m i (packed_octet k c n) low c octets t high l read later

  -- the last two of eight characters
  two_chars :
      (i c d m h : ℕ) (tail t : Bytes)
      → i < 255
      → i % 8 ≡ 6
      → c < 128
      → d < 128
      → h < 256
      → LowBits octets i 6 c
      → drop ((i * 7 + 7) / 8) octets ≡ packed_octet 6 c d ∷ h ∷ tail
      → unpack_from m (i + 1 + 1) octets ≡ some t
      → unpack_from (suc (suc m)) i octets ≡ some (c ∷ d ∷ t)
  two_chars i c d m h tail t hi e hc hd hh before rest later =
      let o = packed_octet 6 c d in
      let (high, behind) = drop_step ((i * 7 + 7) / 8) octets rest in
      let next : suc ((i * 7 + 7) / 8) ≡ ((i + 1) * 7 + 7) / 8 = omega arith in
      let place : (i + 1) * 7 / 8 ≡ (i * 7 + 7) / 8 = omega arith in
      let seventh : (i + 1) % 8 ≡ 7 = omega arith in
      let bits : o / 2 ≡ d = octet_rest 6 c d (omega arith) hc hd ∙ omega arith in
      let read : septet (i + 1) h o ≡ d =
        septet-joined (i + 1) h o (omega arith)
        ∙ rw seventh (last_char h o hh (octet_fits 6 c d (omega arith) hc hd) ∙ bits) in
      one_char i 6 c d (suc m) (h ∷ tail) (d ∷ t) (omega arith) e (omega arith) hc hd before rest (
        unpack_step m (i + 1) h o d octets t
          (drop_step (((i + 1) * 7 + 7) / 8) octets (rw next at behind)).0 (rw place high) read
          later)

below_six : (k : ℕ) → (k == 6) ≡ false → k ≤ 6 → suc k ≤ 6
below_six k n h = ground arith

module _ (octets : Bytes) (r : ℕ) (more : Bytes) (hr : r < 256) where
  pub unpack-packed :
      (s : Bytes) (i k : ℕ)
      → IsSeptets s
      → i % 8 ≡ k
      → k ≤ 6
      → i + (packed k s).1 ≤ 256
      → LowBits octets i k (first_char s)
      → drop ((i * 7 + 7) / 8) octets ≡ (packed k s).0 ++ r ∷ more
      → unpack_from (packed k s).1 i octets ≡ some (padded k s)
  unfolding packed padded
  unpack-packed [] i k v e hk fits before rest = unfold unpack_from in refl
  unpack-packed (c ∷ []) i k v e hk fits before rest = elim (Bool-cases (k == 6)) [
    | inl y ↦
        let z : k ≡ 6 = (==_iff k 6).0 y in
        let room : i + 2 ≤ 256 = rw z at fits in
        rw z (
          two_chars octets i c 0 0 r more [] (omega arith) (e ∙ z) v.0 (omega arith) hr
            (rw z at before) (rw z at rest) (unfold unpack_from in refl))
    | inr n ↦
        let room : i + 1 ≤ 256 = rw n at fits in
        rw n (
          one_char octets i k c 0 0 (r ∷ more) [] (omega arith) e hk v.0 (omega arith) before rest
            (unfold unpack_from in refl))
  ]
  unpack-packed (c ∷ d ∷ s) i k v e hk fits before rest = elim (Bool-cases (k == 6)) [
    | inl y ↦
        let z : k ≡ 6 = (==_iff k 6).0 y in
        let over = packed 0 s in
        let room : i + suc (suc over.1) ≤ 256 = rw z at fits in
        let (h, tail, front, hh) = front_octet s r more v.1.1 hr in
        let here : drop ((i * 7 + 7) / 8) octets ≡ packed_octet 6 c d ∷ (over.0 ++ r ∷ more) =
          rw z at rest in
        let place : suc ((i * 7 + 7) / 8) ≡ ((i + 1 + 1) * 7 + 7) / 8 = omega (arith, e, z) in
        rw z (
          two_chars octets i c d over.1 h tail (padded 0 s) (omega arith) (e ∙ z) v.0 v.1.0 hh
            (rw z at before) (here ∙ ap (◌∷◌ (packed_octet 6 c d)) front)
            (unpack-packed s (i + 1 + 1) 0 v.1.1 (omega (arith, e, z)) (omega arith) (omega arith)
              (unfold LowBits in λ n. absurd (n refl))
              (rw place at (drop_step ((i * 7 + 7) / 8) octets here).1)))
    | inr n ↦
        let on = packed (suc k) (d ∷ s) in
        let room : i + suc on.1 ≤ 256 = rw n at fits in
        let here : drop ((i * 7 + 7) / 8) octets ≡ packed_octet k c d ∷ (on.0 ++ r ∷ more) =
          rw n at rest in
        let place : suc ((i * 7 + 7) / 8) ≡ ((i + 1) * 7 + 7) / 8 = omega (arith, e) in
        rw n (
          one_char octets i k c d on.1 (on.0 ++ r ∷ more) (padded (suc k) (d ∷ s)) (omega arith) e
            hk v.0 v.1.0 before here
            (unpack-packed (d ∷ s) (i + 1) (suc k) v.1 (omega (arith, e)) (below_six k n hk)
              (omega arith)
              (bits_on octets i k c d hk v.0 v.1.0 (drop_step ((i * 7 + 7) / 8) octets here).0)
              (rw place at (drop_step ((i * 7 + 7) / 8) octets here).1)))
  ]
