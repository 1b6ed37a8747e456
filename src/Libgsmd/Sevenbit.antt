-- ===== src/Libgsmd/Sevenbit.antt =====
-- The packing of 7-bit characters, `packing_7bit_character` and `unpacking_7bit_character` of
-- libgsmd_sms.c. A text is the bytes in front of its zero.
pub mod Octets
pub mod Unpacked
pub mod RoundTrip
use Prim.Native.Nat.{bit_and, bit_or}
use system_test_suite.Base.{
  ℕ, zero, suc, ◌+◌, ◌-◌, ◌*◌, ◌/◌, ◌%◌, ◌^◌, Bool, Option, none, some, [], ◌∷◌, ◌++◌, ltb, ◌==◌,
  if◌then◌else◌, Bytes, length, get_elem?, drop, ◌>>=◌,
}
use system_test_suite.Sms.Types.{Sms, alphabet_default}
use system_test_suite.Sms.Address.{septet}

-- `struct lgsm_sms`; `sms_data` is the array of 141 octets.
pub record LgsmSms : Type 0 where
  pub addr : Bytes
  pub alpha : ℕ
  pub sms_data : Bytes
  pub length : ℕ
  pub ask_ds : Bool

abbrev pub data_size : ℕ
data_size = 141

-- `ch1 | ch2`, from the character at the place and the one behind it
unfoldable pub packed_octet : ℕ → ℕ → ℕ → ℕ
packed_octet shift c next =
    bit_or (bit_and c 0x7f / 2 ^ shift) (bit_and next 0x7f * 2 ^ (7 - shift) % 256)

-- The octets written from here on, and how far `i` goes: with a shift of 6 the next character is in the
-- octet as a whole, and is passed over.
unfoldable pub packed : ℕ → Bytes → Bytes × ℕ
packed shift [] = ([], 0)
packed shift (c ∷ []) = (packed_octet shift c 0 ∷ [], if shift == 6 then 2 else 1)
packed shift (c ∷ d ∷ s) =
    let over = packed 0 s in
    let on = packed (suc shift) (d ∷ s) in
    if shift == 6
    then (packed_octet shift c d ∷ over.0, suc (suc over.1))
    else (packed_octet shift c d ∷ on.0, suc on.1)

-- `none` where octets are written past the array: the test lets one more pass than there is room for.
unfoldable pub packing_7bit_character : Bytes → LgsmSms → Option (LgsmSms × ℕ)
unfolding packed
packing_7bit_character src dest =
    let (octets, i) = packed 0 src in
    if ltb data_size (length octets)
    then none
    else some (
      record dest {
        alpha = alphabet_default;
        sms_data = octets ++ drop (length octets) dest.sms_data;
        length = i;
      },
      length octets,
    )

-- the loop, with the rounds left; `none` where the array ends before an octet that is read
unfoldable pub unpack_from : ℕ → ℕ → Bytes → Option Bytes
unpack_from zero i octets = some []
unpack_from (suc rounds) i octets = do
  high ← get_elem? octets ((i * 7 + 7) / 8)
  low ← get_elem? octets (i * 7 / 8)
  rest ← unpack_from rounds (i + 1) octets
  some (septet i high low ∷ rest)

-- the first septet behind the header of the user data
abbrev pub first_septet : Sms → Option ℕ
first_septet src =
    let behind = (get_elem? src.payload_data 0 >>= λ size. some ((size * 8 + 14) / 7)) in
    if src.has_header then behind else some 0

-- what is written to `dest`, with its zero
unfoldable pub unpacking_7bit_character : Sms → Option Bytes
unfolding unpack_from septet
unpacking_7bit_character src = do
  i ← first_septet src
  text ← unpack_from (src.length - i) i src.payload_data
  some (text ++ 0 ∷ [])
