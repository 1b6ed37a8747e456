-- ===== src/Sms/Address.antt =====
-- `sms_number_bytelen`, `sms_data_bytelen` and `sms_address2ascii`. A read past the end of the
-- octets that a pointer is known to lead to is `none`.
use Prim.Native.Nat.{bit_and, bit_or}
use system_test_suite.Base.{
  ℕ, zero, suc, ◌+◌, ◌-◌, ◌*◌, ◌/◌, ◌^◌, Option, none, some, [], ◌∷◌, ltb, ◌==◌, if◌then◌else◌,
  Bytes, get_elem?, ◌>>=◌,
}
use system_test_suite.Sms.Types.{
  Addr, gsmd_addr_maxlen, alphabet_default, alphabet_8bit, alphabet_ucs2, gsmd_toa_ton_alphanumeric,
  gsmd_toa_ton_mask,
}

-- both cases of the source's `switch` are the same
unfoldable pub sms_number_bytelen : ℕ → ℕ → ℕ
sms_number_bytelen type len =
    if bit_and type gsmd_toa_ton_mask == gsmd_toa_ton_alphanumeric
    then (len + 1) / 2
    else (len + 1) / 2

unfoldable pub sms_data_bytelen : ℕ → ℕ → ℕ
sms_data_bytelen data_coding_scheme len =
    if data_coding_scheme == alphabet_default
    then (len * 7 + 7) / 8
    else if data_coding_scheme == alphabet_8bit
    then len
    else if data_coding_scheme == alphabet_ucs2
    then len * 2
    else 0

-- the septet at place `i`, from the octets that hold its high and its low bits
unfoldable pub septet : ℕ → ℕ → ℕ → ℕ
septet i high low =
    bit_and (bit_or (high * 2 ^ (7 - bit_and (i * 7 + 7) 7)) (low / 2 ^ bit_and (i * 7) 7)) 0x7f

-- `for (; ((i * 7 + 3) >> 2) < src[0]; i ++)`; `n` rounds are enough for `src[0] = n`
unfoldable pub alphanumeric : ℕ → ℕ → ℕ → Bytes → Option Bytes
alphanumeric zero i n src = if ltb ((i * 7 + 3) / 4) n then none else some []
alphanumeric (suc rounds) i n src =
    let more = do
      high ← get_elem? src (2 + (i * 7 + 7) / 8)
      low ← get_elem? src (2 + i * 7 / 8)
      rest ← alphanumeric rounds (i + 1) n src
      some (septet i high low ∷ rest)
    in if ltb ((i * 7 + 3) / 4) n then more else some []

-- the digit at place `i`, from its octet
unfoldable pub digit : ℕ → ℕ → ℕ
digit i octet = b'0' + bit_and (octet / 2 ^ bit_and (i * 4) 4) 0xf

-- `for (; i < src[0]; i ++)`, with the rounds left
unfoldable pub digits_from : ℕ → ℕ → Bytes → Option Bytes
digits_from zero i src = some []
digits_from (suc rounds) i src = do
  octet ← get_elem? src (2 + i / 2)
  rest ← digits_from rounds (i + 1) src
  some (digit i octet ∷ rest)

abbrev read_number : ℕ → ℕ → Bytes → Option Bytes
read_number type n src =
    if bit_and type gsmd_toa_ton_mask == gsmd_toa_ton_alphanumeric
    then alphanumeric n 0 n src
    else digits_from n 0 src

unfoldable pub read_address : ℕ → Bytes → Option (Addr × ℕ)
read_address n src = do
  type ← get_elem? src 1
  number ← read_number type n src
  some (record { type = type; number = number }, 0)

-- The address read, and the return code.
unfoldable pub sms_address2ascii : Addr → Bytes → Option (Addr × ℕ)
unfolding read_address
sms_address2ascii dst src = do
  n ← get_elem? src 0
  if ltb gsmd_addr_maxlen n then some (dst, 1) else read_address n src
