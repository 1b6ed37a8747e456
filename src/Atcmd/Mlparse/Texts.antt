-- ===== src/Atcmd/Mlparse/Texts.antt =====
-- The string functions of C that `ml_parse` uses, on C strings without their terminating zero.
use system_test_suite.Base.{
  ℕ, ◌+◌, ◌-◌, ◌*◌, ◌%◌, ◌^◌, Bool, true, false, ◌&&◌, ◌||◌, Option, none, some, [], ◌∷◌, ltb, leb,
  ◌==◌, if◌then◌else◌, Bytes,
}
use system_test_suite.Base.Int.{ℤ, pos, negsuc}

-- `!strcmp(a, b)` and `!strncmp(s, prefix, strlen(prefix))`
unfoldable pub strings_equal : Bytes → Bytes → Bool
strings_equal [] [] = true
strings_equal [] (d ∷ b) = false
strings_equal (c ∷ a) [] = false
strings_equal (c ∷ a) (d ∷ b) = c == d && strings_equal a b

unfoldable pub starts_with : Bytes → Bytes → Bool
starts_with [] s = true
starts_with (c ∷ prefix) [] = false
starts_with (c ∷ prefix) (d ∷ s) = c == d && starts_with prefix s

-- `!strcmp(s, memory)` for a memory that may end before its text does; `none` is a read past its end
unfoldable pub equal_in : Bytes → Bytes → Option Bool
equal_in s [] = none
equal_in [] (d ∷ memory) = some (d == 0)
equal_in (c ∷ s) (d ∷ memory) = let rest = equal_in s memory in if c == d then rest else some false

-- `!strncmp(prefix, memory, strlen(prefix))` in the same way
unfoldable pub starts_in : Bytes → Bytes → Option Bool
starts_in [] memory = some true
starts_in (c ∷ prefix) [] = none
starts_in (c ∷ prefix) (d ∷ memory) =
    let rest = starts_in prefix memory in if c == d then rest else some false

-- `strchr(s, c) != NULL`, which finds the terminating zero too
unfoldable pub has_char : Bytes → ℕ → Bool
has_char [] c = c == 0
has_char (d ∷ s) c = c == d || has_char s c

-- `s[0]`
abbrev pub first_char : Bytes → ℕ
first_char [] = 0
first_char (c ∷ s) = c

abbrev pub is_space : ℕ → Bool
is_space c = c == 32 || (leb 9 c && leb c 13)

abbrev pub is_digit : ℕ → Bool
is_digit c = leb b'0' c && leb c b'9'

unfoldable pub digits_value : ℕ → Bytes → ℕ
digits_value acc [] = acc
digits_value acc (c ∷ s) =
    let rest = digits_value (acc * 10 + (c - b'0')) s in if is_digit c then rest else acc

-- the value of an `unsigned long` of 32 bits, which overflows to the largest
abbrev saturated : ℕ → ℕ
saturated n = if ltb n (2 ^ 32) then n else 2 ^ 32 - 1

abbrev signed_value : Bytes → ℕ
signed_value [] = 0
signed_value (c ∷ s) =
    if c == b'-'
    then if ltb (digits_value 0 s) (2 ^ 32)
      then (2 ^ 32 - digits_value 0 s) % 2 ^ 32
      else 2 ^ 32 - 1
    else saturated (digits_value 0 (if c == b'+' then s else c ∷ s))

-- `strtoul(s, NULL, 10)`
unfoldable pub strtoul : Bytes → ℕ
unfolding digits_value
strtoul [] = 0
strtoul (c ∷ s) = let rest = strtoul s in if is_space c then rest else signed_value (c ∷ s)

abbrev pub to_int32 : ℕ → ℤ
to_int32 n = if ltb n (2 ^ 31) then pos n else negsuc (2 ^ 32 - n - 1)
