-- ===== src/Extrsp.antt =====
-- Extended responses, lists of numbers, strings and ranges between commas:
-- gta02-dm1/user_space/gsm/src/gsmd/ext_response.c. A write or a read past one of the arrays is `none`.
-- It is also `none` where `atoi` reads a number that does not fit an `int`, for which C defines no
-- result. Only the tokens that `num_tokens` counts are kept. The input is the C string without its zero.
pub mod Fields
pub mod Responses
use system_test_suite.Base.{
  ℕ, zero, suc, ◌+◌, ◌^◌, Bool, true, false, not, ◌&&◌, ◌||◌, Option, none, some, List, [], ◌∷◌,
  ◌++◌, ltb, leb, ◌==◌, if◌then◌else◌, Bytes, length, take, get_elem?, ◌>>=◌,
}
use system_test_suite.Base.Int.{ℤ, pos, negsuc}
use system_test_suite.Atcmd.Mlparse.Texts.{is_digit, digits_value}

abbrev pub gsm_extrsp_max_tokens : ℕ
gsm_extrsp_max_tokens = 16

abbrev pub gsm_extrsp_max_ranges : ℕ
gsm_extrsp_max_ranges = 16

-- the size of `buf`
abbrev pub buf_size : ℕ
buf_size = 512

-- the largest length of `u.string`
abbrev pub string_maxlen : ℕ
string_maxlen = 63

-- `struct gsm_extrsp_range_item`
pub record RangeItem : Type 0 where
  pub min : ℕ
  pub max : ℕ

-- `struct gsm_extrsp_tok`
pub data Token : Type 0 where
  empty : Token
  numeric : ℕ → Token
  string : Bytes → Token
  range : List RangeItem → Token

-- `enum parser_state`
pub data ParserState : Type 0 where
  idle token_string token_string_lastquote token_numeric token_range : ParserState

-- The variables of the loop: `items` and `min` are those of a range that is not complete yet, `buf`
-- the bytes written since it was cleared.
pub record Parser : Type 0 where
  pub state : ParserState
  pub tokens : List Token
  pub buf : Bytes
  pub items : List RangeItem
  pub min : ℕ

-- `er->num_tokens++` behind a token that is complete
abbrev pub add_token : Parser → Token → ParserState → Parser
add_token p token s = record p { tokens = p.tokens ++ token ∷ []; state = s }

-- a write to the token that comes next
abbrev pub if_room : Parser → Parser → Option Parser
if_room p q = if ltb (length p.tokens) gsm_extrsp_max_tokens then some q else none

-- `atoi(buf)` is used; a number of 2^31 or more does not fit an `int`
abbrev pub fits_int : Bytes → Bool
fits_int buf = ltb (digits_value 0 buf) (2 ^ 31)

-- `*cur_buf = *cur; cur_buf++;`
unfoldable pub put : Parser → ℕ → Option Parser
put p c = if ltb (length p.buf) buf_size then some (record p { buf = p.buf ++ c ∷ [] }) else none

-- `buf` is read as a number
abbrev pub read_number : Parser → Parser → Option Parser
read_number p q = if ltb (length p.buf) buf_size && fits_int p.buf then some q else none

-- `buf` is read as a C string
abbrev pub read_buf : Parser → Parser → Option Parser
read_buf p q = if ltb (length p.buf) buf_size then some q else none

abbrev is_blank : ℕ → Bool
is_blank c = c == b' ' || c == 9

unfoldable pub in_idle : Parser → ℕ → Option Parser
in_idle p c =
    let clear = record p { buf = [] } in
    if is_blank c
    then some clear
    else if c == b'"'
    then if_room p (record clear { state = token_string })
    else if c == b'('
    then if_room p (record clear { state = token_range; items = []; min = 0 })
    else if is_digit c
    then if_room p (record clear { state = token_numeric; buf = c ∷ [] })
    else if c == b','
    then if_room p (add_token clear empty idle)
    else some clear

unfoldable pub in_numeric : Parser → ℕ → Option Parser
unfolding put
in_numeric p c =
    if c == b','
    then read_number p (add_token p (numeric (digits_value 0 p.buf)) idle)
    else if is_digit c
    then put p c
    else some p

unfoldable pub in_string : Parser → ℕ → Option Parser
unfolding put
in_string p c =
    if c == b'"'
    then read_buf p (add_token p (string (take string_maxlen p.buf)) token_string_lastquote)
    else put p c

-- the previous number is the end of an item; the start is 0 where no `-` came
abbrev pub close_item : Parser → Parser
close_item p = record p {
  items = p.items ++ record { min = p.min; max = digits_value 0 p.buf } ∷ [];
  min = 0;
}

-- a write to the item that comes next, with the number read from `buf`
abbrev pub if_item : Parser → Parser → Option Parser
if_item p q =
    if ltb (length p.items) gsm_extrsp_max_ranges && ltb (length p.buf) buf_size && fits_int p.buf
    then some q
    else none

unfoldable pub in_range : Parser → ℕ → Option Parser
unfolding put
in_range p c =
    if is_digit c
    then put p c
    else if c == b'-'
    then if_item p (record p { min = digits_value 0 p.buf; buf = [] })
    else if c == b','
    then if_item p (close_item p)
    else if c == b')'
    then if_item p (add_token (close_item p) (range (close_item p).items) token_string_lastquote)
    else some p

unfoldable pub step : Parser → ParserState → ℕ → Option Parser
unfolding in_idle in_numeric in_string in_range
step p idle c = in_idle p c
step p token_numeric c = in_numeric p c
step p token_string c = in_string p c
step p token_string_lastquote c = some (if c == b',' then record p { state = idle } else p)
step p token_range c = in_range p c

-- the loop `while (*cur)`
unfoldable pub parse_from : Parser → Bytes → Option Parser
unfolding step
parse_from p [] = some p
parse_from p (c ∷ input) = step p p.state c >>= λ q. parse_from q input

abbrev pub start : Parser
start = record { state = idle; tokens = []; buf = []; items = []; min = 0 }

-- The tokens; the inner `none` is NULL. The flag says whether `talloc` succeeds.
unfoldable pub extrsp_parse : Bool → Bytes → Option (Option (List Token))
unfolding parse_from
extrsp_parse allocated [] = some none
extrsp_parse allocated (c ∷ input) =
    let parsed = parse_from start (c ∷ input) >>= λ p. some (some p.tokens) in
    if allocated then parsed else some none

abbrev in_item : List RangeItem → ℕ → Bool
in_item [] value = false
in_item (ri ∷ items) value = (leb ri.min value && leb value ri.max) || in_item items value

abbrev supported : Option Token → ℕ → ℤ
supported (some (range items)) value = if in_item items value then pos 1 else pos 0
supported _ value = negsuc 21

-- `extrsp_supports`, of an index and a value that are not negative
unfoldable pub extrsp_supports : List Token → ℕ → ℕ → ℤ
extrsp_supports tokens index value = supported (get_elem? tokens index) value
