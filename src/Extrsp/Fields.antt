-- ===== src/Extrsp/Fields.antt =====
-- A field that ends in a comma is parsed into its token.
use system_test_suite.Base.{
  ℕ, zero, suc, ◌+◌, ◌^◌, ◌≤◌, ◌<◌, ◌≡◌, refl, ap, ◌∙◌, true, false, some, List, [], ◌∷◌, ◌++◌,
  append_assoc, append-nil, arith, ◌==◌, Bytes, length, take, length-append, All, lt→ltb,
}
use system_test_suite.Atcmd.Mlparse.Texts.{is_digit, digits_value}
use system_test_suite.Extrsp.{
  gsm_extrsp_max_tokens, buf_size, string_maxlen, Token, empty, numeric, string, range, ParserState,
  idle, token_string, token_numeric, token_range, Parser, put, in_idle, in_numeric, in_string,
  in_range, step, parse_from,
}

-- A field as it is written.
pub data Field : Type 0 where
  nothing : Field
  number : ℕ → Bytes → Field
  quoted : Bytes → Field
  span : Bytes → Bytes → Field

abbrev pub AllDigits : Bytes → Type 0
AllDigits = All (λ c. is_digit c ≡ true)

-- Numbers have digits and fit an `int`, texts have no quotation mark, and both fit their arrays.
abbrev pub IsField : Field → Type 0
IsField nothing = Unit
IsField (number c ds) =
    AllDigits (c ∷ ds) × (length ds + 1 < buf_size) × (digits_value 0 (c ∷ ds) < 2 ^ 31)
IsField (quoted s) = All (λ c. (c == b'"') ≡ false) s × (length s ≤ string_maxlen)
IsField (span lo hi) =
    AllDigits lo
    × AllDigits hi
    × (length lo < buf_size)
    × (length hi < buf_size)
    × (digits_value 0 lo < 2 ^ 31)
    × (digits_value 0 hi < 2 ^ 31)

-- The field has no zero byte, which would end the response.
abbrev pub IsWritten : Field → Type 0
IsWritten nothing = IsField nothing
IsWritten (number c ds) = IsField (number c ds)
IsWritten (quoted s) = IsField (quoted s) × All (λ c. (c == 0) ≡ false) s
IsWritten (span lo hi) = IsField (span lo hi)

pub IsWritten-IsField : (f : Field) → IsWritten f → IsField f
IsWritten-IsField nothing v = v
IsWritten-IsField (number c ds) v = v
IsWritten-IsField (quoted s) (v, w) = v
IsWritten-IsField (span lo hi) v = v

abbrev pub field_text : Field → Bytes
field_text nothing = []
field_text (number c ds) = c ∷ ds
field_text (quoted s) = b'"' ∷ (s ++ b'"' ∷ [])
field_text (span lo hi) = b'(' ∷ (lo ++ b'-' ∷ (hi ++ b')' ∷ []))

abbrev pub field_token : Field → Token
field_token nothing = empty
field_token (number c ds) = numeric (digits_value 0 (c ∷ ds))
field_token (quoted s) = string s
field_token (span lo hi) = range (record { min = digits_value 0 lo; max = digits_value 0 hi } ∷ [])

-- each field with its comma
abbrev pub fields_text : List Field → Bytes
fields_text [] = []
fields_text (f ∷ fields) = field_text f ++ b',' ∷ fields_text fields

-- the parser with the bytes `w` collected
abbrev pub at : Parser → ParserState → Bytes → Parser
at p s w = record p { state = s; buf = w }

-- In a state that keeps the bytes of a kind, a run of them is collected.
pub collects :
    (P : ℕ → Type 0) (p : Parser) (s : ParserState)
    → ((w : Bytes) (c : ℕ)
        → P c
        → length w < buf_size
        → step (at p s w) s c ≡ some (at p s (w ++ c ∷ [])))
    → (w cs rest : Bytes) → All P cs
    → length w + length cs ≤ buf_size
    → parse_from (at p s w) (cs ++ rest) ≡ parse_from (at p s (w ++ cs)) rest
unfolding parse_from
collects P p s one w [] rest v fits = rw append-nil
collects P p s one w (c ∷ cs) rest v fits = rw (one w c v.0 (omega arith)) (
    collects P p s one (w ++ c ∷ []) cs rest v.1 (omega (arith, length-append w (c ∷ [])))
    ∙ ap (λ u. parse_from (at p s u) rest) (append_assoc w (c ∷ []) cs))

numeric_digit :
    (p : Parser) (w : Bytes) (c : ℕ)
    → is_digit c ≡ true
    → length w < buf_size
    → step (at p token_numeric w) token_numeric c ≡ some (at p token_numeric (w ++ c ∷ []))
unfolding step in_numeric put
numeric_digit p w c digit room = ground arith

pub range_digit :
    (p : Parser) (w : Bytes) (c : ℕ)
    → is_digit c ≡ true
    → length w < buf_size
    → step (at p token_range w) token_range c ≡ some (at p token_range (w ++ c ∷ []))
unfolding step in_range put
range_digit p w c digit room = ground arith

pub string_char :
    (p : Parser) (w : Bytes) (c : ℕ)
    → (c == b'"') ≡ false
    → length w < buf_size
    → step (at p token_string w) token_string c ≡ some (at p token_string (w ++ c ∷ []))
unfolding step in_string put
string_char p w c plain room = rw (plain, lt→ltb (length w) buf_size room) refl

open_number :
    (p : Parser) (c : ℕ)
    → is_digit c ≡ true
    → length p.tokens < gsm_extrsp_max_tokens
    → step (record p { state = idle }) idle c ≡ some (at p token_numeric (c ∷ []))
unfolding step in_idle
open_number p c digit room = ground arith

-- the collected digits of a number, with whatever follows
pub number_collected :
    (p : Parser) (c : ℕ) (ds rest : Bytes)
    → AllDigits (c ∷ ds)
    → length ds + 1 < buf_size
    → length p.tokens < gsm_extrsp_max_tokens
    → parse_from (record p { state = idle }) (c ∷ (ds ++ rest))
      ≡ parse_from (at p token_numeric (c ∷ ds)) rest
unfolding parse_from
number_collected p c ds rest v fits room = rw (open_number p c v.0 room) (
    collects (λ d. is_digit d ≡ true) p token_numeric (numeric_digit p) (c ∷ []) ds rest v.1
      (omega arith))

-- A field and its comma lead from one idle state to another, with one token more.
abbrev pub Parsed : Parser → Bytes → Bytes → List Token → Type 0
Parsed p text rest tokens =
    (q : Parser) × (q.tokens ≡ p.tokens ++ tokens)
    × (parse_from (record p { state = idle }) (text ++ rest)
        ≡ parse_from (record q { state = idle }) rest)

number_parsed :
    (p : Parser) (c : ℕ) (ds rest : Bytes)
    → AllDigits (c ∷ ds)
    → length ds + 1 < buf_size
    → digits_value 0 (c ∷ ds) < 2 ^ 31
    → length p.tokens < gsm_extrsp_max_tokens
    → Parsed p (c ∷ (ds ++ b',' ∷ [])) rest (numeric (digits_value 0 (c ∷ ds)) ∷ [])
unfolding parse_from step in_numeric
number_parsed p c ds rest v fits int room = (
  record p { tokens = p.tokens ++ numeric (digits_value 0 (c ∷ ds)) ∷ []; buf = c ∷ ds },
  refl,
  ap (λ t. parse_from (record p { state = idle }) (c ∷ t)) (append_assoc ds (b',' ∷ []) rest)
      ∙ number_collected p c ds (b',' ∷ rest) v fits room
      ∙ rw
          (
            lt→ltb (suc (length ds)) buf_size (omega arith),
            lt→ltb (digits_value 0 (c ∷ ds)) (2 ^ 31) int,
          )
          refl,
)

pub take_within : (n : ℕ) (s : Bytes) → length s ≤ n → take n s ≡ s
take_within zero [] fits = refl
take_within zero (c ∷ s) fits = absurd (omega arith)
take_within (suc n) [] fits = refl
take_within (suc n) (c ∷ s) fits = ap (◌∷◌ c) (take_within n s (omega arith))

quoted_parsed :
    (p : Parser) (s rest : Bytes)
    → IsField (quoted s)
    → length p.tokens < gsm_extrsp_max_tokens
    → Parsed p (b'"' ∷ (s ++ b'"' ∷ b',' ∷ [])) rest (string s ∷ [])
unfolding parse_from step in_idle in_string
quoted_parsed p s rest v room = (
  record p { tokens = p.tokens ++ string s ∷ []; buf = s },
  refl,
  rw (append_assoc s (b'"' ∷ b',' ∷ []) rest, lt→ltb (length p.tokens) gsm_extrsp_max_tokens room)
      (collects (λ c. (c == b'"') ≡ false) p token_string (string_char p) [] s (b'"' ∷ b',' ∷ rest)
          v.0 (omega (arith, v.1))
        ∙ rw (lt→ltb (length s) buf_size (omega (arith, v.1)), take_within string_maxlen s v.1)
            refl),
)

span_parsed :
    (p : Parser) (lo hi rest : Bytes)
    → IsField (span lo hi)
    → length p.tokens < gsm_extrsp_max_tokens
    → Parsed p (b'(' ∷ (lo ++ b'-' ∷ (hi ++ b')' ∷ b',' ∷ []))) rest (field_token (span lo hi) ∷ [])
unfolding parse_from step in_idle in_range
span_parsed p lo hi rest v room =
    let opened = record p { state = token_range; items = []; min = 0; buf = [] } in
    let half = record opened { min = digits_value 0 lo } in
    let digits = λ (c : ℕ). is_digit c ≡ true in
    (
      record half {
        tokens = p.tokens ++ field_token (span lo hi) ∷ [];
        items = record { min = digits_value 0 lo; max = digits_value 0 hi } ∷ [];
        min = 0;
        buf = hi;
      },
      refl,
      rw
          (
            append_assoc lo (b'-' ∷ (hi ++ b')' ∷ b',' ∷ [])) rest,
            append_assoc hi (b')' ∷ b',' ∷ []) rest,
            lt→ltb (length p.tokens) gsm_extrsp_max_tokens room,
          )
          (collects digits opened token_range (range_digit opened) [] lo
              (b'-' ∷ (hi ++ (b')' ∷ b',' ∷ rest))) v.0 (omega (arith, v.2))
            ∙ rw (lt→ltb (length lo) buf_size v.2, lt→ltb (digits_value 0 lo) (2 ^ 31) v.4)
                (collects digits half token_range (range_digit half) [] hi (b')' ∷ b',' ∷ rest) v.1
                    (omega (arith, v.3))
                  ∙ rw (lt→ltb (length hi) buf_size v.3, lt→ltb (digits_value 0 hi) (2 ^ 31) v.5)
                      refl)),
    )

pub field_parsed :
    (p : Parser) (f : Field) (rest : Bytes)
    → IsField f
    → length p.tokens < gsm_extrsp_max_tokens
    → Parsed p (field_text f ++ b',' ∷ []) rest (field_token f ∷ [])
unfolding parse_from step in_idle
field_parsed p nothing rest v room = (
  record p { tokens = p.tokens ++ empty ∷ []; buf = [] },
  refl,
  rw (lt→ltb (length p.tokens) gsm_extrsp_max_tokens room) refl,
)
field_parsed p (number c ds) rest v room = number_parsed p c ds rest v.0 v.1 v.2 room
field_parsed p (quoted s) rest v room =
    simp (append_assoc s (b'"' ∷ []) (b',' ∷ [])) (quoted_parsed p s rest v room)
field_parsed p (span lo hi) rest v room =
    simp
      (
        append_assoc lo (b'-' ∷ (hi ++ b')' ∷ [])) (b',' ∷ []),
        append_assoc hi (b')' ∷ []) (b',' ∷ []),
      )
      (span_parsed p lo hi rest v room)
