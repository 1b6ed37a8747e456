-- ===== src/Extrsp/Responses.antt =====
-- Whole responses: which fields they are parsed into, and which are lost.
use system_test_suite.Base.{
  ℕ, suc, ◌+◌, ◌^◌, ◌≤◌, ◌<◌, ◌≡◌, refl, sym, ap, ◌∙◌, true, some, List, [], ◌∷◌, ◌++◌,
  append_assoc, append-nil, map, arith, Bytes, length, length-append, All, lt→ltb,
}
use system_test_suite.Atcmd.Mlparse.Texts.{is_digit, digits_value}
use system_test_suite.Extrsp.{
  gsm_extrsp_max_tokens, buf_size, range, idle, token_range, token_string_lastquote, Parser, step,
  in_idle, in_range, parse_from, start, extrsp_parse,
}
use system_test_suite.Extrsp.Fields.{
  Field, AllDigits, IsField, IsWritten, IsWritten-IsField, field_text, field_token, fields_text, at,
  collects, number_collected, range_digit, Parsed, field_parsed,
}

pub fields_parsed :
    (p : Parser) (fields : List Field) (rest : Bytes)
    → All IsField fields
    → length p.tokens + length fields ≤ gsm_extrsp_max_tokens
    → Parsed p (fields_text fields) rest (map field_token fields)
fields_parsed p [] rest v room = (p, sym (append-nil p.tokens), refl)
fields_parsed p (f ∷ fields) rest v room =
    let (q, tokens, first) = field_parsed p f (fields_text fields ++ rest) v.0 (omega arith) in
    let size : length q.tokens ≡ length p.tokens + 1 =
      ap length tokens ∙ omega (arith, length-append p.tokens (field_token f ∷ [])) in
    let (last, all, later) = fields_parsed q fields rest v.1 (omega (arith, size)) in
    (
      last,
      all
          ∙ ap (λ l. l ++ map field_token fields) tokens
          ∙ append_assoc p.tokens (field_token f ∷ []) (map field_token fields),
      ap (parse_from (record p { state = idle })) (
            append_assoc (field_text f) (b',' ∷ fields_text fields) rest
            ∙ sym (append_assoc (field_text f) (b',' ∷ []) (fields_text fields ++ rest)))
          ∙ first
          ∙ later,
    )

-- what the call returns for a text that is not empty
pub parse_returns :
    (input : Bytes) (q : Parser)
    → 0 < length input
    → parse_from start input ≡ some q
    → extrsp_parse true input ≡ some (some q.tokens)
unfolding extrsp_parse
parse_returns [] q some_text e = absurd (omega arith)
parse_returns (c ∷ input) q some_text e = rw e refl

pub fields_some :
    (f : Field) (fields : List Field) (rest : Bytes) → 0 < length (fields_text (f ∷ fields) ++ rest)
fields_some f fields rest = omega (
  arith,
  length-append (fields_text (f ∷ fields)) rest,
  length-append (field_text f) (b',' ∷ fields_text fields),
)

written_fields : (fields : List Field) → All IsWritten fields → All IsField fields
written_fields [] none_left = tt
written_fields (f ∷ fields) (v, w) = (IsWritten-IsField f v, written_fields fields w)

-- A response of 1 to 16 fields, each with a comma behind it, is parsed into the tokens of its fields, in
-- order, with no access past an array. A field is empty, a number of at most 511 digits below 2^31, a
-- text in quotation marks of at most 63 characters, none of them a quotation mark or zero, or one
-- range in parentheses with both ends such numbers.
pub extrsp_parse-fields_text :
    (f : Field) (fields : List Field)
    → All IsWritten (f ∷ fields)
    → length (f ∷ fields) ≤ gsm_extrsp_max_tokens
    → extrsp_parse true (fields_text (f ∷ fields)) ≡ some (some (map field_token (f ∷ fields)))
unfolding parse_from
extrsp_parse-fields_text f fields v room =
    let (q, tokens, parsed) =
      fields_parsed start (f ∷ fields) [] (written_fields (f ∷ fields) v) (omega arith) in
    let text : fields_text (f ∷ fields) ++ [] ≡ fields_text (f ∷ fields) =
      append-nil (fields_text (f ∷ fields)) in
    ap (extrsp_parse true) (sym text)
    ∙ parse_returns (fields_text (f ∷ fields) ++ []) (record q { state = idle })
        (fields_some f fields []) parsed
    ∙ ap (λ l. some (some l)) tokens

length-field_tokens : (fields : List Field) → length (map field_token fields) ≡ length fields
length-field_tokens [] = refl
length-field_tokens (f ∷ fields) = ap suc (length-field_tokens fields)

-- A number of at most 511 digits at the end of a response, behind 1 to 15 fields with commas and
-- with no comma behind it, is not among the tokens.
extrsp_parse-last_number :
    (f : Field) (fields : List Field) (c : ℕ) (ds : Bytes)
    → All IsField (f ∷ fields)
    → length (f ∷ fields) < gsm_extrsp_max_tokens
    → AllDigits (c ∷ ds)
    → length ds + 1 < buf_size
    → extrsp_parse true (fields_text (f ∷ fields) ++ c ∷ ds)
      ≡ some (some (map field_token (f ∷ fields)))
unfolding parse_from
extrsp_parse-last_number f fields c ds v room digits fits =
    let (q, tokens, parsed) = fields_parsed start (f ∷ fields) (c ∷ ds) v (omega arith) in
    let size : length q.tokens ≡ length (f ∷ fields) =
      ap length tokens ∙ omega (arith, length-field_tokens (f ∷ fields)) in
    parse_returns (fields_text (f ∷ fields) ++ c ∷ ds) (at q _ (c ∷ ds))
      (fields_some f fields (c ∷ ds))
      (parsed
        ∙ ap (λ t. parse_from (record q { state = idle }) (c ∷ t)) (sym (append-nil ds))
        ∙ number_collected q c ds [] digits fits (omega (arith, size)))
    ∙ ap (λ l. some (some l)) tokens

-- A list of two numbers in parentheses, of less than 512 digits together, is read wrong where
-- the numbers that are read fit an `int`: each
-- becomes a range that begins with 0, and the digits of the second stand behind those of the
-- first.
extrsp_parse-number_list :
    (lo hi : Bytes)
    → AllDigits lo
    → AllDigits hi
    → length lo + length hi < buf_size
    → digits_value 0 lo < 2 ^ 31
    → digits_value 0 (lo ++ hi) < 2 ^ 31
    → extrsp_parse true (b'(' ∷ (lo ++ b',' ∷ (hi ++ b')' ∷ [])))
      ≡ some (
          some (
            range (
              record { min = 0; max = digits_value 0 lo }
              ∷ record { min = 0; max = digits_value 0 (lo ++ hi) }
              ∷ [])
            ∷ []))
unfolding parse_from step in_idle in_range
extrsp_parse-number_list lo hi v w fits int both =
    let opened = record start { state = token_range } in
    let half = record opened { items = record { min = 0; max = digits_value 0 lo } ∷ [] } in
    let digits = λ (c : ℕ). is_digit c ≡ true in
    let read = record half {
      state = token_string_lastquote;
      tokens = range (half.items ++ record { min = 0; max = digits_value 0 (lo ++ hi) } ∷ []) ∷ [];
      items = half.items ++ record { min = 0; max = digits_value 0 (lo ++ hi) } ∷ [];
      buf = lo ++ hi;
    } in
    parse_returns (b'(' ∷ (lo ++ b',' ∷ (hi ++ b')' ∷ []))) read (omega arith) (
      collects digits opened token_range (range_digit opened) [] lo (b',' ∷ (hi ++ b')' ∷ [])) v
        (omega arith)
      ∙ rw (lt→ltb (length lo) buf_size (omega arith), lt→ltb (digits_value 0 lo) (2 ^ 31) int)
          (collects digits half token_range (range_digit half) lo hi (b')' ∷ []) w (omega arith)
            ∙ rw
                (
                  lt→ltb (length (lo ++ hi)) buf_size (omega (arith, length-append lo hi)),
                  lt→ltb (digits_value 0 (lo ++ hi)) (2 ^ 31) both,
                )
                refl))
