-- ===== src/Events/Opnames.antt =====
-- The handler of the modem's names of operators, `copn_parse` of
-- gta02-dm1/user_space/gsm/src/gsmd/unsolicited.c, which puts the parser of responses and the cache of
-- operators together. The flags say whether the allocations of the parser and of the cache succeed.
use system_test_suite.Base.{
  ℕ, ◌+◌, ◌-◌, ◌*◌, ◌≤◌, ◌<◌, ◌≡◌, refl, ap, ◌∙◌, Bool, true, false, Option, none, some, List, [],
  ◌∷◌, ◌++◌, arith, Bytes, ◌==◌, lt→ltb, All, length, take, ◌>>=◌,
}
use system_test_suite.OperatorCache.{
  Opname, Rc, done, enomem, opname_add, gsmd_opname_add, is_digit,
}
use system_test_suite.OperatorCache.Names.{gsmd_opname_add_digits}
use system_test_suite.Extrsp.{
  Token, string, gsm_extrsp_max_tokens, buf_size, string_maxlen, idle, token_string,
  token_string_lastquote, Parser, step, in_idle, in_string, parse_from, start, extrsp_parse,
}
use system_test_suite.Extrsp.Fields.{
  quoted, IsField, field_text, fields_text, collects, string_char, take_within,
}
use system_test_suite.Extrsp.Responses.{fields_parsed, parse_returns, fields_some}

abbrev pub name_added : Bool → List Opname → List Token → List Opname × Rc
name_added cached operators (string numeric ∷ string name ∷ []) =
    gsmd_opname_add cached operators numeric name
name_added cached operators tokens = (operators, done)

-- The result is `none` where the parser leaves its arrays.
unfoldable pub copn_parse : Bool → Bool → List Opname → Bytes → Option (List Opname × Rc)
copn_parse parsed cached operators param = do
  er ← extrsp_parse parsed param
  some (elim er [ none ↦ (operators, enomem) | some tokens ↦ name_added cached operators tokens ])

-- a text in quotation marks at the end of a response
last_quoted :
    (p : Parser) (s : Bytes)
    → IsField (quoted s)
    → length p.tokens < gsm_extrsp_max_tokens
    → (q : Parser) × (parse_from (record p { state = idle }) (field_text (quoted s)) ≡ some q)
      × (q.tokens ≡ p.tokens ++ string s ∷ [])
unfolding parse_from step in_idle in_string
last_quoted p s v room = (
  record p { state = token_string_lastquote; tokens = p.tokens ++ string s ∷ []; buf = s },
  rw (lt→ltb (length p.tokens) gsm_extrsp_max_tokens room) (
      collects (λ c. (c == b'"') ≡ false) p token_string (string_char p) [] s (b'"' ∷ []) v.0
        (omega (arith, v.1))
      ∙ rw (lt→ltb (length s) buf_size (omega (arith, v.1)), take_within string_maxlen s v.1) refl),
  refl,
)

-- a digit is no quotation mark
digit_plain : (c : ℕ) → is_digit c ≡ true → (c == b'"') ≡ false
digit_plain c h = ground arith

extrsp_parse-two_quoted :
    (s t : Bytes)
    → IsField (quoted s)
    → IsField (quoted t)
    → extrsp_parse true (fields_text (quoted s ∷ []) ++ field_text (quoted t))
      ≡ some (some (string s ∷ string t ∷ []))
extrsp_parse-two_quoted s t v w =
    let last = field_text (quoted t) in
    let (q, tokens, parsed) = fields_parsed start (quoted s ∷ []) last (v, tt) (omega arith) in
    let size : length q.tokens ≡ 1 = ap length tokens in
    let (r, ended, all) = last_quoted q t w (omega (arith, size)) in
    parse_returns (fields_text (quoted s ∷ []) ++ last) r (fields_some (quoted s) [] last)
      (parsed ∙ ended)
    ∙ ap (λ l. some (some l)) (all ∙ ap (λ l. l ++ string t ∷ []) tokens)

-- The modem's line with a numeric code of five digits and a name of at most 63 characters with no
-- quotation mark, both in quotation marks, adds an entry to the cache: the first three digits as the
-- country code, the other two as the network code, and of the name the first four bytes, no more.
pub copn_parse-opname_add :
    (operators : List Opname) (a b c d e : ℕ) (name : Bytes)
    → is_digit a ≡ true
    → is_digit b ≡ true
    → is_digit c ≡ true
    → is_digit d ≡ true
    → is_digit e ≡ true
    → All (λ x. (x == b'"') ≡ false) name
    → length name ≤ string_maxlen
    → copn_parse true true operators
        (fields_text (quoted (a ∷ b ∷ c ∷ d ∷ e ∷ []) ∷ []) ++ field_text (quoted name))
      ≡ some (
        opname_add operators (record {
          mcc = (a - b'0') * 100 + (b - b'0') * 10 + (c - b'0');
          mnc = (d - b'0') * 10 + (e - b'0');
          alnum_long = take 4 name;
        }),
        done,
      )
unfolding copn_parse
copn_parse-opname_add operators a b c d e name ha hb hc hd he plain fits =
    let digits : All (λ x. (x == b'"') ≡ false) (a ∷ b ∷ c ∷ d ∷ e ∷ []) = (
      digit_plain a ha,
      (digit_plain b hb, (digit_plain c hc, (digit_plain d hd, (digit_plain e he, tt)))),
    ) in
    rw (extrsp_parse-two_quoted (a ∷ b ∷ c ∷ d ∷ e ∷ []) name (digits, omega arith) (plain, fits))
      (ap some (gsmd_opname_add_digits operators a b c d e name ha hb hc hd he))
