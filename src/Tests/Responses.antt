-- ===== src/Tests/Responses.antt =====
-- Extended responses: the operators of AT+COPS and a list in parentheses.
use system_test_suite.Base.{◌≡◌, refl, true, some, List, [], ◌∷◌, map, arith, codes}
use system_test_suite.Atcmd.Mlparse.Texts.{digits_value}
use system_test_suite.Extrsp.{extrsp_parse}
use system_test_suite.Extrsp.Fields.{Field, nothing, number, quoted, span, IsWritten, field_token}
use system_test_suite.Extrsp.Responses.{extrsp_parse-fields_text}

-- `0,"Sonera",,(0-3),`
abbrev operator_fields : List Field
operator_fields = quoted (codes "Sonera") ∷ nothing ∷ span (codes "0") (codes "3") ∷ []

sonera-IsWritten : IsWritten (quoted (codes "Sonera"))
sonera-IsWritten = (
  ((refl, (refl, (refl, (refl, (refl, (refl, tt)))))), omega arith),
  (refl, (refl, (refl, (refl, (refl, (refl, tt)))))),
)

extrsp_parse-fields_text_example :
    extrsp_parse true (codes "0,\"Sonera\",,(0-3),")
    ≡ some (some (map field_token (number b'0' [] ∷ operator_fields)))
unfolding digits_value
extrsp_parse-fields_text_example =
    extrsp_parse-fields_text (number b'0' []) operator_fields
      (
        ((refl, tt), omega arith, omega arith),
        (
          sonera-IsWritten,
          (tt, (((refl, tt), (refl, tt), omega arith, omega arith, omega arith, omega arith), tt)),
        ),
      )
      (omega arith)
