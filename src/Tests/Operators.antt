-- ===== src/Tests/Operators.antt =====
-- The cache of operator names with two operators.
use system_test_suite.Base.{
  ◌+◌, ◌-◌, ◌*◌, ◌≡◌, refl, arith, true, ◌&&◌, some, [], ◌∷◌, ◌==◌, if◌then◌else◌, codes, take,
}
use system_test_suite.OperatorCache.{Opname, done, opname_add}
use system_test_suite.OperatorCache.Entries.{lookup, lookup-opname_add}
use system_test_suite.Events.Opnames.{copn_parse, copn_parse-opname_add}

abbrev nordic : Opname
nordic = record { mcc = 244; mnc = 91; alnum_long = codes "Sone" }

abbrev western : Opname
western = record { mcc = 262; mnc = 1; alnum_long = codes "T-Mo" }

lookup-opname_add_example : lookup 244 91 (opname_add (nordic ∷ western ∷ []) western) ≡ (
    if western.mcc == 244 && western.mnc == 91
    then some western
    else lookup 244 91 (nordic ∷ western ∷ []))
lookup-opname_add_example = lookup-opname_add (nordic ∷ western ∷ []) western 244 91

copn_parse-opname_add_example :
    copn_parse true true [] (codes "\"24491\",\"Sonera\"")
    ≡ some (
      opname_add [] (record {
        mcc = (b'2' - b'0') * 100 + (b'4' - b'0') * 10 + (b'4' - b'0');
        mnc = (b'9' - b'0') * 10 + (b'1' - b'0');
        alnum_long = take 4 (codes "Sonera");
      }),
      done,
    )
copn_parse-opname_add_example =
    copn_parse-opname_add [] b'2' b'4' b'4' b'9' b'1' (codes "Sonera") refl refl refl refl refl
      (refl, (refl, (refl, (refl, (refl, (refl, tt)))))) (omega arith)
