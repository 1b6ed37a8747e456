-- ===== src/Sms/Ucs2.antt =====
-- What becomes of messages in the UCS2 alphabet.
use system_test_suite.Base.{
  ℕ, ◌-◌, ◌≤◌, ◌<◌, ◌≡◌, refl, ap, ◌∙◌, Bool, true, false, ◌||◌, not, arith, ◌==◌, Option, none,
  some, [], ◌∷◌, ◌++◌, Bytes, length, take, drop_at, slice-cons, slice-take, take-append,
  length-append, sym, slice,
}
use system_test_suite.Base.Bits.{passes, passes_below}
use system_test_suite.Sms.Types.{SmsList}
use system_test_suite.Sms.Dcs.{sms_alphabet_ucs2, sms_pdu_decode_dcs}
use system_test_suite.Sms.Address.{sms_data_bytelen}
use system_test_suite.Sms.Pdu.{coding_scheme, voicemail_marks, user_data, deliver_body}

abbrev is_eight : Option ℕ → Bool
is_eight none = false
is_eight (some scheme) = scheme == 8

is_eight_lem : (o : Option ℕ) → is_eight o ≡ true → o ≡ some 8
is_eight_lem none h = cc
is_eight_lem (some scheme) h = ground arith

ucs2_table :
    passes
      (λ b.
        not ((sms_pdu_decode_dcs b).alphabet == sms_alphabet_ucs2) || is_eight (coding_scheme b))
      0
      64
    ≡ true
unfolding passes sms_pdu_decode_dcs coding_scheme
ucs2_table = refl

-- the general data coding octets whose alphabet is UCS2 give the coding scheme 8
coding_scheme_ucs2 :
    (dcs : ℕ)
    → dcs < 64
    → (sms_pdu_decode_dcs dcs).alphabet ≡ sms_alphabet_ucs2
    → coding_scheme dcs ≡ some 8
coding_scheme_ucs2 dcs h named =
    let listed = passes_below _ 64 dcs ucs2_table h in
    is_eight_lem (coding_scheme dcs) (ground (arith, listed))

stamp_there :
    (pid dcs : ℕ) (stamp rest : Bytes)
    → length stamp ≡ 7
    → slice (pid ∷ dcs ∷ (stamp ++ rest)) 2 7 ≡ some stamp
stamp_there pid dcs stamp rest seven =
    slice-cons pid (dcs ∷ (stamp ++ rest)) 1 7
    ∙ slice-cons dcs (stamp ++ rest) 0 7
    ∙ slice-take (stamp ++ rest) 7 (omega (arith, length-append stamp rest))
    ∙ ap (λ n. some (take n (stamp ++ rest))) (sym seven)
    ∙ ap some (take-append stamp rest)

user_data-eight :
    (dst : SmsList) (udl len : ℕ) (ud : Bytes)
    → dst.payload.coding_scheme ≡ 8
    → 1 ≤ len
    → user_data dst (udl ∷ ud) len
      ≡ some (record dst { payload = record dst.payload { length = udl; payload_data = [] } }, 0)
unfolding user_data sms_data_bytelen slice
user_data-eight dst udl len ud eight room = ground arith

-- An SMS-DELIVER whose data coding octet is of the general group and names the alphabet UCS2 is
-- accepted, with its length stored, and none of its user data: the coding scheme is decoded as 8,
-- for which `sms_data_bytelen` knows no length.
deliver_body-ucs2_lost :
    (dst : SmsList) (pid dcs udl len : ℕ) (stamp ud : Bytes)
    → dcs < 64
    → (sms_pdu_decode_dcs dcs).alphabet ≡ sms_alphabet_ucs2
    → length stamp ≡ 7
    → 10 ≤ len
    → (m : SmsList) × (deliver_body dst (pid ∷ dcs ∷ (stamp ++ udl ∷ ud)) len ≡ some (m, 0))
      × (m.payload.length ≡ udl)
      × (m.payload.payload_data ≡ [])
unfolding deliver_body
deliver_body-ucs2_lost dst pid dcs udl len stamp ud h named seven room =
    let marked = voicemail_marks dst.payload pid dcs in
    let stamped : SmsList = record dst {
      time_stamp = stamp;
      payload = record marked { coding_scheme = 8 };
    } in
    (
      record stamped { payload = record stamped.payload { length = udl; payload_data = [] } },
      rw
          (
            coding_scheme_ucs2 dcs h named,
            stamp_there pid dcs stamp (udl ∷ ud) seven,
            drop_at stamp (udl ∷ ud) {i = 7} (omega arith),
          )
          (user_data-eight stamped udl (len - 9) ud refl (omega arith)),
      refl,
      refl,
    )
