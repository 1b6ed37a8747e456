-- ===== src/Sms/Cbs/Page.antt =====
-- When a cell broadcast page is taken, and what is read for it.
use system_test_suite.Base.{
  ℕ, ◌-◌, ◌≤◌, ◌≡◌, ◌≢◌, ◌⊎◌, inl, inr, refl, not, ◌||◌, some, ◌==◌, Bytes, length, get_elem?_total,
  slice_total, arith, Bool-cases,
}
use system_test_suite.Sms.Cbs.{Cbm, cbm_of, cbm_max_pdu_size, cbs_fields, cbs_pdu_to_msg}

cbs_fields_total :
    (src : Bytes) (len : ℕ)
    → 6 ≤ len
    → len ≤ length src
    → (m : Cbm) × (cbs_fields src len ≡ some m) × (length m.page_data ≡ len - 6)
unfolding cbs_fields
cbs_fields_total src len six inside =
    let (s0, e0) = get_elem?_total src 0 (omega arith) in
    let (s1, e1) = get_elem?_total src 1 (omega arith) in
    let (s2, e2) = get_elem?_total src 2 (omega arith) in
    let (s3, e3) = get_elem?_total src 3 (omega arith) in
    let (s4, e4) = get_elem?_total src 4 (omega arith) in
    let (s5, e5) = get_elem?_total src 5 (omega arith) in
    let (page, e, size) = slice_total src 6 (len - 6) (omega arith) in
    (cbm_of s0 s1 s2 s3 s4 s5 page, rw (e0, e1, e2, e3, e4, e5, e) refl, size)

-- Of octets of which `len` are there, the decoder reads none outside. It refuses with code 1 and leaves
-- the message as it was, unless both lengths are 88; then it returns 0 and stores 82 octets of page.
pub cbs_pdu_to_msg_total :
    (dst : Cbm) (src : Bytes) (pdulen len : ℕ)
    → len ≤ length src
    → ((cbs_pdu_to_msg dst src pdulen len ≡ some (dst, 1))
        × ((len ≢ pdulen) ⊎ (len ≢ cbm_max_pdu_size)))
      ⊎ ((m : Cbm) × (cbs_pdu_to_msg dst src pdulen len ≡ some (m, 0))
          × (len ≡ pdulen)
          × (len ≡ cbm_max_pdu_size)
          × (length m.page_data ≡ 82))
unfolding cbs_pdu_to_msg
cbs_pdu_to_msg_total dst src pdulen len inside =
    elim (Bool-cases (not (len == pdulen) || not (len == cbm_max_pdu_size))) [
      | inl refused ↦ inl (rw refused refl, ground (arith, refused))
      | inr taken ↦
          let size : len ≡ 88 = ground (arith, taken) in
          let (m, read, page) = cbs_fields_total src len (omega (arith, size)) inside in
          inr (m, rw (taken, read) refl, ground (arith, taken), size, omega (arith, page, size))
    ]
