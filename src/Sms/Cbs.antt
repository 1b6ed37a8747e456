-- ===== src/Sms/Cbs.antt =====
-- `cbs_pdu_to_msg`: a cell broadcast page, GSM 03.41, clause 9.3.
pub mod Page
use Prim.Native.Nat.{bit_and, bit_or}
use system_test_suite.Base.{
  ℕ, ◌-◌, ◌*◌, ◌/◌, not, ◌||◌, Option, some, ◌==◌, if◌then◌else◌, Bytes, get_elem?, slice, ◌>>=◌,
}

abbrev pub cbm_max_pdu_size : ℕ
cbm_max_pdu_size = 88

-- `struct gsmd_cbm`, its `serial` among the fields
pub record Cbm : Type 0 where
  pub scope : ℕ
  pub msg_code : ℕ
  pub update_num : ℕ
  pub msg_id : ℕ
  pub language : ℕ
  pub coding_scheme : ℕ
  pub pages : ℕ
  pub page : ℕ
  pub page_data : Bytes

-- the fields of a page, from its first six octets and the rest
abbrev pub cbm_of : ℕ → ℕ → ℕ → ℕ → ℕ → ℕ → Bytes → Cbm
cbm_of s0 s1 s2 s3 s4 s5 page_data = record {
  scope = bit_and (s0 / 64) 3;
  msg_code = bit_and (bit_or (s0 * 16) (s1 / 16)) 0x3ff;
  update_num = bit_and s1 0xf;
  msg_id = bit_or (s2 * 256) s3;
  language = bit_and s4 0xf;
  coding_scheme = bit_and (s4 / 16) 3 * 4;
  pages = bit_and s5 0xf;
  page = s5 / 16;
  page_data = page_data;
}

unfoldable pub cbs_fields : Bytes → ℕ → Option Cbm
cbs_fields src len = do
  s0 ← get_elem? src 0
  s1 ← get_elem? src 1
  s2 ← get_elem? src 2
  s3 ← get_elem? src 3
  s4 ← get_elem? src 4
  s5 ← get_elem? src 5
  page_data ← slice src 6 (len - 6)
  some (cbm_of s0 s1 s2 s3 s4 s5 page_data)

-- `none` is a read past the end of the octets.
unfoldable pub cbs_pdu_to_msg : Cbm → Bytes → ℕ → ℕ → Option (Cbm × ℕ)
unfolding cbs_fields
cbs_pdu_to_msg dst src pdulen len =
    let read = cbs_fields src len >>= λ m. some (m, 0) in
    if not (len == pdulen) || not (len == cbm_max_pdu_size) then some (dst, 1) else read
