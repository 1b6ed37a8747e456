-- ===== src/Atcmd/Llparse.antt =====
-- The low-level parser of atcmd.c, which cuts the bytes from the modem into response lines.
-- `llp->cur` is an index into `llp->buf`. The calls of `llp->cb` and `llp->prompt_cb`, neither of
-- which writes the parser, are the trace that `llparse_string` returns.
pub mod Bounds
pub mod Framing
pub mod Faults
use Prim.Native.Nat.{bit_and}
use system_test_suite.Base.{
  ℕ, ◌+◌, Bool, not, ◌&&◌, List, [], ◌∷◌, ◌++◌, ltb, ◌==◌, if◌then◌else◌, Bytes, set, zeros,
}

pub data LlparseState : Type 0 where
  idle idle_cr idle_lf result result_cr result_lf prompt prompt_spc error : LlparseState

abbrev pub llparse_buf_size : ℕ
llparse_buf_size = 1024

abbrev pub lgsm_atcmd_f_extended : ℕ
lgsm_atcmd_f_extended = 0x01

abbrev pub lgsm_atcmd_f_lfcr : ℕ
lgsm_atcmd_f_lfcr = 0x04

pub record Llparser : Type 0 where
  pub state : LlparseState
  pub len : ℕ
  pub flags : ℕ
  pub cur : ℕ
  pub buf : Bytes

-- The return codes of the parser: 0, and -EFBIG.
pub data Rc : Type 0 where
  done efbig : Rc

-- `llp->flags & f`
abbrev pub has_flag : ℕ → ℕ → Bool
has_flag flags f = not (bit_and flags f == 0)

unfoldable pub llparse_append : Llparser → ℕ → Llparser × Rc
llparse_append llp byte =
    if ltb llp.cur llp.len
    then (record llp { cur = llp.cur + 1; buf = set llp.buf llp.cur byte }, done)
    else (llp, efbig)

unfoldable pub llparse_endline : Llparser → Llparser
llparse_endline llp = record llp { cur = 0; state = idle; buf = zeros llparse_buf_size }

abbrev pub to_state : Llparser → LlparseState → Llparser × Rc
to_state llp s = (record llp { state = s }, done)

-- `llp->state = s; ret = llparse_append(llp, byte);`
abbrev pub append_in : Llparser → LlparseState → ℕ → Llparser × Rc
append_in llp s byte = llparse_append (record llp { state = s }) byte

-- `case LLPARSE_STATE_IDLE: case LLPARSE_STATE_PROMPT_SPC:`, compiled without STRICT
unfoldable pub llparse_idle : Llparser → ℕ → Llparser × Rc
llparse_idle llp byte =
    if has_flag llp.flags lgsm_atcmd_f_extended
    then if byte == b'\r'
      then to_state llp idle_cr
      else if byte == b'>'
      then to_state llp prompt
      else append_in llp result byte
    else append_in llp result byte

-- one byte, in the state given
unfoldable pub llparse_in : LlparseState → Llparser → ℕ → Llparser × Rc
unfolding llparse_idle llparse_append llparse_endline
llparse_in idle llp byte = llparse_idle llp byte
llparse_in prompt_spc llp byte = llparse_idle llp byte
llparse_in idle_cr llp byte = to_state llp (if byte == b'\n' then idle_lf else error)
llparse_in idle_lf llp byte =
    if byte == b'\r'
    then to_state llp result_cr
    else if byte == b'>'
    then to_state llp prompt
    else append_in llp result byte
llparse_in result llp byte =
    if byte == b'\r'
    then to_state llp result_cr
    else if has_flag llp.flags lgsm_atcmd_f_lfcr && byte == b'\n'
    then to_state llp result_lf
    else llparse_append llp byte
llparse_in result_cr llp byte = (if byte == b'\n' then llparse_endline llp else llp, done)
llparse_in result_lf llp byte = (if byte == b'\r' then llparse_endline llp else llp, done)
llparse_in prompt llp byte =
    if byte == b' '
    then to_state llp prompt_spc
    else let (q, rc) = llparse_append (llparse_append llp b'>').0 byte in
      (record q { state = result }, rc)
llparse_in error llp byte = (llp, done)

abbrev pub llparse_byte : Llparser → ℕ → Llparser × Rc
llparse_byte llp byte = llparse_in llp.state llp byte

-- A call of `llp->cb` with the buffer and the length, or of `llp->prompt_cb`.
pub data Upcall : Type 0 where
  line : Bytes → ℕ → Upcall
  prompted : Upcall

-- the calls made after a byte, by the state that the byte led to
unfoldable pub upcalls : LlparseState → Llparser → List Upcall
upcalls result_cr llp = line llp.buf llp.cur ∷ []
upcalls prompt_spc llp = prompted ∷ []
upcalls _ llp = []

-- what is left to do after one byte: the rest of the bytes, unless the byte was refused
unfoldable pub after_byte :
    Llparser × Rc → (Llparser → Llparser × List Upcall × Rc) → Llparser × List Upcall × Rc
unfolding upcalls
after_byte (q, efbig) rest = (q, [], efbig)
after_byte (q, done) rest = let (r, out, rc) = rest q in (r, upcalls q.state q ++ out, rc)

-- The bytes of one `read`; a refused byte ends the loop.
unfoldable pub llparse_string : Llparser → Bytes → Llparser × List Upcall × Rc
unfolding after_byte
llparse_string llp [] = (llp, [], done)
llparse_string llp (byte ∷ bytes) = after_byte (llparse_byte llp byte) (λ q. llparse_string q bytes)

-- `llparse_init` and what `atcmd_init` stores in `g->llp`, whose memory starts as zeros.
unfoldable pub llparse_init : ℕ → Llparser
llparse_init flags = record {
  state = idle;
  len = llparse_buf_size;
  flags = flags;
  cur = 0;
  buf = zeros llparse_buf_size;
}
