-- ===== src/Atcmd/Llparse/Bounds.antt =====
-- What the buffer of the low-level parser holds, and that it is never written past its end.
use system_test_suite.Base.{
  ℕ, ◌+◌, ◌-◌, ◌≤◌, ◌<◌, ◌≡◌, refl, sym, ap, ap₂, ◌∙◌, [], ◌∷◌, ◌++◌, append_assoc, List, arith,
  Bytes, length, set, zeros, length-append, length-set, length-zeros, zeros-pred, set-append,
  lt→ltb,
}
use system_test_suite.Atcmd.Llparse.{
  LlparseState, idle, prompt, Llparser, Rc, done, efbig, llparse_buf_size, llparse_append,
  llparse_in, Upcall, after_byte, llparse_string, llparse_init,
}

-- The buffer with the bytes `w` written: zeros stand behind them.
abbrev pub filled : Bytes → Bytes
filled w = w ++ zeros (llparse_buf_size - length w)

-- The parser in a state, with the bytes `w` collected.
abbrev pub parser : ℕ → LlparseState → Bytes → Llparser
parser flags s w = record {
  state = s;
  len = llparse_buf_size;
  flags = flags;
  cur = length w;
  buf = filled w;
}

set-filled :
    (w : Bytes) (b : ℕ)
    → length w < llparse_buf_size
    → set (filled w) (length w) b ≡ filled (w ++ b ∷ [])
set-filled w b h =
    let one_less : llparse_buf_size - length w - 1 ≡ llparse_buf_size - length (w ++ b ∷ []) =
      omega (arith, length-append w (b ∷ [])) in
    ap (λ r. set (w ++ r) (length w) b) (zeros-pred (llparse_buf_size - length w) (omega arith))
    ∙ set-append w _ 0 b
    ∙ ap (λ k. w ++ b ∷ zeros k) one_less
    ∙ sym (append_assoc w (b ∷ []) _)

-- With room left a byte is stored behind those collected.
pub append-parser :
    (flags : ℕ) (s : LlparseState) (w : Bytes) (b : ℕ)
    → length w < llparse_buf_size
    → llparse_append (parser flags s w) b ≡ (parser flags s (w ++ b ∷ []), done)
unfolding llparse_append
append-parser flags s w b room =
    let count : length w + 1 ≡ length (w ++ b ∷ []) = omega (arith, length-append w (b ∷ [])) in
    rw (lt→ltb (length w) llparse_buf_size room) (
      ap₂
        (λ u k.
          (record { state = s; len = llparse_buf_size; flags = flags; cur = k; buf = u }, done))
        (set-filled w b room) count)

-- With none left it is refused, and nothing is written.
pub append-full :
    (flags : ℕ) (s : LlparseState) (w : Bytes) (b : ℕ)
    → length w ≡ llparse_buf_size
    → llparse_append (parser flags s w) b ≡ (parser flags s w, efbig)
unfolding llparse_append
append-full flags s w b full = ground arith

-- No byte is written outside the buffer: the cursor stays in it, and its size stays.
pub record InBounds (llp : Llparser) : Type 0 where
  pub len_is : llp.len ≡ llparse_buf_size
  pub size_is : length llp.buf ≡ llparse_buf_size
  pub cur_le : llp.cur ≤ llparse_buf_size

append-InBounds : (llp : Llparser) (b : ℕ) → InBounds llp → InBounds (llparse_append llp b).0
unfolding llparse_append
append-InBounds llp b v = ground (arith, length-set llp.buf llp.cur b)

byte-InBounds :
    (s : LlparseState) (llp : Llparser) (b : ℕ) → InBounds llp → InBounds (llparse_in s llp b).0
unfolding llparse_in
byte-InBounds prompt llp b v =
    let once = append-InBounds llp b'>' v in
    ground (arith, append-InBounds (llparse_append llp b'>').0 b once)
byte-InBounds _ llp b v =
    ground (arith, length-set llp.buf llp.cur b, length-zeros llparse_buf_size)

after_byte_inv :
    (P : Llparser → Type 0) (qr : Llparser × Rc) (rest : Llparser → Llparser × List Upcall × Rc)
    → P qr.0
    → ((q : Llparser) → P q → P (rest q).0)
    → P (after_byte qr rest).0
unfolding after_byte
after_byte_inv P (q, efbig) rest h keep = h
after_byte_inv P (q, done) rest h keep = keep q h

-- Whatever the modem sends, in whatever state the parser is, every write falls into the buffer:
-- the buffer keeps its size and the cursor never passes its end.
pub llparse_string-InBounds :
    (llp : Llparser) (bytes : Bytes) → InBounds llp → InBounds (llparse_string llp bytes).0
unfolding llparse_string
llparse_string-InBounds llp [] v = v
llparse_string-InBounds llp (b ∷ bytes) v =
    after_byte_inv InBounds (llparse_in llp.state llp b) (λ q. llparse_string q bytes)
      (byte-InBounds llp.state llp b v) (λ q w. llparse_string-InBounds q bytes w)

pub llparse_init-InBounds : (flags : ℕ) → InBounds (llparse_init flags)
unfolding llparse_init
llparse_init-InBounds flags = record {
  len_is = refl;
  size_is = length-zeros llparse_buf_size;
  cur_le = omega arith;
}

pub init-parser : (flags : ℕ) → llparse_init flags ≡ parser flags idle []
unfolding llparse_init
init-parser flags = refl
