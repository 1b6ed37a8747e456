-- ===== src/Atcmd/Llparse/Faults.antt =====
-- The inputs that the low-level parser does not recover from, or answers twice or not at all.
use system_test_suite.Base.{
  ℕ, ◌+◌, ◌≤◌, ◌≡◌, ◌≢◌, refl, ap, ◌∙◌, true, [], ◌∷◌, ◌++◌, arith, Bytes, length, All, map, ne→==,
}
use system_test_suite.Atcmd.Llparse.{
  result, result_cr, error, done, efbig, llparse_buf_size, lgsm_atcmd_f_extended, lgsm_atcmd_f_lfcr,
  has_flag, llparse_in, line, after_byte, llparse_string, llparse_init,
}
use system_test_suite.Atcmd.Llparse.Bounds.{filled, parser, append-full, init-parser}
use system_test_suite.Atcmd.Llparse.Framing.{
  payload_byte, string_payload, string_first, IsLine, string-open, tell, idle_rest,
}

string-error :
    (flags : ℕ) (w bytes : Bytes)
    → llparse_string (parser flags error w) bytes ≡ (parser flags error w, [], done)
unfolding llparse_string llparse_in
string-error flags w [] = refl
string-error flags w (b ∷ bytes) = ap (λ t. (t.0, t.1, t.2)) (string-error flags w bytes)

-- With extended parsing on, a carriage return with another byte than a line feed behind it, in
-- front of a line, stops the parser for good: every byte that follows is taken, nothing is
-- delivered any more, and the state stays the error state.
llparse_string-lone_cr :
    (flags b : ℕ) (bytes : Bytes)
    → has_flag flags lgsm_atcmd_f_extended ≡ true
    → b ≢ b'\n'
    → llparse_string (llparse_init flags) (b'\r' ∷ b ∷ bytes) ≡ (parser flags error [], [], done)
unfolding llparse_string llparse_in llparse_init
llparse_string-lone_cr flags b bytes ext ne =
    rw ext (rw (ne→== b b'\n' ne) (string-error flags [] bytes))

-- Behind a carriage return that ends a line, each byte other than a line feed delivers the same
-- line once more.
llparse_string-cr_again :
    (flags : ℕ) (w bytes : Bytes)
    → All (λ b. b ≢ b'\n') bytes
    → llparse_string (parser flags result_cr w) bytes
      ≡ (parser flags result_cr w, map (λ _. line (filled w) (length w)) bytes, done)
unfolding llparse_string llparse_in
llparse_string-cr_again flags w [] v = refl
llparse_string-cr_again flags w (b ∷ bytes) v =
    rw (ne→== b b'\n' v.0)
      (ap (tell (line (filled w) (length w))) (llparse_string-cr_again flags w bytes v.1))

-- With LFCR accepted as a line end, a line of payload bytes that fits the buffer and ends so is
-- never delivered: the buffer is cleared and no callback is made.
llparse_string-lfcr_lost :
    (flags : ℕ) (w l : Bytes)
    → has_flag flags lgsm_atcmd_f_lfcr ≡ true
    → All (λ b. payload_byte flags b ≡ true) l
    → length w + length l ≤ llparse_buf_size
    → llparse_string (parser flags result w) (l ++ (b'\n' ∷ b'\r' ∷ []))
      ≡ (llparse_init flags, [], done)
unfolding llparse_string llparse_in llparse_init
llparse_string-lfcr_lost flags w l lfcr p fits = string_payload flags w l _ p fits ∙ rw lfcr

byte_full :
    (flags : ℕ) (w : Bytes) (b : ℕ)
    → payload_byte flags b ≡ true
    → length w ≡ llparse_buf_size
    → llparse_in result (parser flags result w) b ≡ (parser flags result w, efbig)
unfolding llparse_in
byte_full flags w b p full = ground (arith, append-full flags result w b full)

-- With extended parsing on, a response longer than the buffer is refused, with -EFBIG, at the
-- first byte that does not fit. Nothing has been delivered then, the 1024 bytes before stay in
-- the buffer, and what follows in the same read is dropped.
llparse_string-efbig :
    (flags : ℕ) (l : Bytes) (b : ℕ) (rest : Bytes)
    → has_flag flags lgsm_atcmd_f_extended ≡ true
    → IsLine flags l
    → length l ≡ llparse_buf_size
    → payload_byte flags b ≡ true
    → llparse_string (llparse_init flags) (b'\r' ∷ b'\n' ∷ (l ++ b ∷ rest))
      ≡ (parser flags result l, [], efbig)
unfolding llparse_string
llparse_string-efbig flags [] b rest ext v full q = absurd (omega arith)
llparse_string-efbig flags (x ∷ l) b rest ext v full q = rw init-parser (
    string-open flags (x ∷ (l ++ b ∷ rest)) ext idle_rest
    ∙ string_first flags x (l ++ b ∷ rest) v.payload.0 v.starts
    ∙ string_payload flags (x ∷ []) l (b ∷ rest) v.payload.1 (omega arith)
    ∙ ap (λ t. after_byte t (λ p. llparse_string p rest)) (byte_full flags (x ∷ l) b q full))
