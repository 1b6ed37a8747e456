-- ===== src/Atcmd/Mlparse/Room.antt =====
-- How far the buffer of a response fills, and a read past a command.
use system_test_suite.Base.{
  ℕ, ◌+◌, ◌-◌, ◌%◌, ◌^◌, ◌≤◌, ◌<◌, ◌≡◌, refl, false, none, some, List, [], ◌∷◌, arith, Bytes, codes,
  length, take, length-append, length-take,
}
use system_test_suite.Base.Int.{ℤ}
use system_test_suite.Atcmd.Queue.{
  Atcmd, Gsmd, Env, cstr, find_char, wakeup_cmd, new_atcmd, atcmd_text,
}
use system_test_suite.Atcmd.Mlparse.Texts.{strings_equal, starts_with, equal_in, starts_in}
use system_test_suite.Atcmd.Mlparse.{
  mlparse_buf_size, ml_joined, ml_appended, append_info, extended_other, extended_at, extended,
  is_ready, ml_parse,
}

length-ml_joined :
    (mlbuf : Bytes) → length mlbuf ≤ mlparse_buf_size → length (ml_joined mlbuf) ≤ length mlbuf + 1
length-ml_joined [] h = omega arith
length-ml_joined (c ∷ mlbuf) h = omega (arith, length-append mlbuf (b'\n' ∷ []))

-- When no unsolicited code waits to be continued, appending a line of information to a buffer
-- that is not full keeps it within its 65535 bytes: what does not fit is cut off.
pub append_info-Fits :
    (env : Env) (g : Gsmd) (buf : Bytes) (rc : ℤ)
    → g.mlunsolicited ≡ false
    → length g.mlbuf < mlparse_buf_size
    → length (append_info env g buf rc).0.mlbuf ≤ mlparse_buf_size
unfolding append_info ml_appended
append_info-Fits env g buf rc alone room =
    let joined = ml_joined g.mlbuf in
    simp alone (
      ground (
        arith,
        length-ml_joined g.mlbuf,
        length-append joined buf,
        length-append joined (take ((mlparse_buf_size + 2 ^ 32 - length joined) % 2 ^ 32) buf),
        length-take ((mlparse_buf_size + 2 ^ 32 - length joined) % 2 ^ 32) buf,
      ))

full-ml_joined :
    (mlbuf : Bytes)
    → length mlbuf ≡ mlparse_buf_size
    → length (ml_joined mlbuf) ≡ mlparse_buf_size + 1
full-ml_joined [] full = absurd (omega arith)
full-ml_joined (c ∷ mlbuf) full = omega (arith, length-append mlbuf (b'\n' ∷ []))

-- When no unsolicited code waits to be continued, a full buffer is written past its end by a line
-- of less than 2^32 - 1 bytes: the newline takes one byte more than there is, the room computed
-- wraps around, and the whole line is appended behind it.
append_info-overflow :
    (env : Env) (g : Gsmd) (buf : Bytes) (rc : ℤ)
    → g.mlunsolicited ≡ false
    → length g.mlbuf ≡ mlparse_buf_size
    → length buf < 2 ^ 32 - 1
    → length (append_info env g buf rc).0.mlbuf ≡ mlparse_buf_size + 1 + length buf
unfolding append_info ml_appended
append_info-overflow env g buf rc alone full short =
    simp alone (ground (arith, full-ml_joined g.mlbuf full, length-append (ml_joined g.mlbuf) buf))

-- While the wake-up is the first busy command, a line that begins with `+`, has a colon and is no
-- CME or CMS error makes the parser read past the two bytes of the wake-up.
ml_parse-wakeup_outside :
    (env : Env) (g : Gsmd) (rest : List Atcmd) (stale l : Bytes) (colon : ℕ)
    → find_char b':' (cstr l) ≡ some colon
    → starts_with (codes "CME ERROR") (cstr l) ≡ false
    → starts_with (codes "CMS ERROR") (cstr l) ≡ false
    → ml_parse env (record g { busy = wakeup_cmd ∷ rest }) stale (b'+' ∷ l) ≡ none
unfolding ml_parse is_ready strings_equal extended extended_at extended_other wakeup_cmd equal_in
    starts_in new_atcmd atcmd_text cstr find_char
ml_parse-wakeup_outside env g rest stale l colon found no_cme no_cms =
    rw (found, no_cme, no_cms) refl
