-- ===== src/Atcmd/Mlparse/Response.antt =====
-- The response of several lines that a command gets, and the room for it.
use system_test_suite.Base.{
  ℕ, suc, ◌+◌, ◌-◌, ◌%◌, ◌^◌, ◌≤◌, ◌≡◌, refl, ap, ◌∙◌, Bool, true, false, some, List, [], ◌∷◌, ◌++◌,
  append_assoc, append-nil, arith, Bytes, codes, length, length-append, All, le→ltb_false,
}
use system_test_suite.Base.Int.{pos}
use system_test_suite.Atcmd.Queue.{
  callback, Atcmd, Gsmd, Env, cstr, submit_all, call_cb, wake_if_free, atcmd_done,
}
use system_test_suite.Atcmd.Mlparse.Texts.{strings_equal, starts_with, equal_in, has_char}
use system_test_suite.Atcmd.Mlparse.{
  mlparse_buf_size, ml_appended, append_info, final_cb, info, fine, plain_kind, plain, is_ready,
  is_extended, ml_parse, ml_lines,
}

-- the daemon while `cmd` waits for its result and `text` has come in for it
abbrev pub answering : Gsmd → Atcmd → List Atcmd → Bytes → Gsmd
answering g cmd rest text = record g { busy = cmd ∷ rest; mlbuf = text; mlunsolicited = false }

-- A line that is an information response: not extended, no final result, no echo of the command, with
-- which it is compared without reading past its memory.
pub record IsInfo (g : Gsmd) (cmd : Atcmd) (l : Bytes) : Type 0 where
  pub not_ready : is_ready (cstr l) ≡ false
  pub not_echo : equal_in (cstr l) cmd.buf ≡ some false
  pub not_extended : is_extended g.ext_chars (cstr l) ≡ false
  pub kind : plain_kind g.flag_v0 (cstr l) ≡ info

-- The callback of the command does not matter.
IsInfo-cb :
    {g : Gsmd} {cmd : Atcmd} {l : Bytes} (f : ℕ)
    → IsInfo g cmd l
    → IsInfo g (record cmd { cb = callback f }) l
IsInfo-cb f v = record {
  not_ready = v.not_ready;
  not_echo = v.not_echo;
  not_extended = v.not_extended;
  kind = v.kind;
}

All-IsInfo-cb :
    (g : Gsmd) (cmd : Atcmd) (f : ℕ) (lines : List Bytes)
    → All (IsInfo g cmd) lines
    → All (IsInfo g (record cmd { cb = callback f })) lines
All-IsInfo-cb g cmd f [] v = tt
All-IsInfo-cb g cmd f (l ∷ lines) v = (IsInfo-cb f v.0, All-IsInfo-cb g cmd f lines v.1)

-- the lines after the first, each behind a newline
abbrev pub more_lines : List Bytes → Bytes
more_lines [] = []
more_lines (l ∷ lines) = b'\n' ∷ (l ++ more_lines lines)

ml_parse-info :
    (env : Env) (g : Gsmd) (cmd : Atcmd) (rest : List Atcmd) (text stale l : Bytes)
    → IsInfo g cmd l
    → ml_parse env (answering g cmd rest text) stale l
      ≡ some (answering g cmd rest (ml_appended text l), pos 0, [])
unfolding ml_parse plain append_info
ml_parse-info env g cmd rest text stale l v = rw (v.not_ready, v.not_echo, v.not_extended, v.kind)

-- With room a line is appended whole.
ml_appended-more :
    (c : ℕ) (text l : Bytes)
    → length text + length l + 2 ≤ mlparse_buf_size
    → ml_appended (c ∷ text) l ≡ (c ∷ text) ++ b'\n' ∷ l
unfolding ml_appended
ml_appended-more c text l fits =
    let joined = length-append text (b'\n' ∷ []) in
    let room : length l ≤ (mlparse_buf_size + 2 ^ 32 - suc (length (text ++ b'\n' ∷ []))) % 2 ^ 32 =
      omega (arith, joined) in
    rw (le→ltb_false _ (length l) room) (ap (◌∷◌ c) (append_assoc text (b'\n' ∷ []) l))

ml_appended-first : (l : Bytes) → length l ≤ mlparse_buf_size → ml_appended [] l ≡ l
unfolding ml_appended
ml_appended-first l fits = rw (le→ltb_false mlparse_buf_size (length l) fits)

ml_lines-info :
    (env : Env) (g : Gsmd) (cmd : Atcmd) (rest : List Atcmd) (stale : Bytes) (c : ℕ) (text : Bytes)
    (lines later : List Bytes)
    → All (IsInfo g cmd) lines
    → length text + length (more_lines lines) + 1 ≤ mlparse_buf_size
    → ml_lines env (answering g cmd rest (c ∷ text)) stale (lines ++ later)
      ≡ ml_lines env (answering g cmd rest ((c ∷ text) ++ more_lines lines)) stale later
unfolding ml_lines
ml_lines-info env g cmd rest stale c text [] later v fits = rw (append-nil text)
ml_lines-info env g cmd rest stale c text (l ∷ lines) later v fits =
    let size = length-append l (more_lines lines) in
    rw
      (
        ml_parse-info env g cmd rest (c ∷ text) stale l v.0,
        ml_appended-more c text l (omega (arith, size)),
      )
      (ml_lines-info env g cmd rest stale c (text ++ b'\n' ∷ l) lines later v.1
          (omega (arith, size, length-append text (b'\n' ∷ l)))
        ∙ ap (λ t. ml_lines env (answering g cmd rest (c ∷ t)) stale later)
            (append_assoc text (b'\n' ∷ l) (more_lines lines)))

-- A command whose callback is the function `f`, with the return code 0.
abbrev pub asked : Atcmd → ℕ → Atcmd
asked cmd f = record cmd { ret = pos 0; cb = callback f }

-- the end of a command whose callback was given `text`
abbrev pub answered : Env → Gsmd → Atcmd → List Atcmd → ℕ → Bytes → Gsmd
answered env g cmd rest f text =
    let told =
      submit_all env (answering g (asked cmd f) rest text) (env.callbacks f (asked cmd f) text).0 in
    wake_if_free (record told { mlbuf = []; busy = rest })

ok_kind : (v0 : Bool) → plain_kind v0 (codes "OK") ≡ fine
unfolding plain_kind strings_equal starts_with
ok_kind true = refl
ok_kind false = refl

ml_parse-ok :
    (env : Env) (g : Gsmd) (cmd : Atcmd) (rest : List Atcmd) (f c : ℕ) (text stale : Bytes)
    → equal_in (codes "OK") cmd.buf ≡ some false
    → has_char g.ext_chars b'O' ≡ false
    → ml_parse env (answering g (record cmd { cb = callback f }) rest (c ∷ text)) stale (codes "OK")
      ≡ some
          (answered env g cmd rest f (c ∷ text), (env.callbacks f (asked cmd f) (c ∷ text)).1, [])
unfolding ml_parse plain plain_kind is_ready final_cb atcmd_done call_cb cstr strings_equal
    starts_with equal_in
ml_parse-ok env g cmd rest f c text stale not_echo not_ext =
    rw (not_echo, not_ext, ok_kind g.flag_v0) refl

-- While a command with a callback waits, nothing has come in for it and no unsolicited code waits
-- to be continued, lines of information followed by `OK` end it: the callback is called once, with
-- the command, whose return code is 0, and the lines, joined by newlines, and what it submits is
-- submitted; the buffer is empty again and the command is gone from the busy ones. The lines are information
-- responses of at most 65535 bytes together, newlines counted, the first is not empty,
-- comparing `OK` with the text of the command reads only its memory and finds a difference, and
-- `O` opens no extended response.
pub ml_lines-response :
    (env : Env) (g : Gsmd) (cmd : Atcmd) (rest : List Atcmd) (f c : ℕ) (l stale : Bytes)
    (lines : List Bytes)
    → All (IsInfo g cmd) ((c ∷ l) ∷ lines)
    → length l + length (more_lines lines) + 1 ≤ mlparse_buf_size
    → equal_in (codes "OK") cmd.buf ≡ some false
    → has_char g.ext_chars b'O' ≡ false
    → ml_lines env
        (answering g (record cmd { cb = callback f }) rest [])
        stale
        ((c ∷ l) ∷ (lines ++ codes "OK" ∷ []))
      ≡ some (answered env g cmd rest f ((c ∷ l) ++ more_lines lines))
unfolding ml_lines
ml_lines-response env g cmd rest f c l stale lines v fits not_echo not_ext =
    let waits = record cmd { cb = callback f } in
    rw
      (
        ml_parse-info env g waits rest [] stale (c ∷ l) (IsInfo-cb f v.0),
        ml_appended-first (c ∷ l) (omega arith),
      )
      (ml_lines-info env g waits rest stale c l lines (codes "OK" ∷ [])
          (All-IsInfo-cb g cmd f lines v.1) fits
        ∙ rw (ml_parse-ok env g cmd rest f c (l ++ more_lines lines) stale not_echo not_ext) refl)
