-- ===== src/Atcmd/Mlparse.antt =====
-- The mid-level parser `ml_parse` of atcmd.c, which tells the final results, the information
-- responses and the unsolicited codes of the modem apart. `buf` is the `len` bytes of a line, and
-- the string functions read them up to the first zero. The result is `none` where the source reads
-- past the end of the memory of a command, which a comparison with its text does as well.
pub mod Texts
pub mod Response
pub mod Room
pub mod Total
use mathlib.Core.Option
use system_test_suite.Base.{
  ℕ, zero, suc, ◌+◌, ◌-◌, ◌*◌, ◌%◌, ◌^◌, Bool, true, false, not, ◌&&◌, ◌||◌, Option, none, some,
  List, [], ◌∷◌, ◌++◌, ltb, leb, ◌==◌, if◌then◌else◌, Bytes, codes, length, take, drop, get_elem?,
  ◌>>=◌,
}
use system_test_suite.Base.Int.{ℤ, pos, negsuc}
use system_test_suite.Atcmd.Queue.{
  Callback, no_callback, null_wakeup, callback, Atcmd, Gsmd, Env, cstr, find_char, submit_all,
  call_cb, atcmd_done,
}
use system_test_suite.Atcmd.Mlparse.Texts.{
  strings_equal, starts_with, equal_in, starts_in, has_char, first_char, strtoul, to_int32,
}

abbrev pub mlparse_buf_size : ℕ
mlparse_buf_size = 65535

-- The calls that leave the modelled state as it is.
pub data Report : Type 0 where
  alive_start : Report
  cme_event cms_event : ℤ → Report

-- The state, the return code and the reports.
abbrev pub Parsed : Type 0
Parsed = Gsmd × ℤ × List Report

-- `rc == -errno`
abbrev pub is_error : ℤ → ℕ → Bool
is_error (pos n) errno = false
is_error (negsuc k) errno = k + 1 == errno

abbrev pub enoent : ℕ
enoent = 2

abbrev pub eagain : ℕ
eagain = 11

-- `-EINVAL`
abbrev pub minus_einval : ℤ
minus_einval = negsuc 21

-- `final_cb:`, with what was assigned to `cmd->ret` and the event that is made of it
abbrev with_ret : Option ℤ → Atcmd → Atcmd
with_ret none cmd = cmd
with_ret (some ret) cmd = record cmd { ret = ret }

unfoldable pub final_cb : Env → Gsmd → List Atcmd → Option ℤ → List Report → Bytes → Parsed
final_cb env g [] ret events buf = (g, pos 0, [])
final_cb env g (cmd ∷ rest) ret events buf =
    let cmd' = with_ret ret cmd in
    let (done, rc) = atcmd_done env (record g { busy = cmd' ∷ rest }) cmd' rest buf in
    (done, rc, events)

-- what stands behind the colon
abbrev pub behind : Bytes → Option ℕ → Option Bytes
behind s none = none
behind s (some i) = some (drop (i + 1) s)

-- The line is appended to `mlbuf` as far as there is room, counted in 32 bits.
abbrev pub ml_joined : Bytes → Bytes
ml_joined [] = []
ml_joined (c ∷ mlbuf) = c ∷ (mlbuf ++ b'\n' ∷ [])

unfoldable pub ml_appended : Bytes → Bytes → Bytes
ml_appended mlbuf buf =
    let room = (mlparse_buf_size + 2 ^ 32 - length (ml_joined mlbuf)) % 2 ^ 32 in
    ml_joined mlbuf ++ (if ltb room (length buf) then take room buf else buf)

-- the end for an information response; `rc` is the code so far
unfoldable pub append_info : Env → Gsmd → Bytes → ℤ → Parsed
unfolding ml_appended
append_info env g buf rc =
    let g1 = record g { mlbuf = ml_appended g.mlbuf buf } in
    let (g2, rc2) =
      env.unsolicited g1 g1.mlbuf (behind (cstr g1.mlbuf) (find_char b':' (cstr g1.mlbuf))) in
    if g.mlunsolicited
    then if is_error rc2 eagain
      then (g2, pos 0, [])
      else (record g2 { mlunsolicited = false; mlbuf = [] }, rc2, [])
    else (g1, rc, [])

-- A previous response is sent out. `stale` stands behind `mlbuf` in its memory, up to a zero.
abbrev has_cb : Callback → Bool
has_cb no_callback = false
has_cb null_wakeup = true
has_cb (callback c) = true

abbrev pub is_empty : Bytes → Bool
is_empty [] = true
is_empty (c ∷ s) = false

unfoldable pub flush_mlbuf : Env → Gsmd → Atcmd → Bytes → ℤ → Gsmd × ℤ
flush_mlbuf env g cmd stale rc =
    let (called, rc1) = call_cb env g cmd.cb cmd (g.mlbuf ++ stale) in
    if is_empty g.mlbuf
    then (g, rc)
    else if has_cb cmd.cb
    then (record called { mlbuf = [] }, rc1)
    else (record g { mlbuf = [] }, rc)

-- An extended response for the first busy command; `arg` is `cmd->buf[2]`.
unfoldable pub extended_reply : Env → Gsmd → Atcmd → ℕ → Bytes → Bytes → ℤ → Parsed
unfolding append_info flush_mlbuf has_char
extended_reply env g cmd arg stale buf rc =
    let (flushed, rc1) = flush_mlbuf env g cmd stale rc in
    if not (arg == b'+') && not (has_char g.ext_chars arg)
    then (g, minus_einval, [])
    else append_info env flushed buf rc1

-- The line is offered to the handlers of unsolicited codes; `go_on` is what follows when they do
-- not know it.
unfoldable pub offer : Env → Gsmd → Bytes → ℕ → (Gsmd → ℤ → Parsed) → Parsed
offer env g buf colon go_on =
    let param = if ltb (length buf) (colon + 1) then none else some (drop (colon + 1) (cstr buf)) in
    let (g1, rc) = env.unsolicited g buf param in
    if is_error rc eagain
    then (record g1 { mlbuf = buf; mlunsolicited = true }, pos 0, [])
    else if is_error rc enoent
    then go_on g1 rc
    else (g1, rc, [])

-- The response is compared with the command from its third byte on. That byte is read too: the
-- comparison has read it where it finds a difference, and `extended_reply` reads it else.
unfoldable pub extended_other : Env → Gsmd → List Atcmd → Bytes → Bytes → ℕ → Option Parsed
unfolding offer extended_reply append_info starts_in cstr
extended_other env g [] stale buf colon =
    some (offer env g buf colon (λ g1 rc. append_info env g1 buf rc))
extended_other env g (cmd ∷ rest) stale buf colon = do
  same ← starts_in (take colon (cstr buf)) (drop 2 cmd.buf)
  arg ← get_elem? cmd.buf 2
  if same
      then some (extended_reply env g cmd arg stale buf (pos 0))
      else some (offer env g buf colon (λ g1 rc. extended_reply env g1 cmd arg stale buf rc))

-- an extended response with a colon
unfoldable pub extended_at : Env → Gsmd → Bytes → Bytes → ℕ → Option Parsed
unfolding extended_other final_cb strtoul
extended_at env g stale buf colon =
    let s = cstr buf in
    let err = to_int32 (strtoul (drop (colon + 1) s)) in
    if starts_with (codes "CME ERROR") (drop 1 s)
    then some (final_cb env g g.busy (some err) (cme_event err ∷ []) buf)
    else if starts_with (codes "CMS ERROR") (drop 1 s)
    then some (final_cb env g g.busy (some err) (cms_event err ∷ []) buf)
    else extended_other env g g.busy stale buf colon

unfoldable pub extended : Env → Gsmd → Bytes → Bytes → Option ℕ → Option Parsed
unfolding extended_at
extended env g stale buf none = some (g, minus_einval, [])
extended env g stale buf (some colon) = extended_at env g stale buf colon

-- The lines that are not extended.
pub data PlainKind : Type 0 where
  ring failed fine ended info : PlainKind

unfoldable pub plain_kind : Bool → Bytes → PlainKind
unfolding strings_equal starts_with
plain_kind v0 s =
    if strings_equal s (codes "RING") || (v0 && first_char s == b'2')
    then ring
    else if strings_equal s (codes "ERROR") || (v0 && first_char s == b'4')
    then failed
    else if starts_with (codes "OK") s || (v0 && first_char s == b'0')
    then fine
    else if strings_equal s (codes "NO CARRIER") || (v0 && first_char s == b'3')
    then ended
    else if starts_with (codes "BUSY") s || (v0 && first_char s == b'7')
    then ended
    else info

unfoldable pub plain : Env → Gsmd → Bytes → PlainKind → Parsed
unfolding final_cb append_info
plain env g buf ring = let (g1, rc) = env.unsolicited g buf none in (g1, rc, [])
plain env g buf failed = final_cb env g g.busy (some (pos 4)) [] buf
plain env g buf fine = final_cb env g g.busy (some (pos 0)) [] buf
plain env g buf ended = final_cb env g g.busy none [] buf
plain env g buf info = append_info env g buf (pos 0)

unfoldable pub is_ready : Bytes → Bool
unfolding strings_equal
is_ready s = is_empty s || strings_equal s (codes "AT-Command Interpreter ready")

-- the line against the text of the first busy command
abbrev pub is_echo : List Atcmd → Bytes → Option Bool
is_echo [] s = some false
is_echo (cmd ∷ rest) s = equal_in s cmd.buf

abbrev pub is_extended : Bytes → Bytes → Bool
is_extended ext_chars s = first_char s == b'+' || has_char ext_chars (first_char s)

-- what is no echo of a command
abbrev pub no_echo : Env → Gsmd → Bytes → Bytes → Option Parsed
no_echo env g stale buf =
    let s = cstr buf in
    if is_extended g.ext_chars s
    then extended env g stale buf (find_char b':' s)
    else some (plain env g buf (plain_kind g.flag_v0 s))

unfoldable pub ml_parse : Env → Gsmd → Bytes → Bytes → Option Parsed
unfolding extended plain plain_kind is_ready cstr submit_all equal_in
ml_parse env g stale buf =
    let s = cstr buf in
    if is_ready s
    then some (
      submit_all env (record g { interpreter_ready = true }) env.initsettings,
      pos 0,
      alive_start ∷ [],
    )
    else is_echo g.busy s >>= λ echo. if echo then some (g, pos 0, []) else no_echo env g stale buf

-- Line after line; the low-level parser does not look at the return codes.
unfoldable pub ml_lines : Env → Gsmd → Bytes → List Bytes → Option Gsmd
unfolding ml_parse
ml_lines env g stale [] = some g
ml_lines env g stale (buf ∷ lines) = do
  (g1, rc, reports) ← ml_parse env g stale buf
  ml_lines env g1 stale lines
