-- ===== src/Atcmd/Uart.antt =====
-- The reading half of `atcmd_select_cb`: what comes in over the UART goes through the low-level parser,
-- whose calls go to `ml_parse` and `atcmd_prompt`. `stale` stands behind `mlbuf` in its memory.
use mathlib.Core.Option
use system_test_suite.Base.{
  ℕ, ◌+◌, ◌≡◌, ◌<◌, ◌≤◌, refl, sym, ap, ◌∙◌, true, false, Option, none, some, List, [], ◌∷◌, ◌++◌,
  map, Bytes, codes, length, take, take-append, zeros, ◌-◌, All, ltb, lt→ltb, if◌then◌else◌, ◌>>=◌,
}
use system_test_suite.Atcmd.Llparse.{
  Llparser, Rc, done, efbig, idle, Upcall, line, prompted, llparse_buf_size, llparse_string,
  llparse_init, has_flag, lgsm_atcmd_f_extended,
}
use system_test_suite.Atcmd.Llparse.Bounds.{parser}
use system_test_suite.Atcmd.Llparse.Framing.{
  then_string, llparse_string-append, IsLine, reply, IsItem, frames, told, rest_state,
  llparse_string-frames,
}
use system_test_suite.Atcmd.Queue.{Atcmd, Gsmd, Env, callback, atcmd_prompt}
use system_test_suite.Atcmd.Mlparse.{Parsed, mlparse_buf_size, ml_parse, ml_lines}
use system_test_suite.Atcmd.Mlparse.Texts.{equal_in, has_char}
use system_test_suite.Atcmd.Mlparse.Response.{
  answering, answered, IsInfo, more_lines, ml_lines-response,
}

-- One call of the parser. A line that fills the buffer has no zero behind it, and is read past its
-- end: `none`.
unfoldable pub upcall : Env → Bytes → Gsmd → Upcall → Option Gsmd
unfolding ml_parse
upcall env stale g (line buf len) =
    if ltb len llparse_buf_size
    then Option.map (λ p. p.0) (ml_parse env g stale (take len buf))
    else none
upcall env stale g prompted = some (atcmd_prompt g)

unfoldable pub upcalls_run : Env → Bytes → Gsmd → List Upcall → Option Gsmd
unfolding upcall
upcalls_run env stale g [] = some g
upcalls_run env stale g (u ∷ us) = upcall env stale g u >>= λ g1. upcalls_run env stale g1 us

-- the daemon, its parser and the code of the parser
abbrev pub Received : Type 0
Received = Gsmd × Llparser × Rc

-- the calls that the parser made, and the parser after them
abbrev run_calls : Env → Bytes → Gsmd → Llparser × List Upcall × Rc → Option Received
run_calls env stale g (q, out, rc) = Option.map (λ g1. (g1, q, rc)) (upcalls_run env stale g out)

-- the bytes of one `read`
unfoldable pub received : Env → Bytes → Gsmd → Llparser → Bytes → Option Received
unfolding upcalls_run llparse_string
received env stale g llp bytes = run_calls env stale g (llparse_string llp bytes)

-- the loop goes on unless the parser refused a byte
abbrev pub go_on : (Gsmd → Llparser → Option Received) → Received → Option Received
go_on more (g, q, done) = more g q
go_on more (g, q, efbig) = some (g, q, efbig)

-- the reads, until there is nothing more to read
unfoldable pub uart_readable : Env → Bytes → Gsmd → Llparser → List Bytes → Option Received
unfolding received
uart_readable env stale g llp [] = some (g, llp, done)
uart_readable env stale g llp (bytes ∷ reads) =
    received env stale g llp bytes >>= go_on (λ g1 q. uart_readable env stale g1 q reads)

abbrev pub joined : List Bytes → Bytes
joined [] = []
joined (bytes ∷ reads) = bytes ++ joined reads

upcalls_run-append :
    (env : Env) (stale : Bytes) (g : Gsmd) (out later : List Upcall)
    → upcalls_run env stale g (out ++ later)
      ≡ (upcalls_run env stale g out >>= λ g1. upcalls_run env stale g1 later)
unfolding upcalls_run
upcalls_run-append env stale g [] later = refl
upcalls_run-append env stale g (u ∷ out) later =
    after_call (upcall env stale g u) (λ g1. upcalls_run-append env stale g1 out later)
  where
    after_call :
        (o : Option Gsmd)
        → ((g1 : Gsmd)
            → upcalls_run env stale g1 (out ++ later)
              ≡ (upcalls_run env stale g1 out >>= λ g2. upcalls_run env stale g2 later))
        → (o >>= λ g1. upcalls_run env stale g1 (out ++ later))
          ≡ ((o >>= λ g1. upcalls_run env stale g1 out) >>= λ g2. upcalls_run env stale g2 later)
    after_call none h = refl
    after_call (some g1) h = h g1

received-append :
    (env : Env) (stale : Bytes) (g : Gsmd) (llp : Llparser) (a b : Bytes)
    → received env stale g llp (a ++ b)
      ≡ (received env stale g llp a >>= go_on (λ g1 q. received env stale g1 q b))
unfolding received
received-append env stale g llp a b =
    ap (run_calls env stale g) (llparse_string-append llp a b) ∙ two_reads (llparse_string llp a)
  where
    stopped :
        (q : Llparser) (o : Option Gsmd)
        → Option.map (λ g1. (g1, q, efbig)) o
          ≡ (Option.map (λ g1. (g1, q, efbig)) o >>= go_on (λ g1 q1. received env stale g1 q1 b))
    stopped q none = refl
    stopped q (some g1) = refl

    went_on :
        (q : Llparser) (o : Option Gsmd)
        → Option.map
            (λ g1. (g1, (llparse_string q b).0, (llparse_string q b).2))
            (o >>= λ g1. upcalls_run env stale g1 (llparse_string q b).1)
          ≡ (Option.map (λ g1. (g1, q, done)) o >>= go_on (λ g1 q1. received env stale g1 q1 b))
    went_on q none = refl
    went_on q (some g1) = refl

    two_reads :
        (t : Llparser × List Upcall × Rc)
        → run_calls env stale g (then_string t b)
          ≡ (run_calls env stale g t >>= go_on (λ g1 q. received env stale g1 q b))
    two_reads (q, out, efbig) = stopped q (upcalls_run env stale g out)
    two_reads (q, out, done) =
        ap (Option.map (λ g1. (g1, (llparse_string q b).0, (llparse_string q b).2)))
          (upcalls_run-append env stale g out (llparse_string q b).1)
        ∙ went_on q (upcalls_run env stale g out)

-- However the bytes that come in are cut into reads, the daemon, its parser and the code of the parser
-- end as if one read had brought them all.
pub uart_readable-joined :
    (env : Env) (stale : Bytes) (g : Gsmd) (llp : Llparser) (reads : List Bytes)
    → uart_readable env stale g llp reads ≡ received env stale g llp (joined reads)
unfolding uart_readable received
uart_readable-joined env stale g llp [] = refl
uart_readable-joined env stale g llp (bytes ∷ reads) =
    (λ i.
      received env stale g llp bytes
      >>= go_on (λ g1 q. uart_readable-joined env stale g1 q reads i))
    ∙ sym (received-append env stale g llp bytes (joined reads))

-- The lines of the trace are parsed one after the other.
upcalls_run-lines :
    (env : Env) (stale : Bytes) (g : Gsmd) (lines : List Bytes)
    → All (λ l. length l < llparse_buf_size) lines
    → upcalls_run env stale g (map told (map reply lines)) ≡ ml_lines env g stale lines
unfolding upcalls_run upcall ml_lines
upcalls_run-lines env stale g [] v = refl
upcalls_run-lines env stale g (l ∷ lines) v =
    rw (lt→ltb (length l) llparse_buf_size v.0, take-append l (zeros (llparse_buf_size - length l)))
      (parsed (ml_parse env g stale l) (λ g1. upcalls_run-lines env stale g1 lines v.1))
  where
    parsed :
        (o : Option Parsed)
        → ((g1 : Gsmd)
            → upcalls_run env stale g1 (map told (map reply lines)) ≡ ml_lines env g1 stale lines)
        → (Option.map (λ p. p.0) o >>= λ g1. upcalls_run env stale g1 (map told (map reply lines)))
          ≡ (o >>= λ p. ml_lines env p.0 stale lines)
    parsed none h = refl
    parsed (some p) h = h p.0

rest_state-replies : (lines : List Bytes) → rest_state idle (map reply lines) ≡ idle
rest_state-replies [] = refl
rest_state-replies (l ∷ lines) = rest_state-replies lines

replies-IsItem :
    (flags : ℕ) (lines : List Bytes)
    → All (IsLine flags) lines
    → All (IsItem flags) (map reply lines)
replies-IsItem flags [] v = tt
replies-IsItem flags (l ∷ lines) v = (v.0, replies-IsItem flags lines v.1)

-- From the bytes of the modem to the answer of a command: while a command with a callback waits,
-- nothing has come in for it and the parser is as `atcmd_init` leaves it, lines of
-- information followed by `OK`, each between <CR><LF> and <CR><LF> and cut into reads in any way, end
-- the command: its callback is called once, with the command, whose return code is 0, and the lines,
-- joined by newlines, and the parser rests. The lines are shorter than 1024 bytes, at most 65535 together with
-- their newlines, hold payload bytes only and are information responses; the first is not empty,
-- comparing `OK` with the text of the command reads only its memory and finds a difference, `O` opens
-- no extended response, and extended parsing is on.
pub uart_readable-response :
    (env : Env) (flags : ℕ) (g : Gsmd) (cmd : Atcmd) (rest : List Atcmd) (f c : ℕ) (l stale : Bytes)
    (lines reads : List Bytes)
    → let all = (c ∷ l) ∷ (lines ++ codes "OK" ∷ []) in
      joined reads ≡ frames (map reply all)
      → has_flag flags lgsm_atcmd_f_extended ≡ true
      → All (IsLine flags) all
      → All (λ k. length k < llparse_buf_size) all
      → All (IsInfo g cmd) ((c ∷ l) ∷ lines)
      → length l + length (more_lines lines) + 1 ≤ mlparse_buf_size
      → equal_in (codes "OK") cmd.buf ≡ some false
      → has_char g.ext_chars b'O' ≡ false
      → uart_readable env stale
          (answering g (record cmd { cb = callback f }) rest [])
          (llparse_init flags)
          reads
        ≡ some (answered env g cmd rest f ((c ∷ l) ++ more_lines lines), parser flags idle [], done)
unfolding received
uart_readable-response env flags g cmd rest f c l stale lines reads bytes ext whole short infos fits
      not_echo not_ext =
    let all = (c ∷ l) ∷ (lines ++ codes "OK" ∷ []) in
    let waits = answering g (record cmd { cb = callback f }) rest [] in
    uart_readable-joined env stale waits (llparse_init flags) reads
    ∙ ap (received env stale waits (llparse_init flags)) bytes
    ∙ ap (run_calls env stale waits)
        (llparse_string-frames flags (map reply all) ext (replies-IsItem flags all whole))
    ∙ ap (λ s. run_calls env stale waits (parser flags s [], map told (map reply all), done))
        (rest_state-replies all)
    ∙ ap (Option.map (λ g1. (g1, parser flags idle [], done))) (
        upcalls_run-lines env stale waits all short
        ∙ ml_lines-response env g cmd rest f c l stale lines infos fits not_echo not_ext)
