-- ===== src/Atcmd/Queue/Liveness.antt =====
-- The queues with a modem that takes each line, asks for the next line and answers each command.
use system_test_suite.Base.{
  ℕ, zero, suc, ◌+◌, ◌-◌, ◌<◌, ◌≤◌, ◌^◌, ◌%◌, ◌≡◌, refl, ap, ap₂, ◌∙◌, Bool, true, false, not, ◌||◌,
  Option, none, some, List, [], ◌∷◌, ◌++◌, All, if◌then◌else◌, Bytes, codes, take, drop, arith,
  ◌==◌, ==_iff, le→ltb_false, ne→==,
}
use system_test_suite.Base.Int.{pos}
use system_test_suite.Atcmd.Queue.{
  Callback, no_callback, null_wakeup, callback, Atcmd, Gsmd, Env, atcmd_done, call_cb, submit_all,
  llist_empty, line_len, cstr, find_char, has_line, advance, settled, written, write_first,
  write_pending, final_resp, clear_mlbuf, wake_if_free,
}
use system_test_suite.Atcmd.Queue.Order.{ids, Event, final, writable, prompted, handle}

-- the end of the next line of a command
abbrev pub line_end : Atcmd → Option ℕ
line_end cmd = find_char b'\n' (cstr (drop cmd.cur cmd.buf))

-- what is offered to `write`
abbrev pub offered : List Atcmd → ℕ
offered [] = 0
offered (cmd ∷ rest) = line_len (line_end cmd) cmd

abbrev reply : List Atcmd → Event
reply [] = prompted
reply (cmd ∷ rest) = final (codes "OK")

-- The UART is written to only if the daemon asks for it (`gfd_uart.when`), and then takes the line
-- whole; otherwise the modem answers the command that runs, or asks for the next line.
unfoldable pub next_event : Gsmd → Event
next_event g = if g.wants_write then writable (pos (offered g.pending)) else reply g.busy

unfoldable pub turns : Env → Gsmd → ℕ → Gsmd × List ℕ
unfolding handle next_event
turns env g zero = (g, [])
turns env g (suc n) =
    let (g', left) = handle env g (next_event g) in
    let (last, later) = turns env g' n in (last, left ++ later)

-- What is left of a command is a sequence of lines, none of them empty, and fits the `unsigned int`.
pub data HasLines : Atcmd → Type 0 where
  last_line :
      {cmd : Atcmd} (n : ℕ)
      → line_end cmd ≡ none
      → cmd.buflen ≡ suc (suc n)
      → cmd.buflen < 2 ^ 32
      → HasLines cmd
  line :
      {cmd : Atcmd} (n : ℕ)
      → line_end cmd ≡ some (suc n)
      → suc (suc n) < cmd.buflen
      → cmd.buflen < 2 ^ 32
      → HasLines (record cmd { buflen = cmd.buflen - suc (suc n); cur = cmd.cur + suc (suc n) })
      → HasLines cmd

-- two turns a line: it is sent, and it is answered
abbrev pub line_turns : {cmd : Atcmd} → HasLines cmd → ℕ
line_turns (last_line n e l b) = 2
line_turns (line n e l b more) = suc (suc (line_turns more))

abbrev pub all_turns : (cmds : List Atcmd) → All HasLines cmds → ℕ
all_turns [] none_left = 0
all_turns (cmd ∷ cmds) (l, ls) = line_turns l + all_turns cmds ls

at : Gsmd → List Atcmd → List Atcmd → Bool → Gsmd
at g pending busy wants = record g {
  interpreter_ready = true;
  pending = pending;
  busy = busy;
  wants_write = wants;
}

part_taken : (b n : ℕ) → n ≤ b → b < 2 ^ 32 → (b + 2 ^ 32 - n) % 2 ^ 32 ≡ b - n
part_taken b n m h = omega arith

abbrev sent : Atcmd → ℕ → Atcmd
sent cmd n = record cmd { buflen = cmd.buflen - n; cur = cmd.cur + n }

eq→== : (a b : ℕ) → a ≡ b → (a == b) ≡ true
eq→== a b e = (==_iff a b).1 e

advance_line :
    (cr : Option ℕ) (cmd : Atcmd) (n : ℕ)
    → line_len cr cmd ≡ suc n
    → suc (suc n) ≤ cmd.buflen
    → cmd.buflen < 2 ^ 32
    → advance cr cmd (suc n) ≡ (sent cmd (suc (suc n)), suc (suc n))
unfolding advance
advance_line cr cmd n whole m b =
    let taken : (if not (has_line cr) || suc n == line_len cr cmd then suc n + 1 else suc n)
        ≡ suc (suc n) =
      ground arith in
    ap₂ (λ l r. (record cmd { buflen = l; cur = cmd.cur + r }, r))
      (ap (λ r. (cmd.buflen + 2 ^ 32 - r) % 2 ^ 32) taken ∙ part_taken cmd.buflen (suc (suc n)) m b)
      taken

written_last :
    (g : Gsmd) (cmd : Atcmd) (rest : List Atcmd) (n : ℕ)
    → cmd.buflen ≡ suc (suc n)
    → cmd.buflen < 2 ^ 32
    → (written g cmd rest none (suc n)).0 ≡ record g {
      pending = rest;
      busy = g.busy ++ sent cmd (suc (suc n)) ∷ [];
      wants_write = false;
    }
unfolding written
written_last g cmd rest n e b =
    let out = take (suc n) (drop cmd.cur cmd.buf) ++ b'\r' ∷ [] in
    ap (λ a. (settled g rest (cmd.buflen - 1) out a).0)
      (advance_line none cmd n (omega (arith, e)) (omega (arith, e)) b)
    ∙ rw (eq→== (cmd.buflen - suc (suc n)) 0 (omega (arith, e))) refl

written_line :
    (g : Gsmd) (cmd : Atcmd) (rest : List Atcmd) (n : ℕ)
    → suc (suc n) < cmd.buflen
    → cmd.buflen < 2 ^ 32
    → (written g cmd rest (some (suc n)) (suc n)).0
      ≡ record g { pending = sent cmd (suc (suc n)) ∷ rest; wants_write = false }
unfolding written
written_line g cmd rest n m b =
    let out = take (suc n) (drop cmd.cur cmd.buf) ++ b'\r' ∷ [] in
    ap (λ a. (settled g rest (suc n) out a).0)
      (advance_line (some (suc n)) cmd n refl (omega arith) b)
    ∙ rw
        (
          ne→== (cmd.buflen - suc (suc n)) 0 (λ z. omega (arith, z)),
          le→ltb_false (suc (suc n)) (suc n) (omega arith),
        )
        refl

wake_up :
    (g : Gsmd) (rest : List Atcmd)
    → wake_if_free (at g rest [] false) ≡ at g rest [] (not (llist_empty rest))
unfolding at
wake_up g [] = refl
wake_up g (cmd ∷ rest) = refl

abbrev IsQuiet : Env → Type 0
IsQuiet env = (c : ℕ) (cmd : Atcmd) (resp : Bytes) → (env.callbacks c cmd resp).0 ≡ []

after_cb :
    (env : Env)
    → IsQuiet env
    → (g : Gsmd) (cb : Callback) (cmd : Atcmd) (resp : Bytes) (rest busy : List Atcmd)
    → (g' : Gsmd) × (clear_mlbuf cb (call_cb env (at g rest busy false) cb cmd resp).0
        ≡ at g' rest busy false)
unfolding call_cb at
after_cb env quiet g no_callback cmd resp rest busy = (g, refl)
after_cb env quiet g null_wakeup cmd resp rest busy =
    (record g { wakeup_timer = none; mlbuf = [] }, refl)
after_cb env quiet g (callback c) cmd resp rest busy = (
  record g { mlbuf = [] },
  ap (λ cmds. clear_mlbuf (callback c) (submit_all env (at g rest busy false) cmds))
      (quiet c cmd resp),
)

answered :
    (env : Env)
    → IsQuiet env
    → (g : Gsmd) (cmd : Atcmd) (rest : List Atcmd)
    → (g' : Gsmd) × (handle env (at g rest (cmd ∷ []) false) (final (codes "OK"))
        ≡ (at g' rest [] (not (llist_empty rest)), cmd.id ∷ []))
unfolding handle atcmd_done at
answered env quiet g cmd rest =
    let (g', e) =
      after_cb env quiet g cmd.cb cmd (final_resp g.mlbuf (codes "OK")) rest (cmd ∷ []) in
    (
      g',
      ap (λ h. (wake_if_free (record h { busy = [] }), cmd.id ∷ [])) e
          ∙ ap (λ h. (h, cmd.id ∷ [])) (wake_up g' rest),
    )

-- a turn in which the daemon writes the line in front of `cr`
write_turn :
    (env : Env) (g h : Gsmd) (cmd : Atcmd) (rest : List Atcmd) (cr : Option ℕ) (n : ℕ)
    → line_end cmd ≡ cr
    → line_len cr cmd ≡ suc n
    → (written (at g (cmd ∷ rest) [] true) cmd rest cr (suc n)).0 ≡ h
    → handle env (at g (cmd ∷ rest) [] true) (next_event (at g (cmd ∷ rest) [] true)) ≡ (h, [])
unfolding handle next_event write_pending write_first at
write_turn env g h cmd rest cr n e l w =
    let here = at g (cmd ∷ rest) [] true in
    ap (λ r. ((write_pending here (pos r)).0, [])) (ap (λ c. line_len c cmd) e ∙ l)
    ∙ ap (λ c. ((written here cmd rest c (suc n)).0, [])) e
    ∙ ap (λ k. (k, [])) w

abbrev prepend : List ℕ → Gsmd × List ℕ → Gsmd × List ℕ
prepend left (last, later) = (last, left ++ later)

-- a turn, and then the others
turns-suc :
    (env : Env) (g h : Gsmd) (left : List ℕ) (n : ℕ)
    → handle env g (next_event g) ≡ (h, left)
    → turns env g (suc n) ≡ prepend left (turns env h n)
unfolding turns
turns-suc env g h left n e = ap (λ (k, l). prepend l (turns env k n)) e

two_turns :
    (env : Env) (g h k : Gsmd) (left : List ℕ) (t n : ℕ)
    → t ≡ suc (suc n)
    → handle env g (next_event g) ≡ (h, [])
    → handle env h (next_event h) ≡ (k, left)
    → turns env g t ≡ prepend left (turns env k n)
two_turns env g h k left t n e first second =
    ap (turns env g) e ∙ turns-suc env g h [] (suc n) first ∙ turns-suc env h k left n second

drain_first :
    (env : Env)
    → IsQuiet env
    → (g : Gsmd) (cmd : Atcmd) (rest : List Atcmd) (l : HasLines cmd) (n : ℕ)
    → (g' : Gsmd) × (turns env (at g (cmd ∷ rest) [] true) (line_turns l + n)
        ≡ prepend (cmd.id ∷ []) (turns env (at g' rest [] (not (llist_empty rest))) n))
unfolding at next_event handle
drain_first env quiet g cmd rest (last_line m e l b) n =
    let here = at g (cmd ∷ rest) [] true in
    let busy = at g rest (sent cmd (suc (suc m)) ∷ []) false in
    let (g', done) = answered env quiet g (sent cmd (suc (suc m))) rest in
    let written_now : handle env here (next_event here) ≡ (busy, []) =
      write_turn env g busy cmd rest none m e (omega (arith, l))
        (written_last here cmd rest m l b) in
    (
      g',
      two_turns env here busy (at g' rest [] (not (llist_empty rest))) (cmd.id ∷ []) (2 + n) n
          (omega arith) written_now done,
    )
drain_first env quiet g cmd rest (line m e l b more) n =
    let here = at g (cmd ∷ rest) [] true in
    let waits = at g (sent cmd (suc (suc m)) ∷ rest) [] false in
    let next = at g (sent cmd (suc (suc m)) ∷ rest) [] true in
    let (g', later) = drain_first env quiet g (sent cmd (suc (suc m))) rest more n in
    let written_now : handle env here (next_event here) ≡ (waits, []) =
      write_turn env g waits cmd rest (some (suc m)) m e refl (written_line here cmd rest m l b) in
    (
      g',
      two_turns env here waits next [] (suc (suc (line_turns more)) + n) (line_turns more + n)
            (omega arith) written_now refl
          ∙ later,
    )

drain :
    (env : Env)
    → IsQuiet env
    → (g : Gsmd) (cmds : List Atcmd) (ls : All HasLines cmds)
    → (g' : Gsmd) × (turns env (at g cmds [] (not (llist_empty cmds))) (all_turns cmds ls)
        ≡ (at g' [] [] false, ids cmds))
unfolding turns
drain env quiet g [] none_left = (g, refl)
drain env quiet g (cmd ∷ cmds) (l, ls) =
    let (h, first) = drain_first env quiet g cmd cmds l (all_turns cmds ls) in
    let (g', others) = drain env quiet h cmds ls in (g', first ∙ ap (prepend (cmd.id ∷ [])) others)

-- A modem that takes each line whole, asks for the next line of a command and answers each command
-- empties the queues: if no command runs, the modem is ready, the daemon asks to write, every
-- pending command consists of lines that are not empty and the callbacks submit nothing, then
-- after two turns for each line nothing is pending or running, and the pending commands have been
-- answered in their order. The daemon is written to and read from only as it asks for.
pub turns-ids :
    (env : Env) (g : Gsmd) (lines : All HasLines g.pending)
    → IsQuiet env
    → g.interpreter_ready ≡ true
    → g.busy ≡ []
    → g.wants_write ≡ not (llist_empty g.pending)
    → let (last, left) = turns env g (all_turns g.pending lines) in
      (last.pending ≡ []) × (last.busy ≡ []) × (left ≡ ids g.pending)
unfolding at
turns-ids env g lines quiet ready free asks =
    let here : g ≡ at g g.pending [] (not (llist_empty g.pending)) =
      λ i. record g { interpreter_ready = ready i; busy = free i; wants_write = asks i } in
    let (g', e) = drain env quiet g g.pending lines in
    let all = ap (λ h. turns env h (all_turns g.pending lines)) here ∙ e in
    (ap (λ r. r.0.pending) all, ap (λ r. r.0.busy) all, ap (λ r. r.1) all)
