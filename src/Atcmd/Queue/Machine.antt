-- ===== src/Atcmd/Queue/Machine.antt =====
-- The queues as the abstract machine of Moves: every request makes its moves.
use system_test_suite.Base.{
  ℕ, ◌≡◌, refl, sym, ap, Bool, true, false, List, [], ◌∷◌, ◌++◌, Bytes, ◌==◌, if◌then◌else◌,
  Bool-cases, inl, inr, codes, Option, none, ltb, drop, zero, suc,
}
use system_test_suite.Base.Int.{ℤ, pos, negsuc}
use system_test_suite.Atcmd.Queue.{
  Atcmd, Gsmd, Env, is_timer, drop_wakeup, wakeup_timeout, advance, written, write_first,
  write_pending, final_resp, starts_blank, line_len, cstr, find_char, cancel_busy, cancel_atcmd,
}
use system_test_suite.Atcmd.Queue.Order.{
  ids, Event, submitted, final, writable, timed_out, prompted, done_first, dropped, handle,
  ids-append,
}
use system_test_suite.Atcmd.Queue.Moves.{
  view, state, Input, urgent, Moves, stay, urge, launch, finish, Moves-trans, stay_at, starts_at,
  entered, called, submit-Moves, wake_if_free-view, done-Moves,
}

-- what a final result brings in
unfoldable on_result : Env → Gsmd → List Atcmd → Bytes → List Input
unfolding called
on_result env g [] buf = []
on_result env g (cmd ∷ rest) buf = called env g.wakeup_timer cmd.cb cmd (final_resp g.mlbuf buf)

done_first-Moves :
    (env : Env) (g : Gsmd) (busy : List Atcmd) (buf : Bytes)
    → g.busy ≡ busy
    → Moves
        (view g)
        (on_result env g busy buf)
        (done_first env g busy buf).1
        (view (done_first env g busy buf).0)
unfolding on_result
done_first-Moves env g [] buf e = stay
done_first-Moves env g (cmd ∷ rest) buf e = done-Moves env g cmd rest buf e

first_waits :
    (g : Gsmd) (cmd : Atcmd) (rest : List Atcmd)
    → g.pending ≡ cmd ∷ rest
    → view g ≡ state (cmd.id ∷ ids rest) (ids g.busy)
first_waits g cmd rest e = ap (λ p. state (ids p) (ids g.busy)) e

written-Moves :
    (g : Gsmd) (cmd : Atcmd) (rest : List Atcmd) (cr : Option ℕ) (n : ℕ)
    → g.pending ≡ cmd ∷ rest
    → Moves (view g) [] [] (view (written g cmd rest cr n).0)
unfolding written advance
written-Moves g cmd rest cr n e =
    let (cmd', rc) = advance cr cmd n in
    elim (Bool-cases (cmd'.buflen == 0)) [
      | inl sent ↦ rw sent (
          starts_at (first_waits g cmd rest e)
            (launch (stay_at (ap (state (ids rest)) (sym (ids-append g.busy (cmd' ∷ [])))))))
      | inr left ↦ elim (Bool-cases (ltb rc (line_len cr cmd))) [
        | inl short ↦ rw (left, short) (stay_at (first_waits g cmd rest e))
        | inr full ↦ rw (left, full) (stay_at (first_waits g cmd rest e))
      ]
    ]

write_first-Moves :
    (g : Gsmd) (pending : List Atcmd) (result : ℤ)
    → g.pending ≡ pending
    → Moves (view g) [] [] (view (write_first g pending result).0)
unfolding write_first
write_first-Moves g [] result e = stay
write_first-Moves g (cmd ∷ rest) (pos zero) e = stay
write_first-Moves g (cmd ∷ rest) (negsuc k) e = stay
write_first-Moves g (cmd ∷ rest) (pos (suc n)) e =
    written-Moves g cmd rest (find_char b'\n' (cstr (drop cmd.cur cmd.buf))) (suc n) e

if_ready-Moves :
    (g : Gsmd) (result : ℤ) (ready : Bool)
    → Moves
        (view g)
        []
        []
        (view (if ready then write_first g g.pending result else (g, pos 0, [])).0)
if_ready-Moves g result true = write_first-Moves g g.pending result refl
if_ready-Moves g result false = stay

drop_wakeup-Moves :
    (g : Gsmd) (busy : List Atcmd)
    → g.busy ≡ busy
    → Moves (view g) [] (dropped busy) (view (drop_wakeup g busy))
unfolding drop_wakeup
drop_wakeup-Moves g [] e = stay
drop_wakeup-Moves g (cmd ∷ rest) e = elim (Bool-cases (starts_blank cmd.buf)) [
  | inl blank ↦ rw blank (
      starts_at (ap (λ b. state (ids g.pending) (ids b)) e)
        (finish (stay_at (sym (wake_if_free-view (record g { busy = rest }))))))
  | inr other ↦ rw other stay
]

timeout-Moves :
    (g : Gsmd) (tmr : ℕ)
    → Moves
        (view g)
        []
        (if is_timer g.wakeup_timer tmr then dropped g.busy else [])
        (view (wakeup_timeout g tmr))
unfolding wakeup_timeout
timeout-Moves g tmr = elim (Bool-cases (is_timer g.wakeup_timer tmr)) [
  | inl current ↦ rw current (drop_wakeup-Moves (record g { wakeup_timer = none }) g.busy refl)
  | inr other ↦ rw other stay
]

-- an event, or the command that ends the one that runs (`ATH`)
pub data Request : Type 0 where
  happens : Event → Request
  cancels : Atcmd → Request

first_id : List Atcmd → List ℕ
first_id [] = []
first_id (cmd ∷ rest) = cmd.id ∷ []

-- the state after a request, and the commands that finish
unfoldable pub serve : Env → Gsmd → Request → Gsmd × List ℕ
unfolding first_id
serve env g (happens e) = handle env g e
serve env g (cancels cmd) = ((cancel_atcmd env g cmd).0, first_id g.busy)

-- What a request brings in: a submission its command; a final result what the callback of the first
-- command that runs submits; a cancellation its command, in front of the others if a command runs,
-- and then what the callback of the command that ends submits; the other events nothing.
unfoldable on_cancel : Env → Gsmd → Atcmd → List Atcmd → List Input
unfolding called entered
on_cancel env g cmd [] = entered env g.wakeup_timer (cmd ∷ [])
on_cancel env g cmd (cur ∷ rest) = urgent cmd.id ∷ called env g.wakeup_timer cur.cb cur (codes "OK")

unfoldable brings : Env → Gsmd → Request → List Input
unfolding on_cancel on_result entered
brings env g (happens (submitted cmd)) = entered env g.wakeup_timer (cmd ∷ [])
brings env g (happens (final buf)) = on_result env g g.busy buf
brings env g (happens (writable result)) = []
brings env g (happens (timed_out tmr)) = []
brings env g (happens prompted) = []
brings env g (cancels cmd) = on_cancel env g cmd g.busy

handle-Moves :
    (env : Env) (g : Gsmd) (e : Event)
    → Moves (view g) (brings env g (happens e)) (handle env g e).1 (view (handle env g e).0)
unfolding handle write_pending brings
handle-Moves env g (submitted cmd) = submit-Moves env g cmd
handle-Moves env g (final buf) = done_first-Moves env g g.busy buf refl
handle-Moves env g (writable result) = if_ready-Moves g result g.interpreter_ready
handle-Moves env g (timed_out tmr) = timeout-Moves g tmr
handle-Moves env g prompted = stay

cancel_busy-Moves :
    (env : Env) (g : Gsmd) (cmd : Atcmd) (busy : List Atcmd)
    → g.busy ≡ busy
    → Moves
        (view g)
        (on_cancel env g cmd busy)
        (first_id busy)
        (view (cancel_busy env g cmd busy).0)
unfolding cancel_busy first_id on_cancel
cancel_busy-Moves env g cmd [] e = submit-Moves env g cmd
cancel_busy-Moves env g cmd (cur ∷ rest) e =
    urge cmd.id
      (done-Moves env (record g { mlbuf = []; pending = cmd ∷ g.pending }) cur rest (codes "OK") e)

serve-Moves :
    (env : Env) (g : Gsmd) (r : Request)
    → Moves (view g) (brings env g r) (serve env g r).1 (view (serve env g r).0)
unfolding serve cancel_atcmd brings
serve-Moves env g (happens e) = handle-Moves env g e
serve-Moves env g (cancels cmd) = cancel_busy-Moves env g cmd g.busy refl

unfoldable pub serve_all : Env → Gsmd → List Request → Gsmd × List ℕ
unfolding serve
serve_all env g [] = (g, [])
serve_all env g (r ∷ rs) =
    let (g', left) = serve env g r in
    let (last, later) = serve_all env g' rs in (last, left ++ later)

-- what all requests bring in
unfoldable pub brought : Env → Gsmd → List Request → List Input
unfolding brings serve
brought env g [] = []
brought env g (r ∷ rs) = brings env g r ++ brought env (serve env g r).0 rs

-- The queues of the daemon implement the abstract machine `Moves` on the identities of the commands:
-- through any sequence of submissions, final results, writes of any outcome, time-outs, prompts
-- and cancellations, with callbacks that submit what they like, the commands that wait and those
-- that run change only by moves of the machine (one comes in at the end or, if it is urgent, at
-- the front; the first that waits starts; the first that runs finishes). The commands that come in
-- are, in this order, those that the requests bring: every submitted command comes in at the end,
-- behind a wake-up if no wake-up timer runs, and urgent is only the command of a cancellation while
-- a command runs. The commands that finish are those that the requests finish, in that order.
pub serve_all-Moves :
    (env : Env) (g : Gsmd) (rs : List Request)
    → Moves (view g) (brought env g rs) (serve_all env g rs).1 (view (serve_all env g rs).0)
unfolding serve_all brought
serve_all-Moves env g [] = stay
serve_all-Moves env g (r ∷ rs) =
    Moves-trans (serve-Moves env g r) (serve_all-Moves env (serve env g r).0 rs)
