-- ===== src/Atcmd/Queue/Order.antt =====
-- Commands leave the queues in the order in which they came.
use system_test_suite.Base.{
  ℕ, zero, suc, ◌≡◌, refl, sym, ap, ap₂, ◌∙◌, Bool, true, false, not, ◌&&◌, Option, none, List, [],
  ◌∷◌, ◌++◌, append_assoc, append-nil, map, ltb, ◌==◌, if◌then◌else◌, Bytes, drop, Bool-cases, inl,
  inr,
}
use system_test_suite.Base.Int.{ℤ, pos, negsuc}
use system_test_suite.Atcmd.Queue.{
  Callback, no_callback, null_wakeup, callback, Atcmd, Gsmd, Env, atcmd_prompt, is_timer,
  atcmd_submit, call_cb, atcmd_done, drop_wakeup, wakeup_timeout, advance, written, write_first,
  write_pending, clear_mlbuf, wake_if_free, final_resp, starts_blank, llist_empty, line_len, cstr,
  find_char,
}
use system_test_suite.Atcmd.Queue.Growth.{Grows, atcmd_submit-Grows, call_cb-Grows}

abbrev pub ids : List Atcmd → List ℕ
ids = map (λ c. c.id)

-- the commands that were sent and wait for their result, and behind them those to be sent
abbrev pub queued : Gsmd → List ℕ
queued g = ids g.busy ++ ids g.pending

-- The queue has lost `left` at its front, and nothing else; it may have grown at its end.
abbrev pub Fifo : List ℕ → Gsmd → Gsmd → Type 0
Fifo left g g' = (new : List ℕ) × (queued g ++ new ≡ left ++ queued g')

pub ids-append : (a b : List Atcmd) → ids (a ++ b) ≡ ids a ++ ids b
ids-append [] b = refl
ids-append (c ∷ a) b = ap (◌∷◌ c.id) (ids-append a b)

Grows-Fifo : {g g' : Gsmd} → Grows g g' → Fifo [] g g'
Grows-Fifo {g} {g'} w = (
  ids w.new,
  append_assoc (ids g.busy) _ _
      ∙ ap₂ (λ a b. a ++ b) (ap (ids) (sym w.busy_is))
          (sym (ids-append g.pending w.new) ∙ ap (ids) (sym w.pending_is)),
)

-- what happens to the queues, and the commands that leave them
pub data Event : Type 0 where
  submitted : Atcmd → Event
  final : Bytes → Event
  writable : ℤ → Event
  timed_out : ℕ → Event
  prompted : Event

-- a final result, as the end of `ml_parse` handles it
abbrev pub done_first : Env → Gsmd → List Atcmd → Bytes → Gsmd × List ℕ
done_first env g [] buf = (g, [])
done_first env g (cmd ∷ rest) buf = ((atcmd_done env g cmd rest buf).0, cmd.id ∷ [])

abbrev pub dropped : List Atcmd → List ℕ
dropped [] = []
dropped (cmd ∷ rest) = if starts_blank cmd.buf then cmd.id ∷ [] else []

unfoldable pub handle : Env → Gsmd → Event → Gsmd × List ℕ
handle env g (submitted cmd) = (atcmd_submit env g cmd, [])
handle env g (final buf) = done_first env g g.busy buf
handle env g (writable result) = ((write_pending g result).0, [])
handle env g (timed_out tmr) =
    (wakeup_timeout g tmr, if is_timer g.wakeup_timer tmr then dropped g.busy else [])
handle env g prompted = (atcmd_prompt g, [])

wake_if_free-queued : (g : Gsmd) → queued (wake_if_free g) ≡ queued g
wake_if_free-queued g = elim (Bool-cases (llist_empty g.busy && not (llist_empty g.pending))) [
  | inl free ↦ rw free
  | inr not_free ↦ rw not_free
]

pub clear_mlbuf-pending : (cb : Callback) (g : Gsmd) → (clear_mlbuf cb g).pending ≡ g.pending
clear_mlbuf-pending no_callback g = refl
clear_mlbuf-pending null_wakeup g = refl
clear_mlbuf-pending (callback c) g = refl

-- the queue without its first busy command
behind_first :
    (g : Gsmd) (cmd : Atcmd) (rest new : List Atcmd)
    → g.busy ≡ cmd ∷ rest
    → queued g ++ ids new ≡ cmd.id ∷ (ids rest ++ ids (g.pending ++ new))
behind_first g cmd rest new e =
    ap (λ b. (ids b ++ ids g.pending) ++ ids new) e
    ∙ ap (◌∷◌ cmd.id) (
        append_assoc (ids rest) (ids g.pending) (ids new)
        ∙ ap (λ l. ids rest ++ l) (sym (ids-append g.pending new)))

done_first-Fifo :
    (env : Env) (g : Gsmd) (busy : List Atcmd) (buf : Bytes)
    → g.busy ≡ busy
    → Fifo (done_first env g busy buf).1 g (done_first env g busy buf).0
unfolding atcmd_done
done_first-Fifo env g [] buf e = ([], append-nil (queued g))
done_first-Fifo env g (cmd ∷ rest) buf e =
    let g' = (call_cb env g cmd.cb cmd (final_resp g.mlbuf buf)).0 in
    let w = call_cb-Grows env g cmd.cb cmd (final_resp g.mlbuf buf) in
    let last = record (clear_mlbuf cmd.cb g') { busy = rest } in
    (
      ids w.new,
      behind_first g cmd rest w.new e
          ∙ ap (λ p. cmd.id ∷ (ids rest ++ ids p))
              (sym (clear_mlbuf-pending cmd.cb g' ∙ w.pending_is))
          ∙ ap (◌∷◌ cmd.id) (sym (wake_if_free-queued last)),
    )

written-queued :
    (g : Gsmd) (cmd : Atcmd) (rest : List Atcmd) (cr : Option ℕ) (n : ℕ)
    → g.pending ≡ cmd ∷ rest
    → queued (written g cmd rest cr n).0 ≡ queued g
unfolding written advance
written-queued g cmd rest cr n e =
    let (cmd', rc) = advance cr cmd n in
    let here : ids g.busy ++ (cmd.id ∷ ids rest) ≡ queued g =
      ap (λ p. ids g.busy ++ ids p) (sym e) in
    elim (Bool-cases (cmd'.buflen == 0)) [
      | inl sent ↦ rw sent (
          ap (λ l. l ++ ids rest) (ids-append g.busy (cmd' ∷ []))
          ∙ append_assoc (ids g.busy) (cmd.id ∷ []) (ids rest)
          ∙ here)
      | inr left ↦ elim (Bool-cases (ltb rc (line_len cr cmd))) [
        | inl short ↦ rw (left, short) here
        | inr full ↦ rw (left, full) here
      ]
    ]

write_first-Fifo :
    (g : Gsmd) (pending : List Atcmd) (result : ℤ)
    → g.pending ≡ pending
    → queued (write_first g pending result).0 ≡ queued g
unfolding write_first
write_first-Fifo g [] result e = refl
write_first-Fifo g (cmd ∷ rest) (pos zero) e = refl
write_first-Fifo g (cmd ∷ rest) (negsuc k) e = refl
write_first-Fifo g (cmd ∷ rest) (pos (suc n)) e =
    written-queued g cmd rest (find_char b'\n' (cstr (drop cmd.cur cmd.buf))) (suc n) e

drop_wakeup-Fifo :
    (g : Gsmd) (busy : List Atcmd) → g.busy ≡ busy → Fifo (dropped busy) g (drop_wakeup g busy)
unfolding drop_wakeup
drop_wakeup-Fifo g [] e = ([], append-nil (queued g))
drop_wakeup-Fifo g (cmd ∷ rest) e =
    let last = record g { busy = rest } in
    elim (Bool-cases (starts_blank cmd.buf)) [
      | inl blank ↦ rw blank (
        [],
        append-nil (queued g)
            ∙ ap (λ b. ids b ++ ids g.pending) e
            ∙ ap (◌∷◌ cmd.id) (sym (wake_if_free-queued last)),
      )
      | inr other ↦ rw other ([], append-nil (queued g))
    ]

Fifo-refl : (g : Gsmd) → Fifo [] g g
Fifo-refl g = ([], append-nil (queued g))

timeout-Fifo :
    (g : Gsmd) (tmr : ℕ)
    → Fifo (if is_timer g.wakeup_timer tmr then dropped g.busy else []) g (wakeup_timeout g tmr)
unfolding wakeup_timeout
timeout-Fifo g tmr = elim (Bool-cases (is_timer g.wakeup_timer tmr)) [
  | inl current ↦ rw current (drop_wakeup-Fifo (record g { wakeup_timer = none }) g.busy refl)
  | inr other ↦ rw other (Fifo-refl g)
]

if_ready-Fifo :
    (g : Gsmd) (result : ℤ) (ready : Bool)
    → queued (if ready then write_first g g.pending result else (g, pos 0, [])).0 ≡ queued g
if_ready-Fifo g result true = write_first-Fifo g g.pending result refl
if_ready-Fifo g result false = refl

write_pending-Fifo : (g : Gsmd) (result : ℤ) → Fifo [] g (write_pending g result).0
unfolding write_pending
write_pending-Fifo g result =
    ([], append-nil (queued g) ∙ sym (if_ready-Fifo g result g.interpreter_ready))

handle-Fifo : (env : Env) (g : Gsmd) (e : Event) → Fifo (handle env g e).1 g (handle env g e).0
unfolding handle
handle-Fifo env g (submitted cmd) = Grows-Fifo (atcmd_submit-Grows env g cmd)
handle-Fifo env g (final buf) = done_first-Fifo env g g.busy buf refl
handle-Fifo env g (writable result) = write_pending-Fifo g result
handle-Fifo env g (timed_out tmr) = timeout-Fifo g tmr
handle-Fifo env g prompted = ([], append-nil (queued g))

-- a history: the state at its end, and the commands that left, the first to leave first
unfoldable pub history : Env → Gsmd → List Event → Gsmd × List ℕ
unfolding handle
history env g [] = (g, [])
history env g (e ∷ events) =
    let (g', left) = handle env g e in
    let (last, later) = history env g' events in (last, left ++ later)

Fifo-trans :
    (g h k : Gsmd) (left later : List ℕ) → Fifo left g h → Fifo later h k → Fifo (left ++ later) g k
Fifo-trans g h k left later (new, e) (newer, f) = (
  new ++ newer,
  sym (append_assoc (queued g) new newer)
      ∙ ap (λ l. l ++ newer) e
      ∙ append_assoc left (queued h) newer
      ∙ ap (λ l. left ++ l) f
      ∙ sym (append_assoc left later (queued k)),
)

-- Through submissions, final results, complete, short and failed writes, prompts and time-outs
-- of the wake-up, in any order, commands leave only from the front: the commands queued at first
-- (those that wait for a result, then those to be sent), followed by the ones that came later, are
-- those that have left, in the order in which they left, followed by those queued at the end.
pub history-Fifo :
    (env : Env) (g : Gsmd) (events : List Event)
    → Fifo (history env g events).1 g (history env g events).0
unfolding history
history-Fifo env g [] = Fifo-refl g
history-Fifo env g (e ∷ events) =
    let (g', left) = handle env g e in
    let (last, later) = history env g' events in
    Fifo-trans g g' last left later (handle-Fifo env g e) (history-Fifo env g' events)
