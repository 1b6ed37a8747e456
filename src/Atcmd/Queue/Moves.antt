-- ===== src/Atcmd/Queue/Moves.antt =====
-- An abstract machine of commands that wait, run and leave, and the moves that submitting a command and
-- the end of a command make.
use system_test_suite.Base.{
  ℕ, ◌≡◌, sym, ap, ◌∙◌, subst, not, ◌&&◌, List, [], ◌∷◌, ◌++◌, append-nil, Bytes, Bool-cases, inl,
  inr, Option, none, some,
}
use system_test_suite.Atcmd.Queue.{
  Callback, no_callback, null_wakeup, callback, Atcmd, Gsmd, Env, call_cb, atcmd_done, add_pending,
  atcmd_submit, atcmd_wakeup_modem, wakeup_cmd, submit_all, clear_mlbuf, wake_if_free, final_resp,
  llist_empty,
}
use system_test_suite.Atcmd.Queue.Growth.{call_cb-Grows}
use system_test_suite.Atcmd.Queue.Order.{ids, ids-append, clear_mlbuf-pending}

-- the commands to be sent, and those that were sent and have no result yet
pub record View : Type 0 where
  pub waiting : List ℕ
  pub running : List ℕ

abbrev pub view : Gsmd → View
view g = record { waiting = ids g.pending; running = ids g.busy }

abbrev pub state : List ℕ → List ℕ → View
state ws rs = record { waiting = ws; running = rs }

-- A command that comes in behind the others, or in front of them.
pub data Input : Type 0 where
  late urgent : ℕ → Input

-- What the machine does, from a state to a state, with the commands that come in and those that
-- finish: it takes a command in, at the end or (an urgent one) at the front, starts the first that
-- waits, and finishes the first that runs.
pub data Moves : View → List Input → List ℕ → View → Type 0 where
  stay : {v : View} → Moves v [] [] v
  arrive :
      {u : View} {ins : List Input} {left : List ℕ} (id : ℕ) {ws rs : List ℕ}
      → Moves (state (ws ++ id ∷ []) rs) ins left u
      → Moves (state ws rs) (late id ∷ ins) left u
  urge :
      {u : View} {ins : List Input} {left : List ℕ} (id : ℕ) {ws rs : List ℕ}
      → Moves (state (id ∷ ws) rs) ins left u
      → Moves (state ws rs) (urgent id ∷ ins) left u
  launch :
      {u : View} {ins : List Input} {left : List ℕ} {id : ℕ} {ws rs : List ℕ}
      → Moves (state ws (rs ++ id ∷ [])) ins left u
      → Moves (state (id ∷ ws) rs) ins left u
  finish :
      {u : View} {ins : List Input} {left : List ℕ} {id : ℕ} {ws rs : List ℕ}
      → Moves (state ws rs) ins left u
      → Moves (state ws (id ∷ rs)) ins (id ∷ left) u

pub Moves-trans :
    {v w u : View} {ins more : List Input} {left later : List ℕ}
    → Moves v ins left w
    → Moves w more later u
    → Moves v (ins ++ more) (left ++ later) u
Moves-trans stay n = n
Moves-trans (arrive id m) n = arrive id (Moves-trans m n)
Moves-trans (urge id m) n = urge id (Moves-trans m n)
Moves-trans (launch m) n = launch (Moves-trans m n)
Moves-trans (finish m) n = finish (Moves-trans m n)

pub stay_at : {v u : View} → v ≡ u → Moves v [] [] u
stay_at {v} e = subst (Moves v [] []) e stay

pub starts_at :
    {v w u : View} {ins : List Input} {left : List ℕ}
    → v ≡ w
    → Moves w ins left u
    → Moves v ins left u
starts_at {u = u} {ins} {left} e m = subst (λ x. Moves x ins left u) (sym e) m

brings_at :
    {v u : View} {ins more : List Input} {left : List ℕ}
    → ins ≡ more
    → Moves v ins left u
    → Moves v more left u
brings_at {v} {u} {left = left} e m = subst (λ i. Moves v i left u) e m

-- What comes in when commands are submitted while the wake-up timer is `timer`: each at the end, and
-- a wake-up, which has the number 0, before a command for which no timer runs.
unfoldable pub entered : Env → Option ℕ → List Atcmd → List Input
entered env timer [] = []
entered env none (cmd ∷ cmds) = late 0 ∷ late cmd.id ∷ entered env env.new_timer cmds
entered env (some t) (cmd ∷ cmds) = late cmd.id ∷ entered env (some t) cmds

-- what the callback of a command submits
unfoldable pub called : Env → Option ℕ → Callback → Atcmd → Bytes → List Input
unfolding entered
called env timer no_callback cmd resp = []
called env timer null_wakeup cmd resp = []
called env timer (callback c) cmd resp = entered env timer (env.callbacks c cmd resp).0

added : (g : Gsmd) (cmd : Atcmd) → Moves (view g) (late cmd.id ∷ []) [] (view (add_pending g cmd))
unfolding add_pending
added g cmd =
    arrive cmd.id (stay_at (ap (λ l. state l (ids g.busy)) (sym (ids-append g.pending (cmd ∷ [])))))

submit_with :
    (env : Env) (timer : Option ℕ) (g : Gsmd) (cmds : List Atcmd)
    → Moves
        (view g)
        (entered env timer cmds)
        []
        (view (submit_all env (record g { wakeup_timer = timer }) cmds))
unfolding submit_all entered atcmd_submit atcmd_wakeup_modem add_pending wakeup_cmd
submit_with env timer g [] = stay
submit_with env none g (cmd ∷ cmds) =
    let woken = add_pending (record g { wakeup_timer = env.new_timer }) wakeup_cmd in
    Moves-trans (added g wakeup_cmd)
      (Moves-trans (added woken cmd) (submit_with env env.new_timer (add_pending woken cmd) cmds))
submit_with env (some t) g (cmd ∷ cmds) =
    Moves-trans (added g cmd)
      (submit_with env (some t) (add_pending (record g { wakeup_timer = some t }) cmd) cmds)

pub submit-Moves :
    (env : Env) (g : Gsmd) (cmd : Atcmd)
    → Moves (view g) (entered env g.wakeup_timer (cmd ∷ [])) [] (view (atcmd_submit env g cmd))
unfolding submit_all
submit-Moves env g cmd = submit_with env g.wakeup_timer g (cmd ∷ [])

call_cb-Moves :
    (env : Env) (g : Gsmd) (cb : Callback) (cmd : Atcmd) (resp : Bytes)
    → Moves (view g) (called env g.wakeup_timer cb cmd resp) [] (view (call_cb env g cb cmd resp).0)
unfolding call_cb called
call_cb-Moves env g no_callback cmd resp = stay
call_cb-Moves env g null_wakeup cmd resp = stay
call_cb-Moves env g (callback c) cmd resp =
    submit_with env g.wakeup_timer g (env.callbacks c cmd resp).0

pub wake_if_free-view : (g : Gsmd) → view (wake_if_free g) ≡ view g
wake_if_free-view g = elim (Bool-cases (llist_empty g.busy && not (llist_empty g.pending))) [
  | inl free ↦ rw free
  | inr not_free ↦ rw not_free
]

-- the first running command is finished, with `g'` the state after its callback
finished :
    (g g' : Gsmd) (ins : List Input) (cmd : Atcmd) (rest : List Atcmd)
    → g'.busy ≡ cmd ∷ rest
    → Moves (view g) ins [] (view g')
    → Moves
        (view g)
        ins
        (cmd.id ∷ [])
        (view (wake_if_free (record (clear_mlbuf cmd.cb g') { busy = rest })))
finished g g' ins cmd rest e m =
    let last = record (clear_mlbuf cmd.cb g') { busy = rest } in
    let run : view g' ≡ state (ids g'.pending) (cmd.id ∷ ids rest) =
      ap (λ b. state (ids g'.pending) (ids b)) e in
    brings_at (append-nil ins) (
      Moves-trans m (
        starts_at run (
          finish (
            stay_at (
              ap (λ p. state (ids p) (ids rest)) (sym (clear_mlbuf-pending cmd.cb g'))
              ∙ sym (wake_if_free-view last))))))

-- `atcmd_done` of the first command that runs
pub done-Moves :
    (env : Env) (g : Gsmd) (cmd : Atcmd) (rest : List Atcmd) (buf : Bytes)
    → g.busy ≡ cmd ∷ rest
    → Moves
        (view g)
        (called env g.wakeup_timer cmd.cb cmd (final_resp g.mlbuf buf))
        (cmd.id ∷ [])
        (view (atcmd_done env g cmd rest buf).0)
unfolding atcmd_done
done-Moves env g cmd rest buf e =
    let resp = final_resp g.mlbuf buf in
    finished g (call_cb env g cmd.cb cmd resp).0 (called env g.wakeup_timer cmd.cb cmd resp) cmd
      rest ((call_cb-Grows env g cmd.cb cmd resp).busy_is ∙ e) (call_cb-Moves env g cmd.cb cmd resp)
