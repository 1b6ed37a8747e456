-- ===== src/Atcmd/Queue/Growth.antt =====
-- What submits a command, and what a callback does, only adds to the end of the pending commands.
use system_test_suite.Base.{
  ℕ, ◌≡◌, refl, sym, ap, ◌∙◌, Option, none, some, List, [], ◌∷◌, ◌++◌, append_assoc, append-nil,
  Bytes,
}
use system_test_suite.Atcmd.Queue.{
  Callback, no_callback, null_wakeup, callback, Atcmd, Gsmd, Env, add_pending, wakeup_cmd,
  start_wakeup, atcmd_wakeup_modem, atcmd_submit, submit_all, call_cb,
}

-- an operation that only adds to the end
pub record Grows (g g' : Gsmd) : Type 0 where
  pub new : List Atcmd
  pub pending_is : g'.pending ≡ g.pending ++ new
  pub busy_is : g'.busy ≡ g.busy

add_pending-Grows : (g : Gsmd) (cmd : Atcmd) → Grows g (add_pending g cmd)
unfolding add_pending
add_pending-Grows g cmd = record { new = cmd ∷ []; pending_is = refl; busy_is = refl }

pub Grows-trans : {g h k : Gsmd} → Grows g h → Grows h k → Grows g k
Grows-trans {g} a b = record {
  new = a.new ++ b.new;
  pending_is =
      b.pending_is ∙ ap (λ l. l ++ b.new) a.pending_is ∙ append_assoc g.pending a.new b.new;
  busy_is = b.busy_is ∙ a.busy_is;
}

pub same-Grows : (g : Gsmd) → Grows g g
same-Grows g = record { new = []; pending_is = sym (append-nil g.pending); busy_is = refl }

start_wakeup-Grows : (env : Env) (timer : Option ℕ) (g : Gsmd) → Grows g (start_wakeup env timer g)
unfolding add_pending
start_wakeup-Grows env none g = record { new = wakeup_cmd ∷ []; pending_is = refl; busy_is = refl }
start_wakeup-Grows env (some t) g = same-Grows g

pub atcmd_submit-Grows : (env : Env) (g : Gsmd) (cmd : Atcmd) → Grows g (atcmd_submit env g cmd)
unfolding atcmd_submit
atcmd_submit-Grows env g cmd =
    Grows-trans (start_wakeup-Grows env g.wakeup_timer g)
      (add_pending-Grows (atcmd_wakeup_modem env g) cmd)

submit_all-Grows : (env : Env) (g : Gsmd) (cmds : List Atcmd) → Grows g (submit_all env g cmds)
unfolding submit_all
submit_all-Grows env g [] = same-Grows g
submit_all-Grows env g (cmd ∷ cmds) =
    Grows-trans (atcmd_submit-Grows env g cmd) (submit_all-Grows env (atcmd_submit env g cmd) cmds)

pub call_cb-Grows :
    (env : Env) (g : Gsmd) (cb : Callback) (cmd : Atcmd) (resp : Bytes)
    → Grows g (call_cb env g cb cmd resp).0
unfolding call_cb
call_cb-Grows env g no_callback cmd resp = same-Grows g
call_cb-Grows env g null_wakeup cmd resp = record {
  new = [];
  pending_is = sym (append-nil g.pending);
  busy_is = refl;
}
call_cb-Grows env g (callback c) cmd resp = submit_all-Grows env g (env.callbacks c cmd resp).0
