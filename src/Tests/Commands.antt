-- ===== src/Tests/Commands.antt =====
-- The command queues in a short history.
use system_test_suite.Base.{◌≡◌, refl, All, arith, false, true, none, some, List, [], ◌∷◌, codes}
use system_test_suite.Base.Int.{pos, negsuc}
use system_test_suite.Atcmd.Queue.{
  no_callback, callback, Atcmd, Gsmd, Env, new_atcmd, cstr, find_char,
}
use system_test_suite.Atcmd.Queue.Liveness.{HasLines, line, last_line, all_turns, turns, turns-ids}
use system_test_suite.Atcmd.Queue.Moves.{Moves, view}
use system_test_suite.Atcmd.Queue.Machine.{
  Request, happens, cancels, serve_all, brought, serve_all-Moves,
}
use system_test_suite.Atcmd.Queue.Order.{
  Event, submitted, final, writable, timed_out, history, Fifo, history-Fifo,
}

-- The first callback submits the command 9.
abbrev pub busy_env : Env
busy_env = record {
  callbacks = λ c cmd resp. (new_atcmd (codes "AT+CSQ") 7 no_callback 9 ∷ [], pos 0);
  initsettings = [];
  unsolicited = λ g text param. (g, negsuc 1);
  new_timer = some 1;
}

abbrev pub idle_gsmd : Gsmd
idle_gsmd = record {
  flag_v0 = false;
  interpreter_ready = true;
  wants_write = false;
  pending = [];
  busy = [];
  mlbuf = [];
  mlunsolicited = false;
  wakeup_timer = none;
  ext_chars = [];
}

abbrev one_day : List Event
one_day =
    submitted (new_atcmd (codes "ATD1;") 6 (callback 0) 5)
    ∷ writable (pos 2)
    ∷ timed_out 1
    ∷ writable (pos 6)
    ∷ final (codes "OK")
    ∷ []

history-Fifo_example :
    Fifo (history busy_env idle_gsmd one_day).1 idle_gsmd (history busy_env idle_gsmd one_day).0
history-Fifo_example = history-Fifo busy_env idle_gsmd one_day

abbrev hang_up : List Request
hang_up =
    happens (submitted (new_atcmd (codes "ATD1;") 6 (callback 0) 5))
    ∷ happens (writable (pos 2))
    ∷ happens (writable (pos 6))
    ∷ cancels (new_atcmd (codes "ATH") 4 no_callback 6)
    ∷ happens (final (codes "OK"))
    ∷ []

serve_all-Moves_example :
    Moves
      (view idle_gsmd)
      (brought busy_env idle_gsmd hang_up)
      (serve_all busy_env idle_gsmd hang_up).1
      (view (serve_all busy_env idle_gsmd hang_up).0)
serve_all-Moves_example = serve_all-Moves busy_env idle_gsmd hang_up

abbrev quiet_env : Env
quiet_env = record busy_env { callbacks = λ c cmd resp. ([], pos 0) }

abbrev two_commands : List Atcmd
two_commands =
    new_atcmd (codes "AT+CMGS=1\nab") 13 (callback 0) 3
    ∷ new_atcmd (codes "AT") 3 no_callback 4
    ∷ []

two_commands-HasLines : All HasLines two_commands
unfolding cstr find_char new_atcmd
two_commands-HasLines = (
  line 8 refl (omega arith) (omega arith) (last_line 1 refl refl (omega arith)),
  (last_line 1 refl refl (omega arith), tt),
)

abbrev two_pending : Gsmd
two_pending = record idle_gsmd { pending = two_commands; wants_write = true }

turns-ids_example :
    let (last, left) = turns quiet_env two_pending (all_turns two_commands two_commands-HasLines) in
    (last.pending ≡ []) × (last.busy ≡ []) × (left ≡ 3 ∷ 4 ∷ [])
unfolding new_atcmd
turns-ids_example =
    turns-ids quiet_env two_pending two_commands-HasLines (λ c cmd resp. refl) refl refl refl
