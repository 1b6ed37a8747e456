-- ===== src/Atcmd/Queue.antt =====
-- The queues of AT commands of atcmd.c: filling, submitting, writing, finishing, cancelling and the
-- wake-up command. The linked lists are lists. The callbacks of commands, which other files
-- provide, enter as `Env`: what they submit and return.
pub mod Growth
pub mod Order
pub mod Machine
pub mod Moves
pub mod Liveness
use mathlib.Core.Option
use system_test_suite.Base.{
  ℕ, zero, suc, ◌+◌, ◌-◌, ◌%◌, ◌^◌, Bool, true, false, not, ◌&&◌, ◌||◌, Option, none, some, List,
  [], ◌∷◌, ◌++◌, ltb, ◌==◌, if◌then◌else◌, Bytes, codes, length, take, drop, zeros,
}
use system_test_suite.Base.Int.{ℤ, pos, negsuc}

-- `cmd->cb`: NULL, `null_wakeup_cb`, or a function of another file
pub data Callback : Type 0 where
  no_callback null_wakeup : Callback
  callback : ℕ → Callback

-- `struct gsmd_atcmd`: `buf` is the memory of the text, `cur` an index into it, `buflen` what is left
pub record Atcmd : Type 0 where
  pub id : ℕ
  pub cb : Callback
  pub ret : ℤ
  pub buflen : ℕ
  pub cur : ℕ
  pub buf : Bytes

-- The part of `struct gsmd` that atcmd.c works on: `flag_v0` is the bit GSMD_FLAG_V0 of `flags`,
-- `wants_write` the bit GSMD_FD_WRITE of `gfd_uart.when`, `mlbuf` the first `mlbuf_len` bytes.
pub record Gsmd : Type 0 where
  pub flag_v0 : Bool
  pub interpreter_ready : Bool
  pub wants_write : Bool
  pub pending : List Atcmd
  pub busy : List Atcmd
  pub mlbuf : Bytes
  pub mlunsolicited : Bool
  pub wakeup_timer : Option ℕ
  pub ext_chars : Bytes

-- What the code of other files does when it is called: a callback gets the command and the response, and a
-- callback and `gsmd_initsettings` act on the queues by `atcmd_submit` alone.
pub record Env : Type 0 where
  pub callbacks : ℕ → Atcmd → Bytes → List Atcmd × ℤ
  pub initsettings : List Atcmd
  -- `unsolicited_parse`, with the text and what stands behind its colon
  pub unsolicited : Gsmd → Bytes → Option Bytes → Gsmd × ℤ
  -- what `gsmd_timer_create` returns
  pub new_timer : Option ℕ

-- a C string: the bytes in front of the first zero
unfoldable pub cstr : Bytes → Bytes
cstr [] = []
cstr (c ∷ s) = let rest = cstr s in if c == 0 then [] else c ∷ rest

unfoldable pub atcmd_text : Bytes → ℕ → Bytes
atcmd_text cmd buflen = take (buflen - 1) (cmd ++ zeros buflen) ++ 0 ∷ []

unfoldable pub new_atcmd : Bytes → ℕ → Callback → ℕ → Atcmd
unfolding atcmd_text
new_atcmd cmd rlen cb id =
    let buflen = if ltb (length cmd) rlen then rlen else length cmd in
    record {
      id = id;
      cb = cb;
      ret = negsuc 254;
      buflen = buflen;
      cur = 0;
      buf = atcmd_text cmd buflen;
    }

-- `atcmd_fill`; the flag says whether `talloc_size` succeeds
unfoldable pub atcmd_fill : Bool → Bytes → ℕ → Callback → ℕ → Option Atcmd
unfolding new_atcmd
atcmd_fill allocated cmd rlen cb id = if allocated then some (new_atcmd cmd rlen cb id) else none

abbrev pub atcmd_wake_pending_queue : Gsmd → Gsmd
atcmd_wake_pending_queue g = record g { wants_write = true }

abbrev pub atcmd_wait_pending_queue : Gsmd → Gsmd
atcmd_wait_pending_queue g = record g { wants_write = false }

-- the callback for a prompt of the modem
abbrev pub atcmd_prompt : Gsmd → Gsmd
atcmd_prompt g = atcmd_wake_pending_queue g

abbrev pub llist_empty : List Atcmd → Bool
llist_empty [] = true
llist_empty (cmd ∷ cmds) = false

-- `llist_add_tail(&cmd->list, &g->pending_atcmds)`, and the wake-up if the list was empty
unfoldable pub add_pending : Gsmd → Atcmd → Gsmd
add_pending g cmd = record g {
  pending = g.pending ++ cmd ∷ [];
  wants_write = llist_empty g.pending || g.wants_write;
}

-- the command " \r", of which the copy keeps the blank
unfoldable pub wakeup_cmd : Atcmd
unfolding new_atcmd
wakeup_cmd = new_atcmd (codes " \r") 2 null_wakeup 0

abbrev pub start_wakeup : Env → Option ℕ → Gsmd → Gsmd
start_wakeup env none g = add_pending (record g { wakeup_timer = env.new_timer }) wakeup_cmd
start_wakeup env (some timer) g = g

unfoldable pub atcmd_wakeup_modem : Env → Gsmd → Gsmd
unfolding add_pending
atcmd_wakeup_modem env g = start_wakeup env g.wakeup_timer g

unfoldable pub atcmd_submit : Env → Gsmd → Atcmd → Gsmd
unfolding atcmd_wakeup_modem
atcmd_submit env g cmd = add_pending (atcmd_wakeup_modem env g) cmd

unfoldable pub submit_all : Env → Gsmd → List Atcmd → Gsmd
unfolding atcmd_submit
submit_all env g [] = g
submit_all env g (cmd ∷ cmds) = submit_all env (atcmd_submit env g cmd) cmds

-- `cmd->cb(cmd, cmd->ctx, resp)`
unfoldable pub call_cb : Env → Gsmd → Callback → Atcmd → Bytes → Gsmd × ℤ
unfolding submit_all
call_cb env g no_callback cmd resp = (g, pos 0)
call_cb env g null_wakeup cmd resp = (record g { wakeup_timer = none }, pos 0)
call_cb env g (callback c) cmd resp =
    let (cmds, rc) = env.callbacks c cmd resp in (submit_all env g cmds, rc)

-- the answer of `atcmd_done`: the information response if there is one, the final result if not
abbrev pub final_resp : Bytes → Bytes → Bytes
final_resp [] buf = buf
final_resp (c ∷ mlbuf) buf = c ∷ mlbuf

-- without a callback the information response stays
abbrev pub clear_mlbuf : Callback → Gsmd → Gsmd
clear_mlbuf no_callback g = g
clear_mlbuf null_wakeup g = record g { mlbuf = [] }
clear_mlbuf (callback c) g = record g { mlbuf = [] }

abbrev pub wake_if_free : Gsmd → Gsmd
wake_if_free g =
    if llist_empty g.busy && not (llist_empty g.pending) then atcmd_wake_pending_queue g else g

-- `atcmd_done` of the first busy command; `rest` are the others
unfoldable pub atcmd_done : Env → Gsmd → Atcmd → List Atcmd → Bytes → Gsmd × ℤ
unfolding call_cb
atcmd_done env g cmd rest buf =
    let (g', rc) = call_cb env g cmd.cb cmd (final_resp g.mlbuf buf) in
    (wake_if_free (record (clear_mlbuf cmd.cb g') { busy = rest }), rc)

-- `cmd->buf[0] == ' '`
abbrev pub starts_blank : Bytes → Bool
starts_blank [] = false
starts_blank (c ∷ s) = c == b' '

-- the first busy command is dropped if it is a wake-up
unfoldable pub drop_wakeup : Gsmd → List Atcmd → Gsmd
drop_wakeup g [] = g
drop_wakeup g (cmd ∷ rest) =
    if starts_blank cmd.buf then wake_if_free (record g { busy = rest }) else g

abbrev pub is_timer : Option ℕ → ℕ → Bool
is_timer none tmr = false
is_timer (some t) tmr = t == tmr

unfoldable pub wakeup_timeout : Gsmd → ℕ → Gsmd
unfolding drop_wakeup
wakeup_timeout g tmr =
    if is_timer g.wakeup_timer tmr then drop_wakeup (record g { wakeup_timer = none }) g.busy else g

-- the rest of `cancel_atcmd` when a command is busy: the new command goes to the front
unfoldable pub cancel_busy : Env → Gsmd → Atcmd → List Atcmd → Gsmd × ℤ
unfolding atcmd_submit atcmd_done
cancel_busy env g cmd [] = (atcmd_submit env g cmd, pos 0)
cancel_busy env g cmd (cur ∷ rest) =
    atcmd_done env (record g { mlbuf = []; pending = cmd ∷ g.pending }) cur rest (codes "OK")

unfoldable pub cancel_atcmd : Env → Gsmd → Atcmd → Gsmd × ℤ
unfolding cancel_busy
cancel_atcmd env g cmd = cancel_busy env g cmd g.busy

-- `strchr(s, c)`, as the distance from `s`
unfoldable pub find_char : ℕ → Bytes → Option ℕ
find_char c [] = none
find_char c (d ∷ s) = let rest = Option.map suc (find_char c s) in if c == d then some 0 else rest

-- the length to be written: up to the end of the line, or all that is left
abbrev pub line_len : Option ℕ → Atcmd → ℕ
line_len none cmd = cmd.buflen - 1
line_len (some cr) cmd = cr

abbrev pub has_line : Option ℕ → Bool
has_line none = false
has_line (some cr) = true

-- `pos` after `write` took `n` bytes of a line of `len`
unfoldable pub advance : Option ℕ → Atcmd → ℕ → Atcmd × ℕ
advance cr cmd n =
    let rc = if not (has_line cr) || n == line_len cr cmd then n + 1 else n in
    (record cmd { buflen = (cmd.buflen + 2 ^ 32 - rc) % 2 ^ 32; cur = cmd.cur + rc }, rc)

-- The state, the return code and the bytes sent.
abbrev pub Written : Type 0
Written = Gsmd × ℤ × Bytes

-- what becomes of the command after a write of `rc`, of `len` offered
abbrev pub settled : Gsmd → List Atcmd → ℕ → Bytes → Atcmd × ℕ → Written
settled g rest len out (cmd, rc) =
    if cmd.buflen == 0
    then (
      atcmd_wait_pending_queue (record g { pending = rest; busy = g.busy ++ cmd ∷ [] }),
      pos 0,
      out,
    )
    else if ltb rc len
    then (record g { pending = cmd ∷ rest }, pos 0, out)
    else (atcmd_wait_pending_queue (record g { pending = cmd ∷ rest }), pos 0, out)

unfoldable pub written : Gsmd → Atcmd → List Atcmd → Option ℕ → ℕ → Written
unfolding advance
written g cmd rest cr n =
    settled g rest (line_len cr cmd) (take n (drop cmd.cur cmd.buf) ++ b'\r' ∷ [])
      (advance cr cmd n)

-- one pass over `pending_atcmds`, which always ends at the first; `result` is what `write` returns
unfoldable pub write_first : Gsmd → List Atcmd → ℤ → Written
unfolding written cstr find_char
write_first g [] result = (atcmd_wait_pending_queue g, pos 0, [])
write_first g (cmd ∷ rest) (pos zero) = (atcmd_wait_pending_queue g, pos 0, [])
write_first g (cmd ∷ rest) (pos (suc n)) =
    written g cmd rest (find_char b'\n' (cstr (drop cmd.cur cmd.buf))) (suc n)
write_first g (cmd ∷ rest) (negsuc k) = (g, negsuc k, [])

-- the second half of `atcmd_select_cb`, for a UART that can be written to
unfoldable pub write_pending : Gsmd → ℤ → Written
unfolding write_first
write_pending g result =
    if g.interpreter_ready then write_first g g.pending result else (g, pos 0, [])
