-- ===== src/Usock/Requests.antt =====
-- What the requests of a client can do to the daemon.
use mathlib.Core.Option.{some_inj}
use system_test_suite.Base.{
  ℕ, ◌≡◌, ◌≢◌, refl, sym, ap, subst, ◌∙◌, Option, none, some, Bytes, drop, arith, ◌>>=◌,
}
use system_test_suite.Base.Int.{ℤ, negsuc, neg_part}
use system_test_suite.Atcmd.Queue.{Atcmd, Env}
use system_test_suite.Atcmd.Queue.Growth.{Grows, same-Grows, Grows-trans, atcmd_submit-Grows}
use system_test_suite.Usock.Message.{
  MsgHdr, msg_hdr, hdr_size, World, Session, Action, perform, submitted,
}
use system_test_suite.Usock.Client.{handler, dispatched, pcmd_action, usock_rcv_pcmd}
use system_test_suite.Usock.Effects.{
  Effect, Effects, effects, refuses, accepts, sends, prepares, powers, retrieves, finds, ends,
  changes, does, faults, case_of, or_else,
}
use system_test_suite.Usock.Effects.Calls.{
  passthrough-Effects, event-Effects, voicecall-Effects, pin-Effects, phone-Effects,
}
use system_test_suite.Usock.Effects.Lists.{
  network-Effects, sms-Effects, cb-Effects, phonebook-Effects,
}

handler-Effects :
    (w : World) (s : Session) (gph : MsgHdr) (msg : Bytes) (len : ℕ)
    → Effects gph (handler w s gph msg len)
unfolding handler
handler-Effects w s gph msg len = or_else _ (passthrough-Effects w gph msg) (
    case_of gph.msg_type 1 (event-Effects w gph msg len) (
      case_of gph.msg_type 3 (voicecall-Effects w gph msg len) (
        search
          (
            effects, pin-Effects, phone-Effects, network-Effects, sms-Effects, cb-Effects,
            phonebook-Effects,
          )
          depth 12)))

dispatched-Effects :
    (w : World) (s : Session) (gph : MsgHdr) (msg : Bytes) (len : ℕ)
    → Effects gph (dispatched w s gph msg len)
dispatched-Effects w s gph msg len = search (effects, handler-Effects) depth 8

-- a request is accepted with an action
pub record Performed (w : World) (s : Session) (gph : MsgHdr) (s' : Session) (rc : ℤ) : Type 0 where
  pub action : Action
  pub effect : Effect gph action
  pub result : perform w.env action s ≡ (s', rc)

by_effect :
    {w : World} {s s' : Session} {rc : ℤ} {gph : MsgHdr} {o : Option Action}
    → Effects gph o
    → (o >>= λ a. some (perform w.env a s)) ≡ some (s', rc)
    → Performed w s gph s' rc
by_effect faults e = absurd cc
by_effect (does effect) e = record { action = _; effect = effect; result = some_inj.0 e }

performed :
    (w : World) (s s' : Session) (rc : ℤ) (buf : Bytes) (len : ℕ) (gph : MsgHdr)
    → msg_hdr buf ≡ some gph
    → usock_rcv_pcmd w s buf len ≡ some (s', rc)
    → Performed w s gph s' rc
unfolding usock_rcv_pcmd pcmd_action
performed w s s' rc buf len gph h e =
    by_effect (dispatched-Effects w s gph (drop hdr_size buf) len) (
      ap
        (λ o.
          o >>= (λ g. dispatched w s g (drop hdr_size buf) len) >>= λ a. some (perform w.env a s))
        (sym h)
      ∙ e)

abbrev pub IsHangup : MsgHdr → Type 0
IsHangup gph = (gph.msg_type ≡ 3) × (gph.msg_subtype ≡ 2)

submitted-Grows :
    (env : Env) (cmd : Option Atcmd) (s : Session)
    → Grows s.gsmd (perform env (submitted cmd) s).0.gsmd
unfolding perform
submitted-Grows env none s = same-Grows s.gsmd
submitted-Grows env (some cmd) s = atcmd_submit-Grows env s.gsmd cmd

perform-Grows :
    {gph : MsgHdr} {a : Action} (env : Env) (s : Session)
    → Effect gph a
    → ¬ IsHangup gph
    → Grows s.gsmd (perform env a s).0.gsmd
unfolding perform
perform-Grows env s (refuses k) n = same-Grows s.gsmd
perform-Grows env s accepts n = same-Grows s.gsmd
perform-Grows env s (sends cmd) n = atcmd_submit-Grows env s.gsmd cmd
perform-Grows env s (prepares cmd next) n =
    Grows-trans (atcmd_submit-Grows env s.gsmd cmd) (submitted-Grows env next _)
perform-Grows env s (powers next) n = submitted-Grows env next _
perform-Grows env s (retrieves ucmd) n = same-Grows s.gsmd
perform-Grows env s (finds ucmd) n = same-Grows s.gsmd
perform-Grows env s (ends cmd t e) n = absurd (n (t, e))
perform-Grows env s (changes mask rc t) n = same-Grows s.gsmd

-- Whatever a client sends, short of the end of a call, only adds commands behind those that wait: no
-- command that waits or runs is lost, repeated or overtaken. The message has a header, is not
-- a hang-up, and is handled without a memory fault.
pub usock_rcv_pcmd-Grows :
    (w : World) (s s' : Session) (rc : ℤ) (buf : Bytes) (len : ℕ) (gph : MsgHdr)
    → msg_hdr buf ≡ some gph
    → ¬ IsHangup gph
    → usock_rcv_pcmd w s buf len ≡ some (s', rc)
    → Grows s.gsmd s'.gsmd
usock_rcv_pcmd-Grows w s s' rc buf len gph h n e =
    let p = performed w s s' rc buf len gph h e in
    subst (λ r. Grows s.gsmd r.0.gsmd) p.result (perform-Grows w.env s p.effect n)

-- what a code of an error says, unless it is that for memory
abbrev pub IsRefused : ℤ → Type 0
IsRefused rc = (k : ℕ) × (rc ≡ negsuc k) × (k ≢ 11)

refused_same :
    {gph : MsgHdr} {a : Action} (env : Env) (s : Session)
    → Effect gph a
    → ¬ IsHangup gph
    → gph.msg_type ≢ 1
    → IsRefused (perform env a s).1
    → (perform env a s).0 ≡ s
unfolding perform
refused_same env s (refuses k) n t r = refl
refused_same env s accepts n t r = refl
refused_same env s (sends cmd) n t (k, c, m) = absurd cc
refused_same env s (prepares cmd none) n t (k, c, m) = absurd (m (omega (arith, ap (neg_part) c)))
refused_same env s (prepares cmd (some next)) n t (k, c, m) = absurd cc
refused_same env s (powers none) n t (k, c, m) = absurd (m (omega (arith, ap (neg_part) c)))
refused_same env s (powers (some next)) n t (k, c, m) = absurd cc
refused_same env s (retrieves ucmd) n t (k, c, m) = absurd cc
refused_same env s (finds ucmd) n t (k, c, m) = absurd cc
refused_same env s (ends cmd p e) n t r = absurd (n (p, e))
refused_same env s (changes mask rc e) n t r = absurd (t e)

-- A request that is refused, for another reason than that memory has run out, leaves the daemon and
-- the client as they were. The message has a header, and is neither a hang-up (which returns
-- what the callback of the command that ran returns) nor a change of subscriptions (which
-- returns nothing defined).
pub usock_rcv_pcmd-refused :
    (w : World) (s s' : Session) (rc : ℤ) (buf : Bytes) (len : ℕ) (gph : MsgHdr)
    → msg_hdr buf ≡ some gph
    → ¬ IsHangup gph
    → gph.msg_type ≢ 1
    → usock_rcv_pcmd w s buf len ≡ some (s', rc)
    → IsRefused rc
    → s' ≡ s
usock_rcv_pcmd-refused w s s' rc buf len gph h n t e r =
    let p = performed w s s' rc buf len gph h e in
    ap (λ x. x.0) (sym p.result)
    ∙ refused_same w.env s p.effect n t (subst (IsRefused) (ap (λ x. x.1) (sym p.result)) r)
