-- ===== src/Usock/Effects/Calls.antt =====
-- The handlers of Usock.Calls.
use system_test_suite.Base.{ℕ, ◌≡◌, Option, none, some, Bytes}
use system_test_suite.Atcmd.Queue.{Atcmd}
use system_test_suite.Usock.Calls.{
  usock_rcv_passthrough, usock_rcv_event, voicecall_dial, voicecall_dtmf, usock_rcv_voicecall,
  usock_rcv_pin, usock_rcv_phone, cancelled,
}
use system_test_suite.Usock.Message.{MsgHdr, World}
use system_test_suite.Usock.Effects.{
  effects, Effects, refuses, powers, ends, changes, does, case_of, or_else, submitted-Effect,
}

pub passthrough-Effects :
    (w : World) (gph : MsgHdr) (msg : Bytes) → Effects gph (usock_rcv_passthrough w gph msg)
unfolding usock_rcv_passthrough
passthrough-Effects w gph msg = search effects depth 8

pub event-Effects :
    (w : World) (gph : MsgHdr) (msg : Bytes) (len : ℕ)
    → gph.msg_type ≡ 1
    → Effects gph (usock_rcv_event w gph msg len)
unfolding usock_rcv_event
event-Effects w gph msg len e = search (effects, changes) depth 8

hang_up-Effects :
    (gph : MsgHdr) (cmd : Option Atcmd)
    → gph.msg_type ≡ 3
    → gph.msg_subtype ≡ 2
    → Effects gph (some (cancelled cmd))
hang_up-Effects gph none t e = does (refuses 11)
hang_up-Effects gph (some cmd) t e = does (ends cmd t e)

dial-Effects :
    (w : World) (gph : MsgHdr) (msg : Bytes) (len : ℕ) → Effects gph (voicecall_dial w gph msg len)
unfolding voicecall_dial
dial-Effects w gph msg len = search effects depth 8

dtmf-Effects :
    (w : World) (gph : MsgHdr) (msg : Bytes) (len : ℕ) → Effects gph (voicecall_dtmf w gph msg len)
unfolding voicecall_dtmf
dtmf-Effects w gph msg len = search effects depth 12

pub voicecall-Effects :
    (w : World) (gph : MsgHdr) (msg : Bytes) (len : ℕ)
    → gph.msg_type ≡ 3
    → Effects gph (usock_rcv_voicecall w gph msg len)
unfolding usock_rcv_voicecall
voicecall-Effects w gph msg len t = or_else _ (dial-Effects w gph msg len) (
    case_of gph.msg_subtype 2 (λ e. hang_up-Effects gph _ t e)
      (or_else _ (does (submitted-Effect _))
        (or_else _ (dtmf-Effects w gph msg len) (does (refuses 21)))))

pub pin-Effects :
    (w : World) (gph : MsgHdr) (msg : Bytes) (len : ℕ) → Effects gph (usock_rcv_pin w gph msg len)
unfolding usock_rcv_pin
pin-Effects w gph msg len = search effects depth 12

pub phone-Effects : (w : World) (gph : MsgHdr) → Effects gph (usock_rcv_phone w gph)
unfolding usock_rcv_phone
phone-Effects w gph = search (effects, powers) depth 8
