-- ===== src/Usock/Effects.antt =====
-- What a request of a client can do at all. Below it: that the handlers do no more.
pub mod Calls
pub mod Lists
use mathlib.Core.Option
use system_test_suite.Base.{
  ℕ, ◌≡◌, refl, Bool, true, false, Option, none, some, Bytes, set, get_elem?, if◌then◌else◌, ◌>>=◌,
  ◌==◌, ==_iff,
}
use system_test_suite.Base.Int.{ℤ, pos, negsuc}
use system_test_suite.Base.Text.{c_string_at, u32_at}
use system_test_suite.Atcmd.Queue.{Atcmd}
use system_test_suite.Events.{Ucmd}
use system_test_suite.Usock.Message.{
  MsgHdr, World, Session, Action, returns, submits, cancels, subscribes, turns_off, empties_readrg,
  empties_find, replies, submitted, submitted_printed, fill, print_to, CmdCb,
}
use system_test_suite.Usock.Calls.{
  usock_rcv_passthrough, usock_rcv_event, voicecall_dial, voicecall_dtmf, usock_rcv_voicecall,
  usock_rcv_pin, usock_rcv_phone,
}
use system_test_suite.Usock.Client.{handler}

-- It is refused, or done at once; one command is submitted; one that prepares another is submitted,
-- and then the other if there is memory for it; the phone is marked as off; a list is sent; a call
-- is ended; or the subscriptions change.
pub data Effect (gph : MsgHdr) : Action → Type 0 where
  refuses : (k : ℕ) → Effect gph (returns (negsuc k))
  accepts : Effect gph (returns (pos 0))
  sends : (cmd : Atcmd) → Effect gph (submits cmd (returns (pos 0)))
  prepares : (cmd : Atcmd) (next : Option Atcmd) → Effect gph (submits cmd (submitted next))
  powers : (next : Option Atcmd) → Effect gph (turns_off (submitted next))
  retrieves : (ucmd : Ucmd) → Effect gph (empties_readrg (replies ucmd (returns (pos 0))))
  finds : (ucmd : Ucmd) → Effect gph (empties_find (replies ucmd (returns (pos 0))))
  ends : (cmd : Atcmd) → gph.msg_type ≡ 3 → gph.msg_subtype ≡ 2 → Effect gph (cancels cmd)
  changes : (mask : ℕ) (rc : ℤ) → gph.msg_type ≡ 1 → Effect gph (subscribes mask (returns rc))

-- of a handler that may read or write outside the memory it has
pub data Effects (gph : MsgHdr) : Option Action → Type 0 where
  faults : Effects gph none
  does : {a : Action} → Effect gph a → Effects gph (some a)

pub if_both :
    {gph : MsgHdr} (b : Bool) {x y : Option Action}
    → (b ≡ true → Effects gph x)
    → (b ≡ false → Effects gph y)
    → Effects gph (if b then x else y)
if_both true x y = x refl
if_both false x y = y refl

pub case_of :
    {gph : MsgHdr} (m n : ℕ) {x y : Option Action}
    → (m ≡ n → Effects gph x)
    → Effects gph y
    → Effects gph (if m == n then x else y)
case_of m n x y = if_both (m == n) (λ e. x ((==_iff m n).0 e)) (λ e. y)

pub or_else :
    {gph : MsgHdr} (b : Bool) {x y : Option Action}
    → Effects gph x
    → Effects gph y
    → Effects gph (if b then x else y)
or_else b x y = if_both b (λ e. x) (λ e. y)

pub bind {ℓ} :
    {gph : MsgHdr} {A : Type ℓ} (o : Option A) {f : A → Option Action}
    → ((a : A) → Effects gph (f a))
    → Effects gph (o >>= f)
bind none f = faults
bind (some a) f = f a

pub submitted-Effect : {gph : MsgHdr} (cmd : Option Atcmd) → Effect gph (submitted cmd)
submitted-Effect none = refuses 11
submitted-Effect (some cmd) = sends cmd

pub printed-Effects :
    {gph : MsgHdr} (cmd : Option Atcmd) (text : Bytes) → Effects gph (submitted_printed cmd text)
printed-Effects none text = does (refuses 11)
printed-Effects (some cmd) text = bind (print_to cmd text) (λ full. does (sends full))

-- the shapes of the handlers
pub ruleset effects = (or_else, bind, submitted-Effect, printed-Effects, does, faults, refuses)
