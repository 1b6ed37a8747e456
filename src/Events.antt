-- ===== src/Events.antt =====
-- Events for the clients of the daemon: the second half of
-- gta02-dm1/user_space/gsm/src/gsmd/unsolicited.c, which makes events of error numbers, and
-- `usock_evt_send`, which puts an event into the queue of every client that subscribed to it. Whether
-- an allocation succeeds is an argument. Below it: the table of the handlers of unsolicited codes,
-- and some of them.
pub mod Delivery
pub mod Dispatch
pub mod Errors
pub mod Handlers
pub mod Network
pub mod Opnames
use Prim.Native.Nat.{bit_and}
use system_test_suite.Base.{
  ℕ, zero, suc, ◌+◌, ◌-◌, ◌^◌, Bool, true, false, not, ◌||◌, Option, none, some, List, [], ◌∷◌,
  ◌++◌, ◌==◌, if◌then◌else◌, Bytes, take,
}

-- `struct gsmd_ucmd`, without its link
pub record Ucmd : Type 0 where
  pub msg_type : ℕ
  pub msg_subtype : ℕ
  pub id : ℕ
  pub len : ℕ
  pub buf : Bytes

-- `struct gsmd_user`: its subscriptions, and the messages that wait to be written to it
pub record User : Type 0 where
  pub subscriptions : ℕ
  pub finished : List Ucmd
  pub wants_write : Bool

abbrev pub usock_cmd_enqueue : Ucmd → User → User
usock_cmd_enqueue ucmd gu = record gu { finished = gu.finished ++ ucmd ∷ []; wants_write = true }

-- The link and the header of a message, 8 octets each on the 32-bit target, are copied as part of the
-- `len` octets; the rest of the copy is what stood in its memory. Messages have at least 16 octets, as
-- the events of the daemon have.
abbrev pub ucmd_front : ℕ
ucmd_front = 16

unfoldable pub ucmd_copy : Bytes → Ucmd → Ucmd
ucmd_copy memory orig = record orig { buf = take (orig.len - ucmd_front) orig.buf ++ memory }

-- `gu->subscriptions & (1 << evt)`
abbrev pub subscribed : ℕ → User → Bool
subscribed evt gu = not (bit_and gu.subscriptions (2 ^ evt) == 0)

-- The loop over the users. `memory n` is the memory of the copy that is made when `n` were sent, and
-- `none` where there is none.
unfoldable pub send_to : (ℕ → Option Bytes) → Ucmd → ℕ → ℕ → List User → List User × ℕ
unfolding ucmd_copy
send_to memory ucmd evt num_sent [] = ([], num_sent)
send_to memory ucmd evt num_sent (gu ∷ users) =
    let (passed, n) = send_to memory ucmd evt num_sent users in
    let (others, total) = send_to memory ucmd evt (suc num_sent) users in
    let copied : List User × ℕ = elim (memory num_sent) [
      | none ↦ (gu ∷ users, num_sent)
      | some bytes ↦ (usock_cmd_enqueue (ucmd_copy bytes ucmd) gu ∷ others, total)
    ] in
    if subscribed evt gu
    then if num_sent == 0 then (usock_cmd_enqueue ucmd gu ∷ others, total) else copied
    else (gu ∷ passed, n)

-- The users, and the number of those that were sent the event.
unfoldable pub usock_evt_send : (ℕ → Option Bytes) → List User → Ucmd → ℕ → List User × ℕ
unfolding send_to
usock_evt_send memory users ucmd evt = send_to memory ucmd evt 0 users

-- `errors_creating_events`, by the numbers of `enum` in include/gsmd/ts0707.h
abbrev pub errors_creating_events : List ℕ
errors_creating_events =
    0 ∷ 1 ∷ 2 ∷ 5 ∷ 6 ∷ 7 ∷ 10 ∷ 11 ∷ 12 ∷ 17 ∷ 18 ∷ 40 ∷ 41 ∷ 42 ∷ 43 ∷ 44 ∷ 45 ∷ 46 ∷ 47 ∷ []

unfoldable pub is_in_array : ℕ → List ℕ → Bool
is_in_array val [] = false
is_in_array val (a ∷ arr) = a == val || is_in_array val arr

-- what `generate_event_from_cme` sends: an error, a PIN that is wanted (by `GSMD_PIN_...`), or nothing
pub data CmeEvent : Type 0 where
  in_error : ℕ → CmeEvent
  pin : ℕ → CmeEvent
  no_event : CmeEvent

-- the `switch`
abbrev pub pin_event : ℕ → CmeEvent
pin_event e =
    if e == 5
    then pin 3
    else if e == 6
    then pin 4
    else if e == 7
    then pin 5
    else if e == 11
    then pin 1
    else if e == 12
    then pin 2
    else if e == 17
    then pin 6
    else if e == 18
    then pin 7
    else if e == 40
    then pin 8
    else if e == 41
    then pin 9
    else if e == 42
    then pin 10
    else if e == 43
    then pin 11
    else if e == 44
    then pin 12
    else if e == 45
    then pin 13
    else if e == 46
    then pin 14
    else if e == 47
    then pin 15
    else no_event

unfoldable pub generate_event_from_cme : ℕ → CmeEvent
unfolding is_in_array
generate_event_from_cme cme_error =
    if not (is_in_array cme_error errors_creating_events)
    then in_error cme_error
    else pin_event cme_error
