-- ===== src/Events/Delivery.antt =====
-- Who gets an event, and what of it.
use Prim.Native.Nat.{bit_and}
use system_test_suite.Base.{
  ℕ, suc, ◌+◌, ◌-◌, ◌^◌, ◌++◌, ◌==◌, Bool, true, false, take, ◌≡◌, refl, ap, some, List, [], ◌∷◌,
  arith, if◌then◌else◌, Bytes, ne→==, Bool-cases, inl, inr,
}
use system_test_suite.Events.{Ucmd, User, ucmd_copy, subscribed, send_to, usock_evt_send}

-- the bit of the event in the subscriptions of a user
abbrev pub wants : ℕ → User → Bool
wants evt gu = if bit_and gu.subscriptions (2 ^ evt) == 0 then false else true

-- the user with one message more at the end, who asks to write
abbrev pub with_message : Ucmd → User → User
with_message given gu = record {
  subscriptions = gu.subscriptions;
  finished = gu.finished ++ given ∷ [];
  wants_write = true;
}

-- A copy of an event: its fields, and the octets of its text but for the last 16, in front of what its
-- memory held.
abbrev pub event_copy : Bytes → Ucmd → Ucmd
event_copy held ucmd = record {
  msg_type = ucmd.msg_type;
  msg_subtype = ucmd.msg_subtype;
  id = ucmd.id;
  len = ucmd.len;
  buf = take (ucmd.len - 16) ucmd.buf ++ held;
}

-- the users behind the first that subscribed
abbrev pub copies_to : (ℕ → Bytes) → Ucmd → ℕ → ℕ → List User → List User
copies_to memory ucmd evt n [] = []
copies_to memory ucmd evt n (gu ∷ users) =
    if wants evt gu
    then with_message (event_copy (memory n) ucmd) gu ∷ copies_to memory ucmd evt (suc n) users
    else gu ∷ copies_to memory ucmd evt n users

abbrev pub delivered_to : (ℕ → Bytes) → Ucmd → ℕ → List User → List User
delivered_to memory ucmd evt [] = []
delivered_to memory ucmd evt (gu ∷ users) =
    if wants evt gu
    then with_message ucmd gu ∷ copies_to memory ucmd evt 1 users
    else gu ∷ delivered_to memory ucmd evt users

abbrev pub subscribers : ℕ → List User → ℕ
subscribers evt [] = 0
subscribers evt (gu ∷ users) = (if wants evt gu then 1 else 0) + subscribers evt users

-- the test of the loop is the one of the description
subscribed-wants : (evt : ℕ) (gu : User) → subscribed evt gu ≡ wants evt gu
subscribed-wants evt gu = elim (Bool-cases (bit_and gu.subscriptions (2 ^ evt) == 0)) [
  | inl none_set ↦ rw none_set refl
  | inr set_bit ↦ rw set_bit refl
]

send_copies :
    (memory : ℕ → Bytes) (ucmd : Ucmd) (evt n : ℕ) (users : List User)
    → send_to (λ k. some (memory k)) ucmd evt (suc n) users
      ≡ (copies_to memory ucmd evt (suc n) users, suc n + subscribers evt users)
unfolding send_to ucmd_copy
send_copies memory ucmd evt n [] = ap (λ k. ([], k)) (omega arith)
send_copies memory ucmd evt n (gu ∷ users) = elim (Bool-cases (wants evt gu)) [
  | inl asks ↦
      rw
        (
          subscribed-wants evt gu,
          asks,
          ne→== (suc n) 0 (omega arith),
          send_copies memory ucmd evt (suc n) users,
        )
        (ap
          (λ k. (
            with_message (event_copy (memory (suc n)) ucmd) gu
                ∷ copies_to memory ucmd evt (suc (suc n)) users,
            k,
          ))
          (omega arith))
  | inr other ↦
      rw (subscribed-wants evt gu, other, send_copies memory ucmd evt n users)
        (ap (λ k. (gu ∷ copies_to memory ucmd evt (suc n) users, k)) (omega arith))
]

send_first :
    (memory : ℕ → Bytes) (ucmd : Ucmd) (evt : ℕ) (users : List User)
    → send_to (λ k. some (memory k)) ucmd evt 0 users
      ≡ (delivered_to memory ucmd evt users, subscribers evt users)
unfolding send_to ucmd_copy
send_first memory ucmd evt [] = refl
send_first memory ucmd evt (gu ∷ users) = elim (Bool-cases (wants evt gu)) [
  | inl asks ↦ rw (subscribed-wants evt gu, asks, send_copies memory ucmd evt 0 users) refl
  | inr other ↦
      rw (subscribed-wants evt gu, other, send_first memory ucmd evt users)
        (ap (λ k. (gu ∷ delivered_to memory ucmd evt users, k)) (omega arith))
]

-- When memory lasts, the number returned is the number of users that subscribed to the event; each of
-- them has one message more at the end of its queue and wants to write, and the other users are as
-- before. The first gets the event itself, the later ones copies of it, of which all but the last 16
-- octets of the text are the event's and the rest is what stood in the memory of the copy.
pub usock_evt_send-subscribers :
    (memory : ℕ → Bytes) (users : List User) (ucmd : Ucmd) (evt : ℕ)
    → usock_evt_send (λ k. some (memory k)) users ucmd evt
      ≡ (delivered_to memory ucmd evt users, subscribers evt users)
unfolding usock_evt_send
usock_evt_send-subscribers memory users ucmd evt = send_first memory ucmd evt users
