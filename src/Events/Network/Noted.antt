-- ===== src/Events/Network/Noted.antt =====
-- The state of the network, from the modem's line to the handle of a client.
use system_test_suite.Base.{
  ℕ, ◌+◌, ◌^◌, ◌<◌, ◌≡◌, ◌⊎◌, refl, subst, Bool, Bool-cases, ◌||◌, Option, none, some, inl, inr,
  List, [], ◌∷◌, ◌++◌, ◌==◌, if◌then◌else◌, Bytes, drop, get_elem?, ◌>>=◌, arith,
}
use system_test_suite.Base.Int.{negsuc}
use system_test_suite.Atcmd.Queue.{Gsmd, Env, Callback, find_char}
use system_test_suite.Atcmd.Mlparse.Texts.{strtoul}
use system_test_suite.Usock.Replies.{int_octets}
use system_test_suite.Events.{Ucmd, User, usock_evt_send}
use system_test_suite.Events.Handlers.{msg_event, auxdata_size, sent}
use system_test_suite.Events.Network.{
  u16, Registered, sms_cb_network_init, quoted_hex, registered, with_cell, with_place, int_fits,
  atoi, creg_parse,
}
use system_test_suite.Libgsmd.Layout.{u32_back}
use system_test_suite.Libgsmd.Events.{
  Client, EvtHandler, EvtHandlers, handled, evt_demux_msghandler,
}
use system_test_suite.Libgsmd.Events.Calls.{packet_of}

strtoul_bound : (s : Bytes) → strtoul s < 2 ^ 32
unfolding strtoul
strtoul_bound [] = omega arith
strtoul_bound (c ∷ s) = ground (arith, strtoul_bound s)

from_bind :
    {A B : Type 0} (o : Option A) (f : A → Option B) (b : B)
    → (o >>= f) ≡ some b
    → (a : A) × (f a ≡ some b)
from_bind none f b e = absurd cc
from_bind (some a) f b e = (a, e)

module _ (memory : ℕ → Option Bytes) (users : List User) (fresh : Ucmd) (hex_number : Bytes → ℕ)
    (env : Env) (cb : Callback) (filled : ℕ → Bool) (g : Gsmd) where
  module _ {S : Type 0} (evts : EvtHandlers S) (handler : Option (EvtHandler S)) (lh : Client S)
      (rest : Bytes) where
    -- The event is one that a client notes the state from. The queues are those of the daemon, with the commands of
    -- `sms_cb_network_init` if the phone is registered.
    abbrev pub Tells : ℕ → Registered → Type 0
    Tells state result =
        (ucmd : Ucmd) × ((result.users, result.rc) ≡ sent (usock_evt_send memory users ucmd 5))
        × (result.gsmd
            ≡ (if state == 1 || state == 5 then sms_cb_network_init env cb filled g else g))
        × (evt_demux_msghandler evts lh (packet_of ucmd).hdr (ucmd.buf ++ rest)
            ≡ some (handled handler (record lh { netreg_state = state }) 5 (ucmd.buf ++ rest)))

    module _ (found : get_elem? evts 5 ≡ some handler) (state : ℕ) (small : state < 2 ^ 32) where
      abbrev built : Ucmd
      built = record fresh { msg_type = msg_event; msg_subtype = 5; len = auxdata_size }

      abbrev made : ℕ × ℕ → Registered
      made = registered memory users (some fresh) hex_number env cb filled g state built

      -- the result of a line that is taken, or a refusal
      abbrev Told : Registered → Type 0
      Told result =
          ((result.users ≡ users) × (result.gsmd ≡ g) × (result.rc ≡ negsuc 21))
          ⊎ Tells state result

      tells : (place : ℕ × ℕ) → Tells state (made place)
      unfolding evt_demux_msghandler
      tells (lac, ci) = (
        record built { buf = int_octets state ++ (u16 lac ++ (u16 ci ++ drop 8 fresh.buf)) },
        refl,
        refl,
        rw (u32_back state small, found) refl,
      )

      with_cell-Told :
          (s : Bytes) (lac : ℕ) (o : Option ℕ) (result : Registered)
          → with_cell memory users (some fresh) hex_number env cb filled g state built s lac o
            ≡ some result
          → Told result
      with_cell-Told s lac none result e =
          let same : record { users = users; gsmd = g; rc = negsuc 21 } ≡ result = cc e in
          subst Told same (inl (refl, refl, refl))
      with_cell-Told s lac (some comma) result e =
          let (ci, f) =
            from_bind (quoted_hex memory users (some fresh) hex_number env cb filled g s comma) _
              result e in
          let same : made (lac, ci) ≡ result = cc f in subst Told same (inr (tells (lac, ci)))

      with_place-Told :
          (param : Bytes) (o : Option ℕ) (result : Registered)
          → with_place memory users (some fresh) hex_number env cb filled g state built param o
            ≡ some result
          → Told result
      with_place-Told param none result e =
          let same : made (0, 0) ≡ result = cc e in subst Told same (inr (tells (0, 0)))
      with_place-Told param (some comma) result e =
          let (lac, f) =
            from_bind (quoted_hex memory users (some fresh) hex_number env cb filled g param comma)
              _ result e in
          let behind = drop (comma + 1) param in
          with_cell-Told behind lac (find_char b',' behind) result f

    -- A line of +CREG that `creg_parse` reads, without going behind its end and with a number at the start
    -- that fits an `int`, is refused with -EINVAL, and then nothing is changed, or it sends an event of the
    -- network registration: a client that gets the event notes that number as its state, before it calls its
    -- handler. The commands that make the modem tell of messages are submitted then if the number is one of a
    -- network that the phone is registered in. The table of the client has an entry for the event, and there is
    -- memory for it.
    pub creg_parse-noted :
        (param : Bytes) (result : Registered)
        → get_elem? evts 5 ≡ some handler
        → creg_parse memory users (some fresh) hex_number env cb filled g param ≡ some result
        → (state : ℕ) × (atoi param ≡ some state)
          × (((result.users ≡ users) × (result.gsmd ≡ g) × (result.rc ≡ negsuc 21))
              ⊎ Tells state result)
    unfolding creg_parse atoi
    creg_parse-noted param result found e = elim (Bool-cases (int_fits param)) [
      | inl fits ↦ (
        strtoul param,
        rw fits refl,
        with_place-Told found (strtoul param) (strtoul_bound param) param (find_char b',' param)
            result (rw fits at e),
      )
      | inr large ↦ absurd (cc (rw large at e))
    ]
