-- ===== src/Libgsmd/Events.antt =====
-- The events that reach a client, libgsmd_event.c. `S` is what the handlers of the client change besides the
-- state of the network in the handle; the table of handlers is a list of 17.
pub mod Calls
use mathlib.Core.Option
use system_test_suite.Base.{
  ℕ, ◌+◌, Option, none, some, List, ltb, leb, ◌==◌, ◌||◌, not, if◌then◌else◌, Bytes, set, get_elem?,
  ◌>>=◌,
}
use system_test_suite.Base.Int.{ℤ, pos, negsuc}
use system_test_suite.Base.Text.{u32_at}
use system_test_suite.Usock.Message.{MsgHdr}
use system_test_suite.Events.Handlers.{msg_event, auxdata_size}
use system_test_suite.Libgsmd.Packets.{
  Handler, Handlers, lgsm_register_handler, lgsm_unregister_handler,
}

abbrev pub num_gsmd_evt : ℕ
num_gsmd_evt = 17

abbrev pub evt_netreg : ℕ
evt_netreg = 5

-- `netreg_state` of `struct lgsm_handle`, and what belongs to the client
pub record Client (S : Type 0) : Type 0 where
  pub netreg_state : ℕ
  pub state : S

-- `lgsm_evt_handler`, given the event and the memory from its data on
abbrev pub EvtHandler : Type 0 → Type 0
EvtHandler S = Client S → ℕ → Bytes → Client S × ℤ

abbrev pub EvtHandlers : Type 0 → Type 0
EvtHandlers S = List (Option (EvtHandler S))

module _ {S : Type 0} where
  -- The guard does not keep out the negative numbers, with which memory outside the table is written.
  unfoldable pub lgsm_evt_handler_register :
      EvtHandlers S → ℤ → EvtHandler S → Option (EvtHandlers S × ℤ)
  lgsm_evt_handler_register evts (negsuc k) handler = none
  lgsm_evt_handler_register evts (pos evt_type) handler = some (
      if leb num_gsmd_evt evt_type
      then (evts, negsuc 21)
      else (set evts evt_type (some handler), pos 0))

  unfoldable pub lgsm_evt_handler_unregister : EvtHandlers S → ℤ → Option (EvtHandlers S)
  lgsm_evt_handler_unregister evts (negsuc k) = none
  lgsm_evt_handler_unregister evts (pos evt_type) =
      some (if ltb evt_type num_gsmd_evt then set evts evt_type none else evts)

  -- the `switch` on the event
  abbrev pub noted : Client S → ℕ → Bytes → Option (Client S)
  noted lh event aux =
      let new = (u32_at aux 0 >>= λ state. some (record lh { netreg_state = state })) in
      if event == evt_netreg then new else some lh

  abbrev pub handled : Option (EvtHandler S) → Client S → ℕ → Bytes → Client S × ℤ
  handled none lh event aux = (lh, pos 0)
  handled (some handler) lh event aux = handler lh event aux

  -- `none` where memory that is not there is read
  unfoldable pub evt_demux_msghandler :
      EvtHandlers S → Client S → MsgHdr → Bytes → Option (Client S × ℤ)
  evt_demux_msghandler evts lh gmh aux =
      let called = (do
        after ← noted lh gmh.msg_subtype aux
        handler ← get_elem? evts gmh.msg_subtype
        some (handled handler after gmh.msg_subtype aux)) in
      if ltb gmh.len auxdata_size
      then some (lh, negsuc 4)
      else if not (gmh.msg_type == msg_event) || leb num_gsmd_evt gmh.msg_subtype
      then some (lh, negsuc 21)
      else called

  abbrev outcome : Option (Client S × ℤ) → Option (Client S) × ℤ
  outcome none = (none, pos 0)
  outcome (some (lh, rc)) = (some lh, rc)

  -- as a handler of messages: the state is `none` from the first such read on
  abbrev pub on_events : EvtHandlers S → Handler (Option (Client S))
  on_events evts none gmh aux = (none, pos 0)
  on_events evts (some lh) gmh aux = outcome (evt_demux_msghandler evts lh gmh aux)

  abbrev pub lgsm_evt_init :
      EvtHandlers S
      → Handlers (Option (Client S))
      → Client S
      → Client S × Option (Handlers (Option (Client S)) × ℤ)
  lgsm_evt_init evts handlers lh = (
    record lh { netreg_state = 0 },
    lgsm_register_handler handlers (pos msg_event) (on_events evts),
  )

  abbrev pub lgsm_evt_exit : Handlers (Option (Client S)) → Option (Handlers (Option (Client S)))
  lgsm_evt_exit handlers = lgsm_unregister_handler handlers (pos msg_event)
