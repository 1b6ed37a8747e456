-- ===== src/Events/Handlers.antt =====
-- Handlers of unsolicited codes that tell the clients of calls: `usock_build_event`, `ring_parse`,
-- `cring_parse`, `clip_parse` and `colp_parse` of gta02-dm1/user_space/gsm/src/gsmd/unsolicited.c.
-- `fresh` is the message that `ucmd_alloc` gives, with what stood in its memory, and `none` where
-- there is none; `memory` is that of the copies for further clients. `param` is a C string.
pub mod Numbers
use mathlib.Core.Option
use system_test_suite.Base.{
  ℕ, ◌+◌, Option, none, some, List, [], ◌∷◌, ◌++◌, ltb, if◌then◌else◌, Bytes, codes, length, take,
  drop,
}
use system_test_suite.Base.Int.{ℤ, pos, negsuc}
use system_test_suite.Atcmd.Queue.{find_char}
use system_test_suite.Atcmd.Mlparse.Texts.{strings_equal, starts_with}
use system_test_suite.Events.{Ucmd, User, usock_evt_send}

abbrev pub msg_event : ℕ
msg_event = 1

-- of `enum gsmd_events`
abbrev pub evt_in_call : ℕ
evt_in_call = 1

abbrev pub evt_in_clip : ℕ
evt_in_clip = 4

abbrev pub evt_out_colp : ℕ
evt_out_colp = 9

abbrev pub addr_maxlen : ℕ
addr_maxlen = 32

-- `sizeof(struct gsmd_evt_auxdata)` on the 32-bit target: its largest member has a number of four
-- octets, an address of 34 and one octet, and ends at a multiple of four.
abbrev pub auxdata_size : ℕ
auxdata_size = 40

abbrev pub usock_build_event : ℕ → ℕ → ℕ → Option Ucmd → Option Ucmd
usock_build_event type subtype len fresh =
    Option.map {A = Ucmd} (λ u. record u { msg_type = type; msg_subtype = subtype; len = len })
      fresh

abbrev pub sent : List User × ℕ → List User × ℤ
sent (users, num_sent) = (users, pos num_sent)

-- an `enum` of four octets at the start of the data
abbrev pub with_type : ℕ → Ucmd → Ucmd
with_type type ucmd = record ucmd { buf = type ∷ 0 ∷ 0 ∷ 0 ∷ drop 4 ucmd.buf }

-- `strncat` to the emptied number of an address at the start of the data: `type` stays
abbrev pub with_number : Bytes → Ucmd → Ucmd
with_number number ucmd = record ucmd {
  buf = take 1 ucmd.buf ++ number ++ 0 ∷ drop (2 + length number) ucmd.buf;
}

module _ (memory : ℕ → Option Bytes) (users : List User) (fresh : Option Ucmd) where
  unfoldable pub ring_parse : List User × ℤ
  ring_parse = elim (usock_build_event msg_event evt_in_call auxdata_size fresh) [
    | none ↦ (users, negsuc 11)
    | some ucmd ↦ sent (usock_evt_send memory users (with_type 1 ucmd) evt_in_call)
  ]

  -- A text of no known kind leaves the type as it stood in the memory.
  unfoldable pub cring_parse : Bytes → List User × ℤ
  cring_parse param = elim (usock_build_event msg_event evt_in_call auxdata_size fresh) [
    | none ↦ (users, negsuc 11)
    | some ucmd ↦
        let send : Ucmd → List User × ℤ = λ u. sent (usock_evt_send memory users u evt_in_call) in
        if strings_equal param (codes "VOICE")
        then send (with_type 2 ucmd)
        else if strings_equal param (codes "SYNC")
        then send (with_type 5 ucmd)
        else if strings_equal param (codes "REL ASYNC")
        then send (with_type 6 ucmd)
        else if strings_equal param (codes "REL SYNC")
        then send (with_type 7 ucmd)
        else if strings_equal param (codes "FAX")
        then send (with_type 4 ucmd)
        else if starts_with (codes "GPRS ") param
        then (users, pos 0)
        else send ucmd
  ]

  unfoldable pub address_event : ℕ → Bytes → List User × ℤ
  address_event evt param = elim (usock_build_event msg_event evt auxdata_size fresh) [
    | none ↦ (users, negsuc 11)
    | some ucmd ↦ elim (find_char b',' param) [
      | none ↦ (users, negsuc 21)
      | some n ↦
          if ltb addr_maxlen n
          then (users, negsuc 21)
          else sent (usock_evt_send memory users (with_number (take n param) ucmd) evt)
    ]
  ]

  abbrev pub clip_parse : Bytes → List User × ℤ
  clip_parse param = address_event evt_in_clip param

  abbrev pub colp_parse : Bytes → List User × ℤ
  colp_parse param = address_event evt_out_colp param
