-- ===== src/Events/Network.antt =====
-- Unsolicited codes about the network and the clock: `creg_parse`, `ccwa_parse`, `ctzv_parse` and those without a
-- parser of gta02-dm1/user_space/gsm/src/gsmd/unsolicited.c, `generate_event_from_cms`, `sms_cb_network_init` of
-- sms_cb.c and `gsmd_simplecmd` of gsmd.c. `hex_number s` is `strtoul(s, NULL, 16)`. Texts are C strings, and
-- `none` stands for a read behind the end of one, and for `atoi` of a number that does not fit an `int`,
-- for which C defines no result.
pub mod Noted
use mathlib.Core.Option
use system_test_suite.Base.{
  ℕ, ◌+◌, ◌%◌, ◌/◌, ◌^◌, Bool, true, ◌||◌, Option, none, some, List, [], ◌∷◌, ◌++◌, ltb, leb, ◌==◌,
  if◌then◌else◌, Bytes, codes, length, take, drop, replicate, zeros, ◌>>=◌, ◌-◌,
}
use system_test_suite.Base.Int.{ℤ, pos, negsuc}
use system_test_suite.Atcmd.Queue.{Gsmd, Env, Callback, find_char, atcmd_fill, atcmd_submit}
use system_test_suite.Atcmd.Mlparse.Texts.{is_space, digits_value, strtoul, to_int32}
use system_test_suite.Usock.Replies.{atoi_u8, strtok, int_octets}
use system_test_suite.Events.{Ucmd, User, usock_evt_send}
use system_test_suite.Events.Handlers.{
  msg_event, auxdata_size, addr_maxlen, sent, usock_build_event,
}

-- `filled` says whether `atcmd_fill` gives a command
abbrev pub gsmd_simplecmd : Env → Callback → Bool → Gsmd → Bytes → Gsmd
gsmd_simplecmd env cb filled g cmdtxt = elim (atcmd_fill filled cmdtxt (length cmdtxt + 1) cb 0) [
  | none ↦ g
  | some cmd ↦ atcmd_submit env g cmd
]

abbrev pub sms_cb_network_init : Env → Callback → (ℕ → Bool) → Gsmd → Gsmd
sms_cb_network_init env cb filled g =
    gsmd_simplecmd env cb (filled 1) (gsmd_simplecmd env cb (filled 0) g (codes "AT+CSMS=0"))
      (codes "AT+CNMI=2,1,2,1,0")

-- what `creg_parse` leaves
pub record Registered : Type 0 where
  pub users : List User
  pub gsmd : Gsmd
  pub rc : ℤ

abbrev pub u16 : ℕ → Bytes
u16 n = (n % 256) ∷ (n / 256 % 256) ∷ []

-- The number at the start of the text fits an `int`.
unfoldable pub int_fits : Bytes → Bool
int_fits [] = true
int_fits (c ∷ s) =
    let rest = int_fits s in
    if is_space c
    then rest
    else if c == b'-'
    then leb (digits_value 0 s) (2 ^ 31)
    else if c == b'+'
    then ltb (digits_value 0 s) (2 ^ 31)
    else ltb (digits_value 0 (c ∷ s)) (2 ^ 31)

-- `atoi`, as a number of 32 bits, which is read as `strtoul` reads it where it fits
unfoldable pub atoi : Bytes → Option ℕ
unfolding int_fits strtoul
atoi s = if int_fits s then some (strtoul s) else none

-- `cusd_parse`, `cccm_parse`, `cgev_parse` and `cgreg_parse`
abbrev pub unparsed : Bytes → ℤ
unparsed param = pos 0

module _ (memory : ℕ → Option Bytes) (users : List User) (fresh : Option Ucmd) where
  -- the event is filled in and sent
  abbrev pub event_sent : ℕ → Ucmd → (Bytes → Bytes) → List User × ℤ
  event_sent evt ucmd filled =
      sent (usock_evt_send memory users (record ucmd { buf = filled ucmd.buf }) evt)

  abbrev pub time_zone : Ucmd → ℕ → List User × ℤ
  time_zone ucmd tz =
      let in_range : Bool = elim (to_int32 tz) [ pos n ↦ leb n 48 | negsuc k ↦ leb k 47 ] in
      if in_range then event_sent 11 ucmd (λ buf. (tz % 256) ∷ drop 1 buf) else (users, negsuc 21)

  unfoldable pub ctzv_parse : Bytes → Option (List User × ℤ)
  unfolding atoi
  ctzv_parse param = elim (usock_build_event msg_event 11 auxdata_size fresh) [
    | none ↦ some (users, negsuc 11)
    | some ucmd ↦ atoi param >>= λ tz. some (time_zone ucmd tz)
  ]

  abbrev pub call_waits : Ucmd → List Bytes → List User × ℤ
  call_waits ucmd [] = (users, negsuc 21)
  call_waits ucmd (number ∷ []) = (users, negsuc 21)
  call_waits ucmd (number ∷ type ∷ rest) = event_sent 10 ucmd (λ buf.
      atoi_u8 type
      ∷ (take addr_maxlen number
          ++ (zeros (addr_maxlen + 1 - length (take addr_maxlen number)) ++ drop 34 buf)))

  -- The number is looked for in `buf`, where the code is.
  unfoldable pub ccwa_parse : Bytes → List User × ℤ
  unfolding strtok atoi_u8
  ccwa_parse buf = elim (usock_build_event msg_event 10 34 fresh) [
    | none ↦ (users, negsuc 11)
    | some ucmd ↦ call_waits ucmd (strtok b',' [] buf)
  ]

  unfoldable pub generate_event_from_cms : ℕ → List User × ℤ
  generate_event_from_cms cms_error = elim (usock_build_event msg_event 16 auxdata_size fresh) [
    | none ↦ (users, negsuc 0)
    | some ucmd ↦ event_sent 16 ucmd (λ buf. int_octets cms_error ++ drop 4 buf)
  ]

  module _ (hex_number : Bytes → ℕ) (env : Env) (cb : Callback) (filled : ℕ → Bool) (g : Gsmd) where
    -- the number behind a comma and one more character
    abbrev pub quoted_hex : Bytes → ℕ → Option ℕ
    quoted_hex s comma =
        if ltb (length s) (comma + 2) then none else some (hex_number (drop (comma + 2) s) % 2 ^ 16)

    abbrev pub registered : ℕ → Ucmd → ℕ × ℕ → Registered
    registered state ucmd (lac, ci) =
        let result =
          event_sent 5 ucmd (λ buf. int_octets state ++ (u16 lac ++ (u16 ci ++ drop 8 buf))) in
        record {
          users = result.0;
          gsmd = if state == 1 || state == 5 then sms_cb_network_init env cb filled g else g;
          rc = result.1;
        }

    -- the cell behind the second comma
    abbrev pub with_cell : ℕ → Ucmd → Bytes → ℕ → Option ℕ → Option Registered
    with_cell state ucmd s lac none = some (record { users = users; gsmd = g; rc = negsuc 21 })
    with_cell state ucmd s lac (some comma) =
        quoted_hex s comma >>= λ ci. some (registered state ucmd (lac, ci))

    abbrev pub with_place : ℕ → Ucmd → Bytes → Option ℕ → Option Registered
    with_place state ucmd param none = some (registered state ucmd (0, 0))
    with_place state ucmd param (some comma) = do
      lac ← quoted_hex param comma
      let behind = drop (comma + 1) param
      with_cell state ucmd behind lac (find_char b',' behind)

    unfoldable pub creg_parse : Bytes → Option Registered
    unfolding atoi find_char atcmd_fill
    creg_parse param = elim (usock_build_event msg_event 5 auxdata_size fresh) [
      | none ↦ some (record { users = users; gsmd = g; rc = negsuc 11 })
      | some ucmd ↦ atoi param >>= λ state. with_place state ucmd param (find_char b',' param)
    ]
