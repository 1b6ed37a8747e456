-- ===== src/Usock/Incoming.antt =====
-- The unsolicited codes about messages, the handlers of `gsm0705_unsolicit` in sms_cb.c. `allocated` is
-- whether `usock_build_event` gives a message, `param` a C string, and `dst` what stood in the memory of the
-- event. `scan param` is what `sscanf(param, "\"%2[A-Z]\",%i", ...)` stores, with `none` for fewer than two items;
-- `hex c d` is what `sscanf(cr, "%2hhX", ...)` stores if `cr` starts with the two characters.
pub mod Inlined
use mathlib.Core.Option
use system_test_suite.Base.{
  ℕ, zero, suc, ◌+◌, Bool, ◌||◌, Option, none, some, List, [], ◌∷◌, ltb, ◌==◌, if◌then◌else◌, Bytes,
  length, drop, ◌>>=◌,
}
use system_test_suite.Base.Int.{ℤ, pos, negsuc}
use system_test_suite.Atcmd.Queue.{find_char}
use system_test_suite.Atcmd.Mlparse.Texts.{
  strings_equal, first_char, is_space, is_digit, strtoul, to_int32,
}
use system_test_suite.Sms.Types.{SmsList}
use system_test_suite.Sms.Pdu.{sms_pdu_to_msg}
use system_test_suite.Sms.Cbs.{Cbm, cbs_pdu_to_msg}
use system_test_suite.Usock.Shortmsg.{memtype_name}

-- What a handler does: it returns a code, or sends an event of the kind given, about a message that is
-- stored, or with the message.
pub data Incoming : Type 0 where
  refused : ℤ → Incoming
  stored : ℕ → ℕ → ℤ → Incoming
  sms_told : ℕ → SmsList → Incoming
  cbm_told : ℕ → Cbm → Incoming

unfoldable pub memtype_from : ℕ → List Bytes → Bytes → ℕ
memtype_from i [] memtype = 0
memtype_from i (name ∷ names) memtype =
    let rest = memtype_from (suc i) names memtype in if strings_equal name memtype then i else rest

abbrev pub parse_memtype : Bytes → ℕ
parse_memtype memtype = memtype_from 0 memtype_name memtype

unfoldable pub after_digits : Bytes → Bytes
after_digits [] = []
after_digits (c ∷ s) = let rest = after_digits s in if is_digit c then rest else c ∷ s

unfoldable pub after_spaces : Bytes → Bytes
after_spaces [] = []
after_spaces (c ∷ s) = let rest = after_spaces s in if is_space c then rest else c ∷ s

abbrev pub after_sign : Bytes → Bytes
after_sign [] = []
after_sign (c ∷ s) = if c == b'+' || c == b'-' then s else c ∷ s

-- where `strtoul(s, &cr, 10)` leaves `cr`: at the start if there is no number
unfoldable pub number_end : Bytes → Bytes
unfolding after_digits after_spaces
number_end s =
    let digits = after_sign (after_spaces s) in
    if is_digit (first_char digits) then after_digits digits else s

-- A length below 1 is refused as 0 is.
abbrev pub pdu_len : ℤ → ℕ
pdu_len (pos n) = n
pdu_len (negsuc k) = 0

abbrev pub sms_max_pdu_size : ℕ
sms_max_pdu_size = 180

abbrev pub cbm_size : ℕ
cbm_size = 88

module _ (hex : ℕ → ℕ → Option ℕ) where
  -- The octets that the text stands for, at most `room`; `none` where one is malformed.
  unfoldable pub pdu_octets : ℕ → Bytes → Option Bytes
  pdu_octets zero cr = some []
  pdu_octets (suc room) [] = some []
  pdu_octets (suc room) (c ∷ []) = some []
  pdu_octets (suc room) (c ∷ d ∷ cr) =
      let more = (do octet ← hex c d; rest ← pdu_octets room cr; some (octet ∷ rest)) in
      if ltb c b'0' || ltb d b'0' then some [] else more

  -- the text from `cr` on: a newline, and what is done with the text behind it
  abbrev pub behind_newline : Bytes → (Bytes → Option Incoming) → Option Incoming
  behind_newline [] on = some (refused (negsuc 10))
  behind_newline (c ∷ cr) on =
      let go = on cr in if c == b'\n' then go else some (refused (negsuc 10))

  abbrev pub numbered : Bytes → (ℕ → Bytes → Option Incoming) → Option Incoming
  numbered s on = behind_newline (number_end s) (on (pdu_len (to_int32 (strtoul s))))

  abbrev pub sms_decoded : ℕ → SmsList → ℕ → Option Bytes → Option Incoming
  sms_decoded evt dst len none = some (refused (negsuc 21))
  sms_decoded evt dst len (some pdu) = sms_pdu_to_msg dst pdu len (length pdu) >>= λ r.
      some (if r.1 == 0 then sms_told evt r.0 else refused (negsuc 21))

  abbrev pub sms_inlined : ℕ → SmsList → ℕ → Bytes → Option Incoming
  sms_inlined evt dst len cr = sms_decoded evt dst len (pdu_octets sms_max_pdu_size cr)

  abbrev pub cbm_decoded : Cbm → ℕ → Option Bytes → Option Incoming
  cbm_decoded dst len none = some (refused (negsuc 21))
  cbm_decoded dst len (some pdu) = cbs_pdu_to_msg dst pdu len (length pdu) >>= λ r.
      some (if r.1 == 0 then cbm_told 14 r.0 else refused (negsuc 21))

  abbrev pub cbm_inlined : Cbm → ℕ → Bytes → Option Incoming
  cbm_inlined dst len cr = cbm_decoded dst len (pdu_octets cbm_size cr)

  abbrev pub behind_comma : Option ℕ → Bytes → (Bytes → Option Incoming) → Option Incoming
  behind_comma none param on = some (refused (negsuc 21))
  behind_comma (some comma) param on = on (drop (suc comma) param)

  module _ (allocated : Bool) where
    unfoldable pub cmt_parse : SmsList → Bytes → Option Incoming
    unfolding number_end strtoul pdu_octets
    cmt_parse dst param =
        let go = behind_comma (find_char b',' param) param (λ s. numbered s (sms_inlined 2 dst)) in
        if allocated then go else some (refused (negsuc 11))

    unfoldable pub cds_parse : SmsList → Bytes → Option Incoming
    unfolding number_end strtoul pdu_octets
    cds_parse dst param =
        let go = numbered param (sms_inlined 15 dst) in
        if allocated then go else some (refused (negsuc 11))

    unfoldable pub cbm_parse : Cbm → Bytes → Option Incoming
    unfolding number_end strtoul pdu_octets
    cbm_parse dst param =
        let go = numbered param (cbm_inlined dst) in
        if allocated then go else some (refused (negsuc 11))

module _ (scan : Bytes → Option (Bytes × ℤ)) (allocated : Bool) where
  abbrev pub stored_told : ℕ → Option (Bytes × ℤ) → Incoming
  stored_told evt none = refused (negsuc 21)
  stored_told evt (some (memstr, index)) = stored evt (parse_memtype memstr) index

  unfoldable pub cmti_parse : Bytes → Incoming
  unfolding memtype_from
  cmti_parse param = if allocated then stored_told 2 (scan param) else refused (negsuc 11)

  unfoldable pub cbmi_parse : Bytes → Incoming
  unfolding memtype_from
  cbmi_parse param = if allocated then stored_told 14 (scan param) else refused (negsuc 11)

  unfoldable pub cdsi_parse : Bytes → Incoming
  unfolding memtype_from
  cdsi_parse param = if allocated then stored_told 15 (scan param) else refused (negsuc 11)
