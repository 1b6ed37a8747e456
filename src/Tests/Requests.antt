-- ===== src/Tests/Requests.antt =====
-- A client that dials, asks for the network, and has messages waiting.
use system_test_suite.Base.{
  ℕ, ◌-◌, ◌≡◌, map, some, refl, true, false, [], ◌∷◌, ◌++◌, Bytes, codes, zeros, arith, inr,
}
use system_test_suite.Base.Int.{pos, negsuc}
use system_test_suite.Atcmd.Queue.{callback, atcmd_fill, new_atcmd, atcmd_submit}
use system_test_suite.Atcmd.Queue.Growth.{Grows}
use system_test_suite.Events.{Ucmd}
use system_test_suite.Tests.Commands.{busy_env, idle_gsmd}
use system_test_suite.Usock.Message.{Phonebook, MsgHdr, msg_hdr, World, Session}
use system_test_suite.Usock.Client.{usock_rcv_pcmd, user_writable}
use system_test_suite.Usock.Requests.{usock_rcv_pcmd-Grows, usock_rcv_pcmd-refused}
use system_test_suite.Usock.Waiting.{
  readable, writable, IsServed, client_events, client_events-IsServed, user_writable-finished,
}
use system_test_suite.Usock.Entries.{
  lacks, IsEntry, entry_line, readrg_lines, one_entry, readrg_lines-entries,
}
use system_test_suite.Usock.Room.{IsSome, usock_rcv_voicecall-IsSome, usock_rcv_network-IsSome}
use system_test_suite.Usock.Calls.{usock_rcv_voicecall}
use system_test_suite.Usock.Network.{usock_rcv_network}

abbrev pub world : World
world = record {
  env = busy_env;
  cb = λ f. callback 0;
  allocated = λ n. true;
  fmt_text = false;
  register = pos 0;
  memory = [];
}

abbrev note : ℕ → Ucmd
note n = record { msg_type = 2; msg_subtype = 2; id = n; len = 3; buf = codes "OK" ++ 0 ∷ [] }

abbrev pub session : Session
session = record {
  gsmd = idle_gsmd;
  user = record { subscriptions = 2; finished = note 1 ∷ note 2 ∷ []; wants_write = true };
  pb_readrg_list = [];
  pb_find_list = [];
  on = true;
}

-- ATA, with the id 5
abbrev answer_msg : Bytes
answer_msg = 1 ∷ 3 ∷ 3 ∷ 0 ∷ 5 ∷ 0 ∷ 0 ∷ 0 ∷ zeros 40

abbrev answer_hdr : MsgHdr
answer_hdr = record { version = 1; msg_type = 3; msg_subtype = 3; id = 5; len = 0 }

-- a voice call that there is no handler for
abbrev odd_msg : Bytes
odd_msg = 1 ∷ 3 ∷ 9 ∷ 0 ∷ 5 ∷ 0 ∷ 0 ∷ 0 ∷ zeros 40

abbrev dial_hdr : MsgHdr
dial_hdr = record { version = 1; msg_type = 3; msg_subtype = 1; id = 5; len = 34 }

abbrev oper_hdr : MsgHdr
oper_hdr = record { version = 1; msg_type = 6; msg_subtype = 1; id = 5; len = 6 }

abbrev answered : Session
answered = record session {
  gsmd = atcmd_submit busy_env idle_gsmd (new_atcmd (codes "ATA") 4 (callback 0) 5);
}

usock_rcv_pcmd-Grows_example : Grows idle_gsmd answered.gsmd
unfolding usock_rcv_pcmd msg_hdr usock_rcv_voicecall atcmd_fill
usock_rcv_pcmd-Grows_example =
    usock_rcv_pcmd-Grows world session answered (pos 0) answer_msg 8 answer_hdr refl
      (λ h. absurd (omega (arith, h.1))) refl

usock_rcv_pcmd-refused_example : session ≡ session
unfolding usock_rcv_pcmd msg_hdr usock_rcv_voicecall
usock_rcv_pcmd-refused_example =
    usock_rcv_pcmd-refused world session session (negsuc 21) odd_msg 8
      (record answer_hdr { msg_subtype = 9 }) refl (λ h. absurd (omega (arith, h.1)))
      (λ e. absurd (omega (arith, e))) refl (21, refl, λ e. absurd (omega (arith, e)))

-- the second message is written by half
client_events-IsServed_example : IsServed (record session.user { finished = note 2 ∷ [] })
unfolding client_events user_writable msg_hdr usock_rcv_voicecall
client_events-IsServed_example =
    client_events-IsServed world session
      (record session { user = record session.user { finished = note 2 ∷ [] } })
      (readable (pos 8) odd_msg ∷ writable (λ n. pos (11 - n)) ∷ []) (inr refl) refl

user_writable-finished_example :
    (user_writable session.user (λ n. pos (11 - n))).0.finished ≡ note 2 ∷ []
user_writable-finished_example =
    user_writable-finished session.user (λ n. pos (11 - n)) (note 1 ∷ []) (note 2 ∷ []) refl
      (refl, tt) (λ e. absurd cc)

usock_rcv_voicecall-IsSome_example :
    IsSome (
      usock_rcv_voicecall world dial_hdr
        (129 ∷ codes "0123456789012345678901234567890123456789")
        42)
usock_rcv_voicecall-IsSome_example =
    usock_rcv_voicecall-IsSome world dial_hdr
      (129 ∷ codes "0123456789012345678901234567890123456789") 42 (omega arith)

usock_rcv_network-IsSome_example : IsSome (usock_rcv_network world oper_hdr (codes "26202xyz"))
usock_rcv_network-IsSome_example =
    usock_rcv_network-IsSome world oper_hdr (codes "26202xyz") refl (omega arith)

abbrev mother : Phonebook
mother = record { index = 12; numb = codes "+886912"; type = 145; text = codes "Mum" }

abbrev office : Phonebook
office = record { index = 100; numb = codes "110"; type = 129; text = codes "Office" }

mother-IsEntry : IsEntry mother
unfolding lacks
mother-IsEntry = record {
  index = omega arith;
  type = omega arith;
  numb_fits = omega arith;
  text_fits = omega arith;
  numb_quote = refl;
  text_quote = refl;
  text_comma = refl;
  numb_line = refl;
  text_line = refl;
}

office-IsEntry : IsEntry office
unfolding lacks
office-IsEntry = record {
  index = omega arith;
  type = omega arith;
  numb_fits = omega arith;
  text_fits = omega arith;
  numb_quote = refl;
  text_quote = refl;
  text_comma = refl;
  numb_line = refl;
  text_line = refl;
}

readrg_lines-entries_example :
    (s' : Session) × (readrg_lines world session (map entry_line (mother ∷ office ∷ [])) ≡ some s')
    × (s'.pb_readrg_list ≡ mother ∷ office ∷ [])
    × (s'.user.finished ≡ note 1 ∷ note 2 ∷ one_entry ∷ one_entry ∷ [])
    × (s'.gsmd ≡ idle_gsmd)
readrg_lines-entries_example =
    readrg_lines-entries world session (mother ∷ office ∷ []) refl
      (mother-IsEntry, (office-IsEntry, tt))
