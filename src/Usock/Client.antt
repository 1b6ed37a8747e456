-- ===== src/Usock/Client.antt =====
-- The dispatch of a client's message, and the callbacks of the sockets: `usock_rcv_pcmd`,
-- `gsmd_usock_user_cb` and `gsmd_usock_cb` of usock.c.
use system_test_suite.Base.{
  ℕ, zero, suc, ◌+◌, ◌^◌, ◌-◌, Bool, true, false, not, Option, none, some, List, [], ◌∷◌, leb, ◌==◌,
  if◌then◌else◌, Bytes, drop, ◌>>=◌,
}
use system_test_suite.Base.Int.{ℤ, pos, negsuc}
use system_test_suite.Events.{Ucmd, User}
use system_test_suite.Usock.Message.{
  MsgHdr, hdr_size, msg_hdr, World, Session, Action, perform, einval,
}
use system_test_suite.Usock.Calls.{
  usock_rcv_passthrough, usock_rcv_event, usock_rcv_voicecall, usock_rcv_pin, usock_rcv_phone,
}
use system_test_suite.Usock.Network.{usock_rcv_network}
use system_test_suite.Usock.Phonebooks.{usock_rcv_phonebook}
use system_test_suite.Usock.Shortmsg.{usock_rcv_sms, usock_rcv_cb}

abbrev gsmd_proto_version : ℕ
gsmd_proto_version = 1

abbrev num_gsmd_msgs : ℕ
num_gsmd_msgs = 11

-- `pcmd_type_handlers`, which has no handler of the types 0 and 4
unfoldable pub handler : World → Session → MsgHdr → Bytes → ℕ → Option Action
handler w s gph msg len =
    if gph.msg_type == 2
    then usock_rcv_passthrough w gph msg
    else if gph.msg_type == 1
    then usock_rcv_event w gph msg len
    else if gph.msg_type == 3
    then usock_rcv_voicecall w gph msg len
    else if gph.msg_type == 8
    then usock_rcv_pin w gph msg len
    else if gph.msg_type == 7
    then usock_rcv_phone w gph
    else if gph.msg_type == 6
    then usock_rcv_network w gph msg
    else if gph.msg_type == 9
    then usock_rcv_sms w gph msg len
    else if gph.msg_type == 10
    then usock_rcv_cb w gph
    else if gph.msg_type == 5
    then usock_rcv_phonebook w s gph msg len
    else some einval

abbrev pub dispatched : World → Session → MsgHdr → Bytes → ℕ → Option Action
dispatched w s gph msg len =
    if not (gph.version == gsmd_proto_version)
    then some einval
    else if leb num_gsmd_msgs gph.msg_type
    then some einval
    else handler w s gph msg len

-- What the message asks for. The header is read before `len` is looked at; `buf` is the whole array,
-- with what the client sent at its start.
unfoldable pub pcmd_action : World → Session → Bytes → ℕ → Option Action
unfolding handler
pcmd_action w s buf len = do gph ← msg_hdr buf; dispatched w s gph (drop hdr_size buf) len

unfoldable pub usock_rcv_pcmd : World → Session → Bytes → ℕ → Option (Session × ℤ)
unfolding pcmd_action perform
usock_rcv_pcmd w s buf len = do action ← pcmd_action w s buf len; some (perform w.env action s)

-- A client that has closed its socket is gone; the messages that were to be written to it are not deleted.
pub data Client : Type 0 where
  gone : List Ucmd → Client
  remains : Session → Client

-- what `read` returns, and the array it reads into
unfoldable pub user_readable : World → Session → ℤ → Bytes → Option (Client × ℤ)
unfolding usock_rcv_pcmd
user_readable w s (pos zero) buf = some (gone s.user.finished, pos 0)
user_readable w s (negsuc k) buf = some (remains s, negsuc k)
user_readable w s (pos (suc n)) buf = do
  (s', rc) ← usock_rcv_pcmd w s buf (suc n)
  some (remains s', rc)

-- The messages that are left and those that were sent, and the return code if `write` fails.
pub record Flushed : Type 0 where
  pub left : List Ucmd
  pub sent : List Ucmd
  pub failed : Option ℤ

-- after a `write` that returned `rc`; `rest` is what becomes of the others if the loop goes on
abbrev pub flush_first : ℤ → Ucmd → List Ucmd → Flushed → Flushed
flush_first (negsuc k) ucmd ucmds rest = record {
  left = ucmd ∷ ucmds;
  sent = [];
  failed = some (negsuc k);
}
flush_first (pos n) ucmd ucmds rest =
    if n == hdr_size + ucmd.len
    then record rest { sent = ucmd ∷ rest.sent }
    else record { left = ucmd ∷ ucmds; sent = []; failed = none }

-- the loop over the messages; `results n` is what the n-th `write` returns
unfoldable pub flush : (ℕ → ℤ) → List Ucmd → Flushed
flush results [] = record { left = []; sent = []; failed = none }
flush results (ucmd ∷ ucmds) =
    flush_first (results 0) ucmd ucmds (flush (λ n. results (suc n)) ucmds)

abbrev pub empty : List Ucmd → Bool
empty [] = true
empty (ucmd ∷ ucmds) = false

abbrev pub after_flush : User → List Ucmd → Option ℤ → User × ℤ
after_flush gu left (some rc) = (record gu { finished = left }, rc)
after_flush gu left none = (
  record gu { finished = left; wants_write = if empty left then false else gu.wants_write },
  pos 0,
)

unfoldable pub user_writable : User → (ℕ → ℤ) → User × ℤ
unfolding flush
user_writable gu results = let f = flush results gu.finished in after_flush gu f.left f.failed

-- `gsmd_usock_cb`, for a socket that can be read: whether there is memory, and what `accept`
-- returns. Where it fails, the user that was freed is filled in and put into the list.
unfoldable pub gsmd_usock_cb : Bool → ℤ → List User → Option (List User × ℤ)
gsmd_usock_cb false fd users = some (users, negsuc 11)
gsmd_usock_cb true (negsuc k) users = none
gsmd_usock_cb true (pos fd) users =
    some (record { subscriptions = 2 ^ 32 - 1; finished = []; wants_write = false } ∷ users, pos 0)
