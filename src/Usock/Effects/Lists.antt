-- ===== src/Usock/Effects/Lists.antt =====
-- The handlers of the network, the phone book and the short messages.
use system_test_suite.Base.{ℕ, Option, none, some, List, Bytes, get_elem?, codes, ◌==◌, ◌++◌}
use system_test_suite.Base.Int.{ℤ, pos, negsuc}
use system_test_suite.Atcmd.Queue.{Atcmd}
use system_test_suite.Events.{Ucmd}
use system_test_suite.Sms.Types.{SmsSubmit}
use system_test_suite.Usock.Network.{
  usock_rcv_network, network_register, network_lists, network_pref_del, network_pref_add, buffered,
  prepared, buffer_size, precise, oper_size,
}
use system_test_suite.Usock.Phonebooks.{
  usock_rcv_phonebook, set_storage, find_entry, read_entry, read_range, write_entry, delete_entry,
  phonebook_lists, retrieved, with_arguments, submitted_or_not,
}
use system_test_suite.Usock.Shortmsg.{
  usock_rcv_sms, usock_rcv_cb, sms_list, sms_read, sms_send, sms_write, sms_delete, sms_settings,
  set_msg_storage, set_service_centre, listed, list_text, from_buf, from_buf_quiet, content,
  message_sent,
}
use system_test_suite.Usock.Message.{Action, Phonebook, CmdCb, printed, submitted, returns, replies}
use system_test_suite.Base.Text.{u32_at}
use system_test_suite.Usock.Message.{MsgHdr, World, Session}
use system_test_suite.Usock.Effects.{
  effects, Effect, Effects, refuses, accepts, sends, prepares, retrieves, finds, faults, does,
  or_else, bind, submitted-Effect, printed-Effects,
}

buffered-Effects : {gph : MsgHdr} (w : World) (text : Bytes) → Effects gph (buffered w text)
buffered-Effects w text = bind (printed buffer_size text) (λ buffer. does (submitted-Effect _))

prepared-Effects :
    {gph : MsgHdr} (cmd next : Option Atcmd) → Effects gph (prepared cmd (submitted next))
prepared-Effects none next = faults
prepared-Effects (some cmd) next = does (prepares cmd next)

register-Effects : {gph : MsgHdr} (w : World) (msg : Bytes) → Effects gph (network_register w msg)
unfolding network_register
register-Effects w msg = bind (get_elem? msg 0) (λ first.
    or_else (first == 0) (buffered-Effects w (codes "AT+COPS=0")) (
      bind (precise oper_size msg)
        (λ oper. buffered-Effects w (codes "AT+COPS=1,2,\"" ++ oper ++ codes "\""))))

pref_add-Effects : {gph : MsgHdr} (w : World) (msg : Bytes) → Effects gph (network_pref_add w msg)
unfolding network_pref_add
pref_add-Effects w msg =
    bind (precise oper_size msg)
      (λ oper. buffered-Effects w (codes "AT+CPOL=,2,\"" ++ oper ++ codes "\""))

lists-Effects : (w : World) (gph : MsgHdr) (msg : Bytes) → Effects gph (network_lists w gph msg)
unfolding network_lists network_pref_del
lists-Effects w gph msg =
    search (effects, buffered-Effects, pref_add-Effects, prepared-Effects) depth 12 fits 3000

pub network-Effects :
    (w : World) (gph : MsgHdr) (msg : Bytes) → Effects gph (usock_rcv_network w gph msg)
unfolding usock_rcv_network
network-Effects w gph msg =
    search (effects, register-Effects, lists-Effects, prepared-Effects) depth 12 fits 3000

arguments-Effects :
    (w : World) (gph : MsgHdr) (name : Bytes) (f : CmdCb) (args : Bytes)
    → Effects gph (with_arguments w gph name f args)
arguments-Effects w gph name f args = bind (printed 1024 args) (λ buf. printed-Effects _ _)

or_not-Effect : {gph : MsgHdr} (cmd : Option Atcmd) → Effect gph (submitted_or_not cmd)
or_not-Effect none = accepts
or_not-Effect (some cmd) = sends cmd

retrieved-Effects :
    {gph : MsgHdr} (w : World) (subtype : ℕ) (empty : Action → Action) (pbs : List Phonebook)
    (msg : Bytes)
    → ((ucmd : Ucmd) → Effect gph (empty (replies ucmd (returns (pos 0)))))
    → Effects gph (retrieved w subtype empty pbs msg)
unfolding retrieved
retrieved-Effects w subtype empty pbs msg sent =
    bind (u32_at msg 0) (λ num. or_else _ (does (refuses 11)) (or_else _ faults (does (sent _))))

phonebook_lists-Effects :
    (w : World) (s : Session) (gph : MsgHdr) (msg : Bytes) (len : ℕ)
    → Effects gph (phonebook_lists w s gph msg len)
unfolding phonebook_lists
phonebook_lists-Effects w s gph msg len =
    search (effects, or_not-Effect, retrieved-Effects, retrieves, finds) depth 12 fits 3000

pub phonebook-Effects :
    (w : World) (s : Session) (gph : MsgHdr) (msg : Bytes) (len : ℕ)
    → Effects gph (usock_rcv_phonebook w s gph msg len)
unfolding usock_rcv_phonebook set_storage find_entry read_entry read_range write_entry delete_entry
phonebook-Effects w s gph msg len =
    search (effects, or_not-Effect, arguments-Effects, phonebook_lists-Effects) depth 20 fits 5000

from_buf-Effects :
    (w : World) (gph : MsgHdr) (f : CmdCb) (text : Bytes) → Effects gph (from_buf w gph f text)
from_buf-Effects w gph f text = bind (printed 1024 text) (λ buf. does (submitted-Effect _))

quiet-Effects : (w : World) (gph : MsgHdr) (text : Bytes) → Effects gph (from_buf_quiet w gph text)
quiet-Effects w gph text = bind (printed 1024 text) (λ buf. does (submitted-Effect _))

listed-Effects : (w : World) (gph : MsgHdr) (stat : ℤ) → Effects gph (listed w gph stat)
listed-Effects w gph (negsuc k) = does (refuses 21)
listed-Effects w gph (pos stat) =
    or_else _ (does (refuses 21)) (bind (list_text w stat) (λ text. from_buf-Effects w gph _ text))

sent-Effects :
    (w : World) (gph : MsgHdr) (f : CmdCb) (name : Bytes) (src : SmsSubmit) (extra : Bytes)
    → Effects gph (message_sent w gph f name src extra)
sent-Effects w gph f name src extra =
    bind (content w src extra) (λ body. from_buf-Effects w gph f _)

settings-Effects :
    (w : World) (gph : MsgHdr) (msg : Bytes) (len : ℕ) → Effects gph (sms_settings w gph msg len)
unfolding sms_settings set_msg_storage set_service_centre
settings-Effects w gph msg len = search (effects, quiet-Effects) depth 20 fits 5000

pub sms-Effects :
    (w : World) (gph : MsgHdr) (msg : Bytes) (len : ℕ) → Effects gph (usock_rcv_sms w gph msg len)
unfolding usock_rcv_sms sms_list sms_read sms_send sms_write sms_delete
sms-Effects w gph msg len =
    search (effects, listed-Effects, from_buf-Effects, sent-Effects, settings-Effects) depth 20 fits
      5000

pub cb-Effects : (w : World) (gph : MsgHdr) → Effects gph (usock_rcv_cb w gph)
unfolding usock_rcv_cb
cb-Effects w gph = search effects depth 8
