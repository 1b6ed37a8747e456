-- ===== src/Usock/Shortmsg.antt =====
-- `usock_rcv_sms` and `usock_rcv_cb` of gta02-dm1/user_space/gsm/src/gsmd/sms_cb.c, the requests about
-- short messages and cell broadcasts. `msg` is the memory behind the header, `len` the number of octets
-- that were read. `buf` has 1024 bytes.
use system_test_suite.Base.{
  ℕ, suc, ◌+◌, ◌-◌, not, Bool, Option, none, some, List, [], ◌∷◌, ◌++◌, ltb, ◌==◌, if◌then◌else◌,
  Bytes, codes, length, get_elem?, take, drop, ◌>>=◌,
}
use system_test_suite.Base.Int.{ℤ, pos, negsuc}
use system_test_suite.Base.Text.{c_string_at, u32_at, decimal, decimal_ℤ}
use system_test_suite.Atcmd.Mlparse.Texts.{to_int32}
use system_test_suite.Atcmd.Queue.{atcmd_fill, no_callback, cstr}
use system_test_suite.Sms.Types.{Addr, DataCodingScheme, Sms, SmsSubmit}
use system_test_suite.Sms.Submit.{sms_pdu_make_smssubmit}
use system_test_suite.Usock.Message.{
  MsgHdr, hdr_size, CmdCb, sms_list_cb, sms_read_cb, sms_send_cb, sms_write_cb, sms_delete_cb,
  usock_cpms_cb, usock_get_smsc_cb, World, Action, einval, enosys, fill, submitted, printed,
}

-- `gsmd_cmgl_stat`
abbrev cmgl_stat : List Bytes
cmgl_stat =
    codes "REC UNREAD" ∷ codes "REC READ" ∷ codes "STO UNSENT" ∷ codes "STO SENT" ∷ codes "ALL" ∷ []

-- `ts0705_memtype_name`
abbrev pub memtype_name : List Bytes
memtype_name =
    codes "NONE" ∷ codes "BM" ∷ codes "ME" ∷ codes "MT" ∷ codes "SM" ∷ codes "TA" ∷ codes "SR" ∷ []

abbrev with_size : ℕ → ℕ → Option Action → Option Action
with_size len size a = if ltb len (hdr_size + size) then some einval else a

-- a command printed into `buf`
abbrev pub from_buf : World → MsgHdr → CmdCb → Bytes → Option Action
from_buf w gph f text = do
  buf ← printed 1024 text
  some (submitted (fill w 0 buf (length buf + 1) f gph.id))

-- the same, with NULL for the callback
abbrev pub from_buf_quiet : World → MsgHdr → Bytes → Option Action
from_buf_quiet w gph text = do
  buf ← printed 1024 text
  some (submitted (atcmd_fill (w.allocated 0) buf (length buf + 1) no_callback gph.id))

abbrev pub list_text : World → ℕ → Option Bytes
list_text w stat =
    let by_name =
      (get_elem? cmgl_stat stat >>= λ name. some (codes "AT+CMGL=\"" ++ name ++ codes "\"")) in
    if w.fmt_text then by_name else some (codes "AT+CMGL=" ++ decimal stat)

-- the status, if it is one of the five
abbrev pub listed : World → MsgHdr → ℤ → Option Action
listed w gph (negsuc k) = some einval
listed w gph (pos stat) =
    if ltb 4 stat then some einval else list_text w stat >>= from_buf w gph sms_list_cb

unfoldable pub sms_list : World → MsgHdr → Bytes → Option Action
sms_list w gph msg = do stat ← u32_at msg 0; listed w gph (to_int32 stat)

unfoldable pub sms_read : World → MsgHdr → Bytes → Option Action
sms_read w gph msg = do
  index ← u32_at msg 0
  from_buf w gph sms_read_cb (codes "AT+CMGR=" ++ decimal_ℤ (to_int32 index))

abbrev truth : ℕ → Bool
truth n = not (n == 0)

-- `struct gsmd_sms_datacodingscheme`, six enumerations and an octet
unfoldable pub dcs_at : Bytes → ℕ → Option DataCodingScheme
dcs_at msg i = do
  msg_class ← u32_at msg i
  alphabet ← u32_at msg (i + 4)
  is_compressed ← u32_at msg (i + 8)
  mwi_group ← u32_at msg (i + 12)
  mwi_active ← u32_at msg (i + 16)
  mwi_kind ← u32_at msg (i + 20)
  raw_dcs_data ← get_elem? msg (i + 24)
  some (record {
    msg_class = msg_class;
    alphabet = alphabet;
    is_compressed = is_compressed;
    mwi_group = mwi_group;
    mwi_active = mwi_active;
    mwi_kind = mwi_kind;
    raw_dcs_data = raw_dcs_data;
  })

-- `struct gsmd_sms`, of 200 octets, the last 165 of them data
unfoldable pub payload_at : Bytes → ℕ → Option Sms
unfolding dcs_at
payload_at msg i = do
  size ← get_elem? msg i
  coding_scheme ← get_elem? msg (i + 1)
  has_header ← u32_at msg (i + 2)
  is_voicemail ← u32_at msg (i + 6)
  dcs ← dcs_at msg (i + 10)
  some (record {
    length = size;
    coding_scheme = coding_scheme;
    has_header = truth has_header;
    is_voicemail = truth is_voicemail;
    dcs = dcs;
    payload_data = take 165 (drop (i + 35) msg);
  })

-- `struct gsmd_addr`, of 34 octets
unfoldable pub addr_at : Bytes → ℕ → Option Addr
addr_at msg i = do
  type ← get_elem? msg i
  number ← c_string_at msg (i + 1)
  some (record { type = type; number = number })

-- `struct gsmd_sms_submit`, of 240 octets: the last word is aligned.
abbrev submit_size : ℕ
submit_size = 240

unfoldable pub submit_at : Bytes → ℕ → Option SmsSubmit
unfolding payload_at addr_at
submit_at msg i = do
  addr ← addr_at msg i
  payload ← payload_at msg (i + 34)
  ask_ds ← u32_at msg (i + 236)
  some (record { addr = addr; payload = payload; ask_ds = truth ask_ds })

-- the number and the text, in text mode
abbrev text_of : SmsSubmit → Bytes
text_of src =
    codes "\""
    ++ src.addr.number
    ++ codes "\"\n"
    ++ cstr (take src.payload.length src.payload.payload_data)

abbrev pdu_line : SmsSubmit → Bytes → Option Bytes
pdu_line src extra = do
  (pdu, octets) ← sms_pdu_make_smssubmit src
  some (decimal (octets - 1) ++ extra ++ codes "\n" ++ pdu)

-- The line with the length of the PDU, `extra`, and the PDU, in PDU mode. The array `header` of
-- `sms_pdu_make_smssubmit` has 47 octets, 8 of them for other things than the number.
abbrev pdu_of : SmsSubmit → Bytes → Option Bytes
pdu_of src extra = if ltb 78 (length src.addr.number) then none else pdu_line src extra

abbrev pub content : World → SmsSubmit → Bytes → Option Bytes
content w src extra = if w.fmt_text then some (text_of src) else pdu_of src extra

-- `buf`, ended by a control-Z
abbrev pub message_sent : World → MsgHdr → CmdCb → Bytes → SmsSubmit → Bytes → Option Action
message_sent w gph f name src extra = do
  body ← content w src extra
  from_buf w gph f (name ++ body ++ 26 ∷ [])

unfoldable pub sms_send : World → MsgHdr → Bytes → Option Action
unfolding submit_at cstr
sms_send w gph msg = do
  gss ← submit_at msg 0
  message_sent w gph sms_send_cb (codes "AT+CMGS=") gss []

-- the status comes first
abbrev pub stored : World → MsgHdr → Bytes → ℕ → Option Action
stored w gph msg stat = do
  sms ← submit_at msg 1
  message_sent w gph sms_write_cb (codes "AT+CMGW=") sms (codes "," ++ decimal stat)

unfoldable pub sms_write : World → MsgHdr → Bytes → Option Action
unfolding submit_at cstr
sms_write w gph msg =
    get_elem? msg 0 >>= λ stat. if ltb 4 stat then some einval else stored w gph msg stat

unfoldable pub sms_delete : World → MsgHdr → Bytes → Option Action
sms_delete w gph msg = do
  index ← get_elem? msg 0
  delflg ← get_elem? msg 1
  from_buf w gph sms_delete_cb (codes "AT+CMGD=" ++ decimal index ++ codes "," ++ decimal delflg)

-- The numbers index `ts0705_memtype_name` as they come.
unfoldable pub set_msg_storage : World → MsgHdr → Bytes → Option Action
set_msg_storage w gph msg = do
  first ← u32_at msg 0
  second ← u32_at msg 4
  third ← u32_at msg 8
  name ← get_elem? memtype_name first
  name2 ← get_elem? memtype_name second
  name3 ← get_elem? memtype_name third
  from_buf_quiet w gph
      (codes "AT+CPMS=\"" ++ name ++ codes "\",\"" ++ name2 ++ codes "\",\"" ++ name3 ++ codes "\"")

unfoldable pub set_service_centre : World → MsgHdr → Bytes → Option Action
unfolding addr_at
set_service_centre w gph msg = do
  ga ← addr_at msg 0
  from_buf_quiet w gph (codes "AT+CSCA=\"" ++ ga.number ++ codes "\"," ++ decimal ga.type)

-- the requests about the storage of messages
unfoldable pub sms_settings : World → MsgHdr → Bytes → ℕ → Option Action
unfolding set_msg_storage set_service_centre
sms_settings w gph msg len =
    if gph.msg_subtype == 6
    then some (submitted (fill w 0 (codes "AT+CPMS?") 9 usock_cpms_cb 0))
    else if gph.msg_subtype == 7
    then with_size len 12 (set_msg_storage w gph msg)
    else if gph.msg_subtype == 8
    then some (submitted (fill w 0 (codes "AT+CSCA?") 9 usock_get_smsc_cb 0))
    else if gph.msg_subtype == 9
    then with_size len 34 (set_service_centre w gph msg)
    else some enosys

unfoldable pub usock_rcv_sms : World → MsgHdr → Bytes → ℕ → Option Action
unfolding sms_list sms_read sms_send sms_write sms_delete sms_settings
usock_rcv_sms w gph msg len =
    if gph.msg_subtype == 1
    then with_size len 4 (sms_list w gph msg)
    else if gph.msg_subtype == 2
    then with_size len 4 (sms_read w gph msg)
    else if gph.msg_subtype == 3
    then with_size len submit_size (sms_send w gph msg)
    else if gph.msg_subtype == 4
    then with_size len (suc submit_size) (sms_write w gph msg)
    else if gph.msg_subtype == 5
    then with_size len 2 (sms_delete w gph msg)
    else sms_settings w gph msg len

unfoldable pub usock_rcv_cb : World → MsgHdr → Option Action
usock_rcv_cb w gph =
    if gph.msg_subtype == 1
    then some (submitted (atcmd_fill (w.allocated 0) (codes "AT+CSCB=1") 10 no_callback 0))
    else if gph.msg_subtype == 2
    then some (submitted (atcmd_fill (w.allocated 0) (codes "AT+CSCB=0") 10 no_callback 0))
    else some enosys
