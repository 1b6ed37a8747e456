-- ===== src/Sms.antt =====
-- Short messages: gta02-dm1/user_space/gsm/src/gsmd/sms_pdu.c, with the types of
-- gta02-dm1/user_space/gsm/include/gsmd/usock.h.
pub mod Types
pub mod Dcs
pub mod Address
pub mod Pdu
pub mod Submit
pub mod Cbs
pub mod Digits
pub mod RoundTrip
pub mod Safety
pub mod Ucs2
