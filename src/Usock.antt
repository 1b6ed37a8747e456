-- ===== src/Usock.antt =====
-- The socket of the clients, gta02-dm1/user_space/gsm/src/gsmd/usock.c, and the requests about short
-- messages of sms_cb.c beside it.
pub mod Message
pub mod Calls
pub mod Network
pub mod Phonebooks
pub mod Shortmsg
pub mod Incoming
pub mod Client
pub mod Effects
pub mod Requests
pub mod Waiting
pub mod Room
pub mod Replies
pub mod Entries
