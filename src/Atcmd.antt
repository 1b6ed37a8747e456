-- ===== src/Atcmd.antt =====
-- The AT command layer: gta02-dm1/user_space/gsm/src/gsmd/atcmd.c.
pub mod Llparse
pub mod Queue
pub mod Mlparse
pub mod Uart
