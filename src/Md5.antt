-- ===== src/Md5.antt =====
-- md5.c and md5.h.
pub mod Transform
pub mod Context
pub mod Padding
pub mod Standard
pub mod Words
pub mod Agreement
pub mod Stream
pub mod Update
pub mod Final
pub mod Digest
pub mod Endless
pub mod Hex
