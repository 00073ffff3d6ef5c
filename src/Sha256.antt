-- ===== src/Sha256.antt =====
-- sha256.c and sha256.h: SHA-256 over a stream of bytes, HMAC-SHA-256, and the helpers of both.
pub mod Transform
pub mod Context
pub mod Hash
pub mod Padding
pub mod Standard
pub mod Words
pub mod Agreement
pub mod Stream
pub mod Fill
pub mod Final
pub mod Digest
pub mod Fips
pub mod Hmac
pub mod Memory
pub mod Hex
