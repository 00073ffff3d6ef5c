-- ===== src/Os.antt =====
-- os.c and os.h, as they are on Unix.
pub mod Path
pub mod Read
pub mod Descriptor
pub mod Random
pub mod Fill
pub mod Remove
pub mod Listdir
pub mod Query
pub mod Sleep
