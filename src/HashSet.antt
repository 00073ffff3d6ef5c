-- ===== src/HashSet.antt =====
-- set.c and set.h: a hash set by open addressing, with tombstones where values were removed.
pub mod Element
pub mod Probe
pub mod Table
pub mod Search
pub mod Counts
pub mod Rebuild
pub mod Ends
pub mod Removal
pub mod Endless
pub mod Equal
pub mod Placed
pub mod Held
pub mod Stays
pub mod Moves
pub mod Model
pub mod Adds
pub mod Deletes
