-- ===== src/HashMap.antt =====
-- hashmap.c and hashmap.h: a chained hash table over tagged values.
pub mod Variant
pub mod Capacity
pub mod Chain
pub mod Table
