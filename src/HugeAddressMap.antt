-- ===== src/HugeAddressMap.antt =====
-- The map of free huge pages of tcmalloc/huge_address_map.cc.
pub mod Random
pub mod Tree
pub mod Map
pub mod Remove
pub mod Insert
pub mod Coalesce
pub mod Overlap
