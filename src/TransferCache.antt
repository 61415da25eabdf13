-- ===== src/TransferCache.antt =====
-- `TransferCache` of tcmalloc/transfer_cache_internals.h: a bounded stack of objects in front of
-- the central free list of a size class.
pub mod Defs
pub mod Plain
pub mod Valid
pub mod Agree
pub mod Kept
pub mod Lists
pub mod Calls
pub mod Moves
pub mod Objects
pub mod Plunder
pub mod Capacity
