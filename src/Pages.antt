-- ===== src/Pages.antt =====
-- The page arithmetic of tcmalloc/pages.h and tcmalloc/huge_pages.h, at the default page size
-- (kPageShift = 13) and kHugePageShift = 21. A `Length`, a `PageId`, a `HugeLength` and a
-- `HugePage` are each a class over one uintptr_t or size_t, here that number, below 2 ^ 64.
pub mod Length
pub mod PageId
pub mod HugeLength
pub mod HugePage
pub mod HugeRange
