-- ===== src/Lib.antt =====
-- A verification library for tcmalloc: the page arithmetic, the map of free huge page ranges and
-- the allocator over it, the transfer cache of a size class, the bitmap, range tracker and tracker
-- lists that the page heap uses, its regions of huge pages, and the arena of the metadata.
--
-- The parts, and the code that each models:
--   Pages             tcmalloc/pages.h and tcmalloc/huge_pages.h: the types Length, PageId,
--                     HugeLength, HugePage and HugeRange are numbers and a pair of numbers, one
--                     module each, with the C++ operators under the names add, sub and so on.
--   HugeAddressMap    tcmalloc/huge_address_map.cc and .h: the treap of free ranges. Tree has the
--                     loops over the nodes (Predecessor, next, Merge's writes, the split of Insert,
--                     the merge of Remove), Map the class with its counters, freelist and priorities;
--                     a node is named by the start of its range in place of its pointer, and Random
--                     is the generator of tcmalloc/internal/exponential_biased.h.
--   HugeAllocator     tcmalloc/huge_allocator.cc and .h: Find, AllocateRange, Get and Release over
--                     HugeAddressMap. VirtualAllocator is the parameter `allocate`.
--   HugeCache         tcmalloc/huge_cache.cc and .h: Find and ShrinkCache over the same map and
--                     allocator. MemoryModifyFunction is the parameter `unback`.
--   TransferCache     tcmalloc/transfer_cache_internals.h: InsertRange, RemoveRange, TryPlunder and
--                     the capacity. CentralFreeList is the parameter FreeList, the calls that the
--                     cache makes of it; nothing is assumed of them. Agree compares the operations,
--                     on `int`s, with those of Plain, on numbers that do not wrap.
--   Bitmap            class Bitmap of tcmalloc/internal/range_tracker.h, word by word; a word is the
--                     list of its 64 bits, the lowest first.
--   RangeTracker      class RangeTracker of the same file, over Bitmap.
--   HugeRegion        class HugeRegion of tcmalloc/huge_region.h, over RangeTracker: MaybeGet and Inc,
--                     Put and Dec, and in Unback UnbackHugepages and Release. The arrays are lists of
--                     512 places. MemoryModifyFunction is the parameter `unback`.
--   HugeRegionSet     class HugeRegionSet of the same file: the list of regions in their order, with
--                     MaybeGet, MaybePut, Contribute and ReleasePages. The multiplication of a number
--                     by kFractionToReleaseFromRegion, a double, is the parameter `fraction`.
--   HintedTrackerLists tcmalloc/hinted_tracker_lists.h: lists of trackers and the bitmap of those that
--                     are not empty.
--   Arena             tcmalloc/arena.cc and arena.h; the system's allocator is the parameter `allocate`.
--   SizeMap           tcmalloc/sizemap.cc and sizemap.h: the index of a size, and the checks of a
--                     table of size classes; those that Span and HugePageAwareAllocator make of a class
--                     are the parameters `span_valid` and `hpaa_valid`.
-- Base passes on the library's names and has lists over native numbers. Tests has the operations at
-- concrete inputs.
--
-- How the code corresponds: a method that changes an object is a function from the object's record to
-- its new record, composed as the code composes the calls. A failed TC_CHECK is `none`; TC_ASSERT,
-- which a release build does not have, is a hypothesis where a theorem needs it. A size_t result
-- wraps (`Length.word`, `Length.word_sub`), and an `int` of the transfer cache and the arena is
-- its 32 bits, with the signed order, narrowed and widened as the code does (Base/Int). Pages
-- are of 8 KiB and huge pages of 2 MiB, the defaults of tcmalloc/common.h and
-- tcmalloc/internal/config.h on x86.
--
-- Loops over the tree are structural recursion. The loops of Bitmap take the number of bits that
-- are left, or of words that are left, as fuel: each turn takes at least one bit, or one word.
-- Those of RangeTracker over the free ranges take the size and one more: each range has at least
-- one bit. Inc and Dec take the number of pages, UnbackHugepages the number of huge pages of a
-- region, and ShrinkCache the size of the cache. The loop of TryPlunder takes the list of the
-- replies of try_lock, and the number of objects that are to be returned bounds its turns.
--
-- What is not modelled: locks and the interleaving of threads inside a method (a method is taken as
-- one step), the times `when_` in the nodes, statistics and printing, the metadata allocator (a
-- node is always there), the pages that another thread takes from a region or the cache while
-- `unback` runs without the lock, and the other components: HugePageFiller, the limit of HugeCache
-- with its trackers and its Get and Release, the page heap, spans, the central free list, the
-- per-CPU caches, the page map, sampling, and the entry points.
pub mod Base
pub mod Pages
pub mod HugeAddressMap
pub mod HugeAllocator
pub mod Arena
pub mod RangeTracker
pub mod HintedTrackerLists
pub mod SizeMap
pub mod HugeCache
pub mod HugeRegion
pub mod HugeRegionSet
pub mod TransferCache
pub mod Bitmap
pub mod Tests
