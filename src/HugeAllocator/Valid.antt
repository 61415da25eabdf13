-- ===== src/HugeAllocator/Valid.antt =====
-- The invariant of the allocator, what is asked of the system, and `Find` and `Release` under it.
use tcmalloc.Base.{ℕ, ◌+◌, ◌*◌, ◌/◌, ◌%◌, ◌≤◌, ◌<◌, ◌≡◌, refl, true, false, ◌||◌, none, some, arith}
use tcmalloc.Pages.Length.{word_sub}
use tcmalloc.Pages.HugeLength.{huge_page_size, max_page_number, in_bytes}
use tcmalloc.Pages.HugeRange.{HugeRange, make}
use tcmalloc.Pages.HugeRange.Laws.{IsProper}
use tcmalloc.HugeAddressMap.Tree.Order.{Member, has, covers}
use tcmalloc.HugeAddressMap.Tree.Change.{Member-bounds}
use tcmalloc.HugeAddressMap.Map.Valid as Map
use tcmalloc.HugeAddressMap.Coalesce.{IsFree, insert_lem}
use tcmalloc.HugeAllocator.{AddressRange, HugeAllocator, find, release}
use tcmalloc.HugeAllocator.Fit.{FoundFit, find_from-FoundFit}

-- The map of free ranges is valid; what came from the system is free or in use; all of it fits the
-- address space.
pub record IsValid (s : HugeAllocator) : Type 0 where
  pub free : Map.IsValid s.free
  pub balance : s.free.total_size + s.in_use ≡ s.from_system
  pub fits : s.from_system ≤ max_page_number

-- A good reply of the system to a request of `n` huge pages: none, or at least as many whole huge
-- pages as asked for, aligned, not at address 0, inside the address space, not handed out before.
pub record IsFresh (s : HugeAllocator) (n : ℕ) (reply : AddressRange) : Type 0 where
  pub aligned : reply.ptr % huge_page_size ≡ 0
  pub whole : reply.bytes % huge_page_size ≡ 0
  pub enough : in_bytes n ≤ reply.bytes
  pub inside : reply.ptr + reply.bytes ≤ max_page_number * huge_page_size
  pub room : s.from_system + reply.bytes / huge_page_size ≤ max_page_number
  pub fresh :
      (p : ℕ)
      → has (make (reply.ptr / huge_page_size) (reply.bytes / huge_page_size)) p ≡ true
      → covers s.free.root p ≡ false

-- A search of a valid allocator for at least one huge page gives a free range that is long enough, or
-- nothing, and then every free range is too short.
pub find-FoundFit :
    (s : HugeAllocator) (n : ℕ) → IsValid s → 0 < n → FoundFit s.free.root n none (find s n)
unfolding find
find-FoundFit s n v h = find_from-FoundFit none s.free.root n h v.free.exact

-- A member of the free map is a proper range that does not start at huge page 0.
pub Member-IsProper :
    (s : HugeAllocator) (r : HugeRange)
    → IsValid s
    → Member r s.free.root
    → IsProper r × (1 ≤ r.first)
Member-IsProper s r v m =
    let (lo, p, hi) = Member-bounds 1 (max_page_number + 1) s.free.root r v.free.ordered m in
    (record { nonempty = p; inside = omega arith }, lo)

-- What `Release` of `r` makes of the allocator.
pub record Released (r : HugeRange) (s s' : HugeAllocator) : Type 0 where
  pub valid : IsValid s'
  pub pages : (p : ℕ) → covers s'.free.root p ≡ has r p || covers s.free.root p
  pub used : s'.in_use + r.n ≡ s.in_use
  pub system : s'.from_system ≡ s.from_system

-- Releasing a proper range that is in use, not free, succeeds: its huge pages become free, no
-- others do, and the number in use falls by its length.
pub release_lem :
    (r : HugeRange) (s : HugeAllocator)
    → IsValid s
    → IsProper r
    → 1 ≤ r.first
    → IsFree r s.free
    → r.n ≤ s.in_use
    → (s' : HugeAllocator) × (release r s ≡ some s') × Released r s s'
unfolding release
release_lem r s v ok pos free le =
    let (m', e, g) = insert_lem r s.free v.free ok pos free in
    (
      record s { in_use = word_sub s.in_use r.n; free = m' },
      rw e,
      record {
        valid = record {
          free = g.valid;
          balance = omega (arith, g.grown, v.balance, v.fits);
          fits = v.fits;
        };
        pages = g.pages;
        used = omega (arith, v.balance, v.fits);
        system = refl;
      },
    )
