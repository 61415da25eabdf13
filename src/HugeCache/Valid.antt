-- ===== src/HugeCache/Valid.antt =====
-- The invariant of the cache and the allocator together.
use tcmalloc.Base.{ℕ, ◌+◌, ◌≤◌, ◌<◌, ◌≡◌, refl, inl, inr, true, false, none, some, arith}
use tcmalloc.Pages.HugeLength.{max_page_number}
use tcmalloc.Pages.HugeRange.{HugeRange}
use tcmalloc.HugeAddressMap.Tree.{Tree, leaf, node}
use tcmalloc.HugeAddressMap.Tree.Order.{Bounded, Member, covers, total, longest_range}
use tcmalloc.HugeAddressMap.Map.Valid as Map
use tcmalloc.HugeAllocator.Fit.{find_from-FoundFit}
use tcmalloc.HugeAllocator.Valid as Allocator
use tcmalloc.HugeCache.{HugeCache, find_cached}

-- The cached ranges are those of a valid map, counted, in use for a valid allocator and not free there.
pub record IsValid (s : HugeCache) : Type 0 where
  pub cache : Map.IsValid s.cache
  pub allocator : Allocator.IsValid s.allocator
  pub size : s.size ≡ s.cache.total_size
  pub in_use : s.size ≤ s.allocator.in_use
  pub apart : (p : ℕ) → covers s.cache.root p ≡ true → covers s.allocator.free.root p ≡ false

nothing_long : (lo hi : ℕ) (t : Tree) → Bounded lo hi t → longest_range t < 1 → total t ≡ 0
unfolding longest_range total
nothing_long lo hi leaf b h = refl
nothing_long lo hi (node r prio longest left right) b h = absurd (omega (arith, b.1, h))

-- A cache that is not empty has a range to find.
pub find_cached-Member :
    (s : HugeCache)
    → IsValid s
    → 0 < s.size
    → (r : HugeRange) × (find_cached s 1 ≡ some r) × Member r s.cache.root
unfolding find_cached
find_cached-Member s v pos =
    elim (find_from-FoundFit none s.cache.root 1 (omega arith) v.cache.exact) [
      | inr (r, e, m, le) ↦ (r, e, m)
      | inl (e, inl short) ↦
          let z = nothing_long 1 (max_page_number + 1) s.cache.root v.cache.ordered short in
          absurd (omega (arith, z, v.size, v.cache.size))
      | inl (e, inr (b, e')) ↦ absurd (ground (arith, e'))
    ]
