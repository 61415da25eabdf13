-- ===== src/Tests/Ranges.antt =====
-- A map of two ranges, an allocator over it, and a system that has one more huge page to give.
use tcmalloc.Base.{
  ℕ, ◌+◌, ◌*◌, ◌<◌, ◌≡◌, refl, ◌⊎◌, inl, inr, Bool, true, not, ◌&&◌, none, some, arith, ◌==◌,
}
use tcmalloc.Pages.HugeLength.{in_bytes, overflows, huge_page_size}
use tcmalloc.Pages.HugeRange.{HugeRange, make, nil}
use tcmalloc.Pages.HugeRange.Laws.{IsProper}
use tcmalloc.HugeAddressMap.Tree.{Tree, leaf, node, predecessor}
use tcmalloc.HugeAddressMap.Tree.Order.{has, covers, count, total, longest_range}
use tcmalloc.HugeAddressMap.Map.{HugeAddressMap, insert, remove, after_of}
use tcmalloc.HugeAddressMap.Map.Valid as Map
use tcmalloc.HugeAddressMap.Map.Neighbours.{Neighbours, predecessor-Neighbours}
use tcmalloc.HugeAddressMap.Insert.{Grown}
use tcmalloc.HugeAddressMap.Coalesce.{IsFree, insert_lem}
use tcmalloc.HugeAddressMap.Remove.{remove_lem}
use tcmalloc.HugeAddressMap.Overlap.{insert_overlap}
use tcmalloc.HugeAllocator.{AddressRange, HugeAllocator, find, release, get}
use tcmalloc.HugeAllocator.Fit.{FoundFit}
use tcmalloc.HugeAllocator.Valid.{IsValid, IsFresh, Released, find-FoundFit, release_lem}
use tcmalloc.HugeAllocator.Get.{Success, get_lem}
use tcmalloc.HugeAddressMap.Map.{empty}
use tcmalloc.HugeCache.{HugeCache, shrink_cache}
use tcmalloc.HugeCache.Valid as Cache
use tcmalloc.HugeCache.Shrink.{Shrunk, shrink_cache_lem}

abbrev two_ranges : Tree
two_ranges = node (make 10 4) 7 4 leaf (node (make 20 2) 3 2 leaf leaf)

abbrev some_map : HugeAddressMap
some_map = record {
  root = two_ranges;
  used_nodes = 2;
  total_size = 6;
  freelist_size = 0;
  total_nodes = 2;
  seed = 0;
}

some_map-IsValid : Map.IsValid some_map
unfolding longest_range count total
some_map-IsValid = record {
  ordered =
      (omega arith, omega arith, omega arith, tt, (omega arith, omega arith, omega arith, tt, tt));
  heap = (omega arith, tt, (omega arith, tt, tt));
  exact = (refl, tt, (refl, tt, tt));
  used = refl;
  size = refl;
  nodes = refl;
  few = omega arith;
}

-- It closes the gap between the two.
abbrev gap : HugeRange
gap = make 14 6

gap-IsProper : IsProper gap
gap-IsProper = record { nonempty = omega arith; inside = omega arith }

gap-IsFree : IsFree gap some_map
unfolding has covers
gap-IsFree p h = ground arith

insert_lem_example : (m' : HugeAddressMap) × (insert gap some_map ≡ some m') × Grown gap some_map m'
insert_lem_example = insert_lem gap some_map some_map-IsValid gap-IsProper (omega arith) gap-IsFree

remove_lem_example :
    Map.IsValid (remove (make 20 2) some_map)
    × ((p : ℕ)
        → covers (remove (make 20 2) some_map).root p
          ≡ covers two_ranges p && not (has (make 20 2) p))
    × ((remove (make 20 2) some_map).used_nodes + 1 ≡ 2)
    × ((remove (make 20 2) some_map).total_size + 2 ≡ 6)
    × ((remove (make 20 2) some_map).freelist_size ≡ 0 + 1)
remove_lem_example = remove_lem (make 20 2) some_map some_map-IsValid (inr (inr (inl refl)))

insert_overlap_example : insert (make 8 3) some_map ≡ none
unfolding has covers
insert_overlap_example =
    insert_overlap (make 8 3) some_map 10 some_map-IsValid
      (record { nonempty = omega arith; inside = omega arith }) refl refl

predecessor-Neighbours_example :
    Neighbours 15 two_ranges
      (predecessor two_ranges 15)
      (after_of two_ranges (predecessor two_ranges 15))
predecessor-Neighbours_example =
    predecessor-Neighbours 1 100 15 two_ranges (omega arith) (omega arith)
      (omega arith, omega arith, omega arith, tt, (omega arith, omega arith, omega arith, tt, tt))

abbrev half_used : HugeAllocator
half_used = record { free = some_map; from_system = 12; in_use = 6 }

half_used-IsValid : IsValid half_used
half_used-IsValid = record { free = some_map-IsValid; balance = refl; fits = omega arith }

release_lem_example :
    (s' : HugeAllocator) × (release gap half_used ≡ some s') × Released gap half_used s'
release_lem_example =
    release_lem gap half_used half_used-IsValid gap-IsProper (omega arith) gap-IsFree (omega arith)

find-FoundFit_example : FoundFit two_ranges 2 none (find half_used 2)
find-FoundFit_example = find-FoundFit half_used 2 half_used-IsValid (omega arith)

-- The system has the five huge pages from 30 on.
abbrev five_more : ℕ → ℕ → AddressRange
five_more bytes align = record { ptr = 30 * huge_page_size; bytes = 5 * huge_page_size }

five_more-IsFresh : IsFresh half_used 5 (five_more (in_bytes 5) huge_page_size)
unfolding in_bytes has covers
five_more-IsFresh = record {
  aligned = refl;
  whole = refl;
  enough = omega arith;
  inside = omega arith;
  room = omega arith;
  fresh = λ p h. ground arith;
}

get_lem_example :
    Success 5 half_used (get five_more 5 half_used)
    ⊎ ((get five_more 5 half_used ≡ some (nil, half_used))
        × (longest_range two_ranges < 5)
        × ((overflows 5 ≡ true) ⊎ (30 * huge_page_size ≡ 0)))
get_lem_example =
    get_lem five_more 5 half_used half_used-IsValid (omega arith) (λ h. five_more-IsFresh)

-- A cache of these ranges, over an allocator that has no free one.
abbrev full_cache : HugeCache
full_cache = record {
  cache = some_map;
  size = 6;
  allocator = record { free = empty; from_system = 6; in_use = 6 };
}

full_cache-IsValid : Cache.IsValid full_cache
unfolding covers count total
full_cache-IsValid = record {
  cache = some_map-IsValid;
  allocator = record {
    free = record {
      ordered = tt;
      heap = tt;
      exact = tt;
      used = refl;
      size = refl;
      nodes = refl;
      few = omega arith;
    };
    balance = refl;
    fits = omega arith;
  };
  size = refl;
  in_use = omega arith;
  apart = λ p h. refl;
}

-- A system that refuses the range at huge page 10 alone.
abbrev refuse_ten : HugeRange → Bool
refuse_ten r = not (r.first == 10)

shrink_cache_lem_example :
    (n : ℕ) × (s' : HugeCache) × (shrink_cache refuse_ten 1 full_cache ≡ some (n, s'))
    × Shrunk refuse_ten 1 n full_cache s'
shrink_cache_lem_example = shrink_cache_lem refuse_ten 1 full_cache full_cache-IsValid
