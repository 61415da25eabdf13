-- ===== src/Tests/Regions.antt =====
-- A tracker of 100 pages as a whole, and a region of 512 huge pages through its life.
use tcmalloc.Base.{
  ℕ, ◌+◌, ◌*◌, ◌/◌, ◌<◌, ◌≡◌, refl, ◌∙◌, ◌⊎◌, inl, inr, Bool, true, false, none, some, [], arith,
  ltb,
}
use tcmalloc.Pages.HugeRange.{HugeRange, make}
use tcmalloc.Bitmap.Defs.{cleared, get_bit, find_value_backwards}
use tcmalloc.Bitmap.Fill.{cleared-IsBitmap, get_bit-cleared}
use tcmalloc.Bitmap.Find.{wanted}
use tcmalloc.Bitmap.Backwards.{FoundLast, find_value_backwards_lem}
use tcmalloc.RangeTracker.{RangeTracker, clear, unmark, find_and_mark, scan_longest}
use tcmalloc.RangeTracker.Runs.{IsLongest}
use tcmalloc.RangeTracker.Loops.{scan_longest_lem}
use tcmalloc.RangeTracker.BestFit.{IsExact, Marked, find_and_mark_lem, clear-IsExact}
use tcmalloc.RangeTracker.Unmark.{opened, unmark_lem}
use tcmalloc.HugeRegion.{HugeRegion, region_pages, new_region, maybe_get}
use tcmalloc.HugeRegion.Unback.{put, release}
use tcmalloc.HugeRegion.Valid as Region
use tcmalloc.HugeRegion.Valid.{page_at}
use tcmalloc.HugeRegion.Start.{new_region-IsValid}
use tcmalloc.HugeRegion.MaybeGet.{Got, bits_of, maybe_get_lem}
use tcmalloc.HugeRegion.Put.{Returned, put_lem}
use tcmalloc.HugeRegion.Reclaimed.{Reclaimed}
use tcmalloc.HugeRegion.Reclaim.{release-Reclaimed}
use tcmalloc.RangeTracker.Runs.{Free}
use tcmalloc.HugeRegionSet.{
  HugeRegionSet, new_set, add_to_list, contribute, maybe_get_set, maybe_put, release_pages,
}
use tcmalloc.HugeRegionSet.Contents.{All}
use tcmalloc.HugeRegionSet.Valid as Set
use tcmalloc.HugeRegionSet.Valid.{new_set-IsValid, contribute-IsValid}
use tcmalloc.HugeRegionSet.Get.{HasRoom, TooFull, Gave, maybe_get_set_lem}
use tcmalloc.HugeRegionSet.Put.{PutBack, maybe_put_lem}
use tcmalloc.HugeRegionSet.Reclaim.{ReclaimedSet, release_pages_lem}

find_value_backwards_lem_example :
    FoundLast (wanted true (cleared 100)) 71 (find_value_backwards true 70 (cleared 100))
find_value_backwards_lem_example =
    find_value_backwards_lem 100 true 70 (cleared 100) (omega arith) (cleared-IsBitmap 100)

scan_longest_lem_example :
    IsLongest (get_bit (cleared 100)) 100 (scan_longest 101 100 (cleared 100) 0 0)
scan_longest_lem_example =
    scan_longest_lem 100 (cleared 100)
      (record { bitmap = cleared-IsBitmap 100; dead = λ x p. get_bit-cleared 100 x })

blank : RangeTracker
blank = clear 100

blank-IsExact : IsExact 100 blank
unfolding blank
blank-IsExact = clear-IsExact 100 (omega arith)

blank_counters : (blank.nused ≡ 0) × (blank.nallocs ≡ 0) × (blank.longest_free ≡ 100)
unfolding blank clear
blank_counters = (refl, refl, refl)

find_and_mark_lem_example :
    (i : ℕ) × (t' : RangeTracker) × (find_and_mark 100 10 blank ≡ some (i, t'))
    × Marked 100 10 i blank t'
find_and_mark_lem_example =
    find_and_mark_lem 100 10 blank blank-IsExact (omega arith) (omega (arith, blank_counters))
      (omega (arith, blank_counters)) (omega (arith, blank_counters))

-- That tracker, with ten pages used.
taken :
    (i : ℕ) × (t' : RangeTracker) × (find_and_mark 100 10 blank ≡ some (i, t'))
    × Marked 100 10 i blank t'
taken =
    find_and_mark_lem 100 10 blank blank-IsExact (omega arith) (omega (arith, blank_counters))
      (omega (arith, blank_counters)) (omega (arith, blank_counters))

unmark_lem_example :
    ((x : ℕ)
      → get_bit (unmark 100 taken.0 10 taken.1).bits x ≡ opened (get_bit taken.1.bits) taken.0 10 x)
    × ((unmark 100 taken.0 10 taken.1).nused + 10 ≡ taken.1.nused)
    × ((unmark 100 taken.0 10 taken.1).nallocs + 1 ≡ taken.1.nallocs)
    × IsExact 100 (unmark 100 taken.0 10 taken.1)
unmark_lem_example =
    unmark_lem 100 taken.0 10 taken.1 taken.3.exact (omega arith)
      (omega (arith, taken.3.was_free.0)) (omega (arith, taken.3.used))
      (omega (arith, taken.3.allocs))

place : HugeRange
place = make 5 512

region : HugeRegion
region = new_region place

region-IsValid : Region.IsValid region
unfolding region place
region-IsValid = new_region-IsValid place refl (omega arith)

region_allocs : (region.tracker.nallocs ≡ 0) × (region.tracker.longest_free ≡ region_pages)
unfolding region new_region clear
region_allocs = (refl, refl)

maybe_get_lem_example :
    (((j m : ℕ) → Free (bits_of region) region_pages j m → m < 300)
      × (maybe_get 300 region ≡ some (none, region)))
    ⊎ ((k : ℕ) × (from_released : Bool) × (r' : HugeRegion) × (maybe_get 300 region
          ≡ some (some (page_at region k, from_released), r'))
        × Got 300 k from_released region r')
maybe_get_lem_example =
    maybe_get_lem 300 region region-IsValid (omega arith) (omega (arith, region_allocs))

-- The region with 300 pages used, over two huge pages.
got_range : (k : ℕ) × (from_released : Bool) × (r' : HugeRegion) × Got 300 k from_released region r'
got_range =
    elim (maybe_get_lem 300 region region-IsValid (omega arith) (omega (arith, region_allocs))) [
      | inl (short, e) ↦
          let (j, c) = region-IsValid.tracker.longest.reached in
          let s = short j region.tracker.longest_free c in absurd (omega (arith, region_allocs))
      | inr (k, b, r', e, g) ↦ (k, b, r', g)
    ]

-- A system that refuses the ranges of more than one huge page.
abbrev picky : HugeRange → Bool
picky range = ltb range.n 2

put_lem_example :
    (r' : HugeRegion) × (put picky (page_at got_range.2 got_range.0) 300 true got_range.2 ≡ some r')
    × Returned picky 300 got_range.0 true got_range.2 r'
put_lem_example =
    put_lem picky 300 got_range.0 true got_range.2 got_range.3.valid (omega arith)
      (omega (arith, got_range.3.was_free.0)) (λ x p q. got_range.3.bits x ∙ ground arith)
      (omega (arith, got_range.3.allocs))

-- The region with the two huge pages free and backed.
given_back :
    (r' : HugeRegion) × (put picky (page_at got_range.2 got_range.0) 300 false got_range.2
      ≡ some r')
    × Returned picky 300 got_range.0 false got_range.2 r'
given_back =
    put_lem picky 300 got_range.0 false got_range.2 got_range.3.valid (omega arith)
      (omega (arith, got_range.3.was_free.0)) (λ x p q. got_range.3.bits x ∙ ground arith)
      (omega (arith, got_range.3.allocs))

release-Reclaimed_example :
    (n : ℕ) × (r' : HugeRegion) × (release picky 512 true given_back.0 ≡ some (n, r'))
    × Reclaimed picky 512 n given_back.0 r'
release-Reclaimed_example =
    release-Reclaimed picky 512 true given_back.0 given_back.2.valid
      (omega (arith, given_back.2.allocs, got_range.3.allocs, region_allocs))

one_region : HugeRegionSet
one_region = contribute region (new_set false)

contribute-IsValid_example : Set.IsValid (contribute region (new_set false))
unfolding new_set
contribute-IsValid_example =
    contribute-IsValid region (new_set false) region-IsValid (new_set-IsValid false) (omega arith)

one_region-IsValid : Set.IsValid one_region
unfolding one_region new_set
one_region-IsValid =
    contribute-IsValid region (new_set false) region-IsValid (new_set-IsValid false) (omega arith)

one_region_room : All HasRoom one_region.regions
unfolding one_region contribute add_to_list new_set All
one_region_room = (omega (arith, region_allocs), tt)

maybe_get_set_lem_example :
    (All (TooFull 300) one_region.regions
      × (maybe_get_set 300 one_region ≡ some (none, one_region)))
    ⊎ ((page : ℕ) × (from_released : Bool) × (s' : HugeRegionSet) × (maybe_get_set 300 one_region
          ≡ some (some (page, from_released), s'))
        × Gave 300 page from_released one_region s')
maybe_get_set_lem_example =
    maybe_get_set_lem 300 one_region (omega arith) one_region-IsValid one_region_room

-- A set of the region that is used, and of the one that is free and backed.
used_set : HugeRegionSet
used_set = contribute got_range.2 (new_set false)

used_set-IsValid : Set.IsValid used_set
unfolding used_set new_set
used_set-IsValid =
    contribute-IsValid got_range.2 (new_set false) got_range.3.valid (new_set-IsValid false)
      (omega arith)

maybe_put_lem_example :
    (s' : HugeRegionSet) × (maybe_put picky (page_at got_range.2 got_range.0) 300 used_set
      ≡ some (true, s'))
    × PutBack picky 300 got_range.0 [] got_range.2 [] used_set s'
unfolding used_set contribute add_to_list new_set All
maybe_put_lem_example =
    maybe_put_lem picky (page_at got_range.2 got_range.0) 300 got_range.0 [] got_range.2 [] used_set
      used_set-IsValid refl (omega arith)
      (record {
        others = tt;
        page = refl;
        inside = omega (arith, got_range.3.was_free.0);
        used = λ x p q. got_range.3.bits x ∙ ground arith;
        some_allocs = omega (arith, got_range.3.allocs);
      })

free_set : HugeRegionSet
free_set = contribute given_back.0 (new_set true)

free_set-IsValid : Set.IsValid free_set
unfolding free_set new_set
free_set-IsValid =
    contribute-IsValid given_back.0 (new_set true) given_back.2.valid (new_set-IsValid true)
      (omega arith)

free_set_room : All HasRoom free_set.regions
unfolding free_set contribute add_to_list new_set All
free_set_room = (omega (arith, given_back.2.allocs, got_range.3.allocs, region_allocs), tt)

abbrev tenth : ℕ → ℕ
tenth n = n / 10

release_pages_lem_example :
    (m : ℕ) × (s' : HugeRegionSet) × (release_pages picky tenth 300 true true free_set
      ≡ some (256 * m, s'))
    × ReclaimedSet picky 300 m free_set s'
release_pages_lem_example =
    release_pages_lem picky tenth 300 true true free_set free_set-IsValid free_set_room
      (omega arith)
