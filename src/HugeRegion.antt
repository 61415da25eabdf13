-- ===== src/HugeRegion.antt =====
-- `HugeRegion` of tcmalloc/huge_region.h: page allocations that cross huge pages. The two arrays have
-- a place for each huge page of the region.
use tcmalloc.Base.{
  ℕ, zero, suc, ◌-◌, ◌*◌, min, Bool, true, false, not, ◌&&◌, ◌||◌, Option, none, some, List, ltb,
  ◌==◌, if◌then◌else◌, set, get_or, replicate, ◌>>=◌, ◌>>◌,
}
use tcmalloc.Pages.Length as Length
use tcmalloc.Pages.PageId as PageId
use tcmalloc.Pages.HugeLength as HugeLength
use tcmalloc.Pages.HugeLength.{pages_per_huge_page}
use tcmalloc.Pages.HugePage as HugePage
use tcmalloc.Pages.HugeRange.{HugeRange}
use tcmalloc.RangeTracker.{RangeTracker, clear, find_and_mark}
pub mod Count
pub mod Valid
pub mod Start
pub mod Inc
pub mod Get
pub mod MaybeGet
pub mod Unback
pub mod Exchange
pub mod Run
pub mod Release
pub mod Select
pub mod Reclaimed
pub mod Reclaim
pub mod Dec
pub mod Freed
pub mod Put

-- `kRegionSize`, 1 GiB.
abbrev pub num_huge_pages : ℕ
num_huge_pages = 512

-- The size of `tracker_`.
abbrev pub region_pages : ℕ
region_pages = num_huge_pages * pages_per_huge_page

pub record HugeRegion : Type 0 where
  pub tracker : RangeTracker
  pub location : HugeRange
  pub pages_used : List ℕ
  pub backed : List Bool
  pub nbacked : ℕ
  pub total_unbacked : ℕ
  pub free_backed_count : ℕ

-- The constructor; the name that it gives the memory is not kept.
unfoldable pub new_region : HugeRange → HugeRegion
new_region r = record {
  tracker = clear region_pages;
  location = r;
  pages_used = replicate num_huge_pages 0;
  backed = replicate num_huge_pages false;
  nbacked = 0;
  total_unbacked = 0;
  free_backed_count = 0;
}

abbrev pub used_at : HugeRegion → ℕ → ℕ
used_at r i = get_or r.pages_used i 0

abbrev pub backed_at : HugeRegion → ℕ → Bool
backed_at r i = get_or r.backed i false

-- The start of the region as a page.
abbrev pub first_page : HugeRegion → ℕ
first_page r = HugePage.first_page r.location.first

-- The number of a page's huge page in the region, and the pages from it to the end of that.
abbrev pub index_of : HugeRegion → ℕ → ℕ
index_of r p = HugePage.distance (HugePage.containing p) r.location.first

abbrev pub pages_here : ℕ → ℕ → ℕ
pages_here p n =
    min n (PageId.distance (HugePage.first_page (HugePage.add (HugePage.containing p) 1)) p)

-- One turn of `Inc`'s loop: `here` pages more are used in huge page `i`. The Boolean is that it was
-- not backed.
unfoldable pub inc_page : ℕ → ℕ → HugeRegion → Bool × HugeRegion
inc_page i here r =
    let empty = used_at r i == 0 in
    let back = empty && not (backed_at r i) in
    let free = empty && backed_at r i in
    (
      back,
      record r {
        pages_used = set r.pages_used i (Length.add (used_at r i) here);
        backed = if back then set r.backed i true else r.backed;
        nbacked = if back then HugeLength.add r.nbacked 1 else r.nbacked;
        free_backed_count =
            if free then HugeLength.sub r.free_backed_count 1 else r.free_backed_count;
      },
    )

-- `Inc`; each turn takes a page at least, the fuel.
unfoldable pub inc : ℕ → ℕ → ℕ → Bool → HugeRegion → Bool × HugeRegion
unfolding inc_page HugePage.containing HugePage.first_page
inc zero p n should_back r = (should_back, r)
inc (suc fuel) p n should_back r =
    let here = pages_here p n in
    let (back, r') = inc_page (index_of r p) here r in
    let rest = inc fuel (PageId.add p here) (n - here) (should_back || back) r' in
    if ltb 0 n then rest else (should_back, r)

-- `MaybeGet`: `none` within is that there is no range, and `none` that a check fails.
unfoldable pub maybe_get : ℕ → HugeRegion → Option (Option (ℕ × Bool) × HugeRegion)
unfolding inc find_and_mark
maybe_get n r =
    let found = find_and_mark region_pages n r.tracker in
    if ltb r.tracker.longest_free n then some (none, r) else (do
      (index, tracker') ← found
      let page = PageId.add (first_page r) index
      let (from_released, r') = inc n page n false (record r { tracker = tracker' })
      some (some (page, from_released), r'))

-- One turn of `Dec`'s loop; the Boolean is that the huge page became empty.
unfoldable pub dec_page : ℕ → ℕ → HugeRegion → Bool × HugeRegion
dec_page i here r =
    let left = Length.sub (used_at r i) here in
    let r' = record r { pages_used = set r.pages_used i left } in
    if left == 0
    then (true, record r' { free_backed_count = HugeLength.add r.free_backed_count 1 })
    else (false, r')

-- The loop of `Dec`, with `should_unback`.
unfoldable pub dec : ℕ → ℕ → ℕ → List Bool → HugeRegion → List Bool × HugeRegion
unfolding dec_page HugePage.containing HugePage.first_page
dec zero p n should r = (should, r)
dec (suc fuel) p n should r =
    let here = pages_here p n in
    let i = index_of r p in
    let (empty, r') = dec_page i here r in
    let rest =
      dec fuel (PageId.add p here) (n - here) (if empty then set should i true else should) r' in
    if ltb 0 n then rest else (should, r)
