-- ===== src/HugeRegion/Unback.antt =====
-- `Put`, `Release` and `UnbackHugepages` of `HugeRegion` in tcmalloc/huge_region.h. `unback`, the
-- system's, says of a range of huge pages whether they could be released; a call of it is one step,
-- without the lock's being dropped.
use tcmalloc.Base.{
  ℕ, zero, suc, ◌+◌, ◌-◌, min, Bool, true, false, ◌&&◌, Option, some, List, [], ◌∷◌, ltb, leb, ◌==◌,
  if◌then◌else◌, set, get_or, replicate, ◌>>=◌, ◌>>◌, check,
}
use tcmalloc.Pages.Length.{word}
use tcmalloc.Pages.PageId as PageId
use tcmalloc.Pages.HugeLength as HugeLength
use tcmalloc.Pages.HugeLength.{pages_per_huge_page}
use tcmalloc.Pages.HugePage as HugePage
use tcmalloc.Pages.HugeRange.{HugeRange, make}
use tcmalloc.RangeTracker.{mark, unmark}
use tcmalloc.HugeRegion.{
  HugeRegion, num_huge_pages, region_pages, used_at, backed_at, first_page, dec,
}

-- `std::exchange` of `n` places from `i` on: the sum of the old values, and the array.
unfoldable pub exchange : ℕ → ℕ → ℕ → List ℕ → ℕ × List ℕ
exchange i zero v xs = (0, xs)
exchange i (suc n) v xs =
    let (used, xs') = exchange (i + 1) n v (set xs i v) in (word (get_or xs i 0 + used), xs')

-- `n` places from `i` on become false.
unfoldable pub clear_from : ℕ → ℕ → List Bool → List Bool
clear_from i zero xs = xs
clear_from i (suc n) xs = clear_from (i + 1) n (set xs i false)

-- The run of set places from `i` on, with `fuel` places left.
unfoldable pub run_length : ℕ → ℕ → List Bool → ℕ
run_length zero i should = 0
run_length (suc fuel) i should =
    let rest = run_length fuel (i + 1) should in if get_or should i false then suc rest else 0

-- The search of `Release` over the huge pages of `order`.
unfoldable pub select : List ℕ → ℕ → ℕ → List Bool → HugeRegion → List Bool
unfolding HugeLength.in_pages
select [] target to_release should r = should
select (i ∷ order) target to_release should r =
    let pick = backed_at r i && (used_at r i == 0) in
    let target' = if pick then HugeLength.add target 1 else target in
    let should' = if pick then set should i true else should in
    let rest = select order target' to_release should' r in
    if leb to_release (HugeLength.in_pages target') then should' else rest

-- 0, 1, ... up to `n`, and down.
unfoldable pub upwards : ℕ → ℕ → List ℕ
upwards i zero = []
upwards i (suc n) = i ∷ upwards (i + 1) n

unfoldable pub downwards : ℕ → List ℕ
downwards zero = []
downwards (suc n) = n ∷ downwards n

-- The order of `Release`'s search.
unfoldable pub order_of : Bool → List ℕ
unfolding upwards downwards
order_of adaptive_release =
    if adaptive_release then downwards num_huge_pages else upwards 0 num_huge_pages

-- `should_unback` at the start.
unfoldable pub nothing : List Bool
nothing = replicate num_huge_pages false

module _ (unback : HugeRange → Bool) where
  -- The body of `UnbackHugepages`' loop for the run of `hl` huge pages from `i`: how many were
  -- released.
  unfoldable pub unback_run : ℕ → ℕ → HugeRegion → Option (ℕ × HugeRegion)
  unfolding exchange clear_from mark unmark HugeLength.in_pages
  unback_run i hl r = do
    let success = unback (make (HugePage.add r.location.first i) hl)
    let pages = HugeLength.in_pages hl
    let marked = mark region_pages (HugeLength.in_pages i) pages r.tracker
    let (used, blocked) = exchange i hl pages_per_huge_page r.pages_used
    check (used == 0)
    let counted = HugeLength.sub r.free_backed_count hl
    let (used', freed) = exchange i hl 0 blocked
    check (used' == pages)
    some (
      (if success then hl else 0),
      record r {
        tracker = unmark region_pages (HugeLength.in_pages i) pages marked;
        pages_used = freed;
        backed = if success then clear_from i hl r.backed else r.backed;
        nbacked = if success then HugeLength.sub r.nbacked hl else r.nbacked;
        total_unbacked = if success then HugeLength.add r.total_unbacked hl else r.total_unbacked;
        free_backed_count = if success then counted else HugeLength.add counted hl;
      },
    )

  -- `UnbackHugepages` from huge page `i` on.
  unfoldable pub unback_from : ℕ → ℕ → List Bool → ℕ → HugeRegion → Option (ℕ × HugeRegion)
  unfolding unback_run run_length
  unback_from zero i should released r = some (released, r)
  unback_from (suc fuel) i should released r =
      let hl = run_length (num_huge_pages - i) i should in
      let skip = unback_from fuel (i + 1) should released r in
      let run : Option (ℕ × HugeRegion) = (do
        (n, r') ← unback_run i hl r
        unback_from fuel (i + hl) should (HugeLength.add released n) r') in
      if ltb i num_huge_pages
      then (if get_or should i false then run else skip)
      else some (released, r)

  unfoldable pub unback_hugepages : List Bool → HugeRegion → Option (ℕ × HugeRegion)
  unback_hugepages should r = unback_from num_huge_pages 0 should 0 r

  -- `Put` of the `n` pages from `p`.
  unfoldable pub put : ℕ → ℕ → Bool → HugeRegion → Option HugeRegion
  unfolding dec unmark
  put p n release r =
      let index = PageId.distance p (first_page r) in
      let r₁ = record r { tracker = unmark region_pages index n r.tracker } in
      let (should, r₂) = dec n p n nothing r₁ in
      if release then (do (released, r₃) ← unback_hugepages should r₂; some r₃) else some r₂

  unfoldable pub release : ℕ → Bool → HugeRegion → Option (ℕ × HugeRegion)
  unfolding select HugeLength.in_pages
  release desired adaptive_release r =
      let to_release = min desired (HugeLength.in_pages r.free_backed_count) in
      let should = select (order_of adaptive_release) 0 to_release nothing r in
      if desired == 0 then some (0, r) else unback_hugepages should r
