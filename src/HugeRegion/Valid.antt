-- ===== src/HugeRegion/Valid.antt =====
-- What a `HugeRegion`'s arrays and counters say of its tracker's bits.
use tcmalloc.Base.{
  ℕ, ◌+◌, ◌-◌, ◌*◌, ◌/◌, ◌%◌, ◌≤◌, ◌<◌, min, ◌≡◌, Bool, true, ◌&&◌, arith, ◌==◌, length,
}
use tcmalloc.Pages.PageId as PageId
use tcmalloc.Pages.HugeLength.{max_page_number}
use tcmalloc.Pages.HugePage as HugePage
use tcmalloc.Pages.HugeRange.{contains}
use tcmalloc.Bitmap.Defs.{get_bit}
use tcmalloc.RangeTracker.BestFit.{IsExact}
use tcmalloc.HugeRegion.{
  HugeRegion, num_huge_pages, region_pages, used_at, backed_at, first_page, index_of, pages_here,
}
use tcmalloc.HugeRegion.Count.{count}

-- Huge page `i` is backed, and none of its pages is used.
abbrev pub is_free : HugeRegion → ℕ → Bool
is_free r i = backed_at r i && (used_at r i == 0)

-- The arrays and the counters fit the used pages, which `f` tells.
pub record Counted (f : ℕ → Bool) (r : HugeRegion) : Type 0 where
  pub used_size : length r.pages_used ≡ num_huge_pages
  pub backed_size : length r.backed ≡ num_huge_pages
  pub used : (i : ℕ) → i < num_huge_pages → used_at r i ≡ count f (256 * i) 256
  pub live : (i : ℕ) → i < num_huge_pages → 0 < used_at r i → backed_at r i ≡ true
  pub backed : r.nbacked ≡ count (backed_at r) 0 num_huge_pages
  pub free : r.free_backed_count ≡ count (is_free r) 0 num_huge_pages

-- The region has its 512 huge pages, it ends below the last huge page, the tracker's `longest_free` is exact, each page counts
-- once, and the huge pages in use are backed.
pub record IsValid (r : HugeRegion) : Type 0 where
  pub whole : r.location.n ≡ num_huge_pages
  pub placed : r.location.first + num_huge_pages ≤ max_page_number
  pub tracker : IsExact region_pages r.tracker
  pub total : r.tracker.nused ≡ count (get_bit r.tracker.bits) 0 region_pages
  pub counted : Counted (get_bit r.tracker.bits) r

-- Page `k` of the region.
abbrev pub page_at : HugeRegion → ℕ → ℕ
page_at r k = PageId.add (first_page r) k

module _ (r : HugeRegion) (k : ℕ) (placed : r.location.first + num_huge_pages ≤ max_page_number)
    (lt : k < region_pages) where
  pub index_of-page_at : index_of r (page_at r k) ≡ k / 256
  unfolding HugePage.containing HugePage.first_page PageId.add
  index_of-page_at = omega (arith, placed, lt)

  pub pages_here-page_at : (n : ℕ) → pages_here (page_at r k) n ≡ min n (256 - k % 256)
  unfolding HugePage.containing HugePage.first_page PageId.add PageId.distance
  pages_here-page_at n = omega (arith, placed, lt)

  pub add-page_at : (n : ℕ) → k + n ≤ region_pages → PageId.add (page_at r k) n ≡ page_at r (k + n)
  unfolding PageId.add
  add-page_at n le = omega (arith, placed, lt)

  pub distance-page_at : PageId.distance (page_at r k) (first_page r) ≡ k
  unfolding PageId.add PageId.distance HugePage.first_page
  distance-page_at = omega (arith, placed, lt)

-- The region has its pages, by the test of a range.
pub contains-page_at :
    (r : HugeRegion) (k : ℕ)
    → IsValid r
    → k < region_pages
    → contains r.location (HugePage.containing (page_at r k)) ≡ true
unfolding contains HugePage.containing HugePage.first_page PageId.add
contains-page_at r k v lt = ground (arith, v.whole, v.placed)
