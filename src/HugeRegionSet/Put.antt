-- ===== src/HugeRegionSet/Put.antt =====
-- `MaybePut` of `HugeRegionSet`.
use tcmalloc.Base.{
  ℕ, ◌+◌, ◌≤◌, ◌<◌, ◌≡◌, refl, subst, ap, ◌∙◌, Bool, true, false, not, some, List, [], ◌∷◌, ◌++◌,
  arith,
}
use tcmalloc.Pages.Length.{word, word_sub}
use tcmalloc.Pages.HugePage as HugePage
use tcmalloc.Pages.HugeRange.{HugeRange, contains}
use tcmalloc.HugeRegion.{HugeRegion, region_pages}
use tcmalloc.HugeRegion.Valid as Region
use tcmalloc.HugeRegion.Valid.{page_at, contains-page_at}
use tcmalloc.HugeRegion.MaybeGet.{bits_of}
use tcmalloc.HugeRegion.Unback.{put}
use tcmalloc.HugeRegion.Put.{Returned, put_lem}
use tcmalloc.HugeRegionSet.{HugeRegionSet, unzip, fix, put_from, maybe_put}
use tcmalloc.HugeRegionSet.Order.{Sorted, IsPlace, on-IsPlace, drop-IsPlace, fix-Sorted}
use tcmalloc.HugeRegionSet.Contents.{total, All, All-fix, total-fix}
use tcmalloc.HugeRegionSet.Valid.{IsValid, free_of, one_of, total_free_bound}

-- The region that has page `p`, by the test of `MaybePut`.
abbrev pub has_page : ℕ → HugeRegion → Bool
has_page p r = contains r.location (HugePage.containing p)

-- The first region of the list that has page `p` is `region`, and its page `k` is `p`.
pub record Owner (p n k : ℕ) (before : List HugeRegion) (region : HugeRegion) : Type 0 where
  pub others : All (λ r. has_page p r ≡ false) before
  pub page : p ≡ page_at region k
  pub inside : k + n ≤ region_pages
  pub used : (x : ℕ) → k ≤ x → x < k + n → bits_of region x ≡ true
  pub some_allocs : 0 < region.tracker.nallocs

-- The list in order from some place on: the regions up to the owner, the owner, and the rest.
put_from-pass :
    (unback : HugeRange → Bool) (p n : ℕ) (release : Bool) (start mid : List HugeRegion)
    (rest : List HugeRegion)
    → All (λ r. has_page p r ≡ false) mid
    → put_from unback p n release start (mid ++ rest)
      ≡ put_from unback p n release (unzip mid start) rest
unfolding put_from All unzip
put_from-pass unback p n release start [] rest a = refl
put_from-pass unback p n release start (r ∷ mid) rest a =
    rw (a.0) (put_from-pass unback p n release (r ∷ start) mid rest a.1)

put_from-here :
    (unback : HugeRange → Bool) (p n : ℕ) (release : Bool) (start rest : List HugeRegion)
    (r r' : HugeRegion)
    → has_page p r ≡ true
    → put unback p n release r ≡ some r'
    → put_from unback p n release start (r ∷ rest)
      ≡ some (some (word_sub r'.free_backed_count r.free_backed_count, fix start r' rest))
unfolding put_from
put_from-here unback p n release start rest r r' h e = rw h (rw e refl)

walk-IsPlace :
    (start mid rest : List HugeRegion)
    → IsPlace start (mid ++ rest)
    → IsPlace (unzip mid start) rest
unfolding unzip
walk-IsPlace start [] rest v = v
walk-IsPlace start (r ∷ mid) rest v =
    walk-IsPlace (r ∷ start) mid rest (on-IsPlace r start (mid ++ rest) v)

walk-All :
    (P : HugeRegion → Type 0) (start mid rest : List HugeRegion)
    → All P start
    → All P (mid ++ rest)
    → All P (unzip mid start) × All P rest
unfolding unzip All
walk-All P start [] rest b a = (b, a)
walk-All P start (r ∷ mid) rest b a = walk-All P (r ∷ start) mid rest (a.0, b) a.1

walk_total :
    (f : HugeRegion → ℕ) (start mid rest : List HugeRegion)
    → total f (unzip mid start) + total f rest ≡ total f start + total f (mid ++ rest)
unfolding unzip total
walk_total f start [] rest = refl
walk_total f start (r ∷ mid) rest = walk_total f (r ∷ start) mid rest ∙ omega arith

-- What `MaybePut` makes of the set.
pub record PutBack (unback : HugeRange → Bool) (n k : ℕ) (mid : List HugeRegion)
    (region : HugeRegion) (after : List HugeRegion) (s s' : HugeRegionSet) : Type 0 where
  pub region' : HugeRegion
  pub returned : Returned unback n k (not s.more_often) region region'
  pub regions' : s'.regions ≡ fix (unzip mid []) region' after
  pub valid : IsValid s'

-- MaybePut(p, n), with n > 0, on a valid set: if the page is in a region that has an allocation
-- and whose n pages from it are used, and no region before that one in the list has the page,
-- the pages become free there, and the region moves to its place in the order. If giving back is
-- left to the background what is backed stays; else every huge page of the region that is free
-- and backed was so before or is in a range of unused huge pages that the system refused, and
-- every one that lost its backing is in such a range that it accepted. The set is valid, its
-- counter included.
pub maybe_put_lem :
    (unback : HugeRange → Bool) (p n k : ℕ) (mid : List HugeRegion) (region : HugeRegion)
    (after : List HugeRegion) (s : HugeRegionSet)
    → IsValid s
    → s.regions ≡ mid ++ region ∷ after
    → 0 < n
    → Owner p n k mid region
    → (s' : HugeRegionSet) × (maybe_put unback p n s ≡ some (true, s'))
      × PutBack unback n k mid region after s s'
unfolding maybe_put All total
maybe_put_lem unback p n k mid region after s v split pos o =
    let each = subst (All Region.IsValid) split v.each in
    let order = subst Sorted split v.order in
    let (wb, wa) = walk-All Region.IsValid [] mid (region ∷ after) tt each in
    let place =
      walk-IsPlace [] mid (region ∷ after) (record { back = tt; front = order; meets = tt }) in
    let (region', e, w) =
      put_lem unback n k (not s.more_often) region wa.0 pos o.inside o.used o.some_allocs in
    let has : has_page p region ≡ true =
      ap (λ z. has_page z region) o.page
      ∙ contains-page_at region k wa.0 (omega (arith, o.inside)) in
    let e' : put unback p n (not s.more_often) region ≡ some region' =
      ap (λ z. put unback z n (not s.more_often) region) o.page ∙ e in
    let found =
      ap (put_from unback p n (not s.more_often) []) split
      ∙ put_from-pass unback p n (not s.more_often) [] mid (region ∷ after) o.others
      ∙ put_from-here unback p n (not s.more_often) (unzip mid []) after region region' has e' in
    let regions' = fix (unzip mid []) region' after in
    let b = total_free_bound s.regions v.each in
    let each' = All-fix Region.IsValid (unzip mid []) region' after wb w.valid wa.1 in
    let b' = total_free_bound regions' each' in
    let old = ap (total free_of) split in
    let old_number = ap (total one_of) split in
    let walk = walk_total free_of [] mid (region ∷ after) in
    let walk_number = walk_total one_of [] mid (region ∷ after) in
    let new = total-fix free_of (unzip mid []) region' after in
    let new_number = total-fix one_of (unzip mid []) region' after in
    let gain : word (s.free_backed + word_sub region'.free_backed_count region.free_backed_count)
        ≡ total free_of regions' =
      omega (
        arith, b, b', old, old_number, walk, walk_number, new, new_number, w.free_ge, v.free,
        v.number, v.small,
      ) in
    (
      record s {
        regions = regions';
        free_backed =
            word (s.free_backed + word_sub region'.free_backed_count region.free_backed_count);
      },
      rw found refl,
      record {
        region' = region';
        returned = w;
        regions' = refl;
        valid = record {
          each = each';
          order =
              fix-Sorted (unzip mid []) region' after
                (drop-IsPlace region (unzip mid []) after place);
          number = omega (arith, old_number, walk_number, new_number, v.number);
          free = gain;
          lowater = omega (arith, gain, old, walk, new, w.free_ge, v.free, v.lowater);
          small = v.small;
        };
      },
    )
