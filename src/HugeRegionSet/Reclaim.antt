-- ===== src/HugeRegionSet/Reclaim.antt =====
-- `ReleasePages` of `HugeRegionSet`.
use tcmalloc.Base.{
  ℕ, ◌+◌, ◌*◌, ◌^◌, ◌≤◌, ◌<◌, ◌≡◌, refl, subst, ap, ◌∙◌, ◌⊎◌, inl, inr, Bool, true, false, some,
  List, [], arith, if◌then◌else◌,
}
use tcmalloc.Pages.Length.{word_sub}
use tcmalloc.Pages.HugeLength as HugeLength
use tcmalloc.Pages.HugeRange.{HugeRange}
use tcmalloc.HugeRegion.{HugeRegion}
use tcmalloc.HugeRegion.Valid as Region
use tcmalloc.HugeRegion.Reclaimed.{Held, Accepted}
use tcmalloc.HugeRegionSet.{HugeRegionSet, unzip, release_from, release_pages}
use tcmalloc.HugeRegionSet.Order.{key, Pairwise, Pairwise-unzip, SameKeys-Sorted, unzip_twice}
use tcmalloc.HugeRegionSet.Contents.{total, All, All-unzip, Some, Some-unzip, total-unzip}
use tcmalloc.HugeRegionSet.Valid.{IsValid, free_of, one_of, total_free_bound}
use tcmalloc.HugeRegionSet.Get.{HasRoom}
use tcmalloc.HugeRegionSet.Given.{release_from_lem}

-- The pages that `ReleasePages` looks for.
abbrev pub goal : (ℕ → ℕ) → ℕ → Bool → Bool → HugeRegionSet → ℕ
goal fraction desired adaptive hit_limit s =
    if hit_limit
    then desired
    else if adaptive
    then HugeLength.in_pages s.lowater
    else fraction (HugeLength.in_pages s.free_backed)

-- What `ReleasePages` makes of a set when it releases `m` huge pages.
pub record ReclaimedSet (unback : HugeRange → Bool) (wanted m : ℕ) (s s' : HugeRegionSet)
    : Type 0 where
  pub valid : IsValid s'
  pub free : s'.free_backed + m ≡ s.free_backed
  pub number : s'.n ≡ s.n
  pub lowater : s'.lowater ≡ s'.free_backed
  pub tight : 256 * m < wanted + 256
  pub taken : Pairwise (Accepted unback) s.regions s'.regions
  pub enough : Some (Held unback) s'.regions ⊎ ((wanted ≤ 256 * m) ⊎ (s'.free_backed ≡ 0))

-- The list in the order of the loop.
abbrev turned : Bool → List HugeRegion → List HugeRegion
turned adaptive regions = if adaptive then unzip regions [] else regions

turned_total :
    (f : HugeRegion → ℕ) (adaptive : Bool) (regions : List HugeRegion)
    → total f (turned adaptive regions) ≡ total f regions
unfolding total
turned_total f true regions = omega (arith, total-unzip f regions [])
turned_total f false regions = refl

turned-All :
    (P : HugeRegion → Type 0) (adaptive : Bool) (regions : List HugeRegion)
    → All P regions
    → All P (turned adaptive regions)
unfolding All
turned-All P true regions a = All-unzip P regions [] a tt
turned-All P false regions a = a

turned-Some :
    (P : HugeRegion → Type 0) (adaptive : Bool) (regions : List HugeRegion)
    → Some P regions
    → Some P (turned adaptive regions)
turned-Some P true regions a = Some-unzip P regions [] (inl a)
turned-Some P false regions a = a

turned-Pairwise :
    (P : HugeRegion → HugeRegion → Type 0) (adaptive : Bool) (regions regions' : List HugeRegion)
    → Pairwise P (turned adaptive regions) regions'
    → Pairwise P regions (turned adaptive regions')
turned-Pairwise P false regions regions' e = e
turned-Pairwise P true regions regions' e =
    subst (λ z. Pairwise P z (unzip regions' [])) (unzip_twice regions)
      (Pairwise-unzip P (unzip regions []) regions' [] [] e tt)

from_pages-whole : (m : ℕ) → 256 * m < 2 ^ 64 → HugeLength.from_pages (256 * m) ≡ m
unfolding HugeLength.from_pages
from_pages-whole m h = ground arith

release_pages-loop :
    (unback : HugeRange → Bool) (fraction : ℕ → ℕ) (desired : ℕ) (adaptive hit_limit : Bool)
    (s : HugeRegionSet) (m : ℕ) (regions' : List HugeRegion)
    → release_from unback
        (goal fraction desired adaptive hit_limit s)
        adaptive
        0
        (turned adaptive s.regions)
      ≡ some (256 * m, regions')
    → 256 * m < 2 ^ 64
    → release_pages unback fraction desired adaptive hit_limit s
      ≡ some (
        256 * m,
        record s {
          regions = turned adaptive regions';
          free_backed = word_sub s.free_backed m;
          lowater = word_sub s.free_backed m;
        },
      )
unfolding release_pages
release_pages-loop unback fraction desired adaptive hit_limit s m regions' e h =
    rw e (rw (from_pages-whole m h) refl)

-- ReleasePages, with a 64-bit goal, on a valid set whose regions have fewer allocations than
-- pages ends with no failed check and releases a number of whole huge pages that is less than
-- one above the goal, and no less than the goal unless no free huge page is left or some region
-- still has a free and backed huge page in a range of unused ones that the system refused. Every
-- huge page that lost its backing is in such a range that the system accepted. The goal is
-- desired if the limit was hit, else, for an adaptive release, the low-water mark whatever
-- desired is, and else the fraction of what is free. The counter falls by as many, the low-water
-- mark is set to it, and the set is valid, in order for either direction of the search.
pub release_pages_lem :
    (unback : HugeRange → Bool) (fraction : ℕ → ℕ) (desired : ℕ) (adaptive hit_limit : Bool)
    (s : HugeRegionSet)
    → IsValid s
    → All HasRoom s.regions
    → goal fraction desired adaptive hit_limit s < 2 ^ 64
    → (m : ℕ) × (s' : HugeRegionSet) × (release_pages unback fraction desired adaptive hit_limit s
        ≡ some (256 * m, s'))
      × ReclaimedSet unback (goal fraction desired adaptive hit_limit s) m s s'
release_pages_lem unback fraction desired adaptive hit_limit s v room h =
    let t = turned_total free_of adaptive s.regions in
    let b = total_free_bound s.regions v.each in
    let (m, regions', e, g) =
      release_from_lem unback (goal fraction desired adaptive hit_limit s) adaptive 0
        (turned adaptive s.regions) (turned-All Region.IsValid adaptive s.regions v.each)
        (turned-All HasRoom adaptive s.regions room) h (omega (arith, t, b, v.number, v.small)) in
    let t' = turned_total free_of adaptive regions' in
    let left : word_sub s.free_backed m ≡ total free_of (turned adaptive regions') =
      omega (arith, t, t', b, g.free, v.free, v.number, v.small) in
    (
      m,
      record s {
        regions = turned adaptive regions';
        free_backed = word_sub s.free_backed m;
        lowater = word_sub s.free_backed m;
      },
      release_pages-loop unback fraction desired adaptive hit_limit s m regions'
          (e ∙ ap (λ z. some (z, regions')) (omega arith))
          (omega (arith, t, b, g.free, v.free, v.number, v.small)),
      record {
        valid = record {
          each = turned-All Region.IsValid adaptive regions' g.valid;
          order =
              SameKeys-Sorted s.regions (turned adaptive regions')
                (turned-Pairwise (λ r s. key r ≡ key s) adaptive s.regions regions' g.keys) v.order;
          number = omega (
            arith,
            v.number,
            g.number,
            turned_total one_of adaptive s.regions,
            turned_total one_of adaptive regions',
          );
          free = left;
          lowater = omega arith;
          small = v.small;
        };
        free = omega (arith, left, t, t', g.free, v.free);
        number = refl;
        lowater = refl;
        tight = let z = g.tight (omega arith) in omega arith;
        taken = turned-Pairwise (Accepted unback) adaptive s.regions regions' g.taken;
        enough = elim g.enough [
          | inl x ↦ inl (turned-Some (Held unback) adaptive regions' x)
          | inr (inl le) ↦ inr (inl (omega arith))
          | inr (inr z) ↦ inr (inr (omega (arith, left, t', z)))
        ];
      },
    )
