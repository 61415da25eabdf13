-- ===== src/HugeRegionSet.antt =====
-- `HugeRegionSet` of tcmalloc/huge_region.h: a list of regions, those with the shorter longest free
-- range first. A place in the list is the regions before it, the nearest first, and those after it.
-- `unback` is the system's, and `fraction` the multiplication by kFractionToReleaseFromRegion, which
-- is of doubles.
use tcmalloc.Base.{
  ℕ, ◌+◌, min, Bool, true, false, not, Option, none, some, List, [], ◌∷◌, ltb, leb, if◌then◌else◌,
  ◌>>=◌,
}
use tcmalloc.Pages.Length.{word, word_sub}
use tcmalloc.Pages.HugeLength as HugeLength
use tcmalloc.Pages.HugePage as HugePage
use tcmalloc.Pages.HugeRange.{HugeRange, contains}
use tcmalloc.HugeRegion.{HugeRegion, maybe_get}
use tcmalloc.HugeRegion.Unback.{put, release}
pub mod Order
pub mod Contents
pub mod Valid
pub mod Get
pub mod Given
pub mod Reclaim
pub mod Put

pub record HugeRegionSet : Type 0 where
  pub n : ℕ
  pub more_often : Bool
  pub regions : List HugeRegion
  pub free_backed : ℕ
  pub lowater : ℕ

unfoldable pub new_set : Bool → HugeRegionSet
new_set more_often = record {
  n = 0;
  more_often = more_often;
  regions = [];
  free_backed = 0;
  lowater = 0;
}

-- `BetterToAllocThan`.
abbrev pub better : HugeRegion → HugeRegion → Bool
better r s = ltb r.tracker.longest_free s.tracker.longest_free

-- `Rise` and `Fall` of the region `r`, as the places that they find.
unfoldable pub rise :
    HugeRegion → List HugeRegion → List HugeRegion → List HugeRegion × List HugeRegion
rise r [] after = ([], after)
rise r (p ∷ before) after =
    let further = rise r before (p ∷ after) in if better r p then further else (p ∷ before, after)

unfoldable pub fall :
    HugeRegion → List HugeRegion → List HugeRegion → List HugeRegion × List HugeRegion
fall r before [] = (before, [])
fall r before (q ∷ after) =
    let further = fall r (q ∷ before) after in if better q r then further else (before, q ∷ after)

-- The list of a place.
unfoldable pub unzip : List HugeRegion → List HugeRegion → List HugeRegion
unzip [] regions = regions
unzip (p ∷ before) regions = unzip before (p ∷ regions)

-- `Fix`.
unfoldable pub fix : List HugeRegion → HugeRegion → List HugeRegion → List HugeRegion
unfolding rise fall unzip
fix before r after =
    let (before₁, after₁) = rise r before after in
    let (before₂, after₂) = fall r before₁ after₁ in unzip before₂ (r ∷ after₂)

unfoldable pub add_to_list : HugeRegion → List HugeRegion → List HugeRegion
add_to_list r [] = r ∷ []
add_to_list r (q ∷ regions) =
    let rest = add_to_list r regions in if better r q then r ∷ q ∷ regions else q ∷ rest

unfoldable pub contribute : HugeRegion → HugeRegionSet → HugeRegionSet
unfolding add_to_list
contribute r s = record s {
  n = word (s.n + 1);
  free_backed = HugeLength.add s.free_backed r.free_backed_count;
  regions = add_to_list r s.regions;
}

-- The loop of `MaybeGet`: the page and the flag, the region's free huge pages before and after, and
-- the list.
pub record Taken : Type 0 where
  pub page : ℕ
  pub from_released : Bool
  pub before : ℕ
  pub after : ℕ
  pub regions : List HugeRegion

unfoldable pub get_from : ℕ → List HugeRegion → List HugeRegion → Option (Option Taken)
unfolding maybe_get fix
get_from n before [] = some none
get_from n before (r ∷ regions) = maybe_get n r >>= λ got. elim got.0 [
  | none ↦ get_from n (r ∷ before) regions
  | some x ↦ some (
      some (record {
        page = x.0;
        from_released = x.1;
        before = r.free_backed_count;
        after = got.1.free_backed_count;
        regions = fix before got.1 regions;
      }))
]

unfoldable pub maybe_get_set : ℕ → HugeRegionSet → Option (Option (ℕ × Bool) × HugeRegionSet)
unfolding get_from
maybe_get_set n s = get_from n [] s.regions >>= λ got. elim got [
  | none ↦ some (none, s)
  | some t ↦
      let left = HugeLength.sub s.free_backed (HugeLength.sub t.before t.after) in
      some (
        some (t.page, t.from_released),
        record s { regions = t.regions; free_backed = left; lowater = min s.lowater left },
      )
]

module _ (unback : HugeRange → Bool) where
  -- The loop of `MaybePut`: the free huge pages that the region gained, and the list.
  unfoldable pub put_from :
      ℕ → ℕ → Bool → List HugeRegion → List HugeRegion → Option (Option (ℕ × List HugeRegion))
  unfolding put fix contains HugePage.containing
  put_from p n release before [] = some none
  put_from p n release before (r ∷ regions) =
      let rest = put_from p n release (r ∷ before) regions in
      let here : Option (Option (ℕ × List HugeRegion)) = put unback p n release r >>= λ r'.
      some
        (some (HugeLength.sub r'.free_backed_count r.free_backed_count, fix before r' regions)) in
      if contains r.location (HugePage.containing p) then here else rest

  unfoldable pub maybe_put : ℕ → ℕ → HugeRegionSet → Option (Bool × HugeRegionSet)
  unfolding put_from
  maybe_put p n s = put_from p n (not s.more_often) [] s.regions >>= λ done. elim done [
    | none ↦ some (false, s)
    | some (gained, regions) ↦
        some
          (true, record s { regions = regions; free_backed = HugeLength.add s.free_backed gained })
  ]

  -- The loop of `ReleasePages` over the regions: the pages released, and the regions.
  unfoldable pub release_from : ℕ → Bool → ℕ → List HugeRegion → Option (ℕ × List HugeRegion)
  unfolding release HugeLength.in_pages
  release_from to_release adaptive released [] = some (released, [])
  release_from to_release adaptive released (r ∷ regions) =
      let more : Option (ℕ × List HugeRegion) =
        release unback (word_sub to_release released) adaptive r >>= λ w.
        release_from to_release adaptive (word (released + HugeLength.in_pages w.0)) regions
        >>= λ v. some (v.0, w.1 ∷ v.1) in
      if leb to_release released then some (released, r ∷ regions) else more

  unfoldable pub release_pages :
      (ℕ → ℕ) → ℕ → Bool → Bool → HugeRegionSet → Option (ℕ × HugeRegionSet)
  unfolding release_from unzip HugeLength.in_pages HugeLength.from_pages
  release_pages fraction desired adaptive hit_limit s =
      let to_release =
        if hit_limit
        then desired
        else if adaptive
        then HugeLength.in_pages s.lowater
        else fraction (HugeLength.in_pages s.free_backed) in
      let regions = if adaptive then unzip s.regions [] else s.regions in
      release_from to_release adaptive 0 regions >>= λ v.
      let left = HugeLength.sub s.free_backed (HugeLength.from_pages v.0) in
      some (
        v.0,
        record s {
          regions = if adaptive then unzip v.1 [] else v.1;
          free_backed = left;
          lowater = left;
        },
      )
