-- ===== src/HugeRegionSet/Given.antt =====
-- The loop of `ReleasePages`.
use tcmalloc.Base.{
  ℕ, ◌+◌, ◌-◌, ◌*◌, ◌^◌, ◌≤◌, ◌<◌, ◌≡◌, refl, sym, ap, ◌⊎◌, inl, inr, Bool, false, some, List, [],
  ◌∷◌, arith, dec_lt, leb, Bool-cases,
}
use tcmalloc.Pages.Length.{word, word_sub}
use tcmalloc.Pages.HugeLength as HugeLength
use tcmalloc.Pages.HugeRange.{HugeRange}
use tcmalloc.RangeTracker.BestFit.{IsLongest-ext}
use tcmalloc.HugeRegion.{HugeRegion, region_pages}
use tcmalloc.HugeRegion.Valid as Region
use tcmalloc.HugeRegion.MaybeGet.{bits_of}
use tcmalloc.HugeRegion.Unback.{release}
use tcmalloc.HugeRegion.Reclaimed.{Held, Accepted, Reclaimed}
use tcmalloc.HugeRegion.Reclaim.{release-Reclaimed}
use tcmalloc.HugeRegionSet.{release_from}
use tcmalloc.HugeRegionSet.Order.{key, Pairwise, Pairwise-refl, SameKeys}
use tcmalloc.HugeRegionSet.Contents.{total, All, Some}
use tcmalloc.HugeRegionSet.Valid.{free_of, one_of}
use tcmalloc.HugeRegionSet.Get.{HasRoom}

-- A release changes no page's use, so the longest free range stays.
key-Reclaimed :
    (unback : HugeRange → Bool) (desired n : ℕ) (r r' : HugeRegion)
    → Region.IsValid r
    → Reclaimed unback desired n r r'
    → key r' ≡ key r
key-Reclaimed unback desired n r r' v w =
    let l = v.tracker.longest in
    let l' =
      IsLongest-ext (bits_of r') (bits_of r) region_pages (key r') w.bits w.valid.tracker.longest in
    let (j, c) = l.reached in
    let (j', c') = l'.reached in
    let le = l'.bound j (key r) c in let le' = l.bound j' (key r') c' in omega (arith, le, le')

-- What a release of `m` huge pages makes of the regions, when `released` pages were released before:
-- no more than is wanted, rounded up, only what the system accepted, and as much as is wanted, or all
-- there is, unless the system refused a range of free huge pages.
pub record Given (unback : HugeRange → Bool) (to_release released m : ℕ)
    (regions regions' : List HugeRegion) : Type 0 where
  pub valid : All Region.IsValid regions'
  pub keys : SameKeys regions regions'
  pub taken : Pairwise (Accepted unback) regions regions'
  pub free : total free_of regions' + m ≡ total free_of regions
  pub number : total one_of regions' ≡ total one_of regions
  pub tight : released < to_release + 256 → released + 256 * m < to_release + 256
  pub enough :
      Some (Held unback) regions'
      ⊎ ((to_release ≤ released + 256 * m) ⊎ (total free_of regions' ≡ 0))

module _ (unback : HugeRange → Bool) (to_release released n m : ℕ) (r r' : HugeRegion)
    (regions regions' : List HugeRegion) (v : Region.IsValid r) (lt : released < to_release)
    (w : Reclaimed unback (to_release - released) n r r')
    (g : Given unback to_release (released + 256 * n) m regions regions') where
  Given-more : Given unback to_release released (n + m) (r ∷ regions) (r' ∷ regions')
  unfolding total All Some
  Given-more = record {
    valid = (w.valid, g.valid);
    keys = (sym (key-Reclaimed unback (to_release - released) n r r' v w), g.keys);
    taken = (w.taken, g.taken);
    free = omega (arith, g.free, w.free);
    number = omega (arith, g.number);
    tight = λ h. let t = g.tight (omega (arith, w.tight)) in omega arith;
    enough = elim w.enough [
      | inl x ↦ inl (inl x)
      | inr e ↦ elim g.enough [
        | inl x ↦ inl (inr x)
        | inr (inl e') ↦ inr (inl (omega arith))
        | inr (inr z) ↦ elim (dec_lt (released + 256 * (n + m)) to_release) [
          | no ge ↦ inr (inl (omega arith))
          | yes l ↦ inr (inr (omega (arith, z, w.free)))
        ]
      ]
    ];
  }

-- A turn of the loop that releases.
release_from-go :
    (unback : HugeRange → Bool) (to_release : ℕ) (adaptive : Bool) (released n m : ℕ)
    (r r' : HugeRegion) (regions regions' : List HugeRegion)
    → leb to_release released ≡ false
    → to_release < 2 ^ 64
    → released + 256 * n + 256 * m < 2 ^ 64
    → release unback (to_release - released) adaptive r ≡ some (n, r')
    → release_from unback to_release adaptive (released + 256 * n) regions
      ≡ some (released + 256 * n + 256 * m, regions')
    → release_from unback to_release adaptive released (r ∷ regions)
      ≡ some (released + 256 * (n + m), r' ∷ regions')
unfolding release_from HugeLength.in_pages
release_from-go unback to_release adaptive released n m r r' regions regions' go w small e e' =
    let d : word_sub to_release released ≡ to_release - released = ground (arith, go) in
    let s : word (released + word (n * 256)) ≡ released + 256 * n = omega arith in
    rw go (rw d (rw e (rw s (rw e' (ap (λ z. some (z, r' ∷ regions')) (omega arith))))))

pub release_from_lem :
    (unback : HugeRange → Bool) (to_release : ℕ) (adaptive : Bool) (released : ℕ)
    (regions : List HugeRegion)
    → All Region.IsValid regions
    → All HasRoom regions
    → to_release < 2 ^ 64
    → released + 256 * total free_of regions < 2 ^ 64
    → (m : ℕ) × (regions' : List HugeRegion) × (release_from unback to_release adaptive released
          regions
        ≡ some (released + 256 * m, regions'))
      × Given unback to_release released m regions regions'
unfolding release_from total All HugeLength.in_pages
release_from_lem unback to_release adaptive released [] v room w small = (
  0,
  [],
  ap (λ z. some (z, [])) (omega arith),
  record {
    valid = tt;
    keys = tt;
    taken = tt;
    free = refl;
    number = refl;
    tight = λ h. omega arith;
    enough = inr (inr refl);
  },
)
release_from_lem unback to_release adaptive released (r ∷ regions) v room w small =
    elim (Bool-cases (leb to_release released)) [
      | inl stop ↦ (
        0,
        r ∷ regions,
        rw stop (ap (λ z. some (z, r ∷ regions)) (omega arith)),
        record {
          valid = v;
          keys = Pairwise-refl (λ r s. key r ≡ key s) (λ r. refl) (r ∷ regions);
          taken =
              Pairwise-refl (Accepted unback) (λ r j lt b b'. absurd (ground (arith, b, b')))
                (r ∷ regions);
          free = omega arith;
          number = refl;
          tight = λ h. omega arith;
          enough = inr (inl (ground (arith, stop)));
        },
      )
      | inr go ↦
          let lt : released < to_release = ground (arith, go) in
          let (n, r', e, g₁) =
            release-Reclaimed unback (to_release - released) adaptive r v.0 room.0 in
          let (m, regions', e', g) =
            release_from_lem unback to_release adaptive (released + 256 * n) regions v.1 room.1 w
              (omega (arith, g₁.free, small)) in
          (
            n + m,
            r' ∷ regions',
            release_from-go unback to_release adaptive released n m r r' regions regions' go w
                (omega (arith, g₁.free, g.free, small)) e e',
            Given-more unback to_release released n m r r' regions regions' v.0 lt g₁ g,
          )
    ]
