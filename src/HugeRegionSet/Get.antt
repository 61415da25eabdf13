-- ===== src/HugeRegionSet/Get.antt =====
-- `MaybeGet` of `HugeRegionSet`.
use tcmalloc.Base.{
  ℕ, ◌+◌, ◌<◌, min, ◌≡◌, refl, subst, sym, ap, ◌∙◌, ◌⊎◌, inl, inr, Bool, none, some, List, [], ◌∷◌,
  arith,
}
use tcmalloc.RangeTracker.Runs.{Free}
use tcmalloc.Pages.Length.{word_sub}
use tcmalloc.HugeRegion.{HugeRegion, region_pages}
use tcmalloc.HugeRegion.Valid as Region
use tcmalloc.HugeRegion.Valid.{page_at}
use tcmalloc.HugeRegion.MaybeGet.{Got, bits_of, maybe_get_lem}
use tcmalloc.HugeRegionSet.{HugeRegionSet, Taken, unzip, fix, get_from, maybe_get_set}
use tcmalloc.HugeRegionSet.Order.{Sorted, IsPlace, on-IsPlace, drop-IsPlace, fix-Sorted}
use tcmalloc.HugeRegionSet.Contents.{total, All, total-fix, total-unzip, All-fix}
use tcmalloc.HugeRegionSet.Valid.{IsValid, free_of, one_of, total_free_bound}

-- The region can count another allocation.
abbrev pub HasRoom : HugeRegion → Type 0
HasRoom r = r.tracker.nallocs < region_pages

-- The region has not `n` free pages in a row.
abbrev pub TooFull : ℕ → HugeRegion → Type 0
TooFull n r = (j m : ℕ) → Free (bits_of r) region_pages j m → m < n

-- The first region of the list that has `n` free pages in a row gives them: `r`, between `before` and
-- `after`, becomes `r'`.
pub record GotFrom (n : ℕ) (start regions : List HugeRegion) (t : Taken) : Type 0 where
  pub before : List HugeRegion
  pub region : HugeRegion
  pub region' : HugeRegion
  pub after : List HugeRegion
  pub index : ℕ
  pub place : unzip start regions ≡ unzip before (region ∷ after)
  pub passed : All (TooFull n) start → All (TooFull n) before
  pub in_order : IsPlace before (region ∷ after)
  pub valid_before : All Region.IsValid before
  pub valid_after : All Region.IsValid after
  pub valid : Region.IsValid region
  pub got : Got n index t.from_released region region'
  pub page : t.page ≡ page_at region index
  pub free_before : t.before ≡ region.free_backed_count
  pub free_after : t.after ≡ region'.free_backed_count
  pub regions' : t.regions ≡ fix before region' after

-- The region passed over.
module _ (n : ℕ) (start : List HugeRegion) (r : HugeRegion) (regions : List HugeRegion) (t : Taken)
    (full : TooFull n r) (w : GotFrom n (r ∷ start) regions t) where
  GotFrom-skip : GotFrom n start (r ∷ regions) t
  unfolding unzip All
  GotFrom-skip = record {
    before = w.before;
    region = w.region;
    region' = w.region';
    after = w.after;
    index = w.index;
    place = w.place;
    passed = λ a. w.passed (full, a);
    in_order = w.in_order;
    valid_before = w.valid_before;
    valid_after = w.valid_after;
    valid = w.valid;
    got = w.got;
    page = w.page;
    free_before = w.free_before;
    free_after = w.free_after;
    regions' = w.regions';
  }

pub get_from_lem :
    (n : ℕ) (start regions : List HugeRegion)
    → 0 < n
    → IsPlace start regions
    → All Region.IsValid start
    → All Region.IsValid regions
    → All HasRoom regions
    → (All (TooFull n) regions × (get_from n start regions ≡ some none))
      ⊎ ((t : Taken) × (get_from n start regions ≡ some (some t)) × GotFrom n start regions t)
unfolding get_from All
get_from_lem n start [] pos o b a room = inl (tt, refl)
get_from_lem n start (r ∷ regions) pos o b a room = elim (maybe_get_lem n r a.0 pos room.0) [
  | inl (full, e) ↦
      elim (get_from_lem n (r ∷ start) regions pos (on-IsPlace r start regions o) (a.0, b) a.1
        room.1) [
          | inl (all, e') ↦ inl ((full, all), rw e e')
          | inr (t, e', w) ↦ inr (t, rw e e', GotFrom-skip n start r regions t full w)
        ]
  | inr (k, released, r', e, g) ↦ inr (
    record {
      page = page_at r k;
      from_released = released;
      before = r.free_backed_count;
      after = r'.free_backed_count;
      regions = fix start r' regions;
    },
    rw e refl,
    record {
      before = start;
      region = r;
      region' = r';
      after = regions;
      index = k;
      place = refl;
      passed = λ all. all;
      in_order = o;
      valid_before = b;
      valid_after = a.1;
      valid = a.0;
      got = g;
      page = refl;
      free_before = refl;
      free_after = refl;
      regions' = refl;
    },
  )
]

-- What `MaybeGet` makes of the set.
pub record Gave (n : ℕ) (page : ℕ) (from_released : Bool) (s s' : HugeRegionSet) : Type 0 where
  pub before : List HugeRegion
  pub region : HugeRegion
  pub region' : HugeRegion
  pub after : List HugeRegion
  pub index : ℕ
  pub place : s.regions ≡ unzip before (region ∷ after)
  pub passed : All (TooFull n) before
  pub got : Got n index from_released region region'
  pub at_page : page ≡ page_at region index
  pub regions' : s'.regions ≡ fix before region' after
  pub valid : IsValid s'

module _ (n : ℕ) (s : HugeRegionSet) (v : IsValid s) (t : Taken)
    (w : GotFrom n [] s.regions t) where
  left : ℕ
  left = word_sub s.free_backed (word_sub t.before t.after)

  counted : total free_of s.regions ≡ total free_of w.before + t.before + total free_of w.after
  unfolding total unzip
  counted =
      ap (total free_of) w.place
      ∙ total-unzip free_of w.before (w.region ∷ w.after)
      ∙ omega (arith, w.free_before)

  counted' : total free_of t.regions ≡ total free_of w.before + t.after + total free_of w.after
  counted' =
      ap (total free_of) w.regions'
      ∙ total-fix free_of w.before w.region' w.after
      ∙ omega (arith, w.free_after)

  number' : total one_of t.regions ≡ total one_of s.regions
  unfolding total unzip
  number' =
      ap (total one_of) w.regions'
      ∙ total-fix one_of w.before w.region' w.after
      ∙ omega (arith, total-unzip one_of w.before (w.region ∷ w.after), ap (total one_of) w.place)

  left_lem : left ≡ total free_of t.regions
  unfolding left
  left_lem =
      let b = total_free_bound s.regions v.each in
      omega (
        arith, b, v.free, v.number, v.small, counted, counted', w.got.free_le, w.free_before,
        w.free_after,
      )

  set-Gave :
      Gave n t.page t.from_released s
        (record s { regions = t.regions; free_backed = left; lowater = min s.lowater left })
  unfolding unzip All
  set-Gave = record {
    before = w.before;
    region = w.region;
    region' = w.region';
    after = w.after;
    index = w.index;
    place = w.place;
    passed = w.passed tt;
    got = w.got;
    at_page = w.page;
    regions' = w.regions';
    valid = record {
      each = subst (All Region.IsValid) (sym w.regions') (
          All-fix Region.IsValid w.before w.region' w.after w.valid_before w.got.valid
            w.valid_after);
      order = subst Sorted (sym w.regions') (
          fix-Sorted w.before w.region' w.after
            (drop-IsPlace w.region w.before w.after w.in_order));
      number = v.number ∙ sym number';
      free = left_lem;
      lowater = omega arith;
      small = v.small;
    };
  }

-- MaybeGet(n), with n > 0, on a valid set whose regions have fewer allocations than pages: either
-- no region has n free pages in a row, and nothing changes; or the first region of the list that
-- has them, so the fullest one that fits, gives n of them, which are used and backed afterwards,
-- from_released says that one was in an unbacked huge page, the region moves to its place in the
-- order, and the set is valid, its counters and low-water mark included.
pub maybe_get_set_lem :
    (n : ℕ) (s : HugeRegionSet)
    → 0 < n
    → IsValid s
    → All HasRoom s.regions
    → (All (TooFull n) s.regions × (maybe_get_set n s ≡ some (none, s)))
      ⊎ ((page : ℕ) × (from_released : Bool) × (s' : HugeRegionSet) × (maybe_get_set n s
            ≡ some (some (page, from_released), s'))
          × Gave n page from_released s s')
unfolding maybe_get_set All left
maybe_get_set_lem n s pos v room =
    elim (get_from_lem n [] s.regions pos (record { back = tt; front = v.order; meets = tt }) tt
      v.each room) [
        | inl (full, e) ↦ inl (full, rw e refl)
        | inr (t, e, w) ↦ inr (
          t.page,
          t.from_released,
          record s {
            regions = t.regions;
            free_backed = left n s v t w;
            lowater = min s.lowater (left n s v t w);
          },
          rw e refl,
          set-Gave n s v t w,
        )
      ]
