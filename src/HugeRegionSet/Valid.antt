-- ===== src/HugeRegionSet/Valid.antt =====
-- The invariant of `HugeRegionSet`, and `Contribute`.
use tcmalloc.Base.{
  ℕ, ◌*◌, ◌^◌, ◌≤◌, ◌<◌, ◌≡◌, refl, inl, inr, Bool, false, List, [], ◌∷◌, arith, ltb, Bool-cases,
}
use tcmalloc.HugeRegion.{HugeRegion, num_huge_pages}
use tcmalloc.HugeRegion.Count.{count_bound}
use tcmalloc.HugeRegion.Valid as Region
use tcmalloc.HugeRegion.Valid.{is_free}
use tcmalloc.HugeRegionSet.{HugeRegionSet, add_to_list, contribute, new_set}
use tcmalloc.HugeRegionSet.Order.{Sorted, Meets}
use tcmalloc.HugeRegionSet.Contents.{total, All, total-add_to_list, All-add_to_list}

abbrev pub free_of : HugeRegion → ℕ
free_of r = r.free_backed_count

abbrev pub one_of : HugeRegion → ℕ
one_of r = 1

-- The regions are valid and in the order of their longest free ranges, the counters count them and
-- their free huge pages, and the low-water mark is not above that.
pub record IsValid (s : HugeRegionSet) : Type 0 where
  pub each : All Region.IsValid s.regions
  pub order : Sorted s.regions
  pub number : s.n ≡ total one_of s.regions
  pub free : s.free_backed ≡ total free_of s.regions
  pub lowater : s.lowater ≤ s.free_backed
  pub small : s.n ≤ 2 ^ 40

-- A region has at most 512 free huge pages.
pub total_free_bound :
    (regions : List HugeRegion)
    → All Region.IsValid regions
    → total free_of regions ≤ 512 * total one_of regions
unfolding total All
total_free_bound [] v = omega arith
total_free_bound (r ∷ regions) v =
    let b = count_bound (is_free r) 0 num_huge_pages in
    omega (arith, b, v.0.counted.free, total_free_bound regions v.1)

add_to_list_head :
    (q r : HugeRegion) (regions : List HugeRegion)
    → Meets (q ∷ []) regions
    → ltb r.tracker.longest_free q.tracker.longest_free ≡ false
    → Meets (q ∷ []) (add_to_list r regions)
unfolding add_to_list
add_to_list_head q r [] m e = ground (arith, e)
add_to_list_head q r (p ∷ regions) m e =
    elim (Bool-cases (ltb r.tracker.longest_free p.tracker.longest_free)) [
      | inl e' ↦ rw e' (ground (arith, e))
      | inr e' ↦ rw e' m
    ]

add_to_list-Sorted :
    (r : HugeRegion) (regions : List HugeRegion) → Sorted regions → Sorted (add_to_list r regions)
unfolding add_to_list
add_to_list-Sorted r [] o = (tt, tt)
add_to_list-Sorted r (q ∷ regions) o =
    elim (Bool-cases (ltb r.tracker.longest_free q.tracker.longest_free)) [
      | inl e ↦ rw e (ground (arith, e), o)
      | inr e ↦ rw e (add_to_list_head q r regions o.0 e, add_to_list-Sorted r regions o.1)
    ]

pub new_set-IsValid : (more_often : Bool) → IsValid (new_set more_often)
unfolding new_set total All
new_set-IsValid more_often = record {
  each = tt;
  order = tt;
  number = refl;
  free = refl;
  lowater = omega arith;
  small = omega arith;
}

-- Contributing a valid region to a valid set of fewer than 2^40 regions keeps the invariant: the
-- regions are valid and in the order of their longest free ranges, the counters count them and
-- their free backed huge pages, and the low-water mark is not above that.
pub contribute-IsValid :
    (r : HugeRegion) (s : HugeRegionSet)
    → Region.IsValid r
    → IsValid s
    → s.n < 2 ^ 40
    → IsValid (contribute r s)
unfolding contribute
contribute-IsValid r s w v room =
    let b = total_free_bound s.regions v.each in
    let c = count_bound (is_free r) 0 num_huge_pages in
    let t = total-add_to_list free_of r s.regions in
    record {
      each = All-add_to_list Region.IsValid r s.regions w v.each;
      order = add_to_list-Sorted r s.regions v.order;
      number = omega (arith, total-add_to_list one_of r s.regions, v.number);
      free = omega (arith, t, b, c, w.counted.free, v.free, v.number);
      lowater = omega (arith, b, c, w.counted.free, v.free, v.number, v.lowater);
      small = omega arith;
    }
