-- ===== src/HugeRegion/Reclaim.antt =====
-- `Release` of `HugeRegion`.
use tcmalloc.Base.{
  ℕ, zero, suc, ◌*◌, ◌<◌, min, ◌≡◌, refl, subst, sym, ap, ◌∙◌, inr, Bool, true, false, some, List,
  arith, ltb, ◌==◌, replicate, length-replicate, get_or-replicate,
}
use tcmalloc.Pages.Length.{word}
use tcmalloc.Pages.HugeLength as HugeLength
use tcmalloc.Pages.HugeRange.{HugeRange}
use tcmalloc.HugeRegion.{HugeRegion, num_huge_pages, region_pages}
use tcmalloc.HugeRegion.Count.{count, count_bound, count-none, count-some}
use tcmalloc.HugeRegion.Valid.{IsValid, is_free}
use tcmalloc.HugeRegion.Unback.{unback_hugepages, select, order_of, nothing, release}
use tcmalloc.HugeRegion.Release.{Released, Picked, unback_from_lem}
use tcmalloc.HugeRegion.Select.{
  Searched, Found, chosen, select_lem, member, distinct, upwards_lem, downwards_lem,
}
use tcmalloc.HugeRegion.Reclaimed.{Reclaimed, Released-Reclaimed}

-- `UnbackHugepages` of free huge pages succeeds.
pub unback_hugepages_lem :
    (unback : HugeRange → Bool) (should : List Bool) (r : HugeRegion)
    → IsValid r
    → r.tracker.nallocs < region_pages
    → Picked 0 should r
    → (n : ℕ) × (r' : HugeRegion) × (unback_hugepages unback should r ≡ some (n, r'))
      × Released unback 0 should n r r'
unfolding unback_hugepages
unback_hugepages_lem unback should r v more c =
    let b = count_bound (is_free r) 0 num_huge_pages in
    let (n, r', e, w) =
      unback_from_lem unback num_huge_pages 0 should 0 r v more (omega arith)
        (omega (arith, b, v.counted.free)) c in
    (n, r', e ∙ ap (λ z. some (z, r')) (omega arith), w)

order_of_lem :
    (adaptive : Bool)
    → (distinct (order_of adaptive) ≡ true)
      × ((j : ℕ) → member j (order_of adaptive) ≡ ltb j num_huge_pages)
unfolding order_of
order_of_lem true = downwards_lem num_huge_pages
order_of_lem false = let (d, m) = upwards_lem 0 num_huge_pages in (d, λ j. m j ∙ ground arith)

start-Searched :
    (adaptive : Bool) (desired : ℕ) (r : HugeRegion)
    → 0 < desired
    → Searched
        (order_of adaptive)
        0
        (min desired (256 * count (is_free r) 0 num_huge_pages))
        nothing
        r
unfolding nothing
start-Searched adaptive desired r pos =
    let off : (j : ℕ) → chosen (replicate num_huge_pages false) j ≡ false =
      λ j. get_or-replicate num_huge_pages false j in
    record {
      size = length-replicate num_huge_pages false;
      free = λ j c. absurd (ground (arith, c, off j));
      distinct = (order_of_lem adaptive).0;
      ahead = λ j m. (off j, ground (arith, m, (order_of_lem adaptive).1 j));
      covered = λ j p e. inr (ground (arith, (order_of_lem adaptive).1 j));
      count =
          count-none (chosen (replicate num_huge_pages false)) 0 num_huge_pages (λ x p q. off x);
      few = λ j p e.
          let s = count-some (is_free r) 0 num_huge_pages j (omega arith) (omega (arith, p)) e in
          omega arith;
      tight = omega arith;
    }

-- The huge pages that `Release` looks for.
search : Bool → ℕ → HugeRegion → List Bool
search adaptive desired r =
    select (order_of adaptive) 0 (min desired (256 * r.free_backed_count)) nothing r

search-Found :
    (adaptive : Bool) (desired : ℕ) (r : HugeRegion)
    → IsValid r
    → 0 < desired
    → Found (min desired (256 * r.free_backed_count)) (search adaptive desired r) r
unfolding search
search-Found adaptive desired r v pos =
    subst
      (λ c.
        Found (min desired (256 * c))
          (select (order_of adaptive) 0 (min desired (256 * c)) nothing r) r)
      (sym v.counted.free)
      (select_lem (order_of adaptive) 0 (min desired (256 * count (is_free r) 0 num_huge_pages))
        nothing r (start-Searched adaptive desired r pos) (omega arith))

release-go :
    (unback : HugeRange → Bool) (desired : ℕ) (adaptive : Bool) (r : HugeRegion)
    → 0 < desired
    → release unback desired adaptive r
      ≡ unback_hugepages unback
          (select (order_of adaptive) 0 (min desired (word (r.free_backed_count * 256))) nothing r)
          r
unfolding release HugeLength.in_pages
release-go unback desired adaptive r pos =
    let go : (desired == 0) ≡ false = ground arith in rw go refl

-- Release(desired), in either order, on a valid region with fewer allocations than pages ends
-- with no failed check and releases fewer than one huge page more than the smaller of desired
-- and what is free and backed, and no less than that unless a huge page is still free and backed
-- that is in a range of unused ones that the system refused. Every huge page that lost its
-- backing is in such a range that the system accepted. The counters fall by as many as are
-- released, no page's use changes, no huge page in use loses its backing, and the region is
-- valid.
pub release-Reclaimed :
    (unback : HugeRange → Bool) (desired : ℕ) (adaptive : Bool) (r : HugeRegion)
    → IsValid r
    → r.tracker.nallocs < region_pages
    → (n : ℕ) × (r' : HugeRegion) × (release unback desired adaptive r ≡ some (n, r'))
      × Reclaimed unback desired n r r'
unfolding release search HugeLength.in_pages
release-Reclaimed unback zero adaptive r v more = (
  0,
  r,
  refl,
  record {
    valid = v;
    bits = λ x. refl;
    allocs = refl;
    used = λ j. refl;
    live = λ j p. refl;
    nbacked = omega arith;
    free = omega arith;
    tight = omega arith;
    location = refl;
    taken = λ j lt b b'. absurd (ground (arith, b, b'));
    enough = inr (omega arith);
  },
)
release-Reclaimed unback (suc d) adaptive r v more =
    let f = search-Found adaptive (suc d) r v (omega arith) in
    let small : word (r.free_backed_count * 256) ≡ 256 * r.free_backed_count =
      omega (arith, v.counted.free, count_bound (is_free r) 0 num_huge_pages) in
    let (n, r', e, w) =
      unback_hugepages_lem unback (search adaptive (suc d) r) r v more (λ j p q on. f.free j on) in
    (
      n,
      r',
      release-go unback (suc d) adaptive r (omega arith)
          ∙ subst
              (λ w.
                unback_hugepages unback (select (order_of adaptive) 0 (min (suc d) w) nothing r) r
                ≡ some (n, r'))
              (sym small) e,
      Released-Reclaimed unback (suc d) n (search adaptive (suc d) r) r r' v f w,
    )
