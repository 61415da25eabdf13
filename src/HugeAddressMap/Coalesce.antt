-- ===== src/HugeAddressMap/Coalesce.antt =====
-- `HugeAddressMap::Insert` as a whole: it succeeds exactly when the range is free of the map's.
use tcmalloc.Base.{
  ℕ, ◌+◌, ◌≤◌, ◌<◌, max, ◌≡◌, refl, ◌⊎◌, inl, inr, true, false, not, Option, none, some, arith,
  Bool-cases, ◌>>◌, check,
}
use tcmalloc.Pages.HugeLength.{max_page_number}
use tcmalloc.Pages.HugeRange.{HugeRange, intersects, precedes, make}
use tcmalloc.Pages.HugeRange.Laws.{IsProper, intersects-eq, precedes-eq}
use tcmalloc.HugeAddressMap.Tree.{predecessor}
use tcmalloc.HugeAddressMap.Tree.Order.{All, Member, has, covers, All-map, All-zip}
use tcmalloc.HugeAddressMap.Tree.Shape.Split.{Fits}
use tcmalloc.HugeAddressMap.Tree.Change.{Member-bounds}
use tcmalloc.HugeAddressMap.Tree.Range.{FitsBut}
use tcmalloc.HugeAddressMap.Map.{HugeAddressMap, after_of, insert_between, insert, holds}
use tcmalloc.HugeAddressMap.Map.Valid.{IsValid, covers-Member, Apart, All-Apart}
use tcmalloc.HugeAddressMap.Map.Neighbours.{Neighbours, predecessor-Neighbours}
use tcmalloc.HugeAddressMap.Insert.{
  Grown, sized, add_node-Grown, merge_before-Grown, merge_after-Grown, merge_both-Grown,
}

-- No huge page of `r` is in the map.
abbrev pub IsFree : HugeRange → HugeAddressMap → Type 0
IsFree r m = (p : ℕ) → has r p ≡ true → covers m.root p ≡ false

module _ (r : HugeRange) (m : HugeAddressMap) (v : IsValid m) (ok : IsProper r)
    (pos : 1 ≤ r.first) where
  Member-IsProper : (x : HugeRange) → Member x m.root → IsProper x × (1 ≤ x.first)
  Member-IsProper x mem =
      let (lo, p, hi) = Member-bounds 1 (max_page_number + 1) m.root x v.ordered mem in
      (record { nonempty = p; inside = omega arith }, lo)

  apart : (x : HugeRange) → Member x m.root → All (Apart x) m.root
  apart x mem = All-Apart 1 (max_page_number + 1) m.root x v.ordered mem

  -- A member does not meet a free range.
  free_of_Member :
      IsFree r m
      → (x : HugeRange) → Member x m.root
      → (x.first + x.n ≤ r.first) ⊎ (r.first + r.n ≤ x.first)
  unfolding has
  free_of_Member free x mem =
      let (proper, lo) = Member-IsProper x mem in
      ground (arith, free (max x.first r.first), covers-Member m.root x (max x.first r.first) mem)

  -- The whole of `insert` behind the search, for the neighbours that the search finds.
  rest : Option HugeRange → Option HugeRange → Option HugeAddressMap
  rest b a = check (not (holds b (λ x. intersects x r))) >> insert_between b a r (sized r m)

  abbrev Result : Option HugeAddressMap → Type 0
  Result out = (m' : HugeAddressMap) × (out ≡ some m') × Grown r m m'

  rest-none-none : Neighbours r.first m.root none none → Result (rest none none)
  unfolding rest insert_between
  rest-none-none (b, a, all) =
      (_, refl, add_node-Grown r m v ok pos (All-map _ (Fits r) m.root (λ x h. omega arith) all))

  -- What the tests on a neighbour say once the range is free.
  record Left (b : HugeRange) : Type 0 where
    off : intersects b r ≡ false
    touch : precedes b r ≡ true → b.first + b.n ≡ r.first
    gap : precedes b r ≡ false → b.first + b.n < r.first
    others : All (Apart b) m.root

  record Right (a : HugeRange) : Type 0 where
    off : intersects a r ≡ false
    touch : precedes r a ≡ true → r.first + r.n ≡ a.first
    gap : precedes r a ≡ false → r.first + r.n < a.first
    others : All (Apart a) m.root

  known_before : IsFree r m → (b : HugeRange) → Member b m.root → b.first ≤ r.first → Left b
  known_before free b mem le =
      let (proper, lo) = Member-IsProper b mem in
      let clear = free_of_Member free b mem in
      record {
        off = rw (intersects-eq b r proper ok) (ground arith);
        touch = rw (precedes-eq b r proper ok) (λ e. ground arith);
        gap = rw (precedes-eq b r proper ok) (λ e. ground arith);
        others = apart b mem;
      }

  known_after : IsFree r m → (a : HugeRange) → Member a m.root → r.first < a.first → Right a
  known_after free a mem lt =
      let (proper, lo) = Member-IsProper a mem in
      let clear = free_of_Member free a mem in
      record {
        off = rw (intersects-eq a r proper ok) (ground arith);
        touch = rw (precedes-eq r a ok proper) (λ e. ground arith);
        gap = rw (precedes-eq r a ok proper) (λ e. ground arith);
        others = apart a mem;
      }

  rest-some-none :
      (b : HugeRange)
      → Left b
      → Neighbours r.first m.root (some b) none
      → Result (rest (some b) none)
  unfolding rest insert_between
  rest-some-none b l ((mem, le), a, all) =
      let all' = All-zip _ _ m.root all l.others in
      rw (l.off) (elim (Bool-cases (precedes b r)) [
        | inl t ↦ rw t (
            merge_before-Grown r m v ok pos b mem (l.touch t) (
              All-map _ (FitsBut b.first (make b.first (b.n + r.n))) m.root
                (λ x h. omega (arith, h, ok.nonempty)) all'))
        | inr t ↦ rw t (
          _,
          refl,
          add_node-Grown r m v ok pos
              (All-map _ (Fits r) m.root (λ x h. omega (arith, h, l.gap t)) all'),
        )
      ])

  rest-none-some :
      (a : HugeRange)
      → Right a
      → Neighbours r.first m.root none (some a)
      → Result (rest none (some a))
  unfolding rest insert_between
  rest-none-some a q (b, (mem, lt), all) =
      let all' = All-zip _ _ m.root all q.others in
      rw (q.off) (elim (Bool-cases (precedes r a)) [
        | inl t ↦ rw t (
            merge_after-Grown r m v ok pos a mem (q.touch t) (
              All-map _ (FitsBut a.first (make r.first (r.n + a.n))) m.root
                (λ x h. omega (arith, h, q.touch t)) all'))
        | inr t ↦ rw t (
          _,
          refl,
          add_node-Grown r m v ok pos
              (All-map _ (Fits r) m.root (λ x h. omega (arith, h, q.gap t)) all'),
        )
      ])

  rest-some-some :
      (b a : HugeRange)
      → Left b
      → Right a
      → Neighbours r.first m.root (some b) (some a)
      → Result (rest (some b) (some a))
  unfolding rest insert_between
  rest-some-some b a l q ((mem_b, le), (mem_a, lt), all) =
      let all' = All-zip _ _ m.root all (All-zip _ _ m.root l.others q.others) in
      rw (l.off) (
        rw (q.off) (elim (Bool-cases (precedes b r)) [
          | inl t ↦ rw t (elim (Bool-cases (precedes r a)) [
            | inl s ↦ rw s (
                merge_both-Grown r m v ok pos b a mem_b mem_a (l.touch t) (q.touch s) (
                  All-map _
                    (λ x.
                      (x.first ≡ a.first) ⊎ FitsBut b.first (make b.first (b.n + (r.n + a.n))) x)
                    m.root (λ x h. omega (arith, h, l.touch t, q.touch s)) all'))
            | inr s ↦ rw s (
                merge_before-Grown r m v ok pos b mem_b (l.touch t) (
                  All-map _ (FitsBut b.first (make b.first (b.n + r.n))) m.root
                    (λ x h. omega (arith, h, l.touch t, q.gap s)) all'))
          ])
          | inr t ↦ rw t (elim (Bool-cases (precedes r a)) [
            | inl s ↦ rw s (
                merge_after-Grown r m v ok pos a mem_a (q.touch s) (
                  All-map _ (FitsBut a.first (make r.first (r.n + a.n))) m.root
                    (λ x h. omega (arith, h, l.gap t, q.touch s)) all'))
            | inr s ↦ rw s (
              _,
              refl,
              add_node-Grown r m v ok pos
                  (All-map _ (Fits r) m.root (λ x h. omega (arith, h, l.gap t, q.gap s)) all'),
            )
          ])
        ]))

  rest-Grown :
      IsFree r m → (b a : Option HugeRange) → Neighbours r.first m.root b a → Result (rest b a)
  rest-Grown free none none h = rest-none-none h
  rest-Grown free (some b) none h = rest-some-none b (known_before free b h.0.0 h.0.1) h
  rest-Grown free none (some a) h = rest-none-some a (known_after free a h.1.0 h.1.1) h
  rest-Grown free (some b) (some a) h =
      rest-some-some b a (known_before free b h.0.0 h.0.1) (known_after free a h.1.0 h.1.1) h

-- Adding a proper range (not at huge page 0) that is free to a valid map succeeds, whichever
-- neighbours it touches, and leaves a valid map, hence one in which no two ranges touch, that
-- covers the huge pages of both and no more, with the range's length on `total_mapped`.
pub insert_lem :
    (r : HugeRange) (m : HugeAddressMap)
    → IsValid m
    → IsProper r
    → 1 ≤ r.first
    → IsFree r m
    → (m' : HugeAddressMap) × (insert r m ≡ some m') × Grown r m m'
unfolding insert rest
insert_lem r m v ok pos free =
    rest-Grown r m v ok pos free (predecessor m.root r.first)
      (after_of m.root (predecessor m.root r.first))
      (predecessor-Neighbours 1 (max_page_number + 1) r.first m.root (omega arith)
        (omega (arith, ok.inside)) v.ordered)
