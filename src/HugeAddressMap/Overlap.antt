-- ===== src/HugeAddressMap/Overlap.antt =====
-- `HugeAddressMap::Insert` of a range that is not free: one of the two checks fails.
use tcmalloc.Base.{
  ℕ, ◌+◌, ◌≤◌, ◌<◌, ◌≡◌, refl, inl, inr, true, not, Option, none, some, arith, Bool-cases, ◌>>◌,
  check,
}
use tcmalloc.Pages.HugeLength.{max_page_number}
use tcmalloc.Pages.HugeRange.{HugeRange, intersects}
use tcmalloc.Pages.HugeRange.Laws.{IsProper, intersects-eq}
use tcmalloc.HugeAddressMap.Tree.{Tree, leaf, node, predecessor}
use tcmalloc.HugeAddressMap.Tree.Order.{All, Member, has, covers, All-Member}
use tcmalloc.HugeAddressMap.Tree.Change.{Member-bounds}
use tcmalloc.HugeAddressMap.Map.{HugeAddressMap, after_of, insert_between, insert, holds}
use tcmalloc.HugeAddressMap.Map.Valid.{IsValid, Apart, All-Apart}
use tcmalloc.HugeAddressMap.Map.Neighbours.{Neighbours, predecessor-Neighbours}
use tcmalloc.HugeAddressMap.Insert.{sized}

-- A covered huge page lies in a member.
pub Member-covers :
    (t : Tree) (p : ℕ) → covers t p ≡ true → (x : HugeRange) × Member x t × (has x p ≡ true)
unfolding covers
Member-covers leaf p h = cc
Member-covers (node r prio longest left right) p h = elim (Bool-cases (has r p)) [
  | inl e ↦ (r, inl refl, e)
  | inr e ↦ elim (Bool-cases (covers left p)) [
    | inl f ↦ let (x, m, q) = Member-covers left p f in (x, inr (inl m), q)
    | inr f ↦ let (x, m, q) = Member-covers right p (ground arith) in (x, inr (inr m), q)
  ]
]

module _ (r : HugeRange) (m : HugeAddressMap) (v : IsValid m) (ok : IsProper r) where
  apart : (o : HugeRange) → Member o m.root → All (Apart o) m.root
  apart o mem = All-Apart 1 (max_page_number + 1) m.root o v.ordered mem

  meets_left :
      (b x : HugeRange) (p : ℕ)
      → Member b m.root
      → b.first ≤ r.first
      → x.first ≤ b.first
      → Apart b x
      → has x p ≡ true
      → has r p ≡ true
      → intersects b r ≡ true
  unfolding has
  meets_left b x p mem le lx a hx hr =
      let (lo, q, hi) = Member-bounds 1 (max_page_number + 1) m.root b v.ordered mem in
      rw (intersects-eq b r (record { nonempty = q; inside = omega arith }) ok) (ground arith)

  meets_right :
      (a x : HugeRange) (p : ℕ)
      → Member a m.root
      → r.first < a.first
      → a.first ≤ x.first
      → has x p ≡ true
      → has r p ≡ true
      → intersects a r ≡ true
  unfolding has
  meets_right a x p mem lt le hx hr =
      let (lo, q, hi) = Member-bounds 1 (max_page_number + 1) m.root a v.ordered mem in
      rw (intersects-eq a r (record { nonempty = q; inside = omega arith }) ok) (ground arith)

  rest : Option HugeRange → Option HugeRange → Option HugeAddressMap
  rest b a = check (not (holds b (λ x. intersects x r))) >> insert_between b a r (sized r m)

  right_fails :
      (b : Option HugeRange) (a : HugeRange) → intersects a r ≡ true → rest b (some a) ≡ none
  unfolding rest insert_between
  right_fails none a e = rw e
  right_fails (some b) a e = elim (Bool-cases (intersects b r)) [
    | inl t ↦ rw t
    | inr t ↦ rw t (rw e)
  ]

  left_fails :
      (b : HugeRange) (a : Option HugeRange) → intersects b r ≡ true → rest (some b) a ≡ none
  unfolding rest
  left_fails b a e = rw e

  rest_fails :
      (b a : Option HugeRange) (x : HugeRange) (p : ℕ)
      → Neighbours r.first m.root b a
      → Member x m.root
      → has x p ≡ true
      → has r p ≡ true
      → rest b a ≡ none
  rest_fails none none x p (b, a, all) mem hx hr = elim (All-Member _ m.root x all mem) [
    | inl z ↦ absurd z
    | inr z ↦ absurd z
  ]
  rest_fails (some b) none x p ((mb, le), a, all) mem hx hr = elim (All-Member _ m.root x all mem) [
    | inl z ↦
        left_fails b none (meets_left b x p mb le z (All-Member _ m.root x (apart b mb) mem) hx hr)
    | inr z ↦ absurd z
  ]
  rest_fails none (some a) x p (b, (ma, lt), all) mem hx hr = elim (All-Member _ m.root x all mem) [
    | inl z ↦ absurd z
    | inr z ↦ right_fails none a (meets_right a x p ma lt z hx hr)
  ]
  rest_fails (some b) (some a) x p ((mb, le), (ma, lt), all) mem hx hr =
      elim (All-Member _ m.root x all mem) [
        | inl z ↦
            left_fails b (some a)
              (meets_left b x p mb le z (All-Member _ m.root x (apart b mb) mem) hx hr)
        | inr z ↦ right_fails (some b) a (meets_right a x p ma lt z hx hr)
      ]

-- Adding a proper range to a valid map fails, by a `TC_CHECK`, if any huge page of it is in the map.
pub insert_overlap :
    (r : HugeRange) (m : HugeAddressMap) (p : ℕ)
    → IsValid m
    → IsProper r
    → has r p ≡ true
    → covers m.root p ≡ true
    → insert r m ≡ none
unfolding insert rest
insert_overlap r m p v ok hr hm =
    let (x, mem, hx) = Member-covers m.root p hm in
    rest_fails r m v ok (predecessor m.root r.first) (after_of m.root (predecessor m.root r.first))
      x p
      (predecessor-Neighbours 1 (max_page_number + 1) r.first m.root (omega arith)
        (omega (arith, ok.inside)) v.ordered)
      mem hx hr
