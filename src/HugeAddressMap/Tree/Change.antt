-- ===== src/HugeAddressMap/Tree/Change.antt =====
-- Removing the node of a member, and giving a node another range.
use tcmalloc.Base.{
  ℕ, ◌+◌, ◌≤◌, ◌<◌, ◌≡◌, ◌⊎◌, inl, inr, Bool, true, false, not, ◌&&◌, ◌||◌, arith, ltb, ◌==◌,
}
use tcmalloc.Pages.HugeRange.{HugeRange}
use tcmalloc.HugeAddressMap.Tree.{Tree, leaf, node, fix_longest, merge, remove_at}
use tcmalloc.HugeAddressMap.Tree.Order.{
  Bounded, IsHeap, IsExact, Member, has, covers, count, total, longest_of-exact, IsHeap-mono,
  covers-outside,
}
use tcmalloc.HugeAddressMap.Tree.Shape.Merge.{
  merge-Bounded, merge-IsHeap, merge-IsExact, merge-total, merge-covers,
}

-- Where a member of a bounded tree stands.
pub Member-bounds :
    (lo hi : ℕ) (t : Tree) (r : HugeRange)
    → Bounded lo hi t
    → Member r t
    → (lo ≤ r.first) × (0 < r.n) × (r.first + r.n < hi)
Member-bounds lo hi leaf r b m = elim m [ ]
Member-bounds lo hi (node r' prio longest left right) r (a, c, d, e, f) (inl q) = ground arith
Member-bounds lo hi (node r' prio longest left right) r (a, c, d, e, f) (inr (inl m)) =
    omega (arith, Member-bounds lo r'.first left r e m)
Member-bounds lo hi (node r' prio longest left right) r (a, c, d, e, f) (inr (inr m)) =
    omega (arith, Member-bounds (r'.first + r'.n + 1) hi right r f m)

pub remove_at-Bounded : (s lo hi : ℕ) (t : Tree) → Bounded lo hi t → Bounded lo hi (remove_at s t)
unfolding remove_at fix_longest
remove_at-Bounded s lo hi leaf b = tt
remove_at-Bounded s lo hi (node r prio longest left right) b = ground (
  arith,
  remove_at-Bounded s lo r.first left,
  remove_at-Bounded s (r.first + r.n + 1) hi right,
  merge-Bounded true lo r.first (r.first + r.n + 1) hi left right,
)

pub remove_at-IsHeap : (s top : ℕ) (t : Tree) → IsHeap top t → IsHeap top (remove_at s t)
unfolding remove_at fix_longest
remove_at-IsHeap s top leaf b = tt
remove_at-IsHeap s top (node r prio longest left right) b = ground (
  arith,
  remove_at-IsHeap s prio left,
  remove_at-IsHeap s prio right,
  merge-IsHeap true prio left right,
  IsHeap-mono prio top (merge true left right),
)

pub remove_at-IsExact : (s : ℕ) (t : Tree) → IsExact t → IsExact (remove_at s t)
unfolding remove_at fix_longest
remove_at-IsExact s leaf b = tt
remove_at-IsExact s (node r prio longest left right) b = ground (
  arith,
  remove_at-IsExact s left,
  remove_at-IsExact s right,
  merge-IsExact true left right,
  longest_of-exact (remove_at s left),
  longest_of-exact (remove_at s right),
  longest_of-exact left,
  longest_of-exact right,
)

-- Removing a member takes one node and its huge pages away.
pub remove_at-total :
    (lo hi : ℕ) (t : Tree) (r : HugeRange)
    → Bounded lo hi t
    → Member r t
    → (count (remove_at r.first t) + 1 ≡ count t) × (total (remove_at r.first t) + r.n ≡ total t)
unfolding remove_at fix_longest count total
remove_at-total lo hi leaf r b m = elim m [ ]
remove_at-total lo hi (node r' prio longest left right) r (a, c, d, e, f) (inl q) =
    ground (arith, merge-total true left right)
remove_at-total lo hi (node r' prio longest left right) r (a, c, d, e, f) (inr (inl m)) =
    ground (arith, remove_at-total lo r'.first left r e m, Member-bounds lo r'.first left r e m)
remove_at-total lo hi (node r' prio longest left right) r (a, c, d, e, f) (inr (inr m)) = ground (
  arith,
  remove_at-total (r'.first + r'.n + 1) hi right r f m,
  Member-bounds (r'.first + r'.n + 1) hi right r f m,
)

-- Taking `h` out of one part of a disjunction takes it out of the whole where the others hold
-- nothing of it.
minus_right :
    (x y z z' h : Bool)
    → (h ≡ true → (x ≡ false) × (y ≡ false))
    → z' ≡ z && not h
    → x || y || z' ≡ (x || y || z) && not h
minus_right x y z z' h f e = ground arith

minus_middle :
    (x y z y' h : Bool)
    → (h ≡ true → (x ≡ false) × (z ≡ false))
    → y' ≡ y && not h
    → x || y' || z ≡ (x || y || z) && not h
minus_middle x y z y' h f e = ground arith

-- A huge page of the range `r` of a bounded tree is in no range before it, nor after it.
has-Bounded :
    (lo hi : ℕ) (r x : HugeRange) (t : Tree) (p : ℕ)
    → Bounded lo hi t
    → (r.first + r.n < lo) ⊎ (hi ≤ r.first)
    → (r.first + r.n < x.first) ⊎ (x.first + x.n < r.first)
    → has r p ≡ true
    → (has x p ≡ false) × (covers t p ≡ false)
unfolding has
has-Bounded lo hi r x t p b o q e = (ground arith, covers-outside lo hi t p b (ground arith))

-- Below the node of `r` no other range has a huge page of `r`.
root_only :
    (lo hi : ℕ) (left right : Tree) (r : HugeRange) (p : ℕ)
    → Bounded lo r.first left
    → Bounded (r.first + r.n + 1) hi right
    → covers left p || covers right p
      ≡ (has r p || covers left p || covers right p) && not (has r p)
unfolding has
root_only lo hi left right r p a b =
    ground
      (arith, covers-outside lo r.first left p a, covers-outside (r.first + r.n + 1) hi right p b)

-- A huge page is free after the removal of a member if it was before and is none of the member's.
pub remove_at-covers :
    (lo hi : ℕ) (t : Tree) (r : HugeRange) (p : ℕ)
    → Bounded lo hi t
    → Member r t
    → covers (remove_at r.first t) p ≡ covers t p && not (has r p)
unfolding remove_at fix_longest covers
remove_at-covers lo hi leaf r p b m = elim m [ ]
remove_at-covers lo hi (node r' prio longest left right) r p (a, c, d, e, f) (inl q) =
    ground (arith, merge-covers true left right p, root_only lo hi left right r p)
remove_at-covers lo hi (node r' prio longest left right) r p (a, c, d, e, f) (inr (inl m)) =
    let (u, v, w) = Member-bounds lo r'.first left r e m in
    let e₁ : (r.first == r'.first) ≡ false = ground arith in
    let e₂ : ltb r.first r'.first ≡ true = ground arith in
    rw e₁ (
      rw e₂ (
        minus_middle (has r' p) (covers left p) (covers right p) _ (has r p)
          (has-Bounded (r'.first + r'.n + 1) hi r r' right p f (omega arith) (omega arith))
          (remove_at-covers lo r'.first left r p e m)))
remove_at-covers lo hi (node r' prio longest left right) r p (a, c, d, e, f) (inr (inr m)) =
    let (u, v, w) = Member-bounds (r'.first + r'.n + 1) hi right r f m in
    let e₁ : (r.first == r'.first) ≡ false = ground arith in
    let e₂ : ltb r.first r'.first ≡ false = ground arith in
    rw e₁ (
      rw e₂ (
        minus_right (has r' p) (covers left p) (covers right p) _ (has r p)
          (has-Bounded lo r'.first r r' left p e (omega arith) (omega arith))
          (remove_at-covers (r'.first + r'.n + 1) hi right r p f m)))
