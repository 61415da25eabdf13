-- ===== src/HugeAddressMap/Tree/Shape/Merge.antt =====
-- `Remove`'s merge of the two children of a node.
use tcmalloc.Base.{
  ℕ, ◌+◌, ◌≤◌, max, ◌≡◌, refl, inl, inr, Bool, true, false, ◌||◌, arith, ltb, leb, if◌then◌else◌,
  Bool-cases,
}
use tcmalloc.HugeAddressMap.Tree.{Tree, leaf, node, merge}
use tcmalloc.HugeAddressMap.Tree.Order.{
  Bounded, IsHeap, longest_range, IsExact, has, covers, count, total, Bounded-mono,
}

-- The two trees lie one before the other.
pub merge-Bounded :
    (b : Bool) (lo mid mid' hi : ℕ) (l r : Tree)
    → mid ≤ mid'
    → mid ≤ hi
    → lo ≤ mid'
    → Bounded lo mid l
    → Bounded mid' hi r
    → Bounded lo hi (merge b l r)
unfolding merge
merge-Bounded b lo mid mid' hi leaf r h k j x y = Bounded-mono mid' hi lo hi r j (omega arith) y
merge-Bounded b lo mid mid' hi (node lr lp ll l₁ l₂) leaf h k j x y =
    Bounded-mono lo mid lo hi (node lr lp ll l₁ l₂) (omega arith) k x
merge-Bounded b lo mid mid' hi (node lr lp ll l₁ l₂) (node rr rp rl r₁ r₂) h k j x y = ground (
  arith,
  merge-Bounded true (lr.first + lr.n + 1) mid mid' hi l₂ (node rr rp rl r₁ r₂),
  merge-Bounded false lo mid mid' rr.first (node lr lp ll l₁ l₂) r₁,
)

pub merge-IsHeap :
    (b : Bool) (top : ℕ) (l r : Tree) → IsHeap top l → IsHeap top r → IsHeap top (merge b l r)
unfolding merge
merge-IsHeap b top leaf r x y = y
merge-IsHeap b top (node lr lp ll l₁ l₂) leaf x y = x
merge-IsHeap b top (node lr lp ll l₁ l₂) (node rr rp rl r₁ r₂) x y = ground (
  arith,
  merge-IsHeap true lp l₁ (node rr rp rl r₁ r₂),
  merge-IsHeap true lp l₂ (node rr rp rl r₁ r₂),
  merge-IsHeap false rp (node lr lp ll l₁ l₂) r₁,
  merge-IsHeap false rp (node lr lp ll l₁ l₂) r₂,
)

-- The code raises `longest_` at the top before it merges below: the result is exact.
pub merge-IsExact :
    (b : Bool) (l r : Tree)
    → IsExact l
    → IsExact r
    → IsExact (merge b l r)
      × (longest_range (merge b l r) ≡ max (longest_range l) (longest_range r))
unfolding merge longest_range
merge-IsExact b leaf r x y = (y, omega arith)
merge-IsExact b (node lr lp ll l₁ l₂) leaf x y = (x, omega arith)
merge-IsExact b (node lr lp ll l₁ l₂) (node rr rp rl r₁ r₂) x y = ground (
  arith,
  merge-IsExact true l₁ (node rr rp rl r₁ r₂),
  merge-IsExact true l₂ (node rr rp rl r₁ r₂),
  merge-IsExact false (node lr lp ll l₁ l₂) r₁,
  merge-IsExact false (node lr lp ll l₁ l₂) r₂,
)

pub merge-total :
    (b : Bool) (l r : Tree)
    → (count (merge b l r) ≡ count l + count r) × (total (merge b l r) ≡ total l + total r)
unfolding merge count total
merge-total b leaf r = ground arith
merge-total b (node lr lp ll l₁ l₂) leaf = ground arith
merge-total b (node lr lp ll l₁ l₂) (node rr rp rl r₁ r₂) = ground (
  arith,
  merge-total true l₁ (node rr rp rl r₁ r₂),
  merge-total true l₂ (node rr rp rl r₁ r₂),
  merge-total false (node lr lp ll l₁ l₂) r₁,
  merge-total false (node lr lp ll l₁ l₂) r₂,
)

-- How a disjunction regroups when the other tree goes into the first, or the second, child.
or_down : (x a c r : Bool) → x || (a || r) || c ≡ (x || a || c) || r
or_down x a c r = ground arith

or_up : (x a c r : Bool) → x || a || (c || r) ≡ (x || a || c) || r
or_up x a c r = ground arith

or_down_right : (x a c l : Bool) → x || (l || a) || c ≡ l || (x || a || c)
or_down_right x a c l = ground arith

or_up_right : (x a c l : Bool) → x || a || (l || c) ≡ l || (x || a || c)
or_up_right x a c l = ground arith

pub merge-covers :
    (b : Bool) (l r : Tree) (p : ℕ) → covers (merge b l r) p ≡ covers l p || covers r p
unfolding merge covers
merge-covers b leaf r p = refl
merge-covers b (node lr lp ll l₁ l₂) leaf p = ground arith
merge-covers b (node lr lp ll l₁ l₂) (node rr rp rl r₁ r₂) p =
    elim (Bool-cases (if b then leb rp lp else ltb rp lp)) [
      | inl e ↦ rw e (elim (Bool-cases (ltb rr.first lr.first)) [
        | inl f ↦ rw f (
            rw (merge-covers true l₁ (node rr rp rl r₁ r₂) p)
              (or_down (has lr p) (covers l₁ p) (covers l₂ p) (covers (node rr rp rl r₁ r₂) p)))
        | inr f ↦ rw f (
            rw (merge-covers true l₂ (node rr rp rl r₁ r₂) p)
              (or_up (has lr p) (covers l₁ p) (covers l₂ p) (covers (node rr rp rl r₁ r₂) p)))
      ])
      | inr e ↦ rw e (elim (Bool-cases (ltb lr.first rr.first)) [
        | inl f ↦ rw f (
            rw (merge-covers false (node lr lp ll l₁ l₂) r₁ p) (
              or_down_right (has rr p) (covers r₁ p) (covers r₂ p)
                (covers (node lr lp ll l₁ l₂) p)))
        | inr f ↦ rw f (
            rw (merge-covers false (node lr lp ll l₁ l₂) r₂ p)
              (or_up_right (has rr p) (covers r₁ p) (covers r₂ p) (covers (node lr lp ll l₁ l₂) p)))
      ])
    ]
