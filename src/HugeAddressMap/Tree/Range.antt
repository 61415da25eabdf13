-- ===== src/HugeAddressMap/Tree/Range.antt =====
-- Giving the node of a member another range, around the one that it has.
use tcmalloc.Base.{ℕ, ◌+◌, ◌≤◌, ◌<◌, ◌≡◌, ◌⊎◌, inl, inr, ◌||◌, arith}
use tcmalloc.Pages.HugeRange.{HugeRange}
use tcmalloc.HugeAddressMap.Tree.{Tree, leaf, node, fix_longest, set_range}
use tcmalloc.HugeAddressMap.Tree.Order.{
  Bounded, IsHeap, IsExact, All, Member, has, covers, count, total, longest_of-exact,
}
use tcmalloc.HugeAddressMap.Tree.Shape.Split.{Fits}
use tcmalloc.HugeAddressMap.Tree.Change.{Member-bounds}

-- The ranges other than the one at `s` stay apart from `r`.
abbrev pub FitsBut : ℕ → HugeRange → HugeRange → Type 0
FitsBut s r x = (x.first ≡ s) ⊎ Fits r x

module _ (o r : HugeRange) (below : r.first ≤ o.first) (above : o.first + o.n ≤ r.first + r.n) where
  Bounded-below :
      (lo : ℕ) (t : Tree) → Bounded lo o.first t → All (FitsBut o.first r) t → Bounded lo r.first t
  Bounded-below lo leaf b a = tt
  Bounded-below lo (node x prio longest left right) (b, c, d, e, f) (g, h, k) =
      (b, c, omega arith, e, Bounded-below (x.first + x.n + 1) right f k)

  Bounded-above :
      (lo hi : ℕ) (t : Tree)
      → o.first + o.n < lo
      → Bounded lo hi t
      → All (FitsBut o.first r) t
      → Bounded (r.first + r.n + 1) hi t
  Bounded-above lo hi leaf q b a = tt
  Bounded-above lo hi (node x prio longest left right) q (b, c, d, e, f) (g, h, k) =
      (omega arith, c, d, Bounded-above lo x.first left q e h, f)

  -- The order is kept if the other ranges stay apart from the new one.
  pub set_range-Bounded :
      (lo hi : ℕ) (t : Tree)
      → Bounded lo hi t
      → Member o t
      → lo ≤ r.first
      → r.first + r.n < hi
      → All (FitsBut o.first r) t
      → Bounded lo hi (set_range o.first r t)
  unfolding set_range fix_longest
  set_range-Bounded lo hi leaf b m p q a = tt
  set_range-Bounded lo hi (node x prio longest left right) (b, c, d, e, f) (inl z) p q (g, h, k) =
      ground (arith, Bounded-below lo left, Bounded-above (x.first + x.n + 1) hi right)
  set_range-Bounded lo hi (node x prio longest left right) (b, c, d, e, f) (inr (inl m)) p q
        (g, h, k) =
      ground (arith, Member-bounds lo x.first left o e m, set_range-Bounded lo x.first left e m p)
  set_range-Bounded lo hi (node x prio longest left right) (b, c, d, e, f) (inr (inr m)) p q
        (g, h, k) =
      ground (
        arith,
        Member-bounds (x.first + x.n + 1) hi right o f m,
        set_range-Bounded (x.first + x.n + 1) hi right f m,
      )

  pub set_range-total :
      (lo hi : ℕ) (t : Tree)
      → Bounded lo hi t
      → Member o t
      → (count (set_range o.first r t) ≡ count t)
        × (total (set_range o.first r t) + o.n ≡ total t + r.n)
  unfolding set_range fix_longest count total
  set_range-total lo hi leaf b m = elim m [ ]
  set_range-total lo hi (node x prio longest left right) (b, c, d, e, f) (inl z) = ground arith
  set_range-total lo hi (node x prio longest left right) (b, c, d, e, f) (inr (inl m)) =
      ground (arith, Member-bounds lo x.first left o e m, set_range-total lo x.first left e m)
  set_range-total lo hi (node x prio longest left right) (b, c, d, e, f) (inr (inr m)) = ground (
    arith,
    Member-bounds (x.first + x.n + 1) hi right o f m,
    set_range-total (x.first + x.n + 1) hi right f m,
  )

  -- The new range's huge pages are covered, and those that were.
  pub set_range-covers :
      (lo hi : ℕ) (t : Tree) (p : ℕ)
      → Bounded lo hi t
      → Member o t
      → covers (set_range o.first r t) p ≡ has r p || covers t p
  unfolding set_range fix_longest covers has
  set_range-covers lo hi leaf p b m = elim m [ ]
  set_range-covers lo hi (node x prio longest left right) p (b, c, d, e, f) (inl z) = ground arith
  set_range-covers lo hi (node x prio longest left right) p (b, c, d, e, f) (inr (inl m)) =
      ground (arith, Member-bounds lo x.first left o e m, set_range-covers lo x.first left p e m)
  set_range-covers lo hi (node x prio longest left right) p (b, c, d, e, f) (inr (inr m)) = ground (
    arith,
    Member-bounds (x.first + x.n + 1) hi right o f m,
    set_range-covers (x.first + x.n + 1) hi right p f m,
  )

pub set_range-IsHeap :
    (s top : ℕ) (r : HugeRange) (t : Tree) → IsHeap top t → IsHeap top (set_range s r t)
unfolding set_range fix_longest
set_range-IsHeap s top r leaf h = tt
set_range-IsHeap s top r (node x prio longest left right) h =
    ground (arith, set_range-IsHeap s prio r left, set_range-IsHeap s prio r right)

pub set_range-IsExact : (s : ℕ) (r : HugeRange) (t : Tree) → IsExact t → IsExact (set_range s r t)
unfolding set_range fix_longest
set_range-IsExact s r leaf h = tt
set_range-IsExact s r (node x prio longest left right) h = ground (
  arith,
  set_range-IsExact s r left,
  set_range-IsExact s r right,
  longest_of-exact left,
  longest_of-exact right,
  longest_of-exact (set_range s r left),
  longest_of-exact (set_range s r right),
)
