-- ===== src/HugeAddressMap/Tree/Order.antt =====
-- What holds of every tree that the map keeps: the ranges are in order, apart from one another
-- and inside given bounds; priorities fall; `longest_` is exact.
use tcmalloc.Base.{
  ℕ, suc, ◌+◌, ◌≤◌, ◌<◌, max, ◌≡◌, refl, subst, sym, ◌⊎◌, inl, inr, Bool, false, ◌&&◌, ◌||◌, arith,
  ltb, leb,
}
use tcmalloc.Pages.HugeRange.{HugeRange}
use tcmalloc.HugeAddressMap.Tree.{Tree, leaf, node, longest_of}

-- Every range starts at `lo` or later and ends before `hi`, and between two of them there is at
-- least one huge page that neither has.
abbrev pub Bounded : ℕ → ℕ → Tree → Type 0
Bounded lo hi leaf = Unit {0}
Bounded lo hi (node r prio longest left right) =
    (lo ≤ r.first)
    × (0 < r.n)
    × (r.first + r.n < hi)
    × Bounded lo r.first left
    × Bounded (r.first + r.n + 1) hi right

-- A max-heap on the priorities, all at most `top`.
abbrev pub IsHeap : ℕ → Tree → Type 0
IsHeap top leaf = Unit {0}
IsHeap top (node r prio longest left right) = (prio ≤ top) × IsHeap prio left × IsHeap prio right

-- The length of the longest range in the tree.
unfoldable pub longest_range : Tree → ℕ
longest_range leaf = 0
longest_range (node r prio longest left right) =
    max (max (longest_range left) (longest_range right)) r.n

-- Every node's `longest_` is the length of the longest range below it.
abbrev pub IsExact : Tree → Type 0
IsExact leaf = Unit {0}
IsExact (node r prio longest left right) =
    (longest ≡ max (max (longest_range left) (longest_range right)) r.n)
    × IsExact left
    × IsExact right

abbrev pub All : (HugeRange → Type 0) → Tree → Type 0
All P leaf = Unit {0}
All P (node r prio longest left right) = P r × All P left × All P right

abbrev pub Member : HugeRange → Tree → Type 0
Member r leaf = ⊥
Member r (node r' prio longest left right) = (r ≡ r') ⊎ Member r left ⊎ Member r right

-- The huge page `p` is in the range, by the range's two numbers.
unfoldable pub has : HugeRange → ℕ → Bool
has r p = leb r.first p && ltb p (r.first + r.n)

-- The huge page `p` is in one of the tree's ranges.
unfoldable pub covers : Tree → ℕ → Bool
covers leaf p = false
covers (node r prio longest left right) p = has r p || covers left p || covers right p

unfoldable pub count : Tree → ℕ
count leaf = 0
count (node r prio longest left right) = suc (count left + count right)

-- The huge pages of all ranges, counted.
unfoldable pub total : Tree → ℕ
total leaf = 0
total (node r prio longest left right) = r.n + total left + total right

pub longest_of-exact : (t : Tree) → IsExact t → longest_of t ≡ longest_range t
unfolding longest_of longest_range
longest_of-exact leaf e = refl
longest_of-exact (node r prio longest left right) e = e.0

pub Bounded-mono :
    (lo hi lo' hi' : ℕ) (t : Tree) → lo' ≤ lo → hi ≤ hi' → Bounded lo hi t → Bounded lo' hi' t
Bounded-mono lo hi lo' hi' leaf p q b = tt
Bounded-mono lo hi lo' hi' (node r prio longest left right) p q (a, c, d, e, f) = (
  omega arith,
  c,
  omega arith,
  Bounded-mono lo r.first lo' r.first left p (omega arith) e,
  Bounded-mono (r.first + r.n + 1) hi (r.first + r.n + 1) hi' right (omega arith) q f,
)

pub IsHeap-mono : (top top' : ℕ) (t : Tree) → top ≤ top' → IsHeap top t → IsHeap top' t
IsHeap-mono top top' leaf h b = tt
IsHeap-mono top top' (node r prio longest left right) h (p, a, c) = (omega arith, a, c)

-- Outside the bounds nothing is covered.
pub covers-outside :
    (lo hi : ℕ) (t : Tree) (p : ℕ) → Bounded lo hi t → (p < lo) ⊎ (hi ≤ p) → covers t p ≡ false
unfolding covers has
covers-outside lo hi leaf p b o = refl
covers-outside lo hi (node r prio longest left right) p (a, c, d, e, f) o = ground (
  arith,
  covers-outside lo r.first left p e (omega arith),
  covers-outside (r.first + r.n + 1) hi right p f (omega arith),
)

-- Every range of a bounded tree is inside the bounds.
pub All-bounds :
    (lo hi : ℕ) (t : Tree)
    → Bounded lo hi t
    → All (λ x. (lo ≤ x.first) × (0 < x.n) × (x.first + x.n < hi)) t
All-bounds lo hi leaf b = tt
All-bounds lo hi (node r prio longest left right) (a, c, d, e, f) = (
  (a, c, d),
  All-bounds lo hi left (Bounded-mono lo r.first lo hi left (omega arith) (omega arith) e),
  All-bounds lo hi right
      (Bounded-mono (r.first + r.n + 1) hi lo hi right (omega arith) (omega arith) f),
)

-- What holds of all ranges holds of each.
pub All-Member : (P : HugeRange → Type 0) (t : Tree) (r : HugeRange) → All P t → Member r t → P r
All-Member P leaf r a m = elim m [ ]
All-Member P (node r' prio longest left right) r (a, b, c) (inl e) = subst P (sym e) a
All-Member P (node r' prio longest left right) r (a, b, c) (inr (inl m)) = All-Member P left r b m
All-Member P (node r' prio longest left right) r (a, b, c) (inr (inr m)) = All-Member P right r c m

pub All-map :
    (P Q : HugeRange → Type 0) (t : Tree) → ((r : HugeRange) → P r → Q r) → All P t → All Q t
All-map P Q leaf f a = tt
All-map P Q (node r prio longest left right) f (a, b, c) =
    (f r a, All-map P Q left f b, All-map P Q right f c)

-- `All` of two predicates at once.
pub All-zip : (P Q : HugeRange → Type 0) (t : Tree) → All P t → All Q t → All (λ r. P r × Q r) t
All-zip P Q leaf a b = tt
All-zip P Q (node r prio longest left right) (a, b, c) (a', b', c') =
    ((a, a'), All-zip P Q left b b', All-zip P Q right c c')
