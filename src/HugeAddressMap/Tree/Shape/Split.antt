-- ===== src/HugeAddressMap/Tree/Shape/Split.antt =====
-- `Insert` of a new node: splitting the treap, and walking down to the place of the split.
use tcmalloc.Base.{ℕ, ◌+◌, ◌≤◌, ◌<◌, max, ◌≡◌, refl, ◌⊎◌, ◌||◌, arith}
use tcmalloc.Pages.HugeRange.{HugeRange}
use tcmalloc.HugeAddressMap.Tree.{Tree, leaf, node, fix_longest, split_at, insert_node}
use tcmalloc.HugeAddressMap.Tree.Order.{
  Bounded, IsHeap, longest_range, IsExact, All, has, covers, count, total, longest_of-exact,
  IsHeap-mono,
}

-- The range `x` is apart from `r`, with a huge page between them.
abbrev pub Fits : HugeRange → HugeRange → Type 0
Fits r x = (x.first + x.n < r.first) ⊎ (r.first + r.n < x.first)

module _ (r : HugeRange) where
  pub split_at-Bounded :
      (lo hi : ℕ) (t : Tree)
      → Bounded lo hi t
      → All (Fits r) t
      → Bounded lo r.first (split_at r.first t).0
        × Bounded (r.first + r.n + 1) hi (split_at r.first t).1
  unfolding split_at fix_longest
  split_at-Bounded lo hi leaf b a = (tt, tt)
  split_at-Bounded lo hi (node r' prio longest left right) (b, c, d, e, f) (x, y, z) = ground (
    arith,
    split_at-Bounded lo r'.first left e y,
    split_at-Bounded (r'.first + r'.n + 1) hi right f z,
  )

  pub split_at-IsHeap :
      (top : ℕ) (t : Tree)
      → IsHeap top t
      → IsHeap top (split_at r.first t).0 × IsHeap top (split_at r.first t).1
  unfolding split_at fix_longest
  split_at-IsHeap top leaf h = (tt, tt)
  split_at-IsHeap top (node r' prio longest left right) (a, b, c) = ground (
    arith,
    split_at-IsHeap prio left b,
    split_at-IsHeap prio right c,
    IsHeap-mono prio top (split_at r.first left).0,
    IsHeap-mono prio top (split_at r.first right).1,
  )

  pub split_at-IsExact :
      (t : Tree)
      → IsExact t
      → IsExact (split_at r.first t).0
        × IsExact (split_at r.first t).1
        × (max (longest_range (split_at r.first t).0) (longest_range (split_at r.first t).1)
            ≡ longest_range t)
  unfolding split_at fix_longest longest_range
  split_at-IsExact leaf h = (tt, tt, refl)
  split_at-IsExact (node r' prio longest left right) (a, b, c) = ground (
    arith,
    split_at-IsExact left b,
    split_at-IsExact right c,
    longest_of-exact (split_at r.first left).1,
    longest_of-exact (split_at r.first right).0,
    longest_of-exact left b,
    longest_of-exact right c,
  )

  pub split_at-total :
      (t : Tree)
      → (count (split_at r.first t).0 + count (split_at r.first t).1 ≡ count t)
        × (total (split_at r.first t).0 + total (split_at r.first t).1 ≡ total t)
  unfolding split_at fix_longest count total
  split_at-total leaf = (refl, refl)
  split_at-total (node r' prio longest left right) =
      ground (arith, split_at-total left, split_at-total right)

  pub split_at-covers :
      (t : Tree) (p : ℕ)
      → covers (split_at r.first t).0 p || covers (split_at r.first t).1 p ≡ covers t p
  unfolding split_at fix_longest covers
  split_at-covers leaf p = refl
  split_at-covers (node r' prio longest left right) p =
      ground (arith, split_at-covers left p, split_at-covers right p)

  -- The new node's range must fit between the ranges of the tree.
  pub insert_node-Bounded :
      (prio lo hi : ℕ) (t : Tree)
      → lo ≤ r.first
      → 0 < r.n
      → r.first + r.n < hi
      → Bounded lo hi t
      → All (Fits r) t
      → Bounded lo hi (insert_node r prio t).0
  unfolding insert_node fix_longest
  insert_node-Bounded prio lo hi leaf p q s b a = (p, q, s, tt, tt)
  insert_node-Bounded prio lo hi (node here p longest left right) lp q s b a = ground (
    arith,
    split_at-Bounded lo hi (node here p longest left right) b a,
    insert_node-Bounded prio lo here.first left,
    insert_node-Bounded prio (here.first + here.n + 1) hi right,
  )

  pub insert_node-IsHeap :
      (prio top : ℕ) (t : Tree) → prio ≤ top → IsHeap top t → IsHeap top (insert_node r prio t).0
  unfolding insert_node fix_longest
  insert_node-IsHeap prio top leaf h b = (h, tt, tt)
  insert_node-IsHeap prio top (node here p longest left right) h (x, y, z) = ground (
    arith,
    split_at-IsHeap prio (node here p longest left right),
    insert_node-IsHeap prio p left,
    insert_node-IsHeap prio p right,
  )

  pub insert_node-IsExact :
      (prio : ℕ) (t : Tree)
      → IsExact t
      → IsExact (insert_node r prio t).0
        × (longest_range (insert_node r prio t).0 ≡ max (longest_range t) r.n)
  unfolding insert_node fix_longest longest_range
  insert_node-IsExact prio leaf h = ground arith
  insert_node-IsExact prio (node here p longest left right) (x, y, z) = ground (
    arith,
    split_at-IsExact (node here p longest left right),
    longest_of-exact (split_at r.first (node here p longest left right)).0,
    longest_of-exact (split_at r.first (node here p longest left right)).1,
    insert_node-IsExact prio left y,
    insert_node-IsExact prio right z,
    longest_of-exact (insert_node r prio left).0,
    longest_of-exact (insert_node r prio right).0,
    longest_of-exact left y,
    longest_of-exact right z,
  )

  pub insert_node-total :
      (prio : ℕ) (t : Tree)
      → (count (insert_node r prio t).0 ≡ count t + 1)
        × (total (insert_node r prio t).0 ≡ total t + r.n)
  unfolding insert_node fix_longest count total
  insert_node-total prio leaf = ground arith
  insert_node-total prio (node here p longest left right) = ground (
    arith,
    split_at-total (node here p longest left right),
    insert_node-total prio left,
    insert_node-total prio right,
  )

  pub insert_node-covers :
      (prio : ℕ) (t : Tree) (p : ℕ) → covers (insert_node r prio t).0 p ≡ has r p || covers t p
  unfolding insert_node fix_longest covers
  insert_node-covers prio leaf p = ground arith
  insert_node-covers prio (node here p' longest left right) p = ground (
    arith,
    split_at-covers (node here p' longest left right) p,
    insert_node-covers prio left p,
    insert_node-covers prio right p,
  )
