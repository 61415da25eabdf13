-- ===== src/HugeAddressMap/Map/Valid.antt =====
-- The invariant of the map.
use tcmalloc.Base.{ℕ, ◌+◌, ◌^◌, ◌≤◌, ◌<◌, max, ◌≡◌, ◌⊎◌, inl, inr, true, arith}
use tcmalloc.Pages.HugeLength.{max_page_number}
use tcmalloc.Pages.HugeRange.{HugeRange}
use tcmalloc.HugeAddressMap.Tree.{Tree, leaf, node}
use tcmalloc.HugeAddressMap.Tree.Order.{
  Bounded, IsHeap, IsExact, All, Member, has, covers, count, total,
}
use tcmalloc.HugeAddressMap.Tree.Change.{Member-bounds}
use tcmalloc.HugeAddressMap.Tree.Find.{All-below}
use tcmalloc.HugeAddressMap.Map.{HugeAddressMap}

-- The ranges are in order, inside the address space and not at huge page 0, no two touch; the tree
-- is a heap with exact `longest_`; the counters say what is in it; and the nodes ever created are
-- those in use with those on the freelist.
pub record IsValid (m : HugeAddressMap) : Type 0 where
  pub ordered : Bounded 1 (max_page_number + 1) m.root
  pub heap : IsHeap (2 ^ 32) m.root
  pub exact : IsExact m.root
  pub used : m.used_nodes ≡ count m.root
  pub size : m.total_size ≡ total m.root
  pub nodes : m.total_nodes ≡ m.used_nodes + m.freelist_size
  pub few : m.total_nodes ≤ max_page_number

-- No more huge pages than lie between the bounds, and no more ranges.
pub total-le :
    (lo hi : ℕ) (t : Tree) → Bounded lo hi t → (count t ≤ total t) × (total t + lo ≤ max lo hi)
unfolding count total
total-le lo hi leaf b = omega arith
total-le lo hi (node r prio longest left right) (a, c, d, e, f) =
    omega (arith, total-le lo r.first left e, total-le (r.first + r.n + 1) hi right f)

-- A member's huge pages are covered.
pub covers-Member :
    (t : Tree) (r : HugeRange) (p : ℕ) → Member r t → has r p ≡ true → covers t p ≡ true
unfolding covers
covers-Member leaf r p m h = elim m [ ]
covers-Member (node r' prio longest left right) r p (inl e) h = ground arith
covers-Member (node r' prio longest left right) r p (inr (inl m)) h =
    ground (arith, covers-Member left r p m h)
covers-Member (node r' prio longest left right) r p (inr (inr m)) h =
    ground (arith, covers-Member right r p m h)

-- Another range of the tree lies apart from a member; the same start means the same range.
abbrev pub Apart : HugeRange → HugeRange → Type 0
Apart o x =
    (x.first + x.n < o.first) ⊎ ((x.first ≡ o.first) × (x.n ≡ o.n)) ⊎ (o.first + o.n < x.first)

pub All-Apart :
    (lo hi : ℕ) (t : Tree) (o : HugeRange) → Bounded lo hi t → Member o t → All (Apart o) t
All-Apart lo hi leaf o b m = tt
All-Apart lo hi (node r prio longest left right) o (a, c, d, e, f) (inl z) = (
  inr (inl (ground arith, ground arith)),
  All-below _ lo r.first left (λ x u v w. inl (ground arith)) e,
  All-below _ (r.first + r.n + 1) hi right (λ x u v w. inr (inr (ground arith))) f,
)
All-Apart lo hi (node r prio longest left right) o (a, c, d, e, f) (inr (inl m)) =
    let (i, j, k) = Member-bounds lo r.first left o e m in
    (
      inr (inr (omega arith)),
      All-Apart lo r.first left o e m,
      All-below _ (r.first + r.n + 1) hi right (λ x u v w. inr (inr (omega arith))) f,
    )
All-Apart lo hi (node r prio longest left right) o (a, c, d, e, f) (inr (inr m)) =
    let (i, j, k) = Member-bounds (r.first + r.n + 1) hi right o f m in
    (
      inl (omega arith),
      All-below _ lo r.first left (λ x u v w. inl (omega arith)) e,
      All-Apart (r.first + r.n + 1) hi right o f m,
    )

-- The bounds of the counts in an ordered map: nothing wraps.
pub bounds_of :
    (t : Tree)
    → Bounded 1 (max_page_number + 1) t
    → (count t ≤ total t) × (total t ≤ max_page_number)
bounds_of t b = omega (arith, total-le 1 (max_page_number + 1) t b)
