-- ===== src/HugeAddressMap/Map/Neighbours.antt =====
-- The two nodes that `Insert` looks at: no other range lies between them.
use tcmalloc.Base.{ℕ, ◌+◌, ◌^◌, ◌≤◌, ◌<◌, ◌⊎◌, inl, inr, Option, none, some, arith}
use tcmalloc.Pages.HugeRange.{HugeRange}
use tcmalloc.HugeAddressMap.Tree.{Tree, leaf, node, first, first_from, predecessor, next}
use tcmalloc.HugeAddressMap.Tree.Order.{Bounded, All, Member, All-map, All-Member}
use tcmalloc.HugeAddressMap.Tree.Find.{
  first_from-least, predecessor_from-FoundUpTo, next_from-FoundAfter, All-below,
}
use tcmalloc.HugeAddressMap.Map.{after_of}

-- `x` is the range to the left, or before it; `x` is the one to the right, or after it.
abbrev pub LeftOf : Option HugeRange → HugeRange → Type 0
LeftOf none x = ⊥
LeftOf (some b) x = x.first ≤ b.first

abbrev pub RightOf : Option HugeRange → HugeRange → Type 0
RightOf none x = ⊥
RightOf (some a) x = a.first ≤ x.first

-- A member that starts at `p` or before; one that starts after `p`.
abbrev pub StartsUpTo : ℕ → Tree → Option HugeRange → Type 0
StartsUpTo p t none = Unit {0}
StartsUpTo p t (some b) = Member b t × (b.first ≤ p)

abbrev pub StartsAfter : ℕ → Tree → Option HugeRange → Type 0
StartsAfter p t none = Unit {0}
StartsAfter p t (some a) = Member a t × (p < a.first)

abbrev pub Neighbours : ℕ → Tree → Option HugeRange → Option HugeRange → Type 0
Neighbours p t b a = StartsUpTo p t b × StartsAfter p t a × All (λ x. LeftOf b x ⊎ RightOf a x) t

first-Neighbours :
    (lo hi p : ℕ) (t : Tree)
    → Bounded lo hi t
    → All (λ x. p < x.first) t
    → Neighbours p t none (first t)
unfolding first
first-Neighbours lo hi p leaf b all = (tt, tt, tt)
first-Neighbours lo hi p (node r prio longest left right) (a, c, d, e, f) all =
    let (m, least, le) = first_from-least lo r.first r left e (omega arith) in
    let mem : Member (first_from r left) (node r prio longest left right) = elim m [
      | inl z ↦ inl z
      | inr z ↦ inr (inl z)
    ] in
    (
      tt,
      (mem, All-Member _ (node r prio longest left right) (first_from r left) all mem),
      (
        inr le,
        All-map _ _ left (λ x u. inr u) least,
        All-below _ (r.first + r.n + 1) hi right (λ x u v w. inr (omega arith)) f,
      ),
    )

-- In a tree whose ranges are in order, apart and below 2 ^ 64, `Predecessor(p)` gives the last range
-- that starts at `p` or before, or nothing if there is none, and the node after it, or the first
-- node, is the first range that starts after `p`, or nothing if there is none.
pub predecessor-Neighbours :
    (lo hi p : ℕ) (t : Tree)
    → hi < 2 ^ 64
    → p < 2 ^ 64
    → Bounded lo hi t
    → Neighbours p t (predecessor t p) (after_of t (predecessor t p))
unfolding predecessor after_of next
predecessor-Neighbours lo hi p t h k b = elim (predecessor_from-FoundUpTo none lo hi p t h k b) [
  | inl (e, all) ↦ rw e (first-Neighbours lo hi p t b all)
  | inr (o, e, m, le, all) ↦ rw e (elim (next_from-FoundAfter none o lo hi t b m) [
    | inl (q, all') ↦ rw q ((m, le), tt, All-map _ _ t (λ x u. inl u) all')
    | inr (n, q, m', lt, all') ↦
        rw q ((m, le), (m', after_p o n m' lt (All-Member _ t n all m')), all')
  ])
]
  where
    after_p :
        (o n : HugeRange)
        → Member n t
        → o.first < n.first
        → (n.first ≤ o.first) ⊎ (p < n.first)
        → p < n.first
    after_p o n m lt c = omega arith
