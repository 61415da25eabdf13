-- ===== src/HugeAllocator/Fit.antt =====
-- `HugeAllocator::Find`: it returns a range that is long enough whenever the map has one.
use tcmalloc.Base.{
  ℕ, ◌+◌, ◌≤◌, ◌<◌, max, ◌≡◌, refl, sym, ◌∙◌, ◌⊎◌, inl, inr, true, false, ◌&&◌, Option, none, some,
  arith, ltb, leb, if◌then◌else◌, ltb→lt, Bool-cases,
}
use tcmalloc.Pages.HugeRange.{HugeRange}
use tcmalloc.HugeAddressMap.Tree.{Tree, leaf, node}
use tcmalloc.HugeAddressMap.Tree.Order.{
  IsExact, Bounded, Member, has, covers, longest_range, All-Member,
}
use tcmalloc.HugeAddressMap.Overlap.{Member-covers}
use tcmalloc.HugeAddressMap.Map.Valid.{All-Apart}
use tcmalloc.HugeAllocator.{too_short, goes_left, improves, find_from}

-- What the search below a node makes of `best`: it keeps it, and then `best` is something unless
-- all ranges are shorter than `n`; or it finds a member of at least `n`.
abbrev pub FoundFit : Tree → ℕ → Option HugeRange → Option HugeRange → Type 0
FoundFit t n best result =
    ((result ≡ best) × ((longest_range t < n) ⊎ ((b : HugeRange) × (best ≡ some b))))
    ⊎ ((b : HugeRange) × (result ≡ some b) × Member b t × (n ≤ b.n))

too_short-exact : (t : Tree) (n : ℕ) → 0 < n → IsExact t → too_short t n ≡ ltb (longest_range t) n
unfolding too_short longest_range
too_short-exact leaf n h e = ground arith
too_short-exact (node r prio longest left right) n h e = ground arith

-- The child that the loop goes to has a range of at least `n` if either has.
goes_left-longest :
    (left right : Tree) (n : ℕ)
    → 0 < n
    → IsExact left
    → IsExact right
    → n ≤ max (longest_range left) (longest_range right)
    → n ≤ (if goes_left left right n then longest_range left else longest_range right)
unfolding goes_left
goes_left-longest left right n h a b k =
    ground (arith, too_short-exact left n h a, too_short-exact right n h b)

-- The candidate after a node: the old one, or the node's range, which is long enough.
Candidate : ℕ → HugeRange → Option HugeRange → Option HugeRange → Type 0
Candidate n r best best' =
    ((best' ≡ best) × ((r.n < n) ⊎ ((b : HugeRange) × (best ≡ some b))))
    ⊎ ((best' ≡ some r) × (n ≤ r.n))

fit_here :
    (n : ℕ) (r : HugeRange) (best : Option HugeRange)
    → Candidate n r best (if leb n r.n && improves best r then some r else best)
unfolding Candidate improves
fit_here n r none = elim (Bool-cases (leb n r.n)) [
  | inl e ↦ rw e (inr (refl, ground arith))
  | inr e ↦ rw e (inl (refl, inl (ground arith)))
]
fit_here n r (some b) = elim (Bool-cases (leb n r.n)) [
  | inl e ↦ rw e (elim (Bool-cases (ltb r.n b.n)) [
    | inl f ↦ rw f (inr (refl, ground arith))
    | inr f ↦ rw f (inl (refl, inr (b, refl)))
  ])
  | inr e ↦ rw e (inl (refl, inl (ground arith)))
]

-- The search goes on in a child `c`, from the candidate.
onwards :
    (n : ℕ) (r : HugeRange) (best best' result : Option HugeRange) (c : Tree) (whole : ℕ)
    → Candidate n r best best'
    → FoundFit c n best' result
    → (r.n < n → longest_range c < n → whole < n)
    → ((result ≡ best) × ((whole < n) ⊎ ((b : HugeRange) × (best ≡ some b))))
      ⊎ ((b : HugeRange) × (result ≡ some b) × ((b ≡ r) ⊎ Member b c) × (n ≤ b.n))
unfolding Candidate
onwards n r best best' result c whole k (inr (b, q, m, le)) f = inr (b, q, inr m, le)
onwards n r best best' result c whole (inr (e, le)) (inl (q, w)) f = inr (r, q ∙ e, inl refl, le)
onwards n r best best' result c whole (inl (e, inr s)) (inl (q, w)) f = inl (q ∙ e, inr s)
onwards n r best best' result c whole (inl (e, inl lt)) (inl (q, inl short)) f =
    inl (q ∙ e, inl (f lt short))
onwards n r best best' result c whole (inl (e, inl lt)) (inl (q, inr (b, s))) f =
    inl (q ∙ e, inr (b, sym e ∙ s))

-- For a positive length and exact `longest_`.
pub find_from-FoundFit :
    (best : Option HugeRange) (t : Tree) (n : ℕ)
    → 0 < n
    → IsExact t
    → FoundFit t n best (find_from best t n)
unfolding find_from longest_range
find_from-FoundFit best leaf n h e = inl (refl, inl h)
find_from-FoundFit best (node r prio longest left right) n h (e, a, b) =
    elim (Bool-cases (ltb longest n)) [
      | inl c ↦ rw c (inl (refl, inl (ground arith)))
      | inr c ↦ rw c (elim (Bool-cases (goes_left left right n)) [
        | inl g ↦
            rw g
              (elim (onwards n r best _ _ left
                (max (max (longest_range left) (longest_range right)) r.n) (fit_here n r best)
                (find_from-FoundFit (if leb n r.n && improves best r then some r else best) left n h
                  a)
                (λ p q. ground (arith, goes_left-longest left right n h a b))) [
                  | inl k ↦ inl k
                  | inr (b', q, inl m, le) ↦ inr (b', q, inl m, le)
                  | inr (b', q, inr m, le) ↦ inr (b', q, inr (inl m), le)
                ])
        | inr g ↦
            rw g
              (elim (onwards n r best _ _ right
                (max (max (longest_range left) (longest_range right)) r.n) (fit_here n r best)
                (find_from-FoundFit (if leb n r.n && improves best r then some r else best) right n
                  h b)
                (λ p q. ground (arith, goes_left-longest left right n h a b))) [
                  | inl k ↦ inl k
                  | inr (b', q, inl m, le) ↦ inr (b', q, inl m, le)
                  | inr (b', q, inr m, le) ↦ inr (b', q, inr (inr m), le)
                ])
      ])
    ]

-- No range is longer than the longest.
pub longest_range-Member : (t : Tree) (x : HugeRange) → Member x t → x.n ≤ longest_range t
unfolding longest_range
longest_range-Member leaf x m = elim m [ ]
longest_range-Member (node r prio longest left right) x (inl e) = ground arith
longest_range-Member (node r prio longest left right) x (inr (inl m)) =
    omega (arith, longest_range-Member left x m)
longest_range-Member (node r prio longest left right) x (inr (inr m)) =
    omega (arith, longest_range-Member right x m)

has-bounds : (r : HugeRange) (p : ℕ) → has r p ≡ true → (r.first ≤ p) × (p < r.first + r.n)
unfolding has
has-bounds r p h = (ground arith, ground arith)

bounds-has : (r : HugeRange) (p : ℕ) → r.first ≤ p → p < r.first + r.n → has r p ≡ true
unfolding has
bounds-has r p h k = ground arith

-- Huge pages that are covered without a gap lie in one range of a bounded tree.
pub Member-around :
    (lo hi : ℕ) (t : Tree) (g : HugeRange)
    → Bounded lo hi t
    → 0 < g.n
    → ((p : ℕ) → has g p ≡ true → covers t p ≡ true)
    → (x : HugeRange) × Member x t × (x.first ≤ g.first) × (g.first + g.n ≤ x.first + x.n)
Member-around lo hi t g b h all =
    let (x, m, q) =
      Member-covers t g.first (all g.first (bounds-has g g.first (omega arith) (omega arith))) in
    let (q₁, q₂) = has-bounds x g.first q in
    elim (Bool-cases (ltb (x.first + x.n) (g.first + g.n))) [
      | inr e ↦ (x, m, q₁, omega (arith, not_ltb (x.first + x.n) (g.first + g.n) e))
      | inl e ↦
          let end = x.first + x.n in
          let (y, m', q') =
            Member-covers t end
              (all end (bounds-has g end (omega arith) (ltb→lt end (g.first + g.n) e))) in
          let (r₁, r₂) = has-bounds y end q' in
          let a = All-Member _ t y (All-Apart lo hi t x b m) m' in absurd (omega arith)
    ]
  where
    not_ltb : (a b : ℕ) → ltb a b ≡ false → b ≤ a
    not_ltb a b h = ground arith
