-- ===== src/Pages/HugeRange/Laws.antt =====
-- Ranges as the sets of their huge pages: what the tests decide, and that `Split` undoes `Join`.
use tcmalloc.Base.{ℕ, ◌+◌, ◌-◌, ◌≤◌, ◌<◌, max, ◌≡◌, ◌↔◌, true, ◌&&◌, some, arith, ltb, ◌==◌}
use tcmalloc.Pages.HugeLength.{max_page_number}
use tcmalloc.Pages.HugeRange.{
  HugeRange, contains, contains_range, intersects, precedes, join, split, make,
}

-- A range of at least one huge page inside the address space.
pub record IsProper (r : HugeRange) : Type 0 where
  pub nonempty : 0 < r.n
  pub inside : r.first + r.n ≤ max_page_number

-- The huge page `p` lies in the range.
abbrev pub Has : HugeRange → ℕ → Type 0
Has r p = (r.first ≤ p) × (p < r.first + r.n)

-- `contains` decides membership, for a proper range and a huge page number in range.
pub contains_iff :
    (r : HugeRange) (p : ℕ) → IsProper r → p ≤ max_page_number → (contains r p ≡ true) ↔ Has r p
unfolding contains
contains_iff r p v h = ((λ e. (ground arith, ground arith)), (λ c. ground arith))

-- Two proper ranges intersect exactly when some huge page lies in both, and `contains` of a range
-- holds exactly when each of its huge pages lies in the other.
pub intersects_iff :
    (a b : HugeRange)
    → IsProper a
    → IsProper b
    → ((intersects a b ≡ true) ↔ ((p : ℕ) × Has a p × Has b p))
      × ((contains_range a b ≡ true) ↔ ((p : ℕ) → Has b p → Has a p))
unfolding intersects contains_range
intersects_iff a b va vb = (
  (
    (λ e. (max a.first b.first, (ground arith, ground arith), (ground arith, ground arith))),
    (λ (p, x, y). ground arith),
  ),
  (
    (λ e p x. (ground arith, ground arith)),
    (λ all.
        let lo = all b.first (omega arith, omega arith) in
        let hi = all (b.first + b.n - 1) (omega arith, omega arith) in ground arith),
  ),
)

-- `Join` of proper ranges succeeds exactly when the second starts where the first ends; the joined
-- range holds exactly the huge pages of the two.
pub join_lem :
    (a b : HugeRange)
    → IsProper a
    → IsProper b
    → ((precedes a b ≡ true) ↔ (a.first + a.n ≡ b.first))
      × (a.first + a.n ≡ b.first → join a b ≡ some (make a.first (a.n + b.n)))
unfolding precedes join
join_lem a b va vb = (((λ e. ground arith), (λ e. ground arith)), (λ e. ground arith))

-- Splitting a proper range at a shorter length gives two proper ranges, the first of that length,
-- which `Join` puts together again to the range that was split.
pub join-split :
    (r : HugeRange) (n : ℕ)
    → IsProper r
    → 0 < n
    → n < r.n
    → IsProper (split r n).0
      × IsProper (split r n).1
      × ((split r n).0.n ≡ n)
      × (join (split r n).0 (split r n).1 ≡ some r)
unfolding split join
join-split r n v pos lt = (ground arith, ground arith, ground arith, ground arith)

-- The tests as comparisons of page numbers, for proper ranges.
pub intersects-eq :
    (a b : HugeRange)
    → IsProper a
    → IsProper b
    → intersects a b ≡ ltb a.first (b.first + b.n) && ltb b.first (a.first + a.n)
unfolding intersects
intersects-eq a b va vb = ground arith

pub precedes-eq :
    (a b : HugeRange) → IsProper a → IsProper b → precedes a b ≡ (a.first + a.n == b.first)
unfolding precedes
precedes-eq a b va vb = ground arith
