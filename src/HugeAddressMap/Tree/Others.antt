-- ===== src/HugeAddressMap/Tree/Others.antt =====
-- What the removal of one node leaves of the others.
use tcmalloc.Base.{
  ℕ, ◌+◌, ◌≡◌, ◌≢◌, ◌⊎◌, inl, inr, Bool, true, false, arith, ltb, leb, ◌==◌, if◌then◌else◌,
  Bool-cases,
}
use tcmalloc.Pages.HugeRange.{HugeRange}
use tcmalloc.HugeAddressMap.Tree.{Tree, leaf, node, fix_longest, merge, remove_at}
use tcmalloc.HugeAddressMap.Tree.Order.{Bounded, All, Member, All-map, All-zip}
use tcmalloc.HugeAddressMap.Tree.Find.{All-below}

module _ (P : HugeRange → Type 0) where
  merge-All : (b : Bool) (l r : Tree) → All P l → All P r → All P (merge b l r)
  unfolding merge
  merge-All b leaf r x y = y
  merge-All b (node lr lp ll l₁ l₂) leaf x y = x
  merge-All b (node lr lp ll l₁ l₂) (node rr rp rl r₁ r₂) (x, x₁, x₂) (y, y₁, y₂) =
      elim (Bool-cases (if b then leb rp lp else ltb rp lp)) [
        | inl e ↦ rw e (elim (Bool-cases (ltb rr.first lr.first)) [
          | inl f ↦ rw f (x, merge-All true l₁ (node rr rp rl r₁ r₂) x₁ (y, y₁, y₂), x₂)
          | inr f ↦ rw f (x, x₁, merge-All true l₂ (node rr rp rl r₁ r₂) x₂ (y, y₁, y₂))
        ])
        | inr e ↦ rw e (elim (Bool-cases (ltb lr.first rr.first)) [
          | inl f ↦ rw f (y, merge-All false (node lr lp ll l₁ l₂) r₁ (x, x₁, x₂) y₁, y₂)
          | inr f ↦ rw f (y, y₁, merge-All false (node lr lp ll l₁ l₂) r₂ (x, x₁, x₂) y₂)
        ])
      ]

  other : (s : ℕ) (x : HugeRange) → (x.first ≢ s) × ((x.first ≡ s) ⊎ P x) → P x
  other s x (h, inl e) = absurd (h e)
  other s x (h, inr p) = p

  others :
      (s : ℕ) (t : Tree) → All (λ x. x.first ≢ s) t → All (λ x. (x.first ≡ s) ⊎ P x) t → All P t
  others s t n a = All-map _ P t (λ x u. other s x u) (All-zip _ _ t n a)

  -- What holds of all ranges but the one at `s` holds of all when that one is gone.
  pub All-remove_at :
      (s lo hi : ℕ) (t : Tree)
      → Bounded lo hi t
      → All (λ x. (x.first ≡ s) ⊎ P x) t
      → All P (remove_at s t)
  unfolding remove_at fix_longest
  All-remove_at s lo hi leaf b a = tt
  All-remove_at s lo hi (node r prio longest left right) (b, c, d, e, f) (x, y, z) =
      elim (Bool-cases (s == r.first)) [
        | inl h ↦ rw h (
            merge-All true left right
              (others s left (All-below _ lo r.first left (λ x u v w. ground arith) e) y)
              (others s right (All-below _ (r.first + r.n + 1) hi right (λ x u v w. ground arith) f)
                z))
        | inr h ↦ rw h (elim (Bool-cases (ltb s r.first)) [
          | inl k ↦ rw k (
            other s r (ground arith, x),
            All-remove_at s lo r.first left e y,
            others s right (All-below _ (r.first + r.n + 1) hi right (λ x u v w. ground arith) f) z,
          )
          | inr k ↦ rw k (
            other s r (ground arith, x),
            others s left (All-below _ lo r.first left (λ x u v w. ground arith) e) y,
            All-remove_at s (r.first + r.n + 1) hi right f z,
          )
        ])
      ]

module _ (x : HugeRange) where
  merge-Member : (b : Bool) (l r : Tree) → Member x l ⊎ Member x r → Member x (merge b l r)
  unfolding merge
  merge-Member b leaf r (inl m) = elim m [ ]
  merge-Member b leaf r (inr m) = m
  merge-Member b (node lr lp ll l₁ l₂) leaf (inl m) = m
  merge-Member b (node lr lp ll l₁ l₂) leaf (inr m) = elim m [ ]
  merge-Member b (node lr lp ll l₁ l₂) (node rr rp rl r₁ r₂) m =
      elim (Bool-cases (if b then leb rp lp else ltb rp lp)) [
        | inl e ↦ rw e (elim (Bool-cases (ltb rr.first lr.first)) [
          | inl f ↦ rw f (elim m [
            | inl (inl i) ↦ inl i
            | inl (inr (inl i)) ↦ inr (inl (merge-Member true l₁ (node rr rp rl r₁ r₂) (inl i)))
            | inl (inr (inr i)) ↦ inr (inr i)
            | inr i ↦ inr (inl (merge-Member true l₁ (node rr rp rl r₁ r₂) (inr i)))
          ])
          | inr f ↦ rw f (elim m [
            | inl (inl i) ↦ inl i
            | inl (inr (inl i)) ↦ inr (inl i)
            | inl (inr (inr i)) ↦ inr (inr (merge-Member true l₂ (node rr rp rl r₁ r₂) (inl i)))
            | inr i ↦ inr (inr (merge-Member true l₂ (node rr rp rl r₁ r₂) (inr i)))
          ])
        ])
        | inr e ↦ rw e (elim (Bool-cases (ltb lr.first rr.first)) [
          | inl f ↦ rw f (elim m [
            | inr (inl i) ↦ inl i
            | inr (inr (inl i)) ↦ inr (inl (merge-Member false (node lr lp ll l₁ l₂) r₁ (inr i)))
            | inr (inr (inr i)) ↦ inr (inr i)
            | inl i ↦ inr (inl (merge-Member false (node lr lp ll l₁ l₂) r₁ (inl i)))
          ])
          | inr f ↦ rw f (elim m [
            | inr (inl i) ↦ inl i
            | inr (inr (inl i)) ↦ inr (inl i)
            | inr (inr (inr i)) ↦ inr (inr (merge-Member false (node lr lp ll l₁ l₂) r₂ (inr i)))
            | inl i ↦ inr (inr (merge-Member false (node lr lp ll l₁ l₂) r₂ (inl i)))
          ])
        ])
      ]

  -- The other members stay.
  pub Member-remove_at : (s : ℕ) (t : Tree) → x.first ≢ s → Member x t → Member x (remove_at s t)
  unfolding remove_at fix_longest
  Member-remove_at s leaf n m = m
  Member-remove_at s (node r prio longest left right) n m = elim (Bool-cases (s == r.first)) [
    | inl h ↦
        rw h (merge-Member true left right (elim m [ inl i ↦ absurd (ground arith) | inr i ↦ i ]))
    | inr h ↦ rw h (elim (Bool-cases (ltb s r.first)) [
      | inl k ↦ rw k (elim m [
        | inl i ↦ inl i
        | inr (inl i) ↦ inr (inl (Member-remove_at s left n i))
        | inr (inr i) ↦ inr (inr i)
      ])
      | inr k ↦ rw k (elim m [
        | inl i ↦ inl i
        | inr (inl i) ↦ inr (inl i)
        | inr (inr i) ↦ inr (inr (Member-remove_at s right n i))
      ])
    ])
  ]
