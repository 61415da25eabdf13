-- ===== src/HugeRegionSet/Contents.antt =====
-- What moving a region in the list keeps: sums over the regions, and what holds of each.
use tcmalloc.Base.{ℕ, ◌+◌, ◌≡◌, refl, ◌⊎◌, inl, inr, List, [], ◌∷◌, arith, ltb, Bool-cases}
use tcmalloc.HugeRegion.{HugeRegion}
use tcmalloc.HugeRegionSet.{rise, fall, unzip, fix, add_to_list}

unfoldable pub total : (HugeRegion → ℕ) → List HugeRegion → ℕ
total f [] = 0
total f (r ∷ regions) = f r + total f regions

unfoldable pub All : (HugeRegion → Type 0) → List HugeRegion → Type 0
All P [] = Unit {0}
All P (r ∷ regions) = P r × All P regions

unfoldable pub Some : (HugeRegion → Type 0) → List HugeRegion → Type 0
Some P [] = ⊥
Some P (r ∷ regions) = P r ⊎ Some P regions

pub Some-unzip :
    (P : HugeRegion → Type 0) (before after : List HugeRegion)
    → Some P before ⊎ Some P after
    → Some P (unzip before after)
unfolding Some unzip
Some-unzip P [] after (inl s) = absurd s
Some-unzip P [] after (inr s) = s
Some-unzip P (p ∷ before) after (inl (inl s)) = Some-unzip P before (p ∷ after) (inr (inl s))
Some-unzip P (p ∷ before) after (inl (inr s)) = Some-unzip P before (p ∷ after) (inl s)
Some-unzip P (p ∷ before) after (inr s) = Some-unzip P before (p ∷ after) (inr (inr s))

module _ (f : HugeRegion → ℕ) where
  pub total-unzip :
      (before after : List HugeRegion)
      → total f (unzip before after) ≡ total f before + total f after
  unfolding total unzip
  total-unzip [] after = omega arith
  total-unzip (p ∷ before) after = omega (arith, total-unzip before (p ∷ after))

  total-rise :
      (r : HugeRegion) (before after : List HugeRegion)
      → total f (rise r before after).0 + total f (rise r before after).1
        ≡ total f before + total f after
  unfolding total rise
  total-rise r [] after = omega arith
  total-rise r (p ∷ before) after =
      elim (Bool-cases (ltb r.tracker.longest_free p.tracker.longest_free)) [
        | inl e ↦ rw e (omega (arith, total-rise r before (p ∷ after)))
        | inr e ↦ rw e refl
      ]

  total-fall :
      (r : HugeRegion) (before after : List HugeRegion)
      → total f (fall r before after).0 + total f (fall r before after).1
        ≡ total f before + total f after
  unfolding total fall
  total-fall r before [] = omega arith
  total-fall r before (q ∷ after) =
      elim (Bool-cases (ltb q.tracker.longest_free r.tracker.longest_free)) [
        | inl e ↦ rw e (omega (arith, total-fall r (q ∷ before) after))
        | inr e ↦ rw e refl
      ]

  pub total-fix :
      (before : List HugeRegion) (r : HugeRegion) (after : List HugeRegion)
      → total f (fix before r after) ≡ total f before + f r + total f after
  unfolding fix total
  total-fix before r after =
      let b = (rise r before after).0 in
      let a = (rise r before after).1 in
      let e = total-rise r before after in
      let e' = total-fall r b a in
      let u = total-unzip (fall r b a).0 (r ∷ (fall r b a).1) in omega (arith, e, e', u)

  pub total-add_to_list :
      (r : HugeRegion) (regions : List HugeRegion)
      → total f (add_to_list r regions) ≡ f r + total f regions
  unfolding total add_to_list
  total-add_to_list r [] = refl
  total-add_to_list r (q ∷ regions) =
      elim (Bool-cases (ltb r.tracker.longest_free q.tracker.longest_free)) [
        | inl e ↦ rw e refl
        | inr e ↦ rw e (omega (arith, total-add_to_list r regions))
      ]

module _ (P : HugeRegion → Type 0) where
  pub All-unzip :
      (before after : List HugeRegion) → All P before → All P after → All P (unzip before after)
  unfolding All unzip
  All-unzip [] after b a = a
  All-unzip (p ∷ before) after b a = All-unzip before (p ∷ after) b.1 (b.0, a)

  All-rise :
      (r : HugeRegion) (before after : List HugeRegion)
      → All P before
      → All P after
      → All P (rise r before after).0 × All P (rise r before after).1
  unfolding All rise
  All-rise r [] after b a = (b, a)
  All-rise r (p ∷ before) after b a =
      elim (Bool-cases (ltb r.tracker.longest_free p.tracker.longest_free)) [
        | inl e ↦ rw e (All-rise r before (p ∷ after) b.1 (b.0, a))
        | inr e ↦ rw e (b, a)
      ]

  All-fall :
      (r : HugeRegion) (before after : List HugeRegion)
      → All P before
      → All P after
      → All P (fall r before after).0 × All P (fall r before after).1
  unfolding All fall
  All-fall r before [] b a = (b, a)
  All-fall r before (q ∷ after) b a =
      elim (Bool-cases (ltb q.tracker.longest_free r.tracker.longest_free)) [
        | inl e ↦ rw e (All-fall r (q ∷ before) after (a.0, b) a.1)
        | inr e ↦ rw e (b, a)
      ]

  pub All-fix :
      (before : List HugeRegion) (r : HugeRegion) (after : List HugeRegion)
      → All P before
      → P r
      → All P after
      → All P (fix before r after)
  unfolding fix All
  All-fix before r after pb pr pa =
      let b = (rise r before after).0 in
      let a = (rise r before after).1 in
      let (wb, wa) = All-rise r before after pb pa in
      let (zb, za) = All-fall r b a wb wa in
      All-unzip (fall r b a).0 (r ∷ (fall r b a).1) zb (pr, za)

  pub All-add_to_list :
      (r : HugeRegion) (regions : List HugeRegion)
      → P r
      → All P regions
      → All P (add_to_list r regions)
  unfolding All add_to_list
  All-add_to_list r [] p a = (p, a)
  All-add_to_list r (q ∷ regions) p a =
      elim (Bool-cases (ltb r.tracker.longest_free q.tracker.longest_free)) [
        | inl e ↦ rw e (p, a)
        | inr e ↦ rw e (a.0, All-add_to_list r regions p a.1)
      ]
