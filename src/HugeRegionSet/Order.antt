-- ===== src/HugeRegionSet/Order.antt =====
-- The order of the regions, and that a place is found for one that changed.
use tcmalloc.Base.{
  ℕ, ◌≤◌, ◌≡◌, refl, ap, ◌∙◌, inl, inr, List, [], ◌∷◌, ◌++◌, arith, ltb, Bool-cases,
}
use tcmalloc.HugeRegion.{HugeRegion}
use tcmalloc.HugeRegionSet.{rise, fall, unzip, fix}

abbrev pub key : HugeRegion → ℕ
key r = r.tracker.longest_free

-- The first of one list is not above the first of the other.
abbrev pub Meets : List HugeRegion → List HugeRegion → Type 0
Meets [] after = Unit {0}
Meets (p ∷ before) [] = Unit {0}
Meets (p ∷ before) (q ∷ after) = key p ≤ key q

-- In order, and in order backwards.
abbrev pub Sorted : List HugeRegion → Type 0
Sorted [] = Unit {0}
Sorted (r ∷ regions) = Meets (r ∷ []) regions × Sorted regions

abbrev pub Backwards : List HugeRegion → Type 0
Backwards [] = Unit {0}
Backwards (p ∷ before) = Meets before (p ∷ []) × Backwards before

-- A place in a list in order.
pub record IsPlace (before after : List HugeRegion) : Type 0 where
  pub back : Backwards before
  pub front : Sorted after
  pub meets : Meets before after

pub unzip-Sorted :
    (before after : List HugeRegion) → IsPlace before after → Sorted (unzip before after)
unfolding unzip
unzip-Sorted [] after v = v.front
unzip-Sorted (p ∷ before) [] v =
    unzip-Sorted before (p ∷ []) (record { back = v.back.1; front = (tt, tt); meets = v.back.0 })
unzip-Sorted (p ∷ before) (q ∷ after) v =
    unzip-Sorted before (p ∷ q ∷ after)
      (record { back = v.back.1; front = (v.meets, v.front); meets = meets before v.back.0 })
  where
    meets : (before : List HugeRegion) → Meets before (p ∷ []) → Meets before (p ∷ q ∷ after)
    meets [] m = tt
    meets (b ∷ before) m = m

-- One place back.
back-IsPlace :
    (p : HugeRegion) (before after : List HugeRegion)
    → IsPlace (p ∷ before) after
    → IsPlace before (p ∷ after)
back-IsPlace p before after v = record {
  back = v.back.1;
  front = (front after v.meets, v.front);
  meets = meets before v.back.0;
}
  where
    meets : (before : List HugeRegion) → Meets before (p ∷ []) → Meets before (p ∷ after)
    meets [] m = tt
    meets (b ∷ before) m = m

    front : (after : List HugeRegion) → Meets (p ∷ before) after → Meets (p ∷ []) after
    front [] m = tt
    front (q ∷ after) m = m

-- One place on.
pub on-IsPlace :
    (q : HugeRegion) (before after : List HugeRegion)
    → IsPlace before (q ∷ after)
    → IsPlace (q ∷ before) after
on-IsPlace q before after v = record {
  back = (back before v.meets, v.back);
  front = v.front.1;
  meets = meets after v.front.0;
}
  where
    back : (before : List HugeRegion) → Meets before (q ∷ after) → Meets before (q ∷ [])
    back [] m = tt
    back (b ∷ before) m = m

    meets : (after : List HugeRegion) → Meets (q ∷ []) after → Meets (q ∷ before) after
    meets [] m = tt
    meets (a ∷ after) m = m

rise-IsPlace :
    (r : HugeRegion) (before after : List HugeRegion)
    → IsPlace before after
    → IsPlace (rise r before after).0 (rise r before after).1
      × Meets (rise r before after).0 (r ∷ [])
unfolding rise
rise-IsPlace r [] after v = (v, tt)
rise-IsPlace r (p ∷ before) after v =
    elim (Bool-cases (ltb r.tracker.longest_free p.tracker.longest_free)) [
      | inl e ↦ rw e (rise-IsPlace r before (p ∷ after) (back-IsPlace p before after v))
      | inr e ↦ rw e (v, ground (arith, e))
    ]

fall-IsPlace :
    (r : HugeRegion) (before after : List HugeRegion)
    → IsPlace before after
    → Meets before (r ∷ [])
    → IsPlace (fall r before after).0 (fall r before after).1
      × Meets (fall r before after).0 (r ∷ [])
      × Meets (r ∷ []) (fall r before after).1
unfolding fall
fall-IsPlace r before [] v m = (v, m, tt)
fall-IsPlace r before (q ∷ after) v m =
    elim (Bool-cases (ltb q.tracker.longest_free r.tracker.longest_free)) [
      | inl e ↦
          rw e (fall-IsPlace r (q ∷ before) after (on-IsPlace q before after v) (ground (arith, e)))
      | inr e ↦ rw e (v, m, ground (arith, e))
    ]

insert-IsPlace :
    (r : HugeRegion) (before after : List HugeRegion)
    → IsPlace before after
    → Meets before (r ∷ [])
    → Meets (r ∷ []) after
    → IsPlace before (r ∷ after)
insert-IsPlace r [] after v m m' = record { back = v.back; front = (m', v.front); meets = tt }
insert-IsPlace r (b ∷ before) after v m m' = record {
  back = v.back;
  front = (m', v.front);
  meets = m;
}

-- `Fix` puts a region with any longest free range where it belongs.
pub fix-Sorted :
    (before : List HugeRegion) (r : HugeRegion) (after : List HugeRegion)
    → IsPlace before after
    → Sorted (fix before r after)
unfolding fix
fix-Sorted before r after v =
    let (w, m) = rise-IsPlace r before after v in
    let b = (rise r before after).0 in
    let a = (rise r before after).1 in
    let (z, m₁, m₂) = fall-IsPlace r b a w m in
    unzip-Sorted (fall r b a).0 (r ∷ (fall r b a).1)
      (insert-IsPlace r (fall r b a).0 (fall r b a).1 z m₁ m₂)

-- The place is kept when the region after it is taken out.
pub drop-IsPlace :
    (r : HugeRegion) (before after : List HugeRegion)
    → IsPlace before (r ∷ after)
    → IsPlace before after
drop-IsPlace r before after v = record {
  back = v.back;
  front = v.front.1;
  meets = meets before after v.meets v.front.0;
}
  where
    meets :
        (before after : List HugeRegion)
        → Meets before (r ∷ after)
        → Meets (r ∷ []) after
        → Meets before after
    meets [] after m m' = tt
    meets (b ∷ before) [] m m' = tt
    meets (b ∷ before) (q ∷ after) m m' = omega arith

-- Two lists of regions of one length whose regions in turn are related.
abbrev pub Pairwise :
    (HugeRegion → HugeRegion → Type 0) → List HugeRegion → List HugeRegion → Type 0
Pairwise P [] [] = Unit {0}
Pairwise P (r ∷ a) (s ∷ b) = P r s × Pairwise P a b
Pairwise P _ _ = ⊥

abbrev pub SameKeys : List HugeRegion → List HugeRegion → Type 0
SameKeys a b = Pairwise (λ r s. key r ≡ key s) a b

pub SameKeys-Sorted : (a b : List HugeRegion) → SameKeys a b → Sorted a → Sorted b
SameKeys-Sorted [] [] e o = tt
SameKeys-Sorted (r ∷ []) (s ∷ []) e o = (tt, tt)
SameKeys-Sorted (r ∷ r' ∷ a) (s ∷ s' ∷ b) e o =
    (omega (arith, e.0, e.1.0, o.0), SameKeys-Sorted (r' ∷ a) (s' ∷ b) e.1 o.1)
SameKeys-Sorted (r ∷ []) (s ∷ s' ∷ b) e o = absurd e.1
SameKeys-Sorted (r ∷ r' ∷ a) (s ∷ []) e o = absurd e.1
SameKeys-Sorted [] (s ∷ b) e o = absurd e
SameKeys-Sorted (r ∷ a) [] e o = absurd e

module _ (P : HugeRegion → HugeRegion → Type 0) where
  pub Pairwise-refl : ((r : HugeRegion) → P r r) → (a : List HugeRegion) → Pairwise P a a
  Pairwise-refl same [] = tt
  Pairwise-refl same (r ∷ a) = (same r, Pairwise-refl same a)

  pub Pairwise-unzip :
      (a b c d : List HugeRegion)
      → Pairwise P a b
      → Pairwise P c d
      → Pairwise P (unzip a c) (unzip b d)
  unfolding unzip
  Pairwise-unzip [] [] c d e e' = e'
  Pairwise-unzip (r ∷ a) (s ∷ b) c d e e' = Pairwise-unzip a b (r ∷ c) (s ∷ d) e.1 (e.0, e')
  Pairwise-unzip [] (s ∷ b) c d e e' = absurd e
  Pairwise-unzip (r ∷ a) [] c d e e' = absurd e

unzip-unzip : (a b c : List HugeRegion) → unzip (unzip a b) c ≡ unzip b (a ++ c)
unfolding unzip
unzip-unzip [] b c = refl
unzip-unzip (p ∷ a) b c = unzip-unzip a (p ∷ b) c

append_nil : (a : List HugeRegion) → a ++ [] ≡ a
append_nil [] = refl
append_nil (p ∷ a) = ap (λ k. p ∷ k) (append_nil a)

-- A list turned around twice.
pub unzip_twice : (a : List HugeRegion) → unzip (unzip a []) [] ≡ a
unfolding unzip
unzip_twice a = unzip-unzip a [] [] ∙ append_nil a
