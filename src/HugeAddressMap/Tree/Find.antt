-- ===== src/HugeAddressMap/Tree/Find.antt =====
-- `first`, `Predecessor` and `next`: which node each finds.
use tcmalloc.Base.{
  ℕ, ◌+◌, ◌^◌, ◌≤◌, ◌<◌, ◌≡◌, refl, ◌⊎◌, inl, inr, true, false, Option, some, arith, ltb, ◌==◌,
  Bool-cases,
}
use tcmalloc.Pages.HugeRange.{HugeRange, contains}
use tcmalloc.HugeAddressMap.Tree.{
  Tree, leaf, node, first_from, first_or, predecessor_from, next_from,
}
use tcmalloc.HugeAddressMap.Tree.Order.{Bounded, All, Member, All-bounds, All-map}
use tcmalloc.HugeAddressMap.Tree.Change.{Member-bounds}

-- What `first_from r t` returns: a range of the tree or `r`, and none of the tree starts earlier.
pub first_from-least :
    (lo hi : ℕ) (r : HugeRange) (t : Tree)
    → Bounded lo hi t
    → hi ≤ r.first
    → ((first_from r t ≡ r) ⊎ Member (first_from r t) t)
      × All (λ x. (first_from r t).first ≤ x.first) t
      × ((first_from r t).first ≤ r.first)
unfolding first_from
first_from-least lo hi r leaf b h = (inl refl, tt, omega arith)
first_from-least lo hi r (node x prio longest left right) (a, c, d, e, f) h =
    let (m, all, le) = first_from-least lo x.first x left e (omega arith) in
    let later =
      All-map _ (λ y. (first_from x left).first ≤ y.first) right (λ y q. omega arith)
        (All-bounds (x.first + x.n + 1) hi right f) in
    (inr (elim m [ inl e ↦ inl e | inr k ↦ inr (inl k) ]), (le, all, later), omega arith)

-- Weakenings of what all ranges of a subtree satisfy.
pub All-below :
    (Q : HugeRange → Type 0) (lo hi : ℕ) (t : Tree)
    → ((x : HugeRange) → lo ≤ x.first → 0 < x.n → x.first + x.n < hi → Q x)
    → Bounded lo hi t
    → All Q t
All-below Q lo hi t f b = All-map _ Q t (λ x (p, q, r). f x p q r) (All-bounds lo hi t b)

-- What a search that begins with `best` finds below a node: nothing, so that it returns `best`, or
-- the last member that starts at `p` or before.
abbrev pub FoundUpTo : ℕ → Tree → Option HugeRange → Option HugeRange → Type 0
FoundUpTo p t best result =
    ((result ≡ best) × All (λ x. p < x.first) t)
    ⊎ ((b : HugeRange) × (result ≡ some b)
        × Member b t
        × (b.first ≤ p)
        × All (λ x. (x.first ≤ b.first) ⊎ (p < x.first)) t)

pub predecessor_from-FoundUpTo :
    (best : Option HugeRange) (lo hi p : ℕ) (t : Tree)
    → hi < 2 ^ 64
    → p < 2 ^ 64
    → Bounded lo hi t
    → FoundUpTo p t best (predecessor_from best t p)
unfolding predecessor_from contains
predecessor_from-FoundUpTo best lo hi p leaf h k b = inl (refl, tt)
predecessor_from-FoundUpTo best lo hi p (node here prio longest left right) h k (a, c, d, e, f) =
    elim (Bool-cases (contains here p)) [
      | inl q ↦
          rw q (inr (here, refl, inl refl, inside q, (inl (omega arith), before, after_end q)))
      | inr q ↦ rw q (elim (Bool-cases (ltb p here.first)) [
        | inl z ↦
            rw z (elim (predecessor_from-FoundUpTo best lo here.first p left (omega arith) k e) [
              | inl (r, m) ↦ inl (r, (ground arith, m, after (ground arith)))
              | inr (n, r, m, le, m') ↦ inr (
                n,
                r,
                inr (inl m),
                le,
                (inr (ground arith), m', inr_all n (after (ground arith))),
              )
            ])
        | inr z ↦
            rw z
              (elim (predecessor_from-FoundUpTo (some here) (here.first + here.n + 1) hi p right h k
                f) [
                  | inl (r, m) ↦
                      inr (
                        here,
                        r,
                        inl refl,
                        ground arith,
                        (inl (omega arith), before, inr_all here m),
                      )
                  | inr (n, r, m, le, m') ↦
                      let (u, v, w) = Member-bounds (here.first + here.n + 1) hi right n f m in
                      inr
                        (n, r, inr (inr m), le, (inl (omega arith), before_of n (omega arith), m'))
                ])
      ])
    ]
  where
    inside : contains here p ≡ true → here.first ≤ p
    inside q = ground arith

    before_of :
        (n : HugeRange) → here.first ≤ n.first → All (λ x. (x.first ≤ n.first) ⊎ (p < x.first)) left
    before_of n le = All-below _ lo here.first left (λ x u v w. inl (omega arith)) e

    before : All (λ x. (x.first ≤ here.first) ⊎ (p < x.first)) left
    before = before_of here (omega arith)

    after : p < here.first + here.n → All (λ x. p < x.first) right
    after lt = All-below _ (here.first + here.n + 1) hi right (λ x u v w. omega arith) f

    inr_all :
        (n : HugeRange)
        → All (λ x. p < x.first) right
        → All (λ x. (x.first ≤ n.first) ⊎ (p < x.first)) right
    inr_all n m = All-map _ _ right (λ x u. inr u) m

    after_end : contains here p ≡ true → All (λ x. (x.first ≤ here.first) ⊎ (p < x.first)) right
    after_end q = inr_all here (after (ground arith))

-- What `next` finds below a node for the node of the member `o`: nothing, so that it returns `up`,
-- or the first member that starts later.
abbrev pub FoundAfter : HugeRange → Tree → Option HugeRange → Option HugeRange → Type 0
FoundAfter o t up result =
    ((result ≡ up) × All (λ x. x.first ≤ o.first) t)
    ⊎ ((n : HugeRange) × (result ≡ some n)
        × Member n t
        × (o.first < n.first)
        × All (λ x. (x.first ≤ o.first) ⊎ (n.first ≤ x.first)) t)

-- The leftmost node of the right subtree.
first_or-FoundAfter :
    (up : Option HugeRange) (o : HugeRange) (lo hi : ℕ) (t : Tree)
    → o.first < lo
    → Bounded lo hi t
    → ((t ≡ leaf) × (first_or up t ≡ up))
      ⊎ ((n : HugeRange) × (first_or up t ≡ some n) × Member n t × All (λ x. n.first ≤ x.first) t)
unfolding first_or
first_or-FoundAfter up o lo hi leaf h b = inl (refl, refl)
first_or-FoundAfter up o lo hi (node r prio longest left right) h (a, c, d, e, f) =
    let (m, all, le) = first_from-least lo r.first r left e (omega arith) in
    inr (
      first_from r left,
      refl,
      elim m [ inl z ↦ inl z | inr z ↦ inr (inl z) ],
      (le, all, All-below _ (r.first + r.n + 1) hi right (λ x u v w. omega arith) f),
    )

pub next_from-FoundAfter :
    (up : Option HugeRange) (o : HugeRange) (lo hi : ℕ) (t : Tree)
    → Bounded lo hi t
    → Member o t
    → FoundAfter o t up (next_from up t o.first)
unfolding next_from
next_from-FoundAfter up o lo hi leaf b m = elim m [ ]
next_from-FoundAfter up o lo hi (node r prio longest left right) (a, c, d, e, f) (inl z) =
    let same : (o.first == r.first) ≡ true = ground arith in
    let before =
      All-below (λ x. x.first ≤ o.first) lo r.first left (λ x u₁ u₂ u₃. ground arith) e in
    rw same (elim (first_or-FoundAfter up o (r.first + r.n + 1) hi right (ground arith) f) [
      | inl (empty, q) ↦ inl (q, (ground arith, before, rw empty tt))
      | inr (n, q, k, all) ↦
          let (u, v, w) = Member-bounds (r.first + r.n + 1) hi right n f k in
          inr (
            n,
            q,
            inr (inr k),
            ground arith,
            (
              inl (ground arith),
              All-map _ _ left (λ x u. inl u) before,
              All-map _ _ right (λ x u. inr u) all,
            ),
          )
    ])
next_from-FoundAfter up o lo hi (node r prio longest left right) (a, c, d, e, f) (inr (inl m)) =
    let (i, j, k) = Member-bounds lo r.first left o e m in
    let e₁ : (o.first == r.first) ≡ false = ground arith in
    let e₂ : ltb o.first r.first ≡ true = ground arith in
    rw e₁ (
      rw e₂ (elim (next_from-FoundAfter (some r) o lo r.first left e m) [
        | inl (q, all) ↦ inr (
          r,
          q,
          inl refl,
          omega arith,
          (
            inr (omega arith),
            All-map _ _ left (λ x u. inl u) all,
            All-below _ (r.first + r.n + 1) hi right (λ x u₁ u₂ u₃. inr (omega arith)) f,
          ),
        )
        | inr (n, q, k', lt, all) ↦
            let (u, v, w) = Member-bounds lo r.first left n e k' in
            inr (
              n,
              q,
              inr (inl k'),
              lt,
              (
                inr (omega arith),
                all,
                All-below _ (r.first + r.n + 1) hi right (λ x u₁ u₂ u₃. inr (omega arith)) f,
              ),
            )
      ]))
next_from-FoundAfter up o lo hi (node r prio longest left right) (a, c, d, e, f) (inr (inr m)) =
    let (i, j, k) = Member-bounds (r.first + r.n + 1) hi right o f m in
    let e₁ : (o.first == r.first) ≡ false = ground arith in
    let e₂ : ltb o.first r.first ≡ false = ground arith in
    rw e₁ (
      rw e₂ (elim (next_from-FoundAfter up o (r.first + r.n + 1) hi right f m) [
        | inl (q, all) ↦
            inl (q, (omega arith, All-below _ lo r.first left (λ x u₁ u₂ u₃. omega arith) e, all))
        | inr (n, q, k', lt, all) ↦ inr (
          n,
          q,
          inr (inr k'),
          lt,
          (inl (omega arith), All-below _ lo r.first left (λ x u₁ u₂ u₃. inl (omega arith)) e, all),
        )
      ]))
