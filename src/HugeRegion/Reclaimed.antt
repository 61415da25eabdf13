-- ===== src/HugeRegion/Reclaimed.antt =====
-- What `Release` makes of a region, from what it makes of the huge pages that it picked.
use tcmalloc.Base.{
  ℕ, zero, suc, ◌+◌, ◌*◌, ◌≤◌, ◌<◌, min, ◌≡◌, subst, sym, ◌∙◌, ◌⊎◌, inl, inr, Bool, true, false,
  List, arith, dec_lt, if◌then◌else◌, Bool-cases, get_or,
}
use tcmalloc.Pages.HugeRange.{HugeRange}
use tcmalloc.HugeRegion.{HugeRegion, num_huge_pages, used_at, backed_at}
use tcmalloc.HugeRegion.Count.{count, count-or, count-apart_from}
use tcmalloc.HugeRegion.Valid.{IsValid, is_free}
use tcmalloc.HugeRegion.MaybeGet.{bits_of}
use tcmalloc.HugeRegion.Release.{Offered, Offered-ext, Released}
use tcmalloc.HugeRegion.Select.{Found, chosen}

-- A free huge page is still backed because the system refused the range that it was offered in.
abbrev pub Held : (HugeRange → Bool) → HugeRegion → Type 0
Held unback r = (j : ℕ) × (j < num_huge_pages) × (is_free r j ≡ true) × Offered unback false r j

-- Each huge page that lost its backing was in a range that the system accepted.
abbrev pub Accepted : (HugeRange → Bool) → HugeRegion → HugeRegion → Type 0
Accepted unback r r' =
    (j : ℕ)
    → j < num_huge_pages
    → backed_at r j ≡ true
    → backed_at r' j ≡ false
    → Offered unback true r' j

-- The first `n` numbers have one of a kind, or none.
some_or_none :
    (p : ℕ → Bool) (n : ℕ) → ((j : ℕ) × (j < n) × (p j ≡ true)) ⊎ ((j : ℕ) → j < n → p j ≡ false)
some_or_none p zero = inr (λ j h. absurd (omega arith))
some_or_none p (suc n) = elim (Bool-cases (p n)) [
  | inl e ↦ inl (n, omega arith, e)
  | inr e ↦ elim (some_or_none p n) [
    | inl (j, h, e') ↦ inl (j, omega arith, e')
    | inr no_one ↦ inr (λ j h. elim (dec_lt j n) [
      | yes lt ↦ no_one j lt
      | no ge ↦ subst (λ k. p k ≡ false) (omega arith) e
    ])
  ]
]

-- What `Release` of `desired` pages makes of a region.
pub record Reclaimed (unback : HugeRange → Bool) (desired n : ℕ) (r r' : HugeRegion) : Type 0 where
  pub valid : IsValid r'
  pub bits : (x : ℕ) → bits_of r' x ≡ bits_of r x
  pub allocs : r'.tracker.nallocs ≡ r.tracker.nallocs
  pub used : (j : ℕ) → used_at r' j ≡ used_at r j
  pub live : (j : ℕ) → 0 < used_at r j → backed_at r' j ≡ backed_at r j
  pub nbacked : r'.nbacked + n ≡ r.nbacked
  pub free : r'.free_backed_count + n ≡ r.free_backed_count
  pub tight : 256 * n < min desired (256 * r.free_backed_count) + 256
  pub location : r'.location ≡ r.location
  pub taken : Accepted unback r r'
  pub enough : Held unback r' ⊎ (min desired (256 * r.free_backed_count) ≤ 256 * n)

module _ (unback : HugeRange → Bool) (desired n : ℕ) (should : List Bool) (r r' : HugeRegion)
    (v : IsValid r) (f : Found (min desired (256 * r.free_backed_count)) should r)
    (w : Released unback 0 should n r r') where
  at_most : n ≤ count (chosen should) 0 num_huge_pages
  at_most =
      let c = count-or (backed_at r) (backed_at r') (chosen should) 0 num_huge_pages (λ x p q e.
        elim (Bool-cases (chosen should x)) [
          | inl on ↦ inr on
          | inr off ↦ inl (w.kept x (inr off) ∙ e)
        ]) in
      omega (arith, c, v.counted.backed, w.valid.counted.backed, w.nbacked)

  at_least :
      ((j : ℕ) → j < num_huge_pages → get_or should j false ≡ true → backed_at r' j ≡ false)
      → count (chosen should) 0 num_huge_pages ≤ n
  at_least u =
      let c =
        count-apart_from (backed_at r) (backed_at r') (chosen should) 0 num_huge_pages
          (λ x p q on. (ground (arith, f.free x on), u x q on))
          (λ x p q on. elim (Bool-cases (backed_at r x)) [
            | inl e ↦ e
            | inr e ↦ absurd (ground (arith, on, w.lost x e))
          ]) in
      omega (arith, c, v.counted.backed, w.valid.counted.backed, w.nbacked)

  moved : (reply : Bool) (j : ℕ) → Offered unback reply r j → Offered unback reply r' j
  moved reply j = Offered-ext unback reply r r' j (sym w.location) (λ k. sym (w.used k))

  -- Some huge page that was picked is still backed, or none is.
  left :
      Held unback r'
      ⊎ ((j : ℕ) → j < num_huge_pages → get_or should j false ≡ true → backed_at r' j ≡ false)
  left =
      elim (some_or_none (λ j. if chosen should j then backed_at r' j else false) num_huge_pages) [
        | inl (j, lt, e) ↦
            let on : chosen should j ≡ true = ground (arith, e) in
            elim (w.all j (omega arith) lt on) [
              | inl (o, b) ↦ absurd (ground (arith, e, on, b))
              | inr (o, b) ↦ inl (j, lt, ground (arith, f.free j on, w.used j, b), moved false j o)
            ]
        | inr no_one ↦ inr (λ j lt on. ground (arith, no_one j lt, on))
      ]

  accepted : Accepted unback r r'
  accepted j lt b b' = elim (Bool-cases (chosen should j)) [
    | inr off ↦ absurd (ground (arith, b, b', w.kept j (inr off)))
    | inl on ↦ elim (w.all j (omega arith) lt on) [
      | inl (o, c) ↦ moved true j o
      | inr (o, c) ↦ absurd (ground (arith, b', c))
    ]
  ]

  pub Released-Reclaimed : Reclaimed unback desired n r r'
  Released-Reclaimed = record {
    valid = w.valid;
    bits = w.bits;
    allocs = w.allocs;
    used = w.used;
    live = λ j p. elim (Bool-cases (chosen should j)) [
      | inl on ↦ absurd (ground (arith, p, f.free j on))
      | inr off ↦ w.kept j (inr off)
    ];
    nbacked = w.nbacked;
    free = w.free;
    tight = omega (arith, at_most, f.tight);
    location = w.location;
    taken = accepted;
    enough = elim left [ inl x ↦ inl x | inr a ↦ inr (omega (arith, at_least a, f.enough)) ];
  }
