-- ===== src/HugeRegion/Freed.antt =====
-- `Dec` of `HugeRegion` as a whole.
use tcmalloc.Base.{
  ℕ, zero, suc, ◌+◌, ◌-◌, ◌/◌, ◌%◌, ◌≤◌, ◌<◌, min, ◌≡◌, refl, subst, ap, ◌∙◌, ◌⊎◌, inl, inr, Bool,
  true, false, ◌||◌, List, arith, ℕ_discrete, ltb, ◌==◌, if◌then◌else◌, Bool-cases, length, set,
  length-set, get_or, get_or-set,
}
use tcmalloc.Pages.PageId as PageId
use tcmalloc.Pages.HugePage as HugePage
use tcmalloc.Pages.HugeLength.{max_page_number}
use tcmalloc.RangeTracker.Unmark.{opened}
use tcmalloc.HugeRegion.{HugeRegion, num_huge_pages, region_pages, backed_at, dec_page, dec}
use tcmalloc.HugeRegion.Valid.{
  Counted, is_free, page_at, index_of-page_at, pages_here-page_at, add-page_at,
}
use tcmalloc.HugeRegion.Get.{Counted-ext}
use tcmalloc.HugeRegion.Release.{Picked}
use tcmalloc.HugeRegion.Select.{chosen}
use tcmalloc.HugeRegion.Dec.{dec_page_shape, dec_page-Counted, dec_page_lem, was_used}

-- What `Dec` of `n` pages from page `k` makes of the region, and of its list of huge pages to give back.
pub record Freed (f : ℕ → Bool) (k n : ℕ) (should : List Bool) (r : HugeRegion)
    (res : List Bool × HugeRegion) : Type 0 where
  pub counted : Counted (opened f k n) res.1
  pub tracker : res.1.tracker ≡ r.tracker
  pub location : res.1.location ≡ r.location
  pub backed : (j : ℕ) → backed_at res.1 j ≡ backed_at r j
  pub picked : Picked 0 res.0 res.1
  pub stay :
      (j : ℕ) → is_free r j ≡ true → (is_free res.1 j ≡ true) × (chosen res.0 j ≡ chosen should j)
  pub grown : (j : ℕ) → chosen should j ≡ true → chosen res.0 j ≡ true
  pub emptied :
      (j : ℕ)
      → j < num_huge_pages
      → is_free res.1 j ≡ true
      → (is_free r j ≡ true) ⊎ (chosen res.0 j ≡ true)

-- The list after a turn.
abbrev noted : Bool → ℕ → List Bool → List Bool
noted empty i should = if empty then set should i true else should

dec-turn :
    (fuel k n : ℕ) (should : List Bool) (r : HugeRegion)
    → r.location.first + num_huge_pages ≤ max_page_number
    → 0 < n
    → k + n ≤ region_pages
    → let h = min n (256 - k % 256) in
      dec (suc fuel) (page_at r k) n should r
      ≡ dec fuel
          (page_at r (k + h))
          (n - h)
          (noted (dec_page (k / 256) h r).0 (k / 256) should)
          (dec_page (k / 256) h r).1
unfolding dec
dec-turn fuel k n should r placed pos le =
    let lt : k < region_pages = omega arith in
    let go : ltb 0 n ≡ true = ground arith in
    rw go (
      rw (index_of-page_at r k placed lt) (
        rw (pages_here-page_at r k placed lt n)
          (rw (add-page_at r k placed lt (min n (256 - k % 256)) (omega arith)) refl)))

dec-stop : (fuel p : ℕ) (should : List Bool) (r : HugeRegion) → dec fuel p 0 should r ≡ (should, r)
unfolding dec
dec-stop zero p should r = refl
dec-stop (suc fuel) p should r = refl

module _ (f : ℕ → Bool) (k n : ℕ) (should : List Bool) (r : HugeRegion) (v : Counted f r)
    (pos : 0 < n) (le : k + n ≤ region_pages) (on : (x : ℕ) → k ≤ x → x < k + n → f x ≡ true)
    (size : length should ≡ num_huge_pages) (c : Picked 0 should r) where
  i : ℕ
  i = k / 256

  h : ℕ
  h = min n (256 - k % 256)

  turned : Counted (opened f k h) (dec_page i h r).1
  unfolding h i
  turned =
      dec_page-Counted f r i k h v (omega arith) (omega arith) (omega arith) (omega arith)
        (λ x p q. on x p (omega arith))

  free_at :
      (x : ℕ) → is_free (dec_page i h r).1 x ≡ (if x == i then (dec_page i h r).0 else is_free r x)
  unfolding h i
  free_at =
      dec_page_lem f r i k h v (omega arith) (omega arith) (omega arith) (omega arith)
        (λ x p q. on x p (omega arith))

  busy : is_free r i ≡ false
  unfolding h i
  busy =
      was_used f r i k h v (omega arith) (omega arith) (omega arith) (omega arith)
        (λ x p q. on x p (omega arith))

  noted_at :
      (j : ℕ)
      → chosen (noted (dec_page i h r).0 i should) j
        ≡ (if j == i then (dec_page i h r).0 || chosen should j else chosen should j)
  unfolding i
  noted_at j = elim (Bool-cases (dec_page i h r).0) [
    | inl e ↦ rw e (get_or-set should i j true false (omega (arith, size)))
    | inr e ↦ rw e (ground arith)
  ]

  noted_size : length (noted (dec_page i h r).0 i should) ≡ num_huge_pages
  noted_size = elim (Bool-cases (dec_page i h r).0) [
    | inl e ↦ rw e (length-set should i true ∙ size)
    | inr e ↦ rw e size
  ]

  noted-Picked : Picked 0 (noted (dec_page i h r).0 i should) (dec_page i h r).1
  noted-Picked j p q e = elim (ℕ_discrete j i) [
    | yes same ↦ elim (Bool-cases (dec_page i h r).0) [
      | inl d ↦ ground (arith, free_at j, d)
      | inr d ↦
          absurd
            (ground (arith, busy, ap (is_free r) same, c j p q (ground (arith, noted_at j, d, e))))
    ]
    | no ne ↦ ground (arith, free_at j, c j p q (ground (arith, noted_at j, e)))
  ]

  joined : (x : ℕ) → opened (opened f k h) (k + h) (n - h) x ≡ opened f k n x
  unfolding h
  joined x = ground arith

  turn-Freed :
      (last : List Bool × HugeRegion)
      → Freed
          (opened f k h)
          (k + h)
          (n - h)
          (noted (dec_page i h r).0 i should)
          (dec_page i h r).1
          last
      → Freed f k n should r last
  turn-Freed last w =
      let (_, b, _, _, _, t, l) = dec_page_shape i h r in
      record {
        counted =
            Counted-ext (opened (opened f k h) (k + h) (n - h)) (opened f k n) last.1 joined
              w.counted;
        tracker = w.tracker ∙ t;
        location = w.location ∙ l;
        backed = λ j. w.backed j ∙ ap (λ z. get_or z j false) b;
        picked = w.picked;
        stay = λ j e. elim (ℕ_discrete j i) [
          | yes same ↦ absurd (ground (arith, busy, e, ap (is_free r) same))
          | no ne ↦
              let (f', c') = w.stay j (ground (arith, free_at j, e)) in
              (f', c' ∙ ground (arith, noted_at j))
        ];
        grown = λ j e. w.grown j (ground (arith, noted_at j, e));
        emptied = λ j p e. elim (w.emptied j p e) [
          | inr l ↦ inr l
          | inl e' ↦ elim (ℕ_discrete j i) [
            | yes same ↦ inr (w.grown j (ground (arith, noted_at j, free_at j, e')))
            | no ne ↦ inl (ground (arith, free_at j, e'))
          ]
        ];
      }

-- `Dec` with fuel for each page, on used pages of the region.
pub dec-Freed :
    (fuel : ℕ) (f : ℕ → Bool) (k n : ℕ) (should : List Bool) (r : HugeRegion)
    → n ≤ fuel
    → r.location.first + num_huge_pages ≤ max_page_number
    → Counted f r
    → k + n ≤ region_pages
    → ((x : ℕ) → k ≤ x → x < k + n → f x ≡ true)
    → length should ≡ num_huge_pages
    → Picked 0 should r
    → Freed f k n should r (dec fuel (page_at r k) n should r)
unfolding h i
dec-Freed fuel f k zero should r enough placed v le on size c =
    rw (dec-stop fuel (page_at r k) should r) (record {
      counted = Counted-ext f (opened f k 0) r (λ x. ground arith) v;
      tracker = refl;
      location = refl;
      backed = λ j. refl;
      picked = c;
      stay = λ j e. (e, refl);
      grown = λ j e. e;
      emptied = λ j p e. inl e;
    })
dec-Freed zero f k (suc m) should r enough placed v le on size c = absurd (omega arith)
dec-Freed (suc fuel) f k (suc m) should r enough placed v le on size c =
    let here = min (suc m) (256 - k % 256) in
    let d = dec_page (k / 256) here r in
    let (_, _, _, _, _, t, l) = dec_page_shape (k / 256) here r in
    let ih =
      dec-Freed fuel (opened f k here) (k + here) (suc m - here) (noted d.0 (k / 256) should) d.1
        (omega arith) (rw l placed) (turned f k (suc m) should r v (omega arith) le on size c)
        (omega arith) (λ x p q. ground (arith, on x (omega arith) (omega arith)))
        (noted_size f k (suc m) should r v (omega arith) le on size c)
        (noted-Picked f k (suc m) should r v (omega arith) le on size c) in
    rw (dec-turn fuel k (suc m) should r placed (omega arith) le) (
      turn-Freed f k (suc m) should r v (omega arith) le on size c
        (dec fuel (page_at r (k + here)) (suc m - here) (noted d.0 (k / 256) should) d.1)
        (subst
          (λ z. Freed (opened f k here) (k + here) (suc m - here) (noted d.0 (k / 256) should) d.1 (
            dec fuel (PageId.add (HugePage.first_page z.first) (k + here)) (suc m - here)
              (noted d.0 (k / 256) should) d.1))
          l ih))
