-- ===== src/HugeRegion/Inc.antt =====
-- `Inc` of `HugeRegion`: a range that was free becomes used.
use tcmalloc.Base.{
  ℕ, ◌+◌, ◌*◌, ◌≤◌, ◌<◌, ◌≡◌, refl, sym, ap, ◌∙◌, ◌⊎◌, inl, inr, Bool, true, false, not, arith,
  ℕ_discrete, dec_lt, ◌==◌, if◌then◌else◌, Bool-cases, length, length-set, get_or-set,
}
use tcmalloc.Pages.Length.{word, word_sub}
use tcmalloc.RangeTracker.Rest.{marked}
use tcmalloc.HugeRegion.{HugeRegion, num_huge_pages, used_at, backed_at, inc_page}
use tcmalloc.HugeRegion.Count.{
  count, count-ext, count-gain, count-marked, count-apart, count-apart_from, count_bound,
}
use tcmalloc.HugeRegion.Valid.{Counted, is_free}

module _ (f : ℕ → Bool) (r : HugeRegion) (i k h : ℕ) (v : Counted f r) (lt : i < num_huge_pages)
    (low : 256 * i ≤ k) (high : k + h ≤ 256 * i + 256) (pos : 0 < h)
    (free : (x : ℕ) → k ≤ x → x < k + h → f x ≡ false) where
  r' : HugeRegion
  r' = (inc_page i h r).1

  more : count (marked f k h) (256 * i) 256 ≡ used_at r i + h
  more =
      let m = count-marked f k h (256 * i) 256 low free in
      let u = v.used i lt in omega (arith, m, u)

  room : used_at r i + h ≤ 256
  room = let b = count_bound (marked f k h) (256 * i) 256 in omega (arith, b, more)

  used' : (j : ℕ) → used_at r' j ≡ (if j == i then used_at r i + h else used_at r j)
  unfolding r' inc_page
  used' j =
      get_or-set r.pages_used i j (word (used_at r i + h)) 0 (omega (arith, v.used_size, lt))
      ∙ ground (arith, room)

  backed' : (j : ℕ) → backed_at r' j ≡ (if j == i then true else backed_at r j)
  unfolding r' inc_page
  backed' j = elim (Bool-cases (used_at r i == 0)) [
    | inr e ↦ rw e (same j (v.live i lt (ground (arith, e))))
    | inl e ↦ elim (Bool-cases (backed_at r i)) [
      | inl on ↦ rw e (rw on (same j on))
      | inr off ↦
          rw e (rw off (get_or-set r.backed i j true false (omega (arith, v.backed_size, lt))))
    ]
  ]
    where
      same :
          (j : ℕ) → backed_at r i ≡ true → backed_at r j ≡ (if j == i then true else backed_at r j)
      same j on = elim (ℕ_discrete j i) [
        | yes e ↦ ap (backed_at r) e ∙ on ∙ ground arith
        | no ne ↦ ground arith
      ]

  was_unbacked : (inc_page i h r).0 ≡ not (backed_at r i)
  unfolding inc_page
  was_unbacked = elim (Bool-cases (used_at r i == 0)) [
    | inl e ↦ rw e refl
    | inr e ↦ rw e (rw (v.live i lt (ground (arith, e))) refl)
  ]

  nbacked_at : r'.nbacked ≡ (if backed_at r i then r.nbacked else word (r.nbacked + 1))
  unfolding r' inc_page
  nbacked_at = elim (Bool-cases (used_at r i == 0)) [
    | inl e ↦ elim (Bool-cases (backed_at r i)) [
      | inl on ↦ rw e (rw on refl)
      | inr off ↦ rw e (rw off refl)
    ]
    | inr e ↦ rw e (rw (v.live i lt (ground (arith, e))) refl)
  ]

  nbacked' : r'.nbacked ≡ count (backed_at r') 0 num_huge_pages
  nbacked' = elim (Bool-cases (backed_at r i)) [
    | inl on ↦
        let e = count-ext (backed_at r) (backed_at r') 0 num_huge_pages (λ x p q.
          elim (ℕ_discrete x i) [
            | yes same ↦ ap (backed_at r) same ∙ on ∙ ground (arith, backed' x)
            | no ne ↦ ground (arith, backed' x)
          ]) in
        nbacked_at ∙ rw on (v.backed ∙ e)
    | inr off ↦
        let g =
          count-gain (backed_at r) (backed_at r') 0 num_huge_pages i (omega arith)
            (omega (arith, lt)) off (ground (arith, backed' i))
            (λ x ne. ground (arith, backed' x)) in
        let b = count_bound (backed_at r) 0 num_huge_pages in
        nbacked_at ∙ rw off (omega (arith, g, b, v.backed))
  ]

  free_at :
      r'.free_backed_count
      ≡ (if is_free r i then word_sub r.free_backed_count 1 else r.free_backed_count)
  unfolding r' inc_page
  free_at = ground arith

  is_free' : (x : ℕ) → is_free r' x ≡ (if x == i then false else is_free r x)
  is_free' x = ground (arith, backed' x, used' x, pos)

  free' : r'.free_backed_count ≡ count (is_free r') 0 num_huge_pages
  free' = elim (Bool-cases (is_free r i)) [
    | inl on ↦
        let g =
          count-gain (is_free r') (is_free r) 0 num_huge_pages i (omega arith) (omega (arith, lt))
            (ground (arith, is_free' i)) on (λ x ne. ground (arith, is_free' x)) in
        let b = count_bound (is_free r) 0 num_huge_pages in
        free_at ∙ rw on (omega (arith, g, b, v.free))
    | inr off ↦
        let e = count-ext (is_free r) (is_free r') 0 num_huge_pages (λ x p q.
          elim (ℕ_discrete x i) [
            | yes same ↦ ap (is_free r) same ∙ off ∙ ground (arith, is_free' x)
            | no ne ↦ ground (arith, is_free' x)
          ]) in
        free_at ∙ rw off (v.free ∙ e)
  ]

  counts : (j : ℕ) → j < num_huge_pages → used_at r' j ≡ count (marked f k h) (256 * j) 256
  counts j q = elim (ℕ_discrete j i) [
    | yes e ↦
        ground (arith, used' j) ∙ sym more ∙ ap (λ z. count (marked f k h) (256 * z) 256) (sym e)
    | no ne ↦
        let out : (k + h ≤ 256 * j) ⊎ (256 * j + 256 ≤ k) = elim (dec_lt j i) [
          | yes l ↦ inr (omega arith)
          | no ge ↦ inl (omega arith)
        ] in
        ground (arith, used' j) ∙ v.used j q ∙ sym (count-apart f k h (256 * j) 256 out).0
  ]

  pub inc_page-Counted : Counted (marked f k h) (inc_page i h r).1
  unfolding r' inc_page
  inc_page-Counted = record {
    used_size = length-set r.pages_used i (word (used_at r i + h)) ∙ v.used_size;
    backed_size = size;
    used = counts;
    live = λ j q p. elim (ℕ_discrete j i) [
      | yes e ↦ ground (arith, backed' j)
      | no ne ↦ ground (arith, backed' j, used' j, v.live j q)
    ];
    backed = nbacked';
    free = free';
  }
    where
      size : length r'.backed ≡ num_huge_pages
      size = ground (arith, length-set r.backed i true, v.backed_size)

  -- The turn backs its huge page, and says whether that was needed.
  pub backed_at-inc_page :
      (j : ℕ) → backed_at (inc_page i h r).1 j ≡ (if j == i then true else backed_at r j)
  unfolding r'
  backed_at-inc_page = backed'

  pub inc_page_lem : (inc_page i h r).0 ≡ not (backed_at r i)
  inc_page_lem = was_unbacked

  -- It adds no free huge page.
  pub inc_page-free_le : (inc_page i h r).1.free_backed_count ≤ r.free_backed_count
  unfolding r'
  inc_page-free_le =
      let c =
        count-apart_from (is_free r) (is_free r') (λ x. false) 0 num_huge_pages
          (λ x p q e. absurd (ground (arith, e))) (λ x p q e. ground (arith, is_free' x, e)) in
      omega (arith, c, free', v.free)
