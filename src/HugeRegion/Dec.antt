-- ===== src/HugeRegion/Dec.antt =====
-- `Dec` of `HugeRegion`: a used range becomes free.
use tcmalloc.Base.{
  ℕ, ◌+◌, ◌-◌, ◌*◌, ◌≤◌, ◌<◌, ◌≡◌, refl, sym, ap, ◌∙◌, ◌⊎◌, inl, inr, Bool, true, false, arith,
  ℕ_discrete, dec_lt, ◌==◌, if◌then◌else◌, Bool-cases, length, set, length-set, get_or, get_or-set,
}
use tcmalloc.Pages.Length.{word, word_sub}
use tcmalloc.RangeTracker.Unmark.{opened}
use tcmalloc.HugeRegion.{HugeRegion, num_huge_pages, used_at, backed_at, dec_page}
use tcmalloc.HugeRegion.Count.{count, count-ext, count-gain, count-opened, count-apart, count_bound}
use tcmalloc.HugeRegion.Valid.{Counted, is_free}

-- What both branches of a turn do, for any `left`.
pub dec_page_shape :
    (i h : ℕ) (r : HugeRegion)
    → let d = dec_page i h r in
      (d.1.pages_used ≡ set r.pages_used i (word_sub (used_at r i) h))
      × (d.1.backed ≡ r.backed)
      × (d.1.nbacked ≡ r.nbacked)
      × (d.1.free_backed_count ≡ (
          if word_sub (used_at r i) h == 0
          then word (r.free_backed_count + 1)
          else r.free_backed_count))
      × (d.0 ≡ (word_sub (used_at r i) h == 0))
      × (d.1.tracker ≡ r.tracker)
      × (d.1.location ≡ r.location)
unfolding dec_page
dec_page_shape i h r = elim (Bool-cases (word_sub (used_at r i) h == 0)) [
  | inl e ↦ (rw e refl, rw e refl, rw e refl, rw e refl, rw e refl, rw e refl, rw e refl)
  | inr e ↦ (rw e refl, rw e refl, rw e refl, rw e refl, rw e refl, rw e refl, rw e refl)
]

module _ (f : ℕ → Bool) (r : HugeRegion) (i k h : ℕ) (v : Counted f r) (lt : i < num_huge_pages)
    (low : 256 * i ≤ k) (high : k + h ≤ 256 * i + 256) (pos : 0 < h)
    (on : (x : ℕ) → k ≤ x → x < k + h → f x ≡ true) where
  r' : HugeRegion
  r' = (dec_page i h r).1

  fewer : count (opened f k h) (256 * i) 256 + h ≡ used_at r i
  fewer =
      let m = count-opened f k h (256 * i) 256 low on in let u = v.used i lt in omega (arith, m, u)

  room : used_at r i ≤ 256
  room = let b = count_bound f (256 * i) 256 in omega (arith, b, v.used i lt)

  shape :
      (r'.pages_used ≡ set r.pages_used i (word_sub (used_at r i) h))
      × (r'.backed ≡ r.backed)
      × (r'.nbacked ≡ r.nbacked)
      × (r'.free_backed_count ≡ (
          if word_sub (used_at r i) h == 0
          then word (r.free_backed_count + 1)
          else r.free_backed_count))
      × ((dec_page i h r).0 ≡ (word_sub (used_at r i) h == 0))
      × (r'.tracker ≡ r.tracker)
      × (r'.location ≡ r.location)
  unfolding r'
  shape = dec_page_shape i h r

  left : word_sub (used_at r i) h ≡ used_at r i - h
  left = omega (arith, fewer, room)

  used' : (j : ℕ) → used_at r' j ≡ (if j == i then used_at r i - h else used_at r j)
  used' j =
      ap (λ l. get_or l j 0) shape.0
      ∙ get_or-set r.pages_used i j (word_sub (used_at r i) h) 0 (omega (arith, v.used_size, lt))
      ∙ ground (arith, left)

  backed' : (j : ℕ) → backed_at r' j ≡ backed_at r j
  backed' j = ap (λ l. get_or l j false) shape.1

  pub was_used : is_free r i ≡ false
  was_used = ground (arith, fewer, pos)

  is_free' : (x : ℕ) → is_free r' x ≡ (if x == i then used_at r i - h == 0 else is_free r x)
  is_free' x = elim (ℕ_discrete x i) [
    | yes e ↦
        let b = v.live i lt (omega (arith, fewer, pos)) in
        ground (arith, used' x, backed' x, ap (backed_at r) e, b)
    | no ne ↦ ground (arith, used' x, backed' x)
  ]

  free' : r'.free_backed_count ≡ count (is_free r') 0 num_huge_pages
  free' = elim (Bool-cases (used_at r i - h == 0)) [
    | inl e ↦
        let g =
          count-gain (is_free r) (is_free r') 0 num_huge_pages i (omega arith) (omega (arith, lt))
            was_used (ground (arith, is_free' i, e)) (λ x ne. ground (arith, is_free' x)) in
        let b = count_bound (is_free r) 0 num_huge_pages in
        shape.3 ∙ ground (arith, left, e, g, b, v.free, count_bound (is_free r') 0 num_huge_pages)
    | inr e ↦
        let g = count-ext (is_free r) (is_free r') 0 num_huge_pages (λ x p q.
          elim (ℕ_discrete x i) [
            | yes same ↦ ap (is_free r) same ∙ was_used ∙ ground (arith, is_free' x, e)
            | no ne ↦ ground (arith, is_free' x)
          ]) in
        shape.3 ∙ ground (arith, left, e, g, v.free)
  ]

  counts : (j : ℕ) → j < num_huge_pages → used_at r' j ≡ count (opened f k h) (256 * j) 256
  counts j q = elim (ℕ_discrete j i) [
    | yes e ↦
        let same = ap (λ z. count (opened f k h) (256 * z) 256) e in
        ground (arith, used' j, fewer, same)
    | no ne ↦
        let out : (k + h ≤ 256 * j) ⊎ (256 * j + 256 ≤ k) = elim (dec_lt j i) [
          | yes l ↦ inr (omega arith)
          | no ge ↦ inl (omega arith)
        ] in
        ground (arith, used' j) ∙ v.used j q ∙ sym (count-apart f k h (256 * j) 256 out).1
  ]

  pub dec_page-Counted : Counted (opened f k h) (dec_page i h r).1
  unfolding r'
  dec_page-Counted = record {
    used_size =
        ap length shape.0 ∙ length-set r.pages_used i (word_sub (used_at r i) h) ∙ v.used_size;
    backed_size = ap length shape.1 ∙ v.backed_size;
    used = counts;
    live = λ j q p. elim (ℕ_discrete j i) [
      | yes e ↦ backed' j ∙ ap (backed_at r) e ∙ v.live i lt (omega (arith, fewer, pos))
      | no ne ↦ backed' j ∙ v.live j q (ground (arith, used' j, p))
    ];
    backed =
        shape.2
        ∙ v.backed
        ∙ count-ext (backed_at r) (backed_at r') 0 num_huge_pages (λ x p q. sym (backed' x));
    free = free';
  }

  -- The turn's flag, and the free huge pages after it.
  pub dec_page_lem :
      (x : ℕ) → is_free (dec_page i h r).1 x ≡ (if x == i then (dec_page i h r).0 else is_free r x)
  unfolding r'
  dec_page_lem x = is_free' x ∙ ground (arith, shape.4, left)
