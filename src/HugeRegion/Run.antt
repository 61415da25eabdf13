-- ===== src/HugeRegion/Run.antt =====
-- One run of `UnbackHugepages`.
use tcmalloc.Base.{
  ℕ, ◌+◌, ◌*◌, ◌/◌, ◌≤◌, ◌<◌, ◌≡◌, refl, sym, ◌∙◌, inl, inr, Bool, true, false, some, List, arith,
  ◌==◌, if◌then◌else◌, Bool-cases, length, set,
}
use tcmalloc.Pages.Length.{word, word_sub}
use tcmalloc.Pages.HugeLength as HugeLength
use tcmalloc.Pages.HugePage as HugePage
use tcmalloc.Pages.HugeRange.{HugeRange, make}
use tcmalloc.RangeTracker.{mark, unmark}
use tcmalloc.RangeTracker.BestFit.{IsExact}
use tcmalloc.RangeTracker.Unmark.{opened}
use tcmalloc.RangeTracker.Cycle.{unmark-mark-IsExact}
use tcmalloc.HugeRegion.{HugeRegion, num_huge_pages, region_pages, used_at, backed_at}
use tcmalloc.HugeRegion.Count.{count, count-ext, count-room, count-opened, count-zero, count_bound}
use tcmalloc.HugeRegion.Valid.{IsValid, is_free}
use tcmalloc.HugeRegion.MaybeGet.{bits_of}
use tcmalloc.HugeRegion.Unback.{exchange, clear_from, unback_run}
use tcmalloc.HugeRegion.Exchange.{exchange_lem, exchange_sum, clear_from_lem}

-- The arrays after the run.
blocked_used : ℕ → ℕ → HugeRegion → List ℕ
blocked_used i hl r = (exchange i hl 256 r.pages_used).1

-- The region after the run of `hl` huge pages from `i`.
after : ℕ → ℕ → Bool → HugeRegion → HugeRegion
unfolding blocked_used
after i hl success r = record {
  tracker =
      unmark region_pages (256 * i) (256 * hl) (mark region_pages (256 * i) (256 * hl) r.tracker);
  location = r.location;
  pages_used = (exchange i hl 0 (blocked_used i hl r)).1;
  backed = if success then clear_from i hl r.backed else r.backed;
  nbacked = if success then HugeLength.sub r.nbacked hl else r.nbacked;
  total_unbacked = if success then HugeLength.add r.total_unbacked hl else r.total_unbacked;
  free_backed_count =
      if success
      then HugeLength.sub r.free_backed_count hl
      else HugeLength.add (HugeLength.sub r.free_backed_count hl) hl;
}

module _ (i hl : ℕ) (success : Bool) (r : HugeRegion) (v : IsValid r) (pos : 0 < hl)
    (le : i + hl ≤ num_huge_pages) (more : r.tracker.nallocs < region_pages)
    (free : (j : ℕ) → i ≤ j → j < i + hl → is_free r j ≡ true) where
  r' : HugeRegion
  r' = after i hl success r

  unused : (j : ℕ) → i ≤ j → j < i + hl → used_at r j ≡ 0
  unused j p q = ground (arith, free j p q)

  free_bits : (x : ℕ) → 256 * i ≤ x → x < 256 * i + 256 * hl → bits_of r x ≡ false
  free_bits x p q =
      let c = v.counted.used (x / 256) (omega arith) in
      let u = unused (x / 256) (omega arith) (omega arith) in
      count-zero (bits_of r) (256 * (x / 256)) 256 x (sym c ∙ u) (omega arith) (omega arith)

  tracker' :
      IsExact region_pages r'.tracker
      × ((x : ℕ) → bits_of r' x ≡ bits_of r x)
      × (r'.tracker.nused ≡ r.tracker.nused)
      × (r'.tracker.nallocs ≡ r.tracker.nallocs)
  unfolding r' after
  tracker' =
      let room = count-room (bits_of r) (256 * i) (256 * hl) region_pages (omega arith) free_bits in
      unmark-mark-IsExact region_pages (256 * i) (256 * hl) r.tracker v.tracker (omega arith)
        (omega arith) (omega (arith, room, v.total)) more free_bits

  used' : (j : ℕ) → used_at r' j ≡ used_at r j
  unfolding r' after blocked_used
  used' j =
      let (l, b) = exchange_lem i hl 256 r.pages_used j (omega (arith, v.counted.used_size)) in
      let (_, f) =
        exchange_lem i hl 0 (blocked_used i hl r) j (omega (arith, l, v.counted.used_size)) in
      f ∙ ground (arith, b, unused j)

  backed' :
      (j : ℕ) → backed_at r' j ≡ (if success then opened (backed_at r) i hl j else backed_at r j)
  unfolding r' after
  backed' j = elim (Bool-cases success) [
    | inl e ↦ rw e ((clear_from_lem i hl r.backed j (omega (arith, v.counted.backed_size))).1)
    | inr e ↦ rw e refl
  ]

  is_free' : (j : ℕ) → is_free r' j ≡ (if success then opened (is_free r) i hl j else is_free r j)
  is_free' j = ground (arith, backed' j, used' j)

  released : ℕ
  released = if success then hl else 0

  -- A test of the huge pages that the run clears loses as many.
  cleared_count :
      (f g : ℕ → Bool)
      → ((j : ℕ) → i ≤ j → j < i + hl → f j ≡ true)
      → ((j : ℕ) → g j ≡ (if success then opened f i hl j else f j))
      → count g 0 num_huge_pages + released ≡ count f 0 num_huge_pages
  unfolding released
  cleared_count f g set at = elim (Bool-cases success) [
    | inl e ↦
        let c = count-opened f i hl 0 num_huge_pages (omega arith) set in
        let s = count-ext g (opened f i hl) 0 num_huge_pages (λ x p q. ground (arith, at x, e)) in
        rw e (omega (arith, c, s))
    | inr e ↦
        let s = count-ext g f 0 num_huge_pages (λ x p q. ground (arith, at x, e)) in
        rw e (omega (arith, s))
  ]

  backed_counts : count (backed_at r') 0 num_huge_pages + released ≡ r.nbacked
  backed_counts =
      cleared_count (backed_at r) (backed_at r') (λ j p q. ground (arith, free j p q)) backed'
      ∙ sym v.counted.backed

  free_counts : count (is_free r') 0 num_huge_pages + released ≡ r.free_backed_count
  free_counts = cleared_count (is_free r) (is_free r') free is_free' ∙ sym v.counted.free

  counters :
      (r'.nbacked ≡ (if success then word_sub r.nbacked hl else r.nbacked))
      × (r'.free_backed_count ≡ (
          if success
          then word_sub r.free_backed_count hl
          else word (word_sub r.free_backed_count hl + hl)))
  unfolding r' after
  counters = (refl, refl)

  small : (r.nbacked ≤ num_huge_pages) × (r.free_backed_count ≤ num_huge_pages)
  small = (
    omega (arith, v.counted.backed, count_bound (backed_at r) 0 num_huge_pages),
    omega (arith, v.counted.free, count_bound (is_free r) 0 num_huge_pages),
  )

  nbacked' : r'.nbacked + released ≡ r.nbacked
  unfolding released
  nbacked' = ground (arith, counters.0, backed_counts, small.0)

  -- There are as many free huge pages as the run has.
  enough : hl ≤ r.free_backed_count
  enough =
      let c = count-opened (is_free r) i hl 0 num_huge_pages (omega arith) free in
      omega (arith, c, v.counted.free)

  free' : r'.free_backed_count + released ≡ r.free_backed_count
  unfolding released
  free' = ground (arith, counters.1, free_counts, small.1, enough)

  blocked_size : length (blocked_used i hl r) ≡ num_huge_pages
  unfolding blocked_used
  blocked_size =
      (exchange_lem i hl 256 r.pages_used 0 (omega (arith, v.counted.used_size))).0
      ∙ v.counted.used_size

  backed_size' : length r'.backed ≡ num_huge_pages
  unfolding r' after
  backed_size' = elim (Bool-cases success) [
    | inl e ↦ rw e (
        (clear_from_lem i hl r.backed 0 (omega (arith, v.counted.backed_size))).0
        ∙ v.counted.backed_size)
    | inr e ↦ rw e v.counted.backed_size
  ]

  after-IsValid : IsValid r'
  unfolding r' after
  after-IsValid = record {
    whole = v.whole;
    placed = v.placed;
    tracker = tracker'.0;
    total =
        tracker'.2
        ∙ v.total
        ∙ count-ext (bits_of r) (bits_of r') 0 region_pages (λ x p q. sym (tracker'.1 x));
    counted = record {
      used_size =
          (exchange_lem i hl 0 (blocked_used i hl r) 0 (omega (arith, blocked_size))).0
          ∙ blocked_size;
      backed_size = backed_size';
      used = λ j p.
          used' j
          ∙ v.counted.used j p
          ∙ count-ext (bits_of r) (bits_of r') (256 * j) 256 (λ x _ _. sym (tracker'.1 x));
      live = λ j p q. ground (arith, backed' j, used' j, v.counted.live j p, unused j);
      backed = omega (arith, nbacked', backed_counts);
      free = omega (arith, free', free_counts);
    };
  }

-- What the run of `hl` huge pages from `i` makes of the region: nothing changes but that, if the
-- system released them, they are not backed.
pub record Ran (i hl : ℕ) (success : Bool) (released : ℕ) (r r' : HugeRegion) : Type 0 where
  pub valid : IsValid r'
  pub location : r'.location ≡ r.location
  pub bits : (x : ℕ) → bits_of r' x ≡ bits_of r x
  pub allocs : r'.tracker.nallocs ≡ r.tracker.nallocs
  pub used : (j : ℕ) → used_at r' j ≡ used_at r j
  pub backed :
      (j : ℕ) → backed_at r' j ≡ (if success then opened (backed_at r) i hl j else backed_at r j)
  pub nbacked : r'.nbacked + released ≡ r.nbacked
  pub free : r'.free_backed_count + released ≡ r.free_backed_count

-- `unback_` of the run.
abbrev pub succeeds : (HugeRange → Bool) → ℕ → ℕ → HugeRegion → Bool
succeeds unback i hl r = unback (make (HugePage.add r.location.first i) hl)

-- The run's checks hold.
pub unback_run_lem :
    (unback : HugeRange → Bool) (i hl : ℕ) (r : HugeRegion)
    → IsValid r
    → 0 < hl
    → i + hl ≤ num_huge_pages
    → r.tracker.nallocs < region_pages
    → ((j : ℕ) → i ≤ j → j < i + hl → is_free r j ≡ true)
    → let success = succeeds unback i hl r in
      let released = if success then hl else 0 in
      (r' : HugeRegion) × (unback_run unback i hl r ≡ some (released, r'))
      × Ran i hl success released r r'
unfolding unback_run after r' released HugeLength.in_pages blocked_used
unback_run_lem unback i hl r v pos le more free =
    let s = succeeds unback i hl r in
    let e : word (hl * 256) ≡ 256 * hl = omega arith in
    let e' : word (i * 256) ≡ 256 * i = omega arith in
    let none_used : ((exchange i hl 256 r.pages_used).0 == 0) ≡ true =
      (let z =
          exchange_sum i hl 256 0 r.pages_used (omega (arith, v.counted.used_size))
            (λ j p q. ground (arith, free j p q)) in
        ground (arith, z)) in
    let all_used : ((exchange i hl 0 (exchange i hl 256 r.pages_used).1).0 == 256 * hl) ≡ true =
      (let z =
          exchange_sum i hl 0 256 (exchange i hl 256 r.pages_used).1
            (omega (arith, blocked_size i hl s r v pos le more free))
            (λ j p q.
              ground (
                arith,
                exchange_lem i hl 256 r.pages_used j (omega (arith, v.counted.used_size)),
              )) in
        ground (arith, z)) in
    (
      after i hl s r,
      rw e (rw e' (rw none_used (rw all_used refl))),
      record {
        valid = after-IsValid i hl s r v pos le more free;
        location = refl;
        bits = (tracker' i hl s r v pos le more free).1;
        allocs = (tracker' i hl s r v pos le more free).3;
        used = used' i hl s r v pos le more free;
        backed = backed' i hl s r v pos le more free;
        nbacked = nbacked' i hl s r v pos le more free;
        free = free' i hl s r v pos le more free;
      },
    )
