-- ===== src/RangeTracker/Unmark.antt =====
-- `Unmark`: the run that it opens, and that `longest_free` stays exact.
use tcmalloc.Base.{
  ℕ, ◌+◌, ◌-◌, ◌^◌, ◌≤◌, ◌<◌, max, ◌≡◌, refl, sym, ap, ◌∙◌, ◌⊎◌, inl, inr, Bool, true, false, ◌&&◌,
  Option, none, some, arith, ℕ_discrete, dec_lt, ltb, leb, if◌then◌else◌, set,
}
use tcmalloc.Bitmap.Defs.{Bitmap, get_bit, set_range_value, find_value, find_value_backwards}
use tcmalloc.Bitmap.Ranges.{set_range_value_lem}
use tcmalloc.Bitmap.Find.{wanted, find_value_lem}
use tcmalloc.Bitmap.Backwards.{FoundLast, find_value_backwards_lem}
use tcmalloc.RangeTracker.{RangeTracker, unmark, to_count, count_sub}
use tcmalloc.RangeTracker.Marks.{to_count-fits, count_sub-add}
use tcmalloc.RangeTracker.Runs.{Free, Apart, IsLongest, run_stops}
use tcmalloc.RangeTracker.BestFit.{IsExact, IsLongest-ext}

-- The bits with those of a range cleared.
abbrev pub opened : (ℕ → Bool) → ℕ → ℕ → ℕ → Bool
opened f i n x = if leb i x && ltb x (i + n) then false else f x

-- The run from `first` to `lim` around the range is clear and ends at set bits, or at the ends.
record Around (g : ℕ → Bool) (size index n first lim : ℕ) : Type 0 where
  low : first ≤ index
  high : index + n ≤ lim
  inside : lim ≤ size
  clear : (x : ℕ) → first ≤ x → x < lim → g x ≡ false
  start : (first ≡ 0) ⊎ ((0 < first) × (g (first - 1) ≡ true))
  stop : (lim ≡ size) ⊎ (g lim ≡ true)

module _ (f : ℕ → Bool) (size index n first lim m : ℕ) (pos : 0 < n)
    (a : Around (opened f index n) size index n first lim) (l : IsLongest f size m) where
  -- A run is in the new one, or it misses the range.
  two_sides :
      (j k : ℕ)
      → Free (opened f index n) size j k
      → ((first ≤ j) × (j + k ≤ lim)) ⊎ Apart j k index n
  two_sides j k r = elim (above_first j k r) [
    | inr le ↦ inr (inl (omega (arith, a.low)))
    | inl ge ↦ elim (below_lim j k r) [
      | inl le ↦ inl (ge, le)
      | inr gt ↦ inr (inr (omega (arith, a.high)))
    ]
  ]
    where
      above_first : (j k : ℕ) → Free (opened f index n) size j k → (first ≤ j) ⊎ (j + k ≤ first)
      above_first j k r = elim a.start [
        | inl z ↦ inl (omega arith)
        | inr (p, set) ↦ elim (run_stops (opened f index n) size j k (first - 1) r set) [
          | inl le ↦ inr (omega arith)
          | inr lt ↦ inl (omega arith)
        ]
      ]

      below_lim : (j k : ℕ) → Free (opened f index n) size j k → (j + k ≤ lim) ⊎ (lim ≤ j)
      below_lim j k r = elim a.stop [
        | inl e ↦ inl (omega (arith, r.0))
        | inr set ↦ elim (run_stops (opened f index n) size j k lim r set) [
          | inl le ↦ inl le
          | inr lt ↦ inr (omega arith)
        ]
      ]

  old_run : (j k : ℕ) → Free (opened f index n) size j k → Apart j k index n → Free f size j k
  old_run j k (p, q) s = (p, λ x u w. ground (arith, q x u w))

  new_run : (j k : ℕ) → Free f size j k → Free (opened f index n) size j k
  new_run j k (p, q) = (p, λ x u w. ground (arith, q x u w))

  opened-IsLongest : IsLongest (opened f index n) size (max m (lim - first))
  opened-IsLongest = record {
    bound = λ j k r. elim (two_sides j k r) [
      | inl (p, q) ↦ omega arith
      | inr s ↦ let w = l.bound j k (old_run j k r s) in omega arith
    ];
    reached = elim (dec_lt m (lim - first)) [
      | yes lt ↦
          let e : max m (lim - first) ≡ lim - first = omega arith in
          rw e (first, (omega (arith, a.inside), λ x p q. a.clear x p (omega arith)))
      | no ge ↦
          let e : max m (lim - first) ≡ m = omega arith in
          let (j, r) = l.reached in rw e (j, new_run j m r)
    ];
  }

-- The start of the run, as `Unmark` computes it.
abbrev first_of : Option ℕ → ℕ
first_of o = elim o [ none ↦ 0 | some i ↦ i + 1 ]

-- What `FindSet` of the last bit of the range gives.
abbrev Stops : (ℕ → Bool) → ℕ → ℕ → ℕ → Type 0
Stops g size from lim =
    (from ≤ lim)
    × (lim ≤ size)
    × ((x : ℕ) → from ≤ x → x < lim → g x ≡ false)
    × (lim < size → g lim ≡ true)

module _ (size index n lim : ℕ) (g : ℕ → Bool) (pos : 0 < n) (le : index + n ≤ size)
    (in_range : (x : ℕ) → index ≤ x → x < index + n → g x ≡ false)
    (stops : Stops g size (index + n - 1) lim) where
  past : index + n ≤ lim
  past = elim (dec_lt lim (index + n)) [
    | no ge ↦ omega arith
    | yes lt ↦
        let (a, b, c, d) = stops in
        absurd (ground (arith, d (omega arith), in_range lim (omega arith) lt))
  ]

  enclosed_from :
      (first : ℕ)
      → first ≤ index
      → ((x : ℕ) → first ≤ x → x < index → g x ≡ false)
      → (first ≡ 0) ⊎ ((0 < first) × (g (first - 1) ≡ true))
      → Around g size index n first lim
  enclosed_from first low before start = record {
    low = low;
    high = past;
    inside = stops.1;
    clear = clear;
    start = start;
    stop = elim (dec_lt lim size) [
      | yes l ↦ inr (stops.3 l)
      | no ge ↦ inl (omega (arith, stops.1))
    ];
  }
    where
      clear : (x : ℕ) → first ≤ x → x < lim → g x ≡ false
      clear x p q = elim (dec_lt x index) [
        | yes l ↦ before x p l
        | no ge ↦ elim (dec_lt x (index + n)) [
          | yes l ↦ in_range x (omega arith) l
          | no ge' ↦ stops.2 x (omega arith) q
        ]
      ]

  around : (o : Option ℕ) → FoundLast g (index + 1) o → Around g size index n (first_of o) lim
  unfolding FoundLast
  around none w = enclosed_from 0 (omega arith) (λ x p q. w x (omega arith)) (inl refl)
  around (some k) (h, t, w) =
      enclosed_from (k + 1) below (λ x p q. w x (omega arith) (omega arith))
        (inr (omega arith, ap g (omega arith) ∙ t))
    where
      below : k + 1 ≤ index
      below = elim (ℕ_discrete k index) [
        | yes e ↦ absurd (ground (arith, in_range index (omega arith) (omega arith), ap g e, t))
        | no ne ↦ omega arith
      ]

count_sub_lem : (size a n : ℕ) → size < 2 ^ 64 → n ≤ a → a ≤ size → count_sub size a n + n ≡ a
count_sub_lem size a n h le top =
    let whole : a - n + n ≡ a = omega arith in
    let e = count_sub-add size (a - n) n h (omega arith) in
    let e' : count_sub size a n ≡ a - n = ap (λ k. count_sub size k n) (sym whole) ∙ e in
    omega arith

-- The choice of `longest_free` is the greater of the two.
unmark_longest : ℕ → ℕ → ℕ → ℕ
unmark_longest size m len = if ltb m len then to_count size len else m

unmark_longest-max :
    (size m len : ℕ) → size < 2 ^ 64 → len ≤ size → unmark_longest size m len ≡ max m len
unfolding unmark_longest
unmark_longest-max size m len h le = ground (arith, to_count-fits size len h le)

-- Unmark of a range of at least one bit within a tracker whose longest_free is exact, with at least
-- as many bits used and an allocation: the range's bits are clear and the others as before, the
-- counters go down by its length and by one, and longest_free is exact again.
pub unmark_lem :
    (size index n : ℕ) (t : RangeTracker)
    → IsExact size t
    → 0 < n
    → index + n ≤ size
    → n ≤ t.nused
    → 0 < t.nallocs
    → let t' = unmark size index n t in
      ((x : ℕ) → get_bit t'.bits x ≡ opened (get_bit t.bits) index n x)
      × (t'.nused + n ≡ t.nused)
      × (t'.nallocs + 1 ≡ t.nallocs)
      × IsExact size t'
unfolding unmark unmark_longest wanted
unmark_lem size index n t v pos le enough some_allocs =
    let bits' : Bitmap = set_range_value false index n t.bits in
    let f : ℕ → Bool = get_bit t.bits in
    let g : ℕ → Bool = get_bit bits' in
    let small : size < 2 ^ 64 = v.valid.small in
    let bitmap' = (set_range_value_lem false size index n t.bits 0 pos le v.valid.bitmap).0 in
    let at : (x : ℕ) → g x ≡ opened f index n x =
      λ x. (set_range_value_lem false size index n t.bits x pos le v.valid.bitmap).1 in
    let dead' : (x : ℕ) → size ≤ x → g x ≡ false = λ x p. at x ∙ ground (arith, v.dead x p) in
    let lim = find_value size true (index + n - 1) bits' in
    let o = find_value_backwards true index bits' in
    let stops : Stops g size (index + n - 1) lim =
      find_value_lem size true (index + n - 1) bits' (omega arith) bitmap' (λ e. dead') in
    let back : FoundLast g (index + 1) o =
      find_value_backwards_lem size true index bits' (omega arith) bitmap' in
    let a = around size index n lim g pos le (λ x p q. at x ∙ ground arith) stops o back in
    let l =
      IsLongest-ext (opened f index n) g size (max t.longest_free (lim - first_of o))
        (λ x. sym (at x))
        (opened-IsLongest f size index n (first_of o) lim t.longest_free pos (Around-ext a at)
          v.longest) in
    let u = count_sub_lem size t.nused n small enough v.valid.used in
    let w = count_sub_lem size t.nallocs 1 small some_allocs v.valid.allocs in
    let m =
      unmark_longest-max size t.longest_free (lim - first_of o) small (omega (arith, a.inside)) in
    (
      at,
      u,
      w,
      record {
        valid = record {
          bitmap = bitmap';
          small = small;
          used = omega (arith, v.valid.used);
          allocs = omega (arith, v.valid.allocs);
        };
        dead = dead';
        longest = rw m l;
      },
    )
  where
    Around-ext :
        {g h : ℕ → Bool} {first lim : ℕ}
        → Around g size index n first lim
        → ((x : ℕ) → g x ≡ h x)
        → Around h size index n first lim
    Around-ext {first = first} {lim = lim} a e = record {
      low = a.low;
      high = a.high;
      inside = a.inside;
      clear = λ x p q. sym (e x) ∙ a.clear x p q;
      start = elim a.start [ inl z ↦ inl z | inr (p, s) ↦ inr (p, sym (e (first - 1)) ∙ s) ];
      stop = elim a.stop [ inl z ↦ inl z | inr s ↦ inr (sym (e lim) ∙ s) ];
    }
