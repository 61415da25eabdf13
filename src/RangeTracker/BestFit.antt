-- ===== src/RangeTracker/BestFit.antt =====
-- `FindAndMark`: it succeeds where it may, and `longest_free` stays exact.
use tcmalloc.Base.{
  ℕ, ◌+◌, ◌*◌, ◌^◌, ◌≤◌, ◌<◌, ◌≡◌, refl, sym, ◌∙◌, inl, inr, Bool, true, false, some, arith, ltb,
  lt→ltb,
}
use tcmalloc.Bitmap.Defs.{Bitmap, get_bit, set_range_value}
use tcmalloc.Bitmap.Fill.{cleared-IsBitmap, get_bit-cleared}
use tcmalloc.Bitmap.Ranges.{set_range_value_lem}
use tcmalloc.RangeTracker.{
  RangeTracker, clear, Best, find_best, find_and_mark, to_count, mark, scan_longest,
}
use tcmalloc.RangeTracker.Marks.{IsValid, to_count-fits, mark_lem}
use tcmalloc.RangeTracker.Runs.{Free, IsLongest}
use tcmalloc.RangeTracker.Scan.{Scanned, Chosen}
use tcmalloc.RangeTracker.Loops.{IsClean, find_best-Scanned, scan_longest_lem}
use tcmalloc.RangeTracker.Rest.{marked, next_longest, next_longest-IsLongest}

-- The tracker is valid, no dead bit is set, and `longest_free` is the length of the longest run.
pub record IsExact (size : ℕ) (t : RangeTracker) : Type 0 where
  pub valid : IsValid size t
  pub dead : (x : ℕ) → size ≤ x → get_bit t.bits x ≡ false
  pub longest : IsLongest (get_bit t.bits) size t.longest_free

-- The loop as a whole, from the start.
loop_start : ℕ → Best
loop_start size = record { longest_len = 0; second_len = 0; best_index = size; best_len = 2 * size }

loop-Scanned :
    (size n : ℕ) (bits : Bitmap)
    → 0 < n
    → IsClean size bits
    → Scanned (get_bit bits) size n size (find_best (size + 1) size n bits 0 (loop_start size))
unfolding loop_start
loop-Scanned size n bits pos v =
    find_best-Scanned (size + 1) size n bits 0 (loop_start size) v (omega arith) (omega arith)
      (record {
        edge = inl refl;
        bound = λ j k r. omega arith;
        reached = inl refl;
        best = inl (refl, refl, pos);
      })

-- Exactness is about the bits, one by one.
pub IsLongest-ext :
    (f g : ℕ → Bool) (size m : ℕ) → ((x : ℕ) → f x ≡ g x) → IsLongest f size m → IsLongest g size m
IsLongest-ext f g size m e v = record {
  bound = λ j k r. v.bound j k (r.0, λ x p q. e x ∙ r.1 x p q);
  reached = let (j, r) = v.reached in (j, (r.0, λ x p q. sym (e x) ∙ r.1 x p q));
}

-- What `FindAndMark` of `n` makes of the tracker when it returns `i`.
pub record Marked (size n i : ℕ) (t t' : RangeTracker) : Type 0 where
  pub was_free : Free (get_bit t.bits) size i n
  pub bits : (x : ℕ) → get_bit t'.bits x ≡ marked (get_bit t.bits) i n x
  pub used : t'.nused ≡ t.nused + n
  pub allocs : t'.nallocs ≡ t.nallocs + 1
  pub exact : IsExact size t'

chosen-Marked :
    (size n : ℕ) (t : RangeTracker) (b : Best)
    → IsExact size t
    → 0 < n
    → t.nused + n ≤ size
    → t.nallocs < size
    → Scanned (get_bit t.bits) size n size b
    → Chosen (get_bit t.bits) size n size b
    → Marked size n b.best_index t (record {
      bits = set_range_value true b.best_index n t.bits;
      longest_free = to_count size (next_longest n b);
      nused = to_count size (t.nused + n);
      nallocs = to_count size (t.nallocs + 1);
    })
chosen-Marked size n t b v pos room more s c =
    let inside : b.best_index + n ≤ size = omega (arith, c.free.0, c.fits) in
    let small : size < 2 ^ 64 = v.valid.small in
    let u = to_count-fits size (t.nused + n) small room in
    let a = to_count-fits size (t.nallocs + 1) small (omega arith) in
    let w = next_longest-IsLongest (get_bit t.bits) size n b pos s c in
    let (j, r) = w.reached in
    let l = to_count-fits size (next_longest n b) small (omega (arith, r.0)) in
    let bit_at : (x : ℕ)
        → get_bit (set_range_value true b.best_index n t.bits) x
          ≡ marked (get_bit t.bits) b.best_index n x =
      λ x. (set_range_value_lem true size b.best_index n t.bits x pos inside v.valid.bitmap).1 in
    record {
      was_free = (inside, λ x p q. c.free.1 x p (omega (arith, c.fits)));
      bits = bit_at;
      used = u;
      allocs = a;
      exact = record {
        valid = record {
          bitmap =
              (set_range_value_lem true size b.best_index n t.bits 0 pos inside v.valid.bitmap).0;
          small = small;
          used = omega arith;
          allocs = omega arith;
        };
        dead = λ x p. bit_at x ∙ ground (arith, v.dead x p);
        longest = rw l (
            IsLongest-ext (marked (get_bit t.bits) b.best_index n)
              (get_bit (set_range_value true b.best_index n t.bits)) size (next_longest n b)
              (λ x. sym (bit_at x)) w);
      };
    }

-- FindAndMark(n), with 0 < n <= longest_free, on a tracker whose longest_free is exact, with room
-- in both counters, succeeds: it marks n bits that were clear and no others, counts them, and
-- longest_free is exact again.
pub find_and_mark_lem :
    (size n : ℕ) (t : RangeTracker)
    → IsExact size t
    → 0 < n
    → n ≤ t.longest_free
    → t.nused + n ≤ size
    → t.nallocs < size
    → (i : ℕ) × (t' : RangeTracker) × (find_and_mark size n t ≡ some (i, t')) × Marked size n i t t'
unfolding find_and_mark loop_start
find_and_mark_lem size n t v pos le room more =
    let b = find_best (size + 1) size n t.bits 0 (loop_start size) in
    let s = loop-Scanned size n t.bits pos (record { bitmap = v.valid.bitmap; dead = v.dead }) in
    elim s.best [
      | inl (_, _, short) ↦
          let (j, r) = v.longest.reached in
          let w = s.bound j t.longest_free r in absurd (omega arith)
      | inr c ↦
          let inside : ltb b.best_index size ≡ true =
            lt→ltb b.best_index size (omega (arith, c.free.0, c.fits)) in
          (
            b.best_index,
            record {
              bits = set_range_value true b.best_index n t.bits;
              longest_free = to_count size (next_longest n b);
              nused = to_count size (t.nused + n);
              nallocs = to_count size (t.nallocs + 1);
            },
            rw inside refl,
            chosen-Marked size n t b v pos room more s c,
          )
    ]

-- `Mark` keeps `longest_free` exact, of bits that it sets or that were set.
pub mark-IsExact :
    (size index n : ℕ) (t : RangeTracker)
    → IsExact size t
    → 0 < n
    → index + n ≤ size
    → t.nused + n ≤ size
    → t.nallocs < size
    → IsExact size (mark size index n t)
unfolding mark
mark-IsExact size index n t v pos le room more =
    let bits' : Bitmap = set_range_value true index n t.bits in
    let (w, _, _, _) = mark_lem size index n t 0 v.valid pos le room more in
    let dead' : (x : ℕ) → size ≤ x → get_bit bits' x ≡ false = λ x p.
      (set_range_value_lem true size index n t.bits x pos le v.valid.bitmap).1
      ∙ ground (arith, v.dead x p) in
    let l = scan_longest_lem size bits' (record { bitmap = w.bitmap; dead = dead' }) in
    let (j, r) = l.reached in
    let fits =
      to_count-fits size (scan_longest (size + 1) size bits' 0 0) v.valid.small
        (omega (arith, r.0)) in
    record { valid = w; dead = dead'; longest = rw fits l }

-- The constructor's tracker is one free run.
pub clear-IsExact : (size : ℕ) → size < 2 ^ 64 → IsExact size (clear size)
unfolding clear
clear-IsExact size small = record {
  valid = record {
    bitmap = cleared-IsBitmap size;
    small = small;
    used = omega arith;
    allocs = omega arith;
  };
  dead = λ x p. get_bit-cleared size x;
  longest = record {
    bound = λ j k c. omega (arith, c.0);
    reached = (0, (omega arith, λ x p q. get_bit-cleared size x));
  };
}
