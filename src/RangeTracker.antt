-- ===== src/RangeTracker.antt =====
-- `RangeTracker<N>` of tcmalloc/internal/range_tracker.h, with `N` as the first argument.
use tcmalloc.Base.{
  ℕ, zero, suc, ◌+◌, ◌-◌, ◌*◌, ◌%◌, ◌^◌, max, true, false, ◌&&◌, Option, none, some, ltb, leb, ◌==◌,
  if◌then◌else◌,
}
use tcmalloc.Bitmap.Defs.{
  Bitmap, cleared, set_range_value, find_value, find_value_backwards, next_free_range,
}
pub mod Marks
pub mod Runs
pub mod Scan
pub mod Loops
pub mod Rest
pub mod BestFit
pub mod Unmark
pub mod Cycle

pub record RangeTracker : Type 0 where
  pub bits : Bitmap
  pub longest_free : ℕ
  pub nused : ℕ
  pub nallocs : ℕ

-- The constructor, and `Clear`.
unfoldable pub clear : ℕ → RangeTracker
unfolding cleared
clear size = record { bits = cleared size; longest_free = size; nused = 0; nallocs = 0 }

-- The bits of `UnsignedTypeFittingSize`, and a value of it.
unfoldable pub count_width : ℕ → ℕ
count_width size =
    if leb size (2 ^ 8 - 1)
    then 8
    else if leb size (2 ^ 16 - 1)
    then 16
    else if leb size (2 ^ 32 - 1)
    then 32
    else 64

unfoldable pub to_count : ℕ → ℕ → ℕ
unfolding count_width
to_count size v = v % 2 ^ count_width size

-- `nused_ -= n` and `nallocs_--`.
unfoldable pub count_sub : ℕ → ℕ → ℕ → ℕ
unfolding count_width
count_sub size a b = (a + 2 ^ 64 - b) % 2 ^ 64 % 2 ^ count_width size

-- The local variables of `FindAndMark`'s loop.
pub record Best : Type 0 where
  pub longest_len : ℕ
  pub second_len : ℕ
  pub best_index : ℕ
  pub best_len : ℕ

-- A free range of `len` at `index`, where `n` are wanted.
unfoldable pub consider : ℕ → ℕ → ℕ → Best → Best
consider n index len b =
    let b' =
      if ltb b.longest_len len
      then record b { second_len = b.longest_len; longest_len = len }
      else if ltb b.second_len len
      then record b { second_len = len }
      else b in
    if leb n len && ltb len b'.best_len
    then record b' { best_index = index; best_len = len }
    else b'

-- The loop over the free ranges from `index`; each is of at least one bit.
unfoldable pub find_best : ℕ → ℕ → ℕ → Bitmap → ℕ → Best → Best
unfolding consider next_free_range
find_best zero size n bits index b = b
find_best (suc fuel) size n bits index b = elim (next_free_range size index bits) [
  | none ↦ b
  | some (i, len) ↦ find_best fuel size n bits (i + len) (consider n i len b)
]

-- `none` is the failed TC_CHECK_LT.
unfoldable pub find_and_mark : ℕ → ℕ → RangeTracker → Option (ℕ × RangeTracker)
unfolding find_best to_count
find_and_mark size n t =
    let start : Best = record {
      longest_len = 0;
      second_len = 0;
      best_index = size;
      best_len = 2 * size;
    } in
    let b = find_best (size + 1) size n t.bits 0 start in
    let longest =
      if b.best_len == b.longest_len then max (b.longest_len - n) b.second_len else b.longest_len in
    if ltb b.best_index size
    then some (
      b.best_index,
      record {
        bits = set_range_value true b.best_index n t.bits;
        longest_free = to_count size longest;
        nused = to_count size (t.nused + n);
        nallocs = to_count size (t.nallocs + 1);
      },
    )
    else none

-- The loop of `Mark`, from `scan_index`.
unfoldable pub scan_longest : ℕ → ℕ → Bitmap → ℕ → ℕ → ℕ
unfolding next_free_range
scan_longest zero size bits scan_index longest_len = longest_len
scan_longest (suc fuel) size bits scan_index longest_len =
    elim (next_free_range size scan_index bits) [
      | none ↦ longest_len
      | some (i, len) ↦ scan_longest fuel size bits (i + len) (max longest_len len)
    ]

unfoldable pub mark : ℕ → ℕ → ℕ → RangeTracker → RangeTracker
unfolding scan_longest to_count
mark size index n t =
    let bits' = set_range_value true index n t.bits in
    record {
      bits = bits';
      longest_free = to_count size (scan_longest (size + 1) size bits' 0 0);
      nused = to_count size (t.nused + n);
      nallocs = to_count size (t.nallocs + 1);
    }

unfoldable pub unmark : ℕ → ℕ → ℕ → RangeTracker → RangeTracker
unfolding to_count count_sub
unmark size index n t =
    let bits' = set_range_value false index n t.bits in
    let lim = find_value size true (index + n - 1) bits' in
    let first : ℕ = elim (find_value_backwards true index bits') [ none ↦ 0 | some i ↦ i + 1 ] in
    record {
      bits = bits';
      longest_free =
          if ltb t.longest_free (lim - first) then to_count size (lim - first) else t.longest_free;
      nused = count_sub size t.nused n;
      nallocs = count_sub size t.nallocs 1;
    }
