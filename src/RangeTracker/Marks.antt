-- ===== src/RangeTracker/Marks.antt =====
-- What `Mark` and `Unmark` do to the bits and the counters.
use tcmalloc.Base.{
  ℕ, ◌+◌, ◌-◌, ◌%◌, ◌^◌, ◌≤◌, ◌<◌, ◌≡◌, ap, ◌∙◌, inl, inr, true, false, ◌&&◌, arith, ltb, leb,
  if◌then◌else◌, leb→le, Bool-cases,
}
use tcmalloc.Bitmap.Defs.{get_bit, set_range_value}
use tcmalloc.Bitmap.Fill.{IsBitmap}
use tcmalloc.Bitmap.Ranges.{set_range_value_lem}
use tcmalloc.RangeTracker.{RangeTracker, mark, unmark, to_count, count_sub, count_width}

-- The words have their bits, and the counters are at most the size, so that they fit `Count`.
pub record IsValid (size : ℕ) (t : RangeTracker) : Type 0 where
  pub bitmap : IsBitmap size t.bits
  pub small : size < 2 ^ 64
  pub used : t.nused ≤ size
  pub allocs : t.nallocs ≤ size

pub to_count-fits : (size v : ℕ) → size < 2 ^ 64 → v ≤ size → to_count size v ≡ v
unfolding to_count count_width
to_count-fits size v h le = elim (Bool-cases (leb size 255)) [
  | inl e ↦ rw e (omega (arith, leb→le size 255 e))
  | inr e ↦ rw e (elim (Bool-cases (leb size 65535)) [
    | inl e' ↦ rw e' (omega (arith, leb→le size 65535 e'))
    | inr e' ↦ rw e' (elim (Bool-cases (leb size 4294967295)) [
      | inl e'' ↦ rw e'' (omega (arith, leb→le size 4294967295 e''))
      | inr e'' ↦ rw e'' (omega arith)
    ])
  ])
]

pub count_sub-add : (size v n : ℕ) → size < 2 ^ 64 → v + n ≤ size → count_sub size (v + n) n ≡ v
unfolding count_sub to_count
count_sub-add size v n h le =
    let back : (v + n + 2 ^ 64 - n) % 2 ^ 64 ≡ v = omega arith in
    rw back (to_count-fits size v h (omega arith))

-- Marking a range of at least one bit within a valid tracker, with room in both counters, marks
-- exactly its bits, adds its length to the number used and one to the allocations, and keeps the
-- tracker valid.
pub mark_lem :
    (size index n : ℕ) (t : RangeTracker) (x : ℕ)
    → IsValid size t
    → 0 < n
    → index + n ≤ size
    → t.nused + n ≤ size
    → t.nallocs < size
    → IsValid size (mark size index n t)
      × (get_bit (mark size index n t).bits x
          ≡ (if leb index x && ltb x (index + n) then true else get_bit t.bits x))
      × ((mark size index n t).nused ≡ t.nused + n)
      × ((mark size index n t).nallocs ≡ t.nallocs + 1)
unfolding mark
mark_lem size index n t x v pos le room more =
    let (b, e) = set_range_value_lem true size index n t.bits x pos le v.bitmap in
    let u = to_count-fits size (t.nused + n) v.small room in
    let a = to_count-fits size (t.nallocs + 1) v.small (omega arith) in
    (record { bitmap = b; small = v.small; used = omega arith; allocs = omega arith }, e, u, a)

-- Marking a free range of at least one bit in a valid tracker, with room in both counters, and
-- unmarking it puts every bit and both counters back.
pub unmark-mark :
    (size index n : ℕ) (t : RangeTracker)
    → IsValid size t
    → 0 < n
    → index + n ≤ size
    → t.nused + n ≤ size
    → t.nallocs < size
    → ((x : ℕ) → index ≤ x → x < index + n → get_bit t.bits x ≡ false)
    → ((x : ℕ) → get_bit (unmark size index n (mark size index n t)).bits x ≡ get_bit t.bits x)
      × ((unmark size index n (mark size index n t)).nused ≡ t.nused)
      × ((unmark size index n (mark size index n t)).nallocs ≡ t.nallocs)
unfolding unmark
unmark-mark size index n t v pos le room more free =
    let (v', _, u, a) = mark_lem size index n t 0 v pos le room more in
    (
      bits_back,
      ap (λ k. count_sub size k n) u ∙ count_sub-add size t.nused n v.small room,
      ap (λ k. count_sub size k 1) a ∙ count_sub-add size t.nallocs 1 v.small (omega arith),
    )
  where
    bits_back :
        (x : ℕ)
        → get_bit (set_range_value false index n (mark size index n t).bits) x ≡ get_bit t.bits x
    bits_back x =
        let (v', e, _, _) = mark_lem size index n t x v pos le room more in
        let (_, e') =
          set_range_value_lem false size index n (mark size index n t).bits x pos le v'.bitmap in
        e' ∙ rw e (ground (arith, free x))
