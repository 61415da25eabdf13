-- ===== src/RangeTracker/Cycle.antt =====
-- `Mark` of a free range, and `Unmark` of it: how the pages of a release are kept from use.
use tcmalloc.Base.{ℕ, ◌+◌, ◌≤◌, ◌<◌, ◌≡◌, ◌∙◌, false, arith}
use tcmalloc.Bitmap.Defs.{get_bit}
use tcmalloc.RangeTracker.{RangeTracker, mark, unmark}
use tcmalloc.RangeTracker.Marks.{mark_lem}
use tcmalloc.RangeTracker.BestFit.{IsExact, mark-IsExact}
use tcmalloc.RangeTracker.Unmark.{unmark_lem}

-- Marking a free range of at least one bit of an exact tracker, with room in both counters, and
-- unmarking it leaves an exact tracker with the bits and the counters as they were.
pub unmark-mark-IsExact :
    (size k m : ℕ) (t : RangeTracker)
    → IsExact size t
    → 0 < m
    → k + m ≤ size
    → t.nused + m ≤ size
    → t.nallocs < size
    → ((x : ℕ) → k ≤ x → x < k + m → get_bit t.bits x ≡ false)
    → let t' = unmark size k m (mark size k m t) in
      IsExact size t'
      × ((x : ℕ) → get_bit t'.bits x ≡ get_bit t.bits x)
      × (t'.nused ≡ t.nused)
      × (t'.nallocs ≡ t.nallocs)
unmark-mark-IsExact size k m t v pos le room more free =
    let e = mark-IsExact size k m t v pos le room more in
    let (_, _, u, a) = mark_lem size k m t 0 v.valid pos le room more in
    let (bits, u', a', e') =
      unmark_lem size k m (mark size k m t) e pos le (omega (arith, u)) (omega (arith, a)) in
    (
      e',
      λ x. bits x ∙ ground (arith, (mark_lem size k m t x v.valid pos le room more).1, free x),
      omega (arith, u, u'),
      omega (arith, a, a'),
    )
