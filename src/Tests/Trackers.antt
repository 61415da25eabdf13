-- ===== src/Tests/Trackers.antt =====
-- A tracker of 100 pages, lists of trackers, and an arena.
use tcmalloc.Base.{
  ℕ, zero, suc, ◌^◌, ◌≤◌, ◌<◌, ◌≡◌, refl, sym, ◌∙◌, ◌⊎◌, false, not, some, [], ◌∷◌, arith, get_or,
}
use tcmalloc.Bitmap.Defs.{get_bit}
use tcmalloc.Bitmap.Fill.{cleared-IsBitmap, get_bit-cleared}
use tcmalloc.RangeTracker.{clear, mark, unmark}
use tcmalloc.RangeTracker.Marks as Marks
use tcmalloc.RangeTracker.Marks.{unmark-mark}
use tcmalloc.HintedTrackerLists.{fresh, add, get_least, is_empty}
use tcmalloc.HintedTrackerLists.Least as Least
use tcmalloc.HintedTrackerLists.Least.{Least, add-IsValid, get_least_lem}
use tcmalloc.Arena.{Arena, alignment_bytes, alloc}
use tcmalloc.Arena.Align.{Outcome}
use tcmalloc.Arena.Alloc.{Overrun, alloc_lem}

blank-IsValid : Marks.IsValid 100 (clear 100)
unfolding clear
blank-IsValid = record {
  bitmap = cleared-IsBitmap 100;
  small = omega arith;
  used = omega arith;
  allocs = omega arith;
}

unmark-mark_example :
    ((x : ℕ)
      → get_bit (unmark 100 60 10 (mark 100 60 10 (clear 100))).bits x ≡ get_bit (clear 100).bits x)
    × ((unmark 100 60 10 (mark 100 60 10 (clear 100))).nused ≡ 0)
    × ((unmark 100 60 10 (mark 100 60 10 (clear 100))).nallocs ≡ 0)
unfolding clear
unmark-mark_example =
    unmark-mark 100 60 10 (clear 100) blank-IsValid (omega arith) (omega arith) (omega arith)
      (omega arith) (λ x p q. get_bit-cleared 100 x)

blank_lists-IsValid : Least.IsValid 5 (fresh 5)
unfolding fresh
blank_lists-IsValid = record {
  bitmap = cleared-IsBitmap 5;
  count = refl;
  marked = λ i. get_bit-cleared 5 i ∙ sym (nothing i);
}
  where
    nothing : (i : ℕ) → not (is_empty (get_or ([] ∷ [] ∷ [] ∷ [] ∷ [] ∷ []) i [])) ≡ false
    nothing zero = refl
    nothing (suc zero) = refl
    nothing (suc (suc zero)) = refl
    nothing (suc (suc (suc zero))) = refl
    nothing (suc (suc (suc (suc zero)))) = refl
    nothing (suc (suc (suc (suc (suc i))))) = refl

add-IsValid_example : Least.IsValid 5 (add 77 3 (fresh 5))
add-IsValid_example = add-IsValid 5 77 3 (fresh 5) blank_lists-IsValid (omega arith)

one_list-IsValid : Least.IsValid 5 (add 77 3 (fresh 5))
one_list-IsValid = add-IsValid 5 77 3 (fresh 5) blank_lists-IsValid (omega arith)

get_least_lem_example :
    Least 5 1 (add 77 3 (fresh 5)) (get_least 5 1 (add 77 3 (fresh 5)))
    × Least.IsValid 5 (get_least 5 1 (add 77 3 (fresh 5))).1
get_least_lem_example = get_least_lem 5 1 (add 77 3 (fresh 5)) one_list-IsValid (omega arith)

-- An arena with five bytes left before a page's end.
abbrev nearly_full : Arena
nearly_full = record {
  free_area = 16379;
  free_avail = 5;
  bytes_allocated = 8187;
  bytes_unavailable = 0;
  bytes_nonresident = 0;
  blocks = 1;
}

abbrev system : ℕ → ℕ → ℕ × ℕ
system bytes align = (2 ^ 30, 2 ^ 21)

alloc_lem_example :
    ((alignment_bytes 8 16379 ≤ 5)
      × Outcome 40 8 nearly_full (2 ^ 30, 2 ^ 21) (alloc system 40 8 nearly_full))
    ⊎ ((5 < alignment_bytes 8 16379)
        × ((result : ℕ) × (a' : Arena) × (alloc system 40 8 nearly_full ≡ some (result, a'))
            × Overrun 40 8 nearly_full result a'))
alloc_lem_example =
    alloc_lem system 40 8 nearly_full (omega arith) (omega arith) (omega arith)
      (record { inside = omega arith; counted = omega arith })
      (λ h. record {
        aligned = refl;
        enough = omega arith;
        inside = omega arith;
        counted = omega arith;
      })
