-- ===== src/HintedTrackerLists.antt =====
-- `HintedTrackerLists` of tcmalloc/hinted_tracker_lists.h: lists of trackers and a bitmap of those
-- that are not empty. A tracker is a number, a `TList` the list of its trackers; `n` is the number
-- of lists, the parameter `N`.
use tcmalloc.Base.{
  ℕ, ◌+◌, Bool, true, false, Option, none, some, List, [], ◌∷◌, ◌==◌, if◌then◌else◌, length, set,
  get_or, replicate,
}
use tcmalloc.Pages.Length.{word, word_sub}
use tcmalloc.Bitmap.Defs.{Bitmap, cleared, set_bit, clear_bit, find_value}
pub mod Least

pub record HintedTrackerLists : Type 0 where
  pub lists : List (List ℕ)
  pub size : ℕ
  pub nonempty : Bitmap

unfoldable pub fresh : ℕ → HintedTrackerLists
unfolding cleared
fresh n = record { lists = replicate n []; size = 0; nonempty = cleared n }

abbrev pub list_at : HintedTrackerLists → ℕ → List ℕ
list_at h i = get_or h.lists i []

abbrev pub is_empty : List ℕ → Bool
is_empty [] = true
is_empty (p ∷ ps) = false

-- `GetLeast`. An empty list where the bit is set would be read through its sentinel; the invariant
-- excludes it.
unfoldable pub get_least : ℕ → ℕ → HintedTrackerLists → Option ℕ × HintedTrackerLists
unfolding find_value clear_bit
get_least n k h =
    let i = find_value n true k h.nonempty in
    let got : Option ℕ × HintedTrackerLists = elim (list_at h i) [
      | [] ↦ (none, h)
      | pt ∷ rest ↦ (
        some pt,
        record {
          lists = set h.lists i rest;
          size = word_sub h.size 1;
          nonempty = if is_empty rest then (clear_bit i h.nonempty).1 else h.nonempty;
        },
      )
    ] in
    if i == n then (none, h) else got

-- `PeekLeast`.
unfoldable pub peek_least : ℕ → ℕ → HintedTrackerLists → Option ℕ
unfolding find_value
peek_least n k h =
    let i = find_value n true k h.nonempty in
    let got : Option ℕ = elim (list_at h i) [ [] ↦ none | pt ∷ rest ↦ some pt ] in
    if i == n then none else got

unfoldable pub add : ℕ → ℕ → HintedTrackerLists → HintedTrackerLists
unfolding set_bit
add pt i h = record {
  lists = set h.lists i (pt ∷ list_at h i);
  size = word (h.size + 1);
  nonempty = (set_bit i h.nonempty).1;
}

-- `TList::remove` of an element, without its result.
unfoldable pub erase : ℕ → List ℕ → List ℕ
erase pt [] = []
erase pt (p ∷ ps) = if pt == p then ps else p ∷ erase pt ps

unfoldable pub remove : ℕ → ℕ → HintedTrackerLists → HintedTrackerLists
unfolding erase clear_bit
remove pt i h =
    let rest = erase pt (list_at h i) in
    record {
      lists = set h.lists i rest;
      size = word_sub h.size 1;
      nonempty = if is_empty rest then (clear_bit i h.nonempty).1 else h.nonempty;
    }

abbrev pub size_of_list : ℕ → HintedTrackerLists → ℕ
size_of_list i h = length (list_at h i)
