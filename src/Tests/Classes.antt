-- ===== src/Tests/Classes.antt =====
-- A table of two size classes besides class 0.
use tcmalloc.Base.{
  ℕ, ◌+◌, ◌≤◌, ◌<◌, ◌≡◌, refl, Bool, true, some, List, [], ◌∷◌, arith, get_elem?, take,
}
use tcmalloc.SizeMap.{SizeClassInfo, class_index_maybe, class_array_size, valid_size_classes}
use tcmalloc.SizeMap.Classes.{
  Sound, Increasing, LeastFit, valid_size_classes_lem, class_index_maybe_lem,
}

abbrev no_class : SizeClassInfo
no_class = record { size = 0; bytes = 0; num_to_move = 0 }

abbrev two_classes : List SizeClassInfo
two_classes =
    record { size = 8; bytes = 8192; num_to_move = 32 }
    ∷ record { size = 262144; bytes = 262144; num_to_move = 2 }
    ∷ []

abbrev always : ℕ → ℕ → Bool
always size pages = true

valid_size_classes_lem_example :
    ((c : ℕ) (y : SizeClassInfo)
      → get_elem? (take 85 two_classes) c ≡ some y
      → Sound always always y)
    × Increasing (take 85 two_classes)
    × LeastFit 100 (take 85 two_classes)
unfolding valid_size_classes
valid_size_classes_lem_example =
    valid_size_classes_lem always always no_class two_classes 100 refl (omega arith) (omega arith)

-- The indices of 1000 and 1003.
abbrev index_low : ℕ
index_low = 125

abbrev index_high : ℕ
index_high = 126

class_index_maybe_lem_example :
    (index_low ≤ index_high)
    × (index_high < class_array_size)
    × (index_low ≡ index_high → 1003 < 1000 + 128)
    × (index_low ≡ index_high → 1003 ≤ 1024 → 1003 < 1000 + 8)
unfolding class_index_maybe
class_index_maybe_lem_example =
    class_index_maybe_lem 1000 1003 index_low index_high (omega arith) refl refl
