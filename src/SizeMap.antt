-- ===== src/SizeMap.antt =====
-- The size classes of tcmalloc/sizemap.cc and sizemap.h: the index of a size and the checks of a
-- table of classes. `Span::IsValidSizeClass` and `HugePageAwareAllocator::IsValidSizeClass`, of
-- other components, are the parameters `span_valid` and `hpaa_valid`. The constants are those of
-- 8 KiB pages.
use tcmalloc.Base.{
  ℕ, ◌+◌, ◌-◌, ◌*◌, ◌/◌, ◌%◌, ◌^◌, Bool, false, not, ◌&&◌, Option, none, some, List, [], ◌∷◌, ltb,
  leb, ◌==◌, if◌then◌else◌, take,
}
use tcmalloc.Pages.Length.{in_bytes, bytes_to_length_floor}
pub mod Classes

abbrev pub large_size : ℕ
large_size = 1024

abbrev pub max_size : ℕ
max_size = 256 * 1024

abbrev pub num_base_classes : ℕ
num_base_classes = 86

abbrev pub class_array_size : ℕ
class_array_size = (max_size + 127 + 120 * 2 ^ 7) / 2 ^ 7 + 1

-- `ClassIndexMaybe`
unfoldable pub class_index_maybe : ℕ → Option ℕ
class_index_maybe s =
    if leb s large_size
    then some ((s + 7) / 2 ^ 3)
    else if leb s max_size
    then some ((s + 127 + 120 * 128) / 2 ^ 7)
    else none

pub record SizeClassInfo : Type 0 where
  pub size : ℕ
  pub bytes : ℕ
  pub num_to_move : ℕ

module _ (span_valid hpaa_valid : ℕ → ℕ → Bool) where
  -- `SizeMap::IsValidSizeClass`; `size & (alignment - 1)` is the remainder, the alignment being a
  -- power of 2.
  unfoldable pub is_valid_size_class : ℕ → ℕ → ℕ → Bool
  unfolding in_bytes
  is_valid_size_class size pages num_objects_to_move =
      not (size == 0)
      && leb size max_size
      && (size % (if ltb large_size size then 128 else 8) == 0)
      && not (pages == 0)
      && leb pages 32
      && leb 1 (in_bytes pages / size)
      && span_valid size pages
      && hpaa_valid size pages
      && leb 2 num_objects_to_move
      && leb num_objects_to_move 128

  -- The loop of `ValidSizeClasses` and the check behind it; `prev` is the size of the class before.
  unfoldable pub valid_from : ℕ → List SizeClassInfo → Bool
  unfolding is_valid_size_class bytes_to_length_floor in_bytes
  valid_from prev [] = prev == max_size
  valid_from prev (x ∷ xs) =
      let pages = bytes_to_length_floor x.bytes in
      (in_bytes pages == x.bytes)
      && ltb prev x.size
      && is_valid_size_class x.size pages x.num_to_move
      && valid_from x.size xs

  unfoldable pub valid_size_classes : List SizeClassInfo → Bool
  unfolding valid_from
  valid_size_classes [] = false
  valid_size_classes (x ∷ xs) =
      (x.size == 0)
      && (x.bytes == 0)
      && (x.num_to_move == 0)
      && valid_from 0 (take (num_base_classes - 1) xs)
