-- ===== src/Tests/Bits.antt =====
-- A bitmap of 100 bits, two words.
use tcmalloc.Base.{
  ℕ, ◌+◌, ◌≤◌, ◌<◌, ◌≡◌, true, false, not, ◌&&◌, ◌||◌, arith, ltb, leb, if◌then◌else◌,
}
use tcmalloc.Bitmap.Defs.{next_free_range, Bitmap, cleared, get_bit, set_range_value, find_value}
use tcmalloc.Bitmap.Fill.{get_bit-cleared, cleared-IsBitmap, IsBitmap}
use tcmalloc.Bitmap.Ranges.{set_range_value-IsBitmap, set_range_value_lem}
use tcmalloc.Bitmap.FreeRange.{FreeRange, next_free_range_lem}
use tcmalloc.Bitmap.Operators.{bitmap_and, bitmap_or, bitmap_xor, operators_lem}
use tcmalloc.Bitmap.Find.{wanted, find_value_lem}

-- The first ten bits.
abbrev ones : Bitmap
ones = set_range_value true 0 10 (cleared 100)

set_range_value_lem_example :
    IsBitmap 100 (set_range_value true 60 10 (cleared 100))
    × (get_bit (set_range_value true 60 10 (cleared 100)) 65
        ≡ (if leb 60 65 && ltb 65 (60 + 10) then true else get_bit (cleared 100) 65))
set_range_value_lem_example =
    set_range_value_lem true 100 60 10 (cleared 100) 65 (omega arith) (omega arith)
      (cleared-IsBitmap 100)

find_value_lem_example :
    (5 ≤ find_value 100 false 5 (cleared 100))
    × (find_value 100 false 5 (cleared 100) ≤ 100)
    × ((x : ℕ)
        → 5 ≤ x
        → x < find_value 100 false 5 (cleared 100)
        → wanted false (cleared 100) x ≡ false)
    × (find_value 100 false 5 (cleared 100) < 100
        → wanted false (cleared 100) (find_value 100 false 5 (cleared 100)) ≡ true)
find_value_lem_example =
    find_value_lem 100 false 5 (cleared 100) (omega arith) (cleared-IsBitmap 100)
      (λ e. absurd (ground arith))

operators_lem_example :
    (IsBitmap 100 (bitmap_and ones (cleared 100))
      × IsBitmap 100 (bitmap_or ones (cleared 100))
      × IsBitmap 100 (bitmap_xor ones (cleared 100)))
    × (get_bit (bitmap_and ones (cleared 100)) 3 ≡ get_bit ones 3 && get_bit (cleared 100) 3)
    × (get_bit (bitmap_or ones (cleared 100)) 3 ≡ get_bit ones 3 || get_bit (cleared 100) 3)
    × (get_bit (bitmap_xor ones (cleared 100)) 3
        ≡ (if get_bit ones 3 then not (get_bit (cleared 100) 3) else get_bit (cleared 100) 3))
operators_lem_example =
    operators_lem 100 ones (cleared 100) 3
      (set_range_value-IsBitmap true 100 0 10 (cleared 100) (omega arith) (omega arith)
        (cleared-IsBitmap 100))
      (cleared-IsBitmap 100)

next_free_range_lem_example : FreeRange 100 5 (cleared 100) (next_free_range 100 5 (cleared 100))
next_free_range_lem_example =
    next_free_range_lem 100 5 (cleared 100) (omega arith) (cleared-IsBitmap 100)
      (λ x p. get_bit-cleared 100 x)
