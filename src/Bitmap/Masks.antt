-- ===== src/Bitmap/Masks.antt =====
-- The masks that the bitmap builds, bit by bit.
use tcmalloc.Base.{
  ℕ, zero, suc, ◌+◌, ◌-◌, ◌≤◌, ◌<◌, ◌≡◌, refl, Bool, true, false, ◌&&◌, ◌∷◌, arith, ltb, leb, ◌==◌,
  length, length-append, drop, replicate, length-drop, length-replicate, get_or-replicate,
}
use tcmalloc.Bitmap.Word.{word_size, all_ones, bit, shift_right}
use tcmalloc.Bitmap.Bits.{bit-shift_left, bit-replicate, bit-replicate-append, length-shift_left}
use tcmalloc.Bitmap.Defs.{range_mask, bit_mask}

pub length-range_mask : (k from : ℕ) → k ≤ word_size → length (range_mask k from) ≡ word_size
unfolding range_mask shift_right
length-range_mask k from h = omega (
  arith,
  length-shift_left (shift_right all_ones (word_size - k)) from,
  length-append (drop (word_size - k) all_ones) (replicate (word_size - k) false),
  length-drop (word_size - k) all_ones,
  length-replicate (word_size - k) false,
  length-replicate word_size true,
)

sub_zero : (n : ℕ) → n - 0 ≡ n
sub_zero n = omega arith

zero_sub : (n : ℕ) → 0 - n ≡ 0
zero_sub n = omega arith

sub_suc : (n j : ℕ) → suc n - suc j ≡ n - j
sub_suc n j = omega arith

drop-replicate : (j n : ℕ) (b : Bool) → drop j (replicate n b) ≡ replicate (n - j) b
drop-replicate zero n b = rw (sub_zero n) refl
drop-replicate (suc j) zero b = rw (zero_sub (suc j)) refl
drop-replicate (suc j) (suc n) b = rw (sub_suc n j) (drop-replicate j n b)

bit-ones_from :
    (j : ℕ) (i : ℕ) → j ≤ word_size → bit (shift_right all_ones j) i ≡ ltb i (word_size - j)
unfolding shift_right
bit-ones_from j i h = rw (drop-replicate j 64 true) (
    ground (
      arith,
      bit-replicate-append (64 - j) true (replicate j false) i,
      bit-replicate j false (i - (64 - j)),
    ))

length-ones_from : (j : ℕ) → j ≤ word_size → length (shift_right all_ones j) ≡ word_size
unfolding shift_right
length-ones_from j h = omega (
  arith,
  length-append (drop j all_ones) (replicate j false),
  length-drop j all_ones,
  length-replicate j false,
  length-replicate word_size true,
)

pub bit-range_mask :
    (k from i : ℕ)
    → from + k ≤ word_size
    → i < word_size
    → bit (range_mask k from) i ≡ leb from i && ltb i (from + k)
unfolding range_mask
bit-range_mask k from i h l = ground (
  arith,
  bit-shift_left (shift_right all_ones (word_size - k)) from i below,
  bit-ones_from (word_size - k) (i - from) (omega arith),
)
  where
    below : i < length (shift_right all_ones (word_size - k))
    below = omega (arith, length-ones_from (word_size - k) (omega arith))

pub length-bit_mask : (offset : ℕ) → length (bit_mask offset) ≡ word_size
unfolding bit_mask
length-bit_mask offset = length-shift_left (true ∷ replicate 63 false) offset

bit-one : (j : ℕ) → bit (true ∷ replicate 63 false) j ≡ (j == 0)
unfolding bit
bit-one zero = refl
bit-one (suc j) = ground (arith, get_or-replicate 63 false j)

pub bit-bit_mask : (offset i : ℕ) → i < word_size → bit (bit_mask offset) i ≡ (i == offset)
unfolding bit_mask
bit-bit_mask offset i h =
    ground (arith, bit-shift_left (true ∷ replicate 63 false) offset i h, bit-one (i - offset))
