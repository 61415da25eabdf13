-- ===== src/Pages/Length.antt =====
-- `Length` of tcmalloc/pages.h: a number of pages. The `TC_ASSERT`s are checked in debug builds
-- alone, so an operation is modelled as the arithmetic that a release build does.
use tcmalloc.Base.{ℕ, ◌+◌, ◌-◌, ◌*◌, ◌/◌, ◌%◌, ◌^◌, ◌≤◌, ◌<◌, ◌≡◌, arith, ltb, if◌then◌else◌}

-- A size_t or uintptr_t result wraps.
abbrev pub word : ℕ → ℕ
word n = n % 2 ^ 64

-- Subtraction of unsigned words.
abbrev pub word_sub : ℕ → ℕ → ℕ
word_sub a b = (a + 2 ^ 64 - b) % 2 ^ 64

abbrev pub page_shift : ℕ
page_shift = 13

abbrev pub page_size : ℕ
page_size = 2 ^ page_shift

unfoldable pub in_bytes : ℕ → ℕ
in_bytes n = word (n * page_size)

abbrev pub max_length : ℕ
max_length = (2 ^ 64 - 1) / 2 ^ page_shift

abbrev pub add : ℕ → ℕ → ℕ
add a b = word (a + b)

abbrev pub sub : ℕ → ℕ → ℕ
sub a b = word_sub a b

abbrev pub mul : ℕ → ℕ → ℕ
mul a k = word (a * k)

-- The operators `/` by a number and by a `Length`: `TC_ASSERT_NE` forbids a zero divisor.
abbrev pub div : ℕ → ℕ → ℕ
div a k = a / k

abbrev pub mod' : ℕ → ℕ → ℕ
mod' a b = a % b

unfoldable pub from_bytes : ℕ → ℕ
from_bytes bytes = bytes / 2 ^ page_shift

-- `bytes & (kPageSize - 1)` keeps the low page_shift bits.
unfoldable pub bytes_to_length_ceil : ℕ → ℕ
bytes_to_length_ceil bytes =
    word (bytes / 2 ^ page_shift + (if ltb 0 (bytes % page_size) then 1 else 0))

unfoldable pub bytes_to_length_floor : ℕ → ℕ
bytes_to_length_floor bytes = bytes / 2 ^ page_shift

-- For every byte count of 64 bits, the rounded-up length is the least number of pages that holds
-- it (counted without wrap-around), it exceeds the rounded-down length by at most one, and it is
-- at most one more than the longest length.
pub bytes_to_length_ceil-least :
    (bytes k : ℕ)
    → bytes < 2 ^ 64
    → (bytes ≤ bytes_to_length_ceil bytes * page_size)
      × (bytes ≤ k * page_size → bytes_to_length_ceil bytes ≤ k)
      × (bytes_to_length_floor bytes ≤ bytes_to_length_ceil bytes)
      × (bytes_to_length_ceil bytes ≤ bytes_to_length_floor bytes + 1)
      × (bytes_to_length_ceil bytes ≤ max_length + 1)
unfolding bytes_to_length_ceil bytes_to_length_floor
bytes_to_length_ceil-least bytes k h = ground arith

-- Every length up to `Length::max()` comes back from its byte count, by each of the three
-- conversions: `in_bytes` does not wrap there.
pub from_bytes-in_bytes :
    (n : ℕ)
    → n ≤ max_length
    → (from_bytes (in_bytes n) ≡ n)
      × (bytes_to_length_ceil (in_bytes n) ≡ n)
      × (bytes_to_length_floor (in_bytes n) ≡ n)
unfolding from_bytes in_bytes bytes_to_length_ceil bytes_to_length_floor
from_bytes-in_bytes n h = ground arith
