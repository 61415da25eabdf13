-- ===== src/Bitmap/Word.antt =====
-- A size_t as its 64 bits, the lowest first: the machine operations that `Bitmap` uses.
use tcmalloc.Base.{
  ℕ, suc, ◌+◌, Bool, true, false, not, ◌&&◌, ◌||◌, List, [], ◌∷◌, ◌++◌, if◌then◌else◌, length,
  get_or, take, drop, replicate,
}

abbrev pub word_size : ℕ
word_size = 64

abbrev pub Word : Type 0
Word = List Bool

abbrev pub zeros : Word
zeros = replicate word_size false

-- `~static_cast<size_t>(0)`
abbrev pub all_ones : Word
all_ones = replicate word_size true

unfoldable pub bit : Word → ℕ → Bool
bit w i = get_or w i false

unfoldable pub and : Word → Word → Word
and [] ys = []
and (x ∷ xs) [] = []
and (x ∷ xs) (y ∷ ys) = (x && y) ∷ and xs ys

unfoldable pub or : Word → Word → Word
or [] ys = []
or (x ∷ xs) [] = []
or (x ∷ xs) (y ∷ ys) = (x || y) ∷ or xs ys

unfoldable pub xor : Word → Word → Word
xor [] ys = []
xor (x ∷ xs) [] = []
xor (x ∷ xs) (y ∷ ys) = (if x then not y else y) ∷ xor xs ys

unfoldable pub complement : Word → Word
complement [] = []
complement (x ∷ xs) = not x ∷ complement xs

-- `w << k`: the top bits fall off.
unfoldable pub shift_left : Word → ℕ → Word
shift_left w k = take (length w) (replicate k false ++ w)

-- `w >> k`, for `k` below the width.
unfoldable pub shift_right : Word → ℕ → Word
shift_right w k = drop k w ++ replicate k false

-- `w - 1`, modulo 2 ^ 64.
unfoldable pub decrement : Word → Word
decrement [] = []
decrement (true ∷ w) = false ∷ w
decrement (false ∷ w) = true ∷ decrement w

unfoldable pub is_zero : Word → Bool
is_zero [] = true
is_zero (x ∷ w) = not x && is_zero w

-- `absl::countr_zero`
unfoldable pub countr_zero : Word → ℕ
countr_zero [] = 0
countr_zero (true ∷ w) = 0
countr_zero (false ∷ w) = suc (countr_zero w)

-- `absl::bit_width`
unfoldable pub bit_width : Word → ℕ
bit_width [] = 0
bit_width (x ∷ w) = if is_zero w then (if x then 1 else 0) else suc (bit_width w)

-- `absl::popcount`
unfoldable pub popcount : Word → ℕ
popcount [] = 0
popcount (x ∷ w) = (if x then 1 else 0) + popcount w
