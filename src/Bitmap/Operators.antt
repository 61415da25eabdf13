-- ===== src/Bitmap/Operators.antt =====
-- The binary operators of bitmaps, and the complement.
use tcmalloc.Base.{
  ℕ, zero, suc, ◌-◌, ◌/◌, ◌%◌, ◌≡◌, refl, sym, ap, ◌∙◌, not, ◌&&◌, ◌||◌, [], ◌∷◌, map, arith, ltb,
  if◌then◌else◌, length, set,
}
use tcmalloc.Bitmap.Word.{
  Word, word_size, zeros, all_ones, bit, and, or, xor, complement, shift_right,
}
use tcmalloc.Bitmap.Bits.{length-and, length-or, bit-and, bit-or}
use tcmalloc.Bitmap.Defs.{Bitmap, words, dead_bits, word_at, get_bit}
use tcmalloc.Bitmap.Fill.{IsWords, IsBitmap, get_bit_at}

-- The loop that the operators share: word by word.
unfoldable pub by_word : (Word → Word → Word) → Bitmap → Bitmap → Bitmap
by_word op [] ys = []
by_word op (x ∷ xs) [] = []
by_word op (x ∷ xs) (y ∷ ys) = op x y ∷ by_word op xs ys

-- `&`, `|` and `^`.
unfoldable pub bitmap_and : Bitmap → Bitmap → Bitmap
unfolding by_word and
bitmap_and xs ys = by_word and xs ys

unfoldable pub bitmap_or : Bitmap → Bitmap → Bitmap
unfolding by_word or
bitmap_or xs ys = by_word or xs ys

unfoldable pub bitmap_xor : Bitmap → Bitmap → Bitmap
unfolding by_word xor
bitmap_xor xs ys = by_word xor xs ys

-- `~`, which clears the dead bits.
unfoldable pub bitmap_complement : ℕ → Bitmap → Bitmap
unfolding complement and shift_right word_at
bitmap_complement n bits =
    let inverted = map complement bits in
    let last = words n - 1 in
    if ltb 0 (dead_bits n)
    then set inverted last (and (word_at inverted last) (shift_right all_ones (dead_bits n)))
    else inverted

word_at-by_word :
    (op : Word → Word → Word) (xs ys : Bitmap) (i : ℕ)
    → op zeros zeros ≡ zeros
    → length xs ≡ length ys
    → word_at (by_word op xs ys) i ≡ op (word_at xs i) (word_at ys i)
unfolding by_word word_at
word_at-by_word op [] [] i z h = sym z
word_at-by_word op [] (y ∷ ys) i z h = absurd (omega arith)
word_at-by_word op (x ∷ xs) [] i z h = absurd (omega arith)
word_at-by_word op (x ∷ xs) (y ∷ ys) zero z h = refl
word_at-by_word op (x ∷ xs) (y ∷ ys) (suc i) z h = word_at-by_word op xs ys i z (omega arith)

length-by_word :
    (op : Word → Word → Word) (xs ys : Bitmap)
    → length xs ≡ length ys
    → length (by_word op xs ys) ≡ length xs
unfolding by_word
length-by_word op [] ys h = refl
length-by_word op (x ∷ xs) [] h = absurd (omega arith)
length-by_word op (x ∷ xs) (y ∷ ys) h = ap suc (length-by_word op xs ys (omega arith))

-- An operator on words of 64 bits that keeps the length gives a bitmap of `n` bits.
by_word-IsBitmap :
    (op : Word → Word → Word) (n : ℕ) (xs ys : Bitmap)
    → op zeros zeros ≡ zeros
    → ((x y : Word) → length x ≡ length y → length (op x y) ≡ length x)
    → IsBitmap n xs
    → IsBitmap n ys
    → IsBitmap n (by_word op xs ys)
unfolding IsBitmap IsWords
by_word-IsBitmap op n xs ys z keeps (lx, wx) (ly, wy) = (
  length-by_word op xs ys (omega arith) ∙ lx,
  λ i.
      ap length (word_at-by_word op xs ys i z (omega arith))
      ∙ keeps (word_at xs i) (word_at ys i) (wx i ∙ sym (wy i))
      ∙ wx i,
)

length-xor : (x y : Word) → length x ≡ length y → length (xor x y) ≡ length x
unfolding xor
length-xor [] y h = refl
length-xor (a ∷ x) [] h = absurd (omega arith)
length-xor (a ∷ x) (b ∷ y) h = ap suc (length-xor x y (omega arith))

bit-xor :
    (x y : Word) (i : ℕ)
    → length x ≡ length y
    → bit (xor x y) i ≡ (if bit x i then not (bit y i) else bit y i)
unfolding bit xor
bit-xor [] [] i h = refl
bit-xor [] (b ∷ y) i h = absurd (omega arith)
bit-xor (a ∷ x) [] i h = absurd (omega arith)
bit-xor (a ∷ x) (b ∷ y) zero h = refl
bit-xor (a ∷ x) (b ∷ y) (suc i) h = bit-xor x y i (omega arith)

get_bit-by_word :
    (op : Word → Word → Word) (n : ℕ) (xs ys : Bitmap) (i : ℕ)
    → op zeros zeros ≡ zeros
    → ((x y : Word) → length x ≡ length y → length (op x y) ≡ length x)
    → IsBitmap n xs
    → IsBitmap n ys
    → get_bit (by_word op xs ys) i
      ≡ bit (op (word_at xs (i / word_size)) (word_at ys (i / word_size))) (i % word_size)
get_bit-by_word op n xs ys i z keeps vx vy =
    let v : (length (by_word op xs ys) ≡ words n) × IsWords (by_word op xs ys) =
      unfold IsBitmap in by_word-IsBitmap op n xs ys z keeps vx vy in
    let (lx, _) : (length xs ≡ words n) × IsWords xs = unfold IsBitmap in vx in
    let (ly, _) : (length ys ≡ words n) × IsWords ys = unfold IsBitmap in vy in
    get_bit_at (by_word op xs ys) i v.1
    ∙ ap (λ w. bit w (i % word_size)) (word_at-by_word op xs ys (i / word_size) z (omega arith))

-- `&`, `|` and `^` of two bitmaps of `n` bits whose words have their 64 bits are such bitmaps, and
-- combine them bit by bit.
pub operators_lem :
    (n : ℕ) (xs ys : Bitmap) (i : ℕ)
    → IsBitmap n xs
    → IsBitmap n ys
    → (IsBitmap n (bitmap_and xs ys) × IsBitmap n (bitmap_or xs ys) × IsBitmap n (bitmap_xor xs ys))
      × (get_bit (bitmap_and xs ys) i ≡ get_bit xs i && get_bit ys i)
      × (get_bit (bitmap_or xs ys) i ≡ get_bit xs i || get_bit ys i)
      × (get_bit (bitmap_xor xs ys) i ≡ (if get_bit xs i then not (get_bit ys i) else get_bit ys i))
unfolding bitmap_and bitmap_or bitmap_xor
operators_lem n xs ys i vx vy =
    let (lx, wx) : (length xs ≡ words n) × IsWords xs = unfold IsBitmap in vx in
    let (ly, wy) : (length ys ≡ words n) × IsWords ys = unfold IsBitmap in vy in
    let x = word_at xs (i / word_size) in
    let y = word_at ys (i / word_size) in
    let fx : length x ≡ word_size = unfold IsWords in wx (i / word_size) in
    let fy : length y ≡ word_size = unfold IsWords in wy (i / word_size) in
    let same : length x ≡ length y = fx ∙ sym fy in
    rw (get_bit_at xs i wx) (
      rw (get_bit_at ys i wy) (
        (
          by_word-IsBitmap and n xs ys refl length-and vx vy,
          by_word-IsBitmap or n xs ys refl length-or vx vy,
          by_word-IsBitmap xor n xs ys refl length-xor vx vy,
        ),
        get_bit-by_word and n xs ys i refl length-and vx vy ∙ bit-and x y (i % word_size),
        get_bit-by_word or n xs ys i refl length-or vx vy ∙ bit-or x y (i % word_size) same,
        get_bit-by_word xor n xs ys i refl length-xor vx vy ∙ bit-xor x y (i % word_size) same,
      ))
