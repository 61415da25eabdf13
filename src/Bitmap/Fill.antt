-- ===== src/Bitmap/Fill.antt =====
-- The bits of a bitmap, and what the operations that write do to each.
use tcmalloc.Base.{
  ℕ, ◌+◌, ◌-◌, ◌*◌, ◌/◌, ◌%◌, ◌≤◌, ◌<◌, ◌≡◌, refl, ap, ◌∙◌, inl, inr, Bool, true, false, not, ◌&&◌,
  arith, ltb, leb, ◌==◌, if◌then◌else◌, ==_iff, Bool-cases, length, set, length-set, get_or,
  length-replicate, get_or-set, get_or-replicate,
}
use tcmalloc.Bitmap.Word.{zeros, countr_zero, Word, word_size, bit, and, or, complement, is_zero}
use tcmalloc.Bitmap.Bits.{
  bit-and, bit-or, bit-complement, length-and, length-or, length-complement, is_zero_lem,
  countr_zero_lem,
}
use tcmalloc.Bitmap.Masks.{bit-range_mask, bit-bit_mask, length-range_mask, length-bit_mask}
use tcmalloc.Bitmap.Defs.{
  cleared, words, Bitmap, words, word_at, range_mask, bit_mask, set_word_bits, get_bit,
}

-- Each of the words has its 64 bits.
unfoldable pub IsWords : Bitmap → Type 0
IsWords bits = (i : ℕ) → length (word_at bits i) ≡ word_size

-- A bitmap of `n` bits.
unfoldable pub IsBitmap : ℕ → Bitmap → Type 0
IsBitmap n bits = (length bits ≡ words n) × IsWords bits

pub word_at-set :
    (bits : Bitmap) (w j : ℕ) (v : Word)
    → w < length bits
    → word_at (set bits w v) j ≡ (if j == w then v else word_at bits j)
unfolding word_at
word_at-set bits w j v h = get_or-set bits w j v zeros h

pub set-IsWords :
    (bits : Bitmap) (w : ℕ) (v : Word)
    → w < length bits
    → length v ≡ word_size
    → IsWords bits
    → IsWords (set bits w v)
unfolding IsWords
set-IsWords bits w v h e b j = ground (arith, word_at-set bits w j v h, b j)

-- `mask` set in a word, or cleared.
unfoldable pub masked : Bool → Word → Word → Word
unfolding and or complement
masked value word mask = if value then or word mask else and word (complement mask)

pub length-masked :
    (value : Bool) (word mask : Word)
    → length word ≡ word_size
    → length mask ≡ word_size
    → length (masked value word mask) ≡ word_size
unfolding masked
length-masked true word mask h k = omega (arith, length-or word mask (omega arith))
length-masked false word mask h k = omega (
  arith,
  length-and word (complement mask) (omega (arith, length-complement mask)),
  length-complement mask,
)

pub bit-masked :
    (value : Bool) (word mask : Word) (i : ℕ)
    → length word ≡ word_size
    → length mask ≡ word_size
    → i < word_size
    → bit (masked value word mask) i ≡ (if bit mask i then value else bit word i)
unfolding masked
bit-masked true word mask i h k l = ground (arith, bit-or word mask i (omega arith))
bit-masked false word mask i h k l =
    ground (arith, bit-and word (complement mask) i, bit-complement mask i (omega arith))

set_word_bits-masked :
    (value : Bool) (bits : Bitmap) (w from to : ℕ)
    → set_word_bits value bits w from to
      ≡ set bits w (masked value (word_at bits w) (range_mask (to - from) from))
unfolding set_word_bits masked
set_word_bits-masked true bits w from to = refl
set_word_bits-masked false bits w from to = refl

pub set_word_bits-IsWords :
    (value : Bool) (bits : Bitmap) (w from to : ℕ)
    → w < length bits
    → to ≤ word_size
    → IsWords bits
    → (length (set_word_bits value bits w from to) ≡ length bits)
      × IsWords (set_word_bits value bits w from to)
set_word_bits-IsWords value bits w from to h t b = rw (set_word_bits-masked value bits w from to) (
  length-set bits w (masked value (word_at bits w) (range_mask (to - from) from)),
  set-IsWords bits w (masked value (word_at bits w) (range_mask (to - from) from)) h
      (length-masked value (word_at bits w) (range_mask (to - from) from) (unfold IsWords in b w)
        (length-range_mask (to - from) from (omega arith)))
      b,
)

pub bit-set_word_bits :
    (value : Bool) (bits : Bitmap) (w from to j i : ℕ)
    → w < length bits
    → from ≤ to
    → to ≤ word_size
    → IsWords bits
    → i < word_size
    → bit (word_at (set_word_bits value bits w from to) j) i
      ≡ (if (j == w) && (leb from i && ltb i to) then value else bit (word_at bits j) i)
bit-set_word_bits value bits w from to j i h l t b q =
    let mask : Word = range_mask (to - from) from in
    let long : length mask ≡ word_size = length-range_mask (to - from) from (omega arith) in
    let there : length (word_at bits w) ≡ word_size = unfold IsWords in b w in
    rw (set_word_bits-masked value bits w from to) (
      rw (word_at-set bits w j (masked value (word_at bits w) mask) h) (elim (Bool-cases (j == w)) [
        | inl e ↦ rw e (
            rw ((==_iff j w).0 e) (
              ground (
                arith,
                bit-masked value (word_at bits w) mask i there long q,
                bit-range_mask (to - from) from i (omega arith) q,
              )))
        | inr e ↦ rw e refl
      ]))

bit-mask_out :
    (x : Word) (offset i : ℕ)
    → i < word_size
    → bit (and x (bit_mask offset)) i ≡ bit x i && (i == offset)
bit-mask_out x offset i h = ground (arith, bit-and x (bit_mask offset) i, bit-bit_mask offset i h)

-- A word under a mask of one bit is zero just when it does not have the bit.
test_bit :
    (x : Word) (offset : ℕ)
    → length x ≡ word_size
    → offset < word_size
    → not (is_zero (and x (bit_mask offset))) ≡ bit x offset
test_bit x offset h l = elim (Bool-cases (is_zero (and x (bit_mask offset)))) [
  | inl e ↦
      ground (arith, is_zero_lem (and x (bit_mask offset)) offset e, bit-mask_out x offset offset l)
  | inr e ↦
      let c = countr_zero (and x (bit_mask offset)) in
      let (on, below, least) = countr_zero_lem (and x (bit_mask offset)) e in
      let wide : length (and x (bit_mask offset)) ≡ length x =
        length-and x (bit_mask offset) (omega (arith, length-bit_mask offset)) in
      let q : c < word_size = omega arith in
      let same : c ≡ offset = ground (arith, bit-mask_out x offset c q) in
      ground (arith, bit-mask_out x offset c q, ap (bit x) same)
]

-- `GetBit` reads bit `i % 64` of word `i / 64`.
pub get_bit_word :
    (bits : Bitmap) (w i : ℕ)
    → IsWords bits
    → i < word_size
    → get_bit bits (w * word_size + i) ≡ bit (word_at bits w) i
unfolding get_bit
get_bit_word bits w i b h =
    rw (word_of w i h)
      (rw (offset_of w i h) (test_bit (word_at bits w) i (unfold IsWords in b w) h))
  where
    word_of : (w i : ℕ) → i < word_size → (w * word_size + i) / word_size ≡ w
    word_of w i h = omega arith

    offset_of : (w i : ℕ) → i < word_size → (w * word_size + i) % word_size ≡ i
    offset_of w i h = omega arith

pub get_bit_at :
    (bits : Bitmap) (x : ℕ)
    → IsWords bits
    → get_bit bits x ≡ bit (word_at bits (x / word_size)) (x % word_size)
unfolding get_bit
get_bit_at bits x b =
    test_bit (word_at bits (x / word_size)) (x % word_size) (unfold IsWords in b (x / word_size))
      (omega arith)

-- The constructor's bitmap, and that of `Clear`, has words of 64 bits and no bit set.
pub cleared-IsBitmap : (n : ℕ) → IsBitmap n (cleared n)
unfolding IsBitmap IsWords cleared word_at
cleared-IsBitmap n =
    (length-replicate (words n) zeros, λ i. ap length (get_or-replicate (words n) zeros i))

pub get_bit-cleared : (n x : ℕ) → get_bit (cleared n) x ≡ false
unfolding IsBitmap word_at cleared bit
get_bit-cleared n x =
    let b = (cleared-IsBitmap n).1 in
    get_bit_at (cleared n) x b
    ∙ ap (λ w. get_or w (x % word_size) false) (get_or-replicate (words n) zeros (x / word_size))
    ∙ get_or-replicate word_size false (x % word_size)
