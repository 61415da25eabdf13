-- ===== src/Bitmap/Ranges.antt =====
-- What `SetBit`, `ClearBit`, `SetRange` and `ClearRange` do to each bit.
use tcmalloc.Base.{
  ℕ, zero, suc, ◌+◌, ◌-◌, ◌*◌, ◌/◌, ◌%◌, ◌≤◌, ◌<◌, min, ◌≡◌, refl, ◌∙◌, inl, inr, Bool, true, false,
  ◌&&◌, arith, ltb, leb, ◌==◌, if◌then◌else◌, ltb→lt, ==_iff, Bool-cases, length, set, length-set,
}
use tcmalloc.Bitmap.Word.{word_size, bit}
use tcmalloc.Bitmap.Masks.{bit-bit_mask, length-bit_mask}
use tcmalloc.Bitmap.Fill.{
  IsWords, IsBitmap, word_at-set, set-IsWords, masked, length-masked, bit-masked,
  set_word_bits-IsWords, bit-set_word_bits, get_bit_at,
}
use tcmalloc.Bitmap.Defs.{
  Bitmap, words, word_at, bit_mask, set_word_bits, get_bit, set_bit, clear_bit, set_loop,
  set_range_value,
}

mask_bit : (value : Bool) (bits : Bitmap) (i : ℕ) → Bitmap
unfolding masked
mask_bit value bits i =
    set bits (i / word_size)
      (masked value (word_at bits (i / word_size)) (bit_mask (i % word_size)))

mask_bit_lem :
    (value : Bool) (n : ℕ) (bits : Bitmap) (i x : ℕ)
    → IsBitmap n bits
    → i < n
    → IsBitmap n (mask_bit value bits i)
      × (get_bit (mask_bit value bits i) x ≡ (if x == i then value else get_bit bits x))
unfolding mask_bit IsBitmap
mask_bit_lem value n bits i x (long, b) h =
    let w = i / word_size in
    let o = i % word_size in
    let here : w < length bits = omega arith in
    let low : o < word_size = omega arith in
    let full : length (word_at bits w) ≡ word_size = unfold IsWords in b w in
    let fits = length-masked value (word_at bits w) (bit_mask o) full (length-bit_mask o) in
    let b' = set-IsWords bits w (masked value (word_at bits w) (bit_mask o)) here fits b in
    let lower : x % word_size < word_size = omega arith in
    (
      (length-set bits w (masked value (word_at bits w) (bit_mask o)) ∙ long, b'),
      rw (get_bit_at (set bits w (masked value (word_at bits w) (bit_mask o))) x b') (
          rw (get_bit_at bits x b) (
            rw
              (word_at-set bits w (x / word_size) (masked value (word_at bits w) (bit_mask o)) here)
              (change value (x / word_size) w (x % word_size) o x i lower full low refl refl refl
                refl))),
    )
  where
    change :
        (value : Bool) (xw w xo o x i : ℕ)
        → xo < word_size
        → length (word_at bits w) ≡ word_size
        → o < word_size
        → x / word_size ≡ xw
        → i / word_size ≡ w
        → x % word_size ≡ xo
        → i % word_size ≡ o
        → bit (if xw == w then masked value (word_at bits w) (bit_mask o) else word_at bits xw) xo
          ≡ (if x == i then value else bit (word_at bits xw) xo)
    change value xw w xo o x i lo full low e1 e2 e3 e4 = elim (Bool-cases (xw == w)) [
      | inl e ↦ rw e (
          rw ((==_iff xw w).0 e) (
            rw (bit-masked value (word_at bits w) (bit_mask o) xo full (length-bit_mask o) lo)
              (rw (bit-bit_mask o xo lo) (rw (agree ((==_iff xw w).0 e)) refl))))
      | inr e ↦ rw e (rw (differ e) refl)
    ]
      where
        agree : xw ≡ w → (xo == o) ≡ (x == i)
        agree e = ground arith

        differ : (xw == w) ≡ false → (x == i) ≡ false
        differ e = ground arith

-- `SetBit(i)` and `ClearBit(i)`, with `i < n`, on a bitmap of `n` bits whose words have their 64
-- bits: both give the old value of bit `i`; afterwards bit `i` is set, or clear, every other bit is
-- as it was, and the words still have their 64 bits.
pub set_bit-clear_bit :
    (n : ℕ) (bits : Bitmap) (i x : ℕ)
    → IsBitmap n bits
    → i < n
    → ((set_bit i bits).0 ≡ get_bit bits i)
      × ((clear_bit i bits).0 ≡ get_bit bits i)
      × IsBitmap n (set_bit i bits).1
      × IsBitmap n (clear_bit i bits).1
      × (get_bit (set_bit i bits).1 x ≡ (if x == i then true else get_bit bits x))
      × (get_bit (clear_bit i bits).1 x ≡ (if x == i then false else get_bit bits x))
unfolding set_bit clear_bit mask_bit masked
set_bit-clear_bit n bits i x b h =
    let (s, t) = mask_bit_lem true n bits i x b h in
    let (u, v) = mask_bit_lem false n bits i x b h in (refl, refl, s, u, t, v)

two_tests :
    (value : Bool) (w n j i : ℕ) (old : Bool)
    → i < word_size
    → (if ltb (w + 1) j && ltb (j * word_size + i) ((w + 1 + 1) * word_size + (n - min n word_size))
        then value
        else (if (j == w + 1) && (leb 0 i && ltb i (min n word_size)) then value else old))
      ≡ (if ltb w j && ltb (j * word_size + i) ((w + 1) * word_size + n) then value else old)
two_tests value w n j i old h = ground arith

-- The words behind `w`, of which `n` bits are filled.
set_loop_lem :
    (fuel : ℕ) (value : Bool) (bits : Bitmap) (w n j i : ℕ)
    → n ≤ fuel
    → (w + 1) * word_size + n ≤ length bits * word_size
    → IsWords bits
    → i < word_size
    → (length (set_loop fuel value bits w n) ≡ length bits)
      × IsWords (set_loop fuel value bits w n)
      × (bit (word_at (set_loop fuel value bits w n) j) i ≡ (
          if ltb w j && ltb (j * word_size + i) ((w + 1) * word_size + n)
          then value
          else bit (word_at bits j) i))
unfolding set_loop
set_loop_lem zero value bits w n j i f h b q = (refl, b, ground arith)
set_loop_lem (suc fuel) value bits w n j i f h b q = elim (Bool-cases (ltb 0 n)) [
  | inr e ↦ rw e (refl, b, ground arith)
  | inl e ↦
      let k = min n word_size in
      let bits' = set_word_bits value bits (w + 1) 0 k in
      let low : k ≤ word_size = omega arith in
      let room : w + 1 < length bits = omega (arith, ltb→lt 0 n e) in
      let (same, b') = set_word_bits-IsWords value bits (w + 1) 0 k room low b in
      let now = bit-set_word_bits value bits (w + 1) 0 k j i room (omega arith) low b q in
      let (l, b'', after) =
        set_loop_lem fuel value bits' (w + 1) (n - k) j i (omega (arith, ltb→lt 0 n e))
          (omega (arith, ltb→lt 0 n e)) b' q in
      rw e (l ∙ same, b'', after ∙ rw now (two_tests value w n j i (bit (word_at bits j) i) q))
]

first_word :
    (value : Bool) (index n j i : ℕ) (old : Bool)
    → 0 < n
    → i < word_size
    → (if ltb (index / word_size) j
          && ltb (j * word_size + i) (
              (index / word_size + 1) * word_size
              + (n - (min (index % word_size + n) word_size - index % word_size)))
        then value
        else (if (j == index / word_size)
              && (leb (index % word_size) i && ltb i (min (index % word_size + n) word_size))
            then value
            else old))
      ≡ (if leb index (j * word_size + i) && ltb (j * word_size + i) (index + n)
          then value
          else old)
first_word value index n j i old p h = ground arith

set_range_value_word :
    (value : Bool) (index n : ℕ) (bits : Bitmap) (j i : ℕ)
    → 0 < n
    → index + n ≤ length bits * word_size
    → IsWords bits
    → i < word_size
    → (length (set_range_value value index n bits) ≡ length bits)
      × IsWords (set_range_value value index n bits)
      × (bit (word_at (set_range_value value index n bits) j) i ≡ (
          if leb index (j * word_size + i) && ltb (j * word_size + i) (index + n)
          then value
          else bit (word_at bits j) i))
unfolding set_range_value
set_range_value_word value index n bits j i p h b q =
    let w = index / word_size in
    let o = index % word_size in
    let k = min (o + n) word_size in
    let bits' = set_word_bits value bits w o k in
    let low : k ≤ word_size = omega arith in
    let room : w < length bits = omega arith in
    let (same, b') = set_word_bits-IsWords value bits w o k room low b in
    let now = bit-set_word_bits value bits w o k j i room (omega arith) low b q in
    let (l, b'', after) =
      set_loop_lem n value bits' w (n - (k - o)) j i (omega arith) (omega arith) b' q in
    (l ∙ same, b'', after ∙ rw now (first_word value index n j i (bit (word_at bits j) i) p q))

pub set_range_value-IsBitmap :
    (value : Bool) (m index n : ℕ) (bits : Bitmap)
    → 0 < n
    → index + n ≤ m
    → IsBitmap m bits
    → IsBitmap m (set_range_value value index n bits)
unfolding IsBitmap
set_range_value-IsBitmap value m index n bits p h (long, b) =
    let (l, b', _) = set_range_value_word value index n bits 0 0 p (omega arith) b (omega arith) in
    (l ∙ long, b')

-- `SetRange(index, n)` and `ClearRange(index, n)`, with `0 < n` and `index + n <= m`, on a bitmap of
-- `m` bits whose words have their 64 bits: afterwards `GetBit(x)` reads 1, or 0, for `x` in
-- `[index, index + n)`, and what it read before for every other `x`; the words still have their 64
-- bits.
pub set_range_value_lem :
    (value : Bool) (m index n : ℕ) (bits : Bitmap) (x : ℕ)
    → 0 < n
    → index + n ≤ m
    → IsBitmap m bits
    → IsBitmap m (set_range_value value index n bits)
      × (get_bit (set_range_value value index n bits) x
          ≡ (if leb index x && ltb x (index + n) then value else get_bit bits x))
set_range_value_lem value m index n bits x p h v =
    let after : IsBitmap m (set_range_value value index n bits) =
      set_range_value-IsBitmap value m index n bits p h v in
    let (long, b) : (length bits ≡ words m) × IsWords bits = unfold IsBitmap in v in
    let (_, b') : (length (set_range_value value index n bits) ≡ words m)
        × IsWords (set_range_value value index n bits) =
      unfold IsBitmap in after in
    let (_, _, e) =
      set_range_value_word value index n bits (x / word_size) (x % word_size) p (omega arith) b
        (omega arith) in
    (
      after,
      rw (get_bit_at (set_range_value value index n bits) x b')
          (rw (get_bit_at bits x b) (e ∙ rw (whole x) refl)),
    )
  where
    whole : (x : ℕ) → x / word_size * word_size + x % word_size ≡ x
    whole x = omega arith
