-- ===== src/Bitmap/Bits.antt =====
-- What each machine operation does to the bits of a word.
use tcmalloc.Base.{
  ℕ, zero, suc, ◌+◌, ◌-◌, ◌≤◌, ◌<◌, ◌≡◌, refl, ap, inl, inr, Bool, true, false, not, ◌&&◌, ◌||◌, [],
  ◌∷◌, ◌++◌, arith, ltb, leb, ◌==◌, if◌then◌else◌, Bool-cases, length, length-append, get_or, take,
  drop, replicate, length-take, length-replicate,
}
use native.Mathlib.Nat.{zero-add}
use tcmalloc.Bitmap.Word.{
  Word, word_size, all_ones, bit, and, or, complement, shift_left, decrement, is_zero, countr_zero,
  bit_width,
}

pub bit-and : (x y : Word) (i : ℕ) → bit (and x y) i ≡ bit x i && bit y i
unfolding bit and
bit-and [] y i = refl
bit-and (a ∷ x) [] zero = ground arith
bit-and (a ∷ x) [] (suc i) = ground arith
bit-and (a ∷ x) (b ∷ y) zero = refl
bit-and (a ∷ x) (b ∷ y) (suc i) = bit-and x y i

pub bit-or : (x y : Word) (i : ℕ) → length x ≡ length y → bit (or x y) i ≡ bit x i || bit y i
unfolding bit or
bit-or [] [] i h = refl
bit-or [] (b ∷ y) i h = absurd (omega arith)
bit-or (a ∷ x) [] i h = absurd (omega arith)
bit-or (a ∷ x) (b ∷ y) zero h = refl
bit-or (a ∷ x) (b ∷ y) (suc i) h = bit-or x y i (omega arith)

pub bit-complement : (x : Word) (i : ℕ) → i < length x → bit (complement x) i ≡ not (bit x i)
unfolding bit complement
bit-complement [] i h = absurd (omega arith)
bit-complement (a ∷ x) zero h = refl
bit-complement (a ∷ x) (suc i) h = bit-complement x i (omega arith)

pub length-and : (x y : Word) → length x ≡ length y → length (and x y) ≡ length x
unfolding and
length-and [] y h = refl
length-and (a ∷ x) [] h = absurd (omega arith)
length-and (a ∷ x) (b ∷ y) h = ap suc (length-and x y (omega arith))

pub length-or : (x y : Word) → length x ≡ length y → length (or x y) ≡ length x
unfolding or
length-or [] y h = refl
length-or (a ∷ x) [] h = absurd (omega arith)
length-or (a ∷ x) (b ∷ y) h = ap suc (length-or x y (omega arith))

pub length-complement : (x : Word) → length (complement x) ≡ length x
unfolding complement
length-complement [] = refl
length-complement (a ∷ x) = ap suc (length-complement x)

bit-take : (k : ℕ) (x : Word) (i : ℕ) → bit (take k x) i ≡ ltb i k && bit x i
unfolding bit
bit-take zero x i = ground arith
bit-take (suc k) [] i = ground arith
bit-take (suc k) (a ∷ x) zero = ground arith
bit-take (suc k) (a ∷ x) (suc i) = ground (arith, bit-take k x i)

pub bit-replicate-append :
    (k : ℕ) (b : Bool) (x : Word) (i : ℕ)
    → bit (replicate k b ++ x) i ≡ (if ltb i k then b else bit x (i - k))
unfolding bit
bit-replicate-append zero b x i = ground arith
bit-replicate-append (suc k) b x zero = ground arith
bit-replicate-append (suc k) b x (suc i) = ground (arith, bit-replicate-append k b x i)

pub length-shift_left : (x : Word) (k : ℕ) → length (shift_left x k) ≡ length x
unfolding shift_left
length-shift_left x k = omega (
  arith,
  length-take (length x) (replicate k false ++ x),
  length-append (replicate k false) x,
  length-replicate k false,
)

pub bit-shift_left :
    (x : Word) (k i : ℕ) → i < length x → bit (shift_left x k) i ≡ leb k i && bit x (i - k)
unfolding shift_left
bit-shift_left x k i h =
    ground (arith, bit-take (length x) (replicate k false ++ x) i, bit-replicate-append k false x i)

pub bit-replicate :
    (k : ℕ) (b : Bool) (i : ℕ) → bit (replicate k b) i ≡ (if ltb i k then b else false)
unfolding bit
bit-replicate zero b i = ground arith
bit-replicate (suc k) b zero = ground arith
bit-replicate (suc k) b (suc i) = ground (arith, bit-replicate k b i)

pub bit-all_ones : (i : ℕ) → bit all_ones i ≡ ltb i word_size
bit-all_ones i = ground (arith, bit-replicate 64 true i)

pub bit-drop : (k : ℕ) (x : Word) (i : ℕ) → bit (drop k x) i ≡ bit x (k + i)
unfolding bit
bit-drop zero x i = rw zero-add
bit-drop (suc k) [] i = ground arith
bit-drop (suc k) (a ∷ x) i = ground (arith, bit-drop k x i)

-- The lowest set bit.
pub countr_zero_lem :
    (x : Word)
    → is_zero x ≡ false
    → (bit x (countr_zero x) ≡ true)
      × (countr_zero x < length x)
      × ((j : ℕ) → j < countr_zero x → bit x j ≡ false)
unfolding is_zero countr_zero bit
countr_zero_lem [] h = cc
countr_zero_lem (true ∷ x) h = (refl, omega arith, λ j q. absurd (omega arith))
countr_zero_lem (false ∷ x) h = let (a, b, c) = countr_zero_lem x h in (a, omega arith, below x c)
  where
    below :
        (x : Word)
        → ((j : ℕ) → j < countr_zero x → get_or x j false ≡ false)
        → (j : ℕ) → j < suc (countr_zero x)
        → get_or (false ∷ x) j false ≡ false
    below x c zero q = refl
    below x c (suc j) q = c j (omega arith)

pub is_zero_lem : (x : Word) (i : ℕ) → is_zero x ≡ true → bit x i ≡ false
unfolding is_zero bit
is_zero_lem [] i h = refl
is_zero_lem (a ∷ x) zero h = ground arith
is_zero_lem (a ∷ x) (suc i) h = is_zero_lem x i (ground arith)

-- The highest set bit.
pub bit_width-above : (x : Word) (j : ℕ) → bit_width x ≤ j → bit x j ≡ false
unfolding bit_width bit
bit_width-above [] j h = refl
bit_width-above (a ∷ x) zero h = ground arith
bit_width-above (a ∷ x) (suc j) h = elim (Bool-cases (is_zero x)) [
  | inl z ↦ unfold bit in is_zero_lem x j z
  | inr z ↦ bit_width-above x j (ground arith)
]

pub bit_width_lem :
    (x : Word)
    → is_zero x ≡ false
    → (0 < bit_width x) × (bit_width x ≤ length x) × (bit x (bit_width x - 1) ≡ true)
unfolding is_zero bit_width bit
bit_width_lem [] h = cc
bit_width_lem (a ∷ x) h = elim (Bool-cases (is_zero x)) [
  | inl z ↦ ground arith
  | inr z ↦ rw z (last (bit_width x) (bit_width_lem x z))
]
  where
    last :
        (k : ℕ)
        → (0 < k) × (k ≤ length x) × (get_or x (k - 1) false ≡ true)
        → (0 < suc k) × (suc k ≤ suc (length x)) × (get_or (a ∷ x) (suc k - 1) false ≡ true)
    last zero (p, q, r) = absurd (omega arith)
    last (suc k) (p, q, r) = (omega arith, omega arith, ground arith)

-- `decrement` of a word whose lowest set bit is at `k`: ones below `k`, a zero at `k`, and the rest
-- as it was.
bit-decrement :
    (k : ℕ) (x : Word) (i : ℕ)
    → bit (decrement (replicate k false ++ true ∷ x)) i
      ≡ (if ltb i k then true else if i == k then false else bit (replicate k false ++ true ∷ x) i)
unfolding decrement bit
bit-decrement zero x zero = refl
bit-decrement zero x (suc i) = ground arith
bit-decrement (suc k) x zero = ground arith
bit-decrement (suc k) x (suc i) = ground (arith, bit-decrement k x i)
