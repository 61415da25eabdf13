-- ===== src/Bitmap/Backwards.antt =====
-- `FindValueBackwards`: the search from an index down to 0.
use tcmalloc.Base.{
  ℕ, zero, suc, ◌+◌, ◌-◌, ◌*◌, ◌/◌, ◌%◌, ◌≤◌, ◌<◌, ◌≡◌, refl, subst, sym, ap, ◌∙◌, inl, inr, Bool,
  true, false, not, ◌&&◌, Option, none, some, [], ◌∷◌, arith, ℕ_discrete, dec_lt, leb, ◌==◌, ==_iff,
  Bool-cases, length, replicate,
}
use tcmalloc.Bitmap.Word.{Word, word_size, bit, and, shift_left, decrement, is_zero, bit_width}
use tcmalloc.Bitmap.Bits.{
  length-shift_left, bit-and, length-and, is_zero_lem, bit_width_lem, bit_width-above,
}
use tcmalloc.Bitmap.Fill.{IsWords, IsBitmap}
use tcmalloc.Bitmap.Defs.{Bitmap, word_at, goal_word, find_back_loop, find_value_backwards}
use tcmalloc.Bitmap.Search.{seen, length-goal_word}
use tcmalloc.Bitmap.Find.{wanted, bit-goal_word}

-- The last place below `hi` where `test` holds.
unfoldable pub FoundLast : (ℕ → Bool) → ℕ → Option ℕ → Type 0
FoundLast test hi none = (x : ℕ) → x < hi → test x ≡ false
FoundLast test hi (some f) =
    (f < hi) × (test f ≡ true) × ((x : ℕ) → f < x → x < hi → test x ≡ false)

FoundLast-above :
    (o : Option ℕ) (test test' : ℕ → Bool) (lo hi : ℕ)
    → lo ≤ hi
    → ((x : ℕ) → x < lo → test' x ≡ test x)
    → ((x : ℕ) → lo ≤ x → x < hi → test x ≡ false)
    → FoundLast test' lo o
    → FoundLast test hi o
unfolding FoundLast
FoundLast-above none test test' lo hi h same high f = missing
  where
    missing : (x : ℕ) → x < hi → test x ≡ false
    missing x q = elim (dec_lt x lo) [
      | yes l ↦ sym (same x l) ∙ f x l
      | no g ↦ high x (omega arith) q
    ]
FoundLast-above (some k) test test' lo hi h same high (a, t, f) =
    (omega arith, sym (same k a) ∙ t, after)
  where
    after : (x : ℕ) → k < x → x < hi → test x ≡ false
    after x p q = elim (dec_lt x lo) [
      | yes l ↦ sym (same x l) ∙ f x p l
      | no g ↦ high x (omega arith) q
    ]

seen_word :
    (goal : Bool) (bits : Bitmap) (word : ℕ) (here : Word) (x : ℕ)
    → word * word_size ≤ x
    → x < (word + 1) * word_size
    → seen goal bits word here x ≡ bit here (x - word * word_size)
unfolding seen
seen_word goal bits word here x p q =
    let w : x / word_size ≡ word = omega arith in
    let o : x % word_size ≡ x - word * word_size = omega arith in
    rw w (rw (==_self word) (ap (bit here) o))
  where
    ==_self : (w : ℕ) → (w == w) ≡ true
    ==_self w = ground arith

seen_below :
    (goal : Bool) (bits : Bitmap) (word : ℕ) (here : Word) (x : ℕ)
    → x < (word + 1) * word_size
    → seen goal bits word (goal_word goal (word_at bits word)) x ≡ seen goal bits (suc word) here x
unfolding seen
seen_below goal bits word here x p = elim (Bool-cases (x / word_size == word)) [
  | inl e ↦
      let w : x / word_size ≡ word = (==_iff (x / word_size) word).0 e in
      rw w (rw (==_self word) (rw (apart word) refl))
  | inr e ↦ let w : (x / word_size == suc word) ≡ false = ground arith in rw e (rw w refl)
]
  where
    ==_self : (w : ℕ) → (w == w) ≡ true
    ==_self w = ground arith

    apart : (w : ℕ) → (w == suc w) ≡ false
    apart w = ground arith

-- The highest bit of a word that is not zero, as a place of the bitmap.
highest :
    (goal : Bool) (bits : Bitmap) (word : ℕ) (here : Word)
    → length here ≡ word_size
    → is_zero here ≡ false
    → FoundLast
        (seen goal bits word here)
        ((word + 1) * word_size)
        (some (bit_width here - 1 + word * word_size))
unfolding FoundLast
highest goal bits word here long e =
    let (pos, le, on) = bit_width_lem here e in
    (
      omega arith,
      seen_word goal bits word here (bit_width here - 1 + word * word_size) (omega arith)
            (omega arith)
          ∙ ap (bit here) (omega arith)
          ∙ on,
      λ x p q.
          seen_word goal bits word here x (omega arith) q
          ∙ bit_width-above here (x - word * word_size) (omega arith),
    )

find_back_loop_lem :
    (goal : Bool) (bits : Bitmap) (word : ℕ) (here : Word)
    → length here ≡ word_size
    → IsWords bits
    → FoundLast
        (seen goal bits word here)
        ((word + 1) * word_size)
        (find_back_loop goal bits word here)
unfolding find_back_loop
find_back_loop_lem goal bits zero here h b = elim (Bool-cases (is_zero here)) [
  | inl e ↦ rw e (
      unfold FoundLast in
      λ x q. seen_word goal bits 0 here x (omega arith) q ∙ is_zero_lem here (x - 0 * word_size) e)
  | inr e ↦ rw e (
      subst (λ k. FoundLast (seen goal bits 0 here) ((0 + 1) * word_size) (some k)) (omega arith)
        (highest goal bits 0 here h e))
]
find_back_loop_lem goal bits (suc word) here h b = elim (Bool-cases (is_zero here)) [
  | inl e ↦ rw e (
      FoundLast-above (find_back_loop goal bits word (goal_word goal (word_at bits word)))
        (seen goal bits (suc word) here) (seen goal bits word (goal_word goal (word_at bits word)))
        ((word + 1) * word_size) ((suc word + 1) * word_size) (omega arith)
        (λ x p. seen_below goal bits word here x p)
        (λ x p q.
          seen_word goal bits (suc word) here x (omega arith) q
          ∙ is_zero_lem here (x - suc word * word_size) e)
        (find_back_loop_lem goal bits word (goal_word goal (word_at bits word))
          (length-goal_word goal (word_at bits word) (unfold IsWords in b word)) b))
  | inr e ↦ rw e (highest goal bits (suc word) here h e)
]

-- A test of all numbers below `n`.
all_below : ℕ → (ℕ → Bool) → Bool
all_below zero test = true
all_below (suc n) test = test n && all_below n test

all_below_lem : (n : ℕ) (test : ℕ → Bool) (i : ℕ) → all_below n test ≡ true → i < n → test i ≡ true
unfolding all_below
all_below_lem zero test i h q = absurd (omega arith)
all_below_lem (suc n) test i h q = elim (ℕ_discrete i n) [
  | yes e ↦ rw e (ground (arith, h))
  | no e ↦ all_below_lem n test i (ground (arith, h)) (omega arith)
]

same_bool : Bool → Bool → Bool
same_bool true b = b
same_bool false b = not b

same_bool_lem : (a b : Bool) → same_bool a b ≡ true → a ≡ b
unfolding same_bool
same_bool_lem true b h = sym h
same_bool_lem false b h = ground arith

-- `(2 << offset) - 1`
back_mask : ℕ → Word
unfolding shift_left decrement
back_mask offset = decrement (shift_left (false ∷ true ∷ replicate 62 false) offset)

mask_table :
    all_below 64 (λ o. all_below 64 (λ i. same_bool (bit (back_mask o) i) (leb i o))) ≡ true
unfolding all_below same_bool back_mask bit
mask_table = refl

bit-back_mask : (o i : ℕ) → o < 64 → i < 64 → bit (back_mask o) i ≡ leb i o
bit-back_mask o i h q = same_bool_lem (bit (back_mask o) i) (leb i o) (
    all_below_lem 64 (λ k. same_bool (bit (back_mask o) k) (leb k o)) i
      (all_below_lem 64 (λ m. all_below 64 (λ k. same_bool (bit (back_mask m) k) (leb k m))) o
        mask_table h)
      q)

length-decrement : (w : Word) → length (decrement w) ≡ length w
unfolding decrement
length-decrement [] = refl
length-decrement (true ∷ w) = refl
length-decrement (false ∷ w) = ap suc (length-decrement w)

length-back_mask : (o : ℕ) → length (back_mask o) ≡ word_size
unfolding back_mask
length-back_mask o =
    length-decrement (shift_left (false ∷ true ∷ replicate 62 false) o)
    ∙ length-shift_left (false ∷ true ∷ replicate 62 false) o

last_here : Bool → Bitmap → ℕ → Word
last_here goal bits index =
    and (goal_word goal (word_at bits (index / word_size))) (back_mask (index % word_size))

seen_last :
    (goal : Bool) (bits : Bitmap) (index x : ℕ)
    → IsWords bits
    → x < (index / word_size + 1) * word_size
    → seen goal bits (index / word_size) (last_here goal bits index) x
      ≡ leb x index && wanted goal bits x
unfolding seen last_here
seen_last goal bits index x b p = elim (Bool-cases (x / word_size == index / word_size)) [
  | inr e ↦ rw e (rw (bit-goal_word goal bits x b) (ground arith))
  | inl e ↦
      let w : x / word_size ≡ index / word_size =
        (==_iff (x / word_size) (index / word_size)).0 e in
      rw e (
        rw (sym w) (
          rw
            (bit-and (goal_word goal (word_at bits (x / word_size))) (back_mask (index % word_size))
              (x % word_size))
            (rw (bit-goal_word goal bits x b) (
              rw (bit-back_mask (index % word_size) (x % word_size) (omega arith) (omega arith))
                (two_parts index x (wanted goal bits x) w)))))
]
  where
    two_parts :
        (index x : ℕ) (v : Bool)
        → x / word_size ≡ index / word_size
        → v && leb (x % word_size) (index % word_size) ≡ leb x index && v
    two_parts index x v h = ground arith

narrow :
    (o : Option ℕ) (test test' : ℕ → Bool) (index hi : ℕ)
    → index + 1 ≤ hi
    → ((x : ℕ) → x < hi → test' x ≡ leb x index && test x)
    → FoundLast test' hi o
    → FoundLast test (index + 1) o
unfolding FoundLast
narrow none test test' index hi h e f = λ x q. ground (arith, e x (omega arith), f x (omega arith))
narrow (some k) test test' index hi h e (a, t, f) =
    let both : leb k index && test k ≡ true = sym (e k a) ∙ t in
    (ground arith, ground arith, λ x p q. ground (arith, e x (omega arith), f x p (omega arith)))

-- FindSetBackwards(index) and FindClearBackwards(index), with index < n, on a bitmap of n bits
-- whose words have their 64 bits, give the last wanted bit at index or below, and -1 only if there
-- is none.
pub find_value_backwards_lem :
    (n : ℕ) (goal : Bool) (index : ℕ) (bits : Bitmap)
    → index < n
    → IsBitmap n bits
    → FoundLast (wanted goal bits) (index + 1) (find_value_backwards goal index bits)
unfolding find_value_backwards IsBitmap last_here back_mask
find_value_backwards_lem n goal index bits h (long, b) =
    let w = index / word_size in
    let full : length (word_at bits w) ≡ word_size = unfold IsWords in b w in
    let wide = length-goal_word goal (word_at bits w) full in
    let mask = length-back_mask (index % word_size) in
    let here =
      length-and (goal_word goal (word_at bits w)) (back_mask (index % word_size)) (wide ∙ sym mask)
      ∙ wide in
    narrow (find_back_loop goal bits w (last_here goal bits index)) (wanted goal bits)
      (seen goal bits w (last_here goal bits index)) index ((w + 1) * word_size) (omega arith)
      (λ x p. seen_last goal bits index x b p)
      (find_back_loop_lem goal bits w (last_here goal bits index) here b)
