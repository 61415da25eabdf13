-- ===== src/Bitmap/Find.antt =====
-- The searches of a bitmap.
use tcmalloc.Base.{
  ℕ, ◌-◌, ◌*◌, ◌/◌, ◌%◌, ◌≤◌, ◌<◌, min, ◌≡◌, refl, sym, ap, ◌∙◌, inl, inr, Bool, true, false, not,
  ◌&&◌, Option, none, some, arith, ltb, leb, ◌==◌, if◌then◌else◌, ltb→lt, ==_iff, Bool-cases,
  length, length-replicate,
}
use tcmalloc.Bitmap.Word.{Word, word_size, all_ones, bit, and, shift_left}
use tcmalloc.Bitmap.Bits.{
  bit-and, bit-complement, bit-shift_left, bit-all_ones, length-and, length-shift_left,
}
use tcmalloc.Bitmap.Fill.{IsWords, IsBitmap, get_bit_at}
use tcmalloc.Bitmap.Defs.{
  Bitmap, words, dead_bits, word_at, goal_word, get_bit, find_loop, find_value,
}
use tcmalloc.Bitmap.Search.{Found, Found-below, seen, find_loop_lem, length-goal_word}

-- Bit `x` is the one that `FindValue<Goal>` looks for.
unfoldable pub wanted : Bool → Bitmap → ℕ → Bool
wanted goal bits x = if goal then get_bit bits x else not (get_bit bits x)

pub bit-goal_word :
    (goal : Bool) (bits : Bitmap) (x : ℕ)
    → IsWords bits
    → bit (goal_word goal (word_at bits (x / word_size))) (x % word_size) ≡ wanted goal bits x
unfolding goal_word wanted
bit-goal_word true bits x b = sym (get_bit_at bits x b)
bit-goal_word false bits x b =
    let full : length (word_at bits (x / word_size)) ≡ word_size =
      unfold IsWords in b (x / word_size) in
    let low : x % word_size < length (word_at bits (x / word_size)) = omega arith in
    bit-complement (word_at bits (x / word_size)) (x % word_size) low
    ∙ ap not (sym (get_bit_at bits x b))

first_here : Bool → Bitmap → ℕ → Word
first_here goal bits index =
    and (goal_word goal (word_at bits (index / word_size)))
      (shift_left all_ones (index % word_size))

two_parts :
    (index x : ℕ) (v : Bool)
    → x / word_size ≡ index / word_size
    → v
        && (leb (index % word_size) (x % word_size)
            && ltb (x % word_size - index % word_size) word_size)
      ≡ leb index x && v
two_parts index x v h = ground arith

seen_first :
    (goal : Bool) (bits : Bitmap) (index x : ℕ)
    → IsWords bits
    → index / word_size * word_size ≤ x
    → seen goal bits (index / word_size) (first_here goal bits index) x
      ≡ leb index x && wanted goal bits x
unfolding seen first_here
seen_first goal bits index x b p = elim (Bool-cases (x / word_size == index / word_size)) [
  | inr e ↦ rw e (rw (bit-goal_word goal bits x b) (ground arith))
  | inl e ↦
      let low : x % word_size < length all_ones = omega (arith, length-replicate word_size true) in
      rw e (
        rw (sym ((==_iff (x / word_size) (index / word_size)).0 e)) (
          rw
            (bit-and (goal_word goal (word_at bits (x / word_size)))
              (shift_left all_ones (index % word_size)) (x % word_size))
            (rw (bit-goal_word goal bits x b) (
              rw (bit-shift_left all_ones (index % word_size) (x % word_size) low) (
                rw (bit-all_ones (x % word_size - index % word_size)) (
                  two_parts index x (wanted goal bits x)
                    ((==_iff (x / word_size) (index / word_size)).0 e)))))))
]

length-first_here :
    (goal : Bool) (bits : Bitmap) (index : ℕ)
    → IsWords bits
    → length (first_here goal bits index) ≡ word_size
unfolding first_here
length-first_here goal bits index b =
    let full : length (word_at bits (index / word_size)) ≡ word_size =
      unfold IsWords in b (index / word_size) in
    let wide = length-goal_word goal (word_at bits (index / word_size)) full in
    let mask = length-shift_left all_ones (index % word_size) in
    let all = length-replicate word_size true in
    length-and (goal_word goal (word_at bits (index / word_size)))
      (shift_left all_ones (index % word_size)) (omega arith)
    ∙ wide

-- What `FindValue` gives for the outcome of its loop.
result : ℕ → Bool → Option ℕ → ℕ
result n goal o = elim o [
  | none ↦ n
  | some found ↦ if ltb 0 (dead_bits n) && not goal then min found n else found
]

and_false : (b : Bool) → b && false ≡ false
and_false true = refl
and_false false = refl

clamped : (k n : ℕ) (test : ℕ → Bool) → test k ≡ true → min k n < n → test (min k n) ≡ true
clamped k n test t h = let low : min k n ≡ k = omega arith in rw low t

result_lem :
    (n : ℕ) (goal : Bool) (index : ℕ) (bits : Bitmap) (o : Option ℕ)
    → index < n
    → (goal ≡ true → (x : ℕ) → n ≤ x → get_bit bits x ≡ false)
    → Found
        (λ x. leb index x && wanted goal bits x)
        (index / word_size * word_size)
        (words n * word_size)
        o
    → (index ≤ result n goal o)
      × (result n goal o ≤ n)
      × ((x : ℕ) → index ≤ x → x < result n goal o → wanted goal bits x ≡ false)
      × (result n goal o < n → wanted goal bits (result n goal o) ≡ true)
unfolding result Found
result_lem n goal index bits none h dead f = (
  omega arith,
  omega arith,
  λ x p q. ground (arith, f x (omega arith) (omega arith)),
  λ q. absurd (omega arith),
)
result_lem n true index bits (some k) h dead (a, c, t, f) =
    let low : k < n = elim (Bool-cases (ltb k n)) [
      | inl e ↦ ltb→lt k n e
      | inr e ↦ unfold wanted in ground (arith, dead refl k)
    ] in
    rw (and_false (ltb 0 (dead_bits n)))
      (ground arith, omega arith, λ x p q. ground (arith, f x (omega arith) q), λ q. ground arith)
result_lem n false index bits (some k) h dead (a, c, t, f) =
    elim (Bool-cases (ltb 0 (dead_bits n))) [
      | inl e ↦ rw e (
        ground arith,
        omega arith,
        λ x p q. ground (arith, f x (omega arith) (omega arith)),
        λ q. clamped k n (wanted false bits) (ground arith) q,
      )
      | inr e ↦ rw e (
        ground arith,
        ground arith,
        λ x p q. ground (arith, f x (omega arith) q),
        λ q. ground arith,
      )
    ]

-- `FindSet(index)` and `FindClear(index)`, with `index < n`, on a bitmap of `n` bits whose words have
-- their 64 bits and, for `FindSet`, whose dead bits are clear: the result is at most `n`; every bit
-- from `index` up to the result is not the wanted one; and where the result is below `n`, the bit
-- there is the wanted one, at `index` or above.
pub find_value_lem :
    (n : ℕ) (goal : Bool) (index : ℕ) (bits : Bitmap)
    → index < n
    → IsBitmap n bits
    → (goal ≡ true → (x : ℕ) → n ≤ x → get_bit bits x ≡ false)
    → (index ≤ find_value n goal index bits)
      × (find_value n goal index bits ≤ n)
      × ((x : ℕ) → index ≤ x → x < find_value n goal index bits → wanted goal bits x ≡ false)
      × (find_value n goal index bits < n → wanted goal bits (find_value n goal index bits) ≡ true)
unfolding find_value result IsBitmap first_here
find_value_lem n goal index bits h (long, b) dead =
    result_lem n goal index bits
      (find_loop (words n - 1 - index / word_size) goal bits (index / word_size)
        (first_here goal bits index))
      h dead
      (Found-below
        (find_loop (words n - 1 - index / word_size) goal bits (index / word_size)
          (first_here goal bits index))
        (λ x. leb index x && wanted goal bits x)
        (seen goal bits (index / word_size) (first_here goal bits index))
        (index / word_size * word_size) (index / word_size * word_size) (words n * word_size)
        (omega arith) (λ x p q. seen_first goal bits index x b p) (λ x p q. absurd (omega arith))
        (find_loop_lem (words n - 1 - index / word_size) goal bits (index / word_size)
          (words n * word_size) (first_here goal bits index) (omega arith)
          (length-first_here goal bits index b) b))
