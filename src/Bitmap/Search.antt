-- ===== src/Bitmap/Search.antt =====
-- The loop of `FindValue` over the words.
use tcmalloc.Base.{
  ℕ, zero, suc, ◌+◌, ◌-◌, ◌*◌, ◌/◌, ◌%◌, ◌≤◌, ◌<◌, ◌≡◌, refl, sym, ap, ◌∙◌, inl, inr, Bool, true,
  false, Option, none, some, arith, ltb, ◌==◌, if◌then◌else◌, ltb→lt, ==_iff, Bool-cases, length,
}
use tcmalloc.Bitmap.Word.{Word, word_size, bit, is_zero, countr_zero}
use tcmalloc.Bitmap.Bits.{length-complement, countr_zero_lem, is_zero_lem}
use tcmalloc.Bitmap.Fill.{IsWords}
use tcmalloc.Bitmap.Defs.{Bitmap, word_at, goal_word, find_loop}

-- The least place in `[lo, hi)` where `test` holds.
unfoldable pub Found : (ℕ → Bool) → ℕ → ℕ → Option ℕ → Type 0
Found test lo hi none = (x : ℕ) → lo ≤ x → x < hi → test x ≡ false
Found test lo hi (some f) =
    (lo ≤ f) × (f < hi) × (test f ≡ true) × ((x : ℕ) → lo ≤ x → x < f → test x ≡ false)

pub Found-below :
    (o : Option ℕ) (test test' : ℕ → Bool) (lo lo' hi : ℕ)
    → lo ≤ lo'
    → ((x : ℕ) → lo' ≤ x → x < hi → test' x ≡ test x)
    → ((x : ℕ) → lo ≤ x → x < lo' → test x ≡ false)
    → Found test' lo' hi o
    → Found test lo hi o
unfolding Found
Found-below none test test' lo lo' hi h same low f = missing
  where
    missing : (x : ℕ) → lo ≤ x → x < hi → test x ≡ false
    missing x p q = elim (Bool-cases (ltb x lo')) [
      | inl e ↦ low x p (ltb→lt x lo' e)
      | inr e ↦ let up : lo' ≤ x = ground arith in sym (same x up q) ∙ f x up q
    ]
Found-below (some k) test test' lo lo' hi h same low (a, b, t, f) =
    (omega arith, b, sym (same k a b) ∙ t, before)
  where
    before : (x : ℕ) → lo ≤ x → x < k → test x ≡ false
    before x p q = elim (Bool-cases (ltb x lo')) [
      | inl e ↦ low x p (ltb→lt x lo' e)
      | inr e ↦ let up : lo' ≤ x = ground arith in sym (same x up (omega arith)) ∙ f x up q
    ]

-- The bits that the loop still has to look at, `here` in place of the current word.
unfoldable pub seen : Bool → Bitmap → ℕ → Word → ℕ → Bool
seen goal bits word here x =
    if x / word_size == word
    then bit here (x % word_size)
    else bit (goal_word goal (word_at bits (x / word_size))) (x % word_size)

seen_here :
    (goal : Bool) (bits : Bitmap) (word : ℕ) (here : Word) (x : ℕ)
    → word * word_size ≤ x
    → x < (word + 1) * word_size
    → seen goal bits word here x ≡ bit here (x - word * word_size)
unfolding seen
seen_here goal bits word here x p q =
    let w : x / word_size ≡ word = omega arith in
    let o : x % word_size ≡ x - word * word_size = omega arith in
    rw w (rw (==_self word) (ap (bit here) o))
  where
    ==_self : (w : ℕ) → (w == w) ≡ true
    ==_self w = ground arith

seen_behind :
    (goal : Bool) (bits : Bitmap) (word : ℕ) (here : Word) (x : ℕ)
    → (word + 1) * word_size ≤ x
    → seen goal bits (word + 1) (goal_word goal (word_at bits (word + 1))) x
      ≡ seen goal bits word here x
unfolding seen
seen_behind goal bits word here x p = elim (Bool-cases (x / word_size == word + 1)) [
  | inl e ↦
      let w : x / word_size ≡ word + 1 = (==_iff (x / word_size) (word + 1)).0 e in
      rw w (rw (==_self (word + 1)) (rw (apart word) refl))
  | inr e ↦ let w : (x / word_size == word) ≡ false = ground arith in rw e (rw w refl)
]
  where
    ==_self : (w : ℕ) → (w == w) ≡ true
    ==_self w = ground arith

    apart : (w : ℕ) → (w + 1 == w) ≡ false
    apart w = ground arith

in_word :
    (goal : Bool) (bits : Bitmap) (word hi : ℕ) (here : Word)
    → length here ≡ word_size
    → (word + 1) * word_size ≤ hi
    → is_zero here ≡ false
    → Found
        (seen goal bits word here)
        (word * word_size)
        hi
        (some (countr_zero here + word * word_size))
unfolding Found
in_word goal bits word hi here long h e =
    let (on, low, least) = countr_zero_lem here e in
    (
      omega arith,
      omega arith,
      seen_here goal bits word here (countr_zero here + word * word_size) (omega arith)
            (omega arith)
          ∙ ap (bit here) (omega arith)
          ∙ on,
      λ x p q.
          seen_here goal bits word here x p (omega arith)
          ∙ least (x - word * word_size) (omega arith),
    )

not_in_word :
    (goal : Bool) (bits : Bitmap) (word : ℕ) (here : Word)
    → is_zero here ≡ true
    → (x : ℕ) → word * word_size ≤ x
    → x < (word + 1) * word_size
    → seen goal bits word here x ≡ false
not_in_word goal bits word here e x p q =
    seen_here goal bits word here x p q ∙ is_zero_lem here (x - word * word_size) e

pub length-goal_word :
    (goal : Bool) (w : Word) → length w ≡ word_size → length (goal_word goal w) ≡ word_size
unfolding goal_word
length-goal_word true w h = h
length-goal_word false w h = length-complement w ∙ h

pub find_loop_lem :
    (rest : ℕ) (goal : Bool) (bits : Bitmap) (word hi : ℕ) (here : Word)
    → hi ≡ (word + rest + 1) * word_size
    → length here ≡ word_size
    → IsWords bits
    → Found (seen goal bits word here) (word * word_size) hi (find_loop rest goal bits word here)
unfolding find_loop
find_loop_lem zero goal bits word hi here k h b = elim (Bool-cases (is_zero here)) [
  | inl e ↦ rw e (unfold Found in λ x p q. not_in_word goal bits word here e x p (omega arith))
  | inr e ↦ rw e (in_word goal bits word hi here h (omega arith) e)
]
find_loop_lem (suc rest) goal bits word hi here k h b = elim (Bool-cases (is_zero here)) [
  | inl e ↦ rw e (
      Found-below (find_loop rest goal bits (word + 1) (goal_word goal (word_at bits (word + 1))))
        (seen goal bits word here)
        (seen goal bits (word + 1) (goal_word goal (word_at bits (word + 1)))) (word * word_size)
        ((word + 1) * word_size) hi (omega arith) (λ x p q. seen_behind goal bits word here x p)
        (not_in_word goal bits word here e)
        (find_loop_lem rest goal bits (word + 1) hi (goal_word goal (word_at bits (word + 1)))
          (omega arith)
          (length-goal_word goal (word_at bits (word + 1)) (unfold IsWords in b (word + 1))) b))
  | inr e ↦ rw e (in_word goal bits word hi here h (omega arith) e)
]
