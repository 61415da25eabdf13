-- ===== src/RangeTracker/Runs.antt =====
-- Runs of clear bits, for a function that reads the bits, and the scan over them that `FindAndMark`
-- and `Mark` make.
use tcmalloc.Base.{ℕ, ◌+◌, ◌≤◌, ◌<◌, ◌≡◌, ◌⊎◌, inl, inr, Bool, true, false, arith, dec_lt, set}

-- `len` clear bits from `i` on, all below `hi`.
abbrev pub Free : (ℕ → Bool) → ℕ → ℕ → ℕ → Type 0
Free f hi i len = (i + len ≤ hi) × ((x : ℕ) → i ≤ x → x < i + len → f x ≡ false)

-- No free run is longer than `m`, and one is as long.
pub record IsLongest (f : ℕ → Bool) (size m : ℕ) : Type 0 where
  pub bound : (j k : ℕ) → Free f size j k → k ≤ m
  pub reached : (j : ℕ) × Free f size j m

-- Two ranges that do not meet.
abbrev pub Apart : ℕ → ℕ → ℕ → ℕ → Type 0
Apart j k i len = (j + k ≤ i) ⊎ (i + len ≤ j)

-- A run of that length, or no bits.
abbrev pub Some : (ℕ → Bool) → ℕ → ℕ → Type 0
Some f hi m = (m ≡ 0) ⊎ ((j : ℕ) × Free f hi j m)

-- The first run of clear bits from `idx` on is `len` from `i`.
pub record IsNext (f : ℕ → Bool) (size idx i len : ℕ) : Type 0 where
  pub after : idx ≤ i
  pub some_bits : 0 < len
  pub inside : i + len ≤ size
  pub before : (x : ℕ) → idx ≤ x → x < i → f x ≡ true
  pub clear : (x : ℕ) → i ≤ x → x < i + len → f x ≡ false
  pub stop : (i + len ≡ size) ⊎ (f (i + len) ≡ true)

-- The scan stands at the start, at a set bit, or at the end.
abbrev pub Edge : (ℕ → Bool) → ℕ → ℕ → Type 0
Edge f size idx = (idx ≡ 0) ⊎ ((f idx ≡ true) ⊎ (idx ≡ size))

pub widen : (f : ℕ → Bool) (a b j k : ℕ) → a ≤ b → Free f a j k → Free f b j k
widen f a b j k h (p, q) = (omega arith, q)

-- A run does not go past a set bit.
pub run_stops : (f : ℕ → Bool) (hi j k x : ℕ) → Free f hi j k → f x ≡ true → (j + k ≤ x) ⊎ (x < j)
run_stops f hi j k x (p, q) h = elim (dec_lt x j) [
  | yes lt ↦ inr lt
  | no ge ↦ elim (dec_lt x (j + k)) [
    | yes lt ↦ absurd (ground (arith, q x (omega arith) lt, h))
    | no ge' ↦ inl (omega arith)
  ]
]

-- A run up to the end of the next one is before the scan's position or in the next one.
pub run_cases :
    (f : ℕ → Bool) (size idx i len j k : ℕ)
    → Edge f size idx
    → IsNext f size idx i len
    → Free f (i + len) j k
    → (k ≡ 0) ⊎ (Free f idx j k ⊎ ((i ≤ j) × (j + k ≤ i + len)))
run_cases f size idx i len j k e v (p, q) = elim (dec_lt 0 k) [
  | no z ↦ inl (omega arith)
  | yes pos ↦ elim (dec_lt j idx) [
    | no ge ↦ elim (dec_lt j i) [
      | yes lt ↦
          absurd (ground (arith, v.before j (omega arith) lt, q j (omega arith) (omega arith)))
      | no ge' ↦ inr (inr (omega arith, p))
    ]
    | yes lt ↦ elim e [
      | inl z ↦ absurd (omega arith)
      | inr (inl set) ↦ elim (run_stops f (i + len) j k idx (p, q) set) [
        | inl le ↦ inr (inl (le, q))
        | inr gt ↦ absurd (omega arith)
      ]
      | inr (inr last) ↦ inr (inl (omega (arith, v.after, v.inside, v.some_bits), q))
    ]
  ]
]
