-- ===== src/Bitmap/FreeRange.antt =====
-- `NextFreeRange`: a maximal run of clear bits.
use tcmalloc.Base.{
  ℕ, ◌+◌, ◌-◌, ◌≤◌, ◌<◌, ◌≡◌, refl, sym, ap, ◌⊎◌, inl, inr, Bool, true, false, not, Option, none,
  some, arith, ℕ_discrete, dec_lt, leb, ◌==◌, ==_iff, Bool-cases,
}
use tcmalloc.Bitmap.Defs.{Bitmap, get_bit, find_value, next_free_range}
use tcmalloc.Bitmap.Fill.{IsBitmap}
use tcmalloc.Bitmap.Find.{wanted, find_value_lem}

-- The first run of clear bits at `start` or later and before `n`: the bits before it, from `start`
-- on, are set, its own are clear, and it goes on up to `n` or up to a set bit.
unfoldable pub FreeRange : ℕ → ℕ → Bitmap → Option (ℕ × ℕ) → Type 0
FreeRange n start bits none = (x : ℕ) → start ≤ x → x < n → get_bit bits x ≡ true
FreeRange n start bits (some (i, len)) =
    (start ≤ i)
    × (0 < len)
    × (i + len ≤ n)
    × ((x : ℕ) → start ≤ x → x < i → get_bit bits x ≡ true)
    × ((x : ℕ) → i ≤ x → x < i + len → get_bit bits x ≡ false)
    × ((i + len ≡ n) ⊎ (get_bit bits (i + len) ≡ true))

not-false : (b : Bool) → not b ≡ false → b ≡ true
not-false true h = refl
not-false false h = sym h

not-true : (b : Bool) → not b ≡ true → b ≡ false
not-true true h = sym h
not-true false h = refl

-- On a bitmap of `n` bits whose words have their 64 bits and whose dead bits are clear,
-- `NextFreeRange(start)` with `start < n` gives the first maximal run of clear bits at `start` or
-- later, and false only if all bits from `start` on are set.
pub next_free_range_lem :
    (n start : ℕ) (bits : Bitmap)
    → start < n
    → IsBitmap n bits
    → ((x : ℕ) → n ≤ x → get_bit bits x ≡ false)
    → FreeRange n start bits (next_free_range n start bits)
unfolding next_free_range wanted FreeRange
next_free_range_lem n start bits h v dead =
    let i = find_value n false start bits in
    let j = find_value n true i bits in
    let (le, top, full, clear) =
      find_value_lem n false start bits h v (λ e. absurd (ground arith)) in
    let more : leb n start ≡ false = ground arith in
    elim (Bool-cases (i == n)) [
      | inl e ↦
          let last : i ≡ n = (==_iff i n).0 e in
          rw more (rw e (λ x p q. not-false (get_bit bits x) (full x p (omega arith))))
      | inr e ↦
          let inside : i < n = ground arith in
          let (le', top', run, stop) = find_value_lem n true i bits inside v (λ q. dead) in
          let off : get_bit bits i ≡ false = not-true (get_bit bits i) (clear inside) in
          rw more (
            rw e (
              le,
              longer i j off le' stop inside,
              omega arith,
              (λ x p q. not-false (get_bit bits x) (full x p q)),
              (λ x p q. run x p (omega arith)),
              ends i j le' top' stop,
            ))
    ]
  where
    longer :
        (i j : ℕ)
        → get_bit bits i ≡ false
        → i ≤ j
        → (j < n → get_bit bits j ≡ true)
        → i < n
        → 0 < j - i
    longer i j off le stop l = elim (ℕ_discrete i j) [
      | yes e ↦ absurd (ground (arith, off, stop (omega arith), ap (get_bit bits) e))
      | no e ↦ ground arith
    ]

    ends :
        (i j : ℕ)
        → i ≤ j
        → j ≤ n
        → (j < n → get_bit bits j ≡ true)
        → (i + (j - i) ≡ n) ⊎ (get_bit bits (i + (j - i)) ≡ true)
    ends i j le top stop =
        let whole : i + (j - i) ≡ j = omega arith in
        rw whole (elim (dec_lt j n) [ yes l ↦ inr (stop l) | no l ↦ inl (omega arith) ])
