-- ===== src/Base/Count.antt =====
-- How often a number is in a list, and runs of elements written into an array.
use Prim.Native.Nat.{ℕ, zero, suc, ◌+◌, ◌≤◌}
use mathlib.Core.Path.{◌≡◌, refl, ap}
use mathlib.Core.List.{List, [], ◌∷◌, ◌++◌}
use native.Mathlib.Omega.{arith}
use native.Mathlib.Nat.{zero-add}
use tcmalloc.Base.Tests.{◌==◌, if◌then◌else◌}
use tcmalloc.Base.Lists.{length, take, drop, take-append-drop}

unfoldable pub occurrences : ℕ → List ℕ → ℕ
occurrences a [] = 0
occurrences a (x ∷ xs) = (if a == x then 1 else 0) + occurrences a xs

pub occurrences-append :
    (a : ℕ) (xs ys : List ℕ) → occurrences a (xs ++ ys) ≡ occurrences a xs + occurrences a ys
unfolding occurrences
occurrences-append a [] ys = omega arith
occurrences-append a (x ∷ xs) ys = omega (arith, occurrences-append a xs ys)

pub occurrences-take-drop :
    (a n : ℕ) (xs : List ℕ)
    → occurrences a (take n xs) + occurrences a (drop n xs) ≡ occurrences a xs
occurrences-take-drop a n xs =
    rw (← occurrences-append a (take n xs) (drop n xs)) (ap (occurrences a) (take-append-drop n xs))

suc_add : (a b : ℕ) → suc a + b ≡ suc (a + b)
suc_add a b = omega arith

-- memcpy of the list to position `i` of an array; what does not fit is dropped.
abbrev pub write {ℓ} : {A : Type ℓ} → List A → ℕ → List A → List A
write [] i ys = []
write (x ∷ xs) (suc i) ys = x ∷ write xs i ys
write (x ∷ xs) zero [] = x ∷ xs
write (x ∷ xs) zero (y ∷ ys) = y ∷ write xs zero ys

module _ {ℓ} {A : Type ℓ} where
  pub length-write : (xs : List A) (i : ℕ) (ys : List A) → length (write xs i ys) ≡ length xs
  length-write [] i ys = refl
  length-write (x ∷ xs) (suc i) ys = ap suc (length-write xs i ys)
  length-write (x ∷ xs) zero [] = refl
  length-write (x ∷ xs) zero (y ∷ ys) = ap suc (length-write xs zero ys)

  -- The array up to the end of what was written.
  pub take-write :
      (xs : List A) (i : ℕ) (ys : List A)
      → i + length ys ≤ length xs
      → take (i + length ys) (write xs i ys) ≡ take i xs ++ ys
  take-write [] zero [] h = refl
  take-write [] zero (y ∷ ys) h = absurd (omega arith)
  take-write [] (suc i) ys h = absurd (omega arith)
  take-write (x ∷ xs) (suc i) ys h =
      simp (suc_add i (length ys)) (ap (λ k. x ∷ k) (take-write xs i ys (omega arith)))
  take-write (x ∷ xs) zero [] h = refl
  take-write (x ∷ xs) zero (y ∷ ys) h =
      simp (zero-add) (ap (λ k. y ∷ k) (simp (zero-add) at (take-write xs zero ys (omega arith))))

  -- What was written is read back, and what is before it stays.
  pub take-drop-write :
      (xs : List A) (i : ℕ) (ys : List A)
      → i + length ys ≤ length xs
      → take (length ys) (drop i (write xs i ys)) ≡ ys
  take-drop-write [] zero [] h = refl
  take-drop-write [] zero (y ∷ ys) h = absurd (omega arith)
  take-drop-write [] (suc i) ys h = absurd (omega arith)
  take-drop-write (x ∷ xs) (suc i) ys h = take-drop-write xs i ys (omega arith)
  take-drop-write (x ∷ xs) zero [] h = refl
  take-drop-write (x ∷ xs) zero (y ∷ ys) h =
      ap (λ k. y ∷ k) (take-drop-write xs zero ys (omega arith))

  pub take-write_below : (xs : List A) (i : ℕ) (ys : List A) → take i (write xs i ys) ≡ take i xs
  take-write_below xs zero ys = refl
  take-write_below [] (suc i) ys = refl
  take-write_below (x ∷ xs) (suc i) ys = ap (λ k. x ∷ k) (take-write_below xs i ys)
