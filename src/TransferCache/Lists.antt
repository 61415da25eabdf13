-- ===== src/TransferCache/Lists.antt =====
-- Lists of objects.
use tcmalloc.Base.{
  ℕ, zero, suc, ◌+◌, ◌≤◌, ◌≡◌, refl, ap, List, [], ◌∷◌, ◌++◌, arith, length, take, drop,
}
use native.Mathlib.Nat.{zero-add}

suc_of : (a b : ℕ) → suc a + b ≡ suc (a + b)
suc_of a b = omega arith

module _ {ℓ} {A : Type ℓ} where
  pub take_all : (n : ℕ) (xs : List A) → length xs ≤ n → take n xs ≡ xs
  take_all zero [] h = refl
  take_all zero (x ∷ xs) h = absurd (omega arith)
  take_all (suc n) [] h = refl
  take_all (suc n) (x ∷ xs) h = ap (λ k. x ∷ k) (take_all n xs (omega arith))

  -- The first `i + k` elements are the first `i` and the `k` behind them.
  pub take_split : (i k : ℕ) (xs : List A) → take (i + k) xs ≡ take i xs ++ take k (drop i xs)
  take_split zero k xs = rw zero-add
  take_split (suc i) k [] = rw (suc_of i k) (nil_take k)
    where
      nil_take : (k : ℕ) → [] ≡ take {A = A} k []
      nil_take zero = refl
      nil_take (suc k) = refl
  take_split (suc i) k (x ∷ xs) = rw (suc_of i k) (ap (λ z. x ∷ z) (take_split i k xs))
