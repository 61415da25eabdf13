-- ===== src/HugeRegion/Exchange.antt =====
-- What `UnbackHugepages` does to the arrays.
use tcmalloc.Base.{
  ℕ, zero, suc, ◌+◌, ◌*◌, ◌≤◌, ◌<◌, ◌≡◌, refl, ap, ◌∙◌, inl, inr, Bool, true, false, ◌&&◌, List,
  arith, ℕ_discrete, ltb, leb, if◌then◌else◌, Bool-cases, length, set, length-set, get_or,
  get_or-set,
}
use native.Mathlib.Nat.{suc-mul}
use tcmalloc.Pages.Length.{word}
use tcmalloc.RangeTracker.Unmark.{opened}
use tcmalloc.HugeRegion.Unback.{exchange, clear_from, run_length}

pub exchange_lem :
    (i n v : ℕ) (xs : List ℕ) (j : ℕ)
    → i + n ≤ length xs
    → (length (exchange i n v xs).1 ≡ length xs)
      × (get_or (exchange i n v xs).1 j 0 ≡ (if leb i j && ltb j (i + n) then v else get_or xs j 0))
unfolding exchange
exchange_lem i zero v xs j le = (refl, ground arith)
exchange_lem i (suc n) v xs j le =
    let s = length-set xs i v in
    let (l, g) = exchange_lem (i + 1) n v (set xs i v) j (omega (arith, s)) in
    (l ∙ s, g ∙ ground (arith, get_or-set xs i j v 0 (omega arith)))

-- The sum of equal values.
pub exchange_sum :
    (i n v c : ℕ) (xs : List ℕ)
    → i + n ≤ length xs
    → ((j : ℕ) → i ≤ j → j < i + n → get_or xs j 0 ≡ c)
    → (exchange i n v xs).0 ≡ word (n * c)
unfolding exchange
exchange_sum i zero v c xs le same = omega arith
exchange_sum i (suc n) v c xs le same =
    let s = length-set xs i v in
    let ih = exchange_sum (i + 1) n v c (set xs i v) (omega (arith, s)) (λ j p q.
      get_or-set xs i j v 0 (omega arith) ∙ ground (arith, same j (omega arith) (omega arith))) in
    let first = same i (omega arith) (omega arith) in omega (arith, ih, first, suc-mul n c)

pub clear_from_lem :
    (i n : ℕ) (xs : List Bool) (j : ℕ)
    → i + n ≤ length xs
    → (length (clear_from i n xs) ≡ length xs)
      × (get_or (clear_from i n xs) j false ≡ opened (λ x. get_or xs x false) i n j)
unfolding clear_from
clear_from_lem i zero xs j le = (refl, ground arith)
clear_from_lem i (suc n) xs j le =
    let s = length-set xs i false in
    let (l, g) = clear_from_lem (i + 1) n (set xs i false) j (omega (arith, s)) in
    (l ∙ s, g ∙ ground (arith, get_or-set xs i j false false (omega arith)))

-- The run is set, within the fuel, and not empty where its first place is set.
pub run_length_lem :
    (fuel i : ℕ) (should : List Bool)
    → (run_length fuel i should ≤ fuel)
      × ((j : ℕ) → i ≤ j → j < i + run_length fuel i should → get_or should j false ≡ true)
      × (0 < fuel → get_or should i false ≡ true → 0 < run_length fuel i should)
unfolding run_length
run_length_lem zero i should =
    (omega arith, λ j p q. absurd (omega arith), λ p. absurd (omega arith))
run_length_lem (suc fuel) i should =
    let (b, s, _) = run_length_lem fuel (i + 1) should in
    elim (Bool-cases (get_or should i false)) [
      | inl on ↦ rw on (
        omega (arith, b),
        (λ j p q. elim (ℕ_discrete j i) [
          | yes e ↦ ap (λ z. get_or should z false) e ∙ on
          | no ne ↦ s j (omega arith) (omega arith)
        ]),
        λ p e. omega arith,
      )
      | inr off ↦
          rw off (omega arith, (λ j p q. absurd (omega arith)), λ p e. absurd (ground (arith, e)))
    ]
