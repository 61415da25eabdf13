-- ===== src/TransferCache/Calls.antt =====
-- The calls of the free list, and `InsertRange`.
use tcmalloc.Base.{
  ℕ, ◌+◌, ◌-◌, ◌≤◌, ◌<◌, min, ◌≡◌, refl, ap, ◌∙◌, inl, inr, List, [], ◌∷◌, ◌++◌, arith, ltb, ◌==◌,
  ==_iff, Bool-cases, length, take, drop, length-take, length-drop, occurrences, occurrences-append,
  occurrences-take-drop, write, take-write,
}
use tcmalloc.TransferCache.Defs.{FreeList, Cache, contents, insert_rest}
use tcmalloc.TransferCache.Plain.{plain_fill, plain_insert}
use tcmalloc.TransferCache.Valid.{IsValid}
use tcmalloc.TransferCache.Lists.{take_all}

-- The free list behind a list of calls of its `InsertRange`, and how often an object is in them.
unfoldable pub sent : (fl : FreeList) → List (List ℕ) → fl.Store → fl.Store
sent fl [] f = f
sent fl (batch ∷ calls) f = sent fl calls (fl.insert_range batch f)

unfoldable pub times : ℕ → List (List ℕ) → ℕ
times a [] = 0
times a (batch ∷ calls) = occurrences a batch + times a calls

-- Each call has between 1 and `most` objects.
unfoldable pub Fits : ℕ → List (List ℕ) → Type 0
Fits most [] = Unit {0}
Fits most (batch ∷ calls) = (0 < length batch) × (length batch ≤ most) × Fits most calls

-- An operation that is handed `batch` makes `c` into `c'` with calls of the free list's `InsertRange`
-- alone, and each object is as often in the slots and the calls as it was in the slots and `batch`.
pub record Moved (fl : FreeList) (most : ℕ) (batch : List ℕ) (c c' : Cache fl.Store) : Type 0 where
  pub calls : List (List ℕ)
  pub freelist : c'.freelist ≡ sent fl calls c.freelist
  pub fits : Fits most calls
  pub kept :
      (a : ℕ)
      → occurrences a (contents fl c') + times a calls
        ≡ occurrences a (contents fl c) + occurrences a batch

module _ (fl : FreeList) (most : ℕ) where
  open fl use {Store, insert_range, remove_range}

  pub Moved-none : (c : Cache Store) → Moved fl most [] c c
  unfolding sent times Fits occurrences
  Moved-none c = record { calls = []; freelist = refl; fits = tt; kept = λ a. omega arith }

  -- One call, of objects that left the slots.
  pub Moved-call :
      (batch call : List ℕ) (c c' : Cache Store)
      → c'.freelist ≡ insert_range call c.freelist
      → 0 < length call
      → length call ≤ most
      → ((a : ℕ)
          → occurrences a (contents fl c') + occurrences a call
            ≡ occurrences a (contents fl c) + occurrences a batch)
      → Moved fl most batch c c'
  unfolding sent times Fits
  Moved-call batch call c c' e p q k = record {
    calls = call ∷ [];
    freelist = e;
    fits = (p, q, tt);
    kept = λ a. omega (arith, k a);
  }

  -- One call and then more.
  pub Moved-more :
      (call : List ℕ) (c c₁ c' : Cache Store)
      → c₁.freelist ≡ insert_range call c.freelist
      → 0 < length call
      → length call ≤ most
      → ((a : ℕ)
          → occurrences a (contents fl c₁) + occurrences a call ≡ occurrences a (contents fl c))
      → Moved fl most [] c₁ c'
      → Moved fl most [] c c'
  unfolding sent times Fits
  Moved-more call c c₁ c' e p q k m = record {
    calls = call ∷ m.calls;
    freelist = m.freelist ∙ ap (sent fl m.calls) e;
    fits = (p, q, m.fits);
    kept = λ a. omega (arith, k a, m.kept a);
  }

  occurrences-fill :
      (got : ℕ) (batch : List ℕ) (c : Cache Store)
      → IsValid c
      → got ≤ c.capacity - c.used
      → got ≤ length batch
      → (a : ℕ)
      → occurrences a (contents fl (plain_fill fl got batch c))
        ≡ occurrences a (contents fl c) + occurrences a (take got batch)
  unfolding plain_fill
  occurrences-fill got batch c v h k a =
      let e : length (take got batch) ≡ got = omega (arith, length-take got batch) in
      let w : take (c.used + got) (write c.slots c.used (take got batch))
          ≡ take c.used c.slots ++ take got batch =
        rw e at
          (take-write c.slots c.used (take got batch) (omega (arith, v.array, v.room, v.bound))) in
      rw w (omega (arith, occurrences-append a (take c.used c.slots) (take got batch)))

  Moved-rest :
      (batch : List ℕ) (c : Cache Store)
      → 0 < length batch
      → length batch ≤ most
      → Moved fl most batch c (insert_rest fl batch c)
  unfolding insert_rest
  Moved-rest batch c p q = Moved-call batch batch c (insert_rest fl batch c) refl p q (λ a. refl)

  Moved-fill :
      (got : ℕ) (batch : List ℕ) (c : Cache Store)
      → IsValid c
      → got ≤ c.capacity - c.used
      → got ≡ length batch
      → Moved fl most batch c (plain_fill fl got batch c)
  unfolding sent times Fits
  Moved-fill got batch c v h e = record {
    calls = [];
    freelist = unfold plain_fill in refl;
    fits = tt;
    kept = λ a. omega (
      arith,
      occurrences-fill got batch c v h (omega arith) a,
      ap (occurrences a) (take_all got batch (omega arith)),
    );
  }

  Moved-part :
      (got : ℕ) (batch : List ℕ) (c : Cache Store)
      → IsValid c
      → got ≤ c.capacity - c.used
      → got < length batch
      → length batch ≤ most
      → Moved fl most batch c (insert_rest fl (drop got batch) (plain_fill fl got batch c))
  unfolding insert_rest
  Moved-part got batch c v h lt q =
      let n = length-drop got batch in
      Moved-call batch (drop got batch) c
        (insert_rest fl (drop got batch) (plain_fill fl got batch c)) (unfold plain_fill in refl)
        (omega arith) (omega arith)
        (λ a. omega (
          arith,
          occurrences-fill got batch c v h (omega arith) a,
          occurrences-take-drop a got batch,
        ))

  pub plain_insert-Moved :
      (batch : List ℕ) (c : Cache Store)
      → IsValid c
      → 0 < length batch
      → length batch ≤ most
      → Moved fl most batch c (plain_insert fl batch c)
  unfolding plain_insert
  plain_insert-Moved batch c v p q =
      let got = min (length batch) (c.capacity - c.used) in
      elim (Bool-cases (ltb c.used c.capacity)) [
        | inr e₁ ↦ rw e₁ (Moved-rest batch c p q)
        | inl e₁ ↦ elim (Bool-cases (ltb 0 got)) [
          | inr e₂ ↦ rw e₁ (rw e₂ (Moved-rest batch c p q))
          | inl e₂ ↦ elim (Bool-cases (got == length batch)) [
            | inl e₃ ↦ rw e₁ (
                rw e₂ (
                  rw e₃
                    (Moved-fill got batch c v (omega arith) ((==_iff got (length batch)).0 e₃))))
            | inr e₃ ↦
                rw e₁
                  (rw e₂ (rw e₃ (Moved-part got batch c v (omega arith) (ground (arith, e₃)) q)))
          ]
        ]
      ]
