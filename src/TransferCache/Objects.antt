-- ===== src/TransferCache/Objects.antt =====
-- Where the objects are.
use tcmalloc.Base.{
  ℕ, ◌+◌, ◌-◌, ◌^◌, ◌≤◌, ◌<◌, min, ◌≡◌, refl, subst, sym, ap, ◌∙◌, ◌⊎◌, inl, inr, Bool, true, false,
  List, [], arith, ltb, ◌==◌, ==_iff, Bool-cases, length, take, occurrences, take-drop-write,
  take-write_below,
}
use tcmalloc.TransferCache.Defs.{
  FreeList, Cache, contents, max_objects_to_move, insert, remove, try_plunder, shrink,
}
use tcmalloc.TransferCache.Plain.{plain_fill, plain_insert, plain_remove}
use tcmalloc.TransferCache.Valid.{IsValid, plain_insert-IsValid}
use tcmalloc.TransferCache.Agree.{
  insert-plain_insert, remove-plain_remove, try_plunder-plain_try_plunder, shrink-plain_shrink,
}
use tcmalloc.TransferCache.Lists.{take_all}
use tcmalloc.TransferCache.Calls.{Moved, plain_insert-Moved}
use tcmalloc.TransferCache.Moves.{
  occurrences-top, length-top, plain_try_plunder-Moved, plain_shrink-Moved,
}

-- `RemoveRange` takes what it returns off the slots and leaves the free list, or it returns what the
-- free list gives for the whole batch and leaves the slots.
abbrev pub Taken : (fl : FreeList) → ℕ → Cache fl.Store → List ℕ × Cache fl.Store → Type 0
Taken fl n c (out, c') =
    ((c'.freelist ≡ c.freelist)
      × (length out ≡ min n c.used)
      × (0 < c.used)
      × ((a : ℕ)
          → occurrences a (contents fl c') + occurrences a out ≡ occurrences a (contents fl c)))
    ⊎ ((c.used ≡ 0)
        × (out ≡ (fl.remove_range n c.freelist).0)
        × (c'.freelist ≡ (fl.remove_range n c.freelist).1)
        × (contents fl c' ≡ contents fl c))

plain_remove-Taken :
    (fl : FreeList) (n : ℕ) (c : Cache fl.Store)
    → IsValid c
    → 0 < n
    → Taken fl n c (plain_remove fl n c)
unfolding plain_remove
plain_remove-Taken fl n c v p = elim (Bool-cases (c.used == 0)) [
  | inl e ↦ rw e (inr ((==_iff c.used 0).0 e, refl, refl, refl))
  | inr e ↦
      let g : (min n c.used == 0) ≡ false = ground (arith, e) in
      rw e (
        rw g (
          inl (
            refl,
            length-top fl n (min n c.used) c v (omega arith),
            ground (arith, e),
            occurrences-top fl n (min n c.used) c (omega arith),
          )))
]

-- No operation of a valid transfer cache loses an object or makes one up, whatever the central
-- free list does. For batches of 1 to 128 objects InsertRange, TryPlunder (however the locks go)
-- and ShrinkCache do nothing to the free list but calls of its InsertRange, each with 1 to 128
-- objects, and each object is as often in the slots and these calls as it was in the slots and
-- in the batch inserted. RemoveRange takes what it returns off the slots, as many as are asked
-- for or as there are, and leaves the free list, or, if the slots are empty, returns what the
-- free list gives for the whole batch and leaves the slots.
pub operations_conserve :
    (fl : FreeList) (batch : List ℕ) (n b : ℕ) (lock : Bool) (replies : List Bool)
    (c : Cache fl.Store)
    → IsValid c
    → 0 < length batch
    → length batch ≤ max_objects_to_move
    → 0 < n
    → n ≤ max_objects_to_move
    → b ≤ max_objects_to_move
    → Moved fl max_objects_to_move batch c (insert fl batch c)
      × Taken fl n c (remove fl n c)
      × Moved fl max_objects_to_move [] c (try_plunder fl b lock replies c)
      × Moved fl max_objects_to_move [] c (shrink fl b c).1
operations_conserve fl batch n b lock replies c v p q p' q' r = (
  subst (Moved fl 128 batch c) (sym (insert-plain_insert fl batch c v (omega arith)))
      (plain_insert-Moved fl 128 batch c v p q),
  subst (Taken fl n c) (sym (remove-plain_remove fl n c v (omega arith)))
      (plain_remove-Taken fl n c v p'),
  subst (Moved fl 128 [] c)
      (sym (try_plunder-plain_try_plunder fl b lock replies c v (omega arith)))
      (plain_try_plunder-Moved fl 128 b lock replies c v r),
  subst (λ z. Moved fl 128 [] c z.1) (sym (shrink-plain_shrink fl b c v (omega arith)))
      (plain_shrink-Moved fl 128 b c v r),
)

plain_remove-plain_insert :
    (fl : FreeList) (batch : List ℕ) (c : Cache fl.Store)
    → IsValid c
    → 0 < length batch
    → c.used + length batch ≤ c.capacity
    → let (out, c') = plain_remove fl (length batch) (plain_insert fl batch c) in
      (out ≡ batch) × (contents fl c' ≡ contents fl c) × (c'.freelist ≡ c.freelist)
unfolding plain_remove plain_insert plain_fill
plain_remove-plain_insert fl batch c v pos fits =
    let n = length batch in
    let all : take n batch ≡ batch = take_all n batch (omega arith) in
    let written = take-drop-write c.slots c.used batch (omega (arith, v.array, v.bound)) in
    let e₁ : ltb c.used c.capacity ≡ true = ground arith in
    let e₂ : min n (c.capacity - c.used) ≡ n = omega arith in
    let e₃ : ltb 0 n ≡ true = ground arith in
    let e₄ : (n == n) ≡ true = ground arith in
    let e₅ : min n (c.used + n) ≡ n = omega arith in
    let e₆ : c.used + n - n ≡ c.used = omega arith in
    let e₇ : (c.used + n == 0) ≡ false = ground arith in
    let e₈ : (n == 0) ≡ false = ground arith in
    rw (e₁, e₂)
      (rw (e₃, e₄)
        (rw (e₇, e₅) (rw (e₈, e₆) (rw all (written, take-write_below c.slots c.used batch, refl)))))

-- Removing as many objects as were inserted, when all of them fit the slots, gives back the batch
-- in its order and leaves the slots and the free list as they were.
pub remove-insert :
    (fl : FreeList) (batch : List ℕ) (c : Cache fl.Store)
    → IsValid c
    → 0 < length batch
    → c.used + length batch ≤ c.capacity
    → let (out, c') = remove fl (length batch) (insert fl batch c) in
      (out ≡ batch) × (contents fl c' ≡ contents fl c) × (c'.freelist ≡ c.freelist)
remove-insert fl batch c v pos fits =
    let small : length batch < 2 ^ 31 = omega (arith, v.bound, v.small) in
    let e =
      ap (remove fl (length batch)) (insert-plain_insert fl batch c v small)
      ∙ remove-plain_remove fl (length batch) (plain_insert fl batch c)
          (plain_insert-IsValid fl batch c v) small in
    subst (λ z. (z.0 ≡ batch) × (contents fl z.1 ≡ contents fl c) × (z.1.freelist ≡ c.freelist))
      (sym e) (plain_remove-plain_insert fl batch c v pos fits)
