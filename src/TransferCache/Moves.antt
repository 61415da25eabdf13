-- ===== src/TransferCache/Moves.antt =====
-- What leaves the slots from the top: `TryPlunder` and `ShrinkCache`.
use tcmalloc.Base.{
  ℕ, ◌+◌, ◌-◌, ◌≤◌, ◌<◌, min, ◌≡◌, refl, sym, ◌∙◌, inl, inr, Bool, List, [], ◌∷◌, arith, leb, ◌==◌,
  Bool-cases, length, take, drop, length-take, length-drop, occurrences, occurrences-append,
}
use tcmalloc.TransferCache.Defs.{FreeList, Cache, contents}
use tcmalloc.TransferCache.Plain.{
  plain_plunder_turn, plain_plunder_loop, plain_try_plunder, plain_shrink,
}
use tcmalloc.TransferCache.Valid.{IsValid, plain_plunder_turn-IsValid}
use tcmalloc.TransferCache.Lists.{take_split}
use tcmalloc.TransferCache.Calls.{sent, times, Fits, Moved, Moved-none, Moved-call, Moved-more}

module _ (fl : FreeList) (most : ℕ) where
  open fl use {Store, insert_range, remove_range}

  -- The top `k` objects of the stack, with what is below.
  pub occurrences-top :
      (k : ℕ) (c : Cache Store)
      → k ≤ c.used
      → (a : ℕ)
      → occurrences a (take (c.used - k) c.slots)
          + occurrences a (take k (drop (c.used - k) c.slots))
        ≡ occurrences a (contents fl c)
  occurrences-top k c h a =
      let e : c.used - k + k ≡ c.used = omega arith in
      let s = rw e at (take_split (c.used - k) k c.slots) in
      rw s (
        sym (occurrences-append a (take (c.used - k) c.slots) (take k (drop (c.used - k) c.slots))))

  -- The length of what goes.
  pub length-top :
      (k : ℕ) (c : Cache Store)
      → IsValid c
      → k ≤ c.used
      → length (take k (drop (c.used - k) c.slots)) ≡ k
  length-top k c v h = omega (
    arith,
    length-take k (drop (c.used - k) c.slots),
    length-drop (c.used - k) c.slots,
    v.array,
    v.room,
    v.bound,
  )

  plunder_turn-Moved :
      (k : ℕ) (c c' : Cache Store)
      → IsValid c
      → k ≤ c.used
      → 0 < k
      → k ≤ most
      → Moved fl most [] (plain_plunder_turn fl k c) c'
      → Moved fl most [] c c'
  unfolding plain_plunder_turn
  plunder_turn-Moved k c c' v h p q m =
      let n = length-top k c v h in
      Moved-more fl most (take k (drop (c.used - k) c.slots)) c (plain_plunder_turn fl k c) c' refl
        (omega arith) (omega arith) (occurrences-top k c h) m

  plain_plunder_loop-Moved :
      (b : ℕ) (replies : List Bool) (to_return : ℕ) (c : Cache Store)
      → IsValid c
      → b ≤ most
      → Moved fl most [] c (plain_plunder_loop fl b replies to_return c)
  unfolding plain_plunder_loop
  plain_plunder_loop-Moved b [] to_return c v h =
      let k = min (min b c.used) to_return in
      elim (Bool-cases (k == 0)) [
        | inl e ↦ rw e (Moved-none fl most c)
        | inr e ↦ rw e (
            plunder_turn-Moved k c (plain_plunder_turn fl k c) v (omega arith) (ground (arith, e))
              (omega arith) (Moved-none fl most (plain_plunder_turn fl k c)))
      ]
  plain_plunder_loop-Moved b (taken ∷ replies) to_return c v h =
      let k = min (min b c.used) to_return in
      let c₁ = plain_plunder_turn fl k c in
      let more =
        plain_plunder_loop-Moved b replies (to_return - k) c₁ (plain_plunder_turn-IsValid fl k c v)
          h in
      elim (Bool-cases (k == 0)) [
        | inl e ↦ rw e (Moved-none fl most c)
        | inr e ↦ elim (Bool-cases taken) [
          | inl t ↦ rw e (
              rw t (
                plunder_turn-Moved k c (plain_plunder_loop fl b replies (to_return - k) c₁) v
                  (omega arith) (ground (arith, e)) (omega arith) more))
          | inr t ↦ rw e (
              rw t (
                plunder_turn-Moved k c c₁ v (omega arith) (ground (arith, e)) (omega arith)
                  (Moved-none fl most c₁)))
        ]
      ]

  pub plain_try_plunder-Moved :
      (b : ℕ) (lock : Bool) (replies : List Bool) (c : Cache Store)
      → IsValid c
      → b ≤ most
      → Moved fl most [] c (plain_try_plunder fl b lock replies c)
  unfolding plain_try_plunder
  plain_try_plunder-Moved b lock replies c v h =
      let c₁ : Cache Store = record c { low_water_mark = c.used } in
      let w : IsValid c₁ = record {
        water = omega arith;
        room = v.room;
        bound = v.bound;
        small = v.small;
        array = v.array;
      } in
      let m = plain_plunder_loop-Moved b replies c.low_water_mark c₁ w h in
      elim (Bool-cases (c.max_capacity == 0)) [
        | inl e ↦ rw e (Moved-none fl most c)
        | inr e ↦ elim (Bool-cases lock) [
          | inr l ↦ rw e (rw l (Moved-none fl most c))
          | inl l ↦ rw e (
              rw l
                (record { calls = m.calls; freelist = m.freelist; fits = m.fits; kept = m.kept }))
        ]
      ]

  pub plain_shrink-Moved :
      (n : ℕ) (c : Cache Store) → IsValid c → n ≤ most → Moved fl most [] c (plain_shrink fl n c).1
  unfolding plain_shrink occurrences sent times Fits
  plain_shrink-Moved n c v h =
      let unused = c.capacity - c.used in
      let k = min n c.capacity in
      let d = k - unused in
      elim (Bool-cases (c.capacity == 0)) [
        | inl e ↦ rw e (Moved-none fl most c)
        | inr e ↦ elim (Bool-cases (leb c.capacity n)) [
          | inl e' ↦ rw e (rw e' (Moved-none fl most c))
          | inr e' ↦ elim (Bool-cases (leb k unused)) [
            | inl e'' ↦ rw e (
                rw e' (
                  rw e'' (
                    unfold sent times Fits in
                    record { calls = []; freelist = refl; fits = tt; kept = λ a. omega arith })))
            | inr e'' ↦
                let n₁ = length-top d c v (omega (arith, v.room)) in
                let c' : Cache Store = record c {
                  capacity = c.capacity - k;
                  used = c.used - d;
                  low_water_mark = min c.low_water_mark (c.used - d);
                  freelist = insert_range (take d (drop (c.used - d) c.slots)) c.freelist;
                } in
                rw e (
                  rw e' (
                    rw e'' (
                      Moved-call fl most [] (take d (drop (c.used - d) c.slots)) c c' refl
                        (ground (arith, e'', n₁)) (omega arith)
                        (λ a. occurrences-top d c (omega (arith, v.room)) a ∙ omega arith))))
          ]
        ]
      ]
