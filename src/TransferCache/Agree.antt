-- ===== src/TransferCache/Agree.antt =====
-- The operations on `int`s and those on numbers, on a valid cache and with batches that fit an `int`.
use tcmalloc.Base.{
  ℕ, ◌+◌, ◌-◌, ◌^◌, ◌≤◌, ◌<◌, min, ◌≡◌, refl, ap, ◌∙◌, inl, inr, Bool, not, List, [], ◌∷◌, arith,
  ltb, leb, Bool-cases, length, int, widen, int_add, int_sub, int_lt, int_min, int_small, widen_lem,
  int_add_lem, int_sub_lem, int_lt_lem, int_min_lem,
}
use tcmalloc.TransferCache.Defs.{
  FreeList, Cache, fill, insert, remove, plunder_turn, plunder_loop, try_plunder, increase_capacity,
  shrink,
}
use tcmalloc.TransferCache.Plain.{
  plain_fill, plain_insert, plain_remove, plain_plunder_turn, plain_plunder_loop, plain_try_plunder,
  plain_increase_capacity, plain_shrink,
}
use tcmalloc.TransferCache.Valid.{IsValid}

module _ (fl : FreeList) where
  open fl use {Store}

  fill-plain_fill :
      (got : ℕ) (batch : List ℕ) (c : Cache Store)
      → c.used + got < 2 ^ 31
      → fill fl got batch c ≡ plain_fill fl got batch c
  unfolding fill plain_fill
  fill-plain_fill got batch c h =
      let e : int_add c.used got ≡ c.used + got = int_add_lem c.used got (omega arith) in
      let e' : int_sub (c.used + got) got ≡ c.used =
        int_sub_lem (c.used + got) got (omega arith) (omega arith) ∙ omega arith in
      rw e (rw e' refl)

  pub insert-plain_insert :
      (batch : List ℕ) (c : Cache Store)
      → IsValid c
      → length batch < 2 ^ 31
      → insert fl batch c ≡ plain_insert fl batch c
  unfolding insert plain_insert
  insert-plain_insert batch c v h =
      let n = length batch in
      let e₁ : int n ≡ n = int_small n h in
      let e₂ : int_sub c.capacity c.used ≡ c.capacity - c.used =
        int_sub_lem c.capacity c.used v.room (omega (arith, v.bound, v.small)) in
      let small : c.capacity < 2 ^ 31 = omega (arith, v.bound, v.small) in
      let e₃ : int_min n (c.capacity - c.used) ≡ min n (c.capacity - c.used) =
        int_min_lem n (c.capacity - c.used) h (omega arith) in
      let e₄ : int_lt c.used c.capacity ≡ ltb c.used c.capacity =
        int_lt_lem c.used c.capacity (omega (arith, v.room)) small in
      let got = min n (c.capacity - c.used) in
      let e₅ : int_lt 0 got ≡ ltb 0 got = int_lt_lem 0 got (omega arith) (omega arith) in
      let e₆ = fill-plain_fill got batch c (omega (arith, v.room)) in
      rw e₁ (rw e₂ (rw e₃ (rw e₄ (rw e₅ (rw e₆ refl)))))

  pub remove-plain_remove :
      (n : ℕ) (c : Cache Store) → IsValid c → n < 2 ^ 31 → remove fl n c ≡ plain_remove fl n c
  unfolding remove plain_remove
  remove-plain_remove n c v h =
      let small : c.used < 2 ^ 31 = omega (arith, v.room, v.bound, v.small) in
      let e₁ : int n ≡ n = int_small n h in
      let e₂ : int_min n c.used ≡ min n c.used = int_min_lem n c.used h small in
      let got = min n c.used in
      let e₃ : int_sub c.used got ≡ c.used - got =
        int_sub_lem c.used got (omega arith) (omega arith) in
      let e₄ : widen got ≡ got = widen_lem got (omega arith) in
      let e₅ : int_min c.low_water_mark (c.used - got) ≡ min c.low_water_mark (c.used - got) =
        int_min_lem c.low_water_mark (c.used - got) (omega (arith, v.water)) (omega arith) in
      rw e₁ (rw e₂ (rw e₃ (rw e₄ (rw e₅ refl))))

  plunder_turn-plain_plunder_turn :
      (k : ℕ) (c : Cache Store)
      → k ≤ c.used
      → c.used < 2 ^ 31
      → plunder_turn fl k c ≡ plain_plunder_turn fl k c
  unfolding plunder_turn plain_plunder_turn
  plunder_turn-plain_plunder_turn k c h small =
      let e : int_sub c.used k ≡ c.used - k = int_sub_lem c.used k h (omega arith) in rw e refl

  min_of_three :
      (b used to_return : ℕ)
      → b < 2 ^ 31
      → used < 2 ^ 31
      → to_return < 2 ^ 31
      → int_min (int_min b used) to_return ≡ min (min b used) to_return
  min_of_three b used to_return h k l =
      let e : int_min b used ≡ min b used = int_min_lem b used h k in
      rw e (int_min_lem (min b used) to_return (omega arith) l)

  pub plunder_loop-plain_plunder_loop :
      (b : ℕ) (replies : List Bool) (to_return : ℕ) (c : Cache Store)
      → b < 2 ^ 31
      → to_return < 2 ^ 31
      → c.used < 2 ^ 31
      → plunder_loop fl b replies to_return c ≡ plain_plunder_loop fl b replies to_return c
  unfolding plunder_loop plain_plunder_loop plain_plunder_turn
  plunder_loop-plain_plunder_loop b [] to_return c h k l =
      let e = min_of_three b c.used to_return h l k in
      let e' = plunder_turn-plain_plunder_turn (min (min b c.used) to_return) c (omega arith) l in
      rw e (rw e' refl)
  plunder_loop-plain_plunder_loop b (taken ∷ replies) to_return c h k l =
      let m = min (min b c.used) to_return in
      let e = min_of_three b c.used to_return h l k in
      let e' = plunder_turn-plain_plunder_turn m c (omega arith) l in
      let d : int_sub to_return m ≡ to_return - m =
        int_sub_lem to_return m (omega arith) (omega arith) in
      let more =
        plunder_loop-plain_plunder_loop b replies (to_return - m) (plain_plunder_turn fl m c) h
          (omega arith) (omega arith) in
      rw e (rw e' (rw d (rw more refl)))

  pub try_plunder-plain_try_plunder :
      (b : ℕ) (lock : Bool) (replies : List Bool) (c : Cache Store)
      → IsValid c
      → b < 2 ^ 31
      → try_plunder fl b lock replies c ≡ plain_try_plunder fl b lock replies c
  unfolding try_plunder plain_try_plunder
  try_plunder-plain_try_plunder b lock replies c v h =
      let small : c.used < 2 ^ 31 = omega (arith, v.room, v.bound, v.small) in
      let e : int b ≡ b = int_small b h in
      let e' =
        plunder_loop-plain_plunder_loop b replies c.low_water_mark
          (record c { low_water_mark = c.used }) h (omega (arith, v.water)) small in
      rw e (rw e' refl)

  pub increase_capacity-plain_increase_capacity :
      (n : ℕ) (c : Cache Store)
      → IsValid c
      → c.max_capacity + n < 2 ^ 31
      → increase_capacity fl n c ≡ plain_increase_capacity fl n c
  unfolding increase_capacity plain_increase_capacity
  increase_capacity-plain_increase_capacity n c v h =
      let e₁ : int n ≡ n = int_small n (omega arith) in
      let e₂ : int_add c.capacity n ≡ c.capacity + n =
        int_add_lem c.capacity n (omega (arith, v.bound)) in
      let e₃ : int_lt c.max_capacity (c.capacity + n) ≡ ltb c.max_capacity (c.capacity + n) =
        int_lt_lem c.max_capacity (c.capacity + n) v.small (omega (arith, v.bound)) in
      rw e₁ (rw e₂ (rw e₃ refl))

  pub shrink-plain_shrink :
      (n : ℕ) (c : Cache Store) → IsValid c → n < 2 ^ 31 → shrink fl n c ≡ plain_shrink fl n c
  unfolding shrink plain_shrink
  shrink-plain_shrink n c v h =
      let small : c.capacity < 2 ^ 31 = omega (arith, v.bound, v.small) in
      let e₁ : int n ≡ n = int_small n h in
      let unused = c.capacity - c.used in
      let e₂ : int_sub c.capacity c.used ≡ unused =
        int_sub_lem c.capacity c.used v.room (omega arith) in
      let e₃ : int_min n c.capacity ≡ min n c.capacity = int_min_lem n c.capacity h small in
      let k = min n c.capacity in
      let e₄ : not (int_lt n c.capacity) ≡ leb c.capacity n =
        ap not (int_lt_lem n c.capacity h small) ∙ ground arith in
      let e₅ : not (int_lt unused k) ≡ leb k unused =
        ap not (int_lt_lem unused k (omega arith) (omega arith)) ∙ ground arith in
      let e₆ : int_sub c.capacity k ≡ c.capacity - k =
        int_sub_lem c.capacity k (omega arith) (omega arith) in
      let d = k - unused in
      let e₇ : int_sub c.used d ≡ c.used - d =
        int_sub_lem c.used d (omega (arith, v.room)) (omega (arith, v.room)) in
      let e₈ : int_min c.low_water_mark (c.used - d) ≡ min c.low_water_mark (c.used - d) =
        int_min_lem c.low_water_mark (c.used - d) (omega (arith, v.water, v.room))
          (omega (arith, v.room)) in
      rw e₁ (
        rw e₂ (
          rw e₃ (
            rw e₄ (
              rw e₅ (
                rw e₆ (elim (Bool-cases (leb k unused)) [
                  | inl on ↦ rw on refl
                  | inr off ↦
                      let e₉ : int_sub k unused ≡ d =
                        int_sub_lem k unused (ground (arith, off)) (omega arith) in
                      rw off (rw e₉ (rw e₇ (rw e₈ refl)))
                ]))))))
