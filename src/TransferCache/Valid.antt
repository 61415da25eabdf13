-- ===== src/TransferCache/Valid.antt =====
-- The invariant of the slots.
use tcmalloc.Base.{
  ℕ, ◌-◌, ◌^◌, ◌≤◌, ◌<◌, min, ◌≡◌, Bool, List, [], ◌∷◌, arith, length, take, drop, length-write,
}
use tcmalloc.TransferCache.Defs.{FreeList, Cache, insert_rest}
use tcmalloc.TransferCache.Plain.{
  plain_fill, plain_insert, plain_remove, plain_plunder_turn, plain_plunder_loop, plain_shrink,
}

pub record IsValid {S : Type 0} (c : Cache S) : Type 0 where
  pub water : c.low_water_mark ≤ c.used
  pub room : c.used ≤ c.capacity
  pub bound : c.capacity ≤ c.max_capacity
  pub small : c.max_capacity < 2 ^ 31
  pub array : length c.slots ≡ c.max_capacity

module _ (fl : FreeList) where
  open fl use {Store}

  plain_fill-IsValid :
      (got : ℕ) (batch : List ℕ) (c : Cache Store)
      → IsValid c
      → got ≤ c.capacity - c.used
      → IsValid (plain_fill fl got batch c)
  unfolding plain_fill
  plain_fill-IsValid got batch c v h = ground (arith, length-write c.slots c.used (take got batch))

  insert_rest-IsValid :
      (batch : List ℕ) (c : Cache Store) → IsValid c → IsValid (insert_rest fl batch c)
  unfolding insert_rest
  insert_rest-IsValid batch c v = ground arith

  pub plain_insert-IsValid :
      (batch : List ℕ) (c : Cache Store) → IsValid c → IsValid (plain_insert fl batch c)
  unfolding plain_insert
  plain_insert-IsValid batch c v =
      let got = min (length batch) (c.capacity - c.used) in
      let filled = plain_fill-IsValid got batch c v (omega arith) in
      ground (
        arith,
        filled,
        insert_rest-IsValid batch c v,
        insert_rest-IsValid (drop got batch) (plain_fill fl got batch c) filled,
      )

  pub plain_remove-IsValid : (n : ℕ) (c : Cache Store) → IsValid c → IsValid (plain_remove fl n c).1
  unfolding plain_remove
  plain_remove-IsValid n c v = ground arith

  pub plain_plunder_turn-IsValid :
      (k : ℕ) (c : Cache Store) → IsValid c → IsValid (plain_plunder_turn fl k c)
  unfolding plain_plunder_turn
  plain_plunder_turn-IsValid k c v = ground arith

  pub plain_plunder_loop-IsValid :
      (b : ℕ) (replies : List Bool) (to_return : ℕ) (c : Cache Store)
      → IsValid c
      → IsValid (plain_plunder_loop fl b replies to_return c)
  unfolding plain_plunder_loop
  plain_plunder_loop-IsValid b [] to_return c v =
      ground (arith, plain_plunder_turn-IsValid (min (min b c.used) to_return) c v)
  plain_plunder_loop-IsValid b (taken ∷ replies) to_return c v =
      let k = min (min b c.used) to_return in
      let turned = plain_plunder_turn-IsValid k c v in
      let more =
        plain_plunder_loop-IsValid b replies (to_return - k) (plain_plunder_turn fl k c) turned in
      ground (arith, turned, more)

  pub plain_shrink-IsValid : (n : ℕ) (c : Cache Store) → IsValid c → IsValid (plain_shrink fl n c).1
  unfolding plain_shrink
  plain_shrink-IsValid n c v = ground arith
