-- ===== src/TransferCache/Plunder.antt =====
-- `TryPlunder` when no other thread takes the lock: the objects not used since the last call go.
use tcmalloc.Base.{
  ℕ, zero, suc, ◌-◌, ◌^◌, ◌≤◌, ◌<◌, min, ◌≡◌, subst, sym, Bool, true, List, arith, replicate,
}
use tcmalloc.TransferCache.Defs.{FreeList, Cache, try_plunder}
use tcmalloc.TransferCache.Plain.{plain_plunder_turn, plain_plunder_loop, plain_try_plunder}
use tcmalloc.TransferCache.Agree.{try_plunder-plain_try_plunder}
use tcmalloc.TransferCache.Valid.{IsValid}

-- Enough replies of `try_lock`, all good.
abbrev pub all_taken : ℕ → List Bool
all_taken n = replicate n true

module _ (fl : FreeList) where
  open fl use {Store}

  -- With a batch size of at least 1 the loop returns all that is left to return, in as many turns
  -- as there are objects at most.
  plain_plunder_loop-all :
      (b turns to_return : ℕ) (c : Cache Store)
      → 0 < b
      → to_return ≤ turns
      → to_return ≤ c.used
      → c.low_water_mark ≡ c.used
      → ((plain_plunder_loop fl b (all_taken turns) to_return c).used ≡ c.used - to_return)
        × ((plain_plunder_loop fl b (all_taken turns) to_return c).low_water_mark
            ≡ c.used - to_return)
  unfolding plain_plunder_loop plain_plunder_turn
  plain_plunder_loop-all b zero to_return c h t u w = ground arith
  plain_plunder_loop-all b (suc turns) to_return c h t u w =
      let k = min (min b c.used) to_return in
      ground (arith, plain_plunder_loop-all b turns (to_return - k) (plain_plunder_turn fl k c) h)

plain_try_plunder-all :
    (fl : FreeList) (b turns : ℕ) (c : Cache fl.Store)
    → IsValid c
    → 0 < b
    → c.low_water_mark ≤ turns
    → 0 < c.max_capacity
    → let c' = plain_try_plunder fl b true (all_taken turns) c in
      (c'.used ≡ c.used - c.low_water_mark) × (c'.low_water_mark ≡ c'.used)
unfolding plain_try_plunder
plain_try_plunder-all fl b turns c v h t m = ground (
  arith,
  plain_plunder_loop-all fl b turns c.low_water_mark (record c { low_water_mark = c.used }) h t,
)

-- A plunder of a valid cache that is not disturbed, with a batch of at least 1 that is an int, a
-- positive maximum capacity and enough turns, takes exactly low_water_mark objects, those that
-- were not used since the last one, out of the slots; the mark is then at the objects that stay.
pub try_plunder_lem :
    (fl : FreeList) (b turns : ℕ) (c : Cache fl.Store)
    → IsValid c
    → 0 < b
    → b < 2 ^ 31
    → c.low_water_mark ≤ turns
    → 0 < c.max_capacity
    → let c' = try_plunder fl b true (all_taken turns) c in
      (c'.used ≡ c.used - c.low_water_mark) × (c'.low_water_mark ≡ c'.used)
try_plunder_lem fl b turns c v h k t m =
    subst (λ z. (z.used ≡ c.used - c.low_water_mark) × (z.low_water_mark ≡ z.used))
      (sym (try_plunder-plain_try_plunder fl b true (all_taken turns) c v k))
      (plain_try_plunder-all fl b turns c v h t m)
