-- ===== src/TransferCache/Kept.antt =====
-- The invariant of the slots under the operations on `int`s.
use tcmalloc.Base.{ℕ, ◌+◌, ◌^◌, ◌<◌, subst, sym, Bool, List, arith, length}
use tcmalloc.TransferCache.Defs.{
  FreeList, Cache, insert, remove, try_plunder, increase_capacity, shrink,
}
use tcmalloc.TransferCache.Plain.{plain_try_plunder, plain_increase_capacity}
use tcmalloc.TransferCache.Valid.{
  IsValid, plain_insert-IsValid, plain_remove-IsValid, plain_plunder_loop-IsValid,
  plain_shrink-IsValid,
}
use tcmalloc.TransferCache.Agree.{
  insert-plain_insert, remove-plain_remove, try_plunder-plain_try_plunder,
  increase_capacity-plain_increase_capacity, shrink-plain_shrink,
}

module _ (fl : FreeList) where
  open fl use {Store}

  plain_try_plunder-IsValid :
      (b : ℕ) (lock : Bool) (replies : List Bool) (c : Cache Store)
      → IsValid c
      → IsValid (plain_try_plunder fl b lock replies c)
  unfolding plain_try_plunder
  plain_try_plunder-IsValid b lock replies c v = ground (
    arith,
    plain_plunder_loop-IsValid fl b replies c.low_water_mark (record c { low_water_mark = c.used }),
  )

  plain_increase_capacity-IsValid :
      (n : ℕ) (c : Cache Store) → IsValid c → IsValid (plain_increase_capacity fl n c).1
  unfolding plain_increase_capacity
  plain_increase_capacity-IsValid n c v = ground arith

-- Every operation of the transfer cache keeps 0 <= low_water_mark <= used <= capacity <=
-- max_capacity in its signed ints and the size of the slot array, with batches that fit an int
-- and for which max_capacity and one batch more do, however the locks go.
pub operations-IsValid :
    (fl : FreeList) (c : Cache fl.Store) (batch : List ℕ) (n b : ℕ) (lock : Bool)
    (replies : List Bool)
    → IsValid c
    → length batch < 2 ^ 31
    → n < 2 ^ 31
    → c.max_capacity + b < 2 ^ 31
    → IsValid (insert fl batch c)
      × IsValid (remove fl n c).1
      × IsValid (try_plunder fl b lock replies c)
      × IsValid (increase_capacity fl b c).1
      × IsValid (shrink fl b c).1
operations-IsValid fl c batch n b lock replies v h k l = (
  subst IsValid (sym (insert-plain_insert fl batch c v h)) (plain_insert-IsValid fl batch c v),
  subst (λ z. IsValid z.1) (sym (remove-plain_remove fl n c v k)) (plain_remove-IsValid fl n c v),
  subst IsValid (sym (try_plunder-plain_try_plunder fl b lock replies c v (omega arith)))
      (plain_try_plunder-IsValid fl b lock replies c v),
  subst (λ z. IsValid z.1) (sym (increase_capacity-plain_increase_capacity fl b c v l))
      (plain_increase_capacity-IsValid fl b c v),
  subst (λ z. IsValid z.1) (sym (shrink-plain_shrink fl b c v (omega arith)))
      (plain_shrink-IsValid fl b c v),
)
