-- ===== src/TransferCache/Capacity.antt =====
-- How the capacity is chosen and how it changes.
use tcmalloc.Base.{
  ℕ, ◌+◌, ◌-◌, ◌*◌, ◌/◌, ◌^◌, ◌≤◌, ◌<◌, min, max, ◌≡◌, refl, subst, sym, true, false, some, arith,
  dec_lt, ltb, ◌==◌, int, int_min, int_max, int_min_lem, int_max_lem,
}
use native.Mathlib.Nat.{mul-pos, mul-le-mul, div-le_self}
use tcmalloc.Pages.Length.{word}
use tcmalloc.TransferCache.Defs.{FreeList, Cache, shrink, capacity_needed}
use tcmalloc.TransferCache.Plain.{plain_shrink}
use tcmalloc.TransferCache.Agree.{shrink-plain_shrink}
use tcmalloc.TransferCache.Valid.{IsValid}

scale_min : (a b o : ℕ) → min (a * o) (b * o) ≡ min a b * o
scale_min a b o = elim (dec_lt a b) [
  | yes h ↦ let e : min a b ≡ a = omega arith in rw e (grind arith)
  | no h ↦ let e : min a b ≡ b = omega arith in rw e (grind arith)
]

scale_max : (a b o : ℕ) → max (a * o) (b * o) ≡ max a b * o
scale_max a b o = elim (dec_lt a b) [
  | yes h ↦ let e : max a b ≡ b = omega arith in rw e (grind arith)
  | no h ↦ let e : max a b ≡ a = omega arith in rw e (grind arith)
]

-- The maximum in numbers.
maximum : ℕ → ℕ → ℕ
maximum bytes objs = min (64 * objs) (max objs (1024 * 1024 / (bytes * objs) * objs))

-- For a size class in use, with objects of 1 byte to 256 KiB and batches of 1 to 128 objects,
-- which the checks of the size classes give, CapacityNeeded does not divide by zero and nothing
-- is narrowed: both capacities are positive, the initial one is at most the maximum, and the
-- maximum is a whole number of batches between one and 64: as many as fit one MiB.
pub capacity_needed_bounds :
    (size_class bytes objs : ℕ)
    → 0 < size_class
    → 0 < bytes
    → bytes ≤ 2 ^ 18
    → 0 < objs
    → objs ≤ 128
    → (capacity : ℕ) × (max_capacity : ℕ) × (capacity_needed size_class bytes objs
        ≡ some (capacity, max_capacity))
      × (0 < capacity)
      × (capacity ≤ max_capacity)
      × (max_capacity ≡ min 64 (max 1 (1024 * 1024 / (bytes * objs))) * objs)
      × (max_capacity ≤ 64 * objs)
unfolding capacity_needed maximum
capacity_needed_bounds size_class bytes objs h k k' l l' =
    let low : 0 < bytes * objs = mul-pos k l in
    let high : bytes * objs ≤ 2 ^ 18 * 128 = mul-le-mul k' l' in
    let batches = 1024 * 1024 / (bytes * objs) in
    let few : batches ≤ 1024 * 1024 = div-le_self (1024 * 1024) (bytes * objs) in
    let room : batches * objs ≤ 1024 * 1024 * 128 = mul-le-mul few l' in
    let e₁ : word (bytes * objs) ≡ bytes * objs = omega arith in
    let e₂ : int (word (batches * objs)) ≡ batches * objs = omega arith in
    let e₃ : int (word (64 * objs)) ≡ 64 * objs = omega arith in
    let e₄ : int objs ≡ objs = omega arith in
    let e₅ : int_max objs (batches * objs) ≡ max objs (batches * objs) =
      int_max_lem objs (batches * objs) (omega arith) (omega arith) in
    let m = maximum bytes objs in
    let e₆ : int_min (64 * objs) (max objs (batches * objs)) ≡ m =
      int_min_lem (64 * objs) (max objs (batches * objs)) (omega arith) (omega arith) in
    let e₇ : int (word (16 * objs)) ≡ 16 * objs = omega arith in
    let e₈ : int_min (16 * objs) m ≡ min (16 * objs) m =
      int_min_lem (16 * objs) m (omega arith) (omega arith) in
    let s₀ : (size_class == 0) ≡ false = ground arith in
    let b₀ : (bytes == 0) ≡ false = ground arith in
    let p₀ : (bytes * objs == 0) ≡ false = ground arith in
    (
      min (16 * objs) m,
      m,
      rw e₁ (rw e₂ (rw e₃ (rw e₄ (rw e₅ (rw e₆ (rw e₇ (rw e₈ (rw s₀ (rw b₀ (rw p₀ refl)))))))))),
      omega arith,
      omega arith,
      ground (arith, scale_max 1 batches objs, scale_min 64 (max 1 batches) objs),
      omega arith,
    )

plain_shrink_lem :
    (fl : FreeList) (n : ℕ) (c : Cache fl.Store)
    → IsValid c
    → let (done, c') = plain_shrink fl n c in
      (done ≡ ltb n c.capacity)
      × (done ≡ true → (c'.capacity + n ≡ c.capacity) × (c'.used ≡ min c.used (c.capacity - n)))
      × (done ≡ false → c' ≡ c)
unfolding plain_shrink
plain_shrink_lem fl n c v = (ground arith, (λ h. ground arith), (λ h. ground arith))

-- Shrinking a valid cache, with a batch size that is an int, succeeds exactly when more than one
-- batch of capacity is left; it then takes one batch off and keeps as many objects as still fit,
-- and else changes nothing.
pub shrink_lem :
    (fl : FreeList) (n : ℕ) (c : Cache fl.Store)
    → IsValid c
    → n < 2 ^ 31
    → let (done, c') = shrink fl n c in
      (done ≡ ltb n c.capacity)
      × (done ≡ true → (c'.capacity + n ≡ c.capacity) × (c'.used ≡ min c.used (c.capacity - n)))
      × (done ≡ false → c' ≡ c)
shrink_lem fl n c v h =
    subst
      (λ z.
        (z.0 ≡ ltb n c.capacity)
        × (z.0 ≡ true → (z.1.capacity + n ≡ c.capacity) × (z.1.used ≡ min c.used (c.capacity - n)))
        × (z.0 ≡ false → z.1 ≡ c))
      (sym (shrink-plain_shrink fl n c v h)) (plain_shrink_lem fl n c v)
