-- ===== src/TransferCache/Defs.antt =====
-- The cache's state and operations. An object is the number of its address. A method holds `lock_`
-- while it uses the slots; what it does to the free list it does after the release of the lock.
-- Each method is modelled as running by itself.
use tcmalloc.Base.{
  ℕ, ◌+◌, ◌-◌, ◌*◌, ◌/◌, Bool, true, false, not, ◌||◌, Option, none, some, List, [], ◌∷◌, ltb, ◌==◌,
  if◌then◌else◌, length, take, drop, write, int, widen, int_add, int_sub, int_lt, int_min, int_max,
}
use tcmalloc.Pages.Length.{word}

-- `CentralFreeList` is a parameter of the template: the calls that the cache makes of it, of which
-- nothing is assumed. `remove_range` gives the objects that it stores in a batch of so many places.
pub record FreeList : Type 1 where
  pub Store : Type 0
  pub insert_range : List ℕ → Store → Store
  pub remove_range : ℕ → Store → List ℕ × Store

abbrev pub max_objects_to_move : ℕ
max_objects_to_move = 128

-- `MissCounts`: the two atomics.
pub record MissCounts : Type 0 where
  pub total : ℕ
  pub committed : ℕ

unfoldable pub inc : ℕ → MissCounts → MissCounts
inc value c = record c { total = word (c.total + value) }

unfoldable pub commit : MissCounts → ℕ × MissCounts
commit c =
    (if ltb c.committed c.total then c.total - c.committed else 0, record c { committed = c.total })

-- `slot_info_` is the pair of `used` and `capacity`. Both, `low_water_mark` and `max_capacity` are
-- `int`s, and hold the bits of one.
pub record Cache (Store : Type 0) : Type 0 where
  pub low_water_mark : ℕ
  pub used : ℕ
  pub capacity : ℕ
  pub slots : List ℕ
  pub freelist : Store
  pub max_capacity : ℕ
  pub insert_hits : ℕ
  pub insert_misses : ℕ
  pub remove_hits : ℕ
  pub remove_object_hits : ℕ
  pub remove_misses : ℕ
  pub insert_object_misses : MissCounts
  pub remove_object_misses : MissCounts

module _ (fl : FreeList) where
  open fl use {Store, insert_range, remove_range}

  -- The objects in the slots, the one that goes out last first.
  abbrev pub contents : Cache Store → List ℕ
  contents c = take c.used c.slots

  -- The part of `InsertRange` under the lock, when there is room for `got` objects.
  unfoldable pub fill : ℕ → List ℕ → Cache Store → Cache Store
  fill got batch c = record c {
    used = int_add c.used got;
    slots = write c.slots (int_sub (int_add c.used got) got) (take got batch);
    insert_hits = word (c.insert_hits + 1);
  }

  -- The part of `InsertRange` behind the lock.
  unfoldable pub insert_rest : List ℕ → Cache Store → Cache Store
  unfolding inc
  insert_rest batch c = record c {
    insert_misses = word (c.insert_misses + 1);
    insert_object_misses = inc (length batch) c.insert_object_misses;
    freelist = insert_range batch c.freelist;
  }

  -- `InsertRange`. There is room when `capacity` exceeds `used`, and the refetched `info` is the
  -- same one.
  unfoldable pub insert : List ℕ → Cache Store → Cache Store
  insert batch c =
      let n = int (length batch) in
      let got = int_min n (int_sub c.capacity c.used) in
      if int_lt c.used c.capacity
      then (if int_lt 0 got
          then (if got == n
              then fill got batch c
              else insert_rest (drop got batch) (fill got batch c))
          else insert_rest batch c)
      else insert_rest batch c

  -- `RemoveRange` into a batch of `n` places: the objects that it stores there. Any `int` but 0 is
  -- true.
  unfoldable pub remove : ℕ → Cache Store → List ℕ × Cache Store
  unfolding inc
  remove n c =
      let got = int_min (int n) c.used in
      let miss : List ℕ × Cache Store =
        let (objects, f) = remove_range n c.freelist in
        (
          objects,
          record c {
            remove_misses = word (c.remove_misses + 1);
            remove_object_misses = inc n c.remove_object_misses;
            freelist = f;
          },
        ) in
      if not (c.used == 0)
      then (if not (got == 0)
          then (
            take got (drop (int_sub c.used got) c.slots),
            record c {
              used = int_sub c.used got;
              remove_hits = word (c.remove_hits + 1);
              remove_object_hits = word (c.remove_object_hits + widen got);
              low_water_mark = int_min c.low_water_mark (int_sub c.used got);
            },
          )
          else miss)
      else miss

  -- One turn of `TryPlunder`'s loop: `k` objects go to the free list.
  unfoldable pub plunder_turn : ℕ → Cache Store → Cache Store
  plunder_turn k c = record c {
    used = int_sub c.used k;
    low_water_mark = int_sub c.used k;
    freelist = insert_range (take k (drop (int_sub c.used k) c.slots)) c.freelist;
  }

  -- The loop, with `b` objects a batch and `to_return` left. `lock_taken` are the replies of
  -- `try_lock` after each turn; when they run out the lock was not taken.
  unfoldable pub plunder_loop : ℕ → List Bool → ℕ → Cache Store → Cache Store
  unfolding plunder_turn
  plunder_loop b [] to_return c =
      let k = int_min (int_min b c.used) to_return in if k == 0 then c else plunder_turn k c
  plunder_loop b (taken ∷ replies) to_return c =
      let k = int_min (int_min b c.used) to_return in
      let more = plunder_loop b replies (int_sub to_return k) (plunder_turn k c) in
      if k == 0 then c else if taken then more else plunder_turn k c

  -- `TryPlunder`; `got_lock` is the reply of the first `try_lock`.
  unfoldable pub try_plunder : ℕ → Bool → List Bool → Cache Store → Cache Store
  unfolding plunder_loop
  try_plunder b got_lock replies c =
      if c.max_capacity == 0
      then c
      else if not got_lock
      then c
      else plunder_loop (int b) replies c.low_water_mark (record c { low_water_mark = c.used })

  -- `IncreaseCacheCapacity`, by the `n` objects of a batch.
  unfoldable pub increase_capacity : ℕ → Cache Store → Bool × Cache Store
  increase_capacity n c =
      if int_lt c.max_capacity (int_add c.capacity (int n))
      then (false, c)
      else (true, record c { capacity = int_add c.capacity (int n) })

  -- `max_capacity_ - info.capacity >= n`, in integers.
  unfoldable pub can_increase_capacity : ℕ → Cache Store → Bool
  can_increase_capacity n c = not (int_lt (int_sub c.max_capacity c.capacity) (int n))

  unfoldable pub has_spare_capacity : ℕ → Cache Store → Bool
  has_spare_capacity n c = not (int_lt (int_sub c.capacity c.used) (int n))

  -- `ShrinkCache`.
  unfoldable pub shrink : ℕ → Cache Store → Bool × Cache Store
  shrink n c =
      let unused = int_sub c.capacity c.used in
      let k = int_min (int n) c.capacity in
      let num_to_free = int_sub k unused in
      let used' = int_sub c.used num_to_free in
      if c.capacity == 0
      then (false, c)
      else if not (int_lt (int n) c.capacity)
      then (false, c)
      else if not (int_lt unused k)
      then (true, record c { capacity = int_sub c.capacity k })
      else (
        true,
        record c {
          capacity = int_sub c.capacity k;
          used = used';
          low_water_mark = int_min c.low_water_mark used';
          freelist = insert_range (take num_to_free (drop used' c.slots)) c.freelist;
        },
      )

  unfoldable pub fetch_commit_interval_misses : Cache Store → ℕ × Cache Store
  unfolding commit
  fetch_commit_interval_misses c =
      let (i, im) = commit c.insert_object_misses in
      let (r, rm) = commit c.remove_object_misses in
      (word (i + r), record c { insert_object_misses = im; remove_object_misses = rm })

-- `CapacityNeeded`, from `class_to_size` and `num_objects_to_move` of the size class: the initial
-- and the maximum capacity; `none` is the division by zero.
unfoldable pub capacity_needed : ℕ → ℕ → ℕ → Option (ℕ × ℕ)
capacity_needed size_class bytes objs_to_move =
    let product = word (bytes * objs_to_move) in
    let limit = int (word (1024 * 1024 / product * objs_to_move)) in
    let max_capacity =
      int_min (int (word (64 * objs_to_move))) (int_max (int objs_to_move) limit) in
    if size_class == 0 || bytes == 0
    then some (0, 0)
    else if product == 0
    then none
    else some (int_min (int (word (16 * objs_to_move))) max_capacity, max_capacity)
