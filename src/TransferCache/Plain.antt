-- ===== src/TransferCache/Plain.antt =====
-- The operations on numbers that neither wrap nor are negative.
use tcmalloc.Base.{
  ℕ, ◌+◌, ◌-◌, min, Bool, true, false, not, List, [], ◌∷◌, ltb, leb, ◌==◌, if◌then◌else◌, length,
  take, drop, write,
}
use tcmalloc.Pages.Length.{word}
use tcmalloc.TransferCache.Defs.{FreeList, Cache, inc, insert_rest}

module _ (fl : FreeList) where
  open fl use {Store, insert_range, remove_range}

  unfoldable pub plain_fill : ℕ → List ℕ → Cache Store → Cache Store
  plain_fill got batch c = record c {
    used = c.used + got;
    slots = write c.slots c.used (take got batch);
    insert_hits = word (c.insert_hits + 1);
  }

  unfoldable pub plain_insert : List ℕ → Cache Store → Cache Store
  plain_insert batch c =
      let got = min (length batch) (c.capacity - c.used) in
      if ltb c.used c.capacity
      then (if ltb 0 got
          then (if got == length batch
              then plain_fill got batch c
              else insert_rest fl (drop got batch) (plain_fill got batch c))
          else insert_rest fl batch c)
      else insert_rest fl batch c

  unfoldable pub plain_remove : ℕ → Cache Store → List ℕ × Cache Store
  unfolding inc
  plain_remove n c =
      let got = min n c.used in
      let miss : List ℕ × Cache Store =
        let (objects, f) = remove_range n c.freelist in
        (
          objects,
          record c {
            remove_misses = word (c.remove_misses + 1);
            remove_object_misses = inc n c.remove_object_misses;
            freelist = f;
          },
        ) in
      if not (c.used == 0)
      then (if not (got == 0)
          then (
            take got (drop (c.used - got) c.slots),
            record c {
              used = c.used - got;
              remove_hits = word (c.remove_hits + 1);
              remove_object_hits = word (c.remove_object_hits + got);
              low_water_mark = min c.low_water_mark (c.used - got);
            },
          )
          else miss)
      else miss

  unfoldable pub plain_plunder_turn : ℕ → Cache Store → Cache Store
  plain_plunder_turn k c = record c {
    used = c.used - k;
    low_water_mark = c.used - k;
    freelist = insert_range (take k (drop (c.used - k) c.slots)) c.freelist;
  }

  unfoldable pub plain_plunder_loop : ℕ → List Bool → ℕ → Cache Store → Cache Store
  unfolding plain_plunder_turn
  plain_plunder_loop b [] to_return c =
      let k = min (min b c.used) to_return in if k == 0 then c else plain_plunder_turn k c
  plain_plunder_loop b (taken ∷ replies) to_return c =
      let k = min (min b c.used) to_return in
      let more = plain_plunder_loop b replies (to_return - k) (plain_plunder_turn k c) in
      if k == 0 then c else if taken then more else plain_plunder_turn k c

  unfoldable pub plain_try_plunder : ℕ → Bool → List Bool → Cache Store → Cache Store
  unfolding plain_plunder_loop
  plain_try_plunder b got_lock replies c =
      if c.max_capacity == 0
      then c
      else if not got_lock
      then c
      else plain_plunder_loop b replies c.low_water_mark (record c { low_water_mark = c.used })

  unfoldable pub plain_increase_capacity : ℕ → Cache Store → Bool × Cache Store
  plain_increase_capacity n c =
      if ltb c.max_capacity (c.capacity + n)
      then (false, c)
      else (true, record c { capacity = c.capacity + n })

  unfoldable pub plain_shrink : ℕ → Cache Store → Bool × Cache Store
  plain_shrink n c =
      let unused = c.capacity - c.used in
      let k = min n c.capacity in
      let num_to_free = k - unused in
      let used' = c.used - num_to_free in
      if c.capacity == 0
      then (false, c)
      else if leb c.capacity n
      then (false, c)
      else if leb k unused
      then (true, record c { capacity = c.capacity - k })
      else (
        true,
        record c {
          capacity = c.capacity - k;
          used = used';
          low_water_mark = min c.low_water_mark used';
          freelist = insert_range (take num_to_free (drop used' c.slots)) c.freelist;
        },
      )
