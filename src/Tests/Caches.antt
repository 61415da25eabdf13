-- ===== src/Tests/Caches.antt =====
-- A cache of six slots over a list as the central free list.
use tcmalloc.Base.{
  ℕ, ◌+◌, ◌-◌, ◌*◌, ◌/◌, ◌≤◌, ◌<◌, min, max, ◌≡◌, refl, true, false, some, List, [], ◌∷◌, ◌++◌,
  arith, ltb, take, drop,
}
use tcmalloc.TransferCache.Defs.{
  FreeList, Cache, MissCounts, insert, remove, try_plunder, increase_capacity, shrink,
  capacity_needed, contents,
}
use tcmalloc.TransferCache.Valid.{IsValid}
use tcmalloc.TransferCache.Kept.{operations-IsValid}
use tcmalloc.TransferCache.Calls.{Moved}
use tcmalloc.TransferCache.Objects.{Taken, operations_conserve, remove-insert}
use tcmalloc.TransferCache.Plunder.{all_taken, try_plunder_lem}
use tcmalloc.TransferCache.Capacity.{capacity_needed_bounds, shrink_lem}

abbrev list_store : FreeList
list_store = record {
  Store = List ℕ;
  insert_range = λ batch f. f ++ batch;
  remove_range = λ n f. (take n f, drop n f);
}

abbrev zero_counts : MissCounts
zero_counts = record { total = 0; committed = 0 }

abbrev three_objects : Cache (List ℕ)
three_objects = record {
  low_water_mark = 2;
  used = 3;
  capacity = 5;
  slots = 101 ∷ 102 ∷ 103 ∷ 0 ∷ 0 ∷ 0 ∷ [];
  freelist = 104 ∷ [];
  max_capacity = 6;
  insert_hits = 0;
  insert_misses = 0;
  remove_hits = 0;
  remove_object_hits = 0;
  remove_misses = 0;
  insert_object_misses = zero_counts;
  remove_object_misses = zero_counts;
}

three_objects-IsValid : IsValid three_objects
three_objects-IsValid = record {
  water = omega arith;
  room = omega arith;
  bound = omega arith;
  small = omega arith;
  array = refl;
}

abbrev two_more : List ℕ
two_more = 105 ∷ 106 ∷ []

abbrev five_more : List ℕ
five_more = 105 ∷ 106 ∷ 107 ∷ 108 ∷ 109 ∷ []

operations-IsValid_example :
    IsValid (insert list_store five_more three_objects)
    × IsValid (remove list_store 9 three_objects).1
    × IsValid (try_plunder list_store 2 true (true ∷ []) three_objects)
    × IsValid (increase_capacity list_store 2 three_objects).1
    × IsValid (shrink list_store 2 three_objects).1
operations-IsValid_example =
    operations-IsValid list_store three_objects five_more 9 2 true (true ∷ []) three_objects-IsValid
      (omega arith) (omega arith) (omega arith)

operations_conserve_example :
    Moved list_store 128 five_more three_objects (insert list_store five_more three_objects)
    × Taken list_store 9 three_objects (remove list_store 9 three_objects)
    × Moved list_store 128 [] three_objects
        (try_plunder list_store 3 true (true ∷ []) three_objects)
    × Moved list_store 128 [] three_objects (shrink list_store 3 three_objects).1
operations_conserve_example =
    operations_conserve list_store five_more 9 3 true (true ∷ []) three_objects
      three_objects-IsValid (omega arith) (omega arith) (omega arith) (omega arith) (omega arith)

remove-insert_example :
    let (out, c') = remove list_store 2 (insert list_store two_more three_objects) in
    (out ≡ two_more)
    × (contents list_store c' ≡ contents list_store three_objects)
    × (c'.freelist ≡ 104 ∷ [])
remove-insert_example =
    remove-insert list_store two_more three_objects three_objects-IsValid (omega arith)
      (omega arith)

try_plunder_lem_example :
    let c' = try_plunder list_store 1 true (all_taken 2) three_objects in
    (c'.used ≡ 3 - 2) × (c'.low_water_mark ≡ c'.used)
try_plunder_lem_example =
    try_plunder_lem list_store 1 2 three_objects three_objects-IsValid (omega arith) (omega arith)
      (omega arith) (omega arith)

capacity_needed_bounds_example :
    (capacity : ℕ) × (max_capacity : ℕ) × (capacity_needed 3 32 32 ≡ some (capacity, max_capacity))
    × (0 < capacity)
    × (capacity ≤ max_capacity)
    × (max_capacity ≡ min 64 (max 1 (1024 * 1024 / (32 * 32))) * 32)
    × (max_capacity ≤ 64 * 32)
capacity_needed_bounds_example =
    capacity_needed_bounds 3 32 32 (omega arith) (omega arith) (omega arith) (omega arith)
      (omega arith)

shrink_lem_example :
    let (done, c') = shrink list_store 3 three_objects in
    (done ≡ ltb 3 5)
    × (done ≡ true → (c'.capacity + 3 ≡ 5) × (c'.used ≡ min 3 (5 - 3)))
    × (done ≡ false → c' ≡ three_objects)
shrink_lem_example = shrink_lem list_store 3 three_objects three_objects-IsValid (omega arith)
