-- ===== src/HugeAddressMap/Map.antt =====
-- `HugeAddressMap` of tcmalloc/huge_address_map.h and .cc: the treap with its counters.
pub mod Valid
pub mod Neighbours
use tcmalloc.Base.{
  ℕ, ◌+◌, ◌%◌, ◌^◌, Bool, false, not, Option, none, some, ◌==◌, if◌then◌else◌, ◌>>=◌, ◌>>◌, check,
}
use tcmalloc.Pages.Length.{word, word_sub}
use tcmalloc.Pages.HugeRange.{HugeRange, intersects, precedes, join}
use tcmalloc.HugeAddressMap.Random.{next_random, get_random}
use tcmalloc.HugeAddressMap.Tree.{
  Tree, leaf, first, predecessor, next, set_range, insert_node, remove_at,
}

-- The freelist of unused nodes is kept as its size: what is on it is constructed anew when it is
-- taken (`new (ret) Node`).
pub record HugeAddressMap : Type 0 where
  pub root : Tree
  pub used_nodes : ℕ
  pub total_size : ℕ
  pub freelist_size : ℕ
  pub total_nodes : ℕ
  pub seed : ℕ

abbrev pub empty : HugeAddressMap
empty = record {
  root = leaf;
  used_nodes = 0;
  total_size = 0;
  freelist_size = 0;
  total_nodes = 0;
  seed = 0;
}

abbrev pub nranges : HugeAddressMap → ℕ
nranges m = m.used_nodes

abbrev pub total_mapped : HugeAddressMap → ℕ
total_mapped m = m.total_size

-- `Get`: the priority of the new node, and the counters after it. The uint32_t of `GetRandom`
-- becomes an `int`, kept with 2 ^ 31 added.
unfoldable pub get : HugeAddressMap → ℕ × HugeAddressMap
unfolding next_random get_random
get m =
    let seed' = next_random m.seed in
    let prio = (get_random seed' + 2 ^ 31) % 2 ^ 32 in
    if m.freelist_size == 0
    then (
      prio,
      record m {
        used_nodes = word (m.used_nodes + 1);
        seed = seed';
        total_nodes = word (m.total_nodes + 1);
      },
    )
    else (
      prio,
      record m {
        used_nodes = word (m.used_nodes + 1);
        seed = seed';
        freelist_size = word_sub m.freelist_size 1;
      },
    )

unfoldable pub put : HugeAddressMap → HugeAddressMap
put m = record m {
  freelist_size = word (m.freelist_size + 1);
  used_nodes = word_sub m.used_nodes 1;
}

-- `Remove` of the node with the range `r`.
unfoldable pub remove : HugeRange → HugeAddressMap → HugeAddressMap
unfolding put
remove r m =
    put (record m { total_size = word_sub m.total_size r.n; root = remove_at r.first m.root })

-- `Merge`: `before` and `after` are the nodes that `b` and `a` point to. With neither the code
-- would read through a null pointer, which is a fault too.
unfoldable pub merge :
    Option HugeRange → HugeRange → Option HugeRange → HugeAddressMap → Option HugeAddressMap
unfolding remove
merge none r none m = none
merge (some b) r none m = do
  full ← join b r
  some (record m { root = set_range b.first full m.root })
merge none r (some a) m = do
  full ← join r a
  some (record m { root = set_range a.first full m.root })
merge (some b) r (some a) m = do
  partial ← join r a
  full ← join b partial
  let m' = remove a (record m { total_size = word (m.total_size + a.n) })
  some (record m' { root = set_range b.first full m'.root })

-- `node && node->range_ test`, for a node pointer.
abbrev pub holds : Option HugeRange → (HugeRange → Bool) → Bool
holds none test = false
holds (some x) test = test x

-- `before ? before->next() : first()`
unfoldable pub after_of : Tree → Option HugeRange → Option HugeRange
after_of t none = first t
after_of t (some b) = next t b.first

-- The last part of `Insert`: a new node.
unfoldable pub add_node : HugeRange → HugeAddressMap → HugeAddressMap
unfolding get
add_node r m = let (prio, m') = get m in record m' { root = (insert_node r prio m'.root).0 }

-- `Insert` from where `before` and `after` are known.
unfoldable pub insert_between :
    Option HugeRange → Option HugeRange → HugeRange → HugeAddressMap → Option HugeAddressMap
unfolding merge add_node
insert_between before after r m = do
  check (not (holds after (λ x. intersects x r)))
  let joins_before = holds before (λ x. precedes x r)
  let joins_after = holds after (λ x. precedes r x)
  if joins_before
      then (if joins_after then merge before r after m else merge before r none m)
      else if joins_after
      then merge none r after m
      else some (add_node r m)

unfoldable pub insert : HugeRange → HugeAddressMap → Option HugeAddressMap
unfolding insert_between after_of
insert r m₀ = do
  let m = record m₀ { total_size = word (m₀.total_size + r.n) }
  let before = predecessor m.root r.first
  check (not (holds before (λ x. intersects x r)))
  insert_between before (after_of m.root before) r m
