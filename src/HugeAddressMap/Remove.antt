-- ===== src/HugeAddressMap/Remove.antt =====
-- `HugeAddressMap::Remove` of a node of the map.
use tcmalloc.Base.{ℕ, ◌+◌, ◌^◌, ◌≡◌, not, ◌&&◌, arith}
use tcmalloc.Pages.HugeLength.{max_page_number}
use tcmalloc.Pages.HugeRange.{HugeRange}
use tcmalloc.HugeAddressMap.Tree.Order.{Member, has, covers}
use tcmalloc.HugeAddressMap.Tree.Change.{
  remove_at-Bounded, remove_at-IsHeap, remove_at-IsExact, remove_at-total, remove_at-covers,
}
use tcmalloc.HugeAddressMap.Map.{HugeAddressMap, remove}
use tcmalloc.HugeAddressMap.Map.Valid.{IsValid, bounds_of}

-- Removing a range of a valid map leaves a valid map that covers the other huge pages and no more,
-- with one range less and its length off `total_mapped`; the node goes to the freelist.
pub remove_lem :
    (r : HugeRange) (m : HugeAddressMap)
    → IsValid m
    → Member r m.root
    → IsValid (remove r m)
      × ((p : ℕ) → covers (remove r m).root p ≡ covers m.root p && not (has r p))
      × ((remove r m).used_nodes + 1 ≡ m.used_nodes)
      × ((remove r m).total_size + r.n ≡ m.total_size)
      × ((remove r m).freelist_size ≡ m.freelist_size + 1)
unfolding remove
remove_lem r m v mem =
    let (cnt, tot) = remove_at-total 1 (max_page_number + 1) m.root r v.ordered mem in
    let (few, small) = bounds_of m.root v.ordered in
    (
      record {
        ordered = remove_at-Bounded r.first 1 (max_page_number + 1) m.root v.ordered;
        heap = remove_at-IsHeap r.first (2 ^ 32) m.root v.heap;
        exact = remove_at-IsExact r.first m.root v.exact;
        used = omega (arith, v.used);
        size = omega (arith, v.size);
        nodes = omega (arith, v.used, v.nodes, v.few);
        few = v.few;
      },
      (λ p. remove_at-covers 1 (max_page_number + 1) m.root r p v.ordered mem),
      omega (arith, v.used),
      omega (arith, v.size),
      omega (arith, v.nodes, v.few),
    )
