-- ===== src/HugeAddressMap/Insert.antt =====
-- `HugeAddressMap::Insert`: each way to add a range keeps the invariant and adds its huge pages.
use tcmalloc.Base.{ℕ, ◌+◌, ◌^◌, ◌≤◌, ◌≡◌, refl, ap, ◌⊎◌, inl, inr, ◌||◌, none, some, arith}
use tcmalloc.Pages.Length.{word, word_sub}
use tcmalloc.Pages.HugeLength.{max_page_number}
use tcmalloc.Pages.HugeRange.{HugeRange, join, make}
use tcmalloc.Pages.HugeRange.Laws.{IsProper, join_lem}
use tcmalloc.HugeAddressMap.Tree.{set_range, insert_node, remove_at}
use tcmalloc.HugeAddressMap.Tree.Order.{Bounded, All, Member, has, covers}
use tcmalloc.HugeAddressMap.Tree.Shape.Split.{
  Fits, insert_node-Bounded, insert_node-IsHeap, insert_node-IsExact, insert_node-total,
  insert_node-covers,
}
use tcmalloc.HugeAddressMap.Tree.Change.{Member-bounds}
use tcmalloc.HugeAddressMap.Tree.Range.{
  FitsBut, set_range-Bounded, set_range-total, set_range-covers, set_range-IsHeap,
  set_range-IsExact,
}
use tcmalloc.HugeAddressMap.Tree.Others.{All-remove_at, Member-remove_at}
use tcmalloc.HugeAddressMap.Map.{HugeAddressMap, get, put, remove, merge, add_node}
use tcmalloc.HugeAddressMap.Remove.{remove_lem}
use tcmalloc.HugeAddressMap.Map.Valid.{IsValid, bounds_of, covers-Member}

-- What adding the range `r` to the map `m` makes of it.
pub record Grown (r : HugeRange) (m m' : HugeAddressMap) : Type 0 where
  pub valid : IsValid m'
  pub pages : (p : ℕ) → covers m'.root p ≡ has r p || covers m.root p
  pub grown : m'.total_size ≡ m.total_size + r.n

-- The state of `insert` behind its first line.
abbrev pub sized : HugeRange → HugeAddressMap → HugeAddressMap
sized r m = record m { total_size = word (m.total_size + r.n) }

-- The node of a member `o` is given a range around `o`; `size` is what `total_size` becomes.
widen-IsValid :
    (o full : HugeRange) (size : ℕ) (m : HugeAddressMap)
    → IsValid m
    → Member o m.root
    → full.first ≤ o.first
    → o.first + o.n ≤ full.first + full.n
    → 1 ≤ full.first
    → full.first + full.n ≤ max_page_number
    → All (FitsBut o.first full) m.root
    → size + o.n ≡ m.total_size + full.n
    → IsValid (record m { root = set_range o.first full m.root; total_size = size })
widen-IsValid o full size m v mem le ge pos top fits e =
    let (cnt, tot) = set_range-total o full le ge 1 (max_page_number + 1) m.root v.ordered mem in
    record {
      ordered =
          set_range-Bounded o full le ge 1 (max_page_number + 1) m.root v.ordered mem pos
            (omega arith) fits;
      heap = set_range-IsHeap o.first (2 ^ 32) full m.root v.heap;
      exact = set_range-IsExact o.first full m.root v.exact;
      used = omega (arith, v.used);
      size = omega (arith, v.size);
      nodes = v.nodes;
      few = v.few;
    }

module _ (r : HugeRange) (m : HugeAddressMap) (v : IsValid m) (ok : IsProper r)
    (pos : 1 ≤ r.first) where
  abbrev prio_of : ℕ
  prio_of = (get (sized r m)).0

  prio_of-le : prio_of ≤ 2 ^ 32
  unfolding get
  prio_of-le = ground arith

  -- No range touches `r`: a new node.
  pub add_node-Grown : All (Fits r) m.root → Grown r m (add_node r (sized r m))
  unfolding add_node get
  add_node-Grown fits =
      let t' = (insert_node r prio_of m.root).0 in
      let b : Bounded 1 (max_page_number + 1) t' =
        insert_node-Bounded r prio_of 1 (max_page_number + 1) m.root pos ok.nonempty (omega arith)
          v.ordered fits in
      let (few, small) = bounds_of t' b in
      let (cnt, tot) = insert_node-total r prio_of m.root in
      record {
        valid = record {
          ordered = ground arith;
          heap = ground (arith, insert_node-IsHeap r prio_of (2 ^ 32) m.root prio_of-le v.heap);
          exact = ground (arith, (insert_node-IsExact r prio_of m.root v.exact).0);
          used = ground arith;
          size = ground arith;
          nodes = ground arith;
          few = ground arith;
        };
        pages = λ p. ground (arith, insert_node-covers r prio_of m.root p);
        grown = ground arith;
      }

  -- The range `o` and `r` meet, and `full` is the two joined.
  abbrev Meets : HugeRange → HugeRange → Type 0
  Meets o full =
      (full.n ≡ o.n + r.n)
      × (((full.first ≡ o.first) × (o.first + o.n ≡ r.first))
          ⊎ ((full.first ≡ r.first) × (r.first + r.n ≡ o.first)))

  -- The node of `o` gets the joined range, and nothing else touches it.
  widen-Grown :
      (o full : HugeRange)
      → Member o m.root
      → Meets o full
      → All (FitsBut o.first full) m.root
      → Grown r m (record (sized r m) { root = set_range o.first full m.root })
  unfolding has
  widen-Grown o full mem (len, at) fits =
      let (lo, pos_o, hi) = Member-bounds 1 (max_page_number + 1) m.root o v.ordered mem in
      let below : full.first ≤ o.first = omega arith in
      let above : o.first + o.n ≤ full.first + full.n = omega arith in
      let inside = ok.inside in
      let wide =
        widen-IsValid o full (m.total_size + r.n) m v mem below above (omega arith) (omega arith)
          fits (omega arith) in
      let (few, small) = bounds_of (set_range o.first full m.root) wide.ordered in
      let exactly : word (m.total_size + r.n) ≡ m.total_size + r.n = omega (arith, wide.size) in
      record {
        valid = rw exactly wide;
        pages = λ p. ground (
          arith,
          set_range-covers o full below above 1 (max_page_number + 1) m.root p v.ordered mem,
          covers-Member m.root o p mem,
        );
        grown = exactly;
      }

  pub merge_before-Grown :
      (b : HugeRange)
      → Member b m.root
      → b.first + b.n ≡ r.first
      → All (FitsBut b.first (make b.first (b.n + r.n))) m.root
      → (m' : HugeAddressMap) × (merge (some b) r none (sized r m) ≡ some m') × Grown r m m'
  unfolding merge
  merge_before-Grown b mem e fits =
      let (lo, pos_b, hi) = Member-bounds 1 (max_page_number + 1) m.root b v.ordered mem in
      let full = make b.first (b.n + r.n) in
      let joined : join b r ≡ some full =
        (join_lem b r (record { nonempty = pos_b; inside = omega arith }) ok).1 e in
      (_, rw joined, widen-Grown b full mem (refl, inl (refl, e)) fits)

  pub merge_after-Grown :
      (a : HugeRange)
      → Member a m.root
      → r.first + r.n ≡ a.first
      → All (FitsBut a.first (make r.first (r.n + a.n))) m.root
      → (m' : HugeAddressMap) × (merge none r (some a) (sized r m) ≡ some m') × Grown r m m'
  unfolding merge
  merge_after-Grown a mem e fits =
      let (lo, pos_a, hi) = Member-bounds 1 (max_page_number + 1) m.root a v.ordered mem in
      let full = make r.first (r.n + a.n) in
      let joined : join r a ≡ some full =
        (join_lem r a ok (record { nonempty = pos_a; inside = omega arith })).1 e in
      (_, rw joined, widen-Grown a full mem (omega arith, inr (refl, e)) fits)

  -- `a` is removed; what the code adds to `total_size_` first is what `Remove` takes off.
  pub merge_both-Grown :
      (b a : HugeRange)
      → Member b m.root
      → Member a m.root
      → b.first + b.n ≡ r.first
      → r.first + r.n ≡ a.first
      → All (λ x. (x.first ≡ a.first) ⊎ FitsBut b.first (make b.first (b.n + (r.n + a.n))) x) m.root
      → (m' : HugeAddressMap) × (merge (some b) r (some a) (sized r m) ≡ some m') × Grown r m m'
  unfolding merge remove put has
  merge_both-Grown b a mem_b mem_a e f fits =
      let (lo, pos_b, hi) = Member-bounds 1 (max_page_number + 1) m.root b v.ordered mem_b in
      let (lo_a, pos_a, hi_a) = Member-bounds 1 (max_page_number + 1) m.root a v.ordered mem_a in
      let partial = make r.first (r.n + a.n) in
      let full = make b.first (b.n + (r.n + a.n)) in
      let proper_a : IsProper a = record { nonempty = pos_a; inside = omega arith } in
      let e₁ : join r a ≡ some partial = (join_lem r a ok proper_a).1 f in
      let e₂ : join b partial ≡ some full =
        (join_lem b partial (record { nonempty = pos_b; inside = omega arith })
            (record { nonempty = omega arith; inside = omega arith })).1
          e in
      let (valid, pages, used, size, free) = remove_lem a m v mem_a in
      let mem : Member b (remove_at a.first m.root) =
        Member-remove_at b a.first m.root (omega arith) mem_b in
      let fits' =
        All-remove_at (FitsBut b.first full) a.first 1 (max_page_number + 1) m.root v.ordered
          fits in
      let wide =
        widen-IsValid b full (m.total_size + r.n) (remove a m) valid mem (omega arith) (omega arith)
          lo (omega arith) fits' (omega arith) in
      let (few, small) = bounds_of (set_range b.first full (remove a m).root) wide.ordered in
      let exactly : word_sub (word (word (m.total_size + r.n) + a.n)) a.n ≡ m.total_size + r.n =
        omega (arith, wide.size) in
      (
        record (remove a m) {
          root = set_range b.first full (remove_at a.first m.root);
          total_size = m.total_size + r.n;
        },
        rw e₁ (
            rw e₂ (
              ap
                (λ k. some (record (remove a m) {
                  root = set_range b.first full (remove_at a.first m.root);
                  total_size = k;
                }))
                exactly)),
        record {
          valid = wide;
          pages = λ p. ground (
            arith,
            set_range-covers b full (omega arith) (omega arith) 1 (max_page_number + 1)
                (remove_at a.first m.root) p valid.ordered mem,
            pages p,
            covers-Member m.root b p mem_b,
            covers-Member m.root a p mem_a,
          );
          grown = refl;
        },
      )
