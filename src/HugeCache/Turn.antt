-- ===== src/HugeCache/Turn.antt =====
-- A turn of `ShrinkCache`.
use tcmalloc.Base.{
  ℕ, ◌+◌, ◌-◌, ◌≤◌, ◌<◌, min, ◌≡◌, refl, ◌⊎◌, inl, inr, Bool, true, false, ◌||◌, some, arith, ltb,
  Bool-cases,
}
use tcmalloc.Pages.Length.{word, word_sub}
use tcmalloc.Pages.HugeLength.{max_page_number}
use tcmalloc.Pages.HugeRange.{HugeRange, make, split}
use tcmalloc.Pages.HugeRange.Laws.{IsProper}
use tcmalloc.HugeAddressMap.Tree.Order.{Member, has, covers}
use tcmalloc.HugeAddressMap.Tree.Change.{Member-bounds}
use tcmalloc.HugeAddressMap.Map.{HugeAddressMap, insert, remove}
use tcmalloc.HugeAddressMap.Map.Valid as Map
use tcmalloc.HugeAddressMap.Map.Valid.{covers-Member}
use tcmalloc.HugeAddressMap.Coalesce.{IsFree, insert_lem}
use tcmalloc.HugeAddressMap.Remove.{remove_lem}
use tcmalloc.HugeAllocator as Allocator
use tcmalloc.HugeAllocator.Valid.{release_lem}
use tcmalloc.HugeCache.{HugeCache, cut, shrink_turn}
use tcmalloc.HugeCache.Valid.{IsValid, find_cached-Member}

-- What `cut` makes of a range `found` of the map `m`: `r` is its start, at most `delta` of it, and
-- the new map has the rest.
record Cut (delta : ℕ) (found : HugeRange) (m : HugeAddressMap) (r : HugeRange)
    (m' : HugeAddressMap) : Type 0 where
  valid : Map.IsValid m'
  start : r.first ≡ found.first
  length : r.n ≡ min delta found.n
  proper : IsProper r
  low : 1 ≤ r.first
  pages : (p : ℕ) → covers m.root p ≡ has r p || covers m'.root p
  gone : IsFree r m'
  size : m'.total_size + r.n ≡ m.total_size

module _ (delta : ℕ) (found : HugeRange) (m : HugeAddressMap) (v : Map.IsValid m) (pos : 0 < delta)
    (mem : Member found m.root) where
  bounds : (1 ≤ found.first) × (0 < found.n) × (found.first + found.n ≤ max_page_number)
  bounds =
      let (lo, p, hi) = Member-bounds 1 (max_page_number + 1) m.root found v.ordered mem in
      (lo, p, omega arith)

  inside : (p : ℕ) → has found p ≡ true → covers m.root p ≡ true
  inside p h = covers-Member m.root found p mem h

  taken_whole : found.n ≤ delta → Cut delta found m found (remove found m)
  taken_whole le =
      let (w, c, _, t, _) = remove_lem found m v mem in
      record {
        valid = w;
        start = refl;
        length = omega arith;
        proper = record { nonempty = bounds.1; inside = bounds.2 };
        low = bounds.0;
        pages = λ p. ground (arith, c p, inside p);
        gone = λ p h. ground (arith, c p, h);
        size = t;
      }

  left : HugeRange
  left = make (found.first + delta) (found.n - delta)

  taken_part :
      delta < found.n
      → (m' : HugeAddressMap) × (insert left (remove found m) ≡ some m')
        × Cut delta found m (make found.first delta) m'
  unfolding left has
  taken_part lt =
      let (w, c, _, t, _) = remove_lem found m v mem in
      let (m', e, g) =
        insert_lem left (remove found m) w
          (record { nonempty = omega arith; inside = omega (arith, bounds) })
          (omega (arith, bounds)) (λ p h. ground (arith, c p, h)) in
      (
        m',
        e,
        record {
          valid = g.valid;
          start = refl;
          length = omega arith;
          proper = record { nonempty = pos; inside = omega (arith, bounds) };
          low = bounds.0;
          pages = λ p. ground (arith, c p, g.pages p, inside p);
          gone = λ p h. ground (arith, c p, g.pages p, h);
          size = omega (arith, g.grown, t);
        },
      )

  cut_lem :
      (r : HugeRange) × (m' : HugeAddressMap) × (cut delta found (remove found m) ≡ some (r, m'))
      × Cut delta found m r m'
  unfolding cut split left
  cut_lem = elim (Bool-cases (ltb delta found.n)) [
    | inr off ↦ (found, remove found m, rw off refl, taken_whole (ground (arith, off)))
    | inl on ↦
        let lt : delta < found.n = ground (arith, on) in
        let (m', e, c) = taken_part lt in
        let first : word (found.first + delta) ≡ found.first + delta = omega (arith, bounds) in
        let rest : word_sub found.n delta ≡ found.n - delta = omega (arith, bounds) in
        (make found.first delta, m', rw on (rw first (rw rest (rw e refl))), c)
  ]

-- Huge page `p` is in a range of the cache that was offered to the system, which accepted it.
abbrev pub Accepted : (HugeRange → Bool) → HugeCache → ℕ → Type 0
Accepted unback s p =
    (range : HugeRange) × (unback range ≡ true)
    × (has range p ≡ true)
    × ((q : ℕ) → has range q ≡ true → covers s.cache.root q ≡ true)

-- The cache has a range, not empty, that the system refused.
abbrev pub Refused : (HugeRange → Bool) → HugeCache → Type 0
Refused unback s =
    (range : HugeRange) × (unback range ≡ false)
    × (0 < range.n)
    × ((q : ℕ) → has range q ≡ true → covers s.cache.root q ≡ true)

-- What a turn makes of the cache: `n` huge pages go back to the allocator, or none do and the system
-- refused a range, which the cache has. In both the cache and the allocator hold the same pages.
pub record Turned (unback : HugeRange → Bool) (target : ℕ) (done : Bool) (n : ℕ) (s s' : HugeCache)
    : Type 0 where
  pub valid : IsValid s'
  pub size : s'.size + n ≡ s.size
  pub above : target ≤ s'.size
  pub progress : (done ≡ true) × (0 < n) ⊎ ((done ≡ false) × (n ≡ 0) × Refused unback s')
  pub taken :
      (p : ℕ)
      → covers s'.allocator.free.root p ≡ true
      → (covers s.allocator.free.root p ≡ true) ⊎ Accepted unback s p
  pub shrinks : (p : ℕ) → covers s'.cache.root p ≡ true → covers s.cache.root p ≡ true
  pub pages :
      (p : ℕ)
      → (covers s'.cache.root p || covers s'.allocator.free.root p)
        ≡ (covers s.cache.root p || covers s.allocator.free.root p)

module _ (unback : HugeRange → Bool) (target : ℕ) (s : HugeCache) (v : IsValid s)
    (lt : target < s.size) (found r : HugeRange) (m' : HugeAddressMap)
    (c : Cut (s.size - target) found s.cache r m') where
  released :
      unback r ≡ true
      → (allocator' : Allocator.HugeAllocator) × (Allocator.release r s.allocator ≡ some allocator')
        × Turned unback target true r.n s
            (record { cache = m'; size = s.size - r.n; allocator = allocator' })
  released on =
      let (a, e, w) =
        release_lem r s.allocator v.allocator c.proper c.low
          (λ p h. v.apart p (ground (arith, c.pages p, h))) (omega (arith, c.length, v.in_use)) in
      (
        a,
        e,
        record {
          valid = record {
            cache = c.valid;
            allocator = w.valid;
            size = omega (arith, c.size, v.size);
            in_use = omega (arith, w.used, v.in_use);
            apart = λ p h. ground (arith, w.pages p, c.pages p, c.gone p, v.apart p, h);
          };
          size = omega (arith, c.length);
          above = omega (arith, c.length);
          progress = inl (refl, c.proper.nonempty);
          taken = λ p h. elim (Bool-cases (has r p)) [
            | inl e ↦ inr (r, on, e, λ q e. ground (arith, c.pages q, e))
            | inr e ↦ inl (ground (arith, w.pages p, h, e))
          ];
          shrinks = λ p h. ground (arith, c.pages p, h);
          pages = λ p. ground (arith, w.pages p, c.pages p);
        },
      )

  retained :
      unback r ≡ false
      → (kept : HugeAddressMap) × (insert r m' ≡ some kept)
        × Turned unback target false 0 s (record s { cache = kept; size = s.size })
  retained off =
      let (k, e, w) = insert_lem r m' c.valid c.proper c.low c.gone in
      (
        k,
        e,
        record {
          valid = record {
            cache = w.valid;
            allocator = v.allocator;
            size = omega (arith, w.grown, c.size, v.size);
            in_use = v.in_use;
            apart = λ p h. v.apart p (ground (arith, w.pages p, c.pages p, h));
          };
          size = omega arith;
          above = omega arith;
          progress =
              inr (refl, refl, (r, off, c.proper.nonempty, λ q h. ground (arith, w.pages q, h)));
          taken = λ p h. inl h;
          shrinks = λ p h. ground (arith, w.pages p, c.pages p, h);
          pages = λ p. ground (arith, w.pages p, c.pages p);
        },
      )

-- No huge page counts twice, so the sizes do not wrap.
pub size_bound : (s : HugeCache) → IsValid s → s.size ≤ max_page_number
size_bound s v = omega (arith, v.in_use, v.allocator.balance, v.allocator.fits)

pub shrink_turn_lem :
    (unback : HugeRange → Bool) (target : ℕ) (s : HugeCache)
    → IsValid s
    → target < s.size
    → (done : Bool) × (n : ℕ) × (s' : HugeCache) × (shrink_turn unback target s
        ≡ some (done, n, s'))
      × Turned unback target done n s s'
unfolding shrink_turn
shrink_turn_lem unback target s v lt =
    let b = size_bound s v in
    let (found, e, mem) = find_cached-Member s v (omega arith) in
    let (r, m', e', c) = cut_lem (s.size - target) found s.cache v.cache (omega arith) mem in
    let d : word_sub s.size target ≡ s.size - target = omega arith in
    let left : word_sub s.size r.n ≡ s.size - r.n = omega (arith, c.length) in
    elim (Bool-cases (unback r)) [
      | inl on ↦
          let (a, e'', w) = released unback target s v lt found r m' c on in
          (
            true,
            r.n,
            record { cache = m'; size = s.size - r.n; allocator = a },
            rw e (rw d (rw e' (rw left (rw on (rw e'' refl))))),
            w,
          )
      | inr off ↦
          let (k, e'', w) = retained unback target s v lt found r m' c off in
          let back : word (s.size - r.n + r.n) ≡ s.size = omega (arith, c.length) in
          (
            false,
            0,
            record s { cache = k; size = s.size },
            rw e (rw d (rw e' (rw left (rw off (rw e'' (rw back refl)))))),
            w,
          )
    ]
