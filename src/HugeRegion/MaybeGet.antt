-- ===== src/HugeRegion/MaybeGet.antt =====
-- `MaybeGet` of `HugeRegion`.
use tcmalloc.Base.{
  ℕ, ◌+◌, ◌≤◌, ◌<◌, ◌≡◌, refl, sym, ap, ◌∙◌, ◌↔◌, ◌⊎◌, inl, inr, Bool, true, false, none, some,
  arith, ltb, Bool-cases,
}
use tcmalloc.Bitmap.Defs.{get_bit}
use tcmalloc.RangeTracker.{RangeTracker}
use tcmalloc.RangeTracker.Runs.{Free}
use tcmalloc.RangeTracker.Rest.{marked}
use tcmalloc.RangeTracker.BestFit.{Marked, find_and_mark_lem}
use tcmalloc.HugeRegion.{HugeRegion, region_pages, inc, maybe_get}
use tcmalloc.HugeRegion.Count.{count-ext, count-room, count-marked}
use tcmalloc.HugeRegion.Valid.{Counted, IsValid, page_at}
use tcmalloc.HugeRegion.Get.{Unbacked, Counted-ext, inc-Used}

abbrev pub bits_of : HugeRegion → ℕ → Bool
bits_of r = get_bit r.tracker.bits

-- The `n` pages from page `k` on were free and are used now; `from_released` is that one of them was
-- not backed, and all of them are now.
pub record Got (n k : ℕ) (from_released : Bool) (r r' : HugeRegion) : Type 0 where
  pub was_free : Free (bits_of r) region_pages k n
  pub bits : (x : ℕ) → bits_of r' x ≡ marked (bits_of r) k n x
  pub released : (from_released ≡ true) ↔ Unbacked r k n
  pub allocs : r'.tracker.nallocs ≡ r.tracker.nallocs + 1
  pub free_le : r'.free_backed_count ≤ r.free_backed_count
  pub valid : IsValid r'

module _ (n : ℕ) (r : HugeRegion) (v : IsValid r) (pos : 0 < n)
    (more : r.tracker.nallocs < region_pages) where
  room : n ≤ r.tracker.longest_free → r.tracker.nused + n ≤ region_pages
  room le =
      let (j, c) = v.tracker.longest.reached in
      let w = count-room (bits_of r) j r.tracker.longest_free region_pages c.0 c.1 in
      omega (arith, w, v.total)

  got :
      (k : ℕ) (t' : RangeTracker)
      → Marked region_pages n k r.tracker t'
      → Got n k
          (inc n (page_at r k) n false (record r { tracker = t' })).0
          r
          (inc n (page_at r k) n false (record r { tracker = t' })).1
  got k t' m =
      let r₁ : HugeRegion = record r { tracker = t' } in
      let c : Counted (bits_of r) r₁ = record {
        used_size = v.counted.used_size;
        backed_size = v.counted.backed_size;
        used = v.counted.used;
        live = v.counted.live;
        backed = v.counted.backed;
        free = v.counted.free;
      } in
      let w =
        inc-Used n (bits_of r) k n false r₁ (omega arith) v.placed c m.was_free.0 m.was_free.1 in
      let res = inc n (page_at r k) n false r₁ in
      let bits' : (x : ℕ) → bits_of res.1 x ≡ marked (bits_of r) k n x =
        λ x. ap (λ t. get_bit t.bits x) w.tracker ∙ m.bits x in
      let total' =
        count-ext (bits_of res.1) (marked (bits_of r) k n) 0 region_pages (λ x p q. bits' x)
        ∙ count-marked (bits_of r) k n 0 region_pages (omega arith) m.was_free.1 in
      record {
        was_free = m.was_free;
        bits = bits';
        released = (
          λ e. elim (w.released.0 e) [ inl s ↦ absurd (ground (arith, s)) | inr u ↦ u ],
          λ u. w.released.1 (inr u),
        );
        allocs = ap (λ t. t.nallocs) w.tracker ∙ m.allocs;
        free_le = w.free_le;
        valid = record {
          whole = rw w.location v.whole;
          placed = rw w.location v.placed;
          tracker = rw w.tracker m.exact;
          total = omega (arith, total', ap (λ t. t.nused) w.tracker, m.used, v.total, m.was_free.0);
          counted =
              Counted-ext (marked (bits_of r) k n) (bits_of res.1) res.1 (λ x. sym (bits' x))
                w.counted;
        };
      }

-- MaybeGet(n), with n > 0, on a valid region with fewer allocations than pages: either no free
-- range of the region is as long as n, and nothing changes; or it takes n pages that were free and
-- no others, from_released is set exactly if one of them was in a huge page that was not backed,
-- there is one allocation more and no more free huge pages, and the region is valid, so that the
-- pages used in each huge page, the backed ones and the free backed ones are counted.
pub maybe_get_lem :
    (n : ℕ) (r : HugeRegion)
    → IsValid r
    → 0 < n
    → r.tracker.nallocs < region_pages
    → (((j m : ℕ) → Free (bits_of r) region_pages j m → m < n) × (maybe_get n r ≡ some (none, r)))
      ⊎ ((k : ℕ) × (from_released : Bool) × (r' : HugeRegion) × (maybe_get n r
            ≡ some (some (page_at r k, from_released), r'))
          × Got n k from_released r r')
unfolding maybe_get
maybe_get_lem n r v pos more = elim (Bool-cases (ltb r.tracker.longest_free n)) [
  | inl short ↦
      inl (
        (λ j m c. let b = v.tracker.longest.bound j m c in ground (arith, b, short)),
        rw short refl,
      )
  | inr fits ↦
      let (k, t', e, m) =
        find_and_mark_lem region_pages n r.tracker v.tracker pos (ground (arith, fits))
          (room n r v pos more (ground (arith, fits))) more in
      inr (
        k,
        (inc n (page_at r k) n false (record r { tracker = t' })).0,
        (inc n (page_at r k) n false (record r { tracker = t' })).1,
        rw fits (rw e refl),
        got n r v pos more k t' m,
      )
]
