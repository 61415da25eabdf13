-- ===== src/HugeCache.antt =====
-- The ranges of `HugeCache` in tcmalloc/huge_cache.h and .cc: free, backed huge pages between the page
-- heap and HugeAllocator. The limit and the trackers of past sizes, which choose the target of
-- `ShrinkCache`, are not in the state. `unback`, the system's, says of a range whether it could be
-- released; a call of it is one step, without the lock's being dropped.
use tcmalloc.Base.{
  ℕ, zero, suc, ◌+◌, Bool, true, false, Option, none, some, ltb, if◌then◌else◌, ◌>>=◌, ◌>>◌,
}
use tcmalloc.Pages.Length.{word, word_sub}
use tcmalloc.Pages.HugeRange.{HugeRange, split}
use tcmalloc.HugeAddressMap.Map.{HugeAddressMap, insert, remove}
use tcmalloc.HugeAllocator as Allocator
use tcmalloc.HugeAllocator.{HugeAllocator, find_from}
pub mod Valid
pub mod Turn
pub mod Shrink

pub record HugeCache : Type 0 where
  pub cache : HugeAddressMap
  pub size : ℕ
  pub allocator : HugeAllocator

-- `Find`, which is the same as that of HugeAllocator.
unfoldable pub find_cached : HugeCache → ℕ → Option HugeRange
unfolding find_from
find_cached s n = find_from none s.cache.root n

-- The range to give up of `r`, at most `delta` of it, and the cache with what is left of it.
unfoldable pub cut : ℕ → HugeRange → HugeAddressMap → Option (HugeRange × HugeAddressMap)
unfolding split
cut delta r m =
    let (to_remove, leftover) = split r delta in
    if ltb delta r.n then (do m' ← insert leftover m; some (to_remove, m')) else some (r, m)

module _ (unback : HugeRange → Bool) where
  -- A turn of `ShrinkCache`; the Boolean is that the range was released.
  unfoldable pub shrink_turn : ℕ → HugeCache → Option (Bool × ℕ × HugeCache)
  unfolding find_cached cut Allocator.release
  shrink_turn target s = do
    found ← find_cached s 1
    (r, cache') ← cut (word_sub s.size target) found (remove found s.cache)
    let size' = word_sub s.size r.n
    let released : Option (Bool × ℕ × HugeCache) = (do
      allocator' ← Allocator.release r s.allocator
      some (true, r.n, record { cache = cache'; size = size'; allocator = allocator' }))
    let retained : Option (Bool × ℕ × HugeCache) = (do
      kept ← insert r cache'
      some (false, 0, record s { cache = kept; size = word (size' + r.n) }))
    if unback r then released else retained

  -- `ShrinkCache`; each turn removes a huge page at least.
  unfoldable pub shrink_from : ℕ → ℕ → ℕ → HugeCache → Option (ℕ × HugeCache)
  unfolding shrink_turn
  shrink_from zero target removed s = some (removed, s)
  shrink_from (suc fuel) target removed s =
      let turn : Option (ℕ × HugeCache) = (do
        (done, n, s') ← shrink_turn target s
        let rest = shrink_from fuel target (word (removed + n)) s'
        if done then rest else some (removed, s')) in
      if ltb target s.size then turn else some (removed, s)

  unfoldable pub shrink_cache : ℕ → HugeCache → Option (ℕ × HugeCache)
  unfolding shrink_from
  shrink_cache target s = shrink_from s.size target 0 s
