-- ===== src/HugeAllocator.antt =====
-- `HugeAllocator` of tcmalloc/huge_allocator.h and .cc: ranges of unbacked huge pages, from the map
-- of free ones or from the system.
pub mod Fit
pub mod Valid
pub mod Take
pub mod Get
use tcmalloc.Base.{
  ℕ, ◌+◌, ◌%◌, Bool, true, false, not, ◌&&◌, Option, none, some, ltb, leb, ◌==◌, if◌then◌else◌,
  ◌>>=◌, ◌>>◌, check,
}
use tcmalloc.Pages.Length.{word, word_sub}
use tcmalloc.Pages.HugeLength.{huge_page_size, overflows, in_bytes, from_bytes}
use tcmalloc.Pages.HugePage.{containing_addr}
use tcmalloc.Pages.HugePage
use tcmalloc.Pages.HugeRange.{HugeRange, valid, make, nil}
use tcmalloc.HugeAddressMap.Tree.{Tree, leaf, node}
use tcmalloc.HugeAddressMap.Map.{HugeAddressMap, insert, remove}

-- `AddressRange`, what the virtual allocator replies; `ptr` is 0 when it has no memory.
pub record AddressRange : Type 0 where
  pub ptr : ℕ
  pub bytes : ℕ

pub record HugeAllocator : Type 0 where
  pub free : HugeAddressMap
  pub from_system : ℕ
  pub in_use : ℕ

-- `!child || child->longest() < n`
unfoldable pub too_short : Tree → ℕ → Bool
too_short leaf n = true
too_short (node r prio longest left right) n = ltb longest n

unfoldable pub root_len : Tree → ℕ
root_len leaf = 0
root_len (node r prio longest left right) = r.n

unfoldable pub root_longest : Tree → ℕ
root_longest leaf = 0
root_longest (node r prio longest left right) = longest

-- Which child the loop of `Find` looks at next.
unfoldable pub goes_left : Tree → Tree → ℕ → Bool
unfolding too_short root_len root_longest
goes_left left right n =
    if too_short left n
    then false
    else if too_short right n
    then true
    else if root_len left == root_len right
    then leb (root_longest left) (root_longest right)
    else ltb (root_len left) (root_len right)

-- `!best || best->range().len() > curr->range().len()`
unfoldable pub improves : Option HugeRange → HugeRange → Bool
improves none r = true
improves (some b) r = ltb r.n b.n

unfoldable pub find_from : Option HugeRange → Tree → ℕ → Option HugeRange
unfolding goes_left improves
find_from best leaf n = best
find_from best (node r prio longest left right) n =
    let best' = if leb n r.n && improves best r then some r else best in
    let in_left = find_from best' left n in
    let in_right = find_from best' right n in
    if ltb longest n then best else if goes_left left right n then in_left else in_right

unfoldable pub find : HugeAllocator → ℕ → Option HugeRange
unfolding find_from
find s n = find_from none s.free.root n

-- `Release`.
unfoldable pub release : HugeRange → HugeAllocator → Option HugeAllocator
release r s = do
  free' ← insert r s.free
  some (record s { in_use = word_sub s.in_use r.n; free = free' })

-- `Get` from where the node is known.
unfoldable pub take : ℕ → HugeRange → HugeAllocator → Option (HugeRange × HugeAllocator)
unfolding release
take n r s =
    let s' = record s { in_use = word (s.in_use + n); free = remove r s.free } in
    let extra = make (HugePage.add r.first n) (word_sub r.n n) in
    if ltb n r.n
    then (do
      s'' ← release extra (record s' { in_use = word (s'.in_use + extra.n) })
      some (make r.first n, s''))
    else some (r, s')

-- The system's allocator is not of this repository's data structures: what it replies to a request
-- of bytes and an alignment is a parameter.
module _ (allocate : ℕ → ℕ → AddressRange) where
  unfoldable pub allocate_range : ℕ → HugeAllocator → Option (HugeRange × HugeAllocator)
  allocate_range n s =
      let reply = allocate (in_bytes n) huge_page_size in
      let n' = from_bytes reply.bytes in
      if overflows n then some (nil, s) else if reply.ptr == 0 then some (nil, s) else (do
        check (reply.bytes % huge_page_size == 0)
        some (
          make (containing_addr reply.ptr) n',
          record s { from_system = word (s.from_system + n') },
        ))

  -- `Get` where no node of the map is long enough: get more memory, then "delete" it.
  unfoldable pub get_more : ℕ → HugeAllocator → Option (HugeRange × HugeAllocator)
  unfolding allocate_range take release find
  get_more n s = do
    (r, s₁) ← allocate_range n s
    if not (valid r) then some (r, s₁) else (do
      s₂ ← release r (record s₁ { in_use = word (s₁.in_use + r.n) })
      found ← find s₂ n
      take n found s₂)

  unfoldable pub get : ℕ → HugeAllocator → Option (HugeRange × HugeAllocator)
  unfolding get_more take find
  get n s = do
    check (ltb 0 n)
    elim (find s n) [ none ↦ get_more n s | some found ↦ take n found s ]
