-- ===== src/Arena.antt =====
-- `Arena` of tcmalloc/arena.cc and arena.h: bump allocation of metadata out of blocks that the
-- system gives. The system's allocator is the parameter `allocate`, from bytes and an alignment to
-- an address (0 when it has no memory) and a size.
use tcmalloc.Base.{
  ℕ, ◌+◌, ◌*◌, ◌%◌, ◌^◌, max, not, Option, none, some, ltb, ◌==◌, if◌then◌else◌, int, widen,
}
use tcmalloc.Pages.Length.{word, word_sub, page_size}
pub mod Align
pub mod Alloc

pub record Arena : Type 0 where
  pub free_area : ℕ
  pub free_avail : ℕ
  pub bytes_allocated : ℕ
  pub bytes_unavailable : ℕ
  pub bytes_nonresident : ℕ
  pub blocks : ℕ

abbrev pub fresh : Arena
fresh = record {
  free_area = 0;
  free_avail = 0;
  bytes_allocated = 0;
  bytes_unavailable = 0;
  bytes_nonresident = 0;
  blocks = 0;
}

abbrev pub alloc_increment : ℕ
alloc_increment = 128 * 2 ^ 10

-- The bytes from an address up to the next multiple of `align`, as an `int` of 32 bits that is
-- widened when it is added. The misalignment is narrowed to an `int` first.
unfoldable pub alignment_bytes : ℕ → ℕ → ℕ
unfolding widen
alignment_bytes align addr =
    let misalignment = int (addr % align) in
    widen (if not (misalignment == 0) then int (word_sub align (widen misalignment)) else 0)

-- The first part of `Alloc`.
unfoldable pub align_up : ℕ → Arena → Arena
unfolding alignment_bytes
align_up align a =
    let k = alignment_bytes align a.free_area in
    record a {
      free_area = word (a.free_area + k);
      free_avail = word_sub a.free_avail k;
      bytes_allocated = word (a.bytes_allocated + k);
    }

-- The last part: `bytes` are cut off the free area.
unfoldable pub carve : ℕ → Arena → ℕ × Arena
carve bytes a = (
  a.free_area,
  record a {
    free_area = word (a.free_area + bytes);
    free_avail = word_sub a.free_avail bytes;
    bytes_allocated = word (a.bytes_allocated + bytes);
  },
)

module _ (allocate : ℕ → ℕ → ℕ × ℕ) where
  -- A new block for `bytes`; `none` is the crash when there is no memory. Whether the block is
  -- backed at once is the system's matter.
  unfoldable pub new_block : ℕ → ℕ → Arena → Option Arena
  new_block align bytes a =
      let (ptr, actual_size) = allocate (max bytes alloc_increment) (max page_size align) in
      if ptr == 0
      then none
      else some (record a {
        free_area = ptr;
        free_avail = actual_size;
        bytes_unavailable = word (a.bytes_unavailable + a.free_avail);
        blocks = word (a.blocks + 1);
      })

  unfoldable pub alloc : ℕ → ℕ → Arena → Option (ℕ × Arena)
  unfolding align_up carve new_block
  alloc bytes align a =
      let a' = align_up align a in
      if ltb a'.free_avail bytes
      then elim (new_block align bytes a') [ none ↦ none | some b ↦ some (carve bytes b) ]
      else some (carve bytes a')

-- `UpdateAllocatedAndNonresident`, for changes that are not negative.
unfoldable pub update_allocated : ℕ → ℕ → Arena → Arena
update_allocated allocated nonresident a = record a {
  bytes_allocated = word (a.bytes_allocated + allocated);
  bytes_nonresident = word (a.bytes_nonresident + nonresident);
}
