-- ===== src/Arena/Alloc.antt =====
-- `Alloc` on each branch.
use tcmalloc.Base.{
  ℕ, ◌+◌, ◌%◌, ◌^◌, ◌≤◌, ◌<◌, max, ◌≡◌, refl, ap, ◌∙◌, ◌≢◌, ◌⊎◌, inl, inr, false, none, some, arith,
  dec_lt, ltb, ◌==◌, if◌then◌else◌, ==_iff, Bool-cases,
}
use tcmalloc.Pages.Length.{word, word_sub, page_size}
use tcmalloc.Arena.{Arena, alignment_bytes, align_up, carve, new_block, alloc, alloc_increment}
use tcmalloc.Arena.Align.{
  IsValid, IsBlock, Served, Outcome, alignment_bytes-distance, distance_bound, aligned_up, Aligned,
  align_up-lem,
}

carve_old :
    (bytes align : ℕ) (a a' : Arena) (reply : ℕ × ℕ)
    → IsValid a
    → Aligned align a a'
    → bytes ≤ a'.free_avail
    → Served bytes align a reply (carve bytes a')
unfolding Served carve
carve_old bytes align a a' reply v u h =
    let i : a.free_area + a.free_avail + 2 ^ 31 < 2 ^ 64 = v.inside in
    let c : a.bytes_allocated + a.free_avail + a.bytes_unavailable < 2 ^ 64 = v.counted in
    let k : a'.bytes_allocated + a'.free_avail + a'.bytes_unavailable
        ≡ a.bytes_allocated + a.free_avail + a.bytes_unavailable =
      u.kept in
    let e : a'.free_area + a'.free_avail ≡ a.free_area + a.free_avail = u.ends in
    (u.here, omega arith, inl (u.past, omega arith, omega arith))

-- The arena with the reply's block in place of its free area.
block_of : ℕ × ℕ → Arena → Arena
block_of reply a = record a {
  free_area = reply.0;
  free_avail = reply.1;
  bytes_unavailable = word (a.bytes_unavailable + a.free_avail);
  blocks = word (a.blocks + 1);
}

carve_new :
    (bytes align : ℕ) (a a' : Arena) (reply : ℕ × ℕ)
    → IsValid a
    → Aligned align a a'
    → IsBlock align bytes a reply
    → Served bytes align a reply (carve bytes (block_of reply a'))
unfolding Served carve block_of
carve_new bytes align a a' (ptr, size) v u b =
    let c : a.bytes_allocated + a.free_avail + a.bytes_unavailable + size < 2 ^ 64 = b.counted in
    let k : a'.bytes_allocated + a'.free_avail + a'.bytes_unavailable
        ≡ a.bytes_allocated + a.free_avail + a.bytes_unavailable =
      u.kept in
    let i : ptr + size < 2 ^ 64 = b.inside in
    let le : bytes ≤ size = b.enough in
    (b.aligned, omega arith, inr (refl, omega arith, omega arith))

from_system :
    (bytes align : ℕ) (a a' : Arena) (reply : ℕ × ℕ)
    → IsValid a
    → Aligned align a a'
    → (reply.0 ≢ 0 → IsBlock align bytes a reply)
    → Outcome bytes align a reply (elim (if reply.0 == 0 then none else some (block_of reply a')) [
      | none ↦ none
      | some b ↦ some (carve bytes b)
    ])
unfolding Outcome
from_system bytes align a a' reply v u block = elim (Bool-cases (reply.0 == 0)) [
  | inl e ↦ rw e ((==_iff reply.0 0).0 e)
  | inr e ↦ rw e (carve_new bytes align a a' reply v u (block (λ z. absurd (ground arith))))
]

-- The area has no multiple of the alignment: the bytes are served from past its end, without a
-- request to the system.
pub record Overrun (bytes align : ℕ) (a : Arena) (result : ℕ) (a' : Arena) : Type 0 where
  pub aligned : result % align ≡ 0
  pub past : a.free_area + a.free_avail < result
  pub free : a'.free_area ≡ word (result + bytes)
  pub blocks : a'.blocks ≡ a.blocks

overrun :
    (allocate : ℕ → ℕ → ℕ × ℕ) (bytes align : ℕ) (a : Arena)
    → 0 < align
    → align ≤ 2 ^ 31
    → bytes < 2 ^ 63
    → IsValid a
    → a.free_avail < alignment_bytes align a.free_area
    → (result : ℕ) × (a' : Arena) × (alloc allocate bytes align a ≡ some (result, a'))
      × Overrun bytes align a result a'
unfolding alloc align_up carve
overrun allocate bytes align a h k few v lt =
    let d = alignment_bytes-distance align a.free_area h k in
    let b = distance_bound align a.free_area h in
    let n = alignment_bytes align a.free_area in
    let i : a.free_area + a.free_avail + 2 ^ 31 < 2 ^ 64 = v.inside in
    let same : word (a.free_area + n) ≡ a.free_area + n = omega arith in
    let huge : ltb (word_sub a.free_avail n) bytes ≡ false = ground arith in
    let a₁ = align_up align a in
    (
      word (a.free_area + n),
      (carve bytes a₁).1,
      rw huge refl,
      record {
        aligned =
            ap (λ n. n % align) (same ∙ ap (λ n. a.free_area + n) d)
            ∙ aligned_up align a.free_area h;
        past = omega arith;
        free = refl;
        blocks = refl;
      },
    )

served :
    (allocate : ℕ → ℕ → ℕ × ℕ) (bytes align : ℕ) (a : Arena)
    → 0 < align
    → align ≤ 2 ^ 31
    → IsValid a
    → alignment_bytes align a.free_area ≤ a.free_avail
    → ((allocate (max bytes alloc_increment) (max page_size align)).0 ≢ 0
        → IsBlock align bytes a (allocate (max bytes alloc_increment) (max page_size align)))
    → Outcome bytes align a
        (allocate (max bytes alloc_increment) (max page_size align))
        (alloc allocate bytes align a)
unfolding alloc new_block block_of
served allocate bytes align a h k v le block =
    let a' = align_up align a in
    let u = align_up-lem align a h k v le in
    elim (Bool-cases (ltb a'.free_avail bytes)) [
      | inr e ↦ rw e (
          unfold Outcome in
          carve_old bytes align a a' (allocate (max bytes alloc_increment) (max page_size align)) v
            u (ground arith))
      | inl e ↦ rw e (
          from_system bytes align a a' (allocate (max bytes alloc_increment) (max page_size align))
            v u block)
    ]

-- An allocation of less than 2^63 bytes at an alignment from 1 to 2^31, from a valid arena,
-- where the system gives a good block if it is asked and has memory. If the next multiple of the
-- alignment is not past the end of the free area, it crashes only if the system has no memory;
-- otherwise the address is aligned, the bytes lie in the old free area or in the new block, the
-- free area begins behind them, and what is allocated, free and unavailable adds up to what it
-- was, with the new block if there is one. If it is past the end, the code asks for no block and
-- returns that address, outside the free area.
pub alloc_lem :
    (allocate : ℕ → ℕ → ℕ × ℕ) (bytes align : ℕ) (a : Arena)
    → 0 < align
    → align ≤ 2 ^ 31
    → bytes < 2 ^ 63
    → IsValid a
    → ((allocate (max bytes alloc_increment) (max page_size align)).0 ≢ 0
        → IsBlock align bytes a (allocate (max bytes alloc_increment) (max page_size align)))
    → ((alignment_bytes align a.free_area ≤ a.free_avail)
        × Outcome bytes align a
            (allocate (max bytes alloc_increment) (max page_size align))
            (alloc allocate bytes align a))
      ⊎ ((a.free_avail < alignment_bytes align a.free_area)
          × ((result : ℕ) × (a' : Arena) × (alloc allocate bytes align a ≡ some (result, a'))
              × Overrun bytes align a result a'))
alloc_lem allocate bytes align a h k few v block =
    elim (dec_lt a.free_avail (alignment_bytes align a.free_area)) [
      | yes lt ↦ inr (lt, overrun allocate bytes align a h k few v lt)
      | no ge ↦
          let le : alignment_bytes align a.free_area ≤ a.free_avail = omega arith in
          inl (le, served allocate bytes align a h k v le block)
    ]
