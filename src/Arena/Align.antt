-- ===== src/Arena/Align.antt =====
-- The first part of `Alloc`, and what its theorem speaks of.
use tcmalloc.Base.{
  ℕ, ◌+◌, ◌-◌, ◌%◌, ◌^◌, ◌≤◌, ◌<◌, ◌≡◌, refl, sym, ap, ◌∙◌, ◌⊎◌, inl, inr, true, Option, none, some,
  arith, ltb, ◌==◌, if◌then◌else◌, ==_iff, Bool-cases, int, widen,
}
use tcmalloc.Pages.Length.{word, word_sub}
use native.Mathlib.Nat.{mod-lt, mod-add-mod, mod_self, zero-mod}
use tcmalloc.Arena.{Arena, alignment_bytes, align_up}

-- The bytes of all blocks: handed out or skipped, free, and lost at the ends of old blocks.
abbrev pub footprint : Arena → ℕ
footprint a = a.bytes_allocated + a.free_avail + a.bytes_unavailable

-- The free area ends 2 ^ 31 bytes before the end of the address space at least, and the counters are
-- those of memory that fits it.
pub record IsValid (a : Arena) : Type 0 where
  pub inside : a.free_area + a.free_avail + 2 ^ 31 < 2 ^ 64
  pub counted : footprint a < 2 ^ 64

-- A reply of the system with memory: an aligned block that is long enough and is inside the address
-- space.
pub record IsBlock (align bytes : ℕ) (a : Arena) (reply : ℕ × ℕ) : Type 0 where
  pub aligned : reply.0 % align ≡ 0
  pub enough : bytes ≤ reply.1
  pub inside : reply.0 + reply.1 < 2 ^ 64
  pub counted : footprint a + reply.1 < 2 ^ 64

-- What `Alloc` gives: the area that the bytes come from is the old one, or the reply's.
unfoldable pub Served : ℕ → ℕ → Arena → ℕ × ℕ → ℕ × Arena → Type 0
Served bytes align a (ptr, actual_size) (result, a') =
    (result % align ≡ 0)
    × (a'.free_area ≡ result + bytes)
    × (((a.free_area ≤ result)
          × (result + bytes + a'.free_avail ≡ a.free_area + a.free_avail)
          × (footprint a' ≡ footprint a))
        ⊎ ((result ≡ ptr)
            × (bytes + a'.free_avail ≡ actual_size)
            × (footprint a' ≡ footprint a + actual_size)))

unfoldable pub Outcome : ℕ → ℕ → Arena → ℕ × ℕ → Option (ℕ × Arena) → Type 0
Outcome bytes align a reply none = reply.0 ≡ 0
Outcome bytes align a reply (some out) = Served bytes align a reply out

-- For an alignment that an `int` can hold, this is the distance to the next multiple.
pub distance : (align addr : ℕ) → ℕ
distance align addr = if addr % align == 0 then 0 else align - addr % align

pub alignment_bytes-distance :
    (align addr : ℕ) → 0 < align → align ≤ 2 ^ 31 → alignment_bytes align addr ≡ distance align addr
unfolding alignment_bytes distance widen
alignment_bytes-distance align addr h k =
    let low : addr % align < align = mod-lt addr h in
    let m = addr % align in
    let e : int m ≡ m = omega arith in
    let f : ltb m (2 ^ 31) ≡ true = ground arith in
    elim (Bool-cases (m == 0)) [
      | inl z ↦ rw e (rw z refl)
      | inr z ↦
          let g : int (word_sub align m) ≡ align - m = omega arith in
          let pos : 0 < m = ground (arith, z) in
          let f' : ltb (align - m) (2 ^ 31) ≡ true = ground arith in
          rw e (rw z (rw f (rw g (rw f' refl))))
    ]

pub distance_bound : (align addr : ℕ) → 0 < align → distance align addr ≤ align
unfolding distance
distance_bound align addr h = ground arith

-- Up to the next multiple is a multiple.
pub aligned_up : (align addr : ℕ) → 0 < align → (addr + distance align addr) % align ≡ 0
unfolding distance
aligned_up align addr h =
    let low : addr % align < align = mod-lt addr h in
    sym (mod-add-mod addr align (distance align addr)) ∙ (elim (Bool-cases (addr % align == 0)) [
      | inl e ↦ rw e (rw ((==_iff (addr % align) 0).0 e) (zero-mod align))
      | inr e ↦ rw e (
          let whole : addr % align + (align - addr % align) ≡ align = omega arith in
          ap (λ k. k % align) whole ∙ mod_self align)
    ])

-- What the first part makes of the arena.
pub record Aligned (align : ℕ) (a a' : Arena) : Type 0 where
  pub here : a'.free_area % align ≡ 0
  pub past : a.free_area ≤ a'.free_area
  pub ends : a'.free_area + a'.free_avail ≡ a.free_area + a.free_avail
  pub kept : footprint a' ≡ footprint a
  pub lost : a'.bytes_unavailable ≡ a.bytes_unavailable

pub align_up-lem :
    (align : ℕ) (a : Arena)
    → 0 < align
    → align ≤ 2 ^ 31
    → IsValid a
    → alignment_bytes align a.free_area ≤ a.free_avail
    → Aligned align a (align_up align a)
unfolding align_up
align_up-lem align a h k v le =
    let d = alignment_bytes-distance align a.free_area h k in
    let k = alignment_bytes align a.free_area in
    let i : a.free_area + a.free_avail + 2 ^ 31 < 2 ^ 64 = v.inside in
    let c : a.bytes_allocated + a.free_avail + a.bytes_unavailable < 2 ^ 64 = v.counted in
    let same : word (a.free_area + k) ≡ a.free_area + k = omega arith in
    record {
      here =
          ap (λ n. n % align) (same ∙ ap (λ n. a.free_area + n) d) ∙ aligned_up align a.free_area h;
      past = omega arith;
      ends = omega arith;
      kept = omega arith;
      lost = refl;
    }
