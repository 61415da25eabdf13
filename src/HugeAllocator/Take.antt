-- ===== src/HugeAllocator/Take.antt =====
-- `HugeAllocator::Get` from where a range of the free map is chosen: the rest goes back.
use tcmalloc.Base.{
  ℕ, ◌+◌, ◌-◌, ◌≤◌, ◌<◌, ◌≡◌, refl, inl, inr, true, false, not, ◌&&◌, some, arith, ltb, Bool-cases,
}
use tcmalloc.Pages.Length.{word, word_sub}
use tcmalloc.Pages.HugeRange.{HugeRange, make}
use tcmalloc.HugeAddressMap.Tree.Order.{Member, has, covers}
use tcmalloc.HugeAddressMap.Map.{remove}
use tcmalloc.HugeAddressMap.Map.Valid.{covers-Member}
use tcmalloc.HugeAddressMap.Remove.{remove_lem}
use tcmalloc.HugeAddressMap.Coalesce.{IsFree}
use tcmalloc.HugeAllocator.{HugeAllocator, take}
use tcmalloc.HugeAllocator.Valid.{IsValid, Member-IsProper, release_lem}

-- What handing out the first `n` huge pages of the free range `r` makes of the allocator.
pub record Taken (n : ℕ) (r : HugeRange) (s s' : HugeAllocator) : Type 0 where
  pub valid : IsValid s'
  pub pages : (p : ℕ) → covers s'.free.root p ≡ covers s.free.root p && not (has (make r.first n) p)
  pub held : (p : ℕ) → has (make r.first n) p ≡ true → covers s.free.root p ≡ true
  pub used : s'.in_use ≡ s.in_use + n
  pub system : s'.from_system ≡ s.from_system

module _ (n : ℕ) (r : HugeRange) (s : HugeAllocator) (v : IsValid s) (mem : Member r s.free.root)
    (h : 0 < n) where
  -- The state without `r`, when as many huge pages as `r` has are in use.
  without-IsValid : IsValid (record s { in_use = s.in_use + r.n; free = remove r s.free })
  without-IsValid =
      let (valid, pages, used, size, freelist) = remove_lem r s.free v.free mem in
      record { free = valid; balance = omega (arith, v.balance); fits = v.fits }

  take_all :
      n ≡ r.n → (s' : HugeAllocator) × (take n r s ≡ some (make r.first n, s')) × Taken n r s s'
  unfolding take has
  take_all e =
      let (valid, pages, used, size, freelist) = remove_lem r s.free v.free mem in
      let keep : ltb n r.n ≡ false = ground arith in
      let sum : word (s.in_use + n) ≡ s.in_use + r.n = omega (arith, v.balance, v.fits) in
      (
        record s { in_use = s.in_use + r.n; free = remove r s.free },
        rw keep (rw sum (rw e)),
        record {
          valid = without-IsValid;
          pages = λ p. rw e (pages p);
          held = λ p q. covers-Member s.free.root r p mem (rw e at q);
          used = omega arith;
          system = refl;
        },
      )

  take-some :
      n < r.n → (s' : HugeAllocator) × (take n r s ≡ some (make r.first n, s')) × Taken n r s s'
  unfolding take has
  take-some lt =
      let (valid, pages, used, size, freelist) = remove_lem r s.free v.free mem in
      let (proper, pos) = Member-IsProper s r v mem in
      let inside = proper.inside in
      let extra = make (r.first + n) (r.n - n) in
      let s₁ = record s { in_use = s.in_use + r.n; free = remove r s.free } in
      let free : IsFree extra (remove r s.free) = λ p q. ground (arith, pages p) in
      let (s', e, g) =
        release_lem extra s₁ without-IsValid
          (record { nonempty = omega arith; inside = omega arith }) (omega arith) free
          (omega arith) in
      let keep : ltb n r.n ≡ true = ground arith in
      let e₁ : word_sub r.n n ≡ r.n - n = omega arith in
      let e₂ : word (r.first + n) ≡ r.first + n = omega arith in
      let e₃ : word (word (s.in_use + n) + (r.n - n)) ≡ s.in_use + r.n =
        omega (arith, v.balance, v.fits) in
      (
        s',
        rw keep (rw (e₁, e₂, e₃, e)),
        record {
          valid = g.valid;
          pages = λ p. ground (arith, g.pages p, pages p, covers-Member s.free.root r p mem);
          held = λ p q. covers-Member s.free.root r p mem (ground arith);
          used = omega (arith, g.used);
          system = g.system;
        },
      )

  -- A positive length that the range has is handed out, whether or not the range is longer.
  pub take_lem :
      n ≤ r.n → (s' : HugeAllocator) × (take n r s ≡ some (make r.first n, s')) × Taken n r s s'
  take_lem le = elim (Bool-cases (ltb n r.n)) [
    | inl c ↦ take-some (ground arith)
    | inr c ↦ take_all (ground arith)
  ]
