-- ===== src/HugeAllocator/Get.antt =====
-- `HugeAllocator::Get` as a whole.
use tcmalloc.Base.{
  ℕ, ◌+◌, ◌*◌, ◌/◌, ◌%◌, ◌^◌, ◌≤◌, ◌<◌, ◌≡◌, refl, ap, ◌∙◌, ◌≢◌, ◌⊎◌, inl, inr, true, false, not,
  ◌&&◌, ◌||◌, Option, some, arith, ℕ_discrete, ltb, ◌==◌, Bool-cases,
}
use tcmalloc.Pages.Length.{word}
use tcmalloc.Pages.PageId
use tcmalloc.Pages.HugeLength.{huge_page_size, max_page_number, overflows, in_bytes, from_bytes}
use tcmalloc.Pages.HugePage.{containing_addr, containing}
use tcmalloc.Pages.HugeRange.{HugeRange, make, nil, valid}
use tcmalloc.Pages.HugeRange.Laws.{IsProper}
use tcmalloc.HugeAddressMap.Tree.Order.{Member, has, covers, longest_range}
use tcmalloc.HugeAllocator.{
  AddressRange, HugeAllocator, find, release, take, allocate_range, get_more, get,
}
use tcmalloc.HugeAllocator.Valid.{IsValid, IsFresh, find-FoundFit, release_lem}
use tcmalloc.HugeAllocator.Fit.{Member-around, longest_range-Member}
use tcmalloc.HugeAllocator.Take.{take_lem}

-- What `Get` of `n` makes of the allocator when it hands out `r`, with `g` new from the system
-- (`g.n` is 0 if the system was not asked): of the free huge pages and the new ones, exactly those
-- of `r` are free no more.
pub record Got (n : ℕ) (g r : HugeRange) (s s' : HugeAllocator) : Type 0 where
  pub valid : IsValid s'
  pub len : r.n ≡ n
  pub pages : (p : ℕ) → covers s'.free.root p ≡ (covers s.free.root p || has g p) && not (has r p)
  pub held : (p : ℕ) → has r p ≡ true → covers s.free.root p || has g p ≡ true
  pub used : s'.in_use ≡ s.in_use + n
  pub system : s'.from_system ≡ s.from_system + g.n

-- The call's result is a range.
abbrev pub Success : ℕ → HugeAllocator → Option (HugeRange × HugeAllocator) → Type 0
Success n s out = (r g : HugeRange) × (s' : HugeAllocator) × (out ≡ some (r, s')) × Got n g r s s'

module _ (allocate : ℕ → ℕ → AddressRange) (n : ℕ) (s : HugeAllocator) (v : IsValid s)
    (h : 0 < n) where
  abbrev reply : AddressRange
  reply = allocate (in_bytes n) huge_page_size

  abbrev grown : HugeRange
  grown = make (reply.ptr / huge_page_size) (reply.bytes / huge_page_size)

  from_map : (r : HugeRange) → Member r s.free.root → n ≤ r.n → Success n s (take n r s)
  unfolding has
  from_map r mem le =
      let (s', e, t) = take_lem n r s v mem h le in
      (
        make r.first n,
        nil,
        s',
        e,
        record {
          valid = t.valid;
          len = refl;
          pages = λ p. ground (arith, t.pages p);
          held = λ p q. ground (arith, t.held p q);
          used = t.used;
          system = omega (arith, t.system);
        },
      )

  -- What a good reply that is not null comes to.
  allocated :
      IsFresh s n reply
      → overflows n ≡ false
      → reply.ptr ≢ 0
      → (allocate_range allocate n s
          ≡ some (grown, record s { from_system = s.from_system + grown.n }))
        × IsProper grown
        × (1 ≤ grown.first)
        × (n ≤ grown.n)
        × (valid grown ≡ true)
  unfolding allocate_range containing_addr containing PageId.containing from_bytes in_bytes
      overflows valid
  allocated f o z =
      let e₁ : (reply.ptr == 0) ≡ false = ground arith in
      let e₂ : (reply.bytes % huge_page_size == 0) ≡ true = ground (arith, f.whole) in
      let small : n * huge_page_size < 2 ^ 64 = ground arith in
      let room = f.room in
      let e₃ : word (s.from_system + reply.bytes / huge_page_size)
          ≡ s.from_system + reply.bytes / huge_page_size =
        omega arith in
      let e₄ : reply.ptr / 2 ^ 13 / 2 ^ 8 ≡ reply.ptr / huge_page_size = omega arith in
      let many : n ≤ reply.bytes / huge_page_size = omega (arith, f.enough) in
      let first : 1 ≤ reply.ptr / huge_page_size = omega (arith, f.aligned) in
      let top : reply.ptr / huge_page_size + reply.bytes / huge_page_size ≤ max_page_number =
        omega (arith, f.inside, f.aligned, f.whole) in
      (
        rw (o) (rw e₁ (rw e₂ (rw (e₃, e₄)))),
        record { nonempty = omega arith; inside = top },
        first,
        many,
        ground arith,
      )

  -- After the new range is released, the map has a range that is long enough.
  find_more :
      (s₂ : HugeAllocator)
      → IsValid s₂
      → 0 < grown.n
      → n ≤ grown.n
      → ((p : ℕ) → has grown p ≡ true → covers s₂.free.root p ≡ true)
      → (r : HugeRange) × (find s₂ n ≡ some r) × Member r s₂.free.root × (n ≤ r.n)
  find_more s₂ v₂ pos le all = elim (find-FoundFit s₂ n v₂ h) [
    | inl (e, inl short) ↦
        let (x, m, lo, hi) =
          Member-around 1 (max_page_number + 1) s₂.free.root grown v₂.free.ordered pos all in
        absurd (omega (arith, longest_range-Member s₂.free.root x m))
    | inl (e, inr (b, q)) ↦ absurd (cc)
    | inr found ↦ found
  ]

  -- The steps of `get_more`, when each succeeds.
  more_steps :
      (s₁ s₂ : HugeAllocator) (r : HugeRange) (out : Option (HugeRange × HugeAllocator))
      → allocate_range allocate n s ≡ some (grown, s₁)
      → valid grown ≡ true
      → release grown (record s₁ { in_use = word (s₁.in_use + grown.n) }) ≡ some s₂
      → find s₂ n ≡ some r
      → take n r s₂ ≡ out
      → get_more allocate n s ≡ out
  unfolding get_more
  more_steps s₁ s₂ r out a b c d e = rw (a) (rw b (rw c (rw d e)))

  from_system :
      IsFresh s n reply → overflows n ≡ false → reply.ptr ≢ 0 → Success n s (get_more allocate n s)
  from_system f o z =
      let (e₁, proper, pos, many, good) = allocated f o z in
      let room = f.room in
      let small : word (s.in_use + grown.n) ≡ s.in_use + grown.n = omega (arith, v.balance) in
      let s₁ = record s { from_system = s.from_system + grown.n; in_use = s.in_use + grown.n } in
      let v₁ : IsValid s₁ = record {
        free = v.free;
        balance = omega (arith, v.balance);
        fits = room;
      } in
      let (s₂, e₂, g) = release_lem grown s₁ v₁ proper pos f.fresh (omega arith) in
      let e₂' = ap (λ k. release grown (record s₁ { in_use = k })) small ∙ e₂ in
      let (r, e₃, mem, le) =
        find_more s₂ g.valid proper.nonempty many (λ p q. ground (arith, g.pages p)) in
      let (s₃, e₄, t) = take_lem n r s₂ g.valid mem h le in
      (
        make r.first n,
        grown,
        s₃,
        more_steps (record s { from_system = s.from_system + grown.n }) s₂ r
            (some (make r.first n, s₃)) e₁ good e₂' e₃ e₄,
        record {
          valid = t.valid;
          len = refl;
          pages = λ p. ground (arith, t.pages p, g.pages p);
          held = λ p q. ground (arith, t.held p q, g.pages p);
          used = omega (arith, t.used, g.used);
          system = omega (arith, t.system, g.system);
        },
      )

  no_memory : (overflows n ≡ true) ⊎ (reply.ptr ≡ 0) → get_more allocate n s ≡ some (nil, s)
  unfolding get_more allocate_range valid
  no_memory (inl o) = rw o
  no_memory (inr z) = elim (Bool-cases (overflows n)) [ inl o ↦ rw o | inr o ↦ rw o (rw z) ]

-- A request of at least one huge page from a valid allocator, where the system's reply, if it is
-- asked and has memory, is good, never fails a check. It hands out a range of exactly that length,
-- which was free or is new from the system, leaves free exactly the other free and new huge pages
-- and keeps the invariant; or it returns `Nil` and changes nothing, and then no free range was long
-- enough, and the system was asked for more bytes than 64 bits count or had no memory.
pub get_lem :
    (allocate : ℕ → ℕ → AddressRange) (n : ℕ) (s : HugeAllocator)
    → IsValid s
    → 0 < n
    → ((allocate (in_bytes n) huge_page_size).ptr ≢ 0
        → IsFresh s n (allocate (in_bytes n) huge_page_size))
    → Success n s (get allocate n s)
      ⊎ ((get allocate n s ≡ some (nil, s))
          × (longest_range s.free.root < n)
          × ((overflows n ≡ true) ⊎ ((allocate (in_bytes n) huge_page_size).ptr ≡ 0)))
unfolding get
get_lem allocate n s v h fresh =
    let pos : ltb 0 n ≡ true = ground arith in
    rw pos (elim (find-FoundFit s n v h) [
      | inr (r, e, m, le) ↦ rw e (inl (from_map allocate n s v h r m le))
      | inl (e, inr (b, q)) ↦ absurd (cc)
      | inl (e, inl short) ↦ rw e (elim (Bool-cases (overflows n)) [
        | inl o ↦ inr (no_memory allocate n s v h (inl o), short, inl o)
        | inr o ↦ elim (ℕ_discrete (allocate (in_bytes n) huge_page_size).ptr 0) [
          | yes z ↦ inr (no_memory allocate n s v h (inr z), short, inr z)
          | no z ↦ inl (from_system allocate n s v h (fresh z) o z)
        ]
      ])
    ])
