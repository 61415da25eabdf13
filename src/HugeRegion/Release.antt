-- ===== src/HugeRegion/Release.antt =====
-- `UnbackHugepages` as a whole, and `Release`.
use tcmalloc.Base.{
  ℕ, zero, suc, ◌+◌, ◌-◌, ◌≤◌, ◌<◌, ◌≡◌, refl, subst, sym, ap, ◌∙◌, ◌⊎◌, inl, inr, Bool, true,
  false, some, List, arith, ℕ_discrete, dec_lt, ltb, if◌then◌else◌, Bool-cases, get_or,
}
use native.Mathlib.Nat.{add_assoc}
use tcmalloc.Pages.Length.{word}
use tcmalloc.Pages.HugePage as HugePage
use tcmalloc.Pages.HugeRange.{HugeRange, make}
use tcmalloc.HugeRegion.{HugeRegion, num_huge_pages, region_pages, used_at, backed_at}
use tcmalloc.HugeRegion.Valid.{IsValid, is_free}
use tcmalloc.HugeRegion.MaybeGet.{bits_of}
use tcmalloc.HugeRegion.Unback.{unback_run, unback_from, run_length}
use tcmalloc.HugeRegion.Exchange.{run_length_lem}
use tcmalloc.HugeRegion.Run.{Ran, succeeds, unback_run_lem}

-- A range of huge pages of the region with no page used, with `j` among them, was offered to the
-- system, which replied `reply`.
abbrev pub Offered : (HugeRange → Bool) → Bool → HugeRegion → ℕ → Type 0
Offered unback reply r j =
    (i : ℕ) × (hl : ℕ) × (i ≤ j)
    × (j < i + hl)
    × (i + hl ≤ num_huge_pages)
    × (unback (make (HugePage.add r.location.first i) hl) ≡ reply)
    × ((k : ℕ) → i ≤ k → k < i + hl → used_at r k ≡ 0)

pub Offered-ext :
    (unback : HugeRange → Bool) (reply : Bool) (r r' : HugeRegion) (j : ℕ)
    → r.location ≡ r'.location
    → ((k : ℕ) → used_at r k ≡ used_at r' k)
    → Offered unback reply r j
    → Offered unback reply r' j
Offered-ext unback reply r r' j l u (i, hl, a, b, c, e, f) = (
  i,
  hl,
  a,
  b,
  c,
  ap (λ z. unback (make (HugePage.add z.first i) hl)) (sym l) ∙ e,
  λ k p q. sym (u k) ∙ f k p q,
)

-- What became of a huge page that was picked.
abbrev pub Decided : (HugeRange → Bool) → HugeRegion → HugeRegion → ℕ → Type 0
Decided unback r r' j =
    (Offered unback true r j × (backed_at r' j ≡ false))
    ⊎ (Offered unback false r j × (backed_at r' j ≡ true))

-- What a release of `n` huge pages from `i` on among those of `should` makes of the region: each of
-- these stays backed exactly if the system refused the range that it was offered in, the counters go
-- down by as many as do not, and nothing else changes.
pub record Released (unback : HugeRange → Bool) (i : ℕ) (should : List Bool) (n : ℕ)
    (r r' : HugeRegion) : Type 0 where
  pub valid : IsValid r'
  pub bits : (x : ℕ) → bits_of r' x ≡ bits_of r x
  pub allocs : r'.tracker.nallocs ≡ r.tracker.nallocs
  pub used : (j : ℕ) → used_at r' j ≡ used_at r j
  pub location : r'.location ≡ r.location
  pub kept : (j : ℕ) → (j < i) ⊎ (get_or should j false ≡ false) → backed_at r' j ≡ backed_at r j
  pub lost : (j : ℕ) → backed_at r j ≡ false → backed_at r' j ≡ false
  pub all :
      (j : ℕ) → i ≤ j → j < num_huge_pages → get_or should j false ≡ true → Decided unback r r' j
  pub nbacked : r'.nbacked + n ≡ r.nbacked
  pub free : r'.free_backed_count + n ≡ r.free_backed_count

-- Every huge page of `should` from `i` on is free.
abbrev pub Picked : ℕ → List Bool → HugeRegion → Type 0
Picked i should r =
    (j : ℕ) → i ≤ j → j < num_huge_pages → get_or should j false ≡ true → is_free r j ≡ true

module _ (unback : HugeRange → Bool) (i : ℕ) (should : List Bool) (r : HugeRegion) where
  Released-none : IsValid r → num_huge_pages ≤ i → Released unback i should 0 r r
  Released-none v le = record {
    valid = v;
    bits = λ x. refl;
    allocs = refl;
    used = λ j. refl;
    location = refl;
    kept = λ j e. refl;
    lost = λ j e. e;
    all = λ j p q. absurd (omega arith);
    nbacked = omega arith;
    free = omega arith;
  }

  Released-skip :
      (n : ℕ) (r' : HugeRegion)
      → get_or should i false ≡ false
      → Released unback (i + 1) should n r r'
      → Released unback i should n r r'
  Released-skip n r' off w = record {
    valid = w.valid;
    bits = w.bits;
    allocs = w.allocs;
    used = w.used;
    location = w.location;
    kept = λ j e. elim (ℕ_discrete j i) [
      | yes same ↦ w.kept j (inl (omega arith))
      | no ne ↦ w.kept j (elim e [ inl lt ↦ inl (omega arith) | inr c ↦ inr c ])
    ];
    lost = w.lost;
    all = λ j p q e. elim (ℕ_discrete j i) [
      | yes same ↦ absurd (ground (arith, off, e, ap (λ z. get_or should z false) same))
      | no ne ↦ w.all j (omega arith) q e
    ];
    nbacked = w.nbacked;
    free = w.free;
  }

  module _ (hl : ℕ) (on_set : (j : ℕ) → i ≤ j → j < i + hl → get_or should j false ≡ true)
      (success : Bool) (r₁ : HugeRegion) (c : Picked i should r) (inside : i + hl ≤ num_huge_pages)
      (e : unback (make (HugePage.add r.location.first i) hl) ≡ success)
      (w : Ran i hl success (if success then hl else 0) r r₁) where
    offered : (j : ℕ) → i ≤ j → j < i + hl → Offered unback success r j
    offered j p q =
        (i, hl, p, q, inside, e, λ k u x. ground (arith, c k u (omega arith) (on_set k u x)))

    older : (reply : Bool) (j : ℕ) → Offered unback reply r₁ j → Offered unback reply r j
    older reply j = Offered-ext unback reply r₁ r j w.location w.used

    Decided-here :
        (j : ℕ) (r' : HugeRegion)
        → i ≤ j
        → j < i + hl
        → backed_at r' j ≡ backed_at r₁ j
        → Decided unback r r' j
    Decided-here j r' p q same = elim (Bool-cases success) [
      | inl on ↦ inl (
        subst (λ b. Offered unback b r j) on (offered j p q),
        same ∙ ground (arith, w.backed j, on),
      )
      | inr off ↦ inr (
        subst (λ b. Offered unback b r j) off (offered j p q),
        same ∙ ground (arith, w.backed j, off, c j p (omega arith) (on_set j p q)),
      )
    ]

    Released-run :
        (n : ℕ) (r' : HugeRegion)
        → Released unback (i + hl) should n r₁ r'
        → Released unback i should ((if success then hl else 0) + n) r r'
    Released-run n r' z = record {
      valid = z.valid;
      bits = λ x. z.bits x ∙ w.bits x;
      allocs = z.allocs ∙ w.allocs;
      used = λ j. z.used j ∙ w.used j;
      location = z.location ∙ w.location;
      kept = λ j e. elim e [
        | inl lt ↦ z.kept j (inl (omega arith)) ∙ ground (arith, w.backed j)
        | inr off ↦ z.kept j (inr off) ∙ ground (arith, w.backed j, on_set j, off)
      ];
      lost = λ j e. z.lost j (ground (arith, w.backed j, e));
      all = λ j p q e. elim (dec_lt j (i + hl)) [
        | yes lt ↦ Decided-here j r' p lt (z.kept j (inl lt))
        | no ge ↦ elim (z.all j (omega arith) q e) [
          | inl (o, b) ↦ inl (older true j o, b)
          | inr (o, b) ↦ inr (older false j o, b)
        ]
      ];
      nbacked = omega (arith, z.nbacked, w.nbacked);
      free = omega (arith, z.free, w.free);
    }

    Picked-run : Picked (i + hl) should r₁
    Picked-run j p q e = ground (arith, c j (omega arith) q e, w.backed j, w.used j)

unback_from-run :
    (unback : HugeRange → Bool) (fuel i : ℕ) (should : List Bool) (before gone n : ℕ)
    (r r₁ r' : HugeRegion)
    → ltb i num_huge_pages ≡ true
    → get_or should i false ≡ true
    → unback_run unback i (run_length (num_huge_pages - i) i should) r ≡ some (gone, r₁)
    → word (before + gone) ≡ before + gone
    → unback_from unback fuel
        (i + run_length (num_huge_pages - i) i should)
        should
        (before + gone)
        r₁
      ≡ some (before + gone + n, r')
    → unback_from unback (suc fuel) i should before r ≡ some (before + (gone + n), r')
unfolding unback_from
unback_from-run unback fuel i should before gone n r r₁ r' on on' e₁ sum e =
    rw on (rw on' (rw e₁ (rw sum (e ∙ ap (λ z. some (z, r')) (add_assoc before gone n)))))

-- `UnbackHugepages` from huge page `i` on: no check fails, and enough fuel is given.
pub unback_from_lem :
    (unback : HugeRange → Bool) (fuel i : ℕ) (should : List Bool) (before : ℕ) (r : HugeRegion)
    → IsValid r
    → r.tracker.nallocs < region_pages
    → num_huge_pages ≤ i + fuel
    → before + r.free_backed_count ≤ num_huge_pages
    → Picked i should r
    → (n : ℕ) × (r' : HugeRegion) × (unback_from unback fuel i should before r
        ≡ some (before + n, r'))
      × Released unback i should n r r'
unfolding unback_from
unback_from_lem unback zero i should before r v more enough room c =
    (0, r, ap (λ z. some (z, r)) (omega arith), Released-none unback i should r v (omega arith))
unback_from_lem unback (suc fuel) i should before r v more enough room c =
    elim (Bool-cases (ltb i num_huge_pages)) [
      | inr off ↦ (
        0,
        r,
        rw off (ap (λ z. some (z, r)) (omega arith)),
        Released-none unback i should r v (ground (arith, off)),
      )
      | inl on ↦ elim (Bool-cases (get_or should i false)) [
        | inr off ↦
            let (n, r', e, w) =
              unback_from_lem unback fuel (i + 1) should before r v more (omega arith) room
                (λ j p q e. c j (omega arith) q e) in
            (n, r', rw on (rw off e), Released-skip unback i should r n r' off w)
        | inl on' ↦
            let hl = run_length (num_huge_pages - i) i should in
            let (b, all_set, pos) = run_length_lem (num_huge_pages - i) i should in
            let lt : i < num_huge_pages = ground (arith, on) in
            let some_pages : 0 < hl = pos (omega arith) on' in
            let inside : i + hl ≤ num_huge_pages = omega arith in
            let (r₁, e₁, w₁) =
              unback_run_lem unback i hl r v some_pages inside more
                (λ j p q. c j p (omega arith) (all_set j p q)) in
            let s = succeeds unback i hl r in
            let gone : ℕ = if s then hl else 0 in
            let sum : word (before + gone) ≡ before + gone = omega (arith, w₁.free) in
            let (n, r', e, w) =
              unback_from_lem unback fuel (i + hl) should (before + gone) r₁ w₁.valid
                (omega (arith, w₁.allocs)) (omega arith) (omega (arith, w₁.free))
                (Picked-run unback i should r hl all_set s r₁ c inside refl w₁) in
            (
              gone + n,
              r',
              unback_from-run unback fuel i should before gone n r r₁ r' on on' e₁ sum e,
              Released-run unback i should r hl all_set s r₁ c inside refl w₁ n r' w,
            )
      ]
    ]
