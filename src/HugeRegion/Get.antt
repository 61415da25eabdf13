-- ===== src/HugeRegion/Get.antt =====
-- `Inc` as a whole and `MaybeGet` of `HugeRegion`.
use tcmalloc.Base.{
  ℕ, zero, suc, ◌+◌, ◌-◌, ◌*◌, ◌/◌, ◌%◌, ◌≤◌, ◌<◌, min, ◌≡◌, refl, ap, ◌∙◌, ◌↔◌, ◌⊎◌, inl, inr,
  Bool, true, false, not, ◌||◌, arith, ℕ_discrete, ltb, ◌==◌, if◌then◌else◌, Bool-cases,
}
use tcmalloc.Pages.HugeLength.{max_page_number}
use tcmalloc.RangeTracker.Rest.{marked}
use tcmalloc.HugeRegion.{HugeRegion, num_huge_pages, region_pages, backed_at, inc_page, inc}
use tcmalloc.HugeRegion.Count.{count-ext}
use tcmalloc.HugeRegion.Valid.{Counted, page_at, index_of-page_at, pages_here-page_at, add-page_at}
use tcmalloc.HugeRegion.Inc.{inc_page-Counted, inc_page-free_le, inc_page_lem, backed_at-inc_page}

-- One of `n` pages from page `k` on is in a huge page that is not backed.
abbrev pub Unbacked : HugeRegion → ℕ → ℕ → Type 0
Unbacked r k n = (x : ℕ) × (k ≤ x) × (x < k + n) × (backed_at r (x / 256) ≡ false)

-- What `Inc` of `n` pages from page `k` makes of the region; `should` is what its flag was.
pub record Used (f : ℕ → Bool) (k n : ℕ) (should : Bool) (r : HugeRegion) (res : Bool × HugeRegion)
    : Type 0 where
  pub counted : Counted (marked f k n) res.1
  pub tracker : res.1.tracker ≡ r.tracker
  pub location : res.1.location ≡ r.location
  pub free_le : res.1.free_backed_count ≤ r.free_backed_count
  pub released : (res.0 ≡ true) ↔ ((should ≡ true) ⊎ Unbacked r k n)

pub Counted-ext :
    (f g : ℕ → Bool) (r : HugeRegion) → ((x : ℕ) → f x ≡ g x) → Counted f r → Counted g r
Counted-ext f g r e v = record {
  used_size = v.used_size;
  backed_size = v.backed_size;
  used = λ i q. v.used i q ∙ count-ext f g (256 * i) 256 (λ x _ _. e x);
  live = v.live;
  backed = v.backed;
  free = v.free;
}

inc_page_rest :
    (i h : ℕ) (r : HugeRegion)
    → ((inc_page i h r).1.tracker ≡ r.tracker) × ((inc_page i h r).1.location ≡ r.location)
unfolding inc_page
inc_page_rest i h r = (refl, refl)

inc-turn :
    (fuel k n : ℕ) (should : Bool) (r : HugeRegion)
    → r.location.first + num_huge_pages ≤ max_page_number
    → 0 < n
    → k + n ≤ region_pages
    → let h = min n (256 - k % 256) in
      inc (suc fuel) (page_at r k) n should r
      ≡ inc fuel
          (page_at r (k + h))
          (n - h)
          (should || (inc_page (k / 256) h r).0)
          (inc_page (k / 256) h r).1
unfolding inc
inc-turn fuel k n should r placed pos le =
    let lt : k < region_pages = omega arith in
    let go : ltb 0 n ≡ true = ground arith in
    rw go (
      rw (index_of-page_at r k placed lt) (
        rw (pages_here-page_at r k placed lt n)
          (rw (add-page_at r k placed lt (min n (256 - k % 256)) (omega arith)) refl)))

inc-stop : (fuel p : ℕ) (should : Bool) (r : HugeRegion) → inc fuel p 0 should r ≡ (should, r)
unfolding inc
inc-stop zero p should r = refl
inc-stop (suc fuel) p should r = refl

Unbacked-turn :
    (f : ℕ → Bool) (k n h : ℕ) (should : Bool) (r : HugeRegion) (last : Bool)
    → h ≡ min n (256 - k % 256)
    → 0 < n
    → ((j : ℕ)
        → backed_at (inc_page (k / 256) h r).1 j ≡ (if j == k / 256 then true else backed_at r j))
    → ((inc_page (k / 256) h r).0 ≡ not (backed_at r (k / 256)))
    → (last ≡ true) ↔ (
        ((should || (inc_page (k / 256) h r).0) ≡ true)
        ⊎ Unbacked (inc_page (k / 256) h r).1 (k + h) (n - h))
    → (last ≡ true) ↔ ((should ≡ true) ⊎ Unbacked r k n)
Unbacked-turn f k n h should r last e pos at was (to, from) = (
  λ l. elim (to l) [
    | inl o ↦ elim (Bool-cases should) [
      | inl s ↦ inl s
      | inr s ↦ inr (k, omega arith, omega arith, ground (arith, o, s, was))
    ]
    | inr (x, p, q, off) ↦ inr (x, omega arith, omega arith, ground (arith, at (x / 256)))
  ],
  λ w. elim w [
    | inl s ↦ from (inl (ground (arith, s)))
    | inr (x, p, q, off) ↦ elim (ℕ_discrete (x / 256) (k / 256)) [
      | yes same ↦ from (inl (ground (arith, was, ap (backed_at r) same, off)))
      | no ne ↦ from (inr (x, omega arith, omega arith, at (x / 256) ∙ ground (arith, off)))
    ]
  ],
)

module _ (f : ℕ → Bool) (k n : ℕ) (should : Bool) (r : HugeRegion) (v : Counted f r) (pos : 0 < n)
    (le : k + n ≤ region_pages) (free : (x : ℕ) → k ≤ x → x < k + n → f x ≡ false) where
  here : ℕ
  here = min n (256 - k % 256)

  turned : Counted (marked f k here) (inc_page (k / 256) here r).1
  unfolding here
  turned =
      inc_page-Counted f r (k / 256) k here v (omega arith) (omega arith) (omega arith)
        (omega arith) (λ x p q. free x p (omega arith))

  turn-Used :
      (last : Bool × HugeRegion)
      → Used
          (marked f k here)
          (k + here)
          (n - here)
          (should || (inc_page (k / 256) here r).0)
          (inc_page (k / 256) here r).1
          last
      → Used f k n should r last
  unfolding here
  turn-Used last w = record {
    counted =
        Counted-ext (marked (marked f k here) (k + here) (n - here)) (marked f k n) last.1
          (λ x. ground arith) w.counted;
    tracker = w.tracker ∙ (inc_page_rest (k / 256) here r).0;
    location = w.location ∙ (inc_page_rest (k / 256) here r).1;
    free_le =
        let z =
          inc_page-free_le f r (k / 256) k here v (omega arith) (omega arith) (omega arith)
            (omega arith) (λ x p q. free x p (omega arith)) in
        omega (arith, z, w.free_le);
    released =
        Unbacked-turn f k n here should r last.0 refl pos
          (backed_at-inc_page f r (k / 256) k here v (omega arith) (omega arith) (omega arith)
            (omega arith) (λ x p q. free x p (omega arith)))
          (inc_page_lem f r (k / 256) k here v (omega arith) (omega arith) (omega arith)
            (omega arith) (λ x p q. free x p (omega arith)))
          w.released;
  }

-- `Inc` with fuel for each page, on free pages of the region.
pub inc-Used :
    (fuel : ℕ) (f : ℕ → Bool) (k n : ℕ) (should : Bool) (r : HugeRegion)
    → n ≤ fuel
    → r.location.first + num_huge_pages ≤ max_page_number
    → Counted f r
    → k + n ≤ region_pages
    → ((x : ℕ) → k ≤ x → x < k + n → f x ≡ false)
    → Used f k n should r (inc fuel (page_at r k) n should r)
unfolding here inc_page
inc-Used fuel f k zero should r enough placed v le free =
    rw (inc-stop fuel (page_at r k) should r) (record {
      counted = Counted-ext f (marked f k 0) r (λ x. ground arith) v;
      tracker = refl;
      location = refl;
      free_le = omega arith;
      released = (inl, λ w. elim w [ inl s ↦ s | inr (x, p, q, off) ↦ absurd (omega arith) ]);
    })
inc-Used zero f k (suc m) should r enough placed v le free = absurd (omega arith)
inc-Used (suc fuel) f k (suc m) should r enough placed v le free =
    let h = min (suc m) (256 - k % 256) in
    let ih =
      inc-Used fuel (marked f k h) (k + h) (suc m - h) (should || (inc_page (k / 256) h r).0)
        (inc_page (k / 256) h r).1 (omega arith) placed
        (turned f k (suc m) should r v (omega arith) le free) (omega arith)
        (λ x p q. ground (arith, free x (omega arith) (omega arith))) in
    rw (inc-turn fuel k (suc m) should r placed (omega arith) le) (
      turn-Used f k (suc m) should r v (omega arith) le free
        (inc fuel (page_at r (k + h)) (suc m - h) (should || (inc_page (k / 256) h r).0)
          (inc_page (k / 256) h r).1)
        ih)
