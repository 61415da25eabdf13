-- ===== src/HugeRegion/Put.antt =====
-- `Put` of `HugeRegion`.
use tcmalloc.Base.{
  ℕ, ◌+◌, ◌≤◌, ◌<◌, ◌≡◌, refl, sym, ap, ◌∙◌, ◌⊎◌, inl, inr, Bool, true, false, some, List, arith,
  Bool-cases, length, get_or, length-replicate, get_or-replicate,
}
use tcmalloc.Pages.HugeRange.{HugeRange}
use tcmalloc.Bitmap.Defs.{get_bit}
use tcmalloc.RangeTracker.{unmark}
use tcmalloc.RangeTracker.BestFit.{IsExact}
use tcmalloc.RangeTracker.Unmark.{opened, unmark_lem}
use tcmalloc.HugeRegion.{HugeRegion, num_huge_pages, region_pages, backed_at, dec}
use tcmalloc.HugeRegion.Count.{count-or, count-none, count, count-ext, count-opened}
use tcmalloc.HugeRegion.Valid.{IsValid, is_free, page_at, distance-page_at}
use tcmalloc.HugeRegion.Get.{Counted-ext}
use tcmalloc.HugeRegion.MaybeGet.{bits_of}
use tcmalloc.HugeRegion.Unback.{nothing, put, unback_hugepages}
use tcmalloc.HugeRegion.Release.{Offered, Offered-ext, Released}
use tcmalloc.HugeRegion.Reclaim.{unback_hugepages_lem}
use tcmalloc.HugeRegion.Freed.{Freed, dec-Freed}

-- Without `release` what is backed stays. With it a huge page that is free and backed either was so
-- before or is in a range that the system refused, and one that lost its backing is in a range that
-- the system accepted.
abbrev pub Outcome : (HugeRange → Bool) → Bool → HugeRegion → HugeRegion → Type 0
Outcome unback false r r' = (j : ℕ) → backed_at r' j ≡ backed_at r j
Outcome unback true r r' =
    (j : ℕ)
    → j < num_huge_pages
    → (is_free r' j ≡ true → (is_free r j ≡ true) ⊎ Offered unback false r' j)
      × (backed_at r j ≡ true → backed_at r' j ≡ false → Offered unback true r' j)

-- What `Put` of `n` pages from page `k` makes of the region: the pages are free.
pub record Returned (unback : HugeRange → Bool) (n k : ℕ) (release : Bool) (r r' : HugeRegion)
    : Type 0 where
  pub valid : IsValid r'
  pub bits : (x : ℕ) → bits_of r' x ≡ opened (bits_of r) k n x
  pub allocs : r'.tracker.nallocs + 1 ≡ r.tracker.nallocs
  pub free_ge : r.free_backed_count ≤ r'.free_backed_count
  pub outcome : Outcome unback release r r'

module _ (n k : ℕ) (r : HugeRegion) (v : IsValid r) (pos : 0 < n) (le : k + n ≤ region_pages)
    (on : (x : ℕ) → k ≤ x → x < k + n → bits_of r x ≡ true)
    (some_allocs : 0 < r.tracker.nallocs) where
  -- The region with its tracker opened.
  r₁ : HugeRegion
  r₁ = record r { tracker = unmark region_pages k n r.tracker }

  fewer : count (opened (bits_of r) k n) 0 region_pages + n ≡ r.tracker.nused
  fewer =
      let c = count-opened (bits_of r) k n 0 region_pages (omega arith) on in
      omega (arith, c, v.total)

  unmarked :
      ((x : ℕ) → bits_of r₁ x ≡ opened (bits_of r) k n x)
      × (r₁.tracker.nused + n ≡ r.tracker.nused)
      × (r₁.tracker.nallocs + 1 ≡ r.tracker.nallocs)
      × IsExact region_pages r₁.tracker
  unfolding r₁
  unmarked =
      unmark_lem region_pages k n r.tracker v.tracker pos le (omega (arith, fewer)) some_allocs

  no_pages : (j : ℕ) → get_or nothing j false ≡ false
  unfolding nothing
  no_pages j = get_or-replicate num_huge_pages false j

  nothing_size : length nothing ≡ num_huge_pages
  unfolding nothing
  nothing_size = length-replicate num_huge_pages false

  freed : Freed (bits_of r) k n nothing r₁ (dec n (page_at r k) n nothing r₁)
  unfolding r₁
  freed =
      dec-Freed n (bits_of r) k n nothing r₁ (omega arith) v.placed
        (record {
          used_size = v.counted.used_size;
          backed_size = v.counted.backed_size;
          used = v.counted.used;
          live = v.counted.live;
          backed = v.counted.backed;
          free = v.counted.free;
        })
        le on nothing_size (λ j p q e. absurd (ground (arith, e, no_pages j)))

  r₂ : HugeRegion
  r₂ = (dec n (page_at r k) n nothing r₁).1

  should : List Bool
  should = (dec n (page_at r k) n nothing r₁).0

  bits₂ : (x : ℕ) → bits_of r₂ x ≡ opened (bits_of r) k n x
  unfolding r₂
  bits₂ x = ap (λ t. get_bit t.bits x) freed.tracker ∙ unmarked.0 x

  allocs₂ : r₂.tracker.nallocs + 1 ≡ r.tracker.nallocs
  unfolding r₂
  allocs₂ = ap (λ t. t.nallocs + 1) freed.tracker ∙ unmarked.2

  r₂-IsValid : IsValid r₂
  unfolding r₂ r₁
  r₂-IsValid = record {
    whole = rw freed.location v.whole;
    placed = rw freed.location v.placed;
    tracker = rw freed.tracker unmarked.3;
    total =
        let same =
          count-ext (bits_of r₂) (opened (bits_of r) k n) 0 region_pages (λ x p q. bits₂ x) in
        let u = ap (λ t. t.nused) freed.tracker in omega (arith, same, fewer, unmarked.1, u);
    counted =
        Counted-ext (opened (bits_of r) k n) (bits_of r₂) r₂ (λ x. sym (bits₂ x)) freed.counted;
  }

  -- No free huge page is lost.
  grows :
      (r' : HugeRegion)
      → IsValid r'
      → ((j : ℕ) → is_free r j ≡ true → is_free r' j ≡ true)
      → r.free_backed_count ≤ r'.free_backed_count
  grows r' w keep =
      let c =
        count-or (is_free r) (is_free r') (λ x. false) 0 num_huge_pages
          (λ x p q e. inl (keep x e)) in
      let z = count-none (λ x. false) 0 num_huge_pages (λ x p q. refl) in
      omega (arith, c, z, v.counted.free, w.counted.free)

  -- Without a release.
  held : (unback : HugeRange → Bool) → Returned unback n k false r r₂
  unfolding r₂ r₁
  held unback = record {
    valid = r₂-IsValid;
    bits = bits₂;
    allocs = allocs₂;
    free_ge = grows r₂ r₂-IsValid (λ j e. (freed.stay j e).0);
    outcome = freed.backed;
  }

  module _ (unback : HugeRange → Bool) (m : ℕ) (r₃ : HugeRegion)
      (w : Released unback 0 should m r₂ r₃) (j : ℕ) (p : j < num_huge_pages) where
    moved : (reply : Bool) → Offered unback reply r₂ j → Offered unback reply r₃ j
    moved reply = Offered-ext unback reply r₂ r₃ j (sym w.location) (λ k. sym (w.used k))

    left : is_free r₃ j ≡ true → (is_free r j ≡ true) ⊎ Offered unback false r₃ j
    unfolding r₂ r₁ should
    left q = elim (Bool-cases (get_or should j false)) [
      | inl c ↦ elim (w.all j (omega arith) p c) [
        | inl (o, b) ↦ absurd (ground (arith, q, b))
        | inr (o, b) ↦ inr (moved false o)
      ]
      | inr c ↦ elim (freed.emptied j p (ground (arith, q, w.kept j (inr c), w.used j))) [
        | inl f ↦ inl f
        | inr c' ↦ absurd (ground (arith, c, c'))
      ]
    ]

    accepted : backed_at r j ≡ true → backed_at r₃ j ≡ false → Offered unback true r₃ j
    unfolding r₂ r₁ should
    accepted b b' = elim (Bool-cases (get_or should j false)) [
      | inr c ↦ absurd (ground (arith, b, b', w.kept j (inr c), freed.backed j))
      | inl c ↦ elim (w.all j (omega arith) p c) [
        | inl (o, z) ↦ moved true o
        | inr (o, z) ↦ absurd (ground (arith, b', z))
      ]
    ]

  given :
      (unback : HugeRange → Bool)
      → (m : ℕ) × (r₃ : HugeRegion) × (unback_hugepages unback should r₂ ≡ some (m, r₃))
        × Returned unback n k true r r₃
  unfolding r₂ r₁ should
  given unback =
      let (m, r₃, e, w) =
        unback_hugepages_lem unback should r₂ r₂-IsValid
          (omega (arith, allocs₂, v.tracker.valid.allocs)) freed.picked in
      (
        m,
        r₃,
        e,
        record {
          valid = w.valid;
          bits = λ x. w.bits x ∙ bits₂ x;
          allocs = ap (λ z. z + 1) w.allocs ∙ allocs₂;
          free_ge = grows r₃ w.valid (λ j e.
              let (f, c) = freed.stay j e in
              let off = c ∙ no_pages j in ground (arith, f, w.kept j (inr off), w.used j));
          outcome = λ j p. (left unback m r₃ w j p, accepted unback m r₃ w j p);
        },
      )

-- Put of n used pages of a valid region, with n > 0 and an allocation, fails no check: it frees
-- these pages and no others, takes one allocation off, has no fewer free backed huge pages, and
-- leaves the region valid. Without release what is backed stays. With release every huge page
-- that is free and backed was so before or is in a range of unused huge pages that was offered
-- to the system and refused, and every one that lost its backing is in such a range that the
-- system accepted.
pub put_lem :
    (unback : HugeRange → Bool) (n k : ℕ) (release : Bool) (r : HugeRegion)
    → IsValid r
    → 0 < n
    → k + n ≤ region_pages
    → ((x : ℕ) → k ≤ x → x < k + n → bits_of r x ≡ true)
    → 0 < r.tracker.nallocs
    → (r' : HugeRegion) × (put unback (page_at r k) n release r ≡ some r')
      × Returned unback n k release r r'
unfolding put r₁ r₂ should
put_lem unback n k false r v pos le on some_allocs = (
  r₂ n k r v pos le on some_allocs,
  rw (distance-page_at r k v.placed (omega arith)) refl,
  held n k r v pos le on some_allocs unback,
)
put_lem unback n k true r v pos le on some_allocs =
    let (m, r₃, e, w) = given n k r v pos le on some_allocs unback in
    (r₃, rw (distance-page_at r k v.placed (omega arith)) (rw e refl), w)
