-- ===== src/HugeRegion/Start.antt =====
-- The constructor of `HugeRegion`.
use tcmalloc.Base.{
  ℕ, ◌+◌, ◌*◌, ◌≤◌, ◌≡◌, refl, sym, ◌∙◌, Bool, false, arith, get_or, replicate, length-replicate,
  get_or-replicate,
}
use tcmalloc.Pages.HugeLength.{max_page_number}
use tcmalloc.Pages.HugeRange.{HugeRange}
use tcmalloc.Bitmap.Defs.{get_bit}
use tcmalloc.Bitmap.Fill.{get_bit-cleared}
use tcmalloc.RangeTracker.{clear}
use tcmalloc.RangeTracker.BestFit.{clear-IsExact}
use tcmalloc.HugeRegion.{num_huge_pages, region_pages, new_region}
use tcmalloc.HugeRegion.Count.{count-none}
use tcmalloc.HugeRegion.Valid.{IsValid, is_free}

clear-nused : (size : ℕ) → (clear size).nused ≡ 0
unfolding clear
clear-nused size = refl

no_backed : (i : ℕ) → get_or (replicate num_huge_pages false) i false ≡ false
no_backed i = get_or-replicate num_huge_pages false i

-- A tracker of the region's pages, with none used.
abbrev no_bits : ℕ → Bool
no_bits = get_bit (clear region_pages).bits

no_bits_lem : (x : ℕ) → no_bits x ≡ false
unfolding clear
no_bits_lem x = get_bit-cleared region_pages x

pub new_region-IsValid :
    (place : HugeRange)
    → place.n ≡ num_huge_pages
    → place.first + num_huge_pages ≤ max_page_number
    → IsValid (new_region place)
unfolding new_region
new_region-IsValid place size le = record {
  whole = size;
  placed = le;
  tracker = clear-IsExact region_pages (omega arith);
  total =
      clear-nused region_pages ∙ sym (count-none no_bits 0 region_pages (λ x _ _. no_bits_lem x));
  counted = record {
    used_size = length-replicate {A = ℕ} num_huge_pages 0;
    backed_size = length-replicate num_huge_pages false;
    used = λ i p.
        get_or-replicate {A = ℕ} num_huge_pages 0 i
        ∙ sym (count-none no_bits (256 * i) 256 (λ x _ _. no_bits_lem x));
    live = λ i p u. absurd (omega (arith, get_or-replicate {A = ℕ} num_huge_pages 0 i, u));
    backed = sym (
        count-none (λ i. get_or (replicate num_huge_pages false) i false) 0 num_huge_pages
          (λ x _ _. no_backed x));
    free = sym (
        count-none (is_free (new_region place)) 0 num_huge_pages
          (λ x _ _. ground (arith, no_backed x)));
  };
}
