-- ===== src/Pages/HugeLength.antt =====
-- `HugeLength` of tcmalloc/huge_pages.h: a number of huge pages.
use tcmalloc.Base.{
  ℕ, ◌+◌, ◌-◌, ◌*◌, ◌/◌, ◌%◌, ◌^◌, ◌≤◌, ◌<◌, ◌≡◌, ◌↔◌, Bool, true, not, arith, ltb, ◌==◌,
  if◌then◌else◌,
}
use tcmalloc.Pages.Length.{word, word_sub, page_shift}

abbrev pub huge_page_shift : ℕ
huge_page_shift = 21

abbrev pub huge_page_size : ℕ
huge_page_size = 2 ^ huge_page_shift

abbrev pub pages_per_huge_page : ℕ
pages_per_huge_page = 2 ^ (huge_page_shift - page_shift)

-- `HugePage::kMaxPageNumber`, also `HugeLength::max()`.
abbrev pub max_page_number : ℕ
max_page_number = (2 ^ 64 - 1) / 2 ^ huge_page_shift

unfoldable pub in_bytes : ℕ → ℕ
in_bytes n = word (n * huge_page_size)

unfoldable pub in_mib : ℕ → ℕ
in_mib n = word (n * (huge_page_size / 1024 / 1024))

unfoldable pub in_pages : ℕ → ℕ
in_pages n = word (n * pages_per_huge_page)

-- `HLFromBytes`.
unfoldable pub from_bytes : ℕ → ℕ
from_bytes bytes = bytes / huge_page_size

-- `HLFromPages`: the comparison adds 1 or 0.
unfoldable pub from_pages : ℕ → ℕ
from_pages pages =
    word (pages / pages_per_huge_page + (if not (pages % pages_per_huge_page == 0) then 1 else 0))

unfoldable pub overflows : ℕ → Bool
unfolding from_bytes
overflows n = ltb (from_bytes (2 ^ 64 - 1)) n

abbrev pub add : ℕ → ℕ → ℕ
add a b = word (a + b)

abbrev pub sub : ℕ → ℕ → ℕ
sub a b = word_sub a b

-- `HLFromPages` gives the least number of huge pages that holds a 64-bit number of pages.
pub from_pages-least :
    (pages k : ℕ)
    → pages < 2 ^ 64
    → (pages ≤ from_pages pages * pages_per_huge_page)
      × (pages ≤ k * pages_per_huge_page → from_pages pages ≤ k)
unfolding from_pages
from_pages-least pages k h = ground arith

-- A huge length overflows exactly when its byte count does not fit 64 bits; one that does not
-- overflow comes back from its bytes and from its pages.
pub overflows_iff :
    (n : ℕ)
    → ((overflows n ≡ true) ↔ (2 ^ 64 ≤ n * huge_page_size))
      × (n * huge_page_size < 2 ^ 64
          → (from_bytes (in_bytes n) ≡ n) × (from_pages (in_pages n) ≡ n))
unfolding overflows in_bytes from_pages in_pages
overflows_iff n = (((λ e. ground arith), (λ h. ground arith)), λ h. (omega arith, ground arith))
