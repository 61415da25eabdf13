-- ===== src/Pages/HugePage.antt =====
-- `HugePage` of tcmalloc/huge_pages.h: the number of an aligned huge page.
use tcmalloc.Base.{ℕ, ◌+◌, ◌-◌, ◌*◌, ◌/◌, ◌^◌, ◌≤◌, ◌<◌, ◌≡◌, arith}
use tcmalloc.Pages.Length.{word, word_sub, page_shift}
use tcmalloc.Pages.PageId
use tcmalloc.Pages.HugeLength.{huge_page_shift, pages_per_huge_page, max_page_number}

unfoldable pub start_addr : ℕ → ℕ
start_addr pn = word (pn * 2 ^ huge_page_shift)

unfoldable pub first_page : ℕ → ℕ
first_page pn = word (pn * 2 ^ (huge_page_shift - page_shift))

-- `HugePage + HugeLength`.
abbrev pub add : ℕ → ℕ → ℕ
add p n = word (p + n)

-- `HugePage - HugeLength`.
abbrev pub sub : ℕ → ℕ → ℕ
sub p n = word_sub p n

-- `HugePage - HugePage`, a `HugeLength`.
abbrev pub distance : ℕ → ℕ → ℕ
distance p q = word_sub p q

-- `HugePageContaining` of a page.
unfoldable pub containing : ℕ → ℕ
containing p = p / 2 ^ (huge_page_shift - page_shift)

-- `HugePageContaining` of an address.
unfoldable pub containing_addr : ℕ → ℕ
unfolding containing PageId.containing
containing_addr addr = containing (PageId.containing addr)

-- For a huge page number in range, the page's own start address, its first page's start address
-- and every one of its pages lead back to it.
pub containing-first_page :
    (pn i : ℕ)
    → pn ≤ max_page_number
    → i < pages_per_huge_page
    → (containing (PageId.add (first_page pn) i) ≡ pn)
      × (containing_addr (start_addr pn) ≡ pn)
      × (PageId.start_addr (first_page pn) ≡ start_addr pn)
unfolding containing first_page PageId.add containing_addr start_addr PageId.start_addr
containing-first_page pn i h q = omega arith
