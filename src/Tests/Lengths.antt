-- ===== src/Tests/Lengths.antt =====
-- Page and huge page numbers.
use tcmalloc.Base.{ℕ, ◌+◌, ◌*◌, ◌^◌, ◌≤◌, ◌<◌, ◌≡◌, ◌↔◌, true, some, arith}
use tcmalloc.Pages.Length.{
  page_size, max_length, bytes_to_length_ceil, bytes_to_length_floor, bytes_to_length_ceil-least,
}
use tcmalloc.Pages.HugeLength as HugeLength
use tcmalloc.Pages.HugePage as HugePage
use tcmalloc.Pages.PageId as PageId
use tcmalloc.Pages.HugeLength.{from_pages, overflows, huge_page_size, overflows_iff}
use tcmalloc.Pages.HugePage.{containing-first_page}
use tcmalloc.Pages.HugeRange.{HugeRange, make, intersects, contains_range, join, split}
use tcmalloc.Pages.HugeRange.Laws.{IsProper, Has, intersects_iff, join-split}

bytes_to_length_ceil-least_example :
    (8193 ≤ bytes_to_length_ceil 8193 * page_size)
    × (8193 ≤ 2 * page_size → bytes_to_length_ceil 8193 ≤ 2)
    × (bytes_to_length_floor 8193 ≤ bytes_to_length_ceil 8193)
    × (bytes_to_length_ceil 8193 ≤ bytes_to_length_floor 8193 + 1)
    × (bytes_to_length_ceil 8193 ≤ max_length + 1)
bytes_to_length_ceil-least_example = bytes_to_length_ceil-least 8193 2 (omega arith)

overflows_iff_example :
    ((overflows (2 ^ 43) ≡ true) ↔ (2 ^ 64 ≤ 2 ^ 43 * huge_page_size))
    × (2 ^ 43 * huge_page_size < 2 ^ 64
        → (HugeLength.from_bytes (HugeLength.in_bytes (2 ^ 43)) ≡ 2 ^ 43)
          × (from_pages (HugeLength.in_pages (2 ^ 43)) ≡ 2 ^ 43))
overflows_iff_example = overflows_iff (2 ^ 43)

containing-first_page_example :
    (HugePage.containing (PageId.add (HugePage.first_page 3) 17) ≡ 3)
    × (HugePage.containing_addr (HugePage.start_addr 3) ≡ 3)
    × (PageId.start_addr (HugePage.first_page 3) ≡ HugePage.start_addr 3)
containing-first_page_example = containing-first_page 3 17 (omega arith) (omega arith)

abbrev low : HugeRange
low = make 10 4

abbrev high : HugeRange
high = make 14 2

low-IsProper : IsProper low
low-IsProper = record { nonempty = omega arith; inside = omega arith }

high-IsProper : IsProper high
high-IsProper = record { nonempty = omega arith; inside = omega arith }

intersects_iff_example :
    ((intersects low high ≡ true) ↔ ((p : ℕ) × Has low p × Has high p))
    × ((contains_range low high ≡ true) ↔ ((p : ℕ) → Has high p → Has low p))
intersects_iff_example = intersects_iff low high low-IsProper high-IsProper

join-split_example :
    IsProper (split low 3).0
    × IsProper (split low 3).1
    × ((split low 3).0.n ≡ 3)
    × (join (split low 3).0 (split low 3).1 ≡ some low)
join-split_example = join-split low 3 low-IsProper (omega arith) (omega arith)
