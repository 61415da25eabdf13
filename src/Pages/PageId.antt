-- ===== src/Pages/PageId.antt =====
-- `PageId` of tcmalloc/pages.h: the number of an aligned page of the address space.
use tcmalloc.Base.{ℕ, ◌+◌, ◌*◌, ◌/◌, ◌^◌, ◌≤◌, ◌<◌, ◌≡◌, ◌↔◌, arith}
use tcmalloc.Pages.Length.{word, word_sub, page_shift, page_size, max_length, in_bytes}

-- `start_addr` and `start_uintptr`.
unfoldable pub start_addr : ℕ → ℕ
start_addr pn = word (pn * 2 ^ page_shift)

-- `+=` and `+` with a `Length`.
unfoldable pub add : ℕ → ℕ → ℕ
add p n = word (p + n)

-- `-=` and `-` with a `Length`.
unfoldable pub sub : ℕ → ℕ → ℕ
sub p n = word_sub p n

-- `-` of two pages, a `Length`.
unfoldable pub distance : ℕ → ℕ → ℕ
distance p q = word_sub p q

unfoldable pub containing : ℕ → ℕ
containing addr = addr / 2 ^ page_shift

-- An address lies on the page that contains it, and on no other: for every 64-bit address and
-- every page number up to the largest, `PageIdContaining` gives that page exactly when the address
-- is within the page's bytes.
pub containing_iff :
    (addr p : ℕ)
    → addr < 2 ^ 64
    → p ≤ max_length
    → (containing addr ≡ p) ↔ ((start_addr p ≤ addr) × (addr < start_addr p + page_size))
unfolding containing start_addr
containing_iff addr p h q = (λ e. (omega arith, omega arith), λ c. omega arith)

-- Walking `n` pages on from `p`, inside the address space, moves the start address by the length's
-- bytes, and the way back and the distance are exact.
pub start_addr-add :
    (p n : ℕ)
    → p + n ≤ max_length
    → (start_addr (add p n) ≡ start_addr p + in_bytes n)
      × (sub (add p n) n ≡ p)
      × (distance (add p n) p ≡ n)
unfolding start_addr add sub distance in_bytes
start_addr-add p n h = omega arith
