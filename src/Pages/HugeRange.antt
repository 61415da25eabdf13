-- ===== src/Pages/HugeRange.antt =====
-- `HugeRange` of tcmalloc/huge_pages.h: a set of contiguous huge pages, with `Join` and `Split`.
pub mod Laws
use tcmalloc.Base.{ℕ, Bool, not, ◌&&◌, ◌||◌, Option, none, some, ltb, leb, ◌==◌, if◌then◌else◌}
use tcmalloc.Pages.HugeLength
use tcmalloc.Pages.HugePage

pub record HugeRange : Type 0 where
  pub first : ℕ
  pub n : ℕ

unfoldable pub start_addr : HugeRange → ℕ
unfolding HugePage.start_addr
start_addr r = HugePage.start_addr r.first

unfoldable pub end_addr : HugeRange → ℕ
unfolding HugePage.start_addr
end_addr r = HugePage.start_addr (HugePage.add r.first r.n)

-- Any range that starts at address 0 is bogus.
unfoldable pub valid : HugeRange → Bool
unfolding start_addr
valid r = not (start_addr r == 0)

-- `contains` of a huge page. The distance is read only when `p >= first`.
unfoldable pub contains : HugeRange → ℕ → Bool
contains r p = leb r.first p && ltb (HugePage.distance p r.first) r.n

-- `contains` of a range.
unfoldable pub contains_range : HugeRange → HugeRange → Bool
contains_range a r =
    leb a.first r.first && leb (HugePage.add r.first r.n) (HugePage.add a.first a.n)

unfoldable pub intersects : HugeRange → HugeRange → Bool
unfolding contains
intersects a r = contains r a.first || contains a r.first

unfoldable pub precedes : HugeRange → HugeRange → Bool
unfolding end_addr start_addr
precedes a r = end_addr a == start_addr r

abbrev pub nil : HugeRange
nil = record { first = 0; n = 0 }

abbrev pub make : ℕ → ℕ → HugeRange
make p n = record { first = p; n = n }

-- `none` is the failure of `TC_CHECK`.
unfoldable pub join : HugeRange → HugeRange → Option HugeRange
unfolding precedes
join a b = if precedes a b then some (make a.first (HugeLength.add a.n b.n)) else none

unfoldable pub split : HugeRange → ℕ → HugeRange × HugeRange
split r n =
    if ltb n r.n
    then (make r.first n, make (HugePage.add r.first n) (HugeLength.sub r.n n))
    else (r, nil)
