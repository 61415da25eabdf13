-- ===== src/HugeAddressMap/Tree.antt =====
-- The treap of tcmalloc/huge_address_map.cc. A `Node*` is the subtree at that node. Where the code
-- keeps a pointer to a node, or climbs along `parent_`, the model descends from the root to the
-- node that starts at the same huge page (no two nodes do).
pub mod Order
pub mod Find
pub mod Shape
pub mod Change
pub mod Range
pub mod Others
use tcmalloc.Base.{ℕ, max, Bool, true, false, Option, none, some, ltb, leb, ◌==◌, if◌then◌else◌}
use tcmalloc.Pages.HugeRange.{HugeRange, contains}

-- `prio` is the `int prio_` with 2 ^ 31 added, which keeps the order and makes it a number.
-- `when_` (a time, averaged in floating point when ranges merge) is not kept: no operation of the
-- map reads it to decide anything.
pub data Tree : Type 0 where
  leaf : Tree
  node : (range : HugeRange) (prio longest : ℕ) (left right : Tree) → Tree

-- `longest()` of a child pointer, 0 for nullptr.
unfoldable pub longest_of : Tree → ℕ
longest_of leaf = 0
longest_of (node r prio longest left right) = longest

-- `Node::FixLongest`, on the node with these fields.
unfoldable pub fix_longest : HugeRange → ℕ → Tree → Tree → Tree
unfolding longest_of
fix_longest r prio left right =
    node r prio (max (max (longest_of left) (longest_of right)) r.n) left right

-- `first`: follow `left_` to the end.
unfoldable pub first_from : HugeRange → Tree → HugeRange
first_from r leaf = r
first_from r (node r' prio longest left right) = first_from r' left

unfoldable pub first : Tree → Option HugeRange
unfolding first_from
first leaf = none
first (node r prio longest left right) = some (first_from r left)

-- `Predecessor`: `best` is the best candidate so far.
unfoldable pub predecessor_from : Option HugeRange → Tree → ℕ → Option HugeRange
unfolding contains
predecessor_from best leaf p = best
predecessor_from best (node here prio longest left right) p =
    let in_left = predecessor_from best left p in
    let in_right = predecessor_from (some here) right p in
    if contains here p then some here else if ltb p here.first then in_left else in_right

unfoldable pub predecessor : Tree → ℕ → Option HugeRange
unfolding predecessor_from
predecessor t p = predecessor_from none t p

-- The leftmost node of a right child, or `up` where there is no such child.
unfoldable pub first_or : Option HugeRange → Tree → Option HugeRange
unfolding first_from
first_or up leaf = up
first_or up (node r prio longest left right) = some (first_from r left)

-- `Node::next` of the node that starts at `s`: the leftmost node of its right subtree, or else the
-- nearest ancestor that has it in its left subtree, which is `up`.
unfoldable pub next_from : Option HugeRange → Tree → ℕ → Option HugeRange
unfolding first_or
next_from up leaf s = none
next_from up (node r prio longest left right) s =
    let in_left = next_from (some r) left s in
    let in_right = next_from up right s in
    if s == r.first then first_or up right else if ltb s r.first then in_left else in_right

unfoldable pub next : Tree → ℕ → Option HugeRange
unfolding next_from
next t s = next_from none t s

-- `n->range_ = r` for the node that starts at `s`, then `FixLongest(n)` up to the root.
unfoldable pub set_range : ℕ → HugeRange → Tree → Tree
unfolding fix_longest
set_range s r leaf = leaf
set_range s r (node here prio longest left right) =
    let in_left = fix_longest here prio (set_range s r left) right in
    let in_right = fix_longest here prio left (set_range s r right) in
    if s == here.first
    then fix_longest r prio left right
    else if ltb s here.first
    then in_left
    else in_right

-- The loop of `Insert` that splits a treap into the nodes before `p` and the others, with the
-- `FixLongest` that follows it.
unfoldable pub split_at : ℕ → Tree → Tree × Tree
unfolding fix_longest
split_at p leaf = (leaf, leaf)
split_at p (node r prio longest left right) =
    let in_right : Tree × Tree =
      let (less, more) = split_at p right in (fix_longest r prio left less, more) in
    let in_left : Tree × Tree =
      let (less, more) = split_at p left in (less, fix_longest r prio more right) in
    if ltb r.first p then in_right else in_left

-- `Insert` of a new node: walk down while the priorities are no smaller, raising `longest_`, and
-- split what is below. The Boolean says that something was split: then `FixLongest` has also set
-- `longest_` anew on all ancestors.
unfoldable pub insert_node : HugeRange → ℕ → Tree → Tree × Bool
unfolding split_at fix_longest
insert_node r prio leaf = (node r prio r.n leaf leaf, false)
insert_node r prio (node here p longest left right) =
    let rip : Tree × Bool =
      let (less, more) = split_at r.first (node here p longest left right) in
      (fix_longest r prio less more, true) in
    let go_right : Tree × Bool =
      let (right', ripped) = insert_node r prio right in
      (
        (if ripped
            then fix_longest here p left right'
            else node here p (max longest r.n) left right'),
        ripped,
      ) in
    let go_left : Tree × Bool =
      let (left', ripped) = insert_node r prio left in
      (
        (if ripped
            then fix_longest here p left' right
            else node here p (max longest r.n) left' right),
        ripped,
      ) in
    if leb prio p then (if ltb here.first r.first then go_right else go_left) else rip

-- `Remove`'s loop, which merges the two children of the removed node. `l` comes from the left
-- child and `r` from the right one; `l_on_top` says which of them `top` points to before
-- `reorder_maybe`, so that equal priorities leave it there.
unfoldable pub merge : Bool → Tree → Tree → Tree
unfolding longest_of
merge l_on_top leaf r = r
merge l_on_top (node lr lp ll l₁ l₂) leaf = node lr lp ll l₁ l₂
merge l_on_top (node lr lp ll l₁ l₂) (node rr rp rl r₁ r₂) =
    let top_left_down = node lr lp (max ll rl) (merge true l₁ (node rr rp rl r₁ r₂)) l₂ in
    let top_left_up = node lr lp (max ll rl) l₁ (merge true l₂ (node rr rp rl r₁ r₂)) in
    let top_right_down = node rr rp (max rl ll) (merge false (node lr lp ll l₁ l₂) r₁) r₂ in
    let top_right_up = node rr rp (max rl ll) r₁ (merge false (node lr lp ll l₁ l₂) r₂) in
    if (if l_on_top then leb rp lp else ltb rp lp)
    then (if ltb rr.first lr.first then top_left_down else top_left_up)
    else (if ltb lr.first rr.first then top_right_down else top_right_up)

-- `Remove` of the node that starts at `s`, up to `Put`; `FixLongest` runs on its ancestors.
unfoldable pub remove_at : ℕ → Tree → Tree
unfolding merge fix_longest
remove_at s leaf = leaf
remove_at s (node r prio longest left right) =
    let in_left = fix_longest r prio (remove_at s left) right in
    let in_right = fix_longest r prio left (remove_at s right) in
    if s == r.first then merge true left right else if ltb s r.first then in_left else in_right
