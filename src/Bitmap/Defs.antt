-- ===== src/Bitmap/Defs.antt =====
-- The bitmap's operations. `kWords` words of 64 bits hold `n` bits, the parameter `N`.
use tcmalloc.Base.{
  ℕ, zero, suc, ◌+◌, ◌-◌, ◌*◌, ◌/◌, ◌%◌, min, Bool, true, false, not, ◌&&◌, Option, none, some,
  List, [], ◌∷◌, ◌++◌, ltb, leb, ◌==◌, if◌then◌else◌, length, set, get_or, replicate,
}
use tcmalloc.Bitmap.Word.{
  Word, word_size, zeros, all_ones, and, or, complement, shift_left, shift_right, decrement,
  is_zero, countr_zero, bit_width, popcount,
}

abbrev pub Bitmap : Type 0
Bitmap = List Word

-- `kWords` and `kDeadBits`.
abbrev pub words : ℕ → ℕ
words n = (n + word_size - 1) / word_size

abbrev pub dead_bits : ℕ → ℕ
dead_bits n = word_size * words n - n

-- The constructor, and `Clear`.
unfoldable pub cleared : ℕ → Bitmap
cleared n = replicate (words n) zeros

unfoldable pub word_at : Bitmap → ℕ → Word
word_at bits i = get_or bits i zeros

-- `(all_ones >> (kWordSize - k)) << from`, the mask of `k` bits from `from`.
unfoldable pub range_mask : ℕ → ℕ → Word
unfolding shift_right shift_left
range_mask k from = shift_left (shift_right all_ones (word_size - k)) from

-- `size_t{1} << offset`
unfoldable pub bit_mask : ℕ → Word
unfolding shift_left
bit_mask offset = shift_left (true ∷ replicate 63 false) offset

-- `CountWordBits`
unfoldable pub count_word_bits : Bitmap → ℕ → ℕ → ℕ → ℕ
unfolding popcount and range_mask word_at
count_word_bits bits i from to = popcount (and (word_at bits i) (range_mask (to - from) from))

-- `SetWordBits<Value>`
unfoldable pub set_word_bits : Bool → Bitmap → ℕ → ℕ → ℕ → Bitmap
unfolding and or complement range_mask word_at
set_word_bits value bits i from to =
    let mask = range_mask (to - from) from in
    if value
    then set bits i (or (word_at bits i) mask)
    else set bits i (and (word_at bits i) (complement mask))

-- `bits_[word] & mask`, read as a truth value.
unfoldable pub get_bit : Bitmap → ℕ → Bool
unfolding and bit_mask is_zero word_at
get_bit bits i = not (is_zero (and (word_at bits (i / word_size)) (bit_mask (i % word_size))))

unfoldable pub set_bit : ℕ → Bitmap → Bool × Bitmap
unfolding or get_bit
set_bit i bits =
    let word = i / word_size in
    (get_bit bits i, set bits word (or (word_at bits word) (bit_mask (i % word_size))))

unfoldable pub clear_bit : ℕ → Bitmap → Bool × Bitmap
unfolding and complement get_bit
clear_bit i bits =
    let word = i / word_size in
    (
      get_bit bits i,
      set bits word (and (word_at bits word) (complement (bit_mask (i % word_size)))),
    )

-- The loop of `CountBits` behind the first word; `fuel` bounds the words that are left.
unfoldable pub count_loop : ℕ → Bitmap → ℕ → ℕ → ℕ → ℕ
unfolding count_word_bits
count_loop zero bits word n count = count
count_loop (suc fuel) bits word n count =
    let k = min n word_size in
    let rest =
      count_loop fuel bits (word + 1) (n - k) (count + count_word_bits bits (word + 1) 0 k) in
    if ltb 0 n then rest else count

unfoldable pub count_bits : Bitmap → ℕ → ℕ → ℕ
unfolding count_loop
count_bits bits index n =
    let word = index / word_size in
    let offset = index % word_size in
    let k = min (offset + n) word_size in
    if n == 0
    then 0
    else count_loop n bits word (n - (k - offset)) (count_word_bits bits word offset k)

unfoldable pub is_zero_bitmap : Bitmap → Bool
unfolding is_zero
is_zero_bitmap [] = true
is_zero_bitmap (w ∷ ws) = is_zero w && is_zero_bitmap ws

-- The loop of `SetRangeValue` behind the first word.
unfoldable pub set_loop : ℕ → Bool → Bitmap → ℕ → ℕ → Bitmap
unfolding set_word_bits
set_loop zero value bits word n = bits
set_loop (suc fuel) value bits word n =
    let k = min n word_size in
    let rest = set_loop fuel value (set_word_bits value bits (word + 1) 0 k) (word + 1) (n - k) in
    if ltb 0 n then rest else bits

-- `SetRange` and `ClearRange`, of at least one bit.
unfoldable pub set_range_value : Bool → ℕ → ℕ → Bitmap → Bitmap
unfolding set_loop
set_range_value value index n bits =
    let word = index / word_size in
    let offset = index % word_size in
    let k = min (offset + n) word_size in
    set_loop n value (set_word_bits value bits word offset k) word (n - (k - offset))

unfoldable pub clear_lowest_bit : Bitmap → Bitmap
unfolding is_zero and decrement
clear_lowest_bit [] = []
clear_lowest_bit (w ∷ ws) =
    if not (is_zero w) then and w (decrement w) ∷ ws else w ∷ clear_lowest_bit ws

-- `here`, with the bits inverted where clear ones are looked for.
unfoldable pub goal_word : Bool → Word → Word
unfolding complement
goal_word goal w = if goal then w else complement w

-- The loop of `FindValue`, with `rest` words behind this one.
unfoldable pub find_loop : ℕ → Bool → Bitmap → ℕ → Word → Option ℕ
unfolding is_zero countr_zero goal_word word_at
find_loop zero goal bits word here =
    if is_zero here then none else some (countr_zero here + word * word_size)
find_loop (suc rest) goal bits word here =
    let next = find_loop rest goal bits (word + 1) (goal_word goal (word_at bits (word + 1))) in
    if is_zero here then next else some (countr_zero here + word * word_size)

-- `FindValue<Goal>`, which is `FindSet` and `FindClear`. An index past the end, which inverted dead
-- bits give, becomes `n`.
unfoldable pub find_value : ℕ → Bool → ℕ → Bitmap → ℕ
unfolding find_loop and shift_left
find_value n goal index bits =
    let word = index / word_size in
    let here = and (goal_word goal (word_at bits word)) (shift_left all_ones (index % word_size)) in
    elim (find_loop (words n - 1 - word) goal bits word here) [
      | none ↦ n
      | some found ↦ if ltb 0 (dead_bits n) && not goal then min found n else found
    ]

-- The loop of `FindValueBackwards`.
unfoldable pub find_back_loop : Bool → Bitmap → ℕ → Word → Option ℕ
unfolding is_zero bit_width goal_word word_at
find_back_loop goal bits zero here = if is_zero here then none else some (bit_width here - 1)
find_back_loop goal bits (suc word) here =
    let next = find_back_loop goal bits word (goal_word goal (word_at bits word)) in
    if is_zero here then next else some (bit_width here - 1 + suc word * word_size)

-- `FindValueBackwards<Goal>`; -1 is `none`.
unfoldable pub find_value_backwards : Bool → ℕ → Bitmap → Option ℕ
unfolding find_back_loop and shift_left decrement
find_value_backwards goal index bits =
    let word = index / word_size in
    let mask = decrement (shift_left (false ∷ true ∷ replicate 62 false) (index % word_size)) in
    find_back_loop goal bits word (and (goal_word goal (word_at bits word)) mask)

-- `NextFreeRange`: the index and the length.
unfoldable pub next_free_range : ℕ → ℕ → Bitmap → Option (ℕ × ℕ)
unfolding find_value
next_free_range n start bits =
    let i = find_value n false start bits in
    let j = find_value n true i bits in
    if leb n start then none else if i == n then none else some (i, j - i)

-- The inner loop of `PopBatch` on word `i`: the indices that the visitor gets, and the word that is
-- left. A word has at most 64 set bits, the fuel.
unfoldable pub pop_word : ℕ → ℕ → ℕ → Word → List ℕ × Word
unfolding is_zero countr_zero and decrement
pop_word zero i room word = ([], word)
pop_word (suc fuel) i room word =
    let (rest, left) = pop_word fuel i (room - 1) (and word (decrement word)) in
    if is_zero word
    then ([], word)
    else if room == 0
    then ([], word)
    else ((i * word_size + countr_zero word) ∷ rest, left)

-- `PopBatch`, from word `i` on, with `room` more indices wanted; the visitor is the list of the
-- indices it gets, whose length is the result.
unfoldable pub pop_batch : ℕ → ℕ → Bitmap → List ℕ × Bitmap
unfolding pop_word
pop_batch i room [] = ([], [])
pop_batch i room (w ∷ ws) =
    let (here, left) = pop_word word_size i room w in
    let (rest, ws') = pop_batch (i + 1) (room - length here) ws in
    if room == 0 then ([], w ∷ ws) else (here ++ rest, left ∷ ws')
