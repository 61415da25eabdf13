-- ===== src/HintedTrackerLists/Least.antt =====
-- The invariant, and that `GetLeast` takes from the first list that is not empty.
use tcmalloc.Base.{
  ℕ, zero, suc, ◌≤◌, ◌<◌, ◌≡◌, refl, ap, ◌∙◌, ◌⊎◌, inl, inr, Bool, true, false, not, Option, none,
  some, List, [], ◌∷◌, arith, ◌==◌, if◌then◌else◌, ==_iff, Bool-cases, length, set, length-set,
  get_or, get_or-set,
}
use tcmalloc.Pages.Length.{word_sub}
use tcmalloc.Bitmap.Defs.{get_bit, find_value, set_bit, clear_bit}
use tcmalloc.Bitmap.Fill.{IsBitmap}
use tcmalloc.Bitmap.Ranges.{set_bit-clear_bit}
use tcmalloc.Bitmap.Find.{wanted, find_value_lem}
use tcmalloc.HintedTrackerLists.{HintedTrackerLists, list_at, is_empty, get_least, add}

-- There are `n` lists, and a bit is set exactly when its list is not empty; no dead bit is set.
pub record IsValid (n : ℕ) (h : HintedTrackerLists) : Type 0 where
  pub bitmap : IsBitmap n h.nonempty
  pub count : length h.lists ≡ n
  pub marked : (i : ℕ) → get_bit h.nonempty i ≡ not (is_empty (list_at h i))

-- Past the end the lists read as empty.
list_at-past : (lists : List (List ℕ)) (i : ℕ) → length lists ≤ i → get_or lists i [] ≡ []
list_at-past [] i h = refl
list_at-past (b ∷ lists) zero h = absurd (omega arith)
list_at-past (b ∷ lists) (suc i) h = list_at-past lists i (omega arith)

-- A list is given new contents and its bit is set to match them.
swap-IsValid :
    (n i : ℕ) (rest : List ℕ) (s : ℕ) (h : HintedTrackerLists)
    → IsValid n h
    → i < n
    → is_empty (list_at h i) ≡ false
    → IsValid n (record {
      lists = set h.lists i rest;
      size = s;
      nonempty = if is_empty rest then (clear_bit i h.nonempty).1 else h.nonempty;
    })
swap-IsValid n i rest s h v l full = record {
  bitmap = bits (is_empty rest);
  count = length-set h.lists i rest ∙ v.count;
  marked = λ x. marks x;
}
  where
    bits : (b : Bool) → IsBitmap n (if b then (clear_bit i h.nonempty).1 else h.nonempty)
    bits true = let (_, _, _, c, _, _) = set_bit-clear_bit n h.nonempty i 0 v.bitmap l in c
    bits false = v.bitmap

    marks :
        (x : ℕ)
        → get_bit (if is_empty rest then (clear_bit i h.nonempty).1 else h.nonempty) x
          ≡ not (is_empty (get_or (set h.lists i rest) x []))
    marks x =
        let (_, _, _, _, _, c) = set_bit-clear_bit n h.nonempty i x v.bitmap l in
        rw (get_or-set h.lists i x rest [] (omega (arith, v.count))) (elim (Bool-cases (x == i)) [
          | inl e ↦
              let same : x ≡ i = (==_iff x i).0 e in
              let on : get_bit h.nonempty x ≡ true =
                ap (get_bit h.nonempty) same ∙ v.marked i ∙ ap not full in
              elim (Bool-cases (is_empty rest)) [
                | inl z ↦ rw z (c ∙ rw e (rw z refl))
                | inr z ↦ rw z (rw e (rw z on))
              ]
          | inr e ↦ rw e (elim (Bool-cases (is_empty rest)) [
            | inl z ↦ rw z (c ∙ rw e (v.marked x))
            | inr z ↦ rw z (v.marked x)
          ])
        ])

add_marks :
    (n pt i x : ℕ) (h : HintedTrackerLists)
    → IsValid n h
    → i < n
    → get_bit (set_bit i h.nonempty).1 x
      ≡ not (is_empty (get_or (set h.lists i (pt ∷ list_at h i)) x []))
add_marks n pt i x h v l =
    let (_, _, _, _, c, _) = set_bit-clear_bit n h.nonempty i x v.bitmap l in
    rw (get_or-set h.lists i x (pt ∷ list_at h i) [] (omega (arith, v.count)))
      (elim (Bool-cases (x == i)) [
        | inl e ↦ rw e (c ∙ rw e refl)
        | inr e ↦ rw e (c ∙ rw e (v.marked x))
      ])

-- Adding a tracker to one of the lists keeps the invariant.
pub add-IsValid :
    (n pt i : ℕ) (h : HintedTrackerLists) → IsValid n h → i < n → IsValid n (add pt i h)
unfolding add
add-IsValid n pt i h v l =
    let (_, _, s, _, _, _) = set_bit-clear_bit n h.nonempty i 0 v.bitmap l in
    record {
      bitmap = s;
      count = length-set h.lists i (pt ∷ list_at h i) ∙ v.count;
      marked = λ x. add_marks n pt i x h v l;
    }

-- What a search for the least list from `k` on gives: nothing, and then all of these lists are
-- empty; or the first tracker of list `i`, and the lists before `i` are empty.
pub Least : ℕ → ℕ → HintedTrackerLists → Option ℕ × HintedTrackerLists → Type 0
Least n k h (none, h') = (h' ≡ h) × ((j : ℕ) → k ≤ j → j < n → list_at h j ≡ [])
Least n k h (some pt, h') =
    (i : ℕ) × (rest : List ℕ) × (k ≤ i)
    × (i < n)
    × (list_at h i ≡ pt ∷ rest)
    × ((j : ℕ) → k ≤ j → j < i → list_at h j ≡ [])
    × (h'.lists ≡ set h.lists i rest)

empty_list : (xs : List ℕ) → is_empty xs ≡ true → xs ≡ []
empty_list [] h = refl
empty_list (x ∷ xs) h = cc

List-cases : (xs : List ℕ) → (xs ≡ []) ⊎ ((p : ℕ) × (ps : List ℕ) × (xs ≡ p ∷ ps))
List-cases [] = inl refl
List-cases (x ∷ xs) = inr (x, xs, refl)

-- What `GetLeast` gives where `FindSet` gave `i`.
taken : ℕ → ℕ → HintedTrackerLists → Option ℕ × HintedTrackerLists
unfolding clear_bit
taken n i h =
    let got : Option ℕ × HintedTrackerLists = elim (list_at h i) [
      | [] ↦ (none, h)
      | pt ∷ rest ↦ (
        some pt,
        record {
          lists = set h.lists i rest;
          size = word_sub h.size 1;
          nonempty = if is_empty rest then (clear_bit i h.nonempty).1 else h.nonempty;
        },
      )
    ] in
    if i == n then (none, h) else got

unset-empty :
    (n j : ℕ) (h : HintedTrackerLists)
    → IsValid n h
    → get_bit h.nonempty j ≡ false
    → list_at h j ≡ []
unset-empty n j h v e =
    let m : get_bit h.nonempty j ≡ not (is_empty (list_at h j)) = v.marked j in
    empty_list (list_at h j) (ground arith)

taken_lem :
    (n k i : ℕ) (h : HintedTrackerLists)
    → IsValid n h
    → k ≤ i
    → i ≤ n
    → ((j : ℕ) → k ≤ j → j < i → get_bit h.nonempty j ≡ false)
    → (i < n → get_bit h.nonempty i ≡ true)
    → Least n k h (taken n i h) × IsValid n (taken n i h).1
unfolding taken Least
taken_lem n k i h v le up below on = elim (Bool-cases (i == n)) [
  | inl e ↦
      let last : i ≡ n = (==_iff i n).0 e in
      rw e ((refl, λ j p q. unset-empty n j h v (below j p (omega arith))), v)
  | inr e ↦
      let inside : i < n = ground arith in
      let m : get_bit h.nonempty i ≡ not (is_empty (list_at h i)) = v.marked i in
      elim (List-cases (list_at h i)) [
        | inl z ↦ absurd (ground (arith, on inside, m, z))
        | inr (p, ps, z) ↦ rw e (
            rw z (
              (i, ps, le, inside, z, (λ j u w. unset-empty n j h v (below j u w)), refl),
              swap-IsValid n i ps (word_sub h.size 1) h v inside (ground (arith, on inside, m)),
            ))
      ]
]

-- `GetLeast(k)` on valid lists, with `k < n`: it returns nothing and changes nothing, and then all
-- lists from `k` on are empty; or it takes the first tracker off list `i`, the first one from `k` on
-- that is not empty. The lists stay valid.
pub get_least_lem :
    (n k : ℕ) (h : HintedTrackerLists)
    → IsValid n h
    → k < n
    → Least n k h (get_least n k h) × IsValid n (get_least n k h).1
unfolding get_least taken wanted
get_least_lem n k h v l =
    let (a, b, c, d) = find_value_lem n true k h.nonempty l v.bitmap dead in
    taken_lem n k (find_value n true k h.nonempty) h v a b c d
  where
    dead : true ≡ true → (x : ℕ) → n ≤ x → get_bit h.nonempty x ≡ false
    dead e x p =
        v.marked x ∙ ap (λ xs. not (is_empty xs)) (list_at-past h.lists x (omega (arith, v.count)))
