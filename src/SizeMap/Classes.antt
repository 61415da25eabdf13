-- ===== src/SizeMap/Classes.antt =====
-- What a table that passes the checks promises, and the bounds of the index.
use tcmalloc.Base.{
  ℕ, zero, suc, ◌+◌, ◌-◌, ◌/◌, ◌%◌, ◌≤◌, ◌<◌, ◌≡◌, refl, subst, ap, inl, inr, Bool, true, false,
  ◌&&◌, none, some, List, [], ◌∷◌, arith, ltb, ◌==◌, ltb→lt, ==_iff, Bool-cases, get_elem?, take,
}
use tcmalloc.Pages.Length.{in_bytes, bytes_to_length_floor}
use tcmalloc.SizeMap.{
  SizeClassInfo, large_size, max_size, num_base_classes, class_array_size, class_index_maybe,
  is_valid_size_class, valid_from, valid_size_classes,
}

-- The least class of the list that holds `s`: the ones before are too small.
pub LeastFit : ℕ → List SizeClassInfo → Type 0
LeastFit s xs =
    (c : ℕ) × (x : SizeClassInfo) × (get_elem? xs c ≡ some x)
    × (s ≤ x.size)
    × ((j : ℕ) (y : SizeClassInfo) → j < c → get_elem? xs j ≡ some y → y.size < s)

LeastFit-cons :
    (s : ℕ) (x : SizeClassInfo) (xs : List SizeClassInfo)
    → x.size < s
    → LeastFit s xs
    → LeastFit s (x ∷ xs)
unfolding LeastFit
LeastFit-cons s x xs h (c, y, e, le, f) = (suc c, y, e, le, before)
  where
    before : (j : ℕ) (z : SizeClassInfo) → j < suc c → get_elem? (x ∷ xs) j ≡ some z → z.size < s
    before zero z p q = ground (arith, h, q)
    before (suc j) z p q = f j z (omega arith) q

-- What each class of a table is checked for.
pub record Sound (span_valid hpaa_valid : ℕ → ℕ → Bool) (x : SizeClassInfo) : Type 0 where
  pub whole : in_bytes (bytes_to_length_floor x.bytes) ≡ x.bytes
  pub nonzero : 0 < x.size
  pub limit : x.size ≤ max_size
  pub small_step : x.size ≤ large_size → x.size % 8 ≡ 0
  pub large_step : large_size < x.size → x.size % 128 ≡ 0
  pub some_pages : 0 < bytes_to_length_floor x.bytes
  pub few_pages : bytes_to_length_floor x.bytes ≤ 32
  pub holds_one : 1 ≤ x.bytes / x.size
  pub span : span_valid x.size (bytes_to_length_floor x.bytes) ≡ true
  pub hpaa : hpaa_valid x.size (bytes_to_length_floor x.bytes) ≡ true
  pub batch : (2 ≤ x.num_to_move) × (x.num_to_move ≤ 128)

-- A later class of the list is larger.
pub Increasing : List SizeClassInfo → Type 0
Increasing xs =
    (c d : ℕ) (x y : SizeClassInfo)
    → c < d
    → get_elem? xs c ≡ some x
    → get_elem? xs d ≡ some y
    → x.size < y.size

same_class : {x y : SizeClassInfo} → some x ≡ some y → x ≡ y
same_class {x} {y} e = ap (λ o. elim o [ none ↦ x | some z ↦ z ]) e

four_of :
    (a b c d : Bool) → a && b && c && d ≡ true → (a ≡ true) × (b ≡ true) × (c ≡ true) × (d ≡ true)
four_of true true true true h = (refl, refl, refl, refl)
four_of true true true false h = absurd (ground arith)
four_of true true false d h = absurd (ground arith)
four_of true false c d h = absurd (ground arith)
four_of false b c d h = absurd (ground arith)

module _ (span_valid hpaa_valid : ℕ → ℕ → Bool) where
  Sound-valid :
      (x : SizeClassInfo)
      → in_bytes (bytes_to_length_floor x.bytes) ≡ x.bytes
      → is_valid_size_class span_valid hpaa_valid x.size
          (bytes_to_length_floor x.bytes)
          x.num_to_move
        ≡ true
      → Sound span_valid hpaa_valid x
  unfolding is_valid_size_class
  Sound-valid x e h = record {
    whole = e;
    nonzero = ground (arith, h);
    limit = ground (arith, h);
    small_step = λ k. ground (arith, h, k);
    large_step = λ k. ground (arith, h, k);
    some_pages = ground (arith, h);
    few_pages = ground (arith, h);
    holds_one = subst (λ b. 1 ≤ b / x.size) e (ground (arith, h));
    span = ground (arith, h);
    hpaa = ground (arith, h);
    batch = (ground (arith, h), ground (arith, h));
  }

  valid_from-parts :
      (prev : ℕ) (x : SizeClassInfo) (xs : List SizeClassInfo)
      → valid_from span_valid hpaa_valid prev (x ∷ xs) ≡ true
      → (prev < x.size)
        × Sound span_valid hpaa_valid x
        × (valid_from span_valid hpaa_valid x.size xs ≡ true)
  unfolding valid_from
  valid_from-parts prev x xs h =
      let (a, b, c, d) =
        four_of (in_bytes (bytes_to_length_floor x.bytes) == x.bytes) (ltb prev x.size)
          (is_valid_size_class span_valid hpaa_valid x.size (bytes_to_length_floor x.bytes)
            x.num_to_move)
          (valid_from span_valid hpaa_valid x.size xs) h in
      (
        ltb→lt prev x.size b,
        Sound-valid x ((==_iff (in_bytes (bytes_to_length_floor x.bytes)) x.bytes).0 a) c,
        d,
      )

  valid_from-Sound :
      (prev : ℕ) (xs : List SizeClassInfo)
      → valid_from span_valid hpaa_valid prev xs ≡ true
      → (c : ℕ) (y : SizeClassInfo) → get_elem? xs c ≡ some y
      → (prev < y.size) × Sound span_valid hpaa_valid y
  valid_from-Sound prev [] h c y e = absurd (ground (arith, e))
  valid_from-Sound prev (x ∷ xs) h zero y e =
      let (lt, v, _) = valid_from-parts prev x xs h in
      subst (λ z. (prev < z.size) × Sound span_valid hpaa_valid z) (same_class e) (lt, v)
  valid_from-Sound prev (x ∷ xs) h (suc c) y e =
      let (lt, _, g) = valid_from-parts prev x xs h in
      let (lt', v) = valid_from-Sound x.size xs g c y e in (omega arith, v)

  valid_from-Increasing :
      (prev : ℕ) (xs : List SizeClassInfo)
      → valid_from span_valid hpaa_valid prev xs ≡ true
      → Increasing xs
  unfolding Increasing
  valid_from-Increasing prev [] h c d x y lt e f = absurd (ground (arith, e))
  valid_from-Increasing prev (z ∷ xs) h c zero x y lt e f = absurd (omega arith)
  valid_from-Increasing prev (z ∷ xs) h zero (suc d) x y lt e f =
      let (_, _, g) = valid_from-parts prev z xs h in
      let (lt', _) = valid_from-Sound z.size xs g d y f in
      subst (λ k. k.size < y.size) (same_class e) lt'
  valid_from-Increasing prev (z ∷ xs) h (suc c) (suc d) x y lt e f =
      let (_, _, g) = valid_from-parts prev z xs h in
      valid_from-Increasing z.size xs g c d x y (omega arith) e f

  valid_from-LeastFit :
      (prev : ℕ) (xs : List SizeClassInfo) (s : ℕ)
      → valid_from span_valid hpaa_valid prev xs ≡ true
      → prev < s
      → s ≤ max_size
      → LeastFit s xs
  unfolding valid_from
  valid_from-LeastFit prev [] s h p q = absurd (ground arith)
  valid_from-LeastFit prev (x ∷ xs) s h p q = elim (Bool-cases (ltb x.size s)) [
    | inl e ↦
        LeastFit-cons s x xs (ltb→lt x.size s e)
          (valid_from-LeastFit x.size xs s (valid_from-parts prev x xs h).2 (ltb→lt x.size s e) q)
    | inr e ↦ unfold LeastFit in (0, x, refl, ground arith, λ j y l k. absurd (omega arith))
  ]

-- In a table that passes ValidSizeClasses, each of the base classes behind the first passes
-- every check: its bytes are whole pages, between 1 and 32, its size is positive, at most the
-- largest, a multiple of 8, and of 128 above 1024, one object fits, the checks of the span and
-- of the page allocator hold, and a batch has 2 to 128 objects. Later classes are larger, and
-- every size from 1 up to the largest has a class that holds it, the ones before which are too
-- small.
pub valid_size_classes_lem :
    (span_valid hpaa_valid : ℕ → ℕ → Bool) (x : SizeClassInfo) (xs : List SizeClassInfo) (s : ℕ)
    → valid_size_classes span_valid hpaa_valid (x ∷ xs) ≡ true
    → 0 < s
    → s ≤ max_size
    → let base = take (num_base_classes - 1) xs in
      ((c : ℕ) (y : SizeClassInfo) → get_elem? base c ≡ some y → Sound span_valid hpaa_valid y)
      × Increasing base
      × LeastFit s base
unfolding valid_size_classes
valid_size_classes_lem span_valid hpaa_valid x xs s h p q =
    let (_, _, _, g) =
      four_of (x.size == 0) (x.bytes == 0) (x.num_to_move == 0)
        (valid_from span_valid hpaa_valid 0 (take 85 xs)) h in
    (
      λ c y e. (valid_from-Sound span_valid hpaa_valid 0 (take 85 xs) g c y e).1,
      valid_from-Increasing span_valid hpaa_valid 0 (take 85 xs) g,
      valid_from-LeastFit span_valid hpaa_valid 0 (take 85 xs) s g p q,
    )

-- Of two sizes that have an index, the larger one has the larger index or the same, and it is inside
-- the array; if the index is the same they are less than 128 bytes apart, and less than 8 bytes where
-- the larger one is at most 1024.
pub class_index_maybe_lem :
    (s t i k : ℕ)
    → s ≤ t
    → class_index_maybe s ≡ some i
    → class_index_maybe t ≡ some k
    → (i ≤ k) × (k < class_array_size) × (i ≡ k → t < s + 128) × (i ≡ k → t ≤ 1024 → t < s + 8)
unfolding class_index_maybe
class_index_maybe_lem s t i k h e f = ground (arith, e, f)
