-- ===== src/HugeRegion/Select.antt =====
-- The search of `Release` for the huge pages to give back.
use tcmalloc.Base.{
  ℕ, zero, suc, ◌+◌, ◌*◌, ◌≤◌, ◌<◌, ◌≡◌, refl, sym, ap, ◌∙◌, ◌⊎◌, inl, inr, Bool, true, false, not,
  ◌&&◌, ◌||◌, List, [], ◌∷◌, arith, ℕ_discrete, dec_lt, ltb, leb, ◌==◌, if◌then◌else◌, Bool-cases,
  length, set, length-set, get_or, get_or-set,
}
use tcmalloc.Pages.Length.{word}
use tcmalloc.Pages.HugeLength as HugeLength
use tcmalloc.HugeRegion.{HugeRegion, num_huge_pages, used_at, backed_at}
use tcmalloc.HugeRegion.Count.{count, count-ext, count-gain, count_bound}
use tcmalloc.HugeRegion.Valid.{is_free}
use tcmalloc.HugeRegion.Unback.{select, upwards, downwards}

pub member : ℕ → List ℕ → Bool
member j [] = false
member j (i ∷ order) = (j == i) || member j order

pub distinct : List ℕ → Bool
unfolding member
distinct [] = true
distinct (i ∷ order) = not (member i order) && distinct order

pub upwards_lem :
    (i n : ℕ)
    → (distinct (upwards i n) ≡ true)
      × ((j : ℕ) → member j (upwards i n) ≡ (leb i j && ltb j (i + n)))
unfolding upwards member distinct
upwards_lem i zero = (refl, λ j. ground arith)
upwards_lem i (suc n) =
    let (d, m) = upwards_lem (i + 1) n in (ground (arith, d, m i), λ j. ground (arith, m j))

pub downwards_lem :
    (n : ℕ) → (distinct (downwards n) ≡ true) × ((j : ℕ) → member j (downwards n) ≡ ltb j n)
unfolding downwards member distinct
downwards_lem zero = (refl, λ j. ground arith)
downwards_lem (suc n) =
    let (d, m) = downwards_lem n in (ground (arith, d, m n), λ j. ground (arith, m j))

abbrev pub chosen : List Bool → ℕ → Bool
chosen should j = get_or should j false

-- The search so far has chosen `target` free huge pages, fewer than it looks for, and the others are
-- still to come.
pub record Searched (order : List ℕ) (target wanted : ℕ) (should : List Bool) (r : HugeRegion)
    : Type 0 where
  pub size : length should ≡ num_huge_pages
  pub free : (j : ℕ) → chosen should j ≡ true → is_free r j ≡ true
  pub distinct : distinct order ≡ true
  pub ahead : (j : ℕ) → member j order ≡ true → (chosen should j ≡ false) × (j < num_huge_pages)
  pub covered :
      (j : ℕ)
      → j < num_huge_pages
      → is_free r j ≡ true
      → (chosen should j ≡ true) ⊎ (member j order ≡ true)
  pub count : count (chosen should) 0 num_huge_pages ≡ target
  pub few : (j : ℕ) → j < num_huge_pages → is_free r j ≡ true → 256 * target < wanted
  pub tight : 256 * target < wanted + 256

-- What the search ends with.
pub record Found (wanted : ℕ) (should : List Bool) (r : HugeRegion) : Type 0 where
  pub free : (j : ℕ) → chosen should j ≡ true → is_free r j ≡ true
  pub enough : wanted ≤ 256 * count (chosen should) 0 num_huge_pages
  pub tight : 256 * count (chosen should) 0 num_huge_pages < wanted + 256

abbrev picks : HugeRegion → ℕ → Bool
picks r i = backed_at r i && (used_at r i == 0)

module _ (i : ℕ) (order : List ℕ) (target wanted : ℕ) (should : List Bool) (r : HugeRegion)
    (v : Searched (i ∷ order) target wanted should r) where
  inside : (chosen should i ≡ false) × (i < num_huge_pages)
  unfolding member
  inside = v.ahead i (ground arith)

  fresh : (member i order ≡ false) × (distinct order ≡ true)
  unfolding distinct
  fresh = ground (arith, v.distinct)

  -- A turn that does not choose.
  passed :
      is_free r i ≡ false
      → ((j : ℕ) → j < num_huge_pages → is_free r j ≡ true → 256 * target < wanted)
      → Searched order target wanted should r
  unfolding member
  passed off few = record {
    size = v.size;
    free = v.free;
    distinct = fresh.1;
    ahead = λ j m. v.ahead j (ground (arith, m));
    covered = λ j p e. elim (v.covered j p e) [
      | inl c ↦ inl c
      | inr m ↦ elim (ℕ_discrete j i) [
        | yes same ↦ absurd (ground (arith, off, e, ap (is_free r) same))
        | no ne ↦ inr (ground (arith, m))
      ]
    ];
    count = v.count;
    few = few;
    tight = v.tight;
  }

  -- The array with this huge page chosen.
  next : List Bool
  next = set should i true

  chosen-next : (j : ℕ) → chosen next j ≡ (if j == i then true else chosen should j)
  unfolding next
  chosen-next j = get_or-set should i j true false (omega (arith, v.size, inside.1))

  count_next : count (chosen next) 0 num_huge_pages ≡ target + 1
  count_next =
      count-gain (chosen should) (chosen next) 0 num_huge_pages i (omega arith)
        (omega (arith, inside.1)) inside.0 (ground (arith, chosen-next i))
        (λ x ne. ground (arith, chosen-next x))
      ∙ ap (λ z. z + 1) v.count

  next_free : is_free r i ≡ true → (j : ℕ) → chosen next j ≡ true → is_free r j ≡ true
  next_free on j c = elim (ℕ_discrete j i) [
    | yes same ↦ ap (is_free r) same ∙ on
    | no ne ↦ v.free j (ground (arith, c, chosen-next j))
  ]

  -- A turn that chooses it, where the search goes on.
  picked :
      is_free r i ≡ true → 256 * (target + 1) < wanted → Searched order (target + 1) wanted next r
  unfolding member next
  picked on few = record {
    size = length-set should i true ∙ v.size;
    free = next_free on;
    distinct = fresh.1;
    ahead = λ j m. (
      ground (arith, chosen-next j, v.ahead j (ground (arith, m)), m, fresh.0),
      (v.ahead j (ground (arith, m))).1,
    );
    covered = λ j p e. elim (v.covered j p e) [
      | inl c ↦ inl (ground (arith, chosen-next j, c))
      | inr m ↦ elim (ℕ_discrete j i) [
        | yes same ↦ inl (ground (arith, chosen-next j))
        | no ne ↦ inr (ground (arith, m))
      ]
    ];
    count = count_next;
    few = λ j p e. few;
    tight = omega arith;
  }

  -- A turn that chooses it, where the search ends.
  found : is_free r i ≡ true → wanted ≤ 256 * (target + 1) → Found wanted next r
  found on enough = record {
    free = next_free on;
    enough = omega (arith, count_next);
    tight = let f = v.few i inside.1 on in omega (arith, count_next);
  }

select_end :
    (target wanted : ℕ) (should : List Bool) (r : HugeRegion)
    → Searched [] target wanted should r
    → wanted ≤ 256 * count (is_free r) 0 num_huge_pages
    → Found wanted should r
unfolding member
select_end target wanted should r v le =
    let e = count-ext (is_free r) (chosen should) 0 num_huge_pages (λ x p q.
      elim (Bool-cases (is_free r x)) [
        | inl on ↦ elim (v.covered x q on) [
          | inl c ↦ on ∙ sym c
          | inr m ↦ absurd (ground (arith, m))
        ]
        | inr off ↦ elim (Bool-cases (chosen should x)) [
          | inl c ↦ absurd (ground (arith, v.free x c, off))
          | inr c ↦ off ∙ sym c
        ]
      ]) in
    record { free = v.free; enough = omega (arith, e); tight = omega (arith, v.tight, v.count) }

-- The search chooses free huge pages, just enough of them.
pub select_lem :
    (order : List ℕ) (target wanted : ℕ) (should : List Bool) (r : HugeRegion)
    → Searched order target wanted should r
    → wanted ≤ 256 * count (is_free r) 0 num_huge_pages
    → Found wanted (select order target wanted should r) r
unfolding select HugeLength.in_pages next
select_lem [] target wanted should r v le = select_end target wanted should r v le
select_lem (i ∷ order) target wanted should r v le =
    let b = count_bound (chosen should) 0 num_huge_pages in
    let c = v.count in
    elim (Bool-cases (is_free r i)) [
      | inl on ↦
          let b' = count_bound (chosen (set should i true)) 0 num_huge_pages in
          let c' = count_next i order target wanted should r v in
          let e : word (target + 1) ≡ target + 1 = omega (arith, b', c') in
          let e' : word ((target + 1) * 256) ≡ 256 * (target + 1) = omega (arith, b', c') in
          elim (dec_lt (256 * (target + 1)) wanted) [
            | yes lt ↦
                let go : leb wanted (256 * (target + 1)) ≡ false = ground arith in
                rw on (
                  rw e (
                    rw e' (
                      rw go (
                        select_lem order (target + 1) wanted (set should i true) r
                          (picked i order target wanted should r v on lt) le))))
            | no ge ↦
                let stop : leb wanted (256 * (target + 1)) ≡ true = ground arith in
                rw on
                  (rw e (rw e' (rw stop (found i order target wanted should r v on (omega arith)))))
          ]
      | inr off ↦
          let e' : word (target * 256) ≡ 256 * target = omega (arith, b, c) in
          elim (dec_lt (256 * target) wanted) [
            | yes lt ↦
                let go : leb wanted (256 * target) ≡ false = ground arith in
                rw off (
                  rw e' (
                    rw go (
                      select_lem order target wanted should r
                        (passed i order target wanted should r v off (λ j p e. lt)) le)))
            | no ge ↦
                let stop : leb wanted (256 * target) ≡ true = ground arith in
                rw off (
                  rw e' (
                    rw stop (record {
                      free = v.free;
                      enough = omega (arith, c);
                      tight = omega (arith, c, v.tight);
                    })))
          ]
    ]
