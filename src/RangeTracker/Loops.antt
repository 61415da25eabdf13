-- ===== src/RangeTracker/Loops.antt =====
-- The loops over the free ranges reach the end, and what they find there.
use tcmalloc.Base.{
  ℕ, zero, suc, ◌+◌, ◌-◌, ◌≤◌, ◌<◌, max, ◌≡◌, refl, ◌⊎◌, inl, inr, Bool, true, false, Option, none,
  some, arith, dec_lt, set,
}
use tcmalloc.Bitmap.Defs.{Bitmap, get_bit, next_free_range}
use tcmalloc.Bitmap.Fill.{IsBitmap}
use tcmalloc.Bitmap.FreeRange.{FreeRange, next_free_range_lem}
use tcmalloc.RangeTracker.{Best, consider, find_best, scan_longest}
use tcmalloc.RangeTracker.Runs.{Free, Some, IsNext, IsLongest, Edge, widen, run_cases, run_stops}
use tcmalloc.RangeTracker.Scan.{Scanned, Chosen, consider-Scanned}

-- A bitmap of `size` bits with no dead bit set.
pub record IsClean (size : ℕ) (bits : Bitmap) : Type 0 where
  pub bitmap : IsBitmap size bits
  pub dead : (x : ℕ) → size ≤ x → get_bit bits x ≡ false

-- What `NextFreeRange(idx)` gives: the next run, or there is none up to the end.
abbrev pub Next : ℕ → Bitmap → ℕ → Option (ℕ × ℕ) → Type 0
Next size bits idx none = (x : ℕ) → idx ≤ x → x < size → get_bit bits x ≡ true
Next size bits idx (some (i, len)) = IsNext (get_bit bits) size idx i len

past_end : (size idx : ℕ) (bits : Bitmap) → size ≤ idx → next_free_range size idx bits ≡ none
unfolding next_free_range
past_end size idx bits h = ground arith

pub next_run_lem :
    (size : ℕ) (bits : Bitmap) (idx : ℕ)
    → IsClean size bits
    → Next size bits idx (next_free_range size idx bits)
next_run_lem size bits idx v = elim (dec_lt idx size) [
  | yes lt ↦
      convert (next_free_range size idx bits) (next_free_range_lem size idx bits lt v.bitmap v.dead)
  | no ge ↦ past ge
]
  where
    convert : (o : Option (ℕ × ℕ)) → FreeRange size idx bits o → Next size bits idx o
    convert none r = unfold FreeRange in r
    convert (some (i, len)) r =
        let (a, b, c, d, e, g) : (idx ≤ i)
            × (0 < len)
            × (i + len ≤ size)
            × ((x : ℕ) → idx ≤ x → x < i → get_bit bits x ≡ true)
            × ((x : ℕ) → i ≤ x → x < i + len → get_bit bits x ≡ false)
            × ((i + len ≡ size) ⊎ (get_bit bits (i + len) ≡ true)) =
          unfold FreeRange in r in
        record { after = a; some_bits = b; inside = c; before = d; clear = e; stop = g }

    past : ¬ (idx < size) → Next size bits idx (next_free_range size idx bits)
    past ge = rw (past_end size idx bits (omega arith)) (λ x p q. absurd (omega arith))

-- Behind the last run there is nothing more to see.
all_set :
    (f : ℕ → Bool) (size idx j k : ℕ)
    → ((x : ℕ) → idx ≤ x → x < size → f x ≡ true)
    → idx ≤ size
    → Edge f size idx
    → Free f size j k
    → (k ≡ 0) ⊎ Free f idx j k
all_set f size idx j k set le e (p, q) = elim (dec_lt 0 k) [
  | no z ↦ inl (omega arith)
  | yes pos ↦ elim (dec_lt j idx) [
    | no ge ↦
        absurd (ground (arith, set j (omega arith) (omega arith), q j (omega arith) (omega arith)))
    | yes lt ↦ elim (dec_lt idx size) [
      | no ge ↦ inr (omega arith, q)
      | yes l ↦ elim (run_stops f size j k idx (p, q) (set idx (omega arith) l)) [
        | inl h ↦ inr (h, q)
        | inr h ↦ absurd (omega arith)
      ]
    ]
  ]
]

finished :
    (f : ℕ → Bool) (size n idx : ℕ) (b : Best)
    → ((x : ℕ) → idx ≤ x → x < size → f x ≡ true)
    → idx ≤ size
    → Scanned f size n idx b
    → Scanned f size n size b
finished f size n idx b set le s = record {
  edge = inr (inr refl);
  bound = λ j k r. elim (all_set f size idx j k set le s.edge r) [
    | inl z ↦ omega arith
    | inr old ↦ s.bound j k old
  ];
  reached = elim s.reached [
    | inl z ↦ inl z
    | inr (j, r) ↦ inr (j, widen f idx size j b.longest_len le r)
  ];
  best = elim s.best [ inl u ↦ inl u | inr c ↦ inr (chosen c) ];
}
  where
    chosen : Chosen f size n idx b → Chosen f size n size b
    chosen c = record {
      free = widen f idx size b.best_index b.best_len le c.free;
      fits = c.fits;
      stop = c.stop;
      others = λ e j k r a. elim (all_set f size idx j k set le s.edge r) [
        | inl z ↦ omega arith
        | inr old ↦ c.others e j k old a
      ];
      second = λ e. elim (c.second e) [
        | inl z ↦ inl z
        | inr (j, r, a) ↦ inr (j, widen f idx size j b.second_len le r, a)
      ];
      longer = λ e. let (j, r, a) = c.longer e in (j, widen f idx size j b.longest_len le r, a);
    }

-- With fuel for one turn more than there are bits left, the loop sees all runs.
pub find_best-Scanned :
    (fuel size n : ℕ) (bits : Bitmap) (idx : ℕ) (b : Best)
    → IsClean size bits
    → idx ≤ size
    → size - idx < fuel
    → Scanned (get_bit bits) size n idx b
    → Scanned (get_bit bits) size n size (find_best fuel size n bits idx b)
unfolding find_best
find_best-Scanned zero size n bits idx b v le h s = absurd (omega arith)
find_best-Scanned (suc fuel) size n bits idx b v le h s =
    turn (next_free_range size idx bits) (next_run_lem size bits idx v) (λ i len r.
      find_best-Scanned fuel size n bits (i + len) (consider n i len b) v r.inside
        (omega (arith, r.after, r.some_bits, r.inside))
        (consider-Scanned (get_bit bits) size n idx i len b r s))
  where
    turn :
        (o : Option (ℕ × ℕ))
        → Next size bits idx o
        → ((i len : ℕ)
            → IsNext (get_bit bits) size idx i len
            → Scanned
                (get_bit bits)
                size
                n
                size
                (find_best fuel size n bits (i + len) (consider n i len b)))
        → Scanned (get_bit bits) size n size (elim o [
          | none ↦ b
          | some (i, len) ↦ find_best fuel size n bits (i + len) (consider n i len b)
        ])
    turn none r rest = finished (get_bit bits) size n idx b r le s
    turn (some (i, len)) r rest = rest i len r

-- The longest of the runs before `idx`.
pub record LongestTo (f : ℕ → Bool) (size idx m : ℕ) : Type 0 where
  pub edge : Edge f size idx
  pub bound : (j k : ℕ) → Free f idx j k → k ≤ m
  pub reached : Some f idx m

LongestTo-next :
    (f : ℕ → Bool) (size idx i len m : ℕ)
    → IsNext f size idx i len
    → LongestTo f size idx m
    → LongestTo f size (i + len) (max m len)
LongestTo-next f size idx i len m v s = record {
  edge = ground (arith, v.stop);
  bound = λ j k r. elim (run_cases f size idx i len j k s.edge v r) [
    | inl z ↦ omega arith
    | inr (inl old) ↦ let q = s.bound j k old in omega arith
    | inr (inr (p, q)) ↦ omega arith
  ];
  reached = elim (dec_lt m len) [
    | yes lt ↦ let e : max m len ≡ len = omega arith in rw e (inr (i, (omega arith, v.clear)))
    | no ge ↦
        let e : max m len ≡ m = omega arith in
        rw e (elim s.reached [
          | inl z ↦ inl z
          | inr (j, r) ↦ inr (j, widen f idx (i + len) j m (omega (arith, v.after)) r)
        ])
  ];
}

pub scan_longest-LongestTo :
    (fuel size : ℕ) (bits : Bitmap) (idx m : ℕ)
    → IsClean size bits
    → idx ≤ size
    → size - idx < fuel
    → LongestTo (get_bit bits) size idx m
    → LongestTo (get_bit bits) size size (scan_longest fuel size bits idx m)
unfolding scan_longest
scan_longest-LongestTo zero size bits idx m v le h s = absurd (omega arith)
scan_longest-LongestTo (suc fuel) size bits idx m v le h s =
    turn (next_free_range size idx bits) (next_run_lem size bits idx v) (λ i len r.
      scan_longest-LongestTo fuel size bits (i + len) (max m len) v r.inside
        (omega (arith, r.after, r.some_bits, r.inside))
        (LongestTo-next (get_bit bits) size idx i len m r s))
  where
    turn :
        (o : Option (ℕ × ℕ))
        → Next size bits idx o
        → ((i len : ℕ)
            → IsNext (get_bit bits) size idx i len
            → LongestTo
                (get_bit bits)
                size
                size
                (scan_longest fuel size bits (i + len) (max m len)))
        → LongestTo (get_bit bits) size size (elim o [
          | none ↦ m
          | some (i, len) ↦ scan_longest fuel size bits (i + len) (max m len)
        ])
    turn none r rest = record {
      edge = inr (inr refl);
      bound = λ j k w. elim (all_set (get_bit bits) size idx j k r le s.edge w) [
        | inl z ↦ omega arith
        | inr old ↦ s.bound j k old
      ];
      reached = elim s.reached [
        | inl z ↦ inl z
        | inr (j, w) ↦ inr (j, widen (get_bit bits) idx size j m le w)
      ];
    }
    turn (some (i, len)) r rest = rest i len r

-- The loop of Mark over the free ranges, on a bitmap whose dead bits are clear, ends within the
-- fuel of its size and one more, with the length of the longest run of clear bits.
pub scan_longest_lem :
    (size : ℕ) (bits : Bitmap)
    → IsClean size bits
    → IsLongest (get_bit bits) size (scan_longest (size + 1) size bits 0 0)
scan_longest_lem size bits v =
    let s =
      scan_longest-LongestTo (size + 1) size bits 0 0 v (omega arith) (omega arith)
        (record { edge = inl refl; bound = λ j k r. omega arith; reached = inl refl }) in
    record {
      bound = s.bound;
      reached = elim s.reached [
        | inl z ↦ rw z (0, (omega arith, λ x p q. absurd (omega arith)))
        | inr r ↦ r
      ];
    }
