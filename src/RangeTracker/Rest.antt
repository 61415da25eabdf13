-- ===== src/RangeTracker/Rest.antt =====
-- The longest run that is left when the head of a chosen run is marked.
use tcmalloc.Base.{
  ℕ, ◌+◌, ◌-◌, ◌≤◌, ◌<◌, max, ◌≡◌, ◌⊎◌, inl, inr, Bool, true, false, ◌&&◌, arith, dec_lt, ltb, leb,
  ◌==◌, if◌then◌else◌, ==_iff, Bool-cases, set,
}
use tcmalloc.RangeTracker.{Best}
use tcmalloc.RangeTracker.Runs.{Free, Apart, IsLongest, run_stops}
use tcmalloc.RangeTracker.Scan.{Scanned, Chosen}

-- The bits with those of a range set.
abbrev pub marked : (ℕ → Bool) → ℕ → ℕ → ℕ → Bool
marked f i n x = if leb i x && ltb x (i + n) then true else f x

-- A run of the new bits is an old one, on one side of what was marked.
marked_run :
    (f : ℕ → Bool) (size i n j k : ℕ)
    → 0 < n
    → Free (marked f i n) size j k
    → (k ≡ 0) ⊎ (Free f size j k × Apart j k i n)
marked_run f size i n j k pos (p, q) = elim (dec_lt 0 k) [
  | no z ↦ inl (omega arith)
  | yes some_bits ↦ inr ((p, old), sides some_bits)
]
  where
    old : (x : ℕ) → j ≤ x → x < j + k → f x ≡ false
    old x a b = ground (arith, q x a b)

    sides : 0 < k → Apart j k i n
    sides some_bits = elim (dec_lt i j) [
      | yes lt ↦ elim (dec_lt j (i + n)) [
        | yes l ↦ absurd (ground (arith, q j (omega arith) (omega arith)))
        | no ge ↦ inr (omega arith)
      ]
      | no ge ↦ elim (dec_lt i (j + k)) [
        | yes l ↦ absurd (ground (arith, q i (omega arith) l))
        | no ge' ↦ inl (omega arith)
      ]
    ]

-- An old run apart from what was marked is a new one.
run_marked :
    (f : ℕ → Bool) (size i n j k : ℕ)
    → Free f size j k
    → Apart j k i n
    → Free (marked f i n) size j k
run_marked f size i n j k (p, q) a = (p, λ x u w. ground (arith, q x u w))

-- The value that `FindAndMark` keeps for the longest run.
abbrev pub next_longest : ℕ → Best → ℕ
next_longest n b =
    if b.best_len == b.longest_len then max (b.longest_len - n) b.second_len else b.longest_len

module _ (f : ℕ → Bool) (size n : ℕ) (b : Best) (pos : 0 < n) (s : Scanned f size n size b)
    (c : Chosen f size n size b) where
  le : b.best_len ≤ b.longest_len
  le = s.bound b.best_index b.best_len c.free

  -- A run behind what was marked is in the rest of the chosen run, or apart from it.
  behind :
      (j k : ℕ)
      → 0 < k
      → Free f size j k
      → b.best_index + n ≤ j
      → (j + k ≤ b.best_index + b.best_len) ⊎ (b.best_index + b.best_len ≤ j)
  behind j k some_bits r h = elim c.stop [
    | inl e ↦ inl (omega (arith, r.0))
    | inr set ↦ elim (run_stops f size j k (b.best_index + b.best_len) r set) [
      | inl l ↦ inl l
      | inr l ↦ inr (omega arith)
    ]
  ]

  next_longest-bound : (j k : ℕ) → Free (marked f b.best_index n) size j k → k ≤ next_longest n b
  next_longest-bound j k r = elim (marked_run f size b.best_index n j k pos r) [
    | inl z ↦ omega arith
    | inr (old, sides) ↦ elim (Bool-cases (b.best_len == b.longest_len)) [
      | inr e ↦ rw e (s.bound j k old)
      | inl e ↦ rw e (tail j k old sides ((==_iff b.best_len b.longest_len).0 e))
    ]
  ]
    where
      tail :
          (j k : ℕ)
          → Free f size j k
          → Apart j k b.best_index n
          → b.best_len ≡ b.longest_len
          → k ≤ max (b.longest_len - n) b.second_len
      tail j k old (inl l) e = let q = c.others e j k old (inl l) in omega arith
      tail j k old (inr l) e = elim (dec_lt 0 k) [
        | no z ↦ omega arith
        | yes some_bits ↦ elim (behind j k some_bits old l) [
          | inl inside ↦ omega arith
          | inr out ↦ let q = c.others e j k old (inr out) in omega arith
        ]
      ]

  -- A run apart from the chosen one is still there.
  still :
      (j k : ℕ)
      → Free f size j k
      → Apart j k b.best_index b.best_len
      → Free (marked f b.best_index n) size j k
  still j k r a =
      run_marked f size b.best_index n j k r
        (elim a [ inl l ↦ inl l | inr l ↦ inr (omega (arith, c.fits)) ])

  rest : Free (marked f b.best_index n) size (b.best_index + n) (b.best_len - n)
  rest =
      run_marked f size b.best_index n (b.best_index + n) (b.best_len - n)
        (omega (arith, c.fits, c.free.0), λ x u w. c.free.1 x (omega arith) (omega (arith, c.fits)))
        (inr (omega arith))

  next_longest-reached : (j : ℕ) × Free (marked f b.best_index n) size j (next_longest n b)
  next_longest-reached = elim (Bool-cases (b.best_len == b.longest_len)) [
    | inr e ↦ rw e (let (j, r, a) = c.longer (ground (arith, le)) in (j, still j b.longest_len r a))
    | inl e ↦ rw e (equal ((==_iff b.best_len b.longest_len).0 e))
  ]
    where
      equal :
          b.best_len ≡ b.longest_len
          → (j : ℕ) × Free (marked f b.best_index n) size j (max (b.longest_len - n) b.second_len)
      equal e = elim (dec_lt (b.longest_len - n) b.second_len) [
        | no ge ↦
            let m : max (b.longest_len - n) b.second_len ≡ b.best_len - n = omega arith in
            rw m (b.best_index + n, rest)
        | yes lt ↦
            let m : max (b.longest_len - n) b.second_len ≡ b.second_len = omega arith in
            rw m (elim (c.second e) [
              | inl z ↦ absurd (omega arith)
              | inr (j, r, a) ↦ (j, still j b.second_len r a)
            ])
      ]

  pub next_longest-IsLongest : IsLongest (marked f b.best_index n) size (next_longest n b)
  next_longest-IsLongest = record { bound = next_longest-bound; reached = next_longest-reached }
