-- ===== src/RangeTracker/Scan.antt =====
-- What the loop of `FindAndMark` knows of the runs it has seen.
use tcmalloc.Base.{
  ℕ, ◌+◌, ◌*◌, ◌≤◌, ◌<◌, ◌≡◌, refl, subst, sym, ◌⊎◌, inl, inr, Bool, true, false, ◌&&◌, arith, ltb,
  leb, if◌then◌else◌, ltb→lt, Bool-cases,
}
use tcmalloc.RangeTracker.{Best, consider}
use tcmalloc.RangeTracker.Runs.{Free, Apart, Some, IsNext, Edge, widen, run_cases}

-- A run has been chosen: it is long enough and ends at a set bit or at the end; if it is as long as
-- the longest one, `second_len` is the longest of the others, and else one of the others is longest.
pub record Chosen (f : ℕ → Bool) (size n idx : ℕ) (b : Best) : Type 0 where
  pub free : Free f idx b.best_index b.best_len
  pub fits : n ≤ b.best_len
  pub stop : (b.best_index + b.best_len ≡ size) ⊎ (f (b.best_index + b.best_len) ≡ true)
  pub others :
      b.best_len ≡ b.longest_len
      → (j k : ℕ) → Free f idx j k
      → Apart j k b.best_index b.best_len
      → k ≤ b.second_len
  pub second :
      b.best_len ≡ b.longest_len
      → (b.second_len ≡ 0)
        ⊎ ((j : ℕ) × Free f idx j b.second_len × Apart j b.second_len b.best_index b.best_len)
  pub longer :
      b.best_len < b.longest_len
      → (j : ℕ) × Free f idx j b.longest_len × Apart j b.longest_len b.best_index b.best_len

abbrev pub Unchosen : ℕ → ℕ → Best → Type 0
Unchosen size n b = (b.best_index ≡ size) × (b.best_len ≡ 2 * size) × (b.longest_len < n)

-- The scan has come to `idx`.
pub record Scanned (f : ℕ → Bool) (size n idx : ℕ) (b : Best) : Type 0 where
  pub edge : Edge f size idx
  pub bound : (j k : ℕ) → Free f idx j k → k ≤ b.longest_len
  pub reached : Some f idx b.longest_len
  pub best : Unchosen size n b ⊎ Chosen f size n idx b

module _ (f : ℕ → Bool) (size n idx i len : ℕ) (b : Best) (v : IsNext f size idx i len)
    (s : Scanned f size n idx b) where
  -- The run itself.
  here : Free f (i + len) i len
  here = (omega arith, v.clear)

  up : idx ≤ i + len
  up = omega (arith, v.after)

  edge' : Edge f size (i + len)
  edge' = ground (arith, v.stop)

  bound' : (m : ℕ) → b.longest_len ≤ m → len ≤ m → (j k : ℕ) → Free f (i + len) j k → k ≤ m
  bound' m le le' j k r = elim (run_cases f size idx i len j k s.edge v r) [
    | inl z ↦ omega arith
    | inr (inl old) ↦ let q = s.bound j k old in omega arith
    | inr (inr (p, q)) ↦ omega arith
  ]

  old_run : Some f (i + len) b.longest_len
  old_run = elim s.reached [
    | inl z ↦ inl z
    | inr (j, r) ↦ inr (j, widen f idx (i + len) j b.longest_len up r)
  ]

  -- A run apart from the new one is an old one.
  Apart-old : (j k : ℕ) → Free f (i + len) j k → Apart j k i len → k ≤ b.longest_len
  Apart-old j k r a = elim (run_cases f size idx i len j k s.edge v r) [
    | inl z ↦ omega arith
    | inr (inl old) ↦ s.bound j k old
    | inr (inr (p, q)) ↦ elim a [ inl l ↦ omega arith | inr l ↦ omega arith ]
  ]

  -- The new run is chosen.
  choose :
      (second longest : ℕ)
      → n ≤ len
      → (len ≡ longest → b.longest_len ≡ second)
      → (len < longest → b.longest_len ≡ longest)
      → Chosen f size n
          (i + len)
          (record { longest_len = longest; second_len = second; best_index = i; best_len = len })
  choose second longest fits e e' = record {
    free = here;
    fits = fits;
    stop = v.stop;
    others = λ q j k r a. let w = Apart-old j k r a in omega (arith, e q);
    second = λ q.
        subst (λ m. (m ≡ 0) ⊎ ((j : ℕ) × Free f (i + len) j m × Apart j m i len)) (e q) old_apart;
    longer =
        λ q. subst (λ m. (j : ℕ) × Free f (i + len) j m × Apart j m i len) (e' q) (old_longest q);
  }
    where
      old_apart :
          (b.longest_len ≡ 0)
          ⊎ ((j : ℕ) × Free f (i + len) j b.longest_len × Apart j b.longest_len i len)
      old_apart = elim s.reached [
        | inl z ↦ inl z
        | inr (j, (p, r)) ↦
            inr (j, widen f idx (i + len) j b.longest_len up (p, r), inl (omega (arith, v.after)))
      ]

      old_longest :
          len < longest → (j : ℕ) × Free f (i + len) j b.longest_len × Apart j b.longest_len i len
      old_longest q = elim old_apart [ inl z ↦ absurd (omega (arith, e' q)) | inr r ↦ r ]

  -- A run that was chosen stays chosen, when the new one is no longer than the longest.
  keep :
      (second : ℕ)
      → Chosen f size n idx b
      → len ≤ b.longest_len
      → ((second ≡ b.second_len) × (len ≤ b.second_len)) ⊎ ((second ≡ len) × (b.second_len ≤ len))
      → Chosen f size n (i + len) (record b { second_len = second })
  keep second c le q = record {
    free = widen f idx (i + len) b.best_index b.best_len up c.free;
    fits = c.fits;
    stop = c.stop;
    others = λ e j k r a. elim (run_cases f size idx i len j k s.edge v r) [
      | inl z ↦ omega arith
      | inr (inl old) ↦ let w = c.others e j k old a in omega arith
      | inr (inr (g, h)) ↦ omega arith
    ];
    second = λ e. elim q [
      | inl (same, _) ↦
          subst
            (λ m. (m ≡ 0) ⊎ ((j : ℕ) × Free f (i + len) j m × Apart j m b.best_index b.best_len))
            (sym same)
            (elim (c.second e) [
              | inl z ↦ inl z
              | inr (j, r, a) ↦ inr (j, widen f idx (i + len) j b.second_len up r, a)
            ])
      | inr (same, _) ↦
          subst
            (λ m. (m ≡ 0) ⊎ ((j : ℕ) × Free f (i + len) j m × Apart j m b.best_index b.best_len))
            (sym same) (inr (i, here, inr (omega (arith, c.free.0, v.after))))
    ];
    longer = λ e. let (j, r, a) = c.longer e in (j, widen f idx (i + len) j b.longest_len up r, a);
  }

  -- A new longest run that is not chosen.
  exceed :
      Chosen f size n idx b
      → b.longest_len < len
      → Chosen f size n (i + len) (record b { second_len = b.longest_len; longest_len = len })
  exceed c lt =
      let le : b.best_len ≤ b.longest_len = s.bound b.best_index b.best_len c.free in
      record {
        free = widen f idx (i + len) b.best_index b.best_len up c.free;
        fits = c.fits;
        stop = c.stop;
        others = λ e j k r a. absurd (omega arith);
        second = λ e. absurd (omega arith);
        longer = λ e. (i, here, inr (omega (arith, c.free.0, v.after)));
      }

  -- The test that the run is long enough and shorter than the best one.
  better : Bool
  better = leb n len && ltb len b.best_len

  fits_of : better ≡ true → n ≤ len
  unfolding better
  fits_of t = ground arith

  -- A run that is better than the best one, and not longer than the longest, is shorter than that.
  shorter : better ≡ true → len ≤ b.longest_len → len < b.longest_len
  unfolding better
  shorter t le = elim s.best [
    | inl (x, y, z) ↦ absurd (ground arith)
    | inr c ↦
        let w : b.best_len ≤ b.longest_len = s.bound b.best_index b.best_len c.free in ground arith
  ]

  unchosen : better ≡ false → Unchosen size n b → len < n
  unfolding better
  unchosen t (x, y, z) = ground (arith, v.inside, v.some_bits)

  -- The record behind the first test, by its two lengths.
  settle :
      (longest second : ℕ)
      → ((b.longest_len < len) × (longest ≡ len) × (second ≡ b.longest_len))
        ⊎ ((len ≤ b.longest_len)
            × (longest ≡ b.longest_len)
            × (((second ≡ b.second_len) × (len ≤ b.second_len))
                ⊎ ((second ≡ len) × (b.second_len ≤ len))))
      → Scanned f size n (i + len) (
          if better
          then record { longest_len = longest; second_len = second; best_index = i; best_len = len }
          else record b { longest_len = longest; second_len = second })
  settle longest second (inl (lt, e, e')) =
      rw (e, e')
        (elim (Bool-cases better) [
          | inl t ↦ rw t (record {
            edge = edge';
            bound = bound' len (omega arith) (omega arith);
            reached = inr (i, here);
            best =
                inr (choose b.longest_len len (fits_of t) (λ q. refl) (λ q. absurd (omega arith)));
          })
          | inr t ↦ rw t (record {
            edge = edge';
            bound = bound' len (omega arith) (omega arith);
            reached = inr (i, here);
            best = elim s.best [ inl u ↦ inl (u.0, u.1, unchosen t u) | inr c ↦ inr (exceed c lt) ];
          })
        ])
  settle longest second (inr (le, e, q)) = rw e (elim (Bool-cases better) [
    | inl t ↦ rw t (record {
      edge = edge';
      bound = bound' b.longest_len (omega arith) le;
      reached = old_run;
      best = inr (
          choose second b.longest_len (fits_of t) (λ q. absurd (omega (arith, shorter t le)))
            (λ q. refl));
    })
    | inr t ↦ rw t (record {
      edge = edge';
      bound = bound' b.longest_len (omega arith) le;
      reached = old_run;
      best = elim s.best [ inl u ↦ inl u | inr c ↦ inr (keep second c le q) ];
    })
  ])

  -- What one turn of the loop makes of it.
  pub consider-Scanned : Scanned f size n (i + len) (consider n i len b)
  unfolding consider better
  consider-Scanned = elim (Bool-cases (ltb b.longest_len len)) [
    | inl l ↦ rw l (settle len b.longest_len (inl (ltb→lt b.longest_len len l, refl, refl)))
    | inr l ↦ rw l (elim (Bool-cases (ltb b.second_len len)) [
      | inl k ↦ rw k (settle b.longest_len len (inr (ground arith, refl, inr (refl, ground arith))))
      | inr k ↦
          rw k
            (settle b.longest_len b.second_len (inr (ground arith, refl, inl (refl, ground arith))))
    ])
  ]
