-- ===== src/HugeCache/Shrink.antt =====
-- `ShrinkCache` of `HugeCache`.
use tcmalloc.Base.{
  ℕ, zero, suc, ◌+◌, ◌≤◌, min, ◌≡◌, refl, ap, ◌∙◌, ◌⊎◌, inl, inr, Bool, true, false, ◌||◌, some,
  arith, ltb, Bool-cases,
}
use native.Mathlib.Nat.{add_assoc}
use tcmalloc.Pages.Length.{word}
use tcmalloc.Pages.HugeLength.{max_page_number}
use tcmalloc.Pages.HugeRange.{HugeRange}
use tcmalloc.HugeAddressMap.Tree.Order.{covers}
use tcmalloc.HugeCache.{HugeCache, shrink_turn, shrink_from, shrink_cache}
use tcmalloc.HugeCache.Valid.{IsValid}
use tcmalloc.HugeCache.Turn.{Accepted, Refused, size_bound, shrink_turn_lem}

-- What a shrink to `target` that removes `n` huge pages makes of the cache.
pub record Shrunk (unback : HugeRange → Bool) (target n : ℕ) (s s' : HugeCache) : Type 0 where
  pub valid : IsValid s'
  pub size : s'.size + n ≡ s.size
  pub above : min target s.size ≤ s'.size
  pub reached : (s'.size ≤ target) ⊎ Refused unback s'
  pub taken :
      (p : ℕ)
      → covers s'.allocator.free.root p ≡ true
      → (covers s.allocator.free.root p ≡ true) ⊎ Accepted unback s p
  pub shrinks : (p : ℕ) → covers s'.cache.root p ≡ true → covers s.cache.root p ≡ true
  pub pages :
      (p : ℕ)
      → (covers s'.cache.root p || covers s'.allocator.free.root p)
        ≡ (covers s.cache.root p || covers s.allocator.free.root p)

Shrunk-none :
    (unback : HugeRange → Bool) (target : ℕ) (s : HugeCache)
    → IsValid s
    → s.size ≤ target
    → Shrunk unback target 0 s s
Shrunk-none unback target s v le = record {
  valid = v;
  size = omega arith;
  above = omega arith;
  reached = inl le;
  taken = λ p h. inl h;
  shrinks = λ p h. h;
  pages = λ p. refl;
}

shrink_from-done :
    (unback : HugeRange → Bool) (fuel target removed n m : ℕ) (s s₁ s' : HugeCache)
    → ltb target s.size ≡ true
    → shrink_turn unback target s ≡ some (true, n, s₁)
    → word (removed + n) ≡ removed + n
    → shrink_from unback fuel target (removed + n) s₁ ≡ some (removed + n + m, s')
    → shrink_from unback (suc fuel) target removed s ≡ some (removed + (n + m), s')
unfolding shrink_from
shrink_from-done unback fuel target removed n m s s₁ s' on e w e' =
    rw on (rw e (rw w (e' ∙ ap (λ z. some (z, s')) (add_assoc removed n m))))

shrink_from-stop :
    (unback : HugeRange → Bool) (fuel target removed n : ℕ) (s s₁ : HugeCache)
    → ltb target s.size ≡ true
    → shrink_turn unback target s ≡ some (false, n, s₁)
    → shrink_from unback (suc fuel) target removed s ≡ some (removed, s₁)
unfolding shrink_from
shrink_from-stop unback fuel target removed n s s₁ on e = rw on (rw e refl)

shrink_from_lem :
    (unback : HugeRange → Bool) (fuel target removed : ℕ) (s : HugeCache)
    → IsValid s
    → s.size ≤ target + fuel
    → removed + s.size ≤ max_page_number
    → (n : ℕ) × (s' : HugeCache) × (shrink_from unback fuel target removed s
        ≡ some (removed + n, s'))
      × Shrunk unback target n s s'
unfolding shrink_from
shrink_from_lem unback zero target removed s v enough room =
    (0, s, ap (λ z. some (z, s)) (omega arith), Shrunk-none unback target s v (omega arith))
shrink_from_lem unback (suc fuel) target removed s v enough room =
    elim (Bool-cases (ltb target s.size)) [
      | inr off ↦ (
        0,
        s,
        rw off (ap (λ z. some (z, s)) (omega arith)),
        Shrunk-none unback target s v (ground (arith, off)),
      )
      | inl on ↦
          let (done, n, s₁, e, w) = shrink_turn_lem unback target s v (ground (arith, on)) in
          elim w.progress [
            | inl (yes_done, pos) ↦
                let e₁ = e ∙ ap (λ z. some (z, n, s₁)) yes_done in
                let (m, s', e', g) =
                  shrink_from_lem unback fuel target (removed + n) s₁ w.valid
                    (omega (arith, w.size)) (omega (arith, w.size)) in
                (
                  n + m,
                  s',
                  shrink_from-done unback fuel target removed n m s s₁ s' on e₁
                      (omega (arith, w.size)) e',
                  record {
                    valid = g.valid;
                    size = omega (arith, g.size, w.size);
                    above = omega (arith, g.above, w.above);
                    reached = g.reached;
                    taken = λ p h. elim (g.taken p h) [
                      | inl c ↦ w.taken p c
                      | inr (range, on, i, inside) ↦
                          inr (range, on, i, λ q j. w.shrinks q (inside q j))
                    ];
                    shrinks = λ p h. w.shrinks p (g.shrinks p h);
                    pages = λ p. g.pages p ∙ w.pages p;
                  },
                )
            | inr (not_done, none_gone, refused) ↦
                let e₁ = e ∙ ap (λ z. some (z, n, s₁)) not_done in
                (
                  0,
                  s₁,
                  shrink_from-stop unback fuel target removed n s s₁ on e₁
                      ∙ ap (λ z. some (z, s₁)) (omega arith),
                  record {
                    valid = w.valid;
                    size = omega (arith, w.size);
                    above = omega (arith, w.above);
                    reached = inr refused;
                    taken = w.taken;
                    shrinks = w.shrinks;
                    pages = w.pages;
                  },
                )
          ]
    ]

-- ShrinkCache(target) on a valid cache over a valid allocator ends with no failed check: it does
-- not go below the target, and reaches it unless the system refused a nonempty range, which the
-- cache then has. Every huge page that is free in the allocator and was not before was in the
-- cache, in a range of it that the system accepted, and the cache gets no new page. It returns
-- the number of huge pages by which the cache is smaller. The cache and the allocator stay valid
-- and apart, and the free pages of both together are the same as before.
pub shrink_cache_lem :
    (unback : HugeRange → Bool) (target : ℕ) (s : HugeCache)
    → IsValid s
    → (n : ℕ) × (s' : HugeCache) × (shrink_cache unback target s ≡ some (n, s'))
      × Shrunk unback target n s s'
unfolding shrink_cache
shrink_cache_lem unback target s v =
    let (n, s', e, w) =
      shrink_from_lem unback s.size target 0 s v (omega arith) (omega (arith, size_bound s v)) in
    (n, s', e ∙ ap (λ z. some (z, s')) (omega arith), w)
