-- ===== src/HugeRegion/Count.antt =====
-- How many places of a range a test holds at, and how marking a range changes the number.
use tcmalloc.Base.{
  ℕ, zero, suc, ◌+◌, ◌-◌, ◌≤◌, ◌<◌, min, ◌≡◌, refl, sym, ap, ap₂, ◌∙◌, ◌≢◌, ◌⊎◌, inl, inr, Bool,
  true, false, arith, ℕ_discrete, dec_lt, if◌then◌else◌, Bool-cases, set,
}
use tcmalloc.RangeTracker.Rest.{marked}
use tcmalloc.RangeTracker.Unmark.{opened}

-- How many of the `w` places from `a` on.
unfoldable pub count : (ℕ → Bool) → ℕ → ℕ → ℕ
count f a zero = 0
count f a (suc w) = (if f (a + w) then 1 else 0) + count f a w

pub count-ext :
    (f g : ℕ → Bool) (a w : ℕ)
    → ((x : ℕ) → a ≤ x → x < a + w → f x ≡ g x)
    → count f a w ≡ count g a w
unfolding count
count-ext f g a zero e = refl
count-ext f g a (suc w) e =
    let ih = count-ext f g a w (λ x p q. e x p (omega arith)) in
    ap₂ (λ b n. (if b then 1 else 0) + n) (e (a + w) (omega arith) (omega arith)) ih

pub count_bound : (f : ℕ → Bool) (a w : ℕ) → count f a w ≤ w
unfolding count
count_bound f a zero = omega arith
count_bound f a (suc w) = elim (Bool-cases (f (a + w))) [
  | inl e ↦ rw e (omega (arith, count_bound f a w))
  | inr e ↦ rw e (omega (arith, count_bound f a w))
]

-- How many of `h` places from `k` are among `w` from `a`, where `a <= k`.
abbrev pub overlap : ℕ → ℕ → ℕ → ℕ → ℕ
overlap k h a w = min (k + h) (a + w) - k

pub count-marked :
    (f : ℕ → Bool) (k h a w : ℕ)
    → a ≤ k
    → ((x : ℕ) → k ≤ x → x < k + h → f x ≡ false)
    → count (marked f k h) a w ≡ count f a w + overlap k h a w
unfolding count
count-marked f k h a zero le free = omega arith
count-marked f k h a (suc w) le free =
    let ih = count-marked f k h a w le free in
    elim (dec_lt (a + w) k) [
      | yes lt ↦ ground (arith, ih)
      | no ge ↦ elim (dec_lt (a + w) (k + h)) [
        | yes lt ↦ ground (arith, ih, free (a + w) (omega arith) lt)
        | no ge' ↦ ground (arith, ih)
      ]
    ]

-- Marking one place that is clear counts it.
pub count-gain :
    (f g : ℕ → Bool) (a w j : ℕ)
    → a ≤ j
    → j < a + w
    → f j ≡ false
    → g j ≡ true
    → ((x : ℕ) → x ≢ j → g x ≡ f x)
    → count g a w ≡ count f a w + 1
count-gain f g a w j le lt off on others =
    let m = count-marked f j 1 a w le (λ x p q. ap f (omega arith) ∙ off) in
    count-ext g (marked f j 1) a w at ∙ omega (arith, m)
  where
    at : (x : ℕ) → a ≤ x → x < a + w → g x ≡ marked f j 1 x
    at x p q = elim (ℕ_discrete x j) [
      | yes e ↦ ap g e ∙ on ∙ ground arith
      | no ne ↦ others x ne ∙ ground arith
    ]

-- Clearing places that were all set takes their number off.
pub count-opened :
    (f : ℕ → Bool) (k h a w : ℕ)
    → a ≤ k
    → ((x : ℕ) → k ≤ x → x < k + h → f x ≡ true)
    → count (opened f k h) a w + overlap k h a w ≡ count f a w
count-opened f k h a w le set =
    sym (count-marked (opened f k h) k h a w le (λ x p q. ground arith))
    ∙ count-ext (marked (opened f k h) k h) f a w (λ x p q. back x)
  where
    back : (x : ℕ) → marked (opened f k h) k h x ≡ f x
    back x = ground (arith, set x)

-- What is outside of the places counted does not matter.
pub count-apart :
    (f : ℕ → Bool) (k h a w : ℕ)
    → (k + h ≤ a) ⊎ (a + w ≤ k)
    → (count (marked f k h) a w ≡ count f a w) × (count (opened f k h) a w ≡ count f a w)
count-apart f k h a w out = (
  count-ext (marked f k h) f a w
      (λ x p q. elim out [ inl l ↦ ground arith | inr l ↦ ground arith ]),
  count-ext (opened f k h) f a w
      (λ x p q. elim out [ inl l ↦ ground arith | inr l ↦ ground arith ]),
)

-- No place counts where the number is 0.
pub count-zero : (f : ℕ → Bool) (a w x : ℕ) → count f a w ≡ 0 → a ≤ x → x < a + w → f x ≡ false
unfolding count
count-zero f a zero x e p q = absurd (omega arith)
count-zero f a (suc w) x e p q = elim (Bool-cases (f (a + w))) [
  | inl on ↦ absurd (ground (arith, e, on))
  | inr off ↦ elim (ℕ_discrete x (a + w)) [
    | yes same ↦ ap f same ∙ off
    | no ne ↦ count-zero f a w x (ground (arith, e, off)) p (omega arith)
  ]
]

-- A free run leaves room.
pub count-room :
    (f : ℕ → Bool) (k h w : ℕ)
    → k + h ≤ w
    → ((x : ℕ) → k ≤ x → x < k + h → f x ≡ false)
    → count f 0 w + h ≤ w
count-room f k h w le free =
    let m = count-marked f k h 0 w (omega arith) free in
    let b = count_bound (marked f k h) 0 w in omega arith

-- A test that one of two others meets counts at most as much as they do together.
pub count-or :
    (f g s : ℕ → Bool) (a w : ℕ)
    → ((x : ℕ) → a ≤ x → x < a + w → f x ≡ true → (g x ≡ true) ⊎ (s x ≡ true))
    → count f a w ≤ count g a w + count s a w
unfolding count
count-or f g s a zero either = omega arith
count-or f g s a (suc w) either =
    let ih = count-or f g s a w (λ x p q e. either x p (omega arith) e) in
    elim (Bool-cases (f (a + w))) [
      | inr off ↦ ground (arith, ih, off)
      | inl on ↦ elim (either (a + w) (omega arith) (omega arith) on) [
        | inl e ↦ ground (arith, ih, on, e)
        | inr e ↦ ground (arith, ih, on, e)
      ]
    ]

-- Two tests that do not meet, and that both imply a third, count at most as much as it together.
pub count-apart_from :
    (f g s : ℕ → Bool) (a w : ℕ)
    → ((x : ℕ) → a ≤ x → x < a + w → s x ≡ true → (f x ≡ true) × (g x ≡ false))
    → ((x : ℕ) → a ≤ x → x < a + w → g x ≡ true → f x ≡ true)
    → count g a w + count s a w ≤ count f a w
unfolding count
count-apart_from f g s a zero one other = omega arith
count-apart_from f g s a (suc w) one other =
    let ih =
      count-apart_from f g s a w (λ x p q. one x p (omega arith))
        (λ x p q. other x p (omega arith)) in
    elim (Bool-cases (s (a + w))) [
      | inl on ↦
          let (u, z) = one (a + w) (omega arith) (omega arith) on in ground (arith, ih, on, u, z)
      | inr off ↦ elim (Bool-cases (g (a + w))) [
        | inl e ↦
            let u = other (a + w) (omega arith) (omega arith) e in ground (arith, ih, off, e, u)
        | inr e ↦ ground (arith, ih, off, e)
      ]
    ]

pub count-none :
    (f : ℕ → Bool) (a w : ℕ) → ((x : ℕ) → a ≤ x → x < a + w → f x ≡ false) → count f a w ≡ 0
unfolding count
count-none f a zero off = refl
count-none f a (suc w) off =
    let ih = count-none f a w (λ x p q. off x p (omega arith)) in
    ground (arith, ih, off (a + w) (omega arith) (omega arith))

pub count-some : (f : ℕ → Bool) (a w x : ℕ) → a ≤ x → x < a + w → f x ≡ true → 0 < count f a w
count-some f a w x p q on = elim (dec_lt 0 (count f a w)) [
  | yes lt ↦ lt
  | no ge ↦ absurd (ground (arith, on, count-zero f a w x (omega arith) p q))
]
