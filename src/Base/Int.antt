-- ===== src/Base/Int.antt =====
-- The 32-bit `int`, as its bits: a number below 2 ^ 32, which stands for itself less 2 ^ 32 from
-- 2 ^ 31 on. The conversions to it and from it are those of a two's complement machine.
use Prim.Native.Nat.{ℕ, ◌+◌, ◌-◌, ◌%◌, ◌^◌, ◌≤◌, ◌<◌, min, max}
use mathlib.Core.Path.{◌≡◌}
use mathlib.Core.Bool.{Bool}
use native.Mathlib.Omega.{arith}
use tcmalloc.Base.Tests.{ltb, if◌then◌else◌}

-- A size_t that is narrowed to an `int`.
abbrev pub int : ℕ → ℕ
int n = n % 2 ^ 32

-- An `int` that is widened to a size_t.
unfoldable pub widen : ℕ → ℕ
widen n = if ltb n (2 ^ 31) then n else n + (2 ^ 64 - 2 ^ 32)

unfoldable pub int_add : ℕ → ℕ → ℕ
int_add a b = (a + b) % 2 ^ 32

unfoldable pub int_sub : ℕ → ℕ → ℕ
int_sub a b = (a + 2 ^ 32 - b) % 2 ^ 32

-- The signed order.
unfoldable pub int_lt : ℕ → ℕ → Bool
int_lt a b = ltb ((a + 2 ^ 31) % 2 ^ 32) ((b + 2 ^ 31) % 2 ^ 32)

unfoldable pub int_min : ℕ → ℕ → ℕ
unfolding int_lt
int_min a b = if int_lt b a then b else a

unfoldable pub int_max : ℕ → ℕ → ℕ
unfolding int_lt
int_max a b = if int_lt a b then b else a

-- On numbers below 2 ^ 31 all of these are the operations on numbers.
pub int_small : (a : ℕ) → a < 2 ^ 31 → int a ≡ a
int_small a h = omega arith

pub widen_lem : (a : ℕ) → a < 2 ^ 31 → widen a ≡ a
unfolding widen
widen_lem a h = ground arith

pub int_add_lem : (a b : ℕ) → a + b < 2 ^ 32 → int_add a b ≡ a + b
unfolding int_add
int_add_lem a b h = omega arith

pub int_sub_lem : (a b : ℕ) → b ≤ a → a < 2 ^ 32 → int_sub a b ≡ a - b
unfolding int_sub
int_sub_lem a b h k = omega arith

pub int_lt_lem : (a b : ℕ) → a < 2 ^ 31 → b < 2 ^ 31 → int_lt a b ≡ ltb a b
unfolding int_lt
int_lt_lem a b h k =
    let e : (a + 2 ^ 31) % 2 ^ 32 ≡ a + 2 ^ 31 = omega arith in
    let e' : (b + 2 ^ 31) % 2 ^ 32 ≡ b + 2 ^ 31 = omega arith in rw (e, e') (ground arith)

pub int_min_lem : (a b : ℕ) → a < 2 ^ 31 → b < 2 ^ 31 → int_min a b ≡ min a b
unfolding int_min
int_min_lem a b h k = let e = int_lt_lem b a k h in rw e (ground arith)

pub int_max_lem : (a b : ℕ) → a < 2 ^ 31 → b < 2 ^ 31 → int_max a b ≡ max a b
unfolding int_max
int_max_lem a b h k = let e = int_lt_lem a b h k in rw e (ground arith)
