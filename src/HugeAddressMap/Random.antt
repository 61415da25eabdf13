-- ===== src/HugeAddressMap/Random.antt =====
-- `ExponentialBiased` of tcmalloc/internal/exponential_biased.h: the generator of node priorities.
use tcmalloc.Base.{ℕ, ◌+◌, ◌*◌, ◌/◌, ◌%◌, ◌^◌}

-- `prng_mod_mask` keeps the low 48 bits; the product wraps at 64 bits.
unfoldable pub next_random : ℕ → ℕ
next_random rnd = (0x5DEECE66D * rnd + 0xB) % 2 ^ 64 % 2 ^ 48

-- The result is a uint32_t.
unfoldable pub get_random : ℕ → ℕ
get_random rnd = rnd / 2 ^ 16 % 2 ^ 32
