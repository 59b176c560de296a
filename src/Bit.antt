-- ===== src/Bit.antt =====
-- src/bit.c and src/bit.h: powers of two in `uint32_t`, which size every growing array of the server.
mod Smear
pub mod Powers
mod Tests
use zeq_server_trilogy.Common.{
  ℕ, ◌+◌, ◌-◌, ◌*◌, ◌/◌, ◌^◌, bit_and, bit_or, Bool, not, ◌&&◌, ◌||◌, ◌==◌, if◌then◌else◌, u32,
}

-- `n - 1` is taken in `uint32_t`; at 0 the conjunction is false without it.
unfoldable pub is_pow2 : ℕ → Bool
is_pow2 n = not (n == 0) && bit_and n (n - 1) == 0

unfoldable pub is_pow2_or_zero : ℕ → Bool
is_pow2_or_zero n = n == 0 || bit_and n (n - 1) == 0

-- The five rounds of `n |= n >> s`.
unfoldable pub smear1 : ℕ → ℕ
smear1 n = bit_or n (n / 2 ^ 1)

unfoldable pub smear2 : ℕ → ℕ
unfolding smear1
smear2 n = let m = smear1 n in bit_or m (m / 2 ^ 2)

unfoldable pub smear4 : ℕ → ℕ
unfolding smear2
smear4 n = let m = smear2 n in bit_or m (m / 2 ^ 4)

unfoldable pub smear8 : ℕ → ℕ
unfolding smear4
smear8 n = let m = smear4 n in bit_or m (m / 2 ^ 8)

unfoldable pub smear16 : ℕ → ℕ
unfolding smear8
smear16 n = let m = smear8 n in bit_or m (m / 2 ^ 16)

unfoldable pub next_pow2_u32 : ℕ → ℕ
unfolding smear16
next_pow2_u32 n = u32 (smear16 (u32 (n + 2 ^ 32 - 1)) + 1)

unfoldable pub pow2_greater_than_u32 : ℕ → ℕ
unfolding is_pow2 next_pow2_u32
pow2_greater_than_u32 n = if is_pow2 n then u32 (n * 2) else next_pow2_u32 n

unfoldable pub pow2_greater_or_equal_u32 : ℕ → ℕ
unfolding is_pow2 next_pow2_u32
pow2_greater_or_equal_u32 n = if is_pow2 n then n else next_pow2_u32 n
