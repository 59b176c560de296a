-- ===== src/Bit/Tests.antt =====
-- Powers of two at concrete words.
use zeq_server_trilogy.Common.{◌+◌, ◌≤◌, ◌<◌, ◌≡◌, ◌↔◌, refl, true, arith}
use zeq_server_trilogy.Bit.{is_pow2, pow2_greater_than_u32, pow2_greater_or_equal_u32}
use zeq_server_trilogy.Bit.Powers.{
  IsPow2, is_pow2_iff, pow2_greater_or_equal_lem, pow2_greater_than_lem,
}

is_pow2_iff_example : (is_pow2 96 ≡ true) ↔ IsPow2 96
is_pow2_iff_example = is_pow2_iff 96 (omega arith)

pow2_greater_or_equal_lem_example :
    IsPow2 (pow2_greater_or_equal_u32 100)
    × (100 ≤ pow2_greater_or_equal_u32 100)
    × (pow2_greater_or_equal_u32 100 < 100 + 100)
pow2_greater_or_equal_lem_example = pow2_greater_or_equal_lem 100 (omega arith) (omega arith)

pow2_greater_than_lem_example :
    IsPow2 (pow2_greater_than_u32 64)
    × (64 < pow2_greater_than_u32 64)
    × (pow2_greater_than_u32 64 ≤ 64 + 64)
pow2_greater_than_lem_example = pow2_greater_than_lem 64 (omega arith) (omega arith)

-- The next power of 100, and the one above 64
next_of_100 : pow2_greater_or_equal_u32 100 ≡ 128
unfolding pow2_greater_or_equal_u32
next_of_100 = refl

above_64 : pow2_greater_than_u32 64 ≡ 128
unfolding pow2_greater_than_u32
above_64 = refl
