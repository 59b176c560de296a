-- ===== src/Crc/Tests.antt =====
-- The check value of the CRC-32, that of the digits 1 to 9.
use zeq_server_trilogy.Common.{ℕ, ◌≡◌, refl, arith, List, [], ◌∷◌}
use zeq_server_trilogy.Crc.{crc_calc32, complement}
use zeq_server_trilogy.Crc.Table.{crc_table}
use zeq_server_trilogy.Crc.Bitwise.{remainder, crc_calc32-remainder}

abbrev digits : List ℕ
digits = 49 ∷ 50 ∷ 51 ∷ 52 ∷ 53 ∷ 54 ∷ 55 ∷ 56 ∷ 57 ∷ []

check_value : crc_calc32 digits ≡ 0xcbf43926
unfolding crc_calc32 crc_table
check_value = refl

abbrev two_bytes : List ℕ
two_bytes = 7 ∷ 255 ∷ []

crc_calc32-remainder_example : crc_calc32 two_bytes ≡ complement (remainder two_bytes 0xffffffff)
crc_calc32-remainder_example = crc_calc32-remainder two_bytes (omega arith, (omega arith, tt))
