-- ===== src/Crc.antt =====
-- src/crc.c: the checksum at the end of every UDP packet, and that of the player profile, by a table of
-- 256 words.
mod Table
mod Linear
mod Bitwise
mod Tests
use zeq_server_trilogy.Common.{
  ℕ, zero, suc, ◌+◌, ◌-◌, ◌*◌, ◌/◌, ◌%◌, ◌^◌, bit_and, bit_xor, List, [], ◌∷◌, get_or, ◌==◌,
  if◌then◌else◌, u8,
}
use Table.{crc_table}

-- `crc_update`: a byte of `data` is below 256, so the index is inside the table.
unfoldable pub crc_update : List ℕ → ℕ → ℕ
crc_update [] crc = crc
crc_update (b ∷ bs) crc =
    crc_update bs (bit_xor (crc / 2 ^ 8) (get_or crc_table (bit_xor b (bit_and crc 0xff)) 0))

-- `~` on 32 bits
abbrev pub complement : ℕ → ℕ
complement x = 2 ^ 32 - 1 - x

-- The bytes of a `uint32_t` in memory
abbrev pub bytes_of_key : ℕ → List ℕ
bytes_of_key key = u8 key ∷ u8 (key / 2 ^ 8) ∷ u8 (key / 2 ^ 16) ∷ u8 (key / 2 ^ 24) ∷ []

-- `crc_calc32`
unfoldable pub crc_calc32 : List ℕ → ℕ
unfolding crc_update
crc_calc32 bytes = complement (crc_update bytes 0xffffffff)

-- `crc_calc16`
unfoldable pub crc_calc16 : List ℕ → ℕ → ℕ
unfolding crc_update
crc_calc16 bytes key =
    if key == 0
    then 0
    else bit_and (complement (crc_update bytes (crc_update (bytes_of_key key) 0xffffffff))) 0xffff

-- `to_network_uint32` of the C library, on the little-endian machines that the server runs on
abbrev pub to_network_uint32 : ℕ → ℕ
to_network_uint32 x =
    x % 256 * 2 ^ 24 + x / 2 ^ 8 % 256 * 2 ^ 16 + x / 2 ^ 16 % 256 * 2 ^ 8 + x / 2 ^ 24

unfoldable pub crc_calc32_network : List ℕ → ℕ
unfolding crc_calc32
crc_calc32_network bytes = to_network_uint32 (crc_calc32 bytes)
