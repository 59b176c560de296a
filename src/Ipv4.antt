-- ===== src/Ipv4.antt =====
-- src/util_ipv4.c: the addresses of local networks. An address is in network order, its first number
-- in the lowest byte.
mod Subnets
mod Tests
use zeq_server_trilogy.Common.{ℕ, ◌*◌, ◌^◌, bit_and, bit_or, Bool, ◌||◌, ◌==◌}

-- The macro `make_ip`
abbrev pub make_ip : ℕ → ℕ → ℕ → ℕ → ℕ
make_ip a b c d =
    bit_or
      (bit_or (bit_or (bit_and a 0xff) (bit_and (b * 2 ^ 8) 0xff00))
        (bit_and (c * 2 ^ 16) 0xff0000))
      (bit_and (d * 2 ^ 24) 0xff000000)

unfoldable pub ip_is_local : ℕ → Bool
ip_is_local ip =
    ip == make_ip 127 0 0 1
    || bit_and ip 0x0000ffff == make_ip 192 168 0 0
    || bit_and ip 0x000000ff == make_ip 10 0 0 0
    || bit_and ip 0x0000f0ff == make_ip 172 16 0 0
