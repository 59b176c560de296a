-- ===== src/Ipv4/Tests.antt =====
-- An address of a home network
use zeq_server_trilogy.Common.{◌≡◌, ◌↔◌, true, arith}
use zeq_server_trilogy.Ipv4.{ip_is_local}
use zeq_server_trilogy.Ipv4.Subnets.{address, IsLocal, ip_is_local-IsLocal}

ip_is_local-IsLocal_example : (ip_is_local (address 172 20 1 5) ≡ true) ↔ IsLocal 172 20 1 5
ip_is_local-IsLocal_example =
    ip_is_local-IsLocal 172 20 1 5 (omega arith) (omega arith) (omega arith) (omega arith)
