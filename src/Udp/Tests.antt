-- ===== src/Udp/Tests.antt =====
-- Datagrams to a client that has just connected.
use zeq_server_trilogy.Common.{
  ℕ, ◌≡◌, ◌≢◌, true, false, some, none, List, [], ◌∷◌, replicate, arith,
}
use zeq_server_trilogy.Ack.Send.{ack_init}
use zeq_server_trilogy.Ack.Recv.{Env}
use zeq_server_trilogy.Crc.{crc_calc32_network}
use zeq_server_trilogy.Udp.{UdpClient, ok, checked}
use zeq_server_trilogy.Udp.Protocol.{recv_protocol}
use zeq_server_trilogy.Udp.Handled.{recv_protocol-ne-none}
use zeq_server_trilogy.Udp.Checksum.{four_bytes, recv_protocol_checksum}

abbrev works : Env
works = record { queue_ok = true; data_ok = true; frags_ok = true; junk = λ _. 0; push_ok = true }

abbrev fresh : UdpClient
fresh = record { ack_mgr = ack_init }

abbrev stack : List ℕ
stack = replicate 10 0

-- A header with an acknowledgement request, and a wrong checksum
abbrev datagram : List ℕ
datagram = 0x22 ∷ 0 ∷ 0 ∷ 0 ∷ 0 ∷ 1 ∷ 5 ∷ 0 ∷ 9 ∷ 9 ∷ 9 ∷ 9 ∷ []

recv_protocol-ne-none_example : recv_protocol works stack datagram 12 true fresh ≢ none
unfolding ack_init
recv_protocol-ne-none_example =
    recv_protocol-ne-none works stack datagram 12 fresh (omega arith) (omega arith) (omega arith)
      (omega arith) (omega arith) (omega arith)

recv_protocol_checksum_example :
    let bytes : List ℕ = 0x22 ∷ 0 ∷ 0 ∷ 0 ∷ 0 ∷ 1 ∷ 5 ∷ 0 ∷ 9 ∷ 8 ∷ 7 ∷ 6 ∷ [] in
    let body : List ℕ = 0x22 ∷ 0 ∷ 0 ∷ 0 ∷ 0 ∷ 1 ∷ 5 ∷ 0 ∷ [] in
    (four_bytes 9 8 7 6 ≢ crc_calc32_network body
      → recv_protocol works stack bytes 12 false fresh ≡ some (false, fresh, []))
    × (four_bytes 9 8 7 6 ≡ crc_calc32_network body
        → checked bytes 12 ≡ ok tt (record { cursor = 0; length = 8; buffer = bytes }))
recv_protocol_checksum_example =
    recv_protocol_checksum works stack (0x22 ∷ 0 ∷ 0 ∷ 0 ∷ 0 ∷ 1 ∷ 5 ∷ 0 ∷ []) 9 8 7 6 false fresh
      (omega arith) (omega arith) (omega arith) (omega arith) (omega arith)
