-- ===== src/Ack/Recv/Tests.antt =====
-- Packets from the client, on concrete states.
use zeq_server_trilogy.Common.{
  ℕ, ◌+◌, ◌≤◌, ◌<◌, ◌≡◌, ◌↔◌, inl, inr, ◌-◌, ◌^◌, refl, true, some, List, [], ◌∷◌, arith, u16,
}
use zeq_server_trilogy.Ack.{past, present, future, cmp, ToServer, Delivery}
use zeq_server_trilogy.Ack.Compare.{cmp_window}
use zeq_server_trilogy.Ack.Recv.Joined.{Idle}
use zeq_server_trilogy.Ack.Recv.Stream.{recv_fragments, recv_fragments-Idle}
use zeq_server_trilogy.Ack.Recv.{Env, recv_packet, get_keep_alive_ack}
use zeq_server_trilogy.Ack.Recv.InOrder.{recv_numbers, Arrivals, consecutive, recv_numbers-Arrivals}
use zeq_server_trilogy.Ack.Recv.Reordered.{IsIdle, recv_swapped}

abbrev works : Env
works = record { queue_ok = true; data_ok = true; frags_ok = true; junk = λ _. 0; push_ok = true }

-- Number 5 is expected, and nothing waits.
abbrev fresh : ToServer
fresh = record {
  next_ack_request_expected = 5;
  last_ack_sent = 4;
  last_ack_received = 0;
  lowest_ack_in_queue = 5;
  count = 0;
  capacity = 0;
  queue = [];
}

fresh-IsIdle : IsIdle fresh
fresh-IsIdle = record { start = refl; none_waiting = refl; zeroed = refl }

abbrev sent : ℕ → Delivery
sent k = record { opcode = k + 1; payload = k ∷ [] }

-- 5 arrives, then 4 and 5 again, then 6.
abbrev arrived : List ℕ
arrived = 5 ∷ 4 ∷ 5 ∷ 6 ∷ []

arrived-Arrivals : Arrivals 5 arrived 7
unfolding Arrivals
arrived-Arrivals =
    inl (refl, inr (omega arith, omega arith, inr (omega arith, omega arith, inl (refl, refl))))

recv_numbers-Arrivals_example :
    (s' : ToServer) × (recv_numbers works fresh sent arrived ≡ some (s', consecutive sent 5 2))
    × (s'.next_ack_request_expected ≡ 7)
    × (s'.queue ≡ [])
    × (s'.count ≡ 0)
    × (s'.last_ack_sent ≡ 4)
recv_numbers-Arrivals_example =
    recv_numbers-Arrivals works fresh sent arrived 7 refl (λ k. omega arith) (omega arith)
      arrived-Arrivals

-- The comparison behind the wrap: 3 is 9 ahead of 65530.
cmp_window_example :
    let d = u16 (3 + 2 ^ 16 - 65530) in
    ((d ≡ 0) ↔ (cmp 3 65530 ≡ present))
    × (0 < d → d < 1024 → cmp 3 65530 ≡ future)
    × (2 ^ 16 ≤ d + 1024 → cmp 3 65530 ≡ past)
cmp_window_example = cmp_window 3 65530 (omega arith) (omega arith)

recv_swapped_example :
    (s' : ToServer) × (recv_packet works fresh 7 (5 + 1) 0 (1 ∷ []) ≡ some (s', []))
    × (s'.next_ack_request_expected ≡ 5 + 1)
    × ((opcode' frag : ℕ) (payload' : List ℕ)
        → recv_packet works s' opcode' 5 frag payload' ≡ some (s', []))
    × ((get_keep_alive_ack s').0 ≡ 5)
recv_swapped_example =
    recv_swapped works fresh 7 (1 ∷ []) (refl, refl, refl, refl) fresh-IsIdle (omega arith)

abbrev one_byte : ℕ → List ℕ
one_byte k = k ∷ []

fresh-Idle : Idle fresh 5
fresh-Idle = record {
  expected = refl;
  lowest = refl;
  count = refl;
  free = λ j lt. elim lt [ ];
  size = refl;
}

recv_fragments-Idle_example :
    (s' : ToServer) × (recv_fragments 5 3 0x1234 one_byte fresh 0 3
      ≡ some (s', record { opcode = 0x1234; payload = 0 ∷ 1 ∷ 2 ∷ [] } ∷ []))
    × Idle s' 8
recv_fragments-Idle_example =
    recv_fragments-Idle 5 3 0x1234 one_byte (omega arith) (omega arith) (omega arith) (omega arith)
      fresh (omega arith) (omega arith) fresh-Idle
