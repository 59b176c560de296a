-- ===== src/Ack/Send/Tests.antt =====
-- Packets to the client, on concrete queues.
use zeq_server_trilogy.Common.{
  ℕ, ◌+◌, ◌-◌, ◌≡◌, inl, inr, refl, true, false, some, List, [], ◌∷◌, ◌++◌, take, arith,
}
use zeq_server_trilogy.Packet.{TlgPacket}
use zeq_server_trilogy.Ack.{to_host_uint16}
use zeq_server_trilogy.Ack.Send.{
  Wrapper, ToClient, AckMgr, Memory, queue_packet, packets, recv_ack_response,
}
use zeq_server_trilogy.Ack.Send.Queue.{live, queue_packet-live}
use zeq_server_trilogy.Growth.{HasPower}
use zeq_server_trilogy.Ack.Send.Schedule.{Scheduled, schedule_all, schedule_all-Scheduled}
use zeq_server_trilogy.Ack.Send.Dropped.{recv_ack_response_lem}

abbrev small : TlgPacket
small = record {
  opcode = 5;
  frag_count = 0;
  is_fragmentized = false;
  data_length = 0;
  ref_count = 0;
  bytes = [];
}

abbrev large : TlgPacket
large = record small { frag_count = 2 }

abbrev wrapper : ℕ → ℕ → Wrapper
wrapper ack frags = record {
  header = 0x12;
  ack_request = ack;
  frag_group = 0;
  frag_count = frags;
  ack_counter_always_one = 1;
  ack_counter_request = 0;
  ack_timestamp = 0;
  packet = some small;
}

abbrev found : Memory
found = record { ok = true; junk = wrapper 0 0 }

abbrev empty : ToClient
empty = record {
  next_seq_to_send = 0;
  next_ack_to_request = 0;
  next_frag_group = 0;
  ack_counter_always_one = 1;
  ack_counter_request = 0;
  send_from_index = 0;
  count = 0;
  queue = [];
}

-- Three packets, the one in the middle with three fragments
abbrev three : ToClient
three = record empty {
  next_ack_to_request = 6;
  count = 3;
  queue = wrapper 1 1 ∷ wrapper 2 3 ∷ wrapper 5 1 ∷ wrapper 0 0 ∷ [];
}

abbrev busy : AckMgr
busy = record {
  to_server = record {
    next_ack_request_expected = 0;
    last_ack_sent = 0;
    last_ack_received = 0;
    lowest_ack_in_queue = 0;
    count = 0;
    capacity = 0;
    queue = [];
  };
  to_client = three;
}

queue_packet-live_example :
    (q : List Wrapper) × (queue_packet found three (wrapper 6 1)
      ≡ some (record three { count = 3 + 1; queue = q }, true))
    × HasPower (3 + 1) q
    × (take (3 + 1) q ≡ live three ++ wrapper 6 1 ∷ [])
queue_packet-live_example =
    queue_packet-live found three (wrapper 6 1) refl (omega arith)
      (inr (2, omega arith, omega arith))

schedule_all-Scheduled_example :
    (t' : ToClient) × (ws : List Wrapper) × (schedule_all found
        (wrapper 0 0)
        empty
        (small ∷ large ∷ [])
      ≡ some t')
    × Scheduled empty (small ∷ large ∷ []) t' ws
schedule_all-Scheduled_example =
    schedule_all-Scheduled found (wrapper 0 0) empty (small ∷ large ∷ []) refl (inl refl)
      (omega arith) (omega arith)

recv_ack_response_lem_example :
    (mgr' : AckMgr) × (recv_ack_response (to_host_uint16 (2 + 3 - 1)) busy
      ≡ some (mgr', packets ((wrapper 1 1 ∷ []) ++ wrapper 2 3 ∷ [])))
    × (live mgr'.to_client ≡ wrapper 5 1 ∷ [])
    × (mgr'.to_client.send_from_index ≡ 0)
    × (mgr'.to_server.last_ack_received ≡ 2 + 3 - 1)
recv_ack_response_lem_example =
    recv_ack_response_lem busy 1 6 (wrapper 1 1 ∷ []) (wrapper 2 3) (wrapper 5 1 ∷ []) refl
      (omega arith) (refl, omega arith, (refl, omega arith, (refl, omega arith, refl)))
      (omega arith) (omega arith)
