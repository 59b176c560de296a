-- ===== src/Outgoing/Tests.antt =====
-- A packet with two bytes of payload, as it goes out the first time; and one of two fragments whose
-- first was acknowledged.
use zeq_server_trilogy.Common.{
  ◌<◌, ◌^◌, ℕ, zero, suc, ◌+◌, ◌≡◌, ◌≤◌, refl, true, false, Option, none, some, List, [], ◌∷◌, ◌++◌,
  map, length, replicate, get_elem?, arith,
}
use zeq_server_trilogy.Aligned.{Aligned, store, write_uint32}
use zeq_server_trilogy.Aligned.RoundTrip.{Holds}
use zeq_server_trilogy.Packet.{TlgPacket, fragmentize, calc_length_and_frag_count}
use zeq_server_trilogy.Ack.{cmp, to_host_uint16}
use zeq_server_trilogy.Ack.Send.{Wrapper, ack_init}
use zeq_server_trilogy.Ack.Recv.{Env}
use zeq_server_trilogy.Udp.{UdpClient}
use zeq_server_trilogy.Udp.Protocol.{recv_protocol, for_client}
use zeq_server_trilogy.Outgoing.{send_fragment, send_packet, send_queued_packets, Sending, Response}
use zeq_server_trilogy.Outgoing.Datagram.{datagram, send_fragment-datagram}
use zeq_server_trilogy.Outgoing.RoundTrip.{send_fragment-recv_protocol}
use zeq_server_trilogy.Outgoing.Delivered.{handed, answered}
use zeq_server_trilogy.Outgoing.Chunks.{Placed, chunks, joined}
use zeq_server_trilogy.Outgoing.Queue.{Job, Ready, all_expected}
use zeq_server_trilogy.Outgoing.Queued.{next_ack_of, due, send_queued_packets-first}
use zeq_server_trilogy.Outgoing.Spread.{payload_of, fragmentize-send_packet}
use zeq_server_trilogy.Outgoing.Fragments.{expected}

abbrev env : Env
env = record { queue_ok = true; data_ok = true; frags_ok = true; junk = λ _. 0; push_ok = true }

abbrev two : List ℕ
two = 7 ∷ 8 ∷ []

abbrev raw : List ℕ
raw = replicate 18 0 ++ two ++ replicate 4 0

abbrev packet : TlgPacket
packet = record {
  opcode = 0x1234;
  frag_count = 0;
  is_fragmentized = true;
  data_length = 2;
  ref_count = 1;
  bytes = raw;
}

abbrev wrapper : Wrapper
wrapper = record {
  header = 0x12;
  ack_request = 1;
  frag_group = 0;
  frag_count = 1;
  ack_counter_always_one = 1;
  ack_counter_request = 0;
  ack_timestamp = 0;
  packet = some packet;
}

abbrev client : UdpClient
client = record {
  ack_mgr = record ack_init {
    to_client = record (ack_init.to_client) { count = 1; queue = wrapper ∷ [] };
  };
}

-- The same queue in memory for two
abbrev roomy : UdpClient
roomy = record {
  ack_mgr = record ack_init {
    to_client = record (ack_init.to_client) { count = 1; queue = wrapper ∷ wrapper ∷ [] };
  };
}

abbrev lengths : Option (List (List ℕ) × UdpClient) → List ℕ
lengths none = []
lengths (some r) = map length r.0

-- The sizes of what goes out: the acknowledgement travels with the packet.
sizes : lengths (send_queued_packets (λ k. 1000 + k) (replicate 10 0) client) ≡ 18 ∷ []
unfolding send_queued_packets ack_init store write_uint32
sizes = refl

abbrev begin : Sending
begin = record {
  to_client = client.ack_mgr.to_client;
  response = Response.waiting;
  ticks = 0;
  datagrams = [];
}

begin_small : begin.to_client.next_seq_to_send < 2 ^ 16
unfolding ack_init
begin_small = omega arith

-- 600 bytes in two fragments, the first of them acknowledged: the length is not reduced by what is
-- skipped, and the write of the checksum is outside the packet.
abbrev large : Wrapper
large = record wrapper {
  header = 0x1a;
  frag_count = 2;
  packet = some (record packet { frag_count = 1; data_length = 600; bytes = replicate 644 0 });
}

resent : send_packet (λ k. 1000 + k) 1000 0 1 1 0 large begin ≡ none
unfolding send_packet store write_uint32 cmp
resent = refl

abbrev at_payload : Aligned
at_payload = record { cursor = 18; length = 24; buffer = raw }

two-Holds : Holds raw 18 two
two-Holds zero lt = refl
two-Holds (suc zero) lt = refl
two-Holds (suc (suc i)) lt = absurd (omega arith)

send_fragment-datagram_example :
    (a'' : Aligned) × (send_fragment wrapper at_payload 2 0x1234 (some 0x500) 0 3
      ≡ some (datagram wrapper two 0x1234 (some 0x500) 0 3, a''))
    × (a''.cursor ≡ 24)
    × (length a''.buffer ≡ 24)
    × ((j : ℕ) → a''.cursor ≤ j → get_elem? a''.buffer j ≡ get_elem? raw j)
send_fragment-datagram_example =
    send_fragment-datagram wrapper two 0x1234 (some 0x500) 0 3 at_payload (omega arith) two-Holds
      (omega arith) (omega arith) (omega arith)

send_fragment-recv_protocol_example :
    (d : List ℕ) × (a' : Aligned) × (send_fragment wrapper at_payload 2 0x1234 (some 0x500) 0 3
      ≡ some (d, a'))
    × (recv_protocol env [] d (length d) false client
        ≡ for_client (answered (some 0x500) client) (λ c. handed env c 0x1234 1 0 two))
send_fragment-recv_protocol_example =
    send_fragment-recv_protocol env [] wrapper two 0x1234 (some 0x500) 0 3 false at_payload client
      (omega arith) two-Holds (omega arith) (omega arith) (omega arith) refl (omega arith)
      (omega arith) (omega arith) (omega arith) (λ _. omega arith) (λ _. refl) (omega arith)

abbrev big : TlgPacket
big = record {
  opcode = 0x1234;
  frag_count = 1;
  is_fragmentized = false;
  data_length = 600;
  ref_count = 0;
  bytes = replicate 18 0 ++ replicate 600 7 ++ replicate 26 0;
}

abbrev big_wrapper : Wrapper
big_wrapper = record wrapper { header = 0x1a; frag_count = 2; packet = fragmentize big }

fragmentize-send_packet_example :
    (w' : Wrapper) × (s' : Sending) × (send_packet
        (λ k. 1000 + k)
        1000
        0x500
        0
        0
        0
        big_wrapper
        begin
      ≡ some (w', s'))
    × (s'.datagrams ≡ expected big_wrapper 0x1234 (some 0x500) 0 0 (chunks (payload_of big) 2 0))
    × (joined (chunks (payload_of big) 2 0) ≡ payload_of big)
unfolding calc_length_and_frag_count ack_init
fragmentize-send_packet_example =
    fragmentize-send_packet big (omega arith) (omega arith) refl refl (omega arith) (omega arith)
      (λ k. 1000 + k) 1000 0x500 0 0 0 big_wrapper begin (omega arith) refl refl (omega arith)
      begin_small

abbrev job : Job
job = record { wrapper = wrapper; packet = packet; payload = two }

two-Placed : Placed raw two
two-Placed zero lt = refl
two-Placed (suc zero) lt = refl
two-Placed (suc (suc i)) lt = absurd (omega arith)

job-Ready : Ready job
job-Ready = record {
  there = refl;
  one = omega arith;
  size = refl;
  placed = two-Placed;
  parts = omega arith;
  some_left = omega arith;
  full = omega arith;
  within = omega arith;
  small = omega arith;
}

send_queued_packets-first_example :
    (ws : List Wrapper) × (c' : UdpClient) × (send_queued_packets (λ k. 1000 + k) [] roomy
      ≡ some (
        all_expected
            (to_host_uint16 (next_ack_of roomy))
            (job ∷ [])
            begin.to_client.next_seq_to_send
            (due roomy),
        c',
      ))
    × (c'.ack_mgr.to_client.send_from_index ≡ 1)
    × (c'.ack_mgr.to_client.queue ≡ ws ++ wrapper ∷ [])
    × (length ws ≡ 1)
    × (c'.ack_mgr.to_server.last_ack_sent ≡ next_ack_of roomy)
unfolding ack_init
send_queued_packets-first_example =
    send_queued_packets-first (λ k. 1000 + k) [] roomy job [] (wrapper ∷ []) refl refl refl
      begin_small (job-Ready, tt)
