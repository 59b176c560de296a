-- ===== src/Ack/Send.antt =====
-- The sending half of src/ack_mgr.c: the queue of packets to the client, in the order they were
-- scheduled, until the client acknowledges them.
mod Queue
mod Schedule
mod Response
mod Dropped
pub mod Safe
mod Tests
use zeq_server_trilogy.Common.{
  ℕ, zero, suc, ◌+◌, ◌-◌, ◌*◌, ◌^◌, bit_or, Bool, true, false, Option, none, some, List, [], ◌∷◌,
  ◌++◌, map, length, take, drop, replicate, set, resize, ltb, leb, ◌==◌, ◌||◌, not, if◌then◌else◌,
  u8, u16, u32,
}
use zeq_server_trilogy.Ack.{AckComparison, past, present, future, cmp, to_host_uint16, ToServer}
use zeq_server_trilogy.Growth.{push}
use zeq_server_trilogy.Packet.{TlgPacket}

-- `AckMgrToClientPacket`; the packet is `none` for a null pointer.
pub record Wrapper : Type 0 where
  pub header : ℕ
  pub ack_request : ℕ
  pub frag_group : ℕ
  pub frag_count : ℕ
  pub ack_counter_always_one : ℕ
  pub ack_counter_request : ℕ
  pub ack_timestamp : ℕ
  pub packet : Option TlgPacket

-- `AckMgrToClient`; `queue` is the memory at `packetQueue`.
pub record ToClient : Type 0 where
  pub next_seq_to_send : ℕ
  pub next_ack_to_request : ℕ
  pub next_frag_group : ℕ
  pub ack_counter_always_one : ℕ
  pub ack_counter_request : ℕ
  pub send_from_index : ℕ
  pub count : ℕ
  pub queue : List Wrapper

pub record AckMgr : Type 0 where
  pub to_server : ToServer
  pub to_client : ToClient

-- `ack_init`
unfoldable pub ack_init : AckMgr
ack_init = record {
  to_server = record {
    next_ack_request_expected = 0;
    last_ack_sent = 0;
    last_ack_received = 0;
    lowest_ack_in_queue = 0;
    count = 0;
    capacity = 0;
    queue = [];
  };
  to_client = record {
    next_seq_to_send = 0;
    next_ack_to_request = 0;
    next_frag_group = 0;
    ack_counter_always_one = 1;
    ack_counter_request = 0;
    send_from_index = 0;
    count = 0;
    queue = [];
  };
}

-- What the memory has before it is written, and whether `realloc` finds any.
pub record Memory : Type 0 where
  pub ok : Bool
  pub junk : Wrapper

-- `ack_queue_to_client_packet`. The second result says whether the packet is queued; when it is not,
-- it is dropped. `none` is a write outside the memory of the queue.
pub queue_packet : Memory → ToClient → Wrapper → Option (ToClient × Bool)
unfolding push
queue_packet mem t w = elim (push mem.junk mem.ok t.count t.queue w) [
  | none ↦ none
  | some none ↦ some (t, false)
  | some (some q) ↦ some (record t { count = u32 (t.count + 1); queue = q }, true)
]

-- The first half of `ack_schedule_packet`: the wrapper, and the counters after it. The fields that
-- nothing sets keep what the stack had.
pub wrap : Wrapper → ToClient → TlgPacket → Bool → Wrapper × ToClient
wrap stack t p has_ack_request =
    let frag_count = u16 (p.frag_count + 1) in
    let first = if t.next_ack_to_request == 0 then 1 else t.next_ack_to_request in
    let acked = record stack {
      frag_count = frag_count;
      packet = some p;
      ack_request = first;
      ack_counter_always_one = t.ack_counter_always_one;
      ack_counter_request = t.ack_counter_request;
      header = bit_or 0x0002 0x0010;
    } in
    let t' = record t {
      next_ack_to_request = u16 (first + frag_count);
      ack_counter_request = u8 (t.ack_counter_request + 1);
    } in
    if has_ack_request || not (p.frag_count == 0)
    then if ltb 1 frag_count
      then (
        record acked {
          header = bit_or (bit_or 0x0002 0x0010) 0x0008;
          frag_group = t.next_frag_group;
        },
        record t' { next_frag_group = u16 (t.next_frag_group + 1) },
      )
      else (acked, t')
    else (record stack { frag_count = frag_count; packet = some p; header = 0 }, t)

-- `ack_schedule_packet`
pub schedule : Memory → Wrapper → ToClient → TlgPacket → Bool → Option (ToClient × Bool)
unfolding wrap queue_packet
schedule mem stack t p has_ack_request =
    queue_packet mem ((wrap stack t p has_ack_request).1) ((wrap stack t p has_ack_request).0)

-- The number that acknowledges all of a wrapper
pub last_ack_request : Wrapper → ℕ
last_ack_request w = u16 (w.ack_request + (w.frag_count + 2 ^ 16 - 1))

pub is_future : AckComparison → Bool
is_future past = false
is_future present = false
is_future future = true

abbrev pub one_more : Option ℕ → Option ℕ
one_more none = none
one_more (some i) = some (suc i)

-- The `for` of `ack_recv_ack_response` over the first `n` packets: how many it drops. `none` is a read
-- outside the memory of the queue.
pub acked : ℕ → ℕ → List Wrapper → Option ℕ
unfolding last_ack_request is_future
acked ack zero q = some 0
acked ack (suc n) [] = none
acked ack (suc n) (w ∷ q) =
    let rest = one_more (acked ack n q) in
    if is_future (cmp (last_ack_request w) ack) then some 0 else rest

pub packets : List Wrapper → List TlgPacket
packets [] = []
packets (w ∷ ws) = elim w.packet [ none ↦ packets ws | some p ↦ p ∷ packets ws ]

pub clear : List Wrapper → List Wrapper
clear [] = []
clear (w ∷ ws) = record w { packet = none } ∷ clear ws

-- The number is remembered.
abbrev pub remembered : ℕ → AckMgr → AckMgr
remembered ack mgr = record mgr { to_server = record (mgr.to_server) { last_ack_received = ack } }

-- `if (i > 0)`: the first `i` packets are given to `packet_drop`, in order, and the others moved to the
-- front. `none` is a move from outside the memory of the queue.
pub drop_acked : ℕ → AckMgr → Option (AckMgr × List TlgPacket)
unfolding packets clear
drop_acked i mgr =
    let t = mgr.to_client in
    let n = t.count - i in
    let q = clear (take i t.queue) ++ drop i t.queue in
    if ltb (length t.queue) t.count
    then none
    else some (
      record mgr {
        to_client = record t {
          count = n;
          send_from_index = 0;
          queue = take n (drop i q) ++ drop n q;
        };
      },
      packets (take i t.queue),
    )

-- With what the loop says
pub respond : ℕ → AckMgr → Option ℕ → Option (AckMgr × List TlgPacket)
unfolding drop_acked
respond ack mgr none = none
respond ack mgr (some i) =
    if i == 0 then some (remembered ack mgr, []) else drop_acked i (remembered ack mgr)

-- `ack_recv_ack_response`: the state after it, and the packets given to `packet_drop`, in order. The
-- argument is in network order. `none` is an access outside the memory of the queue.
pub recv_ack_response : ℕ → AckMgr → Option (AckMgr × List TlgPacket)
unfolding acked respond
recv_ack_response ack_network mgr =
    let ack = to_host_uint16 ack_network in
    respond ack mgr (acked ack mgr.to_client.count mgr.to_client.queue)

-- `ack_deinit`: what is left, the payloads that are freed, and the packets given to `packet_drop`
pub deinit : AckMgr → AckMgr × List (List ℕ) × List TlgPacket
unfolding packets
deinit mgr = (
  record mgr {
    to_server = record (mgr.to_server) { queue = [] };
    to_client = record (mgr.to_client) { queue = [] };
  },
  map (λ p. p.payload) (take mgr.to_server.count mgr.to_server.queue),
  packets (take mgr.to_client.count mgr.to_client.queue),
)

-- `ack_get_next_seq_to_send_and_increment`, before the change to network order
unfoldable pub get_next_seq_to_send_and_increment : ToClient → ℕ × ToClient
get_next_seq_to_send_and_increment t =
    (t.next_seq_to_send, record t { next_seq_to_send = u16 (t.next_seq_to_send + 1) })
