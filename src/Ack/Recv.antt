-- ===== src/Ack/Recv.antt =====
-- The receiving half of src/ack_mgr.c: packets with an acknowledgement request are put in order, and
-- fragments are joined. `none` is an access outside the memory of the queue or of a buffer.
mod InOrder
mod Reordered
mod Copied
mod Joining
mod Joined
mod Fragments
mod Stream
mod Tests
use zeq_server_trilogy.Common.{
  ℕ, zero, suc, ◌+◌, ◌-◌, ◌^◌, Bool, true, false, ◌&&◌, not, ◌||◌, Option, none, some, List, [],
  ◌∷◌, ◌++◌, length, get_elem?, set, take, drop, replicate, ltb, leb, ◌==◌, if◌then◌else◌, u16, u32,
}
use zeq_server_trilogy.Bit.{pow2_greater_than_u32}
use zeq_server_trilogy.Ack.{
  AckComparison, past, present, future, cmp, ServerPacket, empty_slot, ToServer, Delivery,
}

-- What the allocator and the queue to the server answer during a call.
pub record Env : Type 0 where
  pub queue_ok : Bool  -- `realloc_array_type` of the packet queue
  pub data_ok : Bool  -- `alloc_bytes` of a payload
  pub frags_ok : Bool  -- `alloc_bytes` of a joined payload
  pub junk : ℕ → ℕ  -- the bytes of a new buffer, by place
  pub push_ok : Bool  -- the copy and the `ringbuf_push` of src/udp_client.c

-- `udpc_recv_packet`: an opcode of 0 is swallowed, a failure is logged and the packet dropped.
pub deliver : Env → ℕ → List ℕ → List Delivery
deliver env opcode payload =
    if opcode == 0 || not env.push_ok
    then []
    else record { opcode = opcode; payload = payload } ∷ []

pub is_past : AckComparison → Bool
is_past past = true
is_past present = false
is_past future = false

-- `ack_recv_sync`
pub recv_sync : ℕ → ToServer → ToServer
recv_sync ack_request s = record s {
  last_ack_sent = u16 (ack_request + 2 ^ 16 - 1);
  next_ack_request_expected = ack_request;
}

-- `ack_get_keep_alive_ack`, before the change to network order
pub get_keep_alive_ack : ToServer → ℕ × ToServer
get_keep_alive_ack s =
    let next_ack = u16 (s.next_ack_request_expected + 2 ^ 16 - 1) in
    if s.last_ack_sent == next_ack
    then (s.last_ack_sent, s)
    else (next_ack, record s { last_ack_sent = next_ack })

-- The locals of the loop that completes packets, with what it changes: `next_ack`, `diff`, `frags`,
-- `length`, the field `lowestAckInQueue`, the queue and what has been delivered.
pub record Scan : Type 0 where
  pub next_ack : ℕ
  pub lowest : ℕ
  pub diff : ℕ
  pub frags : ℕ
  pub length : ℕ
  pub queue : List ServerPacket
  pub out : List Delivery

abbrev pub prepend : List ℕ → Option (List ℕ) → Option (List ℕ)
prepend xs none = none
prepend xs (some ys) = some (xs ++ ys)

-- The writes of the fragments to a buffer with room for `room` bytes more: what is written. `none` is a
-- write behind the buffer, or a read from a payload that is shorter than it says, as when the
-- allocation of its memory has failed.
pub copied : ℕ → List ServerPacket → Option (List ℕ)
copied room [] = some []
copied room (p ∷ ps) =
    let rest = copied (room - p.length) ps in
    if ltb room p.length || ltb (length p.payload) p.length
    then none
    else prepend (take p.length p.payload) rest

-- `k` bytes of a new buffer, from place `j` on
pub unwritten : (ℕ → ℕ) → ℕ → ℕ → List ℕ
unwritten junk j zero = []
unwritten junk j (suc k) = junk j ∷ unwritten junk (j + 1) k

pub free_payloads : List ServerPacket → List ServerPacket
free_payloads [] = []
free_payloads (p ∷ ps) = record p { payload = [] } ∷ free_payloads ps

-- The buffer of `size` bytes is handed on, with what has been written to it at its start.
pub hand_on : Env → ℕ → ℕ → ℕ → ℕ → Scan → Option (List ℕ) → Option Scan
unfolding unwritten
hand_on env opcode size i k c none = none
hand_on env opcode size i k c (some bytes) = some (record c {
  queue = take i c.queue ++ (free_payloads (take k (drop i c.queue)) ++ drop (i + k) c.queue);
  out =
      c.out
      ++ deliver env opcode (bytes ++ unwritten env.junk (length bytes) (size - length bytes));
})

-- `ack_complete_fragments` with a buffer of `size` bytes, for the slots from `i` on, `k` of them
pub complete_fragments : Env → ℕ → ℕ → ℕ → ℕ → Scan → Option Scan
unfolding copied hand_on
complete_fragments env opcode size i k c =
    let bytes = copied size (take k (drop i c.queue)) in
    if env.frags_ok then hand_on env opcode size i k c bytes else some c

opcode_at : List ServerPacket → ℕ → ℕ
opcode_at q i = elim (get_elem? q i) [ none ↦ 0 | some p ↦ p.opcode ]

abbrev pub behind_group : ServerPacket → Option Scan → Option Scan
behind_group p none = none
behind_group p (some c) =
    some (record c {
      lowest = u16 (p.ack_request + 1);
      diff = c.diff + c.frags;
      frags = 0;
      length = 0;
    })

-- A fragment that is not the last of its group only counts; the last one completes the group.
pub scan_fragment : Env → ℕ → ServerPacket → Scan → Option Scan
unfolding complete_fragments opcode_at
scan_fragment env i p c =
    let c' = record c {
      next_ack = p.ack_request;
      frags = c.frags + 1;
      length = u32 (c.length + p.length);
    } in
    let first = i - c.frags in
    if c'.frags == p.frag_count
    then behind_group p
        (complete_fragments env (opcode_at c.queue first) c'.length first c'.frags c')
    else some c'

-- How a round of the loop ends: with a fault, with `break`, or so that the next one follows
pub data Round : Type 0 where
  fault : Round
  stop : Round
  go : Scan → Round

abbrev pub goes_on : Option Scan → Round
goes_on none = fault
goes_on (some c) = go c

-- One round of the loop at slot `i`
pub scan_round : Env → ℕ → ℕ → ServerPacket → Scan → Round
unfolding scan_fragment deliver
scan_round env n i p c =
    if p.ack_request == 0
    then stop
    else if p.frag_count == 0
    then go (record c {
      out = c.out ++ deliver env p.opcode p.payload;
      next_ack = p.ack_request;
      lowest = u16 (p.ack_request + 1);
      diff = c.diff + 1;
    })
    else if ltb n p.frag_count
    then stop
    else goes_on (scan_fragment env i p c)

-- `while (i < n)`: the rounds left are `n - i`.
pub scan : Env → ℕ → ℕ → ℕ → Scan → Option Scan
scan env n zero i c = some c
scan env n (suc left) i c = elim (get_elem? c.queue i) [
  | none ↦ none
  | some p ↦ elim (scan_round env n i p c) [
    | fault ↦ none
    | stop ↦ some c
    | go c' ↦ scan env n left (i + 1) c'
  ]
]

-- The queue after `memmove` and `memset`, and the number of packets in it
pub drop_completed : ℕ → Scan → ToServer → ToServer
drop_completed n c s =
    let s' = record s {
      next_ack_request_expected = u16 (c.next_ack + 1);
      lowest_ack_in_queue = c.lowest;
    } in
    if c.diff == 0 then record s' { count = u16 n; queue = c.queue } else record s' {
      count = u16 (n - c.diff);
      queue =
          take (n - c.diff) (drop c.diff c.queue)
          ++ (replicate c.diff empty_slot ++ drop n c.queue);
    }

-- The queue has the slot: fill it and complete what can be completed.
pub add_packet : Env → ToServer → ℕ → ServerPacket → Option (ToServer × List Delivery)
unfolding drop_completed
add_packet env s diff p = elim (get_elem? s.queue diff) [
  | none ↦ none
  | some old ↦
      if not (old.ack_request == 0)
      then some (s, [])
      else if not (p.length == 0) && not env.data_ok
      then some (record s { queue = set s.queue diff (record p { payload = [] }) }, [])
      else (let start : Scan = record {
        next_ack = s.next_ack_request_expected;
        lowest = s.lowest_ack_in_queue;
        diff = 0;
        frags = 0;
        length = 0;
        queue = set s.queue diff p;
        out = [];
      } in
          elim (scan env (s.count + 1) (s.count + 1) 0 start) [
            | none ↦ none
            | some c ↦ some (drop_completed (s.count + 1) c s, c.out)
          ])
]

-- The capacity asked for when the slot lies behind the array
pub grown_capacity : ℕ → ℕ
grown_capacity diff = pow2_greater_than_u32 (if diff == 0 then 1 else diff)

-- The array is made larger; the slots from `count` on are zeroed.
pub grow : ToServer → ℕ → ToServer
grow s cap = record s {
  capacity = u16 cap;
  queue = take s.count s.queue ++ replicate (cap - s.count) empty_slot;
}

-- `realloc` to 0 bytes frees the memory and returns a null pointer, so `packetQueue` dangles.
pub grow_then_add : Env → ToServer → ℕ → ServerPacket → Option (ToServer × List Delivery)
unfolding add_packet grow grown_capacity
grow_then_add env s diff p =
    let cap = grown_capacity diff in
    if cap == 0
    then some (record s { queue = [] }, [])
    else if env.queue_ok
    then add_packet env (grow s cap) diff p
    else some (s, [])

-- `ack_recv_packet`
pub recv_packet : Env → ToServer → ℕ → ℕ → ℕ → List ℕ → Option (ToServer × List Delivery)
unfolding add_packet grow_then_add deliver is_past
recv_packet env s opcode ack_request frag_count payload =
    let expected = s.next_ack_request_expected in
    let next = u16 (expected + 1) in
    let diff = u32 (ack_request + 2 ^ 32 - s.lowest_ack_in_queue) in
    let p : ServerPacket = record {
      ack_request = ack_request;
      frag_count = frag_count;
      opcode = opcode;
      length = length payload;
      payload = payload;
    } in
    if ack_request == expected && frag_count == 0
    then some (
      record s { next_ack_request_expected = next; lowest_ack_in_queue = next },
      deliver env opcode payload,
    )
    else if is_past (cmp ack_request expected)
    then some (s, [])
    else if leb s.capacity diff
    then grow_then_add env s diff p
    else add_packet env s diff p
