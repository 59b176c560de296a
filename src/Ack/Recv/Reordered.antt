-- ===== src/Ack/Recv/Reordered.antt =====
-- What happens when the network reorders: two packets swapped, and a packet that comes very late.
use zeq_server_trilogy.Common.{
  ℕ, zero, suc, ◌+◌, ◌-◌, ◌^◌, ◌<◌, ◌≡◌, refl, ap, ◌∙◌, some, List, [], ◌∷◌, length, arith, u16,
  u32, ◌==◌, true, false, Bool-cases, inl, inr, ==_iff, replicate, leb, if◌then◌else◌, dec_lt,
}
use zeq_server_trilogy.Ack.{past, future, cmp, ToServer, ServerPacket, empty_slot}
use zeq_server_trilogy.Ack.Compare.{cmp_self, cmp_ahead, cmp_behind}
use zeq_server_trilogy.Bit.{pow2_greater_than_u32}
use zeq_server_trilogy.Ack.Recv.{
  Env, recv_packet, add_packet, grow, grown_capacity, grow_then_add, scan, scan_round,
  drop_completed, get_keep_alive_ack,
}
use zeq_server_trilogy.Ack.Recv.InOrder.{recv_past}

-- Nothing is waiting in the queue, and it starts at the expected number.
pub record IsIdle (s : ToServer) : Type 0 where
  pub start : s.lowest_ack_in_queue ≡ s.next_ack_request_expected
  pub none_waiting : s.count ≡ 0
  pub zeroed : s.queue ≡ replicate s.capacity empty_slot

-- The allocator and the queue to the server answer every request.
abbrev pub AllOk : Env → Type 0
AllOk env =
    (env.queue_ok ≡ true) × (env.data_ok ≡ true) × (env.frags_ok ≡ true) × (env.push_ok ≡ true)

-- A packet in slot 1 of an empty queue waits: nothing is delivered, and yet the expected number
-- goes up.
add_second :
    (env : Env) (s : ToServer) (rest : List ServerPacket) (p : ServerPacket)
    → AllOk env
    → s.count ≡ 0
    → s.queue ≡ empty_slot ∷ empty_slot ∷ rest
    → add_packet env s 1 p
      ≡ some (
        record s {
          next_ack_request_expected = u16 (s.next_ack_request_expected + 1);
          count = 1;
          queue = empty_slot ∷ p ∷ rest;
        },
        [],
      )
unfolding add_packet scan scan_round drop_completed
add_second env s rest p ok c q = rw (ok.1, c, q) (ground arith)

-- The state after the number that was expected in the first state has been given up.
pub record Skipped (s s' : ToServer) : Type 0 where
  pub expected : s'.next_ack_request_expected ≡ s.next_ack_request_expected + 1
  pub sent : s'.last_ack_sent ≡ s.last_ack_sent

abbrev packet : ℕ → ℕ → ℕ → List ℕ → ServerPacket
packet opcode ack frag payload = record {
  ack_request = ack;
  frag_count = frag;
  opcode = opcode;
  length = length payload;
  payload = payload;
}

-- A packet from the future goes to the queue.
recv_future :
    (env : Env) (s : ToServer) (opcode ack frag : ℕ) (payload : List ℕ)
    → cmp ack s.next_ack_request_expected ≡ future
    → let diff = u32 (ack + 2 ^ 32 - s.lowest_ack_in_queue) in
      let p = packet opcode ack frag payload in
      recv_packet env s opcode ack frag payload
      ≡ (if leb s.capacity diff then grow_then_add env s diff p else add_packet env s diff p)
unfolding recv_packet
recv_future env s opcode ack frag payload h =
    elim (Bool-cases (ack == s.next_ack_request_expected)) [
      | inl e ↦
          let e' : ack ≡ s.next_ack_request_expected =
            (==_iff ack s.next_ack_request_expected).0 e in
          cc (
            ap (λ (a : ℕ). cmp a s.next_ack_request_expected) e',
            cmp_self s.next_ack_request_expected,
          )
      | inr ne ↦ rw (ne, h)
    ]

grown_two : grown_capacity 1 ≡ 2
unfolding grown_capacity pow2_greater_than_u32
grown_two = refl

grow_then_add_second :
    (env : Env) (s : ToServer) (p : ServerPacket)
    → env.queue_ok ≡ true
    → s.count ≡ 0
    → grow_then_add env s 1 p
      ≡ add_packet env (record s { capacity = 2; queue = empty_slot ∷ empty_slot ∷ [] }) 1 p
unfolding grow_then_add grow scan scan_round
grow_then_add_second env s p ok c = simp (grown_two, ok, c)

two_empty :
    (n : ℕ)
    → 1 < n
    → (k : ℕ) × (replicate n empty_slot ≡ empty_slot ∷ empty_slot ∷ replicate k empty_slot)
two_empty zero h = absurd (omega arith)
two_empty (suc zero) h = absurd (omega arith)
two_empty (suc (suc n)) h = (n, refl)

-- The state with a packet waiting in slot 1
abbrev waiting : ToServer → ℕ → ServerPacket → List ServerPacket → ToServer
waiting s room p rest = record s {
  next_ack_request_expected = u16 (s.next_ack_request_expected + 1);
  count = 1;
  capacity = room;
  queue = empty_slot ∷ p ∷ rest;
}

recv_next_first :
    (env : Env) (s : ToServer) (opcode : ℕ) (payload : List ℕ)
    → AllOk env
    → IsIdle s
    → s.next_ack_request_expected + 1 < 2 ^ 16
    → (s' : ToServer) × (recv_packet env s opcode (s.next_ack_request_expected + 1) 0 payload
        ≡ some (s', []))
      × Skipped s s'
recv_next_first env s opcode payload ok idle h =
    let e = s.next_ack_request_expected in
    let p = packet opcode (e + 1) 0 payload in
    let ahead =
      recv_future env s opcode (e + 1) 0 payload
        (cmp_ahead (e + 1) e (omega arith) (omega arith)) in
    let start = idle.start in
    let diff : u32 (e + 1 + 2 ^ 32 - s.lowest_ack_in_queue) ≡ 1 = omega arith in
    let skipped : (room : ℕ) (rest : List ServerPacket) → Skipped s (waiting s room p rest) =
      λ room rest. record { expected = omega arith; sent = refl } in
    elim (dec_lt 1 s.capacity) [
      | yes room ↦
          let has_room : leb s.capacity 1 ≡ false = ground arith in
          let (k, empty) = two_empty s.capacity room in
          let rest = replicate k empty_slot in
          (
            waiting s s.capacity p rest,
            ahead
                ∙ rw (diff, has_room)
                    (add_second env s rest p ok idle.none_waiting (idle.zeroed ∙ empty)),
            skipped s.capacity rest,
          )
      | no none_left ↦
          let full : leb s.capacity 1 ≡ true = ground arith in
          let grown = record s { capacity = 2; queue = empty_slot ∷ empty_slot ∷ [] } in
          (
            waiting s 2 p [],
            ahead
                ∙ rw (diff, full)
                    (grow_then_add_second env s p ok.0 idle.none_waiting
                      ∙ add_second env grown [] p ok idle.none_waiting refl),
            skipped 2 [],
          )
    ]

keep_alive_lem :
    (s : ToServer) (n : ℕ)
    → s.next_ack_request_expected ≡ n + 1
    → n + 1 < 2 ^ 16
    → (get_keep_alive_ack s).0 ≡ n
unfolding get_keep_alive_ack
keep_alive_lem s n e h =
    let same : u16 (s.next_ack_request_expected + 2 ^ 16 - 1) ≡ n = omega arith in
    elim (Bool-cases (s.last_ack_sent == n)) [
      | inl sent ↦ rw (same, sent) ((==_iff s.last_ack_sent n).0 sent)
      | inr unsent ↦ rw (same, unsent)
    ]

-- From an idle queue, when allocation and delivery always succeed and the numbers do not wrap
-- around: if packet e + 1 arrives while e is expected, then nothing is delivered and e + 1 is
-- expected; the packet with number e, when it arrives next, is ignored whatever it holds; and a
-- keep-alive answers with e, so the client is told that e has arrived.
pub recv_swapped :
    (env : Env) (s : ToServer) (opcode : ℕ) (payload : List ℕ)
    → AllOk env
    → IsIdle s
    → s.next_ack_request_expected + 1 < 2 ^ 16
    → (s' : ToServer) × (recv_packet env s opcode (s.next_ack_request_expected + 1) 0 payload
        ≡ some (s', []))
      × (s'.next_ack_request_expected ≡ s.next_ack_request_expected + 1)
      × ((opcode' frag : ℕ) (payload' : List ℕ)
          → recv_packet env s' opcode' s.next_ack_request_expected frag payload' ≡ some (s', []))
      × ((get_keep_alive_ack s').0 ≡ s.next_ack_request_expected)
recv_swapped env s opcode payload ok idle h =
    let e = s.next_ack_request_expected in
    let (s', first, skip) = recv_next_first env s opcode payload ok idle h in
    let next = skip.expected in
    let behind : cmp e s'.next_ack_request_expected ≡ past =
      cmp_behind e s'.next_ack_request_expected (omega arith) (omega arith) in
    (
      s',
      first,
      next,
      λ opcode' frag payload'. recv_past env s' opcode' e frag payload' behind,
      keep_alive_lem s' e next h,
    )
