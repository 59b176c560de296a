-- ===== src/Ack/Recv/Stream.antt =====
-- `ack_recv_packet` called with all fragments of a packet, in order
use mathlib.Core.List.{append-nil}
use zeq_server_trilogy.Common.{
  ℕ, zero, suc, ◌+◌, ◌-◌, ◌^◌, ◌≤◌, ◌<◌, ◌≡◌, ◌≢◌, ◌∷◌, inl, inr, refl, ap, ◌∙◌, subst, Option,
  none, some, List, [], ◌++◌, length, take, replicate, arith, u16, u32, leb, false, true, ◌==◌,
  length-append, length-replicate, length-take, Bool-cases,
}
use zeq_server_trilogy.Common.Places.{
  get_elem?-append_left, get_elem?-append_right, get_elem?-replicate, get_elem?-take,
}
use zeq_server_trilogy.Bit.Powers.{pow2_greater_than_lem}
use zeq_server_trilogy.Ack.{ServerPacket, ToServer, Delivery, empty_slot, cmp, present}
use zeq_server_trilogy.Ack.Compare.{cmp_self}
use zeq_server_trilogy.Ack.Recv.{
  deliver, add_packet, grow, grow_then_add, grown_capacity, recv_packet, is_past,
}
use zeq_server_trilogy.Ack.Recv.Copied.{works, fragment, opcode_of, whole}
use zeq_server_trilogy.Ack.Recv.Joined.{Waiting, Idle, add_packet-waits}
use zeq_server_trilogy.Ack.Recv.Fragments.{add_packet-joins}

delivers :
    (opcode : ℕ) (payload : List ℕ)
    → opcode ≢ 0
    → deliver works opcode payload ≡ record { opcode = opcode; payload = payload } ∷ []
unfolding deliver
delivers opcode payload named = let e : (opcode == 0) ≡ false = ground arith in rw (deliver, e)

module _ (first n opcode : ℕ) (piece : ℕ → List ℕ) where
  grow-Waiting :
      (s : ToServer) (k cap : ℕ)
      → Waiting first n opcode piece s k
      → s.capacity ≤ k
      → k < cap
      → cap < 2 ^ 16
      → Waiting first n opcode piece (grow s cap) k
  unfolding grow
  grow-Waiting s k cap r full more small =
      let old = length-take s.count s.queue in
      let new = length-replicate (cap - s.count) empty_slot in
      let long : length (take s.count s.queue) ≡ k = omega (arith, r.size, r.count, r.room) in
      record {
        expected = r.expected;
        lowest = r.lowest;
        count = r.count;
        filled = λ j lt.
            get_elem?-append_left (take s.count s.queue) (replicate (cap - s.count) empty_slot) j
              (omega arith)
            ∙ get_elem?-take s.count j s.queue (omega (arith, r.count))
            ∙ r.filled j lt;
        free = λ j le lt. (
          empty_slot,
          get_elem?-append_right (take s.count s.queue) (replicate (cap - s.count) empty_slot)
                (j - k) j (omega arith)
              ∙ get_elem?-replicate (cap - s.count) (j - k) empty_slot (omega (arith, r.count)),
          refl,
        );
        size =
            length-append (take s.count s.queue) (replicate (cap - s.count) empty_slot)
            ∙ omega (arith, r.count);
        room = omega arith;
      }

  grown : (k : ℕ) → k < 2 ^ 15 → (k < grown_capacity k) × (grown_capacity k < 2 ^ 16)
  unfolding grown_capacity
  grown zero h =
      let (p, lo, hi) = pow2_greater_than_lem 1 (omega arith) (omega arith) in
      (omega arith, omega arith)
  grown (suc k) h =
      let e : (suc k == 0) ≡ false = ground arith in
      let (p, lo, hi) = pow2_greater_than_lem (suc k) (omega arith) (omega arith) in
      rw (e) (omega arith, omega arith)

  grow_then_add-add_packet :
      (s : ToServer) (k : ℕ) (p : ServerPacket)
      → k < 2 ^ 15
      → grow_then_add works s k p ≡ add_packet works (grow s (grown_capacity k)) k p
  unfolding grow_then_add
  grow_then_add-add_packet s k p h =
      let e : (grown_capacity k == 0) ≡ false = ground (arith, grown k h) in rw (grow_then_add, e)

  -- The slot is there, in the queue as it is or in a larger one.
  recv_packet-add_packet :
      (s : ToServer) (k : ℕ)
      → Waiting first n opcode piece s k
      → k < n
      → n ≤ 2 ^ 15
      → first + n ≤ 2 ^ 16
      → (s1 : ToServer) × (recv_packet works s (opcode_of opcode k) (first + k) n (piece k)
          ≡ add_packet works s1 k (fragment first n opcode piece k))
        × Waiting first n opcode piece s1 k
        × (k < s1.capacity)
  unfolding recv_packet is_past grow
  recv_packet-add_packet s k r lt many last =
      let in_parts : (n == 0) ≡ false = ground arith in
      let now : (first + k == s.next_ack_request_expected) ≡ true = ground (arith, r.expected) in
      let same : cmp (first + k) s.next_ack_request_expected ≡ present =
        ap (cmp (first + k)) r.expected ∙ cmp_self (first + k) in
      let place : u32 (first + k + 2 ^ 32 - s.lowest_ack_in_queue) ≡ k = omega (arith, r.lowest) in
      let p = fragment first n opcode piece k in
      elim (Bool-cases (leb s.capacity k)) [
        | inl full ↦
            let (lo, hi) = grown k (omega arith) in
            let le : s.capacity ≤ k = ground (arith, full) in
            (
              grow s (grown_capacity k),
              rw (recv_packet, now, in_parts, same, place, full)
                  (grow_then_add-add_packet s k p (omega arith)),
              grow-Waiting s k (grown_capacity k) r le lo hi,
              omega (arith, lo, hi),
            )
        | inr there ↦
            (s, rw (recv_packet, now, in_parts, same, place, there), r, ground (arith, there))
      ]

  -- The fragments from number `k` on, `m` of them
  abbrev pub recv_fragments : ToServer → ℕ → ℕ → Option (ToServer × List Delivery)
  recv_fragments s k zero = some (s, [])
  recv_fragments s k (suc m) =
      elim (recv_packet works s (opcode_of opcode k) (first + k) n (piece k)) [
        | none ↦ none
        | some (s', out) ↦ elim (recv_fragments s' (k + 1) m) [
          | none ↦ none
          | some (s'', out') ↦ some (s'', out ++ out')
        ]
      ]

  module _ (nonzero : 0 < first) (many : n ≤ 2 ^ 15) (last : first + n ≤ 2 ^ 16)
      (fits : length (whole piece 0 n) < 2 ^ 32) where
    recv_fragments-step :
        (s s' : ToServer) (k m : ℕ) (out : List Delivery) (s'' : ToServer) (out' : List Delivery)
        → recv_packet works s (opcode_of opcode k) (first + k) n (piece k) ≡ some (s', out)
        → recv_fragments s' (k + 1) m ≡ some (s'', out')
        → recv_fragments s k (suc m) ≡ some (s'', out ++ out')
    recv_fragments-step s s' k m out s'' out' run rest = rw (recv_fragments, run, rest)

    recv_fragments-Waiting :
        (m : ℕ) (s : ToServer) (k : ℕ)
        → Waiting first n opcode piece s k
        → k + suc m ≡ n
        → (s' : ToServer) × (recv_fragments s k (suc m)
            ≡ some (s', deliver works opcode (whole piece 0 n)))
          × Idle s' (u16 (first + n))
    recv_fragments-Waiting zero s k r total =
        let (s1, step, r1, inside) = recv_packet-add_packet s k r (omega arith) many last in
        let (s', run, idle) =
          add_packet-joins first n opcode piece nonzero last fits s1 k r1 (omega arith) inside in
        (
          s',
          recv_fragments-step s s' k zero _ s' [] (step ∙ run) refl
              ∙ ap (λ (out : List Delivery). some (s', out)) (append-nil _),
          idle,
        )
    recv_fragments-Waiting (suc m) s k r total =
        let (s1, step, r1, inside) = recv_packet-add_packet s k r (omega arith) many last in
        let (s2, run, r2) =
          add_packet-waits first n opcode piece nonzero last s1 k r1 inside (omega arith) in
        let (s', rest, idle) = recv_fragments-Waiting m s2 (k + 1) r2 (omega arith) in
        (s', recv_fragments-step s s2 k (suc m) [] s' _ (step ∙ run) rest, idle)

    -- All fragments of a packet arrive in order at a client for which nothing waits, the first with the
    -- number that is expected, which is not 0, and an opcode that is not 0, the last with a number below
    -- 2^16, fewer than 2^32 bytes in all, and memory and queues have room: one delivery is made, with that
    -- opcode and the payloads joined in order, nothing before that, and then nothing waits and the number
    -- behind the fragments is expected.
    pub recv_fragments-Idle :
        (s : ToServer)
        → 0 < n
        → opcode ≢ 0
        → Idle s first
        → (s' : ToServer) × (recv_fragments s 0 n
            ≡ some (s', record { opcode = opcode; payload = whole piece 0 n } ∷ []))
          × Idle s' (u16 (first + n))
    recv_fragments-Idle s parts named idle =
        let e : suc (n - 1) ≡ n = omega arith in
        let r : Waiting first n opcode piece s 0 = record {
          expected = omega (arith, idle.expected);
          lowest = idle.lowest;
          count = idle.count;
          filled = λ j lt. elim lt [ ];
          free = λ j le lt. idle.free j lt;
          size = idle.size;
          room = omega arith;
        } in
        let (s', run, idle') = recv_fragments-Waiting (n - 1) s 0 r (omega arith) in
        (
          s',
          subst
                (λ (m : ℕ).
                  recv_fragments s 0 m ≡ some (s', deliver works opcode (whole piece 0 n)))
                e run
              ∙ ap (λ (out : List Delivery). some (s', out))
                  (delivers opcode (whole piece 0 n) named),
          idle',
        )
