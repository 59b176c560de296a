-- ===== src/Ack/Recv/Fragments.antt =====
-- The fragments of a packet, received in order: the last of them completes it.
use zeq_server_trilogy.Common.{
  ℕ, suc, ◌+◌, ◌-◌, ◌^◌, ◌≤◌, ◌<◌, ◌≡◌, refl, ap, ◌∙◌, sym, subst, some, List, ◌++◌, length, set,
  take, drop, replicate, arith, u16, false, ◌==◌, length-set, length-append, length-replicate,
  length-drop,
}
use zeq_server_trilogy.Ack.{ServerPacket, ToServer, Delivery, empty_slot}
use zeq_server_trilogy.Ack.Recv.{Scan, deliver, scan, drop_completed, add_packet}
use zeq_server_trilogy.Ack.Recv.Copied.{works, fragment, whole}
use zeq_server_trilogy.Ack.Recv.Joining.{Complete, scan-joins}
use zeq_server_trilogy.Ack.Recv.Joined.{
  Free, Waiting, Idle, begin, filled-set, add_packet-step, emptied, Free-emptied,
}

module _ (first n opcode : ℕ) (piece : ℕ → List ℕ) (nonzero : 0 < first) (last : first + n ≤ 2 ^ 16)
    (fits : length (whole piece 0 n) < 2 ^ 32) where
  -- All the packets of the queue are gone.
  drop_completed-Idle :
      (s : ToServer) (k m : ℕ) (c : Scan)
      → Waiting first n opcode piece s k
      → k + 1 ≡ n
      → k < s.capacity
      → m ≡ n
      → Complete first n opcode piece (set s.queue k (fragment first n opcode piece k)) c
      → Idle (drop_completed m c s) (u16 (first + n))
  unfolding drop_completed
  drop_completed-Idle s k m c r full inside em done =
      let q = set s.queue k (fragment first n opcode piece k) in
      let some_done : (c.diff == 0) ≡ false = ground (arith, done.diff) in
      let long : length q ≡ s.capacity =
        length-set s.queue k (fragment first n opcode piece k) ∙ r.size in
      let kept : m - c.diff ≡ 0 = omega (arith, done.diff) in
      let rest : drop n c.queue ≡ drop n q =
        emptied first n opcode piece nonzero last q (drop n c.queue) (omega arith)
          (ap (drop n) done.queue) in
      let queue : take (m - c.diff) (drop c.diff c.queue)
            ++ (replicate c.diff empty_slot ++ drop m c.queue)
          ≡ replicate n empty_slot ++ drop n q =
        rw (kept, done.diff, em, rest) in
      rw (drop_completed, some_done)
        record {
          expected = omega (arith, done.next_ack);
          lowest = done.lowest;
          count = omega arith;
          free = λ j lt.
              subst (λ (l : List ServerPacket). Free l j) (sym queue)
                (Free-emptied first n opcode piece nonzero last s k j r full inside lt);
          size =
              ap length queue
              ∙ omega (
                arith,
                length-append (replicate n empty_slot) (drop n q),
                length-replicate n empty_slot,
                length-drop n q,
              );
        }

  pub add_packet-joins :
      (s : ToServer) (k : ℕ)
      → Waiting first n opcode piece s k
      → k + 1 ≡ n
      → k < s.capacity
      → (s' : ToServer) × (add_packet works s k (fragment first n opcode piece k)
          ≡ some (s', deliver works opcode (whole piece 0 n)))
        × Idle s' (u16 (first + n))
  add_packet-joins s k r full inside =
      let q = set s.queue k (fragment first n opcode piece k) in
      let c0 = begin first n opcode piece s k in
      let (c, run, done) =
        scan-joins first n opcode piece q nonzero (omega arith) fits
          (λ j lt. filled-set first n opcode piece s k j r inside (omega arith)) k 0 c0
          (record { frags = refl; size = refl; diff = refl; queue = refl; out = refl })
          (omega arith) in
      let m : n ≡ s.count + 1 = omega (arith, r.count) in
      let l : suc k ≡ s.count + 1 = omega (arith, r.count) in
      let run' =
        subst (λ (i : ℕ). scan works i (s.count + 1) 0 c0 ≡ some c) m
          (subst (λ (i : ℕ). scan works n i 0 c0 ≡ some c) l run) in
      (
        drop_completed (s.count + 1) c s,
        add_packet-step first n opcode piece s k c r inside run'
            ∙ ap (λ (out : List Delivery). some (drop_completed (s.count + 1) c s, out)) done.out,
        drop_completed-Idle s k (s.count + 1) c r full inside (sym m) done,
      )
