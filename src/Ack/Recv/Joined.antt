-- ===== src/Ack/Recv/Joined.antt =====
-- The fragments of a packet, received in order: what the queue holds in between
use zeq_server_trilogy.Common.{
  ℕ, suc, ◌+◌, ◌-◌, ◌^◌, ◌≤◌, ◌<◌, ◌≡◌, refl, ap, ◌∙◌, sym, subst, some, List, [], ◌∷◌, ◌++◌,
  length, get_elem?, set, take, drop, replicate, arith, false, true, Bool, not, ◌&&◌, ◌==◌, dec_lt,
  ℕ_discrete, length-set, get_elem?-set_self, get_elem?-set_ne, length-replicate, length-take,
}
use zeq_server_trilogy.Common.Places.{
  get_elem?-drop, get_elem?-append_left, get_elem?-append_right, get_elem?-replicate, drop-append,
}
use zeq_server_trilogy.Ack.{ServerPacket, ToServer, empty_slot}
use zeq_server_trilogy.Ack.Recv.{Scan, scan, free_payloads, drop_completed, add_packet}
use zeq_server_trilogy.Ack.Recv.Copied.{works, fragment}
use zeq_server_trilogy.Ack.Recv.Joining.{scan-stops}

-- An empty slot at `j`
abbrev pub Free : List ServerPacket → ℕ → Type 0
Free q j = (old : ServerPacket) × (get_elem? q j ≡ some old) × (old.ack_request ≡ 0)

-- Nothing waits, and the number `e` is next.
pub record Idle (s : ToServer) (e : ℕ) : Type 0 where
  pub expected : s.next_ack_request_expected ≡ e
  pub lowest : s.lowest_ack_in_queue ≡ e
  pub count : s.count ≡ 0
  pub free : (j : ℕ) → j < s.capacity → Free s.queue j
  pub size : length s.queue ≡ s.capacity

module _ (first n opcode : ℕ) (piece : ℕ → List ℕ) where
  -- The first `k` fragments wait in the queue, and nothing else.
  pub record Waiting (s : ToServer) (k : ℕ) : Type 0 where
    pub expected : s.next_ack_request_expected ≡ first + k
    pub lowest : s.lowest_ack_in_queue ≡ first
    pub count : s.count ≡ k
    pub filled : (j : ℕ) → j < k → get_elem? s.queue j ≡ some (fragment first n opcode piece j)
    pub free : (j : ℕ) → k ≤ j → j < s.capacity → Free s.queue j
    pub size : length s.queue ≡ s.capacity
    pub room : k ≤ s.capacity

  pub filled-set :
      (s : ToServer) (k j : ℕ)
      → Waiting s k
      → k < s.capacity
      → j < k + 1
      → get_elem? (set s.queue k (fragment first n opcode piece k)) j
        ≡ some (fragment first n opcode piece j)
  filled-set s k j r inside lt = elim (ℕ_discrete k j) [
    | yes e ↦
        ap (λ (i : ℕ). get_elem? (set s.queue k (fragment first n opcode piece k)) i) (sym e)
        ∙ get_elem?-set_self s.queue k (fragment first n opcode piece k) (omega (arith, r.size))
        ∙ ap (λ (i : ℕ). some (fragment first n opcode piece i)) e
    | no ne ↦
        get_elem?-set_ne s.queue k j (fragment first n opcode piece k) ne ∙ r.filled j (omega arith)
  ]

  Free-set :
      (s : ToServer) (k j : ℕ) (p : ServerPacket)
      → Waiting s k
      → k < j
      → j < s.capacity
      → Free (set s.queue k p) j
  Free-set s k j p r above inside =
      let (old, here, none_in) = r.free j (omega arith) inside in
      (old, get_elem?-set_ne s.queue k j p (omega arith) ∙ here, none_in)

  -- What the scan starts with
  abbrev pub begin : ToServer → ℕ → Scan
  begin s k = record {
    next_ack = s.next_ack_request_expected;
    lowest = s.lowest_ack_in_queue;
    diff = 0;
    frags = 0;
    length = 0;
    queue = set s.queue k (fragment first n opcode piece k);
    out = [];
  }

  and_false : (b : Bool) → (b && false) ≡ false
  and_false true = refl
  and_false false = refl

  pub add_packet-step :
      (s : ToServer) (k : ℕ) (c : Scan)
      → Waiting s k
      → k < s.capacity
      → scan works (s.count + 1) (s.count + 1) 0 (begin s k) ≡ some c
      → add_packet works s k (fragment first n opcode piece k)
        ≡ some (drop_completed (s.count + 1) c s, c.out)
  unfolding add_packet
  add_packet-step s k c r inside run =
      let (old, here, none_in) = r.free k (omega arith) inside in
      let empty : (old.ack_request == 0) ≡ true = ground (arith, none_in) in
      rw (add_packet, here, empty, and_false (not (length (piece k) == 0)), run)

  module _ (nonzero : 0 < first) (last : first + n ≤ 2 ^ 16) where
    pub add_packet-waits :
        (s : ToServer) (k : ℕ)
        → Waiting s k
        → k < s.capacity
        → k + 1 < n
        → (s' : ToServer) × (add_packet works s k (fragment first n opcode piece k) ≡ some (s', []))
          × Waiting s' (k + 1)
    unfolding drop_completed
    add_packet-waits s k r inside more =
        let c = begin s k in
        let rounds : s.count + 1 ≡ suc k = omega (arith, r.count) in
        let stops : scan works (suc k) (suc k) 0 c ≡ some c =
          scan-stops (suc k) (fragment first n opcode piece 0) (omega arith) (omega arith) k 0 c
            (filled-set s k 0 r inside (omega arith)) (omega arith) in
        (
          drop_completed (s.count + 1) c s,
          add_packet-step s k c r inside
              (subst (λ (m : ℕ). scan works m m 0 c ≡ some c) (sym rounds) stops),
          record {
            expected = omega (arith, r.expected);
            lowest = r.lowest;
            count = omega (arith, r.count);
            filled = λ j lt. filled-set s k j r inside lt;
            free = λ j le lt. Free-set s k j (fragment first n opcode piece k) r (omega arith) lt;
            size = length-set s.queue k (fragment first n opcode piece k) ∙ r.size;
            room = omega arith;
          },
        )

    length-free_payloads : (q : List ServerPacket) → length (free_payloads q) ≡ length q
    unfolding free_payloads
    length-free_payloads [] = refl
    length-free_payloads (p ∷ q) = ap suc (length-free_payloads q)

    -- The queue when the fragments are gone
    pub emptied :
        (q rest : List ServerPacket)
        → n ≤ length q
        → rest ≡ drop n (free_payloads (take n q) ++ drop n q)
        → rest ≡ drop n q
    emptied q rest h e =
        e
        ∙ drop-append (free_payloads (take n q)) (drop n q) n
            (omega (arith, length-free_payloads (take n q), length-take n q))

    pub Free-emptied :
        (s : ToServer) (k j : ℕ)
        → Waiting s k
        → k + 1 ≡ n
        → k < s.capacity
        → j < s.capacity
        → Free
            (replicate n empty_slot ++ drop n (set s.queue k (fragment first n opcode piece k)))
            j
    Free-emptied s k j r full inside lt = elim (dec_lt j n) [
      | yes low ↦ (
        empty_slot,
        get_elem?-append_left (replicate n empty_slot) _ j
              (omega (arith, length-replicate n empty_slot))
            ∙ get_elem?-replicate n j empty_slot low,
        refl,
      )
      | no high ↦
          let p = fragment first n opcode piece k in
          let (old, here, none_in) = Free-set s k j p r (omega arith) lt in
          let e : n + (j - n) ≡ j = omega arith in
          (
            old,
            get_elem?-append_right (replicate n empty_slot) (drop n (set s.queue k p)) (j - n) j
                  (omega (arith, length-replicate n empty_slot))
                ∙ get_elem?-drop n (j - n) (set s.queue k p)
                ∙ ap (get_elem? (set s.queue k p)) e
                ∙ here,
            none_in,
          )
    ]
