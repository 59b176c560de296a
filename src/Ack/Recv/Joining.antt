-- ===== src/Ack/Recv/Joining.antt =====
-- The loop of `ack_recv_packet` over the fragments of one packet
use mathlib.Core.List.{append-nil}
use zeq_server_trilogy.Common.{
  ℕ, zero, suc, ◌+◌, ◌-◌, ◌≤◌, ◌<◌, ◌≡◌, ◌≢◌, ap, ap₂, ◌∙◌, some, List, [], ◌++◌, length, get_elem?,
  take, drop, arith, u16, u32, ltb, false, true, ◌==◌, ◌^◌,
}
use zeq_server_trilogy.Ack.{ServerPacket}
use zeq_server_trilogy.Ack.Recv.{
  Scan, deliver, copied, unwritten, hand_on, behind_group, free_payloads, complete_fragments,
  opcode_at, scan_fragment, scan_round, scan,
}
use zeq_server_trilogy.Ack.Recv.Copied.{
  works, fragment, whole, length-whole, length-whole-le, copied-whole,
}

module _ (n : ℕ) (p : ServerPacket) (number : p.ack_request ≢ 0) (part : p.frag_count ≢ 0) where
  numbered : (p.ack_request == 0) ≡ false
  numbered = ground arith

  partial : (p.frag_count == 0) ≡ false
  partial = ground arith

  -- While packets are missing the loop stops at the first fragment.
  pub scan-stops :
      (left i : ℕ) (c : Scan)
      → get_elem? c.queue i ≡ some p
      → n < p.frag_count
      → scan works n (suc left) i c ≡ some c
  unfolding scan scan_round
  scan-stops left i c h short =
      let e : ltb n p.frag_count ≡ true = ground arith in rw (scan, h, numbered, partial, e)

  scan-goes :
      (left i : ℕ) (c c' : Scan)
      → get_elem? c.queue i ≡ some p
      → p.frag_count ≤ n
      → scan_fragment works i p c ≡ some c'
      → scan works n (suc left) i c ≡ scan works n left (i + 1) c'
  unfolding scan scan_round
  scan-goes left i c c' h enough run =
      let e : ltb n p.frag_count ≡ false = ground arith in rw (scan, h, numbered, partial, e, run)

  -- The last fragment of a group
  scan_fragment-last :
      (i : ℕ) (c c' : Scan)
      → c.frags + 1 ≡ p.frag_count
      → complete_fragments works
          (opcode_at c.queue (i - c.frags))
          (u32 (c.length + p.length))
          (i - c.frags)
          (c.frags + 1)
          (record c {
            next_ack = p.ack_request;
            frags = c.frags + 1;
            length = u32 (c.length + p.length);
          })
        ≡ some c'
      → scan_fragment works i p c ≡ behind_group p (some c')
  unfolding scan_fragment
  scan_fragment-last i c c' last run =
      let e : (c.frags + 1 == p.frag_count) ≡ true = ground arith in
      rw (scan_fragment, e) (ap (behind_group p) run)

complete_fragments-copied :
    (opcode i k : ℕ) (c : Scan) (bytes : List ℕ) (size : ℕ)
    → copied size (take k (drop i c.queue)) ≡ some bytes
    → size ≡ length bytes
    → complete_fragments works opcode size i k c
      ≡ some (record c {
        queue = take i c.queue ++ (free_payloads (take k (drop i c.queue)) ++ drop (i + k) c.queue);
        out = c.out ++ deliver works opcode bytes;
      })
unfolding complete_fragments hand_on unwritten
complete_fragments-copied opcode i k c bytes size run e =
    let none_left : size - length bytes ≡ 0 = omega arith in
    ap (hand_on works opcode size i k c) run ∙ rw (none_left, append-nil bytes)

-- The loop after the last fragment
pub record Complete (first n opcode : ℕ) (piece : ℕ → List ℕ) (q : List ServerPacket) (c : Scan)
    : Type 0 where
  pub next_ack : c.next_ack ≡ first + n - 1
  pub lowest : c.lowest ≡ u16 (first + n)
  pub diff : c.diff ≡ n
  pub queue : c.queue ≡ free_payloads (take n q) ++ drop n q
  pub out : c.out ≡ deliver works opcode (whole piece 0 n)

module _ (first n opcode : ℕ) (piece : ℕ → List ℕ) (q : List ServerPacket) (nonzero : 0 < first)
    (some_parts : 0 < n) (fits : length (whole piece 0 n) < 2 ^ 32)
    (slots : (j : ℕ) → j < n → get_elem? q j ≡ some (fragment first n opcode piece j)) where
  -- What a fragment before the last leaves to the next round
  pub record Counting (i : ℕ) (c : Scan) : Type 0 where
    pub frags : c.frags ≡ i
    pub size : c.length ≡ length (whole piece 0 i)
    pub diff : c.diff ≡ 0
    pub queue : c.queue ≡ q
    pub out : c.out ≡ []

  grows :
      (i : ℕ) (c : Scan)
      → Counting i c
      → i + 1 ≤ n
      → u32 (c.length + length (piece i)) ≡ length (whole piece 0 (i + 1))
  grows i c s more =
      let e : n - (i + 1) + (i + 1) ≡ n = omega arith in
      let le = length-whole-le piece (i + 1) (n - (i + 1)) in
      let total = ap (λ (k : ℕ). length (whole piece 0 k)) e in
      let e' : suc i ≡ i + 1 = omega arith in
      let next = ap (λ (k : ℕ). length (whole piece 0 k)) e' in
      let e'' : 0 + i ≡ i = omega arith in
      let here = ap (λ (k : ℕ). length (piece k)) e'' in
      omega (arith, s.size, length-whole piece i 0, le, total, fits, next, here)

  -- The scan behind a fragment that is not the last
  abbrev counted : ℕ → Scan → Scan
  counted i c = record c {
    next_ack = first + i;
    frags = c.frags + 1;
    length = u32 (c.length + length (piece i));
  }

  counts :
      (i : ℕ) (c : Scan)
      → Counting i c
      → i + 1 < n
      → (scan_fragment works i (fragment first n opcode piece i) c ≡ some (counted i c))
        × Counting (i + 1) (counted i c)
  unfolding scan_fragment
  counts i c s more =
      let e : (c.frags + 1 == n) ≡ false = ground (arith, s.frags) in
      (
        rw (scan_fragment, e),
        record {
          frags = omega (arith, s.frags);
          size = grows i c s (omega arith);
          diff = s.diff;
          queue = s.queue;
          out = s.out;
        },
      )

  opcode_at-first : opcode_at q 0 ≡ opcode
  unfolding opcode_at
  opcode_at-first = rw (opcode_at, slots 0 some_parts)

  -- The scan behind the last fragment, at slot `i`
  abbrev complete : ℕ → Scan → Scan
  complete i c = record c {
    next_ack = first + i;
    lowest = u16 (first + i + 1);
    diff = c.diff + (c.frags + 1);
    frags = 0;
    length = 0;
    queue =
        take (i - c.frags) c.queue
        ++ (free_payloads (take (c.frags + 1) (drop (i - c.frags) c.queue))
            ++ drop (i - c.frags + (c.frags + 1)) c.queue);
    out = c.out ++ deliver works (opcode_at c.queue (i - c.frags)) (whole piece 0 n);
  }

  runs :
      (i : ℕ) (c : Scan)
      → Counting i c
      → i + 1 ≡ n
      → scan_fragment works i (fragment first n opcode piece i) c ≡ some (complete i c)
  runs i c s last =
      let here : i - c.frags ≡ 0 = omega (arith, s.frags) in
      let all : c.frags + 1 ≡ n = omega (arith, s.frags) in
      let size = grows i c s (omega arith) ∙ ap (λ (k : ℕ). length (whole piece 0 k)) last in
      let from_start : drop (i - c.frags) c.queue ≡ q =
        ap (λ (k : ℕ). drop k c.queue) here ∙ s.queue in
      let group : take (c.frags + 1) (drop (i - c.frags) c.queue) ≡ take n q =
        ap₂ (λ (k : ℕ) (l : List ServerPacket). take k l) all from_start in
      let slots' : (j : ℕ) → j < n → get_elem? q j ≡ some (fragment first n opcode piece (0 + j)) =
        λ j lt.
          let e : j ≡ 0 + j = omega arith in
          slots j lt ∙ ap (λ (k : ℕ). some (fragment first n opcode piece k)) e in
      scan_fragment-last n (fragment first n opcode piece i) (omega arith) (omega arith) i c _ all (
        complete_fragments-copied (opcode_at c.queue (i - c.frags)) (i - c.frags) (c.frags + 1)
          (counted i c) (whole piece 0 n) (u32 (c.length + length (piece i)))
          (ap (λ (l : List ServerPacket). copied (u32 (c.length + length (piece i))) l) group
            ∙ copied-whole first n opcode piece n 0 (u32 (c.length + length (piece i))) q slots'
                size)
          size)

  completes :
      (i : ℕ) (c : Scan) → Counting i c → i + 1 ≡ n → Complete first n opcode piece q (complete i c)
  completes i c s last =
      let here : i - c.frags ≡ 0 = omega (arith, s.frags) in
      let all : c.frags + 1 ≡ n = omega (arith, s.frags) in
      let skip : i - c.frags + (c.frags + 1) ≡ n = omega (arith, s.frags) in
      record {
        next_ack = omega arith;
        lowest = omega arith;
        diff = omega (arith, s.frags, s.diff);
        queue = rw (skip, here, all, s.queue);
        out = rw (here, s.queue, s.out, opcode_at-first);
      }

  pub scan-joins :
      (left i : ℕ) (c : Scan)
      → Counting i c
      → i + suc left ≡ n
      → (c' : Scan) × (scan works n (suc left) i c ≡ some c') × Complete first n opcode piece q c'
  unfolding scan
  scan-joins zero i c s last =
      let here = ap (λ (l : List ServerPacket). get_elem? l i) s.queue ∙ slots i (omega arith) in
      let p = fragment first n opcode piece i in
      (
        complete i c,
        scan-goes n p (omega arith) (omega arith) 0 i c (complete i c) here (omega arith)
            (runs i c s (omega arith)),
        completes i c s (omega arith),
      )
  scan-joins (suc left) i c s more =
      let here = ap (λ (l : List ServerPacket). get_elem? l i) s.queue ∙ slots i (omega arith) in
      let p = fragment first n opcode piece i in
      let (step, s') = counts i c s (omega arith) in
      let (c', run, done) = scan-joins left (i + 1) (counted i c) s' (omega arith) in
      (
        c',
        scan-goes n p (omega arith) (omega arith) (suc left) i c (counted i c) here (omega arith)
              step
            ∙ run,
        done,
      )
