-- ===== src/Ack/Send/Schedule.antt =====
-- The numbers that a run of scheduled packets gets.
use mathlib.Core.List.{append-nil, append_assoc}
use zeq_server_trilogy.Common.{
  ℕ, ◌+◌, ◌^◌, ◌≤◌, ◌<◌, ◌≡◌, refl, ap, ◌∙◌, true, Option, none, some, List, [], ◌∷◌, ◌++◌, length,
  arith, if◌then◌else◌, ◌==◌, ltb, u16, inl, inr, Bool-cases, sym, subst,
}
use zeq_server_trilogy.Packet.{TlgPacket}
use zeq_server_trilogy.Ack.Send.{Wrapper, ToClient, Memory, wrap, schedule, queue_packet, packets}
use zeq_server_trilogy.Ack.Send.Queue.{live, IsSized, queue_packet-live}

-- Packets with an acknowledgement request, scheduled one after the other
pub schedule_all : Memory → Wrapper → ToClient → List TlgPacket → Option ToClient
unfolding schedule
schedule_all mem stack t [] = some t
schedule_all mem stack t (p ∷ ps) = elim (schedule mem stack t p true) [
  | none ↦ none
  | some (t', queued) ↦ schedule_all mem stack t' ps
]

-- The number of the next packet: 0 is never used.
abbrev pub next_number : ToClient → ℕ
next_number t = if t.next_ack_to_request == 0 then 1 else t.next_ack_to_request

-- The numbers that packets take: one for each fragment
abbrev pub numbers : List TlgPacket → ℕ
numbers [] = 0
numbers (p ∷ ps) = p.frag_count + 1 + numbers ps

-- The numbers of the wrappers follow each other without a gap, from `a` to just below `b`.
abbrev pub Numbered : ℕ → List Wrapper → ℕ → Type 0
Numbered a [] b = a ≡ b
Numbered a (w ∷ ws) b = (w.ack_request ≡ a) × (1 ≤ w.frag_count) × Numbered (a + w.frag_count) ws b

record Wrapped (t : ToClient) (p : TlgPacket) (w : Wrapper) (t' : ToClient) : Type 0 where
  number : w.ack_request ≡ next_number t
  frags : w.frag_count ≡ p.frag_count + 1
  holds : w.packet ≡ some p
  next : t'.next_ack_to_request ≡ next_number t + (p.frag_count + 1)
  count : t'.count ≡ t.count
  queue : t'.queue ≡ t.queue

wrap-Wrapped :
    (stack : Wrapper) (t : ToClient) (p : TlgPacket)
    → next_number t + (p.frag_count + 1) < 2 ^ 16
    → Wrapped t p ((wrap stack t p true).0) ((wrap stack t p true).1)
unfolding wrap
wrap-Wrapped stack t p h =
    let fits : u16 (p.frag_count + 1) ≡ p.frag_count + 1 = omega arith in
    elim (Bool-cases (ltb 1 (p.frag_count + 1))) [
      | inl many ↦
          rw (fits, many)
            record {
              number = refl;
              frags = refl;
              holds = refl;
              next = omega arith;
              count = refl;
              queue = refl;
            }
      | inr single ↦
          rw (fits, single)
            record {
              number = refl;
              frags = refl;
              holds = refl;
              next = omega arith;
              count = refl;
              queue = refl;
            }
    ]

packets_nil : packets [] ≡ []
unfolding packets
packets_nil = refl

packets_cons :
    (w : Wrapper) (p : TlgPacket) (ws : List Wrapper)
    → w.packet ≡ some p
    → packets (w ∷ ws) ≡ p ∷ packets ws
unfolding packets
packets_cons w p ws h = rw (h)

pub record Scheduled (t : ToClient) (ps : List TlgPacket) (t' : ToClient) (ws : List Wrapper)
    : Type 0 where
  pub all : live t' ≡ live t ++ ws
  pub packets : packets ws ≡ ps
  pub numbered : Numbered (next_number t) ws (next_number t + numbers ps)
  pub sized : IsSized t'

schedule-queue :
    (mem : Memory) (stack : Wrapper) (t : ToClient) (p : TlgPacket)
    → schedule mem stack t p true
      ≡ queue_packet mem ((wrap stack t p true).1) ((wrap stack t p true).0)
unfolding schedule
schedule-queue mem stack t p = refl

record Pushed (t : ToClient) (p : TlgPacket) (w : Wrapper) (t' : ToClient) : Type 0 where
  sized : IsSized t'
  all : live t' ≡ live t ++ w ∷ []
  count : t'.count ≡ t.count + 1
  next : t'.next_ack_to_request ≡ next_number t + (p.frag_count + 1)
  number : w.ack_request ≡ next_number t
  frags : w.frag_count ≡ p.frag_count + 1
  holds : w.packet ≡ some p

same_array :
    (t t1 : ToClient)
    → t1.count ≡ t.count
    → t1.queue ≡ t.queue
    → IsSized t
    → IsSized t1 × (live t1 ≡ live t)
same_array t t1 c q sized = rw (c, q) (sized, refl)

schedule-Pushed :
    (mem : Memory) (stack : Wrapper) (t : ToClient) (p : TlgPacket)
    → mem.ok ≡ true
    → IsSized t
    → t.count < 2 ^ 31
    → next_number t + (p.frag_count + 1) < 2 ^ 16
    → (t' : ToClient) × (w : Wrapper) × (schedule mem stack t p true ≡ some (t', true))
      × Pushed t p w t'
schedule-Pushed mem stack t p ok sized small h =
    let (w, t1) = wrap stack t p true in
    let m = wrap-Wrapped stack t p h in
    let count = m.count in
    let (sized1, same) = same_array t t1 m.count m.queue sized in
    let (q, run, power, all) = queue_packet-live mem t1 w ok (omega arith) sized1 in
    (
      record t1 { count = t1.count + 1; queue = q },
      w,
      schedule-queue mem stack t p ∙ run,
      record {
        sized = inr power;
        all = all ∙ ap (λ (l : List Wrapper). l ++ w ∷ []) same;
        count = omega arith;
        next = m.next;
        number = m.number;
        frags = m.frags;
        holds = m.holds;
      },
    )

schedule_all-step :
    (mem : Memory) (stack : Wrapper) (t t' : ToClient) (p : TlgPacket) (ps : List TlgPacket)
    → schedule mem stack t p true ≡ some (t', true)
    → schedule_all mem stack t (p ∷ ps) ≡ schedule_all mem stack t' ps
unfolding schedule_all
schedule_all-step mem stack t t' p ps run = rw (schedule_all, run)

Numbered-cast :
    (a a' b b' : ℕ) (ws : List Wrapper) → a ≡ a' → b ≡ b' → Numbered a ws b → Numbered a' ws b'
Numbered-cast a a' b b' ws e e' n =
    subst (λ x. Numbered x ws b') e (subst (λ y. Numbered a ws y) e' n)

Scheduled-cons :
    (t t1 t' : ToClient) (p : TlgPacket) (ps : List TlgPacket) (w : Wrapper) (ws : List Wrapper)
    → Pushed t p w t1
    → Scheduled t1 ps t' ws
    → Scheduled t (p ∷ ps) t' (w ∷ ws)
Scheduled-cons t t1 t' p ps w ws one more =
    let next = one.next in
    let frags = one.frags in
    let numbers1 : next_number t1 ≡ next_number t + (p.frag_count + 1) = ground arith in
    record {
      all =
          more.all ∙ ap (λ (l : List Wrapper). l ++ ws) one.all ∙ append_assoc (live t) (w ∷ []) ws;
      packets = packets_cons w p ws one.holds ∙ ap (λ (l : List TlgPacket). p ∷ l) more.packets;
      numbered = (
        one.number,
        omega arith,
        Numbered-cast (next_number t1) (next_number t + w.frag_count) (next_number t1 + numbers ps)
            (next_number t + numbers (p ∷ ps)) ws (omega arith) (omega arith) more.numbered,
      );
      sized = more.sized;
    }

-- While memory is found, and the numbers and the array do not overflow: scheduling the packets puts
-- all of them in the queue behind those that are there, in order, with acknowledgement numbers
-- that follow each other without a gap, as many to a packet as it has fragments.
pub schedule_all-Scheduled :
    (mem : Memory) (stack : Wrapper) (t : ToClient) (ps : List TlgPacket)
    → mem.ok ≡ true
    → IsSized t
    → t.count + length ps < 2 ^ 31
    → next_number t + numbers ps < 2 ^ 16
    → (t' : ToClient) × (ws : List Wrapper) × (schedule_all mem stack t ps ≡ some t')
      × Scheduled t ps t' ws
unfolding schedule_all
schedule_all-Scheduled mem stack t [] ok sized small h = (
  t,
  [],
  refl,
  record {
    all = sym (append-nil (live t));
    packets = packets_nil;
    numbered = omega arith;
    sized = sized;
  },
)
schedule_all-Scheduled mem stack t (p ∷ ps) ok sized small h =
    let (t1, w, run, one) = schedule-Pushed mem stack t p ok sized (omega arith) (omega arith) in
    let next = one.next in
    let count = one.count in
    let numbers1 : next_number t1 ≡ next_number t + (p.frag_count + 1) = ground arith in
    let (t', ws, runs, more) =
      schedule_all-Scheduled mem stack t1 ps ok one.sized (omega arith) (omega arith) in
    (
      t',
      w ∷ ws,
      schedule_all-step mem stack t t1 p ps run ∙ runs,
      Scheduled-cons t t1 t' p ps w ws one more,
    )
