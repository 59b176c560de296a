-- ===== src/RingBuf/Spsc/Progress.antt =====
-- A push returns after a number of its own steps, whatever the other thread does in between.
use zeq_server_trilogy.Common.{
  ℕ, ◌+◌, ◌-◌, ◌≤◌, ◌<◌, ◌≡◌, refl, ap, sym, subst, ◌∙◌, Bool, true, false, Option, none, some,
  List, [], ◌∷◌, length, arith, inl, inr, ◌++◌, set, Bool-cases, Option-cases, ◌==◌, not, ◌&&◌,
  if◌then◌else◌,
}
use zeq_server_trilogy.RingBuf.{
  RingBlock, RingBuf, Push, Pop, push_step, pop_step, set_block, store_to,
}
use zeq_server_trilogy.RingBuf.Spsc.{
  System, Action, call_push, call_pop, push, pop, act, run, delivered, begin, block,
}
use zeq_server_trilogy.RingBuf.Spsc.Position.{position-lt}
use zeq_server_trilogy.RingBuf.Spsc.Invariant.{Good}
use zeq_server_trilogy.RingBuf.Spsc.Frame.{View, PushAt, push_act, system, found, next_at}
use zeq_server_trilogy.RingBuf.Spsc.Quiet.{Quiet, AllQuiet, pop_step-Quiet}
use zeq_server_trilogy.RingBuf.Spsc.Fifo.{view, act-Kept, run-cons, some_inj, reached}

-- The steps that are left for the producer
cost : RingBuf → Push → ℕ
cost rb (Push.returned ok) = 0
cost rb (Push.start m) = 12
cost rb (Push.check m i) = 11
cost rb (Push.claim m i) = 10
cost rb (Push.store_opcode m i) = 9
cost rb (Push.store_bytes m i) = 8
cost rb (Push.flag i) = 7
cost rb Push.advance = if (block rb rb.write_start).has_been_written then 6 else 3
cost rb (Push.clear i) = if (block rb i).has_been_written then 5 else 2
cost rb (Push.move i) = 4
cost rb Push.signal = 1

abbrev Cheaper : RingBuf → Push → Option System → Type 0
Cheaper rb p r = (s : System) × (r ≡ some s) × (cost s.ring s.producer ≤ cost rb p - 1)

module _ (v : View) (c : Pop) where
  open v use {n, rb, ms, got, rs, re, ws, we, d}

  push-Cheaper : (p : Push) → PushAt v c p → Cheaper rb p (push_act v c false p)
  unfolding act push_step cost
  push-Cheaper (Push.returned ok) inv = (system rb (Push.returned ok) c ms got, refl, omega arith)
  push-Cheaper (Push.start m) inv =
      (system rb (Push.check m rb.write_end) c ms got, refl, omega arith)
  push-Cheaper (Push.check m i) inv =
      let here = found v inv i we inv.at_push.1 in
      elim (Bool-cases ((block rb i).next_index == rb.read_start)) [
        | inl full ↦ (system rb (Push.returned false) c ms got, rw (here, full) refl, omega arith)
        | inr free ↦ (system rb (Push.claim m i) c ms got, rw (here, free) refl, omega arith)
      ]
  push-Cheaper (Push.claim m i) inv =
      let won : (rb.write_end == i && not false) ≡ true =
        ground (arith, inv.at_push.1, inv.indexes.at_we) in
      (
        system (record rb { write_end = (block rb i).next_index }) (Push.store_opcode m i) c
            (ms ++ m ∷ []) got,
        rw (found v inv i we inv.at_push.1, won) refl,
        omega arith,
      )
  push-Cheaper (Push.store_opcode m i) inv = (
    system (set_block rb i (record (block rb i) { opcode = m.opcode })) (Push.store_bytes m i) c ms
        got,
    rw (found v inv i ws inv.at_push.1) refl,
    omega arith,
  )
  push-Cheaper (Push.store_bytes m i) inv = (
    system (set_block rb i (store_to (block rb i) m.bytes)) (Push.flag i) c ms got,
    rw (found v inv i ws inv.at_push.1) refl,
    omega arith,
  )
  push-Cheaper (Push.flag i) inv = (
    system (set_block rb i (record (block rb i) { has_been_written = true })) Push.advance c ms got,
    rw (found v inv i ws inv.at_push.1) refl,
    ground arith,
  )
  push-Cheaper Push.advance inv =
      (system rb (Push.clear rb.write_start) c ms got, refl, ground arith)
  push-Cheaper (Push.clear i) inv =
      let here = found v inv i ws inv.at_push.0 in
      elim (Bool-cases (block rb i).has_been_written) [
        | inl set ↦ (
          system (set_block rb i (record (block rb i) { has_been_written = false })) (Push.move i) c
              ms got,
          rw (here, set) refl,
          rw (set) (omega arith),
        )
        | inr unset ↦
            (system rb Push.signal c ms got, rw (here, unset) refl, rw (unset) (omega arith))
      ]
  push-Cheaper (Push.move i) inv =
      let won : (rb.write_start == i) ≡ true = ground (arith, inv.at_push.1, inv.indexes.at_ws) in
      let flag = inv.written (block rb i).next_index (
        omega
          (arith, next_at v inv i ws inv.at_push.1, position-lt n (ws + 1) inv.ring.some_blocks)) in
      (
        system (record rb { write_start = (block rb i).next_index }) Push.advance c ms got,
        rw (found v inv i ws inv.at_push.1, won) refl,
        ground (arith, flag),
      )
  push-Cheaper Push.signal inv = (
    system (record rb { signals = rb.signals + 1 }) (Push.returned true) c ms got,
    refl,
    omega arith,
  )

cost-Quiet : (rb rb' : RingBuf) (p : Push) → Quiet rb rb' → cost rb' p ≡ cost rb p
unfolding cost
cost-Quiet rb rb' (Push.returned ok) q = refl
cost-Quiet rb rb' (Push.start m) q = refl
cost-Quiet rb rb' (Push.check m i) q = refl
cost-Quiet rb rb' (Push.claim m i) q = refl
cost-Quiet rb rb' (Push.store_opcode m i) q = refl
cost-Quiet rb rb' (Push.store_bytes m i) q = refl
cost-Quiet rb rb' (Push.flag i) q = refl
cost-Quiet rb rb' Push.advance q =
    let same = ap (λ (j : ℕ). (block rb' j).has_been_written) q.0 ∙ q.1 rb.write_start in
    ap (λ (b : Bool). if b then 6 else 3) same
cost-Quiet rb rb' (Push.clear i) q = ap (λ (b : Bool). if b then 5 else 2) (q.1 i)
cost-Quiet rb rb' (Push.move i) q = refl
cost-Quiet rb rb' Push.signal q = refl

-- The producer makes no new call, and its weak compare-exchanges do not fail spuriously; the consumer
-- does what it likes.
unfoldable pub Finishing : List Action → Type 0
Finishing [] = Unit {0}
Finishing (call_push m ∷ as') = ⊥
Finishing (call_pop ∷ as') = Finishing as'
Finishing (push fails ∷ as') = (fails ≡ false) × Finishing as'
Finishing (pop fails ∷ as') = Finishing as'

-- The steps of the producer in a schedule
unfoldable pub turns : List Action → ℕ
turns [] = 0
turns (call_push m ∷ as') = turns as'
turns (call_pop ∷ as') = turns as'
turns (push fails ∷ as') = turns as' + 1
turns (pop fails ∷ as') = turns as'

none-ne-some : {s : System} → none ≡ some s → ⊥
none-ne-some h = cc

-- A step of the consumer costs the producer nothing.
pop-cost :
    (fails : Bool) (s s' : System)
    → act (pop fails) s ≡ some s'
    → cost s'.ring s'.producer ≡ cost s.ring s.producer
unfolding act
pop-cost fails s s' h = elim (Option-cases (pop_step fails s.ring s.consumer)) [
  | inl e ↦
      let run : act (pop fails) s ≡ none = rw (act, e) refl in absurd (none-ne-some (sym run ∙ h))
  | inr (r, e) ↦
      let s'' = record s {
        ring = r.0;
        consumer = r.1;
        popped = delivered s.consumer r.1 s.popped;
      } in
      let run : act (pop fails) s ≡ some s'' = rw (act, e) refl in
      let quiet = subst (AllQuiet s.ring) e (pop_step-Quiet fails s.ring s.consumer) in
      ap (λ (x : System). cost x.ring x.producer) (some_inj (sym h ∙ run))
      ∙ cost-Quiet s.ring r.0 s.producer quiet
]

call_pop-cost :
    (s s' : System) → act call_pop s ≡ some s' → cost s'.ring s'.producer ≡ cost s.ring s.producer
unfolding act
call_pop-cost s s' h = ap (λ (x : System). cost x.ring x.producer) (some_inj (sym h))

push-cost :
    {n : ℕ} (fails : Bool) (s s' : System)
    → Good n s
    → fails ≡ false
    → act (push fails) s ≡ some s'
    → cost s'.ring s'.producer ≤ cost s.ring s.producer - 1
push-cost {n} fails s s' (rs, re, ws, we, d, inv) sure h =
    let (t, run, less) = push-Cheaper (view n s rs re ws we d) s.consumer s.producer inv in
    let same : t ≡ s' = some_inj (sym run ∙ ap (λ (b : Bool). act (push b) s) (sym sure) ∙ h) in
    subst (λ (x : System). cost x.ring x.producer ≤ cost s.ring s.producer - 1) same less

-- From a state with the invariant, enough turns of the producer bring it to its return.
finish :
    {n : ℕ} (schedule : List Action) (s : System)
    → Good n s
    → Finishing schedule
    → (s' : System) × (run schedule s ≡ some s')
      × (cost s'.ring s'.producer ≤ cost s.ring s.producer - turns schedule)
unfolding run Finishing turns
finish [] s good f = (s, refl, omega arith)
finish (call_push m ∷ as') s good f = absurd f
finish (call_pop ∷ as') s good f =
    let (s1, step, good1) = act-Kept call_pop s good in
    let (s2, rest, less) = finish as' s1 good1 f in
    (s2, run-cons call_pop as' s step ∙ rest, omega (arith, less, call_pop-cost s s1 step))
finish (push fails ∷ as') s good f =
    let (s1, step, good1) = act-Kept (push fails) s good in
    let (s2, rest, less) = finish as' s1 good1 f.1 in
    (
      s2,
      run-cons (push fails) as' s step ∙ rest,
      omega (arith, less, push-cost fails s s1 good f.0 step),
    )
finish (pop fails ∷ as') s good f =
    let (s1, step, good1) = act-Kept (pop fails) s good in
    let (s2, rest, less) = finish as' s1 good1 f in
    (s2, run-cons (pop fails) as' s step ∙ rest, omega (arith, less, pop-cost fails s s1 step))

cost-le : (rb : RingBuf) (p : Push) → cost rb p ≤ 12
unfolding cost
cost-le rb p = ground arith

cost-zero : (rb : RingBuf) (p : Push) → cost rb p ≤ 0 → (ok : Bool) × (p ≡ Push.returned ok)
unfolding cost
cost-zero rb (Push.returned ok) h = (ok, refl)
cost-zero rb (Push.start m) h = absurd (omega arith)
cost-zero rb (Push.check m i) h = absurd (omega arith)
cost-zero rb (Push.claim m i) h = absurd (omega arith)
cost-zero rb (Push.store_opcode m i) h = absurd (omega arith)
cost-zero rb (Push.store_bytes m i) h = absurd (omega arith)
cost-zero rb (Push.flag i) h = absurd (omega arith)
cost-zero rb Push.advance h = absurd (ground arith)
cost-zero rb (Push.clear i) h = absurd (ground arith)
cost-zero rb (Push.move i) h = absurd (omega arith)
cost-zero rb Push.signal h = absurd (omega arith)

-- A push returns. On a queue with at least one block and no more than `ringbuf_create` allows, from
-- every state that one pushing and one popping thread reach, and in every schedule
-- with at least twelve steps of the producer in it, while the producer makes no new call and its weak
-- compare-exchanges do not fail spuriously, and whatever the consumer does in between: no access leaves
-- the memory of the queue, and at the end the producer has returned.
pub push-returns :
    (memory : List RingBlock) (before after : List Action) (s : System)
    → 0 < length memory
    → length memory ≤ 32767
    → run before (begin memory) ≡ some s
    → Finishing after
    → 12 ≤ turns after
    → (s' : System) × (ok : Bool) × (run after s ≡ some s') × (s'.producer ≡ Push.returned ok)
push-returns memory before after s h small ran f enough =
    let (s', run', less) = finish after s (reached memory before s h small ran) f in
    let (ok, e) = cost-zero s'.ring s'.producer (omega (arith, less, cost-le s.ring s.producer)) in
    (s', ok, run', e)
