-- ===== src/RingBuf/Spsc/Fifo.antt =====
-- What holds after any schedule of the two threads.
use zeq_server_trilogy.Common.{
  ℕ, ◌+◌, ◌≤◌, ◌<◌, ◌≡◌, refl, ap, sym, subst, ◌∙◌, Bool, some, List, [], ◌∷◌, length, arith,
}
use zeq_server_trilogy.RingBuf.{RingBlock, Push, Pop}
use zeq_server_trilogy.RingBuf.Spsc.{
  System, Action, call_push, call_pop, push, pop, act, run, begin, received,
}
use zeq_server_trilogy.RingBuf.Spsc.Invariant.{Good, Got, unsignalled, woken, holding}
use zeq_server_trilogy.RingBuf.Spsc.Frame.{View, Kept}
use zeq_server_trilogy.RingBuf.Spsc.Pushing.{push-Kept, call_push-Kept}
use zeq_server_trilogy.RingBuf.Spsc.Popping.{pop-Kept, call_pop-Kept}
use zeq_server_trilogy.RingBuf.Spsc.Begin.{begin-Good}

abbrev pub view : ℕ → System → (rs re ws we d : ℕ) → View
view n s rs re ws we d = record {
  n = n;
  rb = s.ring;
  ms = s.pushed;
  got = s.popped;
  rs = rs;
  re = re;
  ws = ws;
  we = we;
  d = d;
}

pub act-Kept : {n : ℕ} (a : Action) (s : System) → Good n s → Kept n (act a s)
act-Kept {n} (call_push m) s (rs, re, ws, we, d, inv) =
    call_push-Kept (view n s rs re ws we d) s.consumer m s.producer inv
act-Kept {n} call_pop s (rs, re, ws, we, d, inv) =
    call_pop-Kept (view n s rs re ws we d) s.producer s.consumer inv
act-Kept {n} (push fails) s (rs, re, ws, we, d, inv) =
    push-Kept (view n s rs re ws we d) s.consumer fails s.producer inv
act-Kept {n} (pop fails) s (rs, re, ws, we, d, inv) =
    pop-Kept (view n s rs re ws we d) s.producer fails s.consumer inv

pub run-cons :
    (a : Action) (as' : List Action) (s : System) {s' : System}
    → act a s ≡ some s'
    → run (a ∷ as') s ≡ run as' s'
unfolding run
run-cons a as' s step = rw (run, step) refl

pub run-Kept : {n : ℕ} (as' : List Action) (s : System) → Good n s → Kept n (run as' s)
unfolding run
run-Kept [] s good = (s, refl, good)
run-Kept (a ∷ as') s good =
    let (s', step, good') = act-Kept a s good in
    let (s'', rest, good'') = run-Kept as' s' good' in (s'', run-cons a as' s step ∙ rest, good'')

holding-le : (c : Pop) → holding c ≤ 1
holding-le c = ground arith

-- What was popped is what was pushed first, in order; at most the size of the queue is on its way.
pub record Fifo (n : ℕ) (s : System) : Type 0 where
  pub popped_le : length s.popped ≤ length s.pushed
  pub bounded : length s.pushed ≤ length s.popped + n
  pub same : (k : ℕ) → k < length s.popped → Got s.pushed k (received s.popped k)

Good-Fifo : {n : ℕ} (s : System) → Good n s → Fifo n s
Good-Fifo s (rs, re, ws, we, d, inv) = record {
  popped_le = omega (
    arith, inv.counts.pushed, inv.counts.popped, inv.counts.held, inv.indexes.re_ws,
    inv.indexes.ws_we,
  );
  bounded = omega (
    arith,
    inv.counts.pushed,
    inv.counts.popped,
    inv.counts.held,
    holding-le s.consumer,
    inv.indexes.rs_re,
    inv.indexes.room,
  );
  same = λ k lt. inv.returned k (omega (arith, inv.counts.popped));
}

-- For one thread that pushes and one that pops, in every schedule of their shared accesses, spurious
-- failures of the compare-exchanges included, on a queue with at least one block and no more than
-- `ringbuf_create` allows: no access leaves the
-- memory of the queue; the messages that were popped are the first ones that were pushed, in the order
-- in which they were pushed, each with its opcode and, unless it was pushed with a null pointer, its
-- bytes; and no more messages than the queue has blocks are on their way.
pub run-Fifo :
    (memory : List RingBlock) (schedule : List Action)
    → 0 < length memory
    → length memory ≤ 32767
    → (s : System) × (run schedule (begin memory) ≡ some s) × Fifo (length memory) s
run-Fifo memory schedule h small =
    let (s, ran, good) = run-Kept schedule (begin memory) (begin-Good memory h small) in
    (s, ran, Good-Fifo s good)

pub some_inj : {s t : System} → some s ≡ some t → s ≡ t
some_inj h = cc

Good-signals :
    {n : ℕ} (s : System)
    → Good n s
    → s.ring.signals
        + woken s.consumer
        + length s.popped
        + holding s.consumer
        + unsignalled s.producer
      ≡ length s.pushed
Good-signals s (rs, re, ws, we, d, inv) =
    omega (arith, inv.counts.signals, inv.counts.pushed, inv.counts.popped, inv.counts.held)

-- The states that a schedule leads to
pub reached :
    (memory : List RingBlock) (schedule : List Action) (s : System)
    → 0 < length memory
    → length memory ≤ 32767
    → run schedule (begin memory) ≡ some s
    → Good (length memory) s
reached memory schedule s h small ran =
    let (s', ran', good) = run-Kept schedule (begin memory) (begin-Good memory h small) in
    subst (Good (length memory)) (some_inj (sym ran' ∙ ran)) good

-- No signal is lost: on a queue with at least one block and no more than `ringbuf_create` allows, in
-- every schedule of one thread that pushes and one that pops, when the consumer
-- waits, no signal is left and the producer has returned from its last call, every message that was
-- pushed has been popped.
pub run-no_lost_signal :
    (memory : List RingBlock) (schedule : List Action) (s : System) (ok : Bool)
    → 0 < length memory
    → length memory ≤ 32767
    → run schedule (begin memory) ≡ some s
    → s.producer ≡ Push.returned ok
    → s.consumer ≡ Pop.waiting
    → s.ring.signals ≡ 0
    → length s.popped ≡ length s.pushed
run-no_lost_signal memory schedule s ok h small ran producer consumer signals =
    let count = Good-signals s (reached memory schedule s h small ran) in
    omega (arith, count, ap woken consumer, ap holding consumer, ap unsignalled producer)
