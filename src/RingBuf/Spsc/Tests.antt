-- ===== src/RingBuf/Spsc/Tests.antt =====
-- Two threads over a queue of two blocks
use zeq_server_trilogy.Common.{
  ℕ, zero, suc, ◌≤◌, ◌≡◌, refl, Bool, true, false, none, some, List, [], ◌∷◌, length, arith,
}
use zeq_server_trilogy.RingBuf.{init, RingBlock, Message, Push, Pop}
use zeq_server_trilogy.RingBuf.Spsc.{
  System, Action, call_push, call_pop, push, pop, run, begin, no_block,
}
use zeq_server_trilogy.RingBuf.Spsc.Fifo.{Fifo, run-Fifo, run-no_lost_signal}
use zeq_server_trilogy.RingBuf.Spsc.Progress.{Finishing, turns, push-returns}

abbrev two_blocks : List RingBlock
two_blocks = no_block ∷ no_block ∷ []

abbrev hello : Message
hello = record { opcode = 7; bytes = some (1 ∷ 2 ∷ []) }

abbrev pushes : ℕ → List Action → List Action
pushes zero as' = as'
pushes (suc k) as' = push false ∷ pushes k as'

abbrev pops : ℕ → List Action → List Action
pops zero as' = as'
pops (suc k) as' = pop false ∷ pops k as'

-- The consumer waits already when the message comes.
abbrev exchange : List Action
exchange = call_pop ∷ pop false ∷ call_push hello ∷ pushes 12 (pops 12 (call_pop ∷ []))

exchange_result :
    elim (run exchange (begin two_blocks)) [ none ↦ [] | some s ↦ s.popped ]
    ≡ record { opcode = 7; bytes = 1 ∷ 2 ∷ [] } ∷ []
unfolding run init
exchange_result = refl

run-Fifo_example :
    (s : System) × (run exchange (begin two_blocks) ≡ some s) × Fifo (length two_blocks) s
run-Fifo_example = run-Fifo two_blocks exchange (omega arith) (omega arith)

abbrev first_block : RingBlock
first_block = record {
  next_index = 1;
  has_been_read = false;
  has_been_written = false;
  opcode = 7;
  bytes = 1 ∷ 2 ∷ [];
}

-- The message was popped, and the consumer waits again.
abbrev exchanged : System
exchanged = record {
  ring = record {
    read_start = 1;
    read_end = 1;
    write_start = 1;
    write_end = 1;
    signals = 0;
    blocks = first_block ∷ no_block ∷ [];
  };
  producer = Push.returned true;
  consumer = Pop.waiting;
  pushed = hello ∷ [];
  popped = record { opcode = 7; bytes = 1 ∷ 2 ∷ [] } ∷ [];
}

exchange-exchanged : run exchange (begin two_blocks) ≡ some exchanged
unfolding run init
exchange-exchanged = refl

run-no_lost_signal_example : length exchanged.popped ≡ length exchanged.pushed
run-no_lost_signal_example =
    run-no_lost_signal two_blocks exchange exchanged true (omega arith) (omega arith)
      exchange-exchanged refl refl refl

abbrev calling : System
calling = record (begin two_blocks) { producer = Push.start hello }

called : run (call_push hello ∷ []) (begin two_blocks) ≡ some calling
unfolding run
called = refl

-- The consumer steps in between.
abbrev rest : List Action
rest = call_pop ∷ pushes 6 (pop false ∷ pushes 6 [])

rest-Finishing : Finishing rest
unfolding Finishing
rest-Finishing = (
  refl,
  (refl, (refl, (refl, (refl, (refl, (refl, (refl, (refl, (refl, (refl, (refl, tt))))))))))),
)

rest-turns : 12 ≤ turns rest
unfolding turns
rest-turns = omega arith

push-returns_example :
    (s' : System) × (ok : Bool) × (run rest calling ≡ some s') × (s'.producer ≡ Push.returned ok)
push-returns_example =
    push-returns two_blocks (call_push hello ∷ []) rest calling (omega arith) (omega arith) called
      rest-Finishing rest-turns
