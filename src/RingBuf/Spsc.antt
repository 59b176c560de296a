-- ===== src/RingBuf/Spsc.antt =====
-- One thread that pushes and one that pops, interleaved in any order: the system, and what each program
-- counter says of the shared memory.
pub mod Position
pub mod Invariant
mod Block
mod Locals
mod Frame
mod Pushing
mod Popping
mod Begin
mod Fifo
mod Quiet
mod Progress
mod Tests
use zeq_server_trilogy.Common.{
  ℕ, zero, suc, ◌+◌, ◌≤◌, ◌<◌, ◌≡◌, ◌⊎◌, Bool, true, false, Option, none, some, List, [], ◌∷◌, ◌++◌,
  get_or, length, ltb, ◌==◌, ◌&&◌,
}
use zeq_server_trilogy.RingBuf.{
  RingBlock, RingBuf, Message, Received, Push, Pop, init, push_step, pop_step,
}
use Position.{next, position}

-- The shared queue, both threads, and what has been pushed and what has been returned, in order.
pub record System : Type 0 where
  pub ring : RingBuf
  pub producer : Push
  pub consumer : Pop
  pub pushed : List Message
  pub popped : List Received

-- A thread that has returned may call again; a thread may take a step.
pub data Action : Type 0 where
  call_push : (m : Message) → Action
  call_pop : Action
  push : (fails : Bool) → Action
  pop : (fails : Bool) → Action

-- A message counts as pushed when its block is claimed, and as popped when the call returns.
pub claimed : Push → Push → List Message → List Message
claimed (Push.claim m index) (Push.store_opcode m' index') ms = ms ++ m ∷ []
claimed p p' ms = ms

pub delivered : Pop → Pop → List Received → List Received
delivered (Pop.clear index got) (Pop.returned r) rs = rs ++ got ∷ []
delivered p p' rs = rs

called_push : Message → Push → Push
called_push m (Push.returned ok) = Push.start m
called_push m p = p

called_pop : Pop → Pop
called_pop (Pop.returned got) = Pop.waiting
called_pop p = p

-- `none` is an access outside the memory of the queue.
pub act : Action → System → Option System
unfolding push_step pop_step claimed delivered called_push called_pop
act (call_push m) s = some (record s { producer = called_push m s.producer })
act call_pop s = some (record s { consumer = called_pop s.consumer })
act (push fails) s = elim (push_step fails s.ring s.producer) [
  | none ↦ none
  | some (rb, p) ↦
      some (record s { ring = rb; producer = p; pushed = claimed s.producer p s.pushed })
]
act (pop fails) s = elim (pop_step fails s.ring s.consumer) [
  | none ↦ none
  | some (rb, p) ↦
      some (record s { ring = rb; consumer = p; popped = delivered s.consumer p s.popped })
]

pub run : List Action → System → Option System
unfolding act
run [] s = some s
run (a ∷ as') s = elim (act a s) [ none ↦ none | some s' ↦ run as' s' ]

abbrev pub begin : List RingBlock → System
begin memory = record {
  ring = init memory;
  producer = Push.returned true;
  consumer = Pop.returned none;
  pushed = [];
  popped = [];
}

-- The block and the messages at an index; the defaults are never used.
abbrev pub no_block : RingBlock
no_block = record {
  next_index = 0;
  has_been_read = false;
  has_been_written = false;
  opcode = 0;
  bytes = [];
}

abbrev pub block : RingBuf → ℕ → RingBlock
block rb i = get_or rb.blocks i no_block

abbrev pub no_message : Message
no_message = record { opcode = 0; bytes = none }

abbrev pub message : List Message → ℕ → Message
message ms k = get_or ms k no_message

abbrev pub no_received : Received
no_received = record { opcode = 0; bytes = [] }

abbrev pub received : List Received → ℕ → Received
received rs k = get_or rs k no_received

-- A message, and the opcode and the bytes that stand for it; those of a null pointer are not said.
abbrev pub Carries : Message → ℕ → List ℕ → Type 0
Carries m opcode bytes = (opcode ≡ m.opcode) × ((p : List ℕ) → m.bytes ≡ some p → bytes ≡ p)

abbrev pub Holds : Message → RingBlock → Type 0
Holds m b = Carries m b.opcode b.bytes
