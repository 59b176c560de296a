-- ===== src/RingBuf/Tests.antt =====
-- Two threads that push at the same time, on a queue of two blocks. A thread that has checked that
-- there is room, and is then held up for a round of the queue, claims a block of a full queue: the
-- queue then looks empty, although two messages are in it.
use zeq_server_trilogy.Common.{
  ℕ, zero, suc, ◌≡◌, refl, false, Option, none, some, List, [], ◌∷◌, ◌>>=◌,
}
use mathlib.Core.Option
use zeq_server_trilogy.RingBuf.{RingBlock, RingBuf, Message, Push, Pop, init, push_step, pop_step}

abbrev empty_block : RingBlock
empty_block = record {
  next_index = 0;
  has_been_read = false;
  has_been_written = false;
  opcode = 0;
  bytes = [];
}

abbrev two_blocks : RingBuf
two_blocks = init (empty_block ∷ empty_block ∷ [])

abbrev numbered : ℕ → Message
numbered n = record { opcode = n; bytes = none }

-- A number of steps of one thread
push_steps : ℕ → RingBuf → Push → Option (RingBuf × Push)
unfolding push_step
push_steps zero rb p = some (rb, p)
push_steps (suc n) rb p = elim (push_step false rb p) [
  | none ↦ none
  | some (rb', p') ↦ push_steps n rb' p'
]

pop_steps : ℕ → RingBuf → Pop → Option (RingBuf × Pop)
unfolding pop_step
pop_steps zero rb p = some (rb, p)
pop_steps (suc n) rb p = elim (pop_step false rb p) [
  | none ↦ none
  | some (rb', p') ↦ pop_steps n rb' p'
]

-- The first thread stands before its claim; the other pushes 1, which is popped, and 2; then the first
-- thread goes on.
abbrev overrun : Option RingBuf
overrun = do
  held ← push_steps 2 two_blocks (Push.start (numbered 9))
  first ← push_steps 12 held.0 (Push.start (numbered 1))
  popped ← pop_steps 12 first.0 Pop.waiting
  second ← push_steps 12 popped.0 (Push.start (numbered 2))
  last ← push_steps 12 second.0 held.1
  some last.0

indexes : RingBuf → List ℕ
indexes rb = rb.read_start ∷ rb.read_end ∷ rb.write_start ∷ rb.write_end ∷ rb.signals ∷ []

overrun_result : Option.map indexes overrun ≡ some (1 ∷ 1 ∷ 1 ∷ 1 ∷ 2 ∷ [])
unfolding push_steps pop_steps init indexes
overrun_result = refl
