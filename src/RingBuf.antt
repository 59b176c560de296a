-- ===== src/RingBuf.antt =====
-- src/ringbuf.c: the queue of messages between two threads, a shared access at a time. A thread that
-- pushes or pops stands at a program counter that holds its local variables.
pub mod Spsc
mod Tests
use zeq_server_trilogy.Common.{
  ℕ, zero, suc, ◌+◌, ◌-◌, ◌^◌, ltb, u16, Bool, true, false, Option, none, some, List, [], ◌∷◌,
  get_elem?, set, ◌==◌, not, ◌&&◌, if◌then◌else◌, Option-cases,
}

-- `RingBlock`; the flags are atomic.
pub record RingBlock : Type 0 where
  pub next_index : ℕ
  pub has_been_read : Bool
  pub has_been_written : Bool
  pub opcode : ℕ
  pub bytes : List ℕ

-- `RingBuf`; the four indexes are atomic. `signals` is the count of the semaphore.
pub record RingBuf : Type 0 where
  pub read_start : ℕ
  pub read_end : ℕ
  pub write_start : ℕ
  pub write_end : ℕ
  pub signals : ℕ
  pub blocks : List RingBlock

-- What `int16_t` makes of a number; a negative index is the address far behind the memory that it
-- is when it is added to a pointer.
abbrev pub int16 : ℕ → ℕ
int16 k = if ltb (u16 k) (2 ^ 15) then u16 k else 2 ^ 64 + u16 k - 2 ^ 16

-- The loop of `ringbuf_init` from block `i` on; the last block is linked to the first.
pub init_blocks : ℕ → List RingBlock → List RingBlock
init_blocks i [] = []
init_blocks i (b ∷ []) =
    record b { next_index = 0; has_been_read = false; has_been_written = false } ∷ []
init_blocks i (b ∷ c ∷ bs) =
    record b { next_index = int16 (i + 1); has_been_read = false; has_been_written = false }
    ∷ init_blocks (i + 1) (c ∷ bs)

-- `ringbuf_init`; `memory` is what the blocks hold before it.
unfoldable pub init : List RingBlock → RingBuf
unfolding init_blocks
init memory = record {
  read_start = 0;
  read_end = 0;
  write_start = 0;
  write_end = 0;
  signals = 0;
  blocks = init_blocks 0 memory;
}

-- The arguments of `ringbuf_push`; `bytes` is `none` for a null pointer.
pub record Message : Type 0 where
  pub opcode : ℕ
  pub bytes : Option (List ℕ)

-- What a pop copies out of a block
pub record Received : Type 0 where
  pub opcode : ℕ
  pub bytes : List ℕ

-- Where a thread stands in `ringbuf_push` and `ringbuf_push_impl`
pub data Push : Type 0 where
  returned : (ok : Bool) → Push  -- `false` is `ERR_OutOfSpace`
  start : (m : Message) → Push  -- before the load of `writeEnd`
  check : (m : Message) (index : ℕ) → Push  -- before the load of `readStart`
  claim : (m : Message) (index : ℕ) → Push  -- before the compare-exchange of `writeEnd`
  store_opcode : (m : Message) (index : ℕ) → Push
  store_bytes : (m : Message) (index : ℕ) → Push
  flag : (index : ℕ) → Push  -- before `hasBeenWritten` is set
  advance : Push  -- before the load of `writeStart`
  clear : (index : ℕ) → Push  -- before the compare-exchange of `hasBeenWritten`
  move : (index : ℕ) → Push  -- before the compare-exchange of `writeStart`
  signal : Push

-- Where a thread stands in `ringbuf_wait_for_packet`, `ringbuf_pop` and `ringbuf_pop_impl`
pub data Pop : Type 0 where
  returned : (got : Option Received) → Pop
  waiting : Pop  -- before `ringbuf_wait`
  start : Pop  -- before the load of `readEnd`
  check : (index : ℕ) → Pop  -- before the load of `writeStart`
  claim : (index : ℕ) → Pop  -- before the compare-exchange of `readEnd`
  load_opcode : (index : ℕ) → Pop
  load_bytes : (index opcode : ℕ) → Pop
  flag : (index : ℕ) (got : Received) → Pop  -- before `hasBeenRead` is set
  advance : (got : Received) → Pop  -- before the load of `readStart`
  clear : (index : ℕ) (got : Received) → Pop  -- before the compare-exchange of `hasBeenRead`
  move : (index : ℕ) (got : Received) → Pop  -- before the compare-exchange of `readStart`

-- `ringbuf_get_block`: a block outside the memory is a fault.
unfoldable pub with_block : {A : Type 0} → RingBuf → ℕ → (RingBlock → A) → Option A
with_block rb index f = elim (get_elem? rb.blocks index) [ none ↦ none | some b ↦ some (f b) ]

abbrev pub set_block : RingBuf → ℕ → RingBlock → RingBuf
set_block rb index b = record rb { blocks = set rb.blocks index b }

abbrev pub store_to : RingBlock → Option (List ℕ) → RingBlock
store_to b none = b
store_to b (some p) = record b { bytes = p }

-- One step of a push. The compare-exchange of `writeEnd` is a weak one: `fails` says that it fails
-- although the values are equal.
unfoldable pub push_step : Bool → RingBuf → Push → Option (RingBuf × Push)
unfolding with_block
push_step fails rb (Push.returned ok) = some (rb, Push.returned ok)
push_step fails rb (Push.start m) = some (rb, Push.check m rb.write_end)
push_step fails rb (Push.check m index) =
    with_block rb index
      λ b. (rb, if b.next_index == rb.read_start then Push.returned false else Push.claim m index)
push_step fails rb (Push.claim m index) = with_block rb index λ b.
    if rb.write_end == index && not fails
    then (record rb { write_end = b.next_index }, Push.store_opcode m index)
    else (rb, Push.start m)
push_step fails rb (Push.store_opcode m index) =
    with_block rb index
      λ b. (set_block rb index (record b { opcode = m.opcode }), Push.store_bytes m index)
push_step fails rb (Push.store_bytes m index) =
    with_block rb index λ b. (set_block rb index (store_to b m.bytes), Push.flag index)
push_step fails rb (Push.flag index) =
    with_block rb index
      λ b. (set_block rb index (record b { has_been_written = true }), Push.advance)
push_step fails rb Push.advance = some (rb, Push.clear rb.write_start)
push_step fails rb (Push.clear index) = with_block rb index λ b.
    if b.has_been_written
    then (set_block rb index (record b { has_been_written = false }), Push.move index)
    else (rb, Push.signal)
push_step fails rb (Push.move index) = with_block rb index λ b.
    (if rb.write_start == index then record rb { write_start = b.next_index } else rb, Push.advance)
push_step fails rb Push.signal = some (record rb { signals = rb.signals + 1 }, Push.returned true)

-- One step of a pop. At `waiting` with no signals the thread stays where it is; `ERR_Again` goes back to
-- the wait, as in `ringbuf_wait_for_packet`.
unfoldable pub pop_step : Bool → RingBuf → Pop → Option (RingBuf × Pop)
unfolding with_block
pop_step fails rb (Pop.returned got) = some (rb, Pop.returned got)
pop_step fails rb Pop.waiting = some (
    if rb.signals == 0
    then (rb, Pop.waiting)
    else (record rb { signals = rb.signals - 1 }, Pop.start))
pop_step fails rb Pop.start = some (rb, Pop.check rb.read_end)
pop_step fails rb (Pop.check index) =
    some (rb, if index == rb.write_start then Pop.waiting else Pop.claim index)
pop_step fails rb (Pop.claim index) = with_block rb index λ b.
    if rb.read_end == index && not fails
    then (record rb { read_end = b.next_index }, Pop.load_opcode index)
    else (rb, Pop.start)
pop_step fails rb (Pop.load_opcode index) =
    with_block rb index λ b. (rb, Pop.load_bytes index b.opcode)
pop_step fails rb (Pop.load_bytes index opcode) =
    with_block rb index λ b. (rb, Pop.flag index (record { opcode = opcode; bytes = b.bytes }))
pop_step fails rb (Pop.flag index got) =
    with_block rb index
      λ b. (set_block rb index (record b { has_been_read = true }), Pop.advance got)
pop_step fails rb (Pop.advance got) = some (rb, Pop.clear rb.read_start got)
pop_step fails rb (Pop.clear index got) = with_block rb index λ b.
    if b.has_been_read
    then (set_block rb index (record b { has_been_read = false }), Pop.move index got)
    else (rb, Pop.returned (some got))
pop_step fails rb (Pop.move index got) = with_block rb index λ b. (
  if rb.read_start == index then record rb { read_start = b.next_index } else rb,
  Pop.advance got,
)
