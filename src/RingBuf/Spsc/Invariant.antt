-- ===== src/RingBuf/Spsc/Invariant.antt =====
-- What holds between the steps. Messages are counted from the start: `rs` of them have been read and
-- their blocks released, `re` have been claimed by the consumer, `ws` have been written, `we` have been
-- claimed by the producer, and `d` have been returned.
use zeq_server_trilogy.Common.{
  ℕ, ◌+◌, ◌≤◌, ◌<◌, ◌≡◌, ◌⊎◌, Bool, true, false, List, length, ltb, ◌==◌, ◌&&◌,
}
use zeq_server_trilogy.RingBuf.{RingBuf, Message, Received, Push, Pop}
use zeq_server_trilogy.RingBuf.Spsc.{System, block, message, received, Carries, Holds}
use zeq_server_trilogy.RingBuf.Spsc.Position.{next, position}

-- The flag of a block may be set.
abbrev pub armed_push : Push → Bool
armed_push Push.advance = true
armed_push (Push.clear i) = true
armed_push (Push.returned ok) = false
armed_push (Push.start m) = false
armed_push (Push.check m i) = false
armed_push (Push.claim m i) = false
armed_push (Push.store_opcode m i) = false
armed_push (Push.store_bytes m i) = false
armed_push (Push.flag i) = false
armed_push (Push.move i) = false
armed_push Push.signal = false

abbrev pub armed_pop : Pop → Bool
armed_pop (Pop.advance got) = true
armed_pop (Pop.clear i got) = true
armed_pop (Pop.returned got) = false
armed_pop Pop.waiting = false
armed_pop Pop.start = false
armed_pop (Pop.check i) = false
armed_pop (Pop.claim i) = false
armed_pop (Pop.load_opcode i) = false
armed_pop (Pop.load_bytes i opcode) = false
armed_pop (Pop.flag i got) = false
armed_pop (Pop.move i got) = false

-- A message is claimed, and its signal is not given yet.
abbrev pub unsignalled : Push → ℕ
unsignalled (Push.returned ok) = 0
unsignalled (Push.start m) = 0
unsignalled (Push.check m i) = 0
unsignalled (Push.claim m i) = 0
unsignalled (Push.store_opcode m i) = 1
unsignalled (Push.store_bytes m i) = 1
unsignalled (Push.flag i) = 1
unsignalled Push.advance = 1
unsignalled (Push.clear i) = 1
unsignalled (Push.move i) = 1
unsignalled Push.signal = 1

-- A signal is taken, and no message is claimed for it yet.
abbrev pub woken : Pop → ℕ
woken Pop.start = 1
woken (Pop.check i) = 1
woken (Pop.claim i) = 1
woken (Pop.returned got) = 0
woken Pop.waiting = 0
woken (Pop.load_opcode i) = 0
woken (Pop.load_bytes i opcode) = 0
woken (Pop.flag i got) = 0
woken (Pop.advance got) = 0
woken (Pop.clear i got) = 0
woken (Pop.move i got) = 0

-- A message is claimed and not returned yet.
abbrev pub holding : Pop → ℕ
holding (Pop.load_opcode i) = 1
holding (Pop.load_bytes i opcode) = 1
holding (Pop.flag i got) = 1
holding (Pop.advance got) = 1
holding (Pop.clear i got) = 1
holding (Pop.move i got) = 1
holding (Pop.returned got) = 0
holding Pop.waiting = 0
holding Pop.start = 0
holding (Pop.check i) = 0
holding (Pop.claim i) = 0

-- Message `k` is in its block.
abbrev pub InPlace : ℕ → RingBuf → List Message → ℕ → Type 0
InPlace n rb ms k = Holds (message ms k) (block rb (position n k))

abbrev pub Got : List Message → ℕ → Received → Type 0
Got ms k r = Carries (message ms k) r.opcode r.bytes

-- What the locals of the producer say
abbrev pub AtPush : ℕ → RingBuf → List Message → (rs ws we : ℕ) → Push → Type 0
AtPush n rb ms rs ws we (Push.returned ok) = we ≡ ws
AtPush n rb ms rs ws we (Push.start m) = we ≡ ws
AtPush n rb ms rs ws we (Push.check m i) = (we ≡ ws) × (i ≡ position n we)
AtPush n rb ms rs ws we (Push.claim m i) = (we ≡ ws) × (i ≡ position n we) × (we + 1 < rs + n)
AtPush n rb ms rs ws we (Push.store_opcode m i) =
    (we ≡ ws + 1) × (i ≡ position n ws) × (message ms ws ≡ m)
AtPush n rb ms rs ws we (Push.store_bytes m i) =
    (we ≡ ws + 1)
    × (i ≡ position n ws)
    × (message ms ws ≡ m)
    × ((block rb (position n ws)).opcode ≡ m.opcode)
AtPush n rb ms rs ws we (Push.flag i) = (we ≡ ws + 1) × (i ≡ position n ws) × InPlace n rb ms ws
AtPush n rb ms rs ws we Push.advance = (we ≡ ws) ⊎ ((we ≡ ws + 1) × InPlace n rb ms ws)
AtPush n rb ms rs ws we (Push.clear i) =
    (i ≡ position n ws) × ((we ≡ ws) ⊎ ((we ≡ ws + 1) × InPlace n rb ms ws))
AtPush n rb ms rs ws we (Push.move i) = (we ≡ ws + 1) × (i ≡ position n ws) × InPlace n rb ms ws
AtPush n rb ms rs ws we Push.signal = we ≡ ws

-- What the locals of the consumer say
abbrev pub AtPop : ℕ → List Message → (rs re d : ℕ) → Pop → Type 0
AtPop n ms rs re d (Pop.returned got) = re ≡ rs
AtPop n ms rs re d Pop.waiting = re ≡ rs
AtPop n ms rs re d Pop.start = re ≡ rs
AtPop n ms rs re d (Pop.check i) = (re ≡ rs) × (i ≡ position n re)
AtPop n ms rs re d (Pop.claim i) = (re ≡ rs) × (i ≡ position n re)
AtPop n ms rs re d (Pop.load_opcode i) = (re ≡ rs + 1) × (i ≡ position n rs)
AtPop n ms rs re d (Pop.load_bytes i opcode) =
    (re ≡ rs + 1) × (i ≡ position n rs) × (opcode ≡ (message ms d).opcode)
AtPop n ms rs re d (Pop.flag i got) = (re ≡ rs + 1) × (i ≡ position n rs) × Got ms d got
AtPop n ms rs re d (Pop.advance got) = ((re ≡ rs) ⊎ (re ≡ rs + 1)) × Got ms d got
AtPop n ms rs re d (Pop.clear i got) =
    ((re ≡ rs) ⊎ (re ≡ rs + 1)) × (i ≡ position n rs) × Got ms d got
AtPop n ms rs re d (Pop.move i got) = (re ≡ rs + 1) × (i ≡ position n rs) × Got ms d got

-- The blocks form a ring.
pub record IsRing (n : ℕ) (rb : RingBuf) : Type 0 where
  pub size : length rb.blocks ≡ n
  pub some_blocks : 0 < n
  pub linked : (i : ℕ) → i < n → (block rb i).next_index ≡ next n i

pub record Indexes (n : ℕ) (rb : RingBuf) (rs re ws we : ℕ) : Type 0 where
  pub rs_re : rs ≤ re
  pub re_ws : re ≤ ws
  pub ws_we : ws ≤ we
  pub room : we < rs + n
  pub at_rs : rb.read_start ≡ position n rs
  pub at_re : rb.read_end ≡ position n re
  pub at_ws : rb.write_start ≡ position n ws
  pub at_we : rb.write_end ≡ position n we

-- The flag `hasBeenWritten` is set in at most one block, that of the message that is published next; so
-- is `hasBeenRead`.
abbrev pub Written : ℕ → RingBuf → (ws we : ℕ) → Push → Type 0
Written n rb ws we p =
    (i : ℕ)
    → i < n
    → (block rb i).has_been_written ≡ (armed_push p && (ltb ws we && i == position n ws))

abbrev pub Read : ℕ → RingBuf → (rs re : ℕ) → Pop → Type 0
Read n rb rs re p =
    (i : ℕ)
    → i < n
    → (block rb i).has_been_read ≡ (armed_pop p && (ltb rs re && i == position n rs))

abbrev pub Content : ℕ → RingBuf → List Message → (rs ws : ℕ) → Type 0
Content n rb ms rs ws = (k : ℕ) → rs ≤ k → k < ws → InPlace n rb ms k

abbrev pub Returned : List Message → List Received → ℕ → Type 0
Returned ms got d = (k : ℕ) → k < d → Got ms k (received got k)

pub record Counts (n : ℕ) (s : System) (re we d : ℕ) : Type 0 where
  pub pushed : length s.pushed ≡ we
  pub popped : length s.popped ≡ d
  pub held : re ≡ d + holding s.consumer
  pub signals : s.ring.signals + woken s.consumer + re + unsignalled s.producer ≡ we

pub record Inv (n : ℕ) (s : System) (rs re ws we d : ℕ) : Type 0 where
  pub ring : IsRing n s.ring
  pub indexes : Indexes n s.ring rs re ws we
  pub counts : Counts n s re we d
  pub written : Written n s.ring ws we s.producer
  pub read : Read n s.ring rs re s.consumer
  pub content : Content n s.ring s.pushed rs ws
  pub returned : Returned s.pushed s.popped d
  pub at_push : AtPush n s.ring s.pushed rs ws we s.producer
  pub at_pop : AtPop n s.pushed rs re d s.consumer

abbrev pub Good : ℕ → System → Type 0
Good n s = (rs : ℕ) × (re : ℕ) × (ws : ℕ) × (we : ℕ) × (d : ℕ) × Inv n s rs re ws we d
