-- ===== src/RingBuf/Spsc/Block.antt =====
-- Blocks of the ring before and after a store.
use zeq_server_trilogy.Common.{
  ℕ, ◌+◌, ◌<◌, ◌≡◌, ◌≢◌, sym, ap, ◌∙◌, some, List, length, arith, refl, ℕ_discrete,
  get_elem?-eq-get_or, get_or-set_self, get_or-set_ne, length-set,
}
use zeq_server_trilogy.RingBuf.{RingBlock, RingBuf, Message, with_block, set_block}
use zeq_server_trilogy.RingBuf.Spsc.{block, no_block}
use zeq_server_trilogy.RingBuf.Spsc.Position.{position, position-ne}
use zeq_server_trilogy.RingBuf.Spsc.Invariant.{InPlace, IsRing}

pub with_block-some :
    {A : Type 0} (rb : RingBuf) (i : ℕ) (f : RingBlock → A)
    → i < length rb.blocks
    → with_block rb i f ≡ some (f (block rb i))
unfolding with_block
with_block-some rb i f h = rw (with_block, get_elem?-eq-get_or rb.blocks i no_block h) refl

pub block_self :
    (rb : RingBuf) (i : ℕ) (b : RingBlock) → i < length rb.blocks → block (set_block rb i b) i ≡ b
block_self rb i b h = get_or-set_self rb.blocks i b no_block h

pub block_other :
    (rb : RingBuf) (i j : ℕ) (b : RingBlock) → i ≢ j → block (set_block rb i b) j ≡ block rb j
block_other rb i j b h = get_or-set_ne rb.blocks i j b no_block h

-- What is the same in the new block is the same in all blocks.
pub block_keep :
    {X : Type 0} (f : RingBlock → X) (rb : RingBuf) (i j : ℕ) (b : RingBlock)
    → i < length rb.blocks
    → f b ≡ f (block rb i)
    → f (block (set_block rb i b) j) ≡ f (block rb j)
block_keep f rb i j b lt same = elim (ℕ_discrete i j) [
  | yes e ↦
      ap (λ (k : ℕ). f (block (set_block rb i b) k)) (sym e)
      ∙ ap f (block_self rb i b lt)
      ∙ same
      ∙ ap (λ (k : ℕ). f (block rb k)) e
  | no ne ↦ ap f (block_other rb i j b ne)
]

pub IsRing-set :
    (n : ℕ) (rb : RingBuf) (i : ℕ) (b : RingBlock)
    → IsRing n rb
    → i < n
    → b.next_index ≡ (block rb i).next_index
    → IsRing n (set_block rb i b)
IsRing-set n rb i b h lt same = record {
  size = length-set rb.blocks i b ∙ h.size;
  some_blocks = h.some_blocks;
  linked = λ j lt_j.
      block_keep (λ x. x.next_index) rb i j b (omega (arith, h.size)) same ∙ h.linked j lt_j;
}

-- Another message stays in its block.
pub InPlace-set :
    (n : ℕ) (rb : RingBuf) (ms : List Message) (j k : ℕ) (b : RingBlock)
    → j < k
    → k < j + n
    → InPlace n rb ms j
    → InPlace n (set_block rb (position n k) b) ms j
InPlace-set n rb ms j k b lt small h =
    let same =
      block_other rb (position n k) (position n j) b (λ e. position-ne n j k lt small (sym e)) in
    (
      ap (λ (x : RingBlock). x.opcode) same ∙ h.0,
      λ p e. ap (λ (x : RingBlock). x.bytes) same ∙ h.1 p e,
    )

pub InPlace-ring :
    (n : ℕ) (rb rb' : RingBuf) (ms : List Message) (k : ℕ)
    → ((j : ℕ)
        → ((block rb' j).opcode ≡ (block rb j).opcode) × ((block rb' j).bytes ≡ (block rb j).bytes))
    → InPlace n rb ms k
    → InPlace n rb' ms k
InPlace-ring n rb rb' ms k same h =
    ((same (position n k)).0 ∙ h.0, λ p e. (same (position n k)).1 ∙ h.1 p e)
