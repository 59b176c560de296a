-- ===== src/RingBuf/Spsc/Begin.antt =====
-- The queue as `ringbuf_create` leaves it.
use zeq_server_trilogy.Common.{
  ℕ, zero, suc, ◌+◌, ◌≤◌, ◌<◌, ◌^◌, ◌∙◌, ◌≡◌, refl, ap, false, List, [], ◌∷◌, length, get_or, ◌==◌,
  if◌then◌else◌, arith,
}
use zeq_server_trilogy.RingBuf.{RingBlock, int16, init, init_blocks}
use zeq_server_trilogy.RingBuf.Spsc.{begin, no_block}
use zeq_server_trilogy.RingBuf.Spsc.Position.{next, position}
use zeq_server_trilogy.RingBuf.Spsc.Invariant.{Good}

length-init_blocks : (i : ℕ) (bs : List RingBlock) → length (init_blocks i bs) ≡ length bs
unfolding init_blocks
length-init_blocks i [] = refl
length-init_blocks i (b ∷ []) = refl
length-init_blocks i (b ∷ c ∷ bs) = ap suc (length-init_blocks (i + 1) (c ∷ bs))

int16_small : (k : ℕ) → k < 2 ^ 15 → int16 k ≡ k
int16_small k h = ground arith

-- Block `j` of those from block `i` on
init_blocks_lem :
    (i j : ℕ) (bs : List RingBlock)
    → j < length bs
    → i + length bs ≤ 2 ^ 15
    → ((get_or (init_blocks i bs) j no_block).next_index
        ≡ (if j + 1 == length bs then 0 else i + j + 1))
      × ((get_or (init_blocks i bs) j no_block).has_been_read ≡ false)
      × ((get_or (init_blocks i bs) j no_block).has_been_written ≡ false)
unfolding init_blocks
init_blocks_lem i j [] h small = elim h [ ]
init_blocks_lem i zero (b ∷ []) h small = (ground arith, refl, refl)
init_blocks_lem i (suc j) (b ∷ []) h small = absurd (omega arith)
init_blocks_lem i zero (b ∷ c ∷ bs) h small =
    (int16_small (i + 1) (omega arith) ∙ ground arith, refl, refl)
init_blocks_lem i (suc j) (b ∷ c ∷ bs) h small =
    let (link, read, written) = init_blocks_lem (i + 1) j (c ∷ bs) (omega arith) (omega arith) in
    (ground (arith, link), read, written)

pub begin-Good :
    (memory : List RingBlock)
    → 0 < length memory
    → length memory ≤ 32767
    → Good (length memory) (begin memory)
unfolding init position next
begin-Good memory h small = (
  0,
  0,
  0,
  0,
  0,
  record {
    ring = record {
      size = length-init_blocks 0 memory;
      some_blocks = h;
      linked = λ j lt. ground (arith, (init_blocks_lem 0 j memory lt (omega arith)).0);
    };
    indexes = record {
      rs_re = omega arith;
      re_ws = omega arith;
      ws_we = omega arith;
      room = omega arith;
      at_rs = refl;
      at_re = refl;
      at_ws = refl;
      at_we = refl;
    };
    counts = record { pushed = refl; popped = refl; held = refl; signals = omega arith };
    written = λ j lt. (init_blocks_lem 0 j memory lt (omega arith)).2;
    read = λ j lt. (init_blocks_lem 0 j memory lt (omega arith)).1;
    content = λ k lo hi. absurd (omega arith);
    returned = λ k lt. absurd (omega arith);
    at_push = refl;
    at_pop = refl;
  },
)
