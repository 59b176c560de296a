-- ===== src/RingBuf/Spsc/Pushing/Store.antt =====
-- The producer fills its block.
use zeq_server_trilogy.Common.{
  ℕ, ◌≡◌, inr, sym, ap, ◌∙◌, refl, Bool, true, Option, none, some, List, arith, ℕ_discrete,
}
use zeq_server_trilogy.RingBuf.{RingBlock, Message, Push, Pop, set_block, store_to}
use zeq_server_trilogy.RingBuf.Spsc.{System, act, block, Holds}
use zeq_server_trilogy.RingBuf.Spsc.Position.{position}
use zeq_server_trilogy.RingBuf.Spsc.Invariant.{Written}
use zeq_server_trilogy.RingBuf.Spsc.Frame.{
  View, PushAt, push_act, Kept, inside, found, stored, in_place, push_block,
}
use zeq_server_trilogy.RingBuf.Spsc.Block.{block_self, block_other, block_keep}

module _ (v : View) (c : Pop) where
  open v use {n, rb, ms, got, rs, re, ws, we, d}

  abbrev At : Push → Type 0
  At = PushAt v c

  abbrev step : Bool → Push → Option System
  step = push_act v c

  pub keep_written :
      {p : Push} (b : RingBlock)
      → At p
      → b.has_been_written ≡ (block rb (position n ws)).has_been_written
      → (j : ℕ)
      → (block (set_block rb (position n ws) b) j).has_been_written ≡ (block rb j).has_been_written
  keep_written b inv same j =
      block_keep (λ (x : RingBlock). x.has_been_written) rb (position n ws) j b (inside v inv ws)
        same

  pub opcode-Kept :
      (fails : Bool) (m : Message) (i : ℕ)
      → At (Push.store_opcode m i)
      → Kept n (step fails (Push.store_opcode m i))
  unfolding act
  opcode-Kept fails m i inv =
      let (one, at, here_m) = inv.at_push in
      let f : RingBlock → RingBlock = λ b. record b { opcode = m.opcode } in
      let b = f (block rb (position n ws)) in
      let p' = Push.store_bytes m i in
      stored v f i ws p' c at (rw (found v inv i ws at) refl) (
        push_block inv p' b one refl refl refl
          (λ j lt. keep_written b inv refl j ∙ inv.written j lt)
          (
            one,
            at,
            here_m,
            ap (λ (x : RingBlock). x.opcode) (block_self rb (position n ws) b (inside v inv ws)),
          ))

  pub store_to_same :
      (b : RingBlock) (q : Option (List ℕ))
      → ((store_to b q).next_index ≡ b.next_index)
        × ((store_to b q).has_been_read ≡ b.has_been_read)
        × ((store_to b q).has_been_written ≡ b.has_been_written)
        × ((store_to b q).opcode ≡ b.opcode)
  store_to_same b none = (refl, refl, refl, refl)
  store_to_same b (some q) = (refl, refl, refl, refl)

  pub store_to_bytes :
      (b : RingBlock) (q : Option (List ℕ)) (p : List ℕ) → q ≡ some p → (store_to b q).bytes ≡ p
  store_to_bytes b none p e = cc
  store_to_bytes b (some q) p e = ground arith

  pub bytes-Kept :
      (fails : Bool) (m : Message) (i : ℕ)
      → At (Push.store_bytes m i)
      → Kept n (step fails (Push.store_bytes m i))
  unfolding act
  bytes-Kept fails m i inv =
      let (one, at, here_m, opcode) = inv.at_push in
      let f : RingBlock → RingBlock = λ b. store_to b m.bytes in
      let b = f (block rb (position n ws)) in
      let same = store_to_same (block rb (position n ws)) m.bytes in
      let self = block_self rb (position n ws) b (inside v inv ws) in
      let holds : Holds m b =
        (same.3 ∙ opcode, store_to_bytes (block rb (position n ws)) m.bytes) in
      stored v f i ws (Push.flag i) c at (rw (found v inv i ws at) refl) (
        push_block inv (Push.flag i) b one refl same.0 same.1
          (λ j lt. keep_written b inv same.2 j ∙ inv.written j lt)
          (one, at, in_place v (set_block rb (position n ws) b) ws b here_m self holds))

  pub flag-Kept : (fails : Bool) (i : ℕ) → At (Push.flag i) → Kept n (step fails (Push.flag i))
  unfolding act
  flag-Kept fails i inv =
      let (one, at, there) = inv.at_push in
      let f : RingBlock → RingBlock = λ b. record b { has_been_written = true } in
      let old = block rb (position n ws) in
      let b = f old in
      let self = block_self rb (position n ws) b (inside v inv ws) in
      let written : Written n (set_block rb (position n ws) b) ws we Push.advance = λ j lt.
        elim (ℕ_discrete (position n ws) j) [
          | yes e ↦
              ap (λ (k : ℕ). (block (set_block rb (position n ws) b) k).has_been_written) (sym e)
              ∙ ap (λ (x : RingBlock). x.has_been_written) self
              ∙ ground arith
          | no ne ↦
              ap (λ (x : RingBlock). x.has_been_written) (block_other rb (position n ws) j b ne)
              ∙ inv.written j lt
              ∙ ground arith
        ] in
      stored v f i ws Push.advance c at (rw (found v inv i ws at) refl) (
        push_block inv Push.advance b one refl refl refl written
          (inr (one, in_place v (set_block rb (position n ws) b) ws b refl self there)))
