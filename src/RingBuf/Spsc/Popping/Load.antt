-- ===== src/RingBuf/Spsc/Popping/Load.antt =====
-- The consumer copies the message out of its block.
use zeq_server_trilogy.Common.{
  ℕ, ◌+◌, ◌≡◌, inr, sym, ap, subst, ◌∙◌, refl, Bool, true, Option, arith, ℕ_discrete,
}
use zeq_server_trilogy.RingBuf.{RingBlock, Received, Push, Pop, set_block}
use zeq_server_trilogy.RingBuf.Spsc.{System, act, block, message, Holds}
use zeq_server_trilogy.RingBuf.Spsc.Position.{position}
use zeq_server_trilogy.RingBuf.Spsc.Invariant.{holding, Read}
use zeq_server_trilogy.RingBuf.Spsc.Frame.{
  View, PopAt, pop_act, Kept, on, inside, found, stored, pop_on, pop_block,
}
use zeq_server_trilogy.RingBuf.Spsc.Block.{block_self, block_other}

module _ (v : View) (p : Push) where
  open v use {n, rb, ms, got, rs, re, ws, we, d}

  abbrev At : Pop → Type 0
  At = PopAt v p

  abbrev step : Bool → Pop → Option System
  step = pop_act v p

  -- The message of the consumer is in its block.
  there :
      {c : Pop} (i : ℕ)
      → At c
      → re ≡ rs + 1
      → holding c ≡ 1
      → i ≡ position n rs
      → Holds (message ms d) (block rb i)
  there i inv one held at =
      let first : d ≡ rs = omega (arith, inv.counts.held) in
      let old = inv.content rs (omega arith) (omega (arith, inv.indexes.re_ws)) in
      subst (λ (k : ℕ). Holds (message ms k) (block rb i)) (sym first)
        (subst (λ (j : ℕ). Holds (message ms rs) (block rb j)) (sym at) old)

  pub opcode-Kept :
      (fails : Bool) (i : ℕ) → At (Pop.load_opcode i) → Kept n (step fails (Pop.load_opcode i))
  unfolding act
  opcode-Kept fails i inv =
      let (one, at) = inv.at_pop in
      let c = Pop.load_bytes i (block rb i).opcode in
      on v p c (rw (found v inv i rs at) refl)
        (pop_on inv c refl refl inv.read (one, at, (there i inv one refl at).0))

  pub bytes-Kept :
      (fails : Bool) (i opcode : ℕ)
      → At (Pop.load_bytes i opcode)
      → Kept n (step fails (Pop.load_bytes i opcode))
  unfolding act
  bytes-Kept fails i opcode inv =
      let (one, at, same) = inv.at_pop in
      let c = Pop.flag i (record { opcode = opcode; bytes = (block rb i).bytes }) in
      on v p c (rw (found v inv i rs at) refl)
        (pop_on inv c refl refl inv.read (one, at, (same, (there i inv one refl at).1)))

  pub flag-Kept :
      (fails : Bool) (i : ℕ) (g : Received) → At (Pop.flag i g) → Kept n (step fails (Pop.flag i g))
  unfolding act
  flag-Kept fails i g inv =
      let (one, at, right) = inv.at_pop in
      let f : RingBlock → RingBlock = λ b. record b { has_been_read = true } in
      let b = f (block rb (position n rs)) in
      let self = block_self rb (position n rs) b (inside v inv rs) in
      let read : Read n (set_block rb (position n rs) b) rs re (Pop.advance g) = λ j lt.
        elim (ℕ_discrete (position n rs) j) [
          | yes e ↦
              ap (λ (k : ℕ). (block (set_block rb (position n rs) b) k).has_been_read) (sym e)
              ∙ ap (λ (x : RingBlock). x.has_been_read) self
              ∙ ground arith
          | no ne ↦
              ap (λ (x : RingBlock). x.has_been_read) (block_other rb (position n rs) j b ne)
              ∙ inv.read j lt
              ∙ ground arith
        ] in
      stored v f i rs p (Pop.advance g) at (rw (found v inv i rs at) refl)
        (pop_block inv (Pop.advance g) true refl refl read (inr one, right))
