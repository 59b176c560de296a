-- ===== src/RingBuf/Spsc/Popping.antt =====
-- Every step of the consumer keeps the invariant.
mod Claim
mod Load
mod Release
use zeq_server_trilogy.Common.{
  ℕ, ◌+◌, ◌-◌, ◌≤◌, ◌<◌, ◌≡◌, ◌≢◌, ◌⊎◌, inl, inr, sym, ap, subst, ◌∙◌, refl, Bool, true, false, not,
  Option, none, some, List, [], ◌∷◌, ◌++◌, length, ltb, ◌==◌, ◌&&◌, if◌then◌else◌, arith,
  Bool-cases, ==_iff, get_elem?, ℕ_discrete, length-append, get_or-append, get_or-append_last,
}
use zeq_server_trilogy.RingBuf.{
  RingBlock, RingBuf, Message, Received, Push, Pop, set_block, pop_step,
}
use zeq_server_trilogy.RingBuf.Spsc.{
  System, act, pop, call_pop, block, message, received, no_received, Carries, Holds,
}
use zeq_server_trilogy.RingBuf.Spsc.Position.{position, position-lt, position-ne}
use zeq_server_trilogy.RingBuf.Spsc.Invariant.{
  unsignalled, woken, holding, InPlace, Got, AtPush, AtPop, IsRing, Indexes, Written, Read, Content,
  Returned, Counts, Inv,
}
use zeq_server_trilogy.RingBuf.Spsc.Frame.{
  View, PopAt, pop_act, Kept, on, inside, found, next_at, stored, system, pop_on, pop_block,
}
use zeq_server_trilogy.RingBuf.Spsc.Block.{block_self, block_other}
use zeq_server_trilogy.RingBuf.Spsc.Locals.{AtPush-ring, AtPush-le}
use Claim.{waiting-Kept, start-Kept, check-Kept, claim-Kept}
use Load.{opcode-Kept, bytes-Kept, flag-Kept}
use Release.{advance-Kept, clear-Kept, move-Kept}

module _ (v : View) (p : Push) where
  open v use {n, rb, ms, got, rs, re, ws, we, d}

  abbrev At : Pop → Type 0
  At = PopAt v p

  abbrev step : Bool → Pop → Option System
  step = pop_act v p

  pub pop-Kept : (fails : Bool) (c : Pop) → At c → Kept n (step fails c)
  unfolding act
  pop-Kept fails (Pop.returned r) inv = on v p (Pop.returned r) refl inv
  pop-Kept fails Pop.waiting inv = waiting-Kept v p fails inv
  pop-Kept fails Pop.start inv = start-Kept v p fails inv
  pop-Kept fails (Pop.check i) inv = check-Kept v p fails i inv
  pop-Kept fails (Pop.claim i) inv = claim-Kept v p fails i inv
  pop-Kept fails (Pop.load_opcode i) inv = opcode-Kept v p fails i inv
  pop-Kept fails (Pop.load_bytes i opcode) inv = bytes-Kept v p fails i opcode inv
  pop-Kept fails (Pop.flag i g) inv = flag-Kept v p fails i g inv
  pop-Kept fails (Pop.advance g) inv = advance-Kept v p fails g inv
  pop-Kept fails (Pop.clear i g) inv = clear-Kept v p fails i g inv
  pop-Kept fails (Pop.move i g) inv = move-Kept v p fails i g inv

  pub call_pop-Kept : (c : Pop) → At c → Kept n (act call_pop (system rb p c ms got))
  unfolding act
  call_pop-Kept (Pop.returned r) inv =
      on v p Pop.waiting refl (pop_on inv Pop.waiting refl refl inv.read inv.at_pop)
  call_pop-Kept Pop.waiting inv = on v p Pop.waiting refl inv
  call_pop-Kept Pop.start inv = on v p Pop.start refl inv
  call_pop-Kept (Pop.check i) inv = on v p (Pop.check i) refl inv
  call_pop-Kept (Pop.claim i) inv = on v p (Pop.claim i) refl inv
  call_pop-Kept (Pop.load_opcode i) inv = on v p (Pop.load_opcode i) refl inv
  call_pop-Kept (Pop.load_bytes i opcode) inv = on v p (Pop.load_bytes i opcode) refl inv
  call_pop-Kept (Pop.flag i g) inv = on v p (Pop.flag i g) refl inv
  call_pop-Kept (Pop.advance g) inv = on v p (Pop.advance g) refl inv
  call_pop-Kept (Pop.clear i g) inv = on v p (Pop.clear i g) refl inv
  call_pop-Kept (Pop.move i g) inv = on v p (Pop.move i g) refl inv
