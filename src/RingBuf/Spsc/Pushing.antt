-- ===== src/RingBuf/Spsc/Pushing.antt =====
-- Every step of the producer keeps the invariant.
mod Claim
mod Store
mod Publish
use zeq_server_trilogy.Common.{
  ℕ, ◌+◌, ◌-◌, ◌≤◌, ◌<◌, ◌≡◌, ◌≢◌, ◌⊎◌, inl, inr, sym, ap, subst, ◌∙◌, refl, Bool, true, false, not,
  Option, none, some, List, [], ◌∷◌, ◌++◌, length, ltb, ◌==◌, ◌&&◌, if◌then◌else◌, arith,
  Bool-cases, ==_iff, get_elem?, ℕ_discrete, get_elem?-eq-get_or, length-append, get_or-append,
  get_or-append_last,
}
use zeq_server_trilogy.RingBuf.{
  RingBlock, RingBuf, Message, Received, Push, Pop, set_block, store_to, push_step,
}
use zeq_server_trilogy.RingBuf.Spsc.{
  System, act, push, call_push, block, no_block, message, no_message, received, Carries, Holds,
}
use zeq_server_trilogy.RingBuf.Spsc.Position.{
  next, position, position-lt, position-ne, position-suc, position-round,
}
use zeq_server_trilogy.RingBuf.Spsc.Invariant.{
  unsignalled, woken, holding, InPlace, Got, AtPush, AtPop, IsRing, Indexes, Written, Read, Content,
  Returned, Counts, Inv, Good,
}
use zeq_server_trilogy.RingBuf.Spsc.Frame.{
  View, ViewInv, PushAt, push_act, Kept, on, inside, found, next_at, stored, in_place, system,
  push_on, push_block,
}
use zeq_server_trilogy.RingBuf.Spsc.Block.{with_block-some, block_self, block_other, block_keep}
use zeq_server_trilogy.RingBuf.Spsc.Locals.{AtPop-append}
use Claim.{start-Kept, check-Kept, claim-Kept}
use Store.{opcode-Kept, bytes-Kept, flag-Kept}
use Publish.{advance-Kept, clear-Kept, move-Kept, signalled-Inv}

module _ (v : View) (c : Pop) where
  open v use {n, rb, ms, got, rs, re, ws, we, d}

  abbrev At : Push → Type 0
  At = PushAt v c

  abbrev step : Bool → Push → Option System
  step = push_act v c

  pub push-Kept : (fails : Bool) (p : Push) → At p → Kept n (step fails p)
  unfolding act
  push-Kept fails (Push.returned ok) inv = on v (Push.returned ok) c refl inv
  push-Kept fails (Push.start m) inv = start-Kept v c fails m inv
  push-Kept fails (Push.check m i) inv = check-Kept v c fails m i inv
  push-Kept fails (Push.claim m i) inv = claim-Kept v c fails m i inv
  push-Kept fails (Push.store_opcode m i) inv = opcode-Kept v c fails m i inv
  push-Kept fails (Push.store_bytes m i) inv = bytes-Kept v c fails m i inv
  push-Kept fails (Push.flag i) inv = flag-Kept v c fails i inv
  push-Kept fails Push.advance inv = advance-Kept v c fails inv
  push-Kept fails (Push.clear i) inv = clear-Kept v c fails i inv
  push-Kept fails (Push.move i) inv = move-Kept v c fails i inv
  push-Kept fails Push.signal inv = (
    system (record rb { signals = rb.signals + 1 }) (Push.returned true) c ms got,
    refl,
    (rs, re, ws, we, d, signalled-Inv v c inv),
  )

  pub call_push-Kept :
      (m : Message) (p : Push) → At p → Kept n (act (call_push m) (system rb p c ms got))
  unfolding act
  call_push-Kept m (Push.returned ok) inv =
      on v (Push.start m) c refl (push_on inv (Push.start m) refl inv.written inv.at_push)
  call_push-Kept m (Push.start m') inv = on v (Push.start m') c refl inv
  call_push-Kept m (Push.check m' i) inv = on v (Push.check m' i) c refl inv
  call_push-Kept m (Push.claim m' i) inv = on v (Push.claim m' i) c refl inv
  call_push-Kept m (Push.store_opcode m' i) inv = on v (Push.store_opcode m' i) c refl inv
  call_push-Kept m (Push.store_bytes m' i) inv = on v (Push.store_bytes m' i) c refl inv
  call_push-Kept m (Push.flag i) inv = on v (Push.flag i) c refl inv
  call_push-Kept m Push.advance inv = on v Push.advance c refl inv
  call_push-Kept m (Push.clear i) inv = on v (Push.clear i) c refl inv
  call_push-Kept m (Push.move i) inv = on v (Push.move i) c refl inv
  call_push-Kept m Push.signal inv = on v Push.signal c refl inv
