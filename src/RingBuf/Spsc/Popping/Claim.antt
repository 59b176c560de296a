-- ===== src/RingBuf/Spsc/Popping/Claim.antt =====
-- The consumer waits for a signal, and claims a block.
use zeq_server_trilogy.Common.{
  ℕ, ◌+◌, ◌-◌, ◌<◌, ◌≡◌, ◌≢◌, inl, inr, sym, ap, ◌∙◌, refl, Bool, false, not, Option, ◌==◌, ◌&&◌,
  arith, Bool-cases,
}
use zeq_server_trilogy.RingBuf.{Push, Pop}
use zeq_server_trilogy.RingBuf.Spsc.{System, act, block}
use zeq_server_trilogy.RingBuf.Spsc.Position.{position, position-ne}
use zeq_server_trilogy.RingBuf.Spsc.Invariant.{woken, Inv}
use zeq_server_trilogy.RingBuf.Spsc.Frame.{
  View, PopAt, pop_act, Kept, on, found, next_at, system, pop_on,
}
use zeq_server_trilogy.RingBuf.Spsc.Locals.{AtPush-ring, AtPush-le}

module _ (v : View) (p : Push) where
  open v use {n, rb, ms, got, rs, re, ws, we, d}

  abbrev At : Pop → Type 0
  At = PopAt v p

  abbrev step : Bool → Pop → Option System
  step = pop_act v p

  woken-Inv :
      At Pop.waiting
      → rb.signals ≢ 0
      → Inv n (system (record rb { signals = rb.signals - 1 }) p Pop.start ms got) rs re ws we d
  woken-Inv inv ne =
      let x = inv.indexes in
      record {
        ring = record {
          size = inv.ring.size;
          some_blocks = inv.ring.some_blocks;
          linked = inv.ring.linked;
        };
        indexes = record {
          rs_re = x.rs_re;
          re_ws = x.re_ws;
          ws_we = x.ws_we;
          room = x.room;
          at_rs = x.at_rs;
          at_re = x.at_re;
          at_ws = x.at_ws;
          at_we = x.at_we;
        };
        counts = record {
          pushed = inv.counts.pushed;
          popped = inv.counts.popped;
          held = inv.counts.held;
          signals = omega (arith, inv.counts.signals);
        };
        written = inv.written;
        read = inv.read;
        content = inv.content;
        returned = inv.returned;
        at_push =
            AtPush-ring n rb (record rb { signals = rb.signals - 1 }) ms rs rs ws we p
              (λ j. (refl, refl)) (omega arith) inv.at_push;
        at_pop = inv.at_pop;
      }

  pub waiting-Kept : (fails : Bool) → At Pop.waiting → Kept n (step fails Pop.waiting)
  unfolding act
  waiting-Kept fails inv = elim (Bool-cases (rb.signals == 0)) [
    | inl none_yet ↦ on v p Pop.waiting (rw (none_yet) refl) inv
    | inr signal ↦ (
      system (record rb { signals = rb.signals - 1 }) p Pop.start ms got,
      rw (signal) refl,
      (rs, re, ws, we, d, woken-Inv inv (ground arith)),
    )
  ]

  pub start-Kept : (fails : Bool) → At Pop.start → Kept n (step fails Pop.start)
  unfolding act
  start-Kept fails inv =
      on v p (Pop.check rb.read_end) refl
        (pop_on inv (Pop.check rb.read_end) refl refl inv.read (inv.at_pop, inv.indexes.at_re))

  -- A signal was taken for it, so there is a message.
  message_there : {c : Pop} → At c → woken c ≡ 1 → re < ws
  message_there inv e =
      omega (arith, e, inv.counts.signals, AtPush-le n rb ms rs ws we p inv.at_push)

  not_empty : {c : Pop} → At c → woken c ≡ 1 → (i : ℕ) → i ≡ position n re → i ≢ rb.write_start
  not_empty inv e i at same =
      position-ne n re ws (message_there inv e)
        (omega (arith, inv.indexes.rs_re, inv.indexes.ws_we, inv.indexes.room))
        (sym at ∙ same ∙ inv.indexes.at_ws)

  pub check-Kept : (fails : Bool) (i : ℕ) → At (Pop.check i) → Kept n (step fails (Pop.check i))
  unfolding act
  check-Kept fails i inv =
      let (idle, at) = inv.at_pop in
      let some_message = not_empty inv refl i at in
      let test : (i == rb.write_start) ≡ false = ground arith in
      on v p (Pop.claim i) (rw (test) refl) (pop_on inv (Pop.claim i) refl refl inv.read (idle, at))

  claimed-Inv :
      (i : ℕ)
      → At (Pop.claim i)
      → Inv n
          (system (record rb { read_end = (block rb i).next_index }) p (Pop.load_opcode i) ms got)
          rs
          (re + 1)
          ws
          we
          d
  claimed-Inv i inv =
      let (idle, at) = inv.at_pop in
      let x = inv.indexes in
      record {
        ring = record {
          size = inv.ring.size;
          some_blocks = inv.ring.some_blocks;
          linked = inv.ring.linked;
        };
        indexes = record {
          rs_re = omega (arith, x.rs_re);
          re_ws = omega (arith, message_there inv refl);
          ws_we = x.ws_we;
          room = x.room;
          at_rs = x.at_rs;
          at_re = next_at v inv i re at;
          at_ws = x.at_ws;
          at_we = x.at_we;
        };
        counts = record {
          pushed = inv.counts.pushed;
          popped = inv.counts.popped;
          held = omega (arith, inv.counts.held);
          signals = omega (arith, inv.counts.signals);
        };
        written = inv.written;
        read = λ j lt. inv.read j lt;
        content = inv.content;
        returned = inv.returned;
        at_push =
            AtPush-ring n rb (record rb { read_end = (block rb i).next_index }) ms rs rs ws we p
              (λ j. (refl, refl)) (omega arith) inv.at_push;
        at_pop = (omega arith, at ∙ ap (position n) idle);
      }

  pub claim-Kept : (fails : Bool) (i : ℕ) → At (Pop.claim i) → Kept n (step fails (Pop.claim i))
  unfolding act
  claim-Kept fails i inv =
      let (idle, at) = inv.at_pop in
      let here = found v inv i re at in
      elim (Bool-cases (rb.read_end == i && not fails)) [
        | inl won ↦ (
          system (record rb { read_end = (block rb i).next_index }) p (Pop.load_opcode i) ms got,
          rw (here, won) refl,
          (rs, re + 1, ws, we, d, claimed-Inv i inv),
        )
        | inr lost ↦
            on v p Pop.start (rw (here, lost) refl) (pop_on inv Pop.start refl refl inv.read idle)
      ]
