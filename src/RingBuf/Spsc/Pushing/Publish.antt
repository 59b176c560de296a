-- ===== src/RingBuf/Spsc/Pushing/Publish.antt =====
-- The producer publishes what is written, and gives the signal.
use zeq_server_trilogy.Common.{
  ℕ, ◌+◌, ◌≤◌, ◌≡◌, inl, inr, sym, ap, subst, ◌∙◌, refl, Bool, true, false, Option, ltb, ◌==◌,
  arith, Bool-cases, ℕ_discrete,
}
use zeq_server_trilogy.RingBuf.{RingBlock, Push, Pop, set_block}
use zeq_server_trilogy.RingBuf.Spsc.{System, act, block}
use zeq_server_trilogy.RingBuf.Spsc.Position.{position, position-lt}
use zeq_server_trilogy.RingBuf.Spsc.Invariant.{InPlace, Written, Inv}
use zeq_server_trilogy.RingBuf.Spsc.Frame.{
  View, PushAt, push_act, Kept, on, inside, found, next_at, stored, in_place, system, push_on,
  push_block,
}
use zeq_server_trilogy.RingBuf.Spsc.Block.{block_self, block_other}

not_lt : {a b : ℕ} → ltb a b ≡ false → b ≤ a
not_lt h = ground arith

module _ (v : View) (c : Pop) where
  open v use {n, rb, ms, got, rs, re, ws, we, d}

  abbrev At : Push → Type 0
  At = PushAt v c

  abbrev step : Bool → Push → Option System
  step = push_act v c

  pub advance-Kept : (fails : Bool) → At Push.advance → Kept n (step fails Push.advance)
  unfolding act
  advance-Kept fails inv =
      on v (Push.clear rb.write_start) c refl
        (push_on inv (Push.clear rb.write_start) refl inv.written (inv.indexes.at_ws, inv.at_push))

  -- The flag of the block at `writeStart` is set exactly when a message waits to be published.
  pub waits : {i : ℕ} → At (Push.clear i) → (block rb (position n ws)).has_been_written ≡ ltb ws we
  waits inv = inv.written (position n ws) (position-lt n ws inv.ring.some_blocks) ∙ ground arith

  pub clear-Kept : (fails : Bool) (i : ℕ) → At (Push.clear i) → Kept n (step fails (Push.clear i))
  unfolding act
  clear-Kept fails i inv =
      let (at, state) = inv.at_push in
      let here = found v inv i ws at in
      let flag = ap (λ (j : ℕ). (block rb j).has_been_written) at ∙ waits inv in
      let f : RingBlock → RingBlock = λ b. record b { has_been_written = false } in
      let b = f (block rb (position n ws)) in
      let self = block_self rb (position n ws) b (inside v inv ws) in
      elim (Bool-cases (block rb i).has_been_written) [
        | inl set ↦ elim state [
          | inl done ↦ absurd (ground (arith, flag, set))
          | inr (one, there) ↦
              let written : Written n (set_block rb (position n ws) b) ws we (Push.move i) = λ j lt.
                elim (ℕ_discrete (position n ws) j) [
                  | yes e ↦
                      ap (λ (k : ℕ). (block (set_block rb (position n ws) b) k).has_been_written)
                        (sym e)
                      ∙ ap (λ (x : RingBlock). x.has_been_written) self
                  | no ne ↦
                      ap (λ (x : RingBlock). x.has_been_written)
                        (block_other rb (position n ws) j b ne)
                      ∙ inv.written j lt
                      ∙ ground arith
                ] in
              stored v f i ws (Push.move i) c at (rw (here, set) refl) (
                push_block inv (Push.move i) b one refl refl refl written
                  (one, at, in_place v (set_block rb (position n ws) b) ws b refl self there))
        ]
        | inr unset ↦ on v Push.signal c (rw (here, unset) refl) (
            push_on inv Push.signal refl (λ j lt. inv.written j lt ∙ ground (arith, flag, unset))
              (omega (arith, inv.indexes.ws_we, not_lt (sym flag ∙ unset))))
      ]

  -- `writeStart` moves on, and the message is published.
  pub moved-Inv :
      (i : ℕ)
      → At (Push.move i)
      → Inv n
          (system (record rb { write_start = (block rb i).next_index }) Push.advance c ms got)
          rs
          re
          (ws + 1)
          we
          d
  moved-Inv i inv =
      let (one, at, there) = inv.at_push in
      let x = inv.indexes in
      record {
        ring = record {
          size = inv.ring.size;
          some_blocks = inv.ring.some_blocks;
          linked = inv.ring.linked;
        };
        indexes = record {
          rs_re = x.rs_re;
          re_ws = omega (arith, x.re_ws);
          ws_we = omega arith;
          room = x.room;
          at_rs = x.at_rs;
          at_re = x.at_re;
          at_ws = next_at v inv i ws at;
          at_we = x.at_we;
        };
        counts = record {
          pushed = inv.counts.pushed;
          popped = inv.counts.popped;
          held = inv.counts.held;
          signals = inv.counts.signals;
        };
        written = λ j lt. inv.written j lt ∙ ground arith;
        read = inv.read;
        content = λ k lo hi. elim (ℕ_discrete ws k) [
          | yes e ↦ subst (λ (j : ℕ). InPlace n rb ms j) e there
          | no ne ↦ inv.content k lo (omega arith)
        ];
        returned = inv.returned;
        at_push = inl one;
        at_pop = inv.at_pop;
      }

  pub move-Kept : (fails : Bool) (i : ℕ) → At (Push.move i) → Kept n (step fails (Push.move i))
  unfolding act
  move-Kept fails i inv =
      let (one, at, there) = inv.at_push in
      let won : (rb.write_start == i) ≡ true = ground (arith, at, inv.indexes.at_ws) in
      (
        system (record rb { write_start = (block rb i).next_index }) Push.advance c ms got,
        rw (found v inv i ws at, won) refl,
        (rs, re, ws + 1, we, d, moved-Inv i inv),
      )

  pub signalled-Inv :
      At Push.signal
      → Inv n
          (system (record rb { signals = rb.signals + 1 }) (Push.returned true) c ms got)
          rs
          re
          ws
          we
          d
  signalled-Inv inv =
      let x = inv.indexes in
      record {
        ring = record {
          size = inv.ring.size;
          some_blocks = inv.ring.some_blocks;
          linked = inv.ring.linked;
        };
        indexes = record {
          rs_re = x.rs_re;
          re_ws = x.re_ws;
          ws_we = x.ws_we;
          room = x.room;
          at_rs = x.at_rs;
          at_re = x.at_re;
          at_ws = x.at_ws;
          at_we = x.at_we;
        };
        counts = record {
          pushed = inv.counts.pushed;
          popped = inv.counts.popped;
          held = inv.counts.held;
          signals = omega (arith, inv.counts.signals);
        };
        written = inv.written;
        read = inv.read;
        content = inv.content;
        returned = inv.returned;
        at_push = inv.at_push;
        at_pop = inv.at_pop;
      }
