-- ===== src/RingBuf/Spsc/Popping/Release.antt =====
-- The consumer releases its block, and the call returns.
use zeq_server_trilogy.Common.{
  ℕ, ◌+◌, ◌≤◌, ◌≡◌, inl, inr, sym, ap, subst, ◌∙◌, refl, Bool, true, false, Option, some, [], ◌∷◌,
  ◌++◌, ltb, ◌==◌, arith, Bool-cases, ℕ_discrete, length-append, get_or-append, get_or-append_last,
}
use zeq_server_trilogy.RingBuf.{RingBlock, Received, Push, Pop, set_block}
use zeq_server_trilogy.RingBuf.Spsc.{System, act, block, received, no_received}
use zeq_server_trilogy.RingBuf.Spsc.Position.{position, position-lt}
use zeq_server_trilogy.RingBuf.Spsc.Invariant.{Got, Read, Inv}
use zeq_server_trilogy.RingBuf.Spsc.Frame.{
  View, PopAt, pop_act, Kept, on, inside, found, next_at, stored, system, pop_on, pop_block,
}
use zeq_server_trilogy.RingBuf.Spsc.Block.{block_self, block_other}
use zeq_server_trilogy.RingBuf.Spsc.Locals.{AtPush-ring}

not_lt : {a b : ℕ} → ltb a b ≡ false → b ≤ a
not_lt h = ground arith

module _ (v : View) (p : Push) where
  open v use {n, rb, ms, got, rs, re, ws, we, d}

  abbrev At : Pop → Type 0
  At = PopAt v p

  abbrev step : Bool → Pop → Option System
  step = pop_act v p

  pub advance-Kept :
      (fails : Bool) (g : Received) → At (Pop.advance g) → Kept n (step fails (Pop.advance g))
  unfolding act
  advance-Kept fails g inv =
      let (state, right) = inv.at_pop in
      let c = Pop.clear rb.read_start g in
      on v p c refl (pop_on inv c refl refl inv.read (state, inv.indexes.at_rs, right))

  -- The flag of the block at `readStart` is set exactly when a message waits to be released.
  waits :
      {i : ℕ} {g : Received}
      → At (Pop.clear i g)
      → (block rb (position n rs)).has_been_read ≡ ltb rs re
  waits inv = inv.read (position n rs) (position-lt n rs inv.ring.some_blocks) ∙ ground arith

  -- The call returns.
  returned-Inv :
      (i : ℕ) (g : Received)
      → At (Pop.clear i g)
      → re ≡ rs
      → Inv n (system rb p (Pop.returned (some g)) ms (got ++ g ∷ [])) rs re ws we (d + 1)
  returned-Inv i g inv done =
      let (state, at, right) = inv.at_pop in
      let size = inv.counts.popped in
      record {
        ring = inv.ring;
        indexes = inv.indexes;
        counts = record {
          pushed = inv.counts.pushed;
          popped = omega (arith, length-append got (g ∷ []), size);
          held = omega (arith, inv.counts.held);
          signals = inv.counts.signals;
        };
        written = inv.written;
        read = λ j lt. inv.read j lt ∙ ground arith;
        content = inv.content;
        returned = λ k lt. elim (ℕ_discrete k d) [
          | yes e ↦
              let last : received (got ++ g ∷ []) k ≡ g =
                ap (received (got ++ g ∷ [])) (e ∙ sym size)
                ∙ get_or-append_last got g no_received in
              subst (Got ms k) (sym last) (subst (λ (j : ℕ). Got ms j g) (sym e) right)
          | no ne ↦
              subst (Got ms k)
                (sym (get_or-append got (g ∷ []) k no_received (omega (arith, size))))
                (inv.returned k (omega arith))
        ];
        at_push = inv.at_push;
        at_pop = done;
      }

  pub clear-Kept :
      (fails : Bool) (i : ℕ) (g : Received)
      → At (Pop.clear i g)
      → Kept n (step fails (Pop.clear i g))
  unfolding act
  clear-Kept fails i g inv =
      let (state, at, right) = inv.at_pop in
      let here = found v inv i rs at in
      let flag = ap (λ (j : ℕ). (block rb j).has_been_read) at ∙ waits inv in
      let f : RingBlock → RingBlock = λ b. record b { has_been_read = false } in
      let b = f (block rb (position n rs)) in
      let self = block_self rb (position n rs) b (inside v inv rs) in
      elim (Bool-cases (block rb i).has_been_read) [
        | inl set ↦ elim state [
          | inl done ↦ absurd (ground (arith, flag, set))
          | inr one ↦
              let read : Read n (set_block rb (position n rs) b) rs re (Pop.move i g) = λ j lt.
                elim (ℕ_discrete (position n rs) j) [
                  | yes e ↦
                      ap (λ (k : ℕ). (block (set_block rb (position n rs) b) k).has_been_read)
                        (sym e)
                      ∙ ap (λ (x : RingBlock). x.has_been_read) self
                  | no ne ↦
                      ap (λ (x : RingBlock). x.has_been_read)
                        (block_other rb (position n rs) j b ne)
                      ∙ inv.read j lt
                      ∙ ground arith
                ] in
              stored v f i rs p (Pop.move i g) at (rw (here, set) refl)
                (pop_block inv (Pop.move i g) false refl refl read (one, at, right))
        ]
        | inr unset ↦
            let done : re ≡ rs = omega (arith, inv.indexes.rs_re, not_lt (sym flag ∙ unset)) in
            (
              system rb p (Pop.returned (some g)) ms (got ++ g ∷ []),
              rw (here, unset) refl,
              (rs, re, ws, we, d + 1, returned-Inv i g inv done),
            )
      ]

  -- `readStart` moves on, and the block is released.
  moved-Inv :
      (i : ℕ) (g : Received)
      → At (Pop.move i g)
      → Inv n
          (system (record rb { read_start = (block rb i).next_index }) p (Pop.advance g) ms got)
          (rs + 1)
          re
          ws
          we
          d
  moved-Inv i g inv =
      let (one, at, right) = inv.at_pop in
      let x = inv.indexes in
      record {
        ring = record {
          size = inv.ring.size;
          some_blocks = inv.ring.some_blocks;
          linked = inv.ring.linked;
        };
        indexes = record {
          rs_re = omega arith;
          re_ws = x.re_ws;
          ws_we = x.ws_we;
          room = omega (arith, x.room);
          at_rs = next_at v inv i rs at;
          at_re = x.at_re;
          at_ws = x.at_ws;
          at_we = x.at_we;
        };
        counts = record {
          pushed = inv.counts.pushed;
          popped = inv.counts.popped;
          held = inv.counts.held;
          signals = inv.counts.signals;
        };
        written = inv.written;
        read = λ j lt. inv.read j lt ∙ ground arith;
        content = λ k lo hi. inv.content k (omega arith) hi;
        returned = inv.returned;
        at_push =
            AtPush-ring n rb (record rb { read_start = (block rb i).next_index }) ms rs (rs + 1) ws
              we p (λ j. (refl, refl)) (omega arith) inv.at_push;
        at_pop = (inl one, right);
      }

  pub move-Kept :
      (fails : Bool) (i : ℕ) (g : Received) → At (Pop.move i g) → Kept n (step fails (Pop.move i g))
  unfolding act
  move-Kept fails i g inv =
      let (one, at, right) = inv.at_pop in
      let won : (rb.read_start == i) ≡ true = ground (arith, at, inv.indexes.at_rs) in
      (
        system (record rb { read_start = (block rb i).next_index }) p (Pop.advance g) ms got,
        rw (found v inv i rs at, won) refl,
        (rs + 1, re, ws, we, d, moved-Inv i g inv),
      )
