-- ===== src/RingBuf/Spsc/Pushing/Claim.antt =====
-- The producer finds a block and claims it.
use zeq_server_trilogy.Common.{
  ℕ, ◌+◌, ◌<◌, ◌≡◌, ◌≢◌, inl, inr, sym, ap, subst, ◌∙◌, refl, Bool, false, not, Option, [], ◌∷◌,
  ◌++◌, ◌==◌, ◌&&◌, arith, Bool-cases, length-append, get_or-append, get_or-append_last,
}
use zeq_server_trilogy.RingBuf.{Message, Push, Pop}
use zeq_server_trilogy.RingBuf.Spsc.{
  System, act, block, message, no_message, received, Carries, Holds,
}
use zeq_server_trilogy.RingBuf.Spsc.Position.{position, position-lt, position-suc, position-round}
use zeq_server_trilogy.RingBuf.Spsc.Invariant.{Inv}
use zeq_server_trilogy.RingBuf.Spsc.Frame.{
  View, PushAt, push_act, Kept, on, found, next_at, system, push_on,
}
use zeq_server_trilogy.RingBuf.Spsc.Locals.{AtPop-append}

module _ (v : View) (c : Pop) where
  open v use {n, rb, ms, got, rs, re, ws, we, d}

  abbrev At : Push → Type 0
  At = PushAt v c

  abbrev step : Bool → Push → Option System
  step = push_act v c

  pub start-Kept :
      (fails : Bool) (m : Message) → At (Push.start m) → Kept n (step fails (Push.start m))
  unfolding act
  start-Kept fails m inv =
      on v (Push.check m rb.write_end) c refl
        (push_on inv (Push.check m rb.write_end) refl inv.written (inv.at_push, inv.indexes.at_we))

  -- The load of `readStart`: a block is claimed only if the ring is not full.
  pub room_left :
      {p : Push}
      → At p
      → (i : ℕ) → i ≡ position n we
      → (block rb i).next_index ≢ rb.read_start
      → we + 1 < rs + n
  room_left inv i at ne =
      let link =
        ap (λ (j : ℕ). (block rb j).next_index) at
        ∙ inv.ring.linked (position n we) (position-lt n we inv.ring.some_blocks) in
      let full : we + 1 ≢ rs + n = λ e. ne (
        link
        ∙ sym (position-suc n we)
        ∙ ap (position n) e
        ∙ position-round n rs inv.ring.some_blocks
        ∙ sym inv.indexes.at_rs) in
      omega (arith, inv.indexes.room)

  pub check-Kept :
      (fails : Bool) (m : Message) (i : ℕ)
      → At (Push.check m i)
      → Kept n (step fails (Push.check m i))
  unfolding act
  check-Kept fails m i inv =
      let (idle, at) = inv.at_push in
      let here = found v inv i we at in
      elim (Bool-cases ((block rb i).next_index == rb.read_start)) [
        | inl full ↦
            on v (Push.returned false) c (rw (here, full) refl)
              (push_on inv (Push.returned false) refl inv.written idle)
        | inr free ↦ on v (Push.claim m i) c (rw (here, free) refl) (
            push_on inv (Push.claim m i) refl inv.written
              (idle, at, room_left inv i at (λ e. ground (arith, e, free))))
      ]

  -- The claim of a block, with the message at the end of those that count as pushed
  pub claimed-Inv :
      (m : Message) (i : ℕ)
      → At (Push.claim m i)
      → Inv n
          (system
            (record rb { write_end = (block rb i).next_index })
            (Push.store_opcode m i)
            c
            (ms ++ m ∷ [])
            got)
          rs
          re
          ws
          (we + 1)
          d
  claimed-Inv m i inv =
      let (idle, at, room) = inv.at_push in
      let x = inv.indexes in
      let size = inv.counts.pushed in
      let old : (k : ℕ) → k < we → message ms k ≡ message (ms ++ m ∷ []) k =
        λ k lt. sym (get_or-append ms (m ∷ []) k no_message (omega (arith, size))) in
      record {
        ring = record {
          size = inv.ring.size;
          some_blocks = inv.ring.some_blocks;
          linked = inv.ring.linked;
        };
        indexes = record {
          rs_re = x.rs_re;
          re_ws = x.re_ws;
          ws_we = omega (arith, x.ws_we);
          room = room;
          at_rs = x.at_rs;
          at_re = x.at_re;
          at_ws = x.at_ws;
          at_we = next_at v inv i we at;
        };
        counts = record {
          pushed = omega (arith, length-append ms (m ∷ []), size);
          popped = inv.counts.popped;
          held = inv.counts.held;
          signals = omega (arith, inv.counts.signals);
        };
        written = λ j lt. inv.written j lt;
        read = inv.read;
        content = λ k lo hi.
            subst (λ (y : Message). Holds y (block rb (position n k))) (old k (omega (arith, idle)))
              (inv.content k lo hi);
        returned = λ k lt.
            subst (λ (y : Message). Carries y (received got k).opcode (received got k).bytes)
              (old k (omega (arith, x.re_ws, x.ws_we, inv.counts.held))) (inv.returned k lt);
        at_push = (
          omega arith,
          at ∙ ap (position n) idle,
          ap (message (ms ++ m ∷ [])) (sym idle ∙ sym size) ∙ get_or-append_last ms m no_message,
        );
        at_pop =
            AtPop-append n ms (ms ++ m ∷ []) rs re d c
              (λ e. old d (omega (arith, e, x.re_ws, x.ws_we, inv.counts.held))) inv.at_pop;
      }

  pub claim-Kept :
      (fails : Bool) (m : Message) (i : ℕ)
      → At (Push.claim m i)
      → Kept n (step fails (Push.claim m i))
  unfolding act
  claim-Kept fails m i inv =
      let (idle, at, room) = inv.at_push in
      let here = found v inv i we at in
      elim (Bool-cases (rb.write_end == i && not fails)) [
        | inl won ↦ (
          system (record rb { write_end = (block rb i).next_index }) (Push.store_opcode m i) c
              (ms ++ m ∷ []) got,
          rw (here, won) refl,
          (rs, re, ws, we + 1, d, claimed-Inv m i inv),
        )
        | inr lost ↦
            on v (Push.start m) c (rw (here, lost) refl)
              (push_on inv (Push.start m) refl inv.written idle)
      ]
