-- ===== src/RingBuf/Spsc/Locals.antt =====
-- What the threads know of the ring, when it changes elsewhere.
use zeq_server_trilogy.Common.{inl, inr, ℕ, ◌+◌, ◌≤◌, ◌≡◌, ap, subst, ◌∙◌, List, arith, refl}
use zeq_server_trilogy.RingBuf.{RingBuf, Message, Push, Pop}
use zeq_server_trilogy.RingBuf.Spsc.{block, message, Carries}
use zeq_server_trilogy.RingBuf.Spsc.Position.{position}
use zeq_server_trilogy.RingBuf.Spsc.Invariant.{unsignalled, holding, AtPush, AtPop}
use zeq_server_trilogy.RingBuf.Spsc.Block.{InPlace-ring}

-- A new message changes nothing for those that are there.
pub AtPop-append :
    (n : ℕ) (ms ms' : List Message) (rs re d : ℕ) (c : Pop)
    → (holding c ≡ 1 → message ms d ≡ message ms' d)
    → AtPop n ms rs re d c
    → AtPop n ms' rs re d c
AtPop-append n ms ms' rs re d (Pop.returned got) same h = h
AtPop-append n ms ms' rs re d Pop.waiting same h = h
AtPop-append n ms ms' rs re d Pop.start same h = h
AtPop-append n ms ms' rs re d (Pop.check i) same h = h
AtPop-append n ms ms' rs re d (Pop.claim i) same h = h
AtPop-append n ms ms' rs re d (Pop.load_opcode i) same h = h
AtPop-append n ms ms' rs re d (Pop.load_bytes i opcode) same h =
    (h.0, h.1, h.2 ∙ ap (λ (m : Message). m.opcode) (same refl))
AtPop-append n ms ms' rs re d (Pop.flag i got) same h =
    (h.0, h.1, subst (λ (m : Message). Carries m got.opcode got.bytes) (same refl) h.2)
AtPop-append n ms ms' rs re d (Pop.advance got) same h =
    (h.0, subst (λ (m : Message). Carries m got.opcode got.bytes) (same refl) h.1)
AtPop-append n ms ms' rs re d (Pop.clear i got) same h =
    (h.0, h.1, subst (λ (m : Message). Carries m got.opcode got.bytes) (same refl) h.2)
AtPop-append n ms ms' rs re d (Pop.move i got) same h =
    (h.0, h.1, subst (λ (m : Message). Carries m got.opcode got.bytes) (same refl) h.2)

-- What the producer knows stays known when the ring changes elsewhere.
pub AtPush-ring :
    (n : ℕ) (rb rb' : RingBuf) (ms : List Message) (rs rs' ws we : ℕ) (p : Push)
    → ((j : ℕ)
        → ((block rb' j).opcode ≡ (block rb j).opcode) × ((block rb' j).bytes ≡ (block rb j).bytes))
    → rs ≤ rs'
    → AtPush n rb ms rs ws we p
    → AtPush n rb' ms rs' ws we p
AtPush-ring n rb rb' ms rs rs' ws we (Push.returned ok) same le h = h
AtPush-ring n rb rb' ms rs rs' ws we (Push.start m) same le h = h
AtPush-ring n rb rb' ms rs rs' ws we (Push.check m i) same le h = h
AtPush-ring n rb rb' ms rs rs' ws we (Push.claim m i) same le h = (h.0, h.1, omega arith)
AtPush-ring n rb rb' ms rs rs' ws we (Push.store_opcode m i) same le h = h
AtPush-ring n rb rb' ms rs rs' ws we (Push.store_bytes m i) same le h =
    (h.0, h.1, h.2, (same (position n ws)).0 ∙ h.3)
AtPush-ring n rb rb' ms rs rs' ws we (Push.flag i) same le h =
    (h.0, h.1, InPlace-ring n rb rb' ms ws same h.2)
AtPush-ring n rb rb' ms rs rs' ws we Push.advance same le (inl h) = inl h
AtPush-ring n rb rb' ms rs rs' ws we Push.advance same le (inr h) =
    inr (h.0, InPlace-ring n rb rb' ms ws same h.1)
AtPush-ring n rb rb' ms rs rs' ws we (Push.clear i) same le (at, inl h) = (at, inl h)
AtPush-ring n rb rb' ms rs rs' ws we (Push.clear i) same le (at, inr h) =
    (at, inr (h.0, InPlace-ring n rb rb' ms ws same h.1))
AtPush-ring n rb rb' ms rs rs' ws we (Push.move i) same le h =
    (h.0, h.1, InPlace-ring n rb rb' ms ws same h.2)
AtPush-ring n rb rb' ms rs rs' ws we Push.signal same le h = h

-- A claimed message that is not published has not been signalled.
pub AtPush-le :
    (n : ℕ) (rb : RingBuf) (ms : List Message) (rs ws we : ℕ) (p : Push)
    → AtPush n rb ms rs ws we p
    → we ≤ ws + unsignalled p
AtPush-le n rb ms rs ws we (Push.returned ok) h = omega arith
AtPush-le n rb ms rs ws we (Push.start m) h = omega arith
AtPush-le n rb ms rs ws we (Push.check m i) h = omega (arith, h.0)
AtPush-le n rb ms rs ws we (Push.claim m i) h = omega (arith, h.0)
AtPush-le n rb ms rs ws we (Push.store_opcode m i) h = omega (arith, h.0)
AtPush-le n rb ms rs ws we (Push.store_bytes m i) h = omega (arith, h.0)
AtPush-le n rb ms rs ws we (Push.flag i) h = omega (arith, h.0)
AtPush-le n rb ms rs ws we Push.advance (inl h) = omega arith
AtPush-le n rb ms rs ws we Push.advance (inr h) = omega (arith, h.0)
AtPush-le n rb ms rs ws we (Push.clear i) (at, inl h) = omega arith
AtPush-le n rb ms rs ws we (Push.clear i) (at, inr h) = omega (arith, h.0)
AtPush-le n rb ms rs ws we (Push.move i) h = omega (arith, h.0)
AtPush-le n rb ms rs ws we Push.signal h = omega arith
