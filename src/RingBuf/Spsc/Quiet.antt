-- ===== src/RingBuf/Spsc/Quiet.antt =====
-- A step of the consumer leaves alone what the producer reads on its way.
use zeq_server_trilogy.Common.{
  ℕ, ◌≡◌, refl, sym, subst, Bool, true, false, Option, none, some, get_elem?, get_elem?-eq-get_or,
  lt_of_get_elem?, Option-cases, inl, inr, ◌==◌, not, ◌&&◌, if◌then◌else◌, ◌-◌, ◌∙◌, ap,
}
use zeq_server_trilogy.RingBuf.{RingBlock, RingBuf, Pop, pop_step, with_block, set_block}
use zeq_server_trilogy.RingBuf.Spsc.{block, no_block}
use zeq_server_trilogy.RingBuf.Spsc.Block.{block_keep}

abbrev pub Quiet : RingBuf → RingBuf → Type 0
Quiet rb rb' =
    (rb'.write_start ≡ rb.write_start)
    × ((j : ℕ) → (block rb' j).has_been_written ≡ (block rb j).has_been_written)

abbrev pub AllQuiet : RingBuf → Option (RingBuf × Pop) → Type 0
AllQuiet rb none = Unit
AllQuiet rb (some r) = Quiet rb r.0

with_block-Quiet :
    (rb : RingBuf) (i : ℕ) (f : RingBlock → RingBuf × Pop)
    → ((b : RingBlock) → get_elem? rb.blocks i ≡ some b → Quiet rb (f b).0)
    → AllQuiet rb (with_block rb i f)
unfolding with_block
with_block-Quiet rb i f h = elim (Option-cases (get_elem? rb.blocks i)) [
  | inl e ↦
      let run : with_block rb i f ≡ none = rw (with_block, e) refl in
      subst (AllQuiet rb) (sym run) tt
  | inr (b, e) ↦
      let run : with_block rb i f ≡ some (f b) = rw (with_block, e) refl in
      subst (AllQuiet rb) (sym run) (h b e)
]

some_inj : {a b : RingBlock} → some a ≡ some b → a ≡ b
some_inj h = cc

-- The flag of the consumer changes in a block.
flag-Quiet :
    (rb : RingBuf) (i : ℕ) (b : RingBlock) (flag : Bool)
    → get_elem? rb.blocks i ≡ some b
    → Quiet rb (set_block rb i (record b { has_been_read = flag }))
flag-Quiet rb i b flag e =
    let lt = lt_of_get_elem? rb.blocks i e in
    let same : b ≡ block rb i = some_inj (sym e ∙ get_elem?-eq-get_or rb.blocks i no_block lt) in
    (
      refl,
      λ j.
          block_keep (λ (x : RingBlock). x.has_been_written) rb i j
            (record b { has_been_read = flag }) lt
            (ap (λ (x : RingBlock). x.has_been_written) same),
    )

if-Quiet :
    (rb : RingBuf) (t : Bool) (x y : RingBuf × Pop)
    → Quiet rb x.0
    → Quiet rb y.0
    → Quiet rb (if t then x else y).0
if-Quiet rb true x y hx hy = hx
if-Quiet rb false x y hx hy = hy

if_ring-Quiet :
    (rb : RingBuf) (t : Bool) (x y : RingBuf)
    → Quiet rb x
    → Quiet rb y
    → Quiet rb (if t then x else y)
if_ring-Quiet rb true x y hx hy = hx
if_ring-Quiet rb false x y hx hy = hy

pub pop_step-Quiet : (fails : Bool) (rb : RingBuf) (c : Pop) → AllQuiet rb (pop_step fails rb c)
unfolding pop_step
pop_step-Quiet fails rb (Pop.returned r) = (refl, λ j. refl)
pop_step-Quiet fails rb Pop.waiting =
    if-Quiet rb (rb.signals == 0) (rb, Pop.waiting)
      (record rb { signals = rb.signals - 1 }, Pop.start) (refl, λ j. refl) (refl, λ j. refl)
pop_step-Quiet fails rb Pop.start = (refl, λ j. refl)
pop_step-Quiet fails rb (Pop.check i) = (refl, λ j. refl)
pop_step-Quiet fails rb (Pop.claim i) = with_block-Quiet rb i _ (λ b e.
    if-Quiet rb (rb.read_end == i && not fails)
      (record rb { read_end = b.next_index }, Pop.load_opcode i) (rb, Pop.start) (refl, λ j. refl)
      (refl, λ j. refl))
pop_step-Quiet fails rb (Pop.load_opcode i) = with_block-Quiet rb i _ (λ b e. (refl, λ j. refl))
pop_step-Quiet fails rb (Pop.load_bytes i opcode) =
    with_block-Quiet rb i _ (λ b e. (refl, λ j. refl))
pop_step-Quiet fails rb (Pop.flag i g) = with_block-Quiet rb i _ (λ b e. flag-Quiet rb i b true e)
pop_step-Quiet fails rb (Pop.advance g) = (refl, λ j. refl)
pop_step-Quiet fails rb (Pop.clear i g) = with_block-Quiet rb i _ (λ b e.
    if-Quiet rb b.has_been_read (set_block rb i (record b { has_been_read = false }), Pop.move i g)
      (rb, Pop.returned (some g)) (flag-Quiet rb i b false e) (refl, λ j. refl))
pop_step-Quiet fails rb (Pop.move i g) = with_block-Quiet rb i _ (λ b e.
    if_ring-Quiet rb (rb.read_start == i) (record rb { read_start = b.next_index }) rb
      (refl, λ j. refl) (refl, λ j. refl))
