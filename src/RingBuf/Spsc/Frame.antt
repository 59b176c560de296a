-- ===== src/RingBuf/Spsc/Frame.antt =====
-- Steps that change little: a program counter, or a block that the other thread does not read.
use zeq_server_trilogy.Common.{
  ℕ, ◌+◌, ◌<◌, ◌≡◌, sym, ap, subst, ◌∙◌, Bool, Option, some, List, length, arith, refl, get_elem?,
  get_elem?-eq-get_or,
}
use zeq_server_trilogy.RingBuf.{RingBlock, RingBuf, Message, Received, Push, Pop, set_block}
use zeq_server_trilogy.RingBuf.Spsc.{System, act, push, pop, block, no_block, message, Holds}
use zeq_server_trilogy.RingBuf.Spsc.Position.{position, position-lt, position-suc}
use zeq_server_trilogy.RingBuf.Spsc.Invariant.{
  unsignalled, woken, holding, InPlace, AtPush, AtPop, Written, Read, Inv, Good,
}
use zeq_server_trilogy.RingBuf.Spsc.Block.{block_keep, IsRing-set, InPlace-set, InPlace-ring}
use zeq_server_trilogy.RingBuf.Spsc.Locals.{AtPush-ring}

abbrev pub system : RingBuf → Push → Pop → List Message → List Received → System
system rb p c ms got = record { ring = rb; producer = p; consumer = c; pushed = ms; popped = got }

module _ {n : ℕ} {rb : RingBuf} {p : Push} {c : Pop} {ms : List Message} {got : List Received}
    {rs re ws we d : ℕ} (inv : Inv n (system rb p c ms got) rs re ws we d) where
  -- The producer moves on, and the ring is as before.
  pub push_on :
      (p' : Push)
      → unsignalled p' ≡ unsignalled p
      → Written n rb ws we p'
      → AtPush n rb ms rs ws we p'
      → Inv n (system rb p' c ms got) rs re ws we d
  push_on p' same written at = record {
    ring = inv.ring;
    indexes = inv.indexes;
    counts = record {
      pushed = inv.counts.pushed;
      popped = inv.counts.popped;
      held = inv.counts.held;
      signals = omega (arith, inv.counts.signals, same);
    };
    written = written;
    read = inv.read;
    content = inv.content;
    returned = inv.returned;
    at_push = at;
    at_pop = inv.at_pop;
  }

  -- The producer changes its block, but not the link or the flag of the consumer.
  pub push_block :
      (p' : Push) (b : RingBlock)
      → we ≡ ws + 1
      → unsignalled p' ≡ unsignalled p
      → b.next_index ≡ (block rb (position n ws)).next_index
      → b.has_been_read ≡ (block rb (position n ws)).has_been_read
      → Written n (set_block rb (position n ws) b) ws we p'
      → AtPush n (set_block rb (position n ws) b) ms rs ws we p'
      → Inv n (system (set_block rb (position n ws) b) p' c ms got) rs re ws we d
  push_block p' b one same link flag written at =
      let h = inv.ring in
      let x = inv.indexes in
      let lt = position-lt n ws h.some_blocks in
      let inside : position n ws < length rb.blocks = omega (arith, h.size) in
      record {
        ring = IsRing-set n rb (position n ws) b h lt link;
        indexes = record {
          rs_re = x.rs_re;
          re_ws = x.re_ws;
          ws_we = x.ws_we;
          room = x.room;
          at_rs = x.at_rs;
          at_re = x.at_re;
          at_ws = x.at_ws;
          at_we = x.at_we;
        };
        counts = record {
          pushed = inv.counts.pushed;
          popped = inv.counts.popped;
          held = inv.counts.held;
          signals = omega (arith, inv.counts.signals, same);
        };
        written = written;
        read = λ i lt_i.
            block_keep (λ x. x.has_been_read) rb (position n ws) i b inside flag ∙ inv.read i lt_i;
        content =
            λ k lo hi. InPlace-set n rb ms k ws b hi (omega (arith, x.room)) (inv.content k lo hi);
        returned = inv.returned;
        at_push = at;
        at_pop = inv.at_pop;
      }

abbrev pub Kept : ℕ → Option System → Type 0
Kept n r = (s : System) × (r ≡ some s) × Good n s

-- What stays the same for both threads in a step
pub record View : Type 0 where
  pub n : ℕ
  pub rb : RingBuf
  pub ms : List Message
  pub got : List Received
  pub rs : ℕ
  pub re : ℕ
  pub ws : ℕ
  pub we : ℕ
  pub d : ℕ

abbrev pub ViewInv : View → Push → Pop → Type 0
ViewInv v p c = Inv v.n (system v.rb p c v.ms v.got) v.rs v.re v.ws v.we v.d

module _ (v : View) where
  open v use {n, rb, ms, got, rs, re, ws, we, d}

  -- The ring stays, and the new program counters keep the invariant.
  pub on :
      {r : Option System} (p : Push) (c : Pop)
      → r ≡ some (system rb p c ms got)
      → ViewInv v p c
      → Kept n r
  on p c run inv = (system rb p c ms got, run, (rs, re, ws, we, d, inv))

  pub inside : {p : Push} {c : Pop} → ViewInv v p c → (k : ℕ) → position n k < length rb.blocks
  inside inv k = omega (arith, inv.ring.size, position-lt n k inv.ring.some_blocks)

  pub found :
      {p : Push} {c : Pop}
      → ViewInv v p c
      → (i k : ℕ) → i ≡ position n k
      → get_elem? rb.blocks i ≡ some (block rb i)
  found inv i k e = get_elem?-eq-get_or rb.blocks i no_block (omega (arith, e, inside inv k))

  pub next_at :
      {p : Push} {c : Pop}
      → ViewInv v p c
      → (i k : ℕ) → i ≡ position n k
      → (block rb i).next_index ≡ position n (k + 1)
  next_at inv i k at =
      ap (λ (j : ℕ). (block rb j).next_index) at
      ∙ inv.ring.linked (position n k) (position-lt n k inv.ring.some_blocks)
      ∙ sym (position-suc n k)

  -- A store to the block of message `k`
  pub stored :
      (f : RingBlock → RingBlock) (i k : ℕ) (p : Push) (c : Pop) {r : Option System}
      → i ≡ position n k
      → r ≡ some (system (set_block rb i (f (block rb i))) p c ms got)
      → ViewInv (record v { rb = set_block rb (position n k) (f (block rb (position n k))) }) p c
      → Kept n r
  stored f i k p c at run after = (
    system (set_block rb (position n k) (f (block rb (position n k)))) p c ms got,
    run ∙ ap (λ (j : ℕ). some (system (set_block rb j (f (block rb j))) p c ms got)) at,
    (rs, re, ws, we, d, after),
  )

  pub in_place :
      (x : RingBuf) {m : Message} (k : ℕ) (b : RingBlock)
      → message ms k ≡ m
      → block x (position n k) ≡ b
      → Holds m b
      → InPlace n x ms k
  in_place x k b here_m self holds =
      subst (λ (y : RingBlock). Holds (message ms k) y) (sym self)
        (subst (λ (y : Message). Holds y b) (sym here_m) holds)

abbrev pub PushAt : View → Pop → Push → Type 0
PushAt v c p = ViewInv v p c

abbrev pub push_act : View → Pop → Bool → Push → Option System
push_act v c fails p = act (push fails) (system v.rb p c v.ms v.got)

abbrev pub PopAt : View → Push → Pop → Type 0
PopAt v p c = ViewInv v p c

abbrev pub pop_act : View → Push → Bool → Pop → Option System
pop_act v p fails c = act (pop fails) (system v.rb p c v.ms v.got)

module _ {n : ℕ} {rb : RingBuf} {p : Push} {c : Pop} {ms : List Message} {got : List Received}
    {rs re ws we d : ℕ} (inv : Inv n (system rb p c ms got) rs re ws we d) where
  -- The consumer moves on, and the ring is as before.
  pub pop_on :
      (c' : Pop)
      → woken c' ≡ woken c
      → holding c' ≡ holding c
      → Read n rb rs re c'
      → AtPop n ms rs re d c'
      → Inv n (system rb p c' ms got) rs re ws we d
  pop_on c' same held read at = record {
    ring = inv.ring;
    indexes = inv.indexes;
    counts = record {
      pushed = inv.counts.pushed;
      popped = inv.counts.popped;
      held = omega (arith, inv.counts.held, held);
      signals = omega (arith, inv.counts.signals, same);
    };
    written = inv.written;
    read = read;
    content = inv.content;
    returned = inv.returned;
    at_push = inv.at_push;
    at_pop = at;
  }

  -- The consumer sets its flag in its block.
  pub pop_block :
      (c' : Pop) (flag : Bool)
      → woken c' ≡ woken c
      → holding c' ≡ holding c
      → (let b = record (block rb (position n rs)) { has_been_read = flag } in
          Read n (set_block rb (position n rs) b) rs re c')
      → AtPop n ms rs re d c'
      → (let b = record (block rb (position n rs)) { has_been_read = flag } in
          Inv n (system (set_block rb (position n rs) b) p c' ms got) rs re ws we d)
  pop_block c' flag same held read at =
      let h = inv.ring in
      let x = inv.indexes in
      let i = position n rs in
      let b = record (block rb i) { has_been_read = flag } in
      let lt = position-lt n rs h.some_blocks in
      let inside : i < length rb.blocks = omega (arith, h.size) in
      let kept : (j : ℕ)
          → ((block (set_block rb i b) j).opcode ≡ (block rb j).opcode)
            × ((block (set_block rb i b) j).bytes ≡ (block rb j).bytes) =
        λ j. (
          block_keep (λ (y : RingBlock). y.opcode) rb i j b inside refl,
          block_keep (λ (y : RingBlock). y.bytes) rb i j b inside refl,
        ) in
      record {
        ring = IsRing-set n rb i b h lt refl;
        indexes = record {
          rs_re = x.rs_re;
          re_ws = x.re_ws;
          ws_we = x.ws_we;
          room = x.room;
          at_rs = x.at_rs;
          at_re = x.at_re;
          at_ws = x.at_ws;
          at_we = x.at_we;
        };
        counts = record {
          pushed = inv.counts.pushed;
          popped = inv.counts.popped;
          held = omega (arith, inv.counts.held, held);
          signals = omega (arith, inv.counts.signals, same);
        };
        written = λ j lt_j.
            block_keep (λ (y : RingBlock). y.has_been_written) rb i j b inside refl
            ∙ inv.written j lt_j;
        read = read;
        content = λ k lo hi. InPlace-ring n rb (set_block rb i b) ms k kept (inv.content k lo hi);
        returned = inv.returned;
        at_push =
            AtPush-ring n rb (set_block rb i b) ms rs rs ws we p kept (omega arith) inv.at_push;
        at_pop = at;
      }
