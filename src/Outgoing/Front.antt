-- ===== src/Outgoing/Front.antt =====
-- Headers that are written backwards: each write puts its bytes before those that are there.
use mathlib.Core.List.{append_assoc}
use zeq_server_trilogy.Common.{
  ℕ, ◌+◌, ◌-◌, ◌^◌, ◌≤◌, ◌<◌, ◌≡◌, refl, ap, ap₂, sym, subst, ◌∙◌, bit_and, ◌/◌, ◌%◌, Bool, true,
  false, some, List, [], ◌++◌, get_elem?, set, length, if◌then◌else◌, arith, u8, u32, length-append,
  length-set, get_elem?-eq-get_or, dec_lt, get_or-append,
}
use zeq_server_trilogy.Common.Bits.{and_low, and_byte}
use zeq_server_trilogy.Aligned.{Aligned, M, write_reverse_uint8, write_reverse_uint16, ◌>>◌, return}
use zeq_server_trilogy.Aligned.Put.{
  put, little_endian, length-put, get_elem?-put, get_elem?-put_above, store-set,
}
use zeq_server_trilogy.Aligned.RoundTrip.{Holds, get_or-append_right}
use zeq_server_trilogy.Outgoing.{when}

-- From the cursor `a0.cursor` downwards the bytes `hs` have been written; nothing above has changed.
pub record Front (a0 a : Aligned) (hs : List ℕ) : Type 0 where
  pub at : a.cursor + length hs ≡ a0.cursor
  pub holds : Holds a.buffer a.cursor hs
  pub same : (j : ℕ) → a0.cursor ≤ j → get_elem? a.buffer j ≡ get_elem? a0.buffer j
  pub size : length a.buffer ≡ length a0.buffer
  pub inside : a0.cursor ≤ length a0.buffer
  pub small : length a0.buffer < 2 ^ 32

pub Prepends : Aligned → M (Unit {0}) → List ℕ → Type 0
Prepends a0 m bs =
    (a : Aligned) (hs : List ℕ)
    → Front a0 a hs
    → length bs ≤ a.cursor
    → (a' : Aligned) × (m a ≡ some (tt, a')) × Front a0 a' (bs ++ hs)

-- Bytes put right before the cursor
before : Aligned → List ℕ → Aligned
before a bs = record a {
  cursor = a.cursor - length bs;
  buffer = put (a.cursor - length bs) bs a.buffer;
}

Front-before :
    (a0 a : Aligned) (hs bs : List ℕ)
    → Front a0 a hs
    → length bs ≤ a.cursor
    → Front a0 (before a bs) (bs ++ hs)
unfolding before
Front-before a0 a hs bs f le =
    let c = a.cursor - length bs in
    let up : c + length bs ≡ a.cursor = omega arith in
    record {
      at = omega (arith, f.at, length-append bs hs);
      holds = λ i lt. elim (dec_lt i (length bs)) [
        | yes low ↦
            get_elem?-put c i bs a.buffer low (omega (arith, f.at, f.inside, f.size))
            ∙ get_elem?-eq-get_or bs i 0 low
            ∙ ap some (sym (get_or-append bs hs i 0 low))
        | no high ↦
            let k = i - length bs in
            let e : c + i ≡ a.cursor + k = omega arith in
            ap (get_elem? (put c bs a.buffer)) e
            ∙ get_elem?-put_above c (a.cursor + k) bs a.buffer (omega arith)
            ∙ f.holds k (omega (arith, length-append bs hs))
            ∙ ap some (sym (get_or-append_right bs hs k i (omega arith)))
      ];
      same = λ j le_j. get_elem?-put_above c j bs a.buffer (omega (arith, f.at)) ∙ f.same j le_j;
      size = length-put c bs a.buffer ∙ f.size;
      inside = f.inside;
      small = f.small;
    }

reverse_uint8 :
    (v : ℕ)
    → v < 256
    → (a : Aligned) → 1 ≤ a.cursor
    → a.cursor ≤ length a.buffer
    → length a.buffer < 2 ^ 32
    → write_reverse_uint8 v a ≡ some (tt, before a (little_endian 1 v))
unfolding write_reverse_uint8 before
reverse_uint8 v h a lo hi small =
    let place : u32 (a.cursor + 2 ^ 32 - 1) ≡ a.cursor - 1 = omega arith in
    let a1 = record a { cursor = u32 (a.cursor + 2 ^ 32 - 1) } in
    store-set (u32 (a.cursor + 2 ^ 32 - 1)) v a1 (omega arith)
    ∙ ap₂ (λ (i b : ℕ). some (tt, record a { cursor = i; buffer = set a.buffer i b })) place
        (omega arith)

reverse_uint16 :
    (v : ℕ) (a : Aligned)
    → 2 ≤ a.cursor
    → a.cursor ≤ length a.buffer
    → length a.buffer < 2 ^ 32
    → write_reverse_uint16 v a ≡ some (tt, before a (little_endian 2 v))
unfolding write_reverse_uint16 before
reverse_uint16 v a lo hi small =
    let c = a.cursor - 2 in
    let place : u32 (a.cursor + 2 ^ 32 - 2) ≡ c = omega arith in
    let place' : u32 (a.cursor + 2 ^ 32 - 1) ≡ c + 1 = omega arith in
    let low : u8 (bit_and v 0x00ff) ≡ v % 256 = ground (arith, and_low 8 v) in
    let high : u8 (bit_and v 0xff00 / 2 ^ 8) ≡ v / 256 % 256 = ground (arith, and_byte 8 v) in
    let a1 = record a { cursor = c } in
    let a2 = record a1 { buffer = set a.buffer c (v % 256) } in
    rw (place, place', low, high)
      (rw (◌>>◌, store-set c (v % 256) a1 (omega arith))
        (store-set (c + 1) (v / 256 % 256) a2 (omega (arith, length-set a.buffer c (v % 256)))))

module _ (a0 : Aligned) where
  Prepends-before :
      (m : M (Unit {0})) (bs : List ℕ)
      → ((a : Aligned)
          → length bs ≤ a.cursor
          → a.cursor ≤ length a.buffer
          → length a.buffer < 2 ^ 32
          → m a ≡ some (tt, before a bs))
      → Prepends a0 m bs
  unfolding Prepends
  Prepends-before m bs run a hs f le = (
    before a bs,
    run a le (omega (arith, f.at, f.inside, f.size)) (omega (arith, f.small, f.size)),
    Front-before a0 a hs bs f le,
  )

  pub Prepends-then :
      (m k : M (Unit {0})) (bs cs : List ℕ)
      → Prepends a0 m bs
      → Prepends a0 k cs
      → Prepends a0 (m >> k) (cs ++ bs)
  unfolding Prepends
  Prepends-then m k bs cs first second a hs f le =
      let size = length-append cs bs in
      let (a1, run1, f1) = first a hs f (omega arith) in
      let (a2, run2, f2) =
        second a1 (bs ++ hs) f1 (omega (arith, f.at, f1.at, length-append bs hs)) in
      (a2, rw (◌>>◌, run1) run2, subst (Front a0 a2) (sym (append_assoc cs bs hs)) f2)

  pub Prepends-nothing : Prepends a0 (return tt) []
  unfolding Prepends
  Prepends-nothing a hs f le = (a, refl, f)

  pub Prepends-when :
      (b : Bool) (m : M (Unit {0})) (bs : List ℕ)
      → Prepends a0 m bs
      → Prepends a0 (when b m) (if b then bs else [])
  Prepends-when true m bs p = p
  Prepends-when false m bs p = Prepends-nothing

  pub Prepends-uint8 : (v : ℕ) → v < 256 → Prepends a0 (write_reverse_uint8 v) (little_endian 1 v)
  Prepends-uint8 v h =
      Prepends-before (write_reverse_uint8 v) (little_endian 1 v) (reverse_uint8 v h)

  pub Prepends-uint16 : (v : ℕ) → Prepends a0 (write_reverse_uint16 v) (little_endian 2 v)
  Prepends-uint16 v =
      Prepends-before (write_reverse_uint16 v) (little_endian 2 v) (reverse_uint16 v)

  pub Prepends-run :
      (m : M (Unit {0})) (bs : List ℕ)
      → Prepends a0 m bs
      → (a : Aligned) (hs : List ℕ) → Front a0 a hs
      → length bs ≤ a.cursor
      → (a' : Aligned) × (m a ≡ some (tt, a')) × Front a0 a' (bs ++ hs)
  unfolding Prepends
  Prepends-run m bs p = p
