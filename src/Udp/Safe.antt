-- ===== src/Udp/Safe.antt =====
-- The reading of a datagram never leaves its memory.
use zeq_server_trilogy.Common.{
  ℕ, ◌+◌, ◌-◌, ◌*◌, ◌^◌, bit_or, ◌≤◌, ◌<◌, ◌≡◌, ap, ◌∙◌, sym, true, false, some, length, get_or,
  ltb, leb, ◌==◌, ◌&&◌, u32, arith, Bool-cases, inl, inr, get_elem?-eq-get_or, subst,
}
use zeq_server_trilogy.Aligned
use zeq_server_trilogy.Aligned.{
  Aligned, M, advance_by, load, read_uint16, read_uint32, remaining_data,
}
use zeq_server_trilogy.Ack.{to_host_uint16}
use zeq_server_trilogy.Udp.{
  Parse, fault, oob, ok, P, ◌>>=◌, pure, lift, need, has_bit, skip_field, skip_unknown,
  ack_request_field, fragment_fields, opcode_field, has_ack_request, is_fragment,
}

-- There are `n` bytes between the cursor and `length`, which lies inside the memory.
pub record Room (n : ℕ) (a : Aligned) : Type 0 where
  pub within : a.cursor + n ≤ a.length
  pub held : a.length ≤ length a.buffer
  pub small : length a.buffer < 2 ^ 32

-- No fault, and the cursor stays inside.
abbrev pub Good : {A : Type 0} → Parse A → Type 0
Good fault = ⊥
Good oob = Unit {0}
Good (ok x a) = Room 0 a

pub Good-elim :
    {A B : Type 0} (p : Parse A) (f : A → P B)
    → Good p
    → ((x : A) (a' : Aligned) → Room 0 a' → Good (f x a'))
    → Good {A = B} (elim p as (λ _. Parse B) [ fault ↦ fault | oob ↦ oob | ok x a' ↦ f x a' ])
Good-elim fault f g k = absurd g
Good-elim oob f g k = tt
Good-elim (ok x a') f g k = k x a' g

pub Good-then :
    {A B : Type 0} (m : P A) (f : A → P B) (a : Aligned)
    → Good (m a)
    → ((x : A) (a' : Aligned) → Room 0 a' → Good (f x a'))
    → Good ((m >>= f) a)
Good-then m f a g k = Good-elim (m a) f g k

pub load-at :
    {B : Type 0} (i j : ℕ) (a : Aligned) (f : ℕ → M B)
    → i ≡ j
    → j < length a.buffer
    → Aligned.◌>>=◌ (load i) f a ≡ f (get_or a.buffer j 0) a
unfolding load
load-at i j a f e h = rw (e, Aligned.◌>>=◌, load, get_elem?-eq-get_or a.buffer j 0 h)

-- A read or a step with room for it leaves the rest of the room.
pub read_uint16-Room :
    (n : ℕ) (a : Aligned)
    → Room (n + 2) a
    → (x : ℕ) × (read_uint16 a ≡ some (x, record a { cursor = a.cursor + 2 }))
      × Room n (record a { cursor = a.cursor + 2 })
unfolding read_uint16 advance_by
read_uint16-Room n a r =
    let within = r.within in
    let held = r.held in
    let small = r.small in
    let a' : Aligned = record a { cursor = u32 (a.cursor + 2) } in
    let x0 = get_or a.buffer a.cursor 0 in
    let x1 = get_or a.buffer (a.cursor + 1) 0 in
    (
      bit_or x0 (x1 * 2 ^ 8),
      load-at (u32 (a.cursor + 0)) a.cursor a' _ (omega arith) (omega arith)
          ∙ load-at (u32 (a.cursor + 1)) (a.cursor + 1) a' _ (omega arith) (omega arith)
          ∙ ap (λ (c : ℕ). some (bit_or x0 (x1 * 2 ^ 8), record a { cursor = c })) (omega arith),
      record { within = omega arith; held = held; small = small },
    )

pub advance_by-Room :
    (n k : ℕ) (a : Aligned)
    → Room (n + k) a
    → (advance_by k a ≡ some (a.cursor, record a { cursor = a.cursor + k }))
      × Room n (record a { cursor = a.cursor + k })
unfolding advance_by
advance_by-Room n k a r =
    let within = r.within in
    let held = r.held in
    let small = r.small in
    let next : u32 (a.cursor + k) ≡ a.cursor + k = omega arith in
    (rw (next), record { within = omega arith; held = held; small = small })

pub Room-zero : (n : ℕ) (a : Aligned) → Room n a → Room 0 a
Room-zero n a r =
    let within = r.within in record { within = omega arith; held = r.held; small = r.small }

pub lift-then :
    {A B : Type 0} (m : M A) (k : A → P B) (a a' : Aligned) (x : A)
    → m a ≡ some (x, a')
    → (lift m >>= k) a ≡ k x a'
lift-then m k a a' x run = rw (◌>>=◌, lift, run)

pub need-enough :
    {B : Type 0} (n : ℕ) (k : Unit {0} → P B) (a : Aligned)
    → ltb (remaining_data a) n ≡ false
    → (need n >>= k) a ≡ k tt a
unfolding need
need-enough n k a h = rw (◌>>=◌, need, h)

need-short :
    {B : Type 0} (n : ℕ) (k : Unit {0} → P B) (a : Aligned)
    → ltb (remaining_data a) n ≡ true
    → (need n >>= k) a ≡ oob
unfolding need
need-short n k a h = rw (◌>>=◌, need, h)

remaining_data-Room : (a : Aligned) → Room 0 a → remaining_data a ≡ a.length - a.cursor
unfolding remaining_data
remaining_data-Room a r =
    let within = r.within in let held = r.held in let small = r.small in omega arith

need-Good :
    {B : Type 0} (n : ℕ) (k : Unit {0} → P B) (a : Aligned)
    → Room 0 a
    → (Room n a → Good (k tt a))
    → Good ((need n >>= k) a)
need-Good n k a r h =
    let left = remaining_data-Room a r in
    let within = r.within in
    elim (Bool-cases (ltb (remaining_data a) n)) [
      | inl short ↦ subst Good (sym (need-short n k a short)) tt
      | inr enough ↦
          subst Good (sym (need-enough n k a enough))
            (h record { within = ground (arith, left); held = r.held; small = r.small })
    ]

pub read-Good :
    {B : Type 0} (n : ℕ) (k : ℕ → P B) (a : Aligned)
    → Room (n + 2) a
    → ((x : ℕ) (a' : Aligned) → Room n a' → Good (k x a'))
    → Good ((lift read_uint16 >>= k) a)
read-Good n k a r h =
    let (x, run, r') = read_uint16-Room n a r in
    let a' = record a { cursor = a.cursor + 2 } in
    subst Good (sym (lift-then read_uint16 k a a' x run)) (h x a' r')

pub advance-Good :
    {B : Type 0} (n m : ℕ) (k : ℕ → P B) (a : Aligned)
    → Room (n + m) a
    → ((x : ℕ) (a' : Aligned) → Room n a' → Good (k x a'))
    → Good ((lift (advance_by m) >>= k) a)
advance-Good n m k a r h =
    let (run, r') = advance_by-Room n m a r in
    let a' = record a { cursor = a.cursor + m } in
    subst Good (sym (lift-then (advance_by m) k a a' a.cursor run)) (h a.cursor a' r')

pub Room-plus : (n : ℕ) (a : Aligned) → Room n a → Room (0 + n) a
Room-plus n a r =
    let within = r.within in record { within = omega arith; held = r.held; small = r.small }

pub skip_field-Good : (header bit n : ℕ) (a : Aligned) → Room 0 a → Good (skip_field header bit n a)
unfolding skip_field
skip_field-Good header bit n a r = elim (Bool-cases (has_bit header bit)) [
  | inl set ↦ rw (set) (
      need-Good n (λ _. lift (advance_by n) >>= λ _. pure tt) a r
        (λ room. advance-Good 0 n (λ _. pure tt) a (Room-plus n a room) (λ x a' r'. r')))
  | inr clear ↦ rw (clear) r
]

pub skip_unknown-Good : (header : ℕ) (a : Aligned) → Room 0 a → Good (skip_unknown header a)
unfolding skip_unknown
skip_unknown-Good header a r =
    Good-then (skip_field header 0x0800 2) _ a (skip_field-Good header 0x0800 2 a r) (λ _ a1 r1.
      Good-then (skip_field header 0x1000 1) _ a1 (skip_field-Good header 0x1000 1 a1 r1)
        (λ _ a2 r2.
          Good-then (skip_field header 0x2000 2) _ a2 (skip_field-Good header 0x2000 2 a2 r2)
            (λ _ a3 r3.
              Good-then (skip_field header 0x4000 4) _ a3 (skip_field-Good header 0x4000 4 a3 r3)
                (λ _ a4 r4. skip_field-Good header 0x8000 8 a4 r4))))

pub ack_request_field-Good :
    (header : ℕ) (a : Aligned) → Room 0 a → Good (ack_request_field header a)
unfolding ack_request_field
ack_request_field-Good header a r = elim (Bool-cases (has_bit header has_ack_request)) [
  | inl set ↦ rw (set) (
      need-Good 2 (λ _. lift read_uint16 >>= λ ack. pure (to_host_uint16 ack)) a r
        (λ room.
          read-Good 0 (λ ack. pure (to_host_uint16 ack)) a (Room-plus 2 a room) (λ x a' r'. r')))
  | inr clear ↦ rw (clear) r
]

pub fragment_fields-Good : (header : ℕ) (a : Aligned) → Room 0 a → Good (fragment_fields header a)
unfolding fragment_fields
fragment_fields-Good header a r =
    let done : ℕ → ℕ → P (ℕ × ℕ) =
      λ index count. pure (to_host_uint16 index, to_host_uint16 count) in
    let counted : ℕ → P (ℕ × ℕ) = λ index. lift read_uint16 >>= done index in
    let indexed : ℕ → P (ℕ × ℕ) = λ _. lift read_uint16 >>= counted in
    elim (Bool-cases (has_bit header is_fragment)) [
      | inl set ↦ rw (set) (
          need-Good 6 (λ _. lift (advance_by 2) >>= indexed) a r
            (λ room. advance-Good 4 2 indexed a room (λ x a1 r1.
              read-Good 2 counted a1 r1 (λ index a2 r2.
                read-Good 0 (done index) a2 (Room-plus 2 a2 r2) (λ count a3 r3. r3)))))
      | inr clear ↦ rw (clear) r
    ]

pub lift-ok :
    {A : Type 0} (m : M A) (a a' : Aligned) (x : A) → m a ≡ some (x, a') → lift m a ≡ ok x a'
lift-ok m a a' x run = rw (lift, run)

pub opcode_field-Good : (index : ℕ) (a : Aligned) → Room 0 a → Good (opcode_field index a)
unfolding opcode_field
opcode_field-Good index a r =
    let left = remaining_data-Room a r in
    let within = r.within in
    elim (Bool-cases ((index == 0) && leb 2 (remaining_data a))) [
      | inl here ↦
          let room : Room (0 + 2) a = record {
            within = ground (arith, left);
            held = r.held;
            small = r.small;
          } in
          let (x, run, r') = read_uint16-Room 0 a room in
          let a' = record a { cursor = a.cursor + 2 } in
          rw (here) (subst Good (sym (lift-ok read_uint16 a a' x run)) r')
      | inr absent ↦ rw (absent) r
    ]
