-- ===== src/Udp/Total.antt =====
-- Whatever bytes a client sends, the handler of a datagram reads only those bytes.
use zeq_server_trilogy.Common.{
  ℕ, ◌+◌, ◌-◌, ◌^◌, ◌≤◌, ◌<◌, ◌≡◌, ◌≢◌, ◌⊎◌, inl, inr, ap, ◌∙◌, Bool, none, some, List, length,
  take, ◌==◌, u32, arith, Bool-cases,
}
use zeq_server_trilogy.Aligned.{Aligned, init, advance_by, read_uint32, reset_cursor_to, set_length}
use zeq_server_trilogy.Crc.{crc_calc32_network}
use zeq_server_trilogy.Udp.{
  UdpClient, Event, Parse, fault, oob, ok, lift, counter_field, opcode_field, skip_unknown,
  fragment_fields, footer, checked,
}
use zeq_server_trilogy.Udp.Safe.{
  Room, Good, Good-then, load-at, advance_by-Room, lift-then, lift-ok, skip_unknown-Good,
  ack_request_field-Good, fragment_fields-Good, opcode_field-Good, skip_field-Good,
}
use zeq_server_trilogy.Udp.Protocol.{Result, on, returns, first_fields, last_fields}

read_uint32-some :
    (a : Aligned)
    → a.cursor + 4 ≤ length a.buffer
    → length a.buffer < 2 ^ 32
    → (x : ℕ) × (read_uint32 a ≡ some (x, record a { cursor = u32 (a.cursor + 4) }))
unfolding read_uint32 advance_by
read_uint32-some a h small =
    let a' : Aligned = record a { cursor = u32 (a.cursor + 4) } in
    (
      _,
      load-at (u32 (a.cursor + 0)) a.cursor a' _ (omega arith) (omega arith)
          ∙ load-at (u32 (a.cursor + 1)) (a.cursor + 1) a' _ (omega arith) (omega arith)
          ∙ load-at (u32 (a.cursor + 2)) (a.cursor + 2) a' _ (omega arith) (omega arith)
          ∙ load-at (u32 (a.cursor + 3)) (a.cursor + 3) a' _ (omega arith) (omega arith),
    )

footer-ok :
    (bytes : List ℕ) (len : ℕ)
    → 10 ≤ len
    → len ≤ length bytes
    → length bytes < 2 ^ 32
    → (crc : ℕ) × (c : ℕ) × (footer bytes len
        ≡ ok crc (record { cursor = c; length = len; buffer = bytes }))
unfolding footer init
footer-ok bytes len lo hi small =
    let n = u32 (len + 2 ^ 32 - 4) in
    let a0 : Aligned = record { cursor = 0; length = len; buffer = bytes } in
    let a1 : Aligned = record a0 { cursor = n } in
    let room : Room (len - n + n) a0 = record { within = omega arith; held = hi; small = small } in
    let (run, r) = advance_by-Room (len - n) n a0 room in
    let moved : advance_by n a0 ≡ some (0, a1) =
      run ∙ ap (λ (c : ℕ). some (0, record a0 { cursor = c })) (omega arith) in
    let (crc, read) = read_uint32-some a1 (omega arith) small in
    (
      crc,
      u32 (n + 4),
      lift-then (advance_by n) (λ _. lift read_uint32) a0 a1 0 moved
          ∙ lift-ok read_uint32 a1 (record a1 { cursor = u32 (n + 4) }) crc read,
    )

pub checked-cases :
    (bytes : List ℕ) (len : ℕ)
    → 10 ≤ len
    → len ≤ length bytes
    → length bytes < 2 ^ 32
    → (checked bytes len ≡ oob) ⊎ ((a : Aligned) × (checked bytes len ≡ ok tt a) × Room 6 a)
unfolding checked set_length reset_cursor_to
checked-cases bytes len lo hi small =
    let n = u32 (len + 2 ^ 32 - 4) in
    let (crc, c, run) = footer-ok bytes len lo hi small in
    elim (Bool-cases (crc == crc_calc32_network (take n bytes))) [
      | inl right ↦ inr (
        record { cursor = 0; length = n; buffer = bytes },
        rw (run, right),
        record { within = omega arith; held = omega arith; small = small },
      )
      | inr wrong ↦ inl (rw (run, wrong))
    ]

abbrev pub Holds : Result → Type 0
Holds r = r ≢ none

pub Holds-on :
    {A : Type 0} (p : Parse A) (refused : Result) (k : A → Aligned → Result)
    → Good p
    → Holds refused
    → ((x : A) (a : Aligned) → Room 0 a → Holds (k x a))
    → Holds (on p refused k)
Holds-on fault refused k g h f = absurd g
Holds-on oob refused k g h f = h
Holds-on (ok x a) refused k g h f = f x a g

pub Holds-returns : (b : Bool) (c : UdpClient) (out : List Event) → Holds (returns b c out)
Holds-returns b c out e = cc

pub first_fields-Good : (header : ℕ) (a : Aligned) → Room 0 a → Good (first_fields header a)
unfolding first_fields
first_fields-Good header a r =
    Good-then (skip_unknown header) _ a (skip_unknown-Good header a r)
      (λ _ a' r'. ack_request_field-Good header a' r')

counter_field-Good : (header : ℕ) (a : Aligned) → Room 0 a → Good (counter_field header a)
unfolding counter_field
counter_field-Good header a r = skip_field-Good header 0x0010 _ a r

pub last_fields-Good : (header : ℕ) (a : Aligned) → Room 0 a → Good (last_fields header a)
unfolding last_fields
last_fields-Good header a r =
    Good-then (fragment_fields header) _ a (fragment_fields-Good header a r) (λ f a1 r1.
      Good-then (counter_field header) _ a1 (counter_field-Good header a1 r1) (λ _ a2 r2.
        Good-then (opcode_field (f.0)) _ a2 (opcode_field-Good (f.0) a2 r2) (λ op a3 r3. r3)))
