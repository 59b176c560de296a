-- ===== src/Outgoing/Fragments.antt =====
-- The fragments of a packet, sent in a row
use mathlib.Core.List.{append-nil, append_assoc}
use zeq_server_trilogy.Common.{
  ℕ, suc, ◌+◌, ◌-◌, ◌^◌, ◌≤◌, ◌<◌, ◌≡◌, refl, ap, ◌∙◌, sym, subst, ltb, ◌==◌, if◌then◌else◌, Option,
  none, some, List, [], ◌∷◌, ◌++◌, length, get_elem?, arith, u16, u32,
}
use zeq_server_trilogy.Aligned.{Aligned}
use zeq_server_trilogy.Aligned.RoundTrip.{Holds}
use zeq_server_trilogy.Packet.{header_size, data_space}
use zeq_server_trilogy.Ack.Send.{Wrapper, get_next_seq_to_send_and_increment}
use zeq_server_trilogy.Outgoing.{
  Sending, Response, the_response, used, send_fragment, send_fragments,
}
use zeq_server_trilogy.Outgoing.Datagram.{datagram, send_fragment-datagram}

-- The room for payload in fragment `index`
abbrev pub space : ℕ → ℕ
space index = if index == 0 then data_space - 2 else data_space

-- What fragment `index` takes of `n` bytes
abbrev pub share : ℕ → ℕ → ℕ
share index n = if ltb (space index) n then space index else n

-- The chunks stand one behind the other, each with room for a header and a checksum.
abbrev pub Laid : List ℕ → ℕ → List (List ℕ) → Type 0
Laid buf c [] = Unit {0}
Laid buf c (x ∷ xs) = Holds buf (c + header_size) x × Laid buf (c + header_size + length x + 4) xs

-- They have the lengths in which `n` bytes are sent from fragment `index` on.
abbrev pub Shared : ℕ → ℕ → List (List ℕ) → Type 0
Shared index n [] = Unit {0}
Shared index n (x ∷ xs) =
    (length x ≡ share index n) × Shared (index + 1) (u32 (n + 2 ^ 32 - space index)) xs

abbrev pub room : List (List ℕ) → ℕ
room [] = 0
room (x ∷ xs) = header_size + length x + 4 + room xs

-- The datagrams: one for each chunk, with numbers in a row; the acknowledgement goes with the first.
abbrev pub expected : Wrapper → ℕ → Option ℕ → ℕ → ℕ → List (List ℕ) → List (List ℕ)
expected w opcode response index seq [] = []
expected w opcode response index seq (x ∷ xs) =
    datagram w x opcode response index seq ∷ expected w opcode none (index + 1) (u16 (seq + 1)) xs

Laid-same :
    (buf buf' : List ℕ) (c : ℕ) (xs : List (List ℕ))
    → ((j : ℕ) → c ≤ j → get_elem? buf' j ≡ get_elem? buf j)
    → Laid buf c xs
    → Laid buf' c xs
Laid-same buf buf' c [] same l = tt
Laid-same buf buf' c (x ∷ xs) same l = (
  λ i lt. same (c + header_size + i) (omega arith) ∙ l.0 i lt,
  Laid-same buf buf' (c + header_size + length x + 4) xs (λ j le. same j (omega arith)) (l.1),
)

abbrev pub used_by : Response → List (List ℕ) → Response
used_by r [] = r
used_by r (x ∷ xs) = used r

used-used_by : (r : Response) (xs : List (List ℕ)) → used_by (used r) xs ≡ used r
used-used_by Response.nothing [] = refl
used-used_by Response.waiting [] = refl
used-used_by Response.sent [] = refl
used-used_by Response.nothing (x ∷ xs) = refl
used-used_by Response.waiting (x ∷ xs) = refl
used-used_by Response.sent (x ∷ xs) = refl

the_response-used : (r : Response) (ack : ℕ) → the_response (used r) ack ≡ none
the_response-used Response.nothing ack = refl
the_response-used Response.waiting ack = refl
the_response-used Response.sent ack = refl

module _ (clock : ℕ → ℕ) (ack opcode : ℕ) where
  -- The state after a fragment
  abbrev next : Sending → List ℕ → Sending
  next s d = record {
    to_client = record (s.to_client) { next_seq_to_send = u16 (s.to_client.next_seq_to_send + 1) };
    response = used s.response;
    ticks = s.ticks + 1;
    datagrams = s.datagrams ++ d ∷ [];
  }

  send_fragments-step :
      (n index dl : ℕ) (w : Wrapper) (a a' : Aligned) (s : Sending) (d : List ℕ)
      → send_fragment w
          (record a { cursor = u32 (a.cursor + header_size) })
          (share index dl)
          opcode
          (the_response s.response ack)
          index
          s.to_client.next_seq_to_send
        ≡ some (d, a')
      → send_fragments clock ack opcode (suc n) index dl w a s
        ≡ send_fragments clock ack opcode n
            (index + 1)
            (u32 (dl + 2 ^ 32 - space index))
            (record w { ack_timestamp = clock s.ticks })
            a'
            (next s d)
  unfolding send_fragments get_next_seq_to_send_and_increment
  send_fragments-step n index dl w a a' s d run = rw (send_fragments, run)

  pub record Done (w : Wrapper) (a : Aligned) (s : Sending) (index : ℕ) (xs : List (List ℕ))
      (a' : Aligned) (s' : Sending) : Type 0 where
    pub out :
        s'.datagrams
        ≡ s.datagrams
          ++ expected w opcode (the_response s.response ack) index s.to_client.next_seq_to_send xs
    pub numbers : s'.to_client.next_seq_to_send ≡ u16 (s.to_client.next_seq_to_send + length xs)
    pub answer : s'.response ≡ used_by s.response xs
    pub at : a'.cursor ≡ a.cursor + room xs

  -- Chunks of the packet, laid out behind one another with room around each, that have the lengths in
  -- which the fragments from `index` on take the payload: the loop sends one datagram for each, in
  -- order, with sequence numbers in a row, and the acknowledgement that waits goes with the first alone.
  pub send_fragments-Done :
      (xs : List (List ℕ)) (index dl : ℕ) (w : Wrapper) (a : Aligned) (s : Sending)
      → w.ack_counter_always_one < 256
      → s.to_client.next_seq_to_send < 2 ^ 16
      → Laid a.buffer a.cursor xs
      → Shared index dl xs
      → a.cursor + room xs ≤ length a.buffer
      → length a.buffer < 2 ^ 32
      → (w' : Wrapper) × (a' : Aligned) × (s' : Sending) × (send_fragments clock ack opcode
            (length xs)
            index
            dl
            w
            a
            s
          ≡ some (w', a', s'))
        × Done w a s index xs a' s'
  unfolding send_fragments
  send_fragments-Done [] index dl w a s one word laid shares within small = (
    w,
    a,
    s,
    refl,
    record {
      out = sym (append-nil s.datagrams);
      numbers = omega arith;
      answer = refl;
      at = omega arith;
    },
  )
  send_fragments-Done (x ∷ xs) index dl w a s one word laid shares within small =
      let c : u32 (a.cursor + header_size) ≡ a.cursor + header_size = omega arith in
      let a0 = record a { cursor = u32 (a.cursor + header_size) } in
      let r = the_response s.response ack in
      let seq = s.to_client.next_seq_to_send in
      let held : Holds a0.buffer a0.cursor x =
        subst (λ (k : ℕ). Holds a.buffer k x) (sym c) (laid.0) in
      let (a1, run, moved, size, same) =
        send_fragment-datagram w x opcode r index seq a0 one held (omega arith) (omega arith)
          small in
      let d = datagram w x opcode r index seq in
      let run' : send_fragment w a0 (share index dl) opcode r index seq ≡ some (d, a1) =
        subst (λ (k : ℕ). send_fragment w a0 k opcode r index seq ≡ some (d, a1)) (shares.0) run in
      let place : a1.cursor ≡ a.cursor + header_size + length x + 4 = omega arith in
      let laid' : Laid a1.buffer a1.cursor xs =
        subst (λ (k : ℕ). Laid a1.buffer k xs) (sym place)
          (Laid-same a.buffer a1.buffer (a.cursor + header_size + length x + 4) xs
            (λ j le. same j (omega arith)) (laid.1)) in
      let t = record w { ack_timestamp = clock s.ticks } in
      let (w', a', s', rest, done) =
        send_fragments-Done xs (index + 1) (u32 (dl + 2 ^ 32 - space index)) t a1 (next s d) one
          (omega arith) laid' (shares.1) (omega arith) (omega arith) in
      (
        w',
        a',
        s',
        send_fragments-step (length xs) index dl w a a1 s d run' ∙ rest,
        record {
          out =
              done.out
              ∙ ap
                  (λ (o : Option ℕ).
                    (s.datagrams ++ d ∷ []) ++ expected w opcode o (index + 1) (u16 (seq + 1)) xs)
                  (the_response-used s.response ack)
              ∙ append_assoc s.datagrams (d ∷ [])
                  (expected w opcode none (index + 1) (u16 (seq + 1)) xs);
          numbers = ground (arith, done.numbers);
          answer = done.answer ∙ used-used_by s.response xs;
          at = omega (arith, done.at);
        },
      )
