-- ===== src/Outgoing/First.antt =====
-- A packet sent for the first time
use zeq_server_trilogy.Common.{
  refl, zero, suc, u16, ℕ, ◌+◌, ◌-◌, ◌*◌, ◌^◌, ◌≤◌, ◌<◌, ◌≡◌, ap, ◌∙◌, sym, subst, Option, none,
  some, List, ◌++◌, length, arith, ltb, false,
}
use zeq_server_trilogy.Aligned.{Aligned, init}
use zeq_server_trilogy.Packet.{TlgPacket, buffer_raw_length}
use zeq_server_trilogy.Ack.Send.{Wrapper}
use zeq_server_trilogy.Outgoing.{Response, used, Sending, the_response, send_fragments, send_packet}
use zeq_server_trilogy.Outgoing.Fragments.{used_by, expected, Shared, send_fragments-Done}
use zeq_server_trilogy.Outgoing.Chunks.{
  Placed, start, chunks, joined, joined-chunks, room-chunks, Shared-chunks, Laid-chunks,
  length-chunks,
}

-- What is made of the outcome of the fragments
abbrev continue : TlgPacket → Option (Wrapper × Aligned × Sending) → Option (Wrapper × Sending)
continue p none = none
continue p (some (w, a, s)) = some (record w { packet = some (record p { bytes = a.buffer }) }, s)

used_by-chunks :
    (r : Response) (bs : List ℕ) (n index : ℕ) → 0 < n → used_by r (chunks bs n index) ≡ used r
used_by-chunks r bs zero index h = absurd (omega arith)
used_by-chunks r bs (suc n) index h = refl

module _ (clock : ℕ → ℕ) (time ack received from : ℕ) where
  send_packet-step :
      (i : ℕ) (w w' : Wrapper) (p : TlgPacket) (a' : Aligned) (s s' : Sending)
      → from ≤ i
      → w.packet ≡ some p
      → send_fragments clock ack p.opcode
          (w.frag_count - 0)
          0
          p.data_length
          w
          (init p.bytes (buffer_raw_length p))
          s
        ≡ some (w', a', s')
      → send_packet clock time ack received from i w s
        ≡ some (record w' { packet = some (record p { bytes = a'.buffer }) }, s')
  unfolding send_packet
  send_packet-step i w w' p a' s s' h e run =
      let late : ltb i from ≡ false = ground arith in
      rw (send_packet, e, late) (ap (continue p) run)

  -- A packet that was not sent before, with a payload that its count of fragments can hold and
  -- `packet_fragmentize` has put in its place: it is sent, one datagram for each fragment, with numbers
  -- in a row, the acknowledgement in the first alone; and the pieces of payload, joined, are the payload.
  pub send_packet-first :
      (i : ℕ) (w : Wrapper) (p : TlgPacket) (s : Sending) (payload : List ℕ)
      → from ≤ i
      → w.packet ≡ some p
      → w.ack_counter_always_one < 256
      → s.to_client.next_seq_to_send < 2 ^ 16
      → p.data_length ≡ length payload
      → Placed p.bytes payload
      → 0 < w.frag_count
      → 512 * (w.frag_count - 1) < length payload + 2
      → length payload + 2 ≤ 512 * w.frag_count
      → length payload + 22 * w.frag_count ≤ length p.bytes
      → length p.bytes < 2 ^ 32
      → (w' : Wrapper) × (s' : Sending) × (send_packet clock time ack received from i w s
          ≡ some (w', s'))
        × (s'.datagrams
            ≡ s.datagrams
              ++ expected w p.opcode
                  (the_response s.response ack)
                  0
                  s.to_client.next_seq_to_send
                  (chunks payload w.frag_count 0))
        × (joined (chunks payload w.frag_count 0) ≡ payload)
        × (s'.to_client.next_seq_to_send ≡ u16 (s.to_client.next_seq_to_send + w.frag_count))
        × (s'.response ≡ used s.response)
  unfolding init
  send_packet-first i w p s payload h e one word size placed some_left full fits within small =
      let n = w.frag_count in
      let xs = chunks payload n 0 in
      let a = init p.bytes (buffer_raw_length p) in
      let none_skipped : n ≡ n - 0 = omega arith in
      let size' : p.data_length ≡ length payload - start 0 = omega arith in
      let r = room-chunks payload n 0 in
      let (w', a', s', run, done) =
        send_fragments-Done clock ack p.opcode xs 0 p.data_length w a s one word
          (Laid-chunks p.bytes payload n 0 placed (λ _. omega arith) (omega arith))
          (subst (λ (k : ℕ). Shared 0 k xs) (sym size')
            (Shared-chunks payload n 0 (omega arith) (λ _. omega arith)))
          (omega arith) small in
      let run' =
        subst
          (λ (k : ℕ). send_fragments clock ack p.opcode k 0 p.data_length w a s ≡ some (w', a', s'))
          (length-chunks payload n 0 ∙ none_skipped) run in
      (
        record w' { packet = some (record p { bytes = a'.buffer }) },
        s',
        send_packet-step i w w' p a' s s' h e run',
        done.out,
        joined-chunks payload n 0 (omega arith),
        omega (arith, done.numbers, length-chunks payload n 0),
        done.answer ∙ used_by-chunks s.response payload n 0 (omega arith),
      )
