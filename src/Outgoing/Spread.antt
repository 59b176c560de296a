-- ===== src/Outgoing/Spread.antt =====
-- A packet spread out by `packet_fragmentize` and sent
use zeq_server_trilogy.Common.{
  ℕ, ◌+◌, ◌-◌, ◌*◌, ◌%◌, ◌^◌, ◌≤◌, ◌<◌, ◌≡◌, ◌≢◌, refl, ap, ap₂, ◌∙◌, sym, subst, true, false, ◌==◌,
  Option, none, some, List, ◌++◌, length, take, drop, arith, u32, length-take, length-drop,
}
use zeq_server_trilogy.Packet.{
  TlgPacket, spread, last_fragment, fragmentize, calc_length_and_frag_count, buffer_raw_length,
  header_size, crc_size,
}
use zeq_server_trilogy.Packet.Fragmentize.{fragmentize_lem}
use zeq_server_trilogy.Ack.Send.{Wrapper}
use zeq_server_trilogy.Outgoing.{Sending, the_response, send_packet}
use zeq_server_trilogy.Outgoing.Fragments.{expected}
use zeq_server_trilogy.Outgoing.Chunks.{Placed, chunks, joined, get_or-drop, get_or-take}
use zeq_server_trilogy.Outgoing.First.{send_packet-first}

-- The fields that the spreading leaves
pub record Kept (p p' : TlgPacket) : Type 0 where
  pub opcode : p'.opcode ≡ p.opcode
  pub data_length : p'.data_length ≡ p.data_length

abbrev field : (TlgPacket → ℕ) → Option TlgPacket → ℕ
field f none = 0
field f (some p) = f p

abbrev spread_result : TlgPacket → Option (List ℕ) → Option TlgPacket
spread_result p none = none
spread_result p (some bytes) = some (record p { is_fragmentized = true; bytes = bytes })

fragmentize-spread_result :
    (p : TlgPacket)
    → (p.frag_count == 0) ≡ false
    → fragmentize p
      ≡ spread_result p (
          spread p.frag_count
            (last_fragment p.data_length)
            (u32 (buffer_raw_length p + 2 ^ 32 - crc_size - 1))
            (u32 (p.data_length + header_size + 2 ^ 32 - 1))
            p.bytes)
unfolding fragmentize
fragmentize-spread_result p h = rw (h)

spread_result-Kept :
    (p p' : TlgPacket) (r : Option (List ℕ)) → spread_result p r ≡ some p' → Kept p p'
spread_result-Kept p p' none e = cc e
spread_result-Kept p p' (some bytes) e = record {
  opcode = sym (ap (field (λ q. q.opcode)) e);
  data_length = sym (ap (field (λ q. q.data_length)) e);
}

abbrev pub payload_of : TlgPacket → List ℕ
payload_of p = take p.data_length (drop header_size p.bytes)

module _ (p : TlgPacket) (lo : 512 < p.data_length) (hi : p.data_length < 512 * 2 ^ 16)
    (count : p.frag_count ≡ (calc_length_and_frag_count p.data_length).1)
    (memory : p.data_length + 22 * (p.frag_count + 1) ≡ length p.bytes)
    (r : p.data_length % 512 ≢ 0) (r' : p.data_length % 512 < 511) where
  length-payload_of : length (payload_of p) ≡ p.data_length
  length-payload_of =
      omega (
        arith,
        length-take p.data_length (drop header_size p.bytes),
        length-drop header_size p.bytes,
      )

  several : (p.frag_count == 0) ≡ false
  unfolding calc_length_and_frag_count
  several = ground arith

  counted :
      (512 * p.frag_count < p.data_length + 2) × (p.data_length + 2 ≤ 512 * (p.frag_count + 1))
  unfolding calc_length_and_frag_count
  counted = (ground arith, ground arith)

  fragmentize-Placed :
      (p' : TlgPacket) × (fragmentize p ≡ some p')
      × Kept p p'
      × (length p'.bytes ≡ length p.bytes)
      × Placed p'.bytes (payload_of p)
  fragmentize-Placed =
      let (p', run, done, size, placed) = fragmentize_lem p lo hi count memory r r' in
      (
        p',
        run,
        spread_result-Kept p p' _ (sym (fragmentize-spread_result p several) ∙ run),
        size,
        λ q lt.
            placed q (omega (arith, length-payload_of))
            ∙ sym (
                get_or-take p.data_length q (drop header_size p.bytes)
                  (omega (arith, length-payload_of))
                ∙ get_or-drop header_size q (header_size + q) p.bytes refl),
      )

  module _ (clock : ℕ → ℕ) (time ack received from i : ℕ) (w : Wrapper) (s : Sending) where
    -- A payload of more than 512 bytes and less than 32 MiB, whose length does not leave 0 or 511 on
    -- division by 512, in a packet as `packet_create` makes it, spread out by `packet_fragmentize` and
    -- put in a wrapper with its count of fragments; its first sending takes one datagram for each
    -- fragment, with numbers in a row, the acknowledgement that waits in the first alone; their pieces
    -- of payload, joined, are the payload that was written.
    pub fragmentize-send_packet :
        from ≤ i
        → w.packet ≡ fragmentize p
        → w.frag_count ≡ p.frag_count + 1
        → w.ack_counter_always_one < 256
        → s.to_client.next_seq_to_send < 2 ^ 16
        → (w' : Wrapper) × (s' : Sending) × (send_packet clock time ack received from i w s
            ≡ some (w', s'))
          × (s'.datagrams
              ≡ s.datagrams
                ++ expected w p.opcode
                    (the_response s.response ack)
                    0
                    s.to_client.next_seq_to_send
                    (chunks (payload_of p) (p.frag_count + 1) 0))
          × (joined (chunks (payload_of p) (p.frag_count + 1) 0) ≡ payload_of p)
    fragmentize-send_packet h e n one word =
        let (p', run, kept, size, placed) = fragmentize-Placed in
        let (fits, full) = counted in
        let total = length-payload_of in
        let (w', s', sent, out, whole, numbers, answer) =
          send_packet-first clock time ack received from i w p' s (payload_of p) h (e ∙ run) one
            word (omega (arith, kept.data_length)) placed (omega arith) (omega arith) (omega arith)
            (omega arith) (omega arith) in
        (
          w',
          s',
          sent,
          out
              ∙ ap₂
                  (λ (o k : ℕ).
                    s.datagrams
                    ++ expected w o (the_response s.response ack) 0 s.to_client.next_seq_to_send
                        (chunks (payload_of p) k 0))
                  kept.opcode n,
          subst (λ (k : ℕ). joined (chunks (payload_of p) k 0) ≡ payload_of p) n whole,
        )
