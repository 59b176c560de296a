-- ===== src/Outgoing/RoundTrip.antt =====
-- A fragment sent by `ack_send_fragment` and read by `udpc_recv_protocol`
use zeq_server_trilogy.Common.{
  ℕ, ◌+◌, ◌^◌, ◌≤◌, ◌<◌, ◌≡◌, ◌≢◌, refl, ap, ◌∙◌, subst, Bool, true, false, if◌then◌else◌, Option,
  none, some, List, ◌++◌, length, arith, u8, u16, length-append,
}
use zeq_server_trilogy.Aligned.{Aligned}
use zeq_server_trilogy.Aligned.RoundTrip.{Holds}
use zeq_server_trilogy.Aligned.Put.{little_endian}
use zeq_server_trilogy.Crc.{crc_calc32_network}
use zeq_server_trilogy.Packet.{header_size}
use zeq_server_trilogy.Ack.{to_host_uint16}
use zeq_server_trilogy.Ack.Send.{Wrapper}
use zeq_server_trilogy.Ack.Recv.{Env}
use zeq_server_trilogy.Udp.{UdpClient, has_bit, has_ack_response, skip_unknown, checked, Parse, ok}
use zeq_server_trilogy.Udp.Protocol.{
  Result, on, header_field, after_header, recv_protocol, for_client,
}
use zeq_server_trilogy.Outgoing.{header_bits, send_fragment}
use zeq_server_trilogy.Outgoing.Header.{word, response_bytes, header_bytes, length-header_bytes}
use zeq_server_trilogy.Outgoing.Datagram.{body, datagram, send_fragment-datagram}
use zeq_server_trilogy.Outgoing.Rest.{Rest, Rest-past, past, checked-with_crc, opened, opened-Rest}
use zeq_server_trilogy.Outgoing.Fields.{header_field-Rest}
use zeq_server_trilogy.Outgoing.Received.{Header, received_opcode}
use zeq_server_trilogy.Outgoing.Delivered.{tail, handed, answered, is_some, Fits, after_header-tail}

-- The header of a packet that asks for an acknowledgement
abbrev pub header_of : Bool → ℕ
header_of true = 0x1a
header_of false = 0x12

bits-Header :
    (fragmented : Bool) (response : Option ℕ)
    → Header (header_bits (header_of fragmented) response) fragmented
unfolding skip_unknown
bits-Header true none = record {
  skipped = λ a. refl;
  request = refl;
  counter = refl;
  fragment = refl;
  stays = refl;
  later = refl;
}
bits-Header true (some ack) = record {
  skipped = λ a. refl;
  request = refl;
  counter = refl;
  fragment = refl;
  stays = refl;
  later = refl;
}
bits-Header false none = record {
  skipped = λ a. refl;
  request = refl;
  counter = refl;
  fragment = refl;
  stays = refl;
  later = refl;
}
bits-Header false (some ack) = record {
  skipped = λ a. refl;
  request = refl;
  counter = refl;
  fragment = refl;
  stays = refl;
  later = refl;
}

bits-response :
    (fragmented : Bool) (response : Option ℕ)
    → (has_bit (header_bits (header_of fragmented) response) has_ack_response ≡ is_some response)
      × (header_bits (header_of fragmented) response < 2 ^ 16)
bits-response true none = (refl, omega arith)
bits-response true (some ack) = (refl, omega arith)
bits-response false none = (refl, omega arith)
bits-response false (some ack) = (refl, omega arith)

module _ (env : Env) (junk : List ℕ) (w : Wrapper) (payload : List ℕ) (opcode : ℕ)
    (response : Option ℕ) (index seq : ℕ) (fragmented : Bool) where
  abbrev rest : List ℕ
  rest =
      tail env junk (header_bits (header_of fragmented) response) w.frag_group index w.frag_count
        w.ack_counter_always_one (u8 (w.ack_counter_request + index)) opcode
        (u16 (w.ack_request + index)) payload fragmented

  abbrev laid_out : List ℕ
  laid_out =
      word (header_bits (header_of fragmented) response)
      ++ (word (to_host_uint16 seq) ++ (response_bytes response ++ rest))

layout :
    (env : Env) (junk : List ℕ) (w : Wrapper) (payload : List ℕ) (opcode : ℕ) (response : Option ℕ)
    (index seq : ℕ) (fragmented : Bool)
    → w.header ≡ header_of fragmented
    → body w payload opcode response index seq
      ≡ laid_out env junk w payload opcode response index seq fragmented
layout env junk w payload opcode none index seq true e = rw (e)
layout env junk w payload opcode none index seq false e = rw (e)
layout env junk w payload opcode (some ack) index seq true e = rw (e)
layout env junk w payload opcode (some ack) index seq false e = rw (e)

recv_protocol-step :
    (env : Env) (junk bytes : List ℕ) (len : ℕ) (c : UdpClient) (a a' : Aligned) (h : ℕ)
    → checked bytes len ≡ ok tt a
    → header_field a ≡ ok h a'
    → recv_protocol env junk bytes len false c ≡ after_header env junk false h c a'
unfolding recv_protocol
recv_protocol-step env junk bytes len c a a' h right read =
    rw (recv_protocol, right)
      (ap (λ (p : Parse ℕ). on p none (λ header a''. after_header env junk false header c a''))
        read)

module _ (env : Env) (junk : List ℕ) (w : Wrapper) (payload : List ℕ) (opcode : ℕ)
    (response : Option ℕ) (index seq : ℕ) (fragmented : Bool) where
  abbrev sent : List ℕ
  sent = datagram w payload opcode response index seq

  abbrev after : UdpClient → Result
  after c = for_client (answered response c) (λ c'.
      handed env c' (received_opcode opcode index) (u16 (w.ack_request + index))
        (if fragmented then w.frag_count else 0) payload)

  recv_protocol-sent :
      (c : UdpClient)
      → w.header ≡ header_of fragmented
      → Fits response
      → opcode < 2 ^ 16
      → index < 2 ^ 16
      → w.frag_count < 2 ^ 16
      → (index ≡ 0 → opcode ≢ 0)
      → (fragmented ≡ false → index ≡ 0)
      → u16 (w.ack_request + index) ≢ 0
      → length sent < 2 ^ 32
      → recv_protocol env junk sent (length sent) false c ≡ after c
  recv_protocol-sent c e fits opcode_fits index_fits count_fits named whole asks small =
      let h = header_bits (header_of fragmented) response in
      let bytes = body w payload opcode response index seq in
      let a0 = opened bytes in
      let left =
        response_bytes response ++ rest env junk w payload opcode response index seq fragmented in
      let (bit, h_fits) = bits-response fragmented response in
      let r : Rest a0 (word h ++ (word (to_host_uint16 seq) ++ left)) =
        subst (Rest a0) (layout env junk w payload opcode response index seq fragmented e)
          (opened-Rest bytes small) in
      recv_protocol-step env junk sent (length sent) c a0 (past 2 (past 2 a0)) h
        (checked-with_crc bytes small) (header_field-Rest h (to_host_uint16 seq) a0 left r h_fits)
      ∙ (after_header-tail env junk h w.frag_group index w.frag_count w.ack_counter_always_one
          (u8 (w.ack_counter_request + index)) opcode (u16 (w.ack_request + index)) payload
          fragmented (bits-Header fragmented response) opcode_fits index_fits count_fits
          (omega arith) named whole asks response c (past 2 (past 2 a0)) bit fits
          (Rest-past (past 2 a0) (word (to_host_uint16 seq)) left
            (Rest-past a0 (word h) (word (to_host_uint16 seq) ++ left) r)))

  -- A fragment that asks for an acknowledgement, with its payload at the cursor and room around it, its
  -- fields below 2^16, an opcode if it is the first of its packet, and an acknowledgement number that is
  -- not 0: it is sent, and the function that reads datagrams accepts what was sent, handles the
  -- acknowledgement in it, which is a fault if that reads outside its queue, and gives the payload, with
  -- the opcode, the number and the count of fragments it was sent with, to the acknowledgement layer.
  pub send_fragment-recv_protocol :
      (a : Aligned) (c : UdpClient)
      → w.ack_counter_always_one < 256
      → Holds a.buffer a.cursor payload
      → header_size ≤ a.cursor
      → a.cursor + length payload + 4 ≤ length a.buffer
      → length a.buffer < 2 ^ 32
      → w.header ≡ header_of fragmented
      → Fits response
      → opcode < 2 ^ 16
      → index < 2 ^ 16
      → w.frag_count < 2 ^ 16
      → (index ≡ 0 → opcode ≢ 0)
      → (fragmented ≡ false → index ≡ 0)
      → u16 (w.ack_request + index) ≢ 0
      → (d : List ℕ) × (a' : Aligned) × (send_fragment w a
            (length payload)
            opcode
            response
            index
            seq
          ≡ some (d, a'))
        × (recv_protocol env junk d (length d) false c ≡ after c)
  send_fragment-recv_protocol a c one held front within small e fits opcode_fits index_fits
        count_fits named whole asks =
      let (a', run, moved, size, same) =
        send_fragment-datagram w payload opcode response index seq a one held front within small in
      let bytes = body w payload opcode response index seq in
      let low = length-header_bytes w opcode index response seq in
      let total : length sent < 2 ^ 32 = omega (
        arith,
        length-append bytes (little_endian 4 (crc_calc32_network bytes)),
        length-append (header_bytes w opcode index response seq) payload,
      ) in
      (
        sent,
        a',
        run,
        recv_protocol-sent c e fits opcode_fits index_fits count_fits named whole asks total,
      )
