-- ===== src/Outgoing.antt =====
-- src/ack_mgr.c: the sending of the packets in the queue to the client, a datagram for each fragment,
-- and the acknowledgement that goes with them. The flag for the timestamps of the UDP thread is left
-- out.
mod Front
mod Header
mod Datagram
mod Rest
mod Fields
mod Received
mod Delivered
mod RoundTrip
mod Fragments
mod Chunks
mod First
mod Spread
mod Queue
mod Queued
mod Tests
use zeq_server_trilogy.Common.{
  ℕ, zero, suc, ◌+◌, ◌-◌, ◌^◌, bit_or, Bool, true, false, Option, none, some, List, [], ◌∷◌, ◌++◌,
  take, drop, ltb, leb, ◌==◌, not, ◌&&◌, if◌then◌else◌, u8, u16, u32, u64,
}
use zeq_server_trilogy.Aligned.{
  Aligned, M, init, advance_by, write_reverse_uint8, write_reverse_uint16, write_uint32, ◌>>=◌,
  ◌>>◌, return,
}
use zeq_server_trilogy.Packet.{TlgPacket, buffer_raw_length, header_size, data_space, crc_size}
use zeq_server_trilogy.Ack.{AckComparison, past, present, future, cmp, to_host_uint16, ToServer}
use zeq_server_trilogy.Ack.Send.{Wrapper, ToClient, AckMgr, get_next_seq_to_send_and_increment}
use zeq_server_trilogy.Crc.{crc_calc32_network}
use zeq_server_trilogy.Udp.{
  UdpClient, has_bit, has_ack_request, is_fragment, has_ack_response, send_ack,
}

abbrev pub when : Bool → M (Unit {0}) → M (Unit {0})
when true m = m
when false m = return tt

abbrev pub write_response : Option ℕ → M (Unit {0})
write_response none = return tt
write_response (some ack) = write_reverse_uint16 ack

abbrev pub header_bits : ℕ → Option ℕ → ℕ
header_bits header none = header
header_bits header (some ack) = bit_or header has_ack_response

-- The header of `ack_send_fragment`, written backwards from just below the payload; `response` is
-- what is acknowledged, in network order.
unfoldable pub write_header : Wrapper → ℕ → ℕ → Option ℕ → ℕ → M (Unit {0})
unfolding write_reverse_uint8 write_reverse_uint16
write_header w opcode frag_index response seq =
    when (frag_index == 0 && not (opcode == 0)) (write_reverse_uint16 opcode)
    >> when (has_bit w.header has_ack_request) (
        write_reverse_uint8 (u8 (w.ack_counter_request + frag_index))
        >> write_reverse_uint8 w.ack_counter_always_one)
    >> when (has_bit w.header is_fragment) (
        write_reverse_uint16 (to_host_uint16 w.frag_count)
        >> write_reverse_uint16 (to_host_uint16 frag_index)
        >> write_reverse_uint16 (to_host_uint16 w.frag_group))
    >> when (has_bit w.header has_ack_request)
        (write_reverse_uint16 (to_host_uint16 (u16 (w.ack_request + frag_index))))
    >> write_response response
    >> write_reverse_uint16 (to_host_uint16 seq)
    >> write_reverse_uint16 (header_bits w.header response)

-- `ack_send_fragment`: the datagram, and the cursor behind it. `none` is an access outside the packet.
unfoldable pub send_fragment :
    Wrapper → Aligned → ℕ → ℕ → Option ℕ → ℕ → ℕ → Option (List ℕ × Aligned)
unfolding write_header advance_by
send_fragment w a data_length opcode response frag_index seq =
    elim (write_header w opcode frag_index response seq a) [
      | none ↦ none
      | some (_, a') ↦
          let len = u32 (data_length + u32 (a.cursor + 2 ^ 32 - a'.cursor)) in
          let crc = crc_calc32_network (take len (drop a'.cursor a'.buffer)) in
          elim ((advance_by len >>= λ _. write_uint32 crc) a') [
            | none ↦ none
            | some (_, a'') ↦ some (take (len + 4) (drop a'.cursor a''.buffer), a'')
          ]
    ]

-- What changes while packets are sent: the sequence numbers, whether an acknowledgement waits to be
-- sent (`hasAckResponse` of 1) or was sent with a fragment (2), the calls of the clock, and the
-- datagrams.
pub data Response : Type 0 where
  nothing : Response
  waiting : Response
  sent : Response

pub record Sending : Type 0 where
  pub to_client : ToClient
  pub response : Response
  pub ticks : ℕ
  pub datagrams : List (List ℕ)

abbrev pub the_response : Response → ℕ → Option ℕ
the_response Response.waiting ack = some ack
the_response Response.nothing ack = none
the_response Response.sent ack = none

abbrev pub used : Response → Response
used Response.waiting = Response.sent
used Response.nothing = Response.nothing
used Response.sent = Response.sent

-- The inner `for` with `n` fragments left; `clock` gives the time of each call.
unfoldable pub send_fragments :
    (ℕ → ℕ) → ℕ → ℕ → ℕ → ℕ → ℕ → Wrapper → Aligned → Sending → Option (Wrapper × Aligned × Sending)
unfolding advance_by send_fragment get_next_seq_to_send_and_increment
send_fragments clock ack opcode zero frag_index data_length w a s = some (w, a, s)
send_fragments clock ack opcode (suc n) frag_index data_length w a s =
    let space = if frag_index == 0 then data_space - 2 else data_space in
    let (seq, t) = get_next_seq_to_send_and_increment s.to_client in
    let a0 = record a { cursor = u32 (a.cursor + header_size) } in
    let response = the_response s.response ack in
    let len = if ltb space data_length then space else data_length in
    elim (send_fragment w a0 len opcode response frag_index seq) [
      | none ↦ none
      | some (datagram, a') ↦
          send_fragments clock ack opcode n (frag_index + 1) (u32 (data_length + 2 ^ 32 - space))
            (record w { ack_timestamp = clock s.ticks }) a'
            (record {
              to_client = t;
              response = used s.response;
              ticks = s.ticks + 1;
              datagrams = s.datagrams ++ datagram ∷ [];
            })
    ]

abbrev is_past : AckComparison → Bool
is_past past = true
is_past present = false
is_past future = false

-- The `while` that skips the fragments that were acknowledged: the fragment to begin with, and the
-- cursor there, with `n` fragments left.
unfoldable pub skip_acked : ℕ → ℕ → ℕ → ℕ → Aligned → ℕ × Aligned
skip_acked received zero frag_index ack a = (frag_index, a)
skip_acked received (suc n) frag_index ack a =
    let step = header_size + data_space - 2 + crc_size in
    let more = if ltb 0 frag_index then 2 else 0 in
    let rest =
      skip_acked received n (frag_index + 1) (u16 (ack + 1))
        (record a { cursor = u32 (u32 (a.cursor + step) + more) }) in
    if is_past (cmp received ack) then (frag_index, a) else rest

-- The body of the outer `for`, for packet `i`; `time` is the time at the start.
unfoldable pub send_packet :
    (ℕ → ℕ) → ℕ → ℕ → ℕ → ℕ → ℕ → Wrapper → Sending → Option (Wrapper × Sending)
unfolding init skip_acked send_fragments buffer_raw_length
send_packet clock time ack received from i w s = elim w.packet [
  | none ↦ none
  | some p ↦
      let a = init p.bytes (buffer_raw_length p) in
      let start =
        if ltb i from && ltb 1 w.frag_count
        then skip_acked received w.frag_count 0 w.ack_request a
        else (0, a) in
      let send =
        send_fragments clock ack p.opcode (w.frag_count - start.0) start.0 p.data_length w start.1
          s in
      if ltb i from && ltb (u64 (time + 2 ^ 64 - w.ack_timestamp)) 250
      then some (w, s)
      else elim send [
        | none ↦ none
        | some (w', a', s') ↦
            some (record w' { packet = some (record p { bytes = a'.buffer }) }, s')
      ]
]

-- The outer `for` over the packets from number `i` on, `n` of them
unfoldable pub send_packets :
    (ℕ → ℕ) → ℕ → ℕ → ℕ → ℕ → ℕ → ℕ → List Wrapper → Sending → Option (List Wrapper × Sending)
unfolding send_packet
send_packets clock time ack received from zero i q s = some (q, s)
send_packets clock time ack received from (suc n) i [] s = none
send_packets clock time ack received from (suc n) i (w ∷ q) s =
    elim (send_packet clock time ack received from i w s) [
      | none ↦ none
      | some (w', s') ↦ elim (send_packets clock time ack received from n (i + 1) q s') [
        | none ↦ none
        | some (q', s'') ↦ some (w' ∷ q', s'')
      ]
    ]

-- The end of the function: an acknowledgement that no fragment took along is sent alone.
unfoldable pub send_rest : List ℕ → ℕ → UdpClient → Response → Option (List (List ℕ) × UdpClient)
unfolding send_ack
send_rest junk ack c Response.nothing = some ([], c)
send_rest junk ack c Response.sent = some ([], c)
send_rest junk ack c Response.waiting = elim (send_ack junk c ack) [
  | none ↦ none
  | some (bytes, c') ↦ some (bytes ∷ [], c')
]

abbrev pub begun : ℕ → ℕ → ToClient → Sending
begun last_ack_sent next_ack t = record {
  to_client = t;
  response = if last_ack_sent == next_ack then Response.nothing else Response.waiting;
  ticks = 1;
  datagrams = [];
}

-- `if (hasAckResponse != 0) ackMgr->toServer.lastAckSent = nextAck;`
abbrev pub flagged : Response → ℕ → ToServer → ToServer
flagged Response.nothing next_ack server = server
flagged Response.waiting next_ack server = record server { last_ack_sent = next_ack }
flagged Response.sent next_ack server = record server { last_ack_sent = next_ack }

-- `ack_send_queued_packets`: the datagrams, in order, and the client after it. `junk` is what the stack
-- has where the acknowledgement is built.
unfoldable pub send_queued_packets :
    (ℕ → ℕ) → List ℕ → UdpClient → Option (List (List ℕ) × UdpClient)
unfolding send_packets send_rest
send_queued_packets clock junk c =
    let server = c.ack_mgr.to_server in
    let client = c.ack_mgr.to_client in
    let next_ack = u16 (server.next_ack_request_expected + 2 ^ 16 - 1) in
    let ack = to_host_uint16 next_ack in
    let begin = begun server.last_ack_sent next_ack client in
    elim (send_packets clock (clock 0) ack server.last_ack_received client.send_from_index
      client.count 0 client.queue begin) [
        | none ↦ none
        | some (q, s) ↦
            let t = record (s.to_client) { queue = q; send_from_index = client.count } in
            let server' = flagged s.response next_ack server in
            let c' = record c { ack_mgr = record { to_server = server'; to_client = t } } in
            elim (send_rest junk ack c' s.response) [
              | none ↦ none
              | some (more, c'') ↦ some (s.datagrams ++ more, c'')
            ]
      ]
