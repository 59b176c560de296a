-- ===== src/Outgoing/Header.antt =====
-- The bytes of a header, from its start, and that they are what is written.
use zeq_server_trilogy.Common.{
  length, ◌≤◌, length-append, Bool, true, false, ℕ, ◌+◌, ◌<◌, Option, none, some, List, [], ◌++◌,
  ◌==◌, not, ◌&&◌, if◌then◌else◌, arith, u8, u16,
}
use zeq_server_trilogy.Aligned.{Aligned}
use zeq_server_trilogy.Aligned.Put.{little_endian}
use zeq_server_trilogy.Packet.{header_size}
use zeq_server_trilogy.Ack.{to_host_uint16}
use zeq_server_trilogy.Ack.Send.{Wrapper}
use zeq_server_trilogy.Udp.{has_bit, has_ack_request, is_fragment}
use zeq_server_trilogy.Outgoing.{write_header, write_response, header_bits}
use zeq_server_trilogy.Outgoing.Front.{
  Prepends, Prepends-then, Prepends-when, Prepends-nothing, Prepends-uint8, Prepends-uint16,
}

abbrev pub word : ℕ → List ℕ
word v = little_endian 2 v

abbrev pub response_bytes : Option ℕ → List ℕ
response_bytes none = []
response_bytes (some ack) = word ack

response-Prepends :
    (a0 : Aligned) (response : Option ℕ)
    → Prepends a0 (write_response response) (response_bytes response)
response-Prepends a0 none = Prepends-nothing a0
response-Prepends a0 (some ack) = Prepends-uint16 a0 ack

length-response : (response : Option ℕ) → length (response_bytes response) ≤ 2
length-response none = omega arith
length-response (some ack) = omega arith

length-when : (b : Bool) (bs : List ℕ) → length (if b then bs else []) ≤ length bs
length-when true bs = omega arith
length-when false bs = omega arith

module _ (w : Wrapper) (opcode frag_index : ℕ) (response : Option ℕ) (seq : ℕ) where
  abbrev pub request_bytes : List ℕ
  request_bytes =
      if has_bit w.header has_ack_request
      then word (to_host_uint16 (u16 (w.ack_request + frag_index)))
      else []

  abbrev pub fragment_bytes : List ℕ
  fragment_bytes =
      if has_bit w.header is_fragment
      then word (to_host_uint16 w.frag_group)
        ++ (word (to_host_uint16 frag_index) ++ word (to_host_uint16 w.frag_count))
      else []

  abbrev pub counter_bytes : List ℕ
  counter_bytes =
      if has_bit w.header has_ack_request
      then little_endian 1 w.ack_counter_always_one
        ++ little_endian 1 (u8 (w.ack_counter_request + frag_index))
      else []

  abbrev pub opcode_bytes : List ℕ
  opcode_bytes = if frag_index == 0 && not (opcode == 0) then word opcode else []

  abbrev pub header_bytes : List ℕ
  header_bytes =
      word (header_bits w.header response)
      ++ (word (to_host_uint16 seq)
          ++ (response_bytes response
              ++ (request_bytes ++ (fragment_bytes ++ (counter_bytes ++ opcode_bytes)))))

  pub write_header-Prepends :
      (a0 : Aligned)
      → w.ack_counter_always_one < 256
      → Prepends a0 (write_header w opcode frag_index response seq) header_bytes
  unfolding write_header
  write_header-Prepends a0 one =
      let p1 =
        Prepends-when a0 (frag_index == 0 && not (opcode == 0)) _ _ (Prepends-uint16 a0 opcode) in
      let p2 = Prepends-when a0 (has_bit w.header has_ack_request) _ _ (
        Prepends-then a0 _ _ _ _
          (Prepends-uint8 a0 (u8 (w.ack_counter_request + frag_index)) (omega arith))
          (Prepends-uint8 a0 w.ack_counter_always_one one)) in
      let p3 = Prepends-when a0 (has_bit w.header is_fragment) _ _ (
        Prepends-then a0 _ _ _ _
          (Prepends-then a0 _ _ _ _ (Prepends-uint16 a0 (to_host_uint16 w.frag_count))
            (Prepends-uint16 a0 (to_host_uint16 frag_index)))
          (Prepends-uint16 a0 (to_host_uint16 w.frag_group))) in
      let p4 =
        Prepends-when a0 (has_bit w.header has_ack_request) _ _
          (Prepends-uint16 a0 (to_host_uint16 (u16 (w.ack_request + frag_index)))) in
      let p5 = response-Prepends a0 response in
      Prepends-then a0 _ _ _ _
        (Prepends-then a0 _ _ _ _
          (Prepends-then a0 _ _ _ _
            (Prepends-then a0 _ _ _ _ (Prepends-then a0 _ _ _ _ (Prepends-then a0 _ _ _ _ p1 p2) p3)
              p4)
            p5)
          (Prepends-uint16 a0 (to_host_uint16 seq)))
        (Prepends-uint16 a0 (header_bits w.header response))

  -- The header fits in front of the payload.
  pub length-header_bytes : length header_bytes ≤ header_size
  length-header_bytes =
      let o = length-when (frag_index == 0 && not (opcode == 0)) (word opcode) in
      let c = length-when (has_bit w.header has_ack_request) (
        little_endian 1 w.ack_counter_always_one
        ++ little_endian 1 (u8 (w.ack_counter_request + frag_index))) in
      let f = length-when (has_bit w.header is_fragment) (
        word (to_host_uint16 w.frag_group)
        ++ (word (to_host_uint16 frag_index) ++ word (to_host_uint16 w.frag_count))) in
      let q =
        length-when (has_bit w.header has_ack_request)
          (word (to_host_uint16 (u16 (w.ack_request + frag_index)))) in
      let a = length-response response in
      omega (
        arith,
        length-append counter_bytes opcode_bytes,
        length-append fragment_bytes (counter_bytes ++ opcode_bytes),
        length-append request_bytes (fragment_bytes ++ (counter_bytes ++ opcode_bytes)),
        length-append (response_bytes response)
            (request_bytes ++ (fragment_bytes ++ (counter_bytes ++ opcode_bytes))),
      )
