-- ===== src/Udp.antt =====
-- src/udp_client.c: what a datagram from a client does. Here are the client, the acknowledgements that
-- it is sent, and the parts of a datagram in the order in which they are read.
pub mod Protocol
pub mod Safe
mod Total
mod Handled
pub mod Checksum
mod Tests
use zeq_server_trilogy.Common.{
  ℕ, zero, suc, ◌+◌, ◌-◌, ◌*◌, ◌/◌, ◌%◌, ◌^◌, bit_and, Bool, true, false, Option, none, some, List,
  [], ◌∷◌, ◌++◌, take, replicate, ltb, leb, ◌==◌, not, ◌&&◌, if◌then◌else◌, u8, u16, u32,
}
use zeq_server_trilogy.Aligned.{
  Aligned, M, init, advance_by, read_uint16, read_uint32, remaining_data, reset_cursor_to,
  set_length, write_uint16, write_uint32, ◌>>◌, return,
}
use zeq_server_trilogy.Ack.{to_host_uint16, Delivery}
use zeq_server_trilogy.Ack.Send.{AckMgr, ToClient, get_next_seq_to_send_and_increment}
use zeq_server_trilogy.Crc.{crc_calc32_network}

-- The bits of `enum TlgPacketHeaderBits` that are read
abbrev pub has_ack_request : ℕ
has_ack_request = 0x0002

abbrev pub is_closing : ℕ
is_closing = 0x0004

abbrev pub is_fragment : ℕ
is_fragment = 0x0008

abbrev pub has_ack_counter : ℕ
has_ack_counter = 0x0010

abbrev pub is_first_packet : ℕ
is_first_packet = 0x0020

abbrev pub is_closing2 : ℕ
is_closing2 = 0x0040

abbrev pub has_ack_response : ℕ
has_ack_response = 0x0400

abbrev pub has_bit : ℕ → ℕ → Bool
has_bit header bit = not (bit_and header bit == 0)

-- `UdpClient`, as far as its packets go
pub record UdpClient : Type 0 where
  pub ack_mgr : AckMgr

-- What goes out during a call: bytes to the client, or a packet to the server
pub data Event : Type 0 where
  sent : List ℕ → Event
  delivered : Delivery → Event

-- `udpc_send_ack`; `junk` is what the stack has. The bytes are those given to `udpc_send_immediate`.
unfoldable pub ack_front : ℕ → ℕ → M (Unit {0})
ack_front seq_network ack_network =
    write_uint16 has_ack_response >> write_uint16 seq_network >> write_uint16 ack_network

unfoldable pub send_ack : List ℕ → UdpClient → ℕ → Option (List ℕ × UdpClient)
send_ack junk c ack_network =
    let (seq, t) = get_next_seq_to_send_and_increment c.ack_mgr.to_client in
    let c' = record c { ack_mgr = record (c.ack_mgr) { to_client = t } } in
    elim (ack_front (to_host_uint16 seq) ack_network (init junk 10)) [
      | none ↦ none
      | some (_, a) ↦ elim (write_uint32 (crc_calc32_network (take 6 a.buffer)) a) [
        | none ↦ none
        | some (_, a') ↦ some (a'.buffer, c')
      ]
    ]

-- The reading of a part: a fault (a read outside the memory of the datagram), `goto oob`, or a value
-- and the cursor behind it.
pub data Parse (A : Type 0) : Type 0 where
  fault : Parse A
  oob : Parse A
  ok : A → Aligned → Parse A

abbrev pub P : Type 0 → Type 0
P A = Aligned → Parse A

infixl 5 ◌>>=◌
abbrev pub ◌>>=◌ : {A B : Type 0} → P A → (A → P B) → P B
◌>>=◌ m f a = elim (m a) [ fault ↦ fault | oob ↦ oob | ok x a' ↦ f x a' ]

abbrev pub pure : {A : Type 0} → A → P A
pure x a = ok x a

abbrev pub lift : {A : Type 0} → M A → P A
lift m a = elim (m a) [ none ↦ fault | some (x, a') ↦ ok x a' ]

-- `if (aligned_remaining_data(&a) < n) goto oob;`
unfoldable pub need : ℕ → P (Unit {0})
unfolding remaining_data
need n a = if ltb (remaining_data a) n then oob else ok tt a

-- A field that is skipped when its bit is set
unfoldable pub skip_field : ℕ → ℕ → ℕ → P (Unit {0})
unfolding need advance_by
skip_field header bit n =
    if has_bit header bit then (need n >>= λ _. lift (advance_by n) >>= λ _. pure tt) else pure tt

-- The five fields that are of no interest
unfoldable pub skip_unknown : ℕ → P (Unit {0})
unfolding skip_field
skip_unknown header = skip_field header 0x0800 2 >>= λ _. skip_field header 0x1000 1 >>= λ _.
    skip_field header 0x2000 2 >>= λ _.
    skip_field header 0x4000 4 >>= λ _. skip_field header 0x8000 8

unfoldable pub ack_request_field : ℕ → P ℕ
unfolding need read_uint16
ack_request_field header =
    if has_bit header has_ack_request
    then (need 2 >>= λ _. lift read_uint16 >>= λ ack. pure (to_host_uint16 ack))
    else pure 0

-- `fragIndex` and `fragCount`
unfoldable pub fragment_fields : ℕ → P (ℕ × ℕ)
unfolding need advance_by read_uint16
fragment_fields header =
    if has_bit header is_fragment
    then (need 6 >>= λ _. lift (advance_by 2) >>= λ _. lift read_uint16 >>= λ index.
        lift read_uint16 >>= λ count. pure (to_host_uint16 index, to_host_uint16 count))
    else pure (0, 0)

unfoldable pub counter_field : ℕ → P (Unit {0})
unfolding skip_field
counter_field header =
    skip_field header has_ack_counter (if has_bit header has_ack_request then 2 else 1)

unfoldable pub opcode_field : ℕ → P ℕ
unfolding read_uint16 remaining_data
opcode_field frag_index a =
    if (frag_index == 0) && leb 2 (remaining_data a) then lift read_uint16 a else ok 0 a

-- The checksum in the last four bytes
unfoldable pub footer : List ℕ → ℕ → Parse ℕ
unfolding init advance_by read_uint32
footer bytes len =
    (lift (advance_by (u32 (len + 2 ^ 32 - 4))) >>= λ _. lift read_uint32) (init bytes len)

-- It is compared; what is left is the datagram without it. `oob` is the `return false` of a wrong
-- checksum.
unfoldable pub checked : List ℕ → ℕ → Parse (Unit {0})
unfolding footer crc_calc32_network reset_cursor_to set_length
checked bytes len =
    let n = u32 (len + 2 ^ 32 - 4) in
    elim (footer bytes len) [
      | fault ↦ fault
      | oob ↦ oob
      | ok crc a ↦
          if crc == crc_calc32_network (take n bytes)
          then ok tt (set_length n (reset_cursor_to 0 a))
          else oob
    ]
