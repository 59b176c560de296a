-- ===== src/Ack.antt =====
-- src/ack_mgr.c and src/ack_mgr.h: the acknowledgement layer under every UDP client. Here are the
-- comparison of sequence numbers and the records; the two directions are in the child modules.
pub mod Send
pub mod Recv
mod Compare
use zeq_server_trilogy.Common.{
  ℕ, ◌+◌, ◌*◌, ◌/◌, ◌%◌, Bool, true, false, ◌&&◌, ◌||◌, List, [], ltb, ◌==◌, if◌then◌else◌,
}

-- `htons` and `ntohs` of the C library, on the little-endian machines that the server runs on.
abbrev pub to_host_uint16 : ℕ → ℕ
to_host_uint16 x = x % 256 * 256 + x / 256

-- `enum AckComparison`
pub data AckComparison : Type 0 where
  past present future : AckComparison

abbrev pub cmp_window_half_size : ℕ
cmp_window_half_size = 1024

-- The operands are promoted to `int`, so `expected - 1024` may be negative: it is moved to the left.
unfoldable pub cmp : ℕ → ℕ → AckComparison
cmp got expected =
    if got == expected
    then present
    else if (ltb expected got && ltb got (expected + cmp_window_half_size))
        || ltb (got + cmp_window_half_size) expected
    then future
    else past

-- `AckMgrToServerPacket`; `payload` is the memory at `data`, empty for a null pointer.
pub record ServerPacket : Type 0 where
  pub ack_request : ℕ
  pub frag_count : ℕ
  pub opcode : ℕ
  pub length : ℕ
  pub payload : List ℕ

-- A slot after `memset`
abbrev pub empty_slot : ServerPacket
empty_slot = record { ack_request = 0; frag_count = 0; opcode = 0; length = 0; payload = [] }

-- `AckMgrToServer`; `queue` is the memory at `packetQueue`.
pub record ToServer : Type 0 where
  pub next_ack_request_expected : ℕ
  pub last_ack_sent : ℕ
  pub last_ack_received : ℕ
  pub lowest_ack_in_queue : ℕ
  pub count : ℕ
  pub capacity : ℕ
  pub queue : List ServerPacket

-- What goes on to the server, by `udpc_recv_packet` or `udpc_recv_packet_no_copy`
pub record Delivery : Type 0 where
  pub opcode : ℕ
  pub payload : List ℕ
