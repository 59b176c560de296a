-- ===== src/Packet.antt =====
-- src/tlg_packet.c: packets to the client, and how the payload of a large one is spread out in place
-- so that every fragment has room for its own header and checksum. `none` is a failed allocation, or
-- an access outside the memory of the packet.
pub mod Copy
pub mod Fragmentize
mod Tests
use zeq_server_trilogy.Common.{
  ℕ, zero, suc, ◌+◌, ◌-◌, ◌*◌, ◌/◌, ◌%◌, ◌^◌, Bool, true, false, Option, none, some, List, length,
  get_elem?, set, replicate, leb, ◌==◌, if◌then◌else◌, u16, u32,
}

-- `TLG_PACKET_HEADER_SIZE`, which is `TLG_PACKET_DATA_OFFSET`, `TLG_PACKET_DATA_SPACE`,
-- `TLG_PACKET_CRC_SIZE` and `sizeof(TlgPacket)`
abbrev pub header_size : ℕ
header_size = 18

abbrev pub data_space : ℕ
data_space = 512

abbrev pub crc_size : ℕ
crc_size = 4

abbrev pub struct_size : ℕ
struct_size = 16

-- `TlgPacket`; `bytes` is the memory at `data`, after the fields.
pub record TlgPacket : Type 0 where
  pub opcode : ℕ
  pub frag_count : ℕ
  pub is_fragmentized : Bool
  pub data_length : ℕ
  pub ref_count : ℕ
  pub bytes : List ℕ

-- `packet_calc_length_and_frag_count`: the bytes to allocate, and `fragCount`.
unfoldable pub calc_length_and_frag_count : ℕ → ℕ × ℕ
calc_length_and_frag_count n =
    if leb n data_space
    then (u32 (struct_size + header_size + n + crc_size), 0)
    else (let count = if n % data_space == 0 then n / data_space else n / data_space + 1 in
        (u32 (struct_size + (header_size + crc_size) * count + n), u16 (count + 2 ^ 16 - 1)))

-- `packet_create`. `memory` is what `malloc` finds in the bytes that it returns: `none` when it has
-- none to give.
unfoldable pub create : (ℕ → Option (List ℕ)) → ℕ → ℕ → Option TlgPacket
create malloc opcode n = elim (malloc ((calc_length_and_frag_count n).0 - struct_size)) [
  | none ↦ none
  | some memory ↦ some record {
    opcode = opcode;
    frag_count = (calc_length_and_frag_count n).1;
    is_fragmentized = false;
    data_length = n;
    ref_count = 0;
    bytes = memory;
  }
]

-- `packet_drop` of a packet that is there: `none` when its memory has been freed. The count is an
-- `int`: below 1 it does not become smaller than the test can see.
unfoldable pub packet_drop : TlgPacket → Option TlgPacket
packet_drop p = if leb p.ref_count 1 then none else some (record p { ref_count = p.ref_count - 1 })

-- `packet_grab`
unfoldable pub packet_grab : TlgPacket → TlgPacket
packet_grab p = record p { ref_count = p.ref_count + 1 }

-- `packet_buffer_raw_length`
unfoldable pub buffer_raw_length : TlgPacket → ℕ
buffer_raw_length p = u32 (p.data_length + (header_size + crc_size) * (p.frag_count + 1))

-- The loop over `j`: `data[dst--] = data[src--]`, `k` times
unfoldable pub copy_down : ℕ → ℕ → ℕ → List ℕ → Option (List ℕ)
copy_down zero dst src bytes = some bytes
copy_down (suc k) dst src bytes =
    if leb (length bytes) dst then none else elim (get_elem? bytes src) [
      | none ↦ none
      | some b ↦ copy_down k (u32 (dst + 2 ^ 32 - 1)) (u32 (src + 2 ^ 32 - 1)) (set bytes dst b)
    ]

-- The loop over `i`: `n` fragments, the first of them with `k` bytes, the others with 512
unfoldable pub spread : ℕ → ℕ → ℕ → ℕ → List ℕ → Option (List ℕ)
spread zero k dst src bytes = some bytes
spread (suc n) k dst src bytes = elim (copy_down k dst src bytes) [
  | none ↦ none
  | some bytes' ↦
      spread n data_space (u32 (dst + 2 ^ 32 * 2 - k - (header_size + crc_size)))
        (u32 (src + 2 ^ 32 - k)) bytes'
]

-- The bytes in the last fragment
unfoldable pub last_fragment : ℕ → ℕ
last_fragment n = let rem = u32 (n + 2) % data_space in if rem == 0 then data_space else rem

-- `packet_fragmentize`
unfoldable pub fragmentize : TlgPacket → Option TlgPacket
fragmentize p =
    if p.frag_count == 0
    then some (record p { is_fragmentized = true })
    else elim (spread p.frag_count (last_fragment p.data_length)
        (u32 (buffer_raw_length p + 2 ^ 32 - crc_size - 1))
        (u32 (p.data_length + header_size + 2 ^ 32 - 1)) p.bytes) [
          | none ↦ none
          | some bytes ↦ some (record p { is_fragmentized = true; bytes = bytes })
        ]
