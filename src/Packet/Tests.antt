-- ===== src/Packet/Tests.antt =====
-- Packets at concrete sizes.
use zeq_server_trilogy.Common.{
  ℕ, ◌+◌, ◌*◌, ◌/◌, ◌%◌, ◌≤◌, ◌<◌, ◌≡◌, ◌≢◌, ◌↔◌, ◌⊎◌, refl, true, false, some, length, get_or,
  replicate, arith,
}
use zeq_server_trilogy.Packet.{TlgPacket, fragmentize, calc_length_and_frag_count}
use zeq_server_trilogy.Packet.Fragmentize.{fragmentize_lem, fragments_hold_iff}

-- 600 bytes of payload
abbrev sample : TlgPacket
sample = record {
  opcode = 5;
  frag_count = 1;
  is_fragmentized = false;
  data_length = 600;
  ref_count = 0;
  bytes = replicate 644 7;
}

sample_count : sample.frag_count ≡ (calc_length_and_frag_count sample.data_length).1
unfolding calc_length_and_frag_count
sample_count = refl

fragmentize_lem_example :
    (p' : TlgPacket) × (fragmentize sample ≡ some p')
    × (p'.is_fragmentized ≡ true)
    × (length p'.bytes ≡ length sample.bytes)
    × ((q : ℕ)
        → q < 600
        → get_or p'.bytes (18 + q + 22 * ((q + 2) / 512)) 0 ≡ get_or sample.bytes (18 + q) 0)
fragmentize_lem_example =
    fragmentize_lem sample (omega arith) (omega arith) sample_count refl (omega arith) (omega arith)

abbrev odd_size : ℕ
odd_size = 1023

fragments_hold_iff_example :
    (odd_size ≤ 510 + 512 * (calc_length_and_frag_count odd_size).1)
    ↔ ((odd_size % 512 < 511) × ((odd_size % 512 ≢ 0) ⊎ (odd_size ≡ 0)))
fragments_hold_iff_example = fragments_hold_iff odd_size (omega arith)

-- A payload of 1023 bytes is counted as two fragments.
two_for_1023 : (calc_length_and_frag_count 1023).1 ≡ 1
unfolding calc_length_and_frag_count
two_for_1023 = refl
