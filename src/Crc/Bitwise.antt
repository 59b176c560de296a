-- ===== src/Crc/Bitwise.antt =====
-- The checksum by the table against division by the polynomial, bit by bit.
use zeq_server_trilogy.Common.{
  ℕ, zero, suc, ◌+◌, ◌*◌, ◌/◌, ◌%◌, ◌^◌, ◌<◌, ◌≡◌, refl, ap, ◌∙◌, sym, bit_and, bit_xor, arith,
  Bool, true, ◌&&◌, ◌==◌, List, [], ◌∷◌, get_or, length,
}
use zeq_server_trilogy.Common.Bits.{and_low}
use zeq_server_trilogy.Common.Xor.{xor_high, xor_lt, xor_comm, xor_assoc}
use zeq_server_trilogy.Crc.{crc_update, crc_calc32, complement}
use zeq_server_trilogy.Crc.Table.{crc_table}
use zeq_server_trilogy.Crc.Linear.{divide_bits, divide_bits-xor, divide_bits-shifted}

-- Each byte is added to the remainder, which is then divided for eight bits.
abbrev pub remainder : List ℕ → ℕ → ℕ
remainder [] c = c
remainder (b ∷ bs) c = remainder bs (divide_bits 8 (bit_xor c b))

abbrev pub AllBytes : List ℕ → Type 0
AllBytes [] = Unit {0}
AllBytes (b ∷ bs) = (b < 2 ^ 8) × AllBytes bs

-- The table holds at `i` the remainder of `i`.
matches : ℕ → List ℕ → Bool
matches i [] = true
matches i (t ∷ ts) = (t == divide_bits 8 i) && matches (i + 1) ts

crc_table-matches : matches 0 crc_table ≡ true
unfolding matches crc_table
crc_table-matches = refl

length-crc_table : length crc_table ≡ 256
unfolding crc_table
length-crc_table = refl

get_or-matches :
    (i j : ℕ) (ts : List ℕ)
    → matches i ts ≡ true
    → j < length ts
    → get_or ts j 0 ≡ divide_bits 8 (i + j)
unfolding matches
get_or-matches i j [] h lt = elim lt [ ]
get_or-matches i zero (t ∷ ts) h lt =
    let first : t ≡ divide_bits 8 i = ground arith in first ∙ ap (divide_bits 8) (omega arith)
get_or-matches i (suc j) (t ∷ ts) h lt =
    get_or-matches (i + 1) j ts (ground arith) (omega arith) ∙ ap (divide_bits 8) (omega arith)

table_entry : (j : ℕ) → j < 2 ^ 8 → get_or crc_table j 0 ≡ divide_bits 8 j
table_entry j lt =
    get_or-matches 0 j crc_table crc_table-matches (omega (arith, length-crc_table))
    ∙ ap (divide_bits 8) (omega arith)

-- One step by the table is a division for eight bits.
table_step :
    (b c : ℕ)
    → b < 2 ^ 8
    → bit_xor (c / 2 ^ 8) (get_or crc_table (bit_xor b (bit_and c 0xff)) 0)
      ≡ divide_bits 8 (bit_xor c b)
table_step b c lt =
    let high = c / 2 ^ 8 in
    let low = c % 2 ^ 8 in
    let index : bit_xor b (bit_and c 0xff) ≡ bit_xor low b =
      ap (bit_xor b) (and_low 8 c) ∙ xor_comm b low in
    let inside = xor_lt 8 low b (omega arith) lt in
    let split : bit_xor (high * 2 ^ 8) low ≡ c = xor_high 8 high low (omega arith) ∙ omega arith in
    ap (λ (i : ℕ). bit_xor high (get_or crc_table i 0)) index
    ∙ ap (bit_xor high) (table_entry (bit_xor low b) inside)
    ∙ ap (λ (t : ℕ). bit_xor t (divide_bits 8 (bit_xor low b))) (sym (divide_bits-shifted 8 high))
    ∙ sym (divide_bits-xor 8 (high * 2 ^ 8) (bit_xor low b))
    ∙ ap (divide_bits 8) (sym (xor_assoc (high * 2 ^ 8) low b) ∙ ap (λ (t : ℕ). bit_xor t b) split)

crc_update-remainder :
    (bytes : List ℕ) (c : ℕ) → AllBytes bytes → crc_update bytes c ≡ remainder bytes c
unfolding crc_update
crc_update-remainder [] c h = refl
crc_update-remainder (b ∷ bs) c h =
    crc_update-remainder bs (bit_xor (c / 2 ^ 8) (get_or crc_table (bit_xor b (bit_and c 0xff)) 0))
      h.1
    ∙ ap (remainder bs) (table_step b c h.0)

-- For every sequence of bytes, the checksum by the table is the complement of the remainder that
-- division by the CRC-32 polynomial leaves, one bit at a time, from a start of 32 ones.
pub crc_calc32-remainder :
    (bytes : List ℕ) → AllBytes bytes → crc_calc32 bytes ≡ complement (remainder bytes 0xffffffff)
unfolding crc_calc32
crc_calc32-remainder bytes h = ap complement (crc_update-remainder bytes 0xffffffff h)
