-- ===== src/Crc/Linear.antt =====
-- One bit of the checksum at a time, and its linearity.
use zeq_server_trilogy.Common.{
  ℕ, zero, suc, ◌*◌, ◌/◌, ◌%◌, ◌^◌, ◌≡◌, refl, ap, ap₂, ◌∙◌, sym, bit_xor, arith, if◌then◌else◌,
  ◌==◌,
}
use zeq_server_trilogy.Common.Bits.{mul-pow-suc}
use zeq_server_trilogy.Common.Xor.{
  xor_half, xor_parity, xor_assoc, xor_comm, xor_self, xor-zero, zero-xor,
}

-- The polynomial of the CRC-32, with the lowest power at the top
abbrev pub polynomial : ℕ
polynomial = 0xedb88320

-- The bit that drops out decides whether the polynomial is taken away.
abbrev pub divide_bit : ℕ → ℕ
divide_bit c = bit_xor (c / 2) (if c % 2 == 1 then polynomial else 0)

abbrev pub divide_bits : ℕ → ℕ → ℕ
divide_bits zero c = c
divide_bits (suc n) c = divide_bits n (divide_bit c)

medial : (a b c d : ℕ) → bit_xor (bit_xor a b) (bit_xor c d) ≡ bit_xor (bit_xor a c) (bit_xor b d)
medial a b c d =
    xor_assoc a b (bit_xor c d)
    ∙ ap (bit_xor a)
        (sym (xor_assoc b c d) ∙ ap (λ (t : ℕ). bit_xor t d) (xor_comm b c) ∙ xor_assoc c b d)
    ∙ sym (xor_assoc a c (bit_xor b d))

abbrev taken : ℕ → ℕ
taken c = if c % 2 == 1 then polynomial else 0

taken-xor : (a b : ℕ) → taken (bit_xor a b) ≡ bit_xor (taken a) (taken b)
taken-xor a b = ground (
  arith,
  xor_parity a b,
  xor_self polynomial,
  xor_self 0,
  xor-zero polynomial,
  zero-xor polynomial,
)

pub divide_bit-xor : (a b : ℕ) → divide_bit (bit_xor a b) ≡ bit_xor (divide_bit a) (divide_bit b)
divide_bit-xor a b =
    ap₂ bit_xor (xor_half a b) (taken-xor a b) ∙ medial (a / 2) (b / 2) (taken a) (taken b)

pub divide_bits-xor :
    (n a b : ℕ) → divide_bits n (bit_xor a b) ≡ bit_xor (divide_bits n a) (divide_bits n b)
divide_bits-xor zero a b = refl
divide_bits-xor (suc n) a b =
    ap (divide_bits n) (divide_bit-xor a b) ∙ divide_bits-xor n (divide_bit a) (divide_bit b)

divide_bit-double : (h : ℕ) → divide_bit (h * 2) ≡ h
divide_bit-double h = ground (arith, xor-zero h)

-- Bits above the first `n` only move down.
pub divide_bits-shifted : (n h : ℕ) → divide_bits n (h * 2 ^ n) ≡ h
divide_bits-shifted zero h = omega arith
divide_bits-shifted (suc n) h =
    ap (λ (t : ℕ). divide_bits n (divide_bit t)) (mul-pow-suc h n)
    ∙ ap (divide_bits n) (divide_bit-double (h * 2 ^ n))
    ∙ divide_bits-shifted n h
