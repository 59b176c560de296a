-- ===== src/Ipv4/Subnets.antt =====
-- Which addresses are local, by their four numbers.
use zeq_server_trilogy.Common.{
  ℕ, ◌+◌, ◌*◌, ◌/◌, ◌%◌, ◌^◌, ◌≤◌, ◌<◌, ◌≡◌, ◌⊎◌, ◌↔◌, ap, ◌∙◌, bit_and, true, arith,
}
use zeq_server_trilogy.Common.Bits.{and_low, and_shifted, and_fields}
use zeq_server_trilogy.Ipv4.{ip_is_local}

abbrev pub address : ℕ → ℕ → ℕ → ℕ → ℕ
address a b c d = a + b * 2 ^ 8 + c * 2 ^ 16 + d * 2 ^ 24

-- The four numbers of 127.0.0.1, of 192.168.x.x, of 10.x.x.x, and of 172.16.x.x to 172.31.x.x
abbrev pub IsLocal : ℕ → ℕ → ℕ → ℕ → Type 0
IsLocal a b c d =
    ((a ≡ 127) × (b ≡ 0) × (c ≡ 0) × (d ≡ 1))
    ⊎ (((a ≡ 192) × (b ≡ 168)) ⊎ ((a ≡ 10) ⊎ ((a ≡ 172) × (16 ≤ b) × (b ≤ 31))))

mask_lem : (x : ℕ) → bit_and x 0x0000f0ff ≡ x % 2 ^ 8 + x / 2 ^ 8 / 2 ^ 4 % 2 ^ 4 * 2 ^ 4 * 2 ^ 8
mask_lem x =
    let high =
      and_shifted 4 (x / 2 ^ 8) 15 ∙ ap (λ (t : ℕ). t * 2 ^ 4) (and_low 4 (x / 2 ^ 8 / 2 ^ 4)) in
    let low = and_low 8 x in and_fields 8 x 255 240 (omega arith) ∙ omega (arith, high, low)

-- For the address a.b.c.d of four bytes: the function says that it is local exactly when it is
-- 127.0.0.1, or in 192.168.x.x, 10.x.x.x, or 172.16.x.x to 172.31.x.x.
pub ip_is_local-IsLocal :
    (a b c d : ℕ)
    → a < 256
    → b < 256
    → c < 256
    → d < 256
    → (ip_is_local (address a b c d) ≡ true) ↔ IsLocal a b c d
unfolding ip_is_local
ip_is_local-IsLocal a b c d ha hb hc hd =
    ground
      (arith, and_low 16 (address a b c d), and_low 8 (address a b c d), mask_lem (address a b c d))
