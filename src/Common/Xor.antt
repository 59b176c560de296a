-- ===== src/Common/Xor.antt =====
-- Exclusive or of words as arithmetic.
use Prim.Native.Nat.{
  ℕ, zero, suc, ◌+◌, ◌*◌, ◌/◌, ◌%◌, ◌^◌, ◌≤◌, ◌<◌, bit_xor, differ, bitwise, bit_xor-bitwise,
}
use mathlib.Core.Path.{◌≡◌, refl, sym, ap, ap₂, ◌∙◌}
use native.Mathlib.Nat.{pow-suc}
use native.Mathlib.Omega.{arith}
use zeq_server_trilogy.Common.Bits.{digits_enough, mul-pow-suc, div-pow-suc}

differ_lem : (x y : ℕ) → x < 2 → y < 2 → differ x y ≡ (x + y) % 2
differ_lem zero zero h h' = refl
differ_lem zero (suc zero) h h' = refl
differ_lem zero (suc (suc y)) h h' = absurd (omega arith)
differ_lem (suc zero) zero h h' = refl
differ_lem (suc zero) (suc zero) h h' = refl
differ_lem (suc zero) (suc (suc y)) h h' = absurd (omega arith)
differ_lem (suc (suc x)) y h h' = absurd (omega arith)

bitwise_xor-suc :
    (a b : ℕ)
    → bitwise (λ y. y) differ (suc a) b
      ≡ bitwise (λ y. y) differ (suc a / 2) (b / 2) * 2 + differ (suc a % 2) (b % 2)
bitwise_xor-suc a b = omega (
  arith,
  digits_enough (λ y. y) differ a (suc a / 2) (suc a / 2) (b / 2) (omega arith) (omega arith),
)

xor_digits : (a b : ℕ) → bit_xor a b ≡ bit_xor (a / 2) (b / 2) * 2 + differ (a % 2) (b % 2)
xor_digits zero b = simp bit_xor-bitwise (omega arith)
xor_digits (suc a) b = simp bit_xor-bitwise (bitwise_xor-suc a b)

pub xor_step : (a b : ℕ) → bit_xor a b ≡ bit_xor (a / 2) (b / 2) * 2 + (a + b) % 2
xor_step a b = omega (arith, xor_digits a b, differ_lem (a % 2) (b % 2) (omega arith) (omega arith))

pub xor_half : (a b : ℕ) → bit_xor a b / 2 ≡ bit_xor (a / 2) (b / 2)
xor_half a b = omega (arith, xor_step a b)

pub xor_parity : (a b : ℕ) → bit_xor a b % 2 ≡ (a + b) % 2
xor_parity a b = omega (arith, xor_step a b)

comm_fuel : (n a b : ℕ) → a ≤ n → b ≤ n → bit_xor a b ≡ bit_xor b a
comm_fuel zero zero zero h h' = refl
comm_fuel zero zero (suc b) h h' = absurd (omega arith)
comm_fuel zero (suc a) b h h' = absurd (omega arith)
comm_fuel (suc n) a b h h' =
    omega
      (arith, xor_step a b, xor_step b a, comm_fuel n (a / 2) (b / 2) (omega arith) (omega arith))

pub xor_comm : (a b : ℕ) → bit_xor a b ≡ bit_xor b a
xor_comm a b = comm_fuel (a + b) a b (omega arith) (omega arith)

pub zero-xor : (a : ℕ) → bit_xor 0 a ≡ a
zero-xor a = bit_xor-bitwise 0 a

assoc_fuel :
    (n a b c : ℕ) → a ≤ n → b ≤ n → c ≤ n → bit_xor (bit_xor a b) c ≡ bit_xor a (bit_xor b c)
assoc_fuel zero zero b c h h' h'' =
    ap (λ (t : ℕ). bit_xor t c) (zero-xor b) ∙ sym (zero-xor (bit_xor b c))
assoc_fuel zero (suc a) b c h h' h'' = absurd (omega arith)
assoc_fuel (suc n) a b c h h' h'' = omega (
  arith,
  xor_step (bit_xor a b) c,
  ap (λ (t : ℕ). bit_xor t (c / 2)) (xor_half a b),
  xor_parity a b,
  xor_step a (bit_xor b c),
  ap (λ (t : ℕ). bit_xor (a / 2) t) (xor_half b c),
  xor_parity b c,
  assoc_fuel n (a / 2) (b / 2) (c / 2) (omega arith) (omega arith) (omega arith),
)

pub xor_assoc : (a b c : ℕ) → bit_xor (bit_xor a b) c ≡ bit_xor a (bit_xor b c)
xor_assoc a b c = assoc_fuel (a + b + c) a b c (omega arith) (omega arith) (omega arith)

pub xor-zero : (a : ℕ) → bit_xor a 0 ≡ a
xor-zero a = xor_comm a 0 ∙ zero-xor a

self_fuel : (n a : ℕ) → a ≤ n → bit_xor a a ≡ 0
self_fuel zero zero h = refl
self_fuel zero (suc a) h = absurd (omega arith)
self_fuel (suc n) a h = omega (arith, xor_step a a, self_fuel n (a / 2) (omega arith))

pub xor_self : (a : ℕ) → bit_xor a a ≡ 0
xor_self a = self_fuel a a (omega arith)

-- A field above `k` bits, and one below
pub xor_high : (k h x : ℕ) → x < 2 ^ k → bit_xor (h * 2 ^ k) x ≡ h * 2 ^ k + x
xor_high zero h x lt = ground (arith, xor-zero h)
xor_high (suc k) h x lt = ground (
  arith,
  xor_step (h * 2 ^ suc k) x,
  mul-pow-suc h k,
  pow-suc 2 k,
  xor_high k h (x / 2) (omega (arith, pow-suc 2 k)),
)

pub xor_lt : (k a b : ℕ) → a < 2 ^ k → b < 2 ^ k → bit_xor a b < 2 ^ k
xor_lt zero a b h h' = ground (arith, xor_self 0)
xor_lt (suc k) a b h h' =
    let small = pow-suc 2 k in
    omega (arith, xor_step a b, pow-suc 2 k, xor_lt k (a / 2) (b / 2) (omega arith) (omega arith))

pub xor_div : (k a b : ℕ) → bit_xor a b / 2 ^ k ≡ bit_xor (a / 2 ^ k) (b / 2 ^ k)
xor_div zero a b = ground arith
xor_div (suc k) a b =
    div-pow-suc (bit_xor a b) k
    ∙ ap (λ (t : ℕ). t / 2 ^ k) (xor_half a b)
    ∙ xor_div k (a / 2) (b / 2)
    ∙ ap₂ bit_xor (sym (div-pow-suc a k)) (sym (div-pow-suc b k))
