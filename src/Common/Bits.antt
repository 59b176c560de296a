-- ===== src/Common/Bits.antt =====
-- `&` and `|` on words as arithmetic: digit by digit from the definition of the native operations,
-- then for whole fields.
use Prim.Native.Nat.{
  ℕ, zero, suc, ◌+◌, ◌-◌, ◌*◌, ◌/◌, ◌%◌, ◌^◌, ◌≤◌, ◌<◌, min, max, bit_and, bit_or, digits, bitwise,
  bit_and-bitwise, bit_or-bitwise,
}
use mathlib.Core.Path.{◌≡◌, refl, sym, ap, ◌∙◌}
use native.Mathlib.Nat.{pow-suc, one-le-pow, div-div-eq-div-mul, div-add-mod, mul-div_left, one-mul}
use native.Mathlib.Omega.{arith}

-- Any fuel that is not below the first operand gives the same digits.
pub digits_enough :
    (z : ℕ → ℕ) (f : ℕ → ℕ → ℕ) (n m a b : ℕ) → a ≤ n → a ≤ m → digits z f n a b ≡ digits z f m a b
digits_enough z f zero zero a b p q = refl
digits_enough z f zero (suc m) zero b p q = refl
digits_enough z f zero (suc m) (suc a) b p q = elim p [ ]
digits_enough z f (suc n) zero zero b p q = refl
digits_enough z f (suc n) zero (suc a) b p q = elim q [ ]
digits_enough z f (suc n) (suc m) zero b p q = refl
digits_enough z f (suc n) (suc m) (suc a) b p q =
    rw (digits_enough z f n m (suc a / 2) (b / 2) (omega arith) (omega arith))

bitwise-suc :
    (z : ℕ → ℕ) (f : ℕ → ℕ → ℕ) (a b : ℕ)
    → bitwise z f (suc a) b ≡ bitwise z f (suc a / 2) (b / 2) * 2 + f (suc a % 2) (b % 2)
bitwise-suc z f a b =
    omega (arith, digits_enough z f a (suc a / 2) (suc a / 2) (b / 2) (omega arith) (omega arith))

and_step : (a b : ℕ) → bit_and a b ≡ bit_and (a / 2) (b / 2) * 2 + min (a % 2) (b % 2)
and_step zero b = simp bit_and-bitwise (omega arith)
and_step (suc a) b = simp bit_and-bitwise (bitwise-suc (λ y. 0) min a b)

or_step : (a b : ℕ) → bit_or a b ≡ bit_or (a / 2) (b / 2) * 2 + max (a % 2) (b % 2)
or_step zero b = simp bit_or-bitwise (omega arith)
or_step (suc a) b = simp bit_or-bitwise (bitwise-suc (λ y. y) max a b)

or-zero_fuel : (n a : ℕ) → a ≤ n → bit_or a 0 ≡ a
or-zero_fuel n zero h = refl
or-zero_fuel zero (suc a) h = elim h [ ]
or-zero_fuel (suc n) (suc a) h =
    omega (arith, or_step (suc a) 0, or-zero_fuel n (suc a / 2) (omega arith))

pub or-zero : (a : ℕ) → bit_or a 0 ≡ a
or-zero a = or-zero_fuel a a (omega arith)

pub zero-or : (a : ℕ) → bit_or 0 a ≡ a
zero-or a = bit_or-bitwise 0 a

and-zero_fuel : (n a : ℕ) → a ≤ n → bit_and a 0 ≡ 0
and-zero_fuel n zero h = refl
and-zero_fuel zero (suc a) h = elim h [ ]
and-zero_fuel (suc n) (suc a) h =
    omega (arith, and_step (suc a) 0, and-zero_fuel n (suc a / 2) (omega arith))

pub and-zero : (a : ℕ) → bit_and a 0 ≡ 0
and-zero a = and-zero_fuel a a (omega arith)

pub mul-pow-suc : (q k : ℕ) → q * 2 ^ suc k ≡ q * 2 ^ k * 2
mul-pow-suc q k = omega (arith, ap (λ (t : ℕ). q * t) (pow-suc 2 k))

-- Shifts by `k + 1` go through a shift by one.
pub div-pow-suc : (v k : ℕ) → v / 2 ^ suc k ≡ v / 2 / 2 ^ k
div-pow-suc v k =
    rw (div-div-eq-div-mul v 2 (2 ^ k)) (ap (λ (t : ℕ). v / t) (omega (arith, pow-suc 2 k)))

mod-pow-suc : (v k : ℕ) → v % 2 ^ suc k ≡ v / 2 % 2 ^ k * 2 + v % 2
mod-pow-suc v k = omega (
  arith,
  div-add-mod v (2 ^ suc k),
  div-add-mod (v / 2) (2 ^ k),
  ap (λ (t : ℕ). 2 ^ suc k * t) (div-pow-suc v k),
  ap (λ (t : ℕ). t * (v / 2 / 2 ^ k)) (pow-suc 2 k),
)

-- `|` of a shifted field and of what stands below it is their sum.
pub or_high : (k y x : ℕ) → x < 2 ^ k → bit_or (y * 2 ^ k) x ≡ y * 2 ^ k + x
or_high zero y x h = ground (arith, or-zero y)
or_high (suc k) y x h = ground (
  arith,
  mul-pow-suc y k,
  pow-suc 2 k,
  or_step (y * 2 ^ suc k) x,
  or_high k y (x / 2) (omega (arith, pow-suc 2 k)),
)

pub or_low : (k x y : ℕ) → x < 2 ^ k → bit_or x (y * 2 ^ k) ≡ x + y * 2 ^ k
or_low zero x y h = ground (arith, zero-or y)
or_low (suc k) x y h = ground (
  arith,
  mul-pow-suc y k,
  pow-suc 2 k,
  or_step x (y * 2 ^ suc k),
  or_low k (x / 2) y (omega (arith, pow-suc 2 k)),
)

-- `&` with a shifted mask looks at the shifted word.
pub and_shifted : (k v m : ℕ) → bit_and v (m * 2 ^ k) ≡ bit_and (v / 2 ^ k) m * 2 ^ k
and_shifted zero v m = ground (arith)
and_shifted (suc k) v m = ground (
  arith,
  mul-pow-suc m k,
  mul-pow-suc (bit_and (v / 2 ^ suc k) m) k,
  and_step v (m * 2 ^ suc k),
  and_shifted k (v / 2) m,
  div-pow-suc v k,
)

-- `&` with `k` ones is the remainder by `2 ^ k`.
pub and_low : (k v : ℕ) → bit_and v (2 ^ k - 1) ≡ v % 2 ^ k
and_low zero v = rw (and-zero v) (omega arith)
and_low (suc k) v = ground (
  arith,
  pow-suc 2 k,
  one-le-pow k 2,
  and_step v (2 ^ suc k - 1),
  and_low k (v / 2),
  mod-pow-suc v k,
)

pub and_div : (k a b : ℕ) → bit_and a b / 2 ^ k ≡ bit_and (a / 2 ^ k) (b / 2 ^ k)
and_div zero a b = ground arith
and_div (suc k) a b = ground (
  arith,
  and_step a b,
  and_div k (a / 2) (b / 2),
  div-pow-suc a k,
  div-pow-suc b k,
  div-pow-suc (bit_and a b) k,
)

-- One byte of a word: `(v & (0xff << k)) >> k`.
pub and_byte : (k v : ℕ) → bit_and v (255 * 2 ^ k) / 2 ^ k ≡ v / 2 ^ k % 256
and_byte k v =
    rw (and_shifted k v 255, mul-div_left _ (one-le-pow k 2 (omega arith))) (and_low 8 (v / 2 ^ k))

-- A single bit of a word.
pub and_bit : (k v : ℕ) → bit_and v (2 ^ k) ≡ v / 2 ^ k % 2 * 2 ^ k
and_bit k v =
    ap (bit_and v) (sym (one-mul (2 ^ k)))
    ∙ and_shifted k v 1
    ∙ ap (λ (t : ℕ). t * 2 ^ k) (and_low 1 (v / 2 ^ k))

pub or_div : (k a b : ℕ) → bit_or a b / 2 ^ k ≡ bit_or (a / 2 ^ k) (b / 2 ^ k)
or_div zero a b = ground arith
or_div (suc k) a b = ground (
  arith,
  or_step a b,
  or_div k (a / 2) (b / 2),
  div-pow-suc a k,
  div-pow-suc b k,
  div-pow-suc (bit_or a b) k,
)

pub mod-or : (a b : ℕ) → bit_or a b % 2 ≡ max (a % 2) (b % 2)
mod-or a b = omega (arith, or_step a b)

-- A mask of a low field and a high one
pub and_fields :
    (k x lo hi : ℕ)
    → lo < 2 ^ k
    → bit_and x (lo + hi * 2 ^ k) ≡ bit_and x lo + bit_and (x / 2 ^ k) hi * 2 ^ k
and_fields zero x lo hi h = ground (arith, and-zero x)
and_fields (suc k) x lo hi h = ground (
  arith,
  and_step x (lo + hi * 2 ^ suc k),
  and_step x lo,
  mul-pow-suc hi k,
  mul-pow-suc (bit_and (x / 2 / 2 ^ k) hi) k,
  ap (λ (t : ℕ). bit_and t hi) (div-pow-suc x k),
  pow-suc 2 k,
  and_fields k (x / 2) (lo / 2) hi (omega (arith, pow-suc 2 k)),
)
