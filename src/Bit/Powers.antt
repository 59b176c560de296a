-- ===== src/Bit/Powers.antt =====
-- What the two searches for a power of two return, on every word.
use native.Mathlib.Nat.{pow-suc, one-le-pow, div-eq_of_lt-le, mod_self, zero-div}
use zeq_server_trilogy.Common.{
  ℕ, suc, ◌+◌, ◌-◌, ◌*◌, ◌/◌, ◌^◌, ◌≤◌, ◌<◌, ◌≡◌, ◌≢◌, ◌↔◌, refl, ap, ap₂, ◌∙◌, sym, true, false,
  bit_and, arith, ℕ_discrete, Bool-cases, inl, inr, u32,
}
use zeq_server_trilogy.Common.Bits.{and_low, and_div}
use zeq_server_trilogy.Bit.{
  is_pow2, next_pow2_u32, pow2_greater_than_u32, pow2_greater_or_equal_u32,
}
use zeq_server_trilogy.Bit.Smear.{smear16-Smeared}

pow_pos : (a : ℕ) → 0 < 2 ^ a
pow_pos a = one-le-pow a 2 (omega arith)

-- `n` is a power of two.
abbrev pub IsPow2 : ℕ → Type 0
IsPow2 n = (w : ℕ) × (n ≡ 2 ^ w)

is_pow2_pow : (w : ℕ) → is_pow2 (2 ^ w) ≡ true
unfolding is_pow2
is_pow2_pow w = ground (arith, pow_pos w, and_low w (2 ^ w), mod_self (2 ^ w))

-- Between a power and its double, the quotient by the power is one.
div-pow-eq-one : (n w : ℕ) → 2 ^ w ≤ n → n < 2 ^ suc w → n / 2 ^ w ≡ 1
div-pow-eq-one n w lo hi = div-eq_of_lt-le (2 ^ w) (omega arith) (omega (arith, pow-suc 2 w))

is_pow2-IsPow2 : (n : ℕ) → n < 2 ^ 32 → is_pow2 n ≡ true → IsPow2 n
unfolding is_pow2
is_pow2-IsPow2 n h e =
    let s = smear16-Smeared 32 n (omega arith) (ground arith) h h in
    let clear : bit_and n (n - 1) ≡ 0 = ground arith in
    elim (ℕ_discrete n (2 ^ s.w)) [
      | yes p ↦ (s.w, p)
      | no ne ↦
          let top = div-pow-eq-one n s.w s.at_least s.less in
          let top' =
            div-pow-eq-one (n - 1) s.w (omega (arith, s.at_least)) (omega (arith, s.less)) in
          let both : 0 / 2 ^ s.w ≡ bit_and 1 1 =
            ap (λ (t : ℕ). t / 2 ^ s.w) (sym clear)
            ∙ and_div s.w n (n - 1)
            ∙ ap₂ bit_and top top' in
          absurd (omega (arith, both, zero-div (2 ^ s.w)))
    ]

-- The macro `bit_is_pow2` tells the powers of two among the 32-bit words.
pub is_pow2_iff : (n : ℕ) → n < 2 ^ 32 → (is_pow2 n ≡ true) ↔ IsPow2 n
is_pow2_iff n h = (is_pow2-IsPow2 n h, λ p. rw p.1 (is_pow2_pow p.0))

next_pow2_lem :
    (n : ℕ)
    → 1 < n
    → n < 2 ^ 32
    → (w : ℕ) × (n ≤ 2 ^ suc w) × (2 ^ suc w < n + n) × (next_pow2_u32 n ≡ u32 (2 ^ suc w))
unfolding next_pow2_u32
next_pow2_lem n p h =
    let s = smear16-Smeared 32 (n - 1) (omega arith) (omega arith) (omega arith) (omega arith) in
    let e : u32 (n + 2 ^ 32 - 1) ≡ n - 1 = omega arith in
    (s.w, omega (arith, s.less), omega (arith, s.at_least, pow-suc 2 s.w), rw e (ap u32 s.filled))

-- A number that the macro refuses is no power of two.
not-IsPow2 : (n w : ℕ) → is_pow2 n ≡ false → n ≢ 2 ^ w
not-IsPow2 n w f e = cc (is_pow2_pow w, ap is_pow2 e)

-- For 0 < n ≤ 2 ^ 31 the result is the least power of two that is not below n.
pub pow2_greater_or_equal_lem :
    (n : ℕ)
    → 0 < n
    → n ≤ 2 ^ 31
    → IsPow2 (pow2_greater_or_equal_u32 n)
      × (n ≤ pow2_greater_or_equal_u32 n)
      × (pow2_greater_or_equal_u32 n < n + n)
unfolding pow2_greater_or_equal_u32
pow2_greater_or_equal_lem n p h = elim (Bool-cases (is_pow2 n)) [
  | inl yes_pow ↦ rw yes_pow (is_pow2-IsPow2 n (omega arith) yes_pow, omega arith, omega arith)
  | inr no_pow ↦
      let (w, lo, hi, e) = next_pow2_lem n (omega (arith, not-IsPow2 n 0 no_pow)) (omega arith) in
      let r : next_pow2_u32 n ≡ 2 ^ suc w = omega arith in rw (no_pow, r) ((suc w, refl), lo, hi)
]

-- For 0 < n < 2 ^ 31 the result is the least power of two above n.
pub pow2_greater_than_lem :
    (n : ℕ)
    → 0 < n
    → n < 2 ^ 31
    → IsPow2 (pow2_greater_than_u32 n)
      × (n < pow2_greater_than_u32 n)
      × (pow2_greater_than_u32 n ≤ n + n)
unfolding pow2_greater_than_u32
pow2_greater_than_lem n p h = elim (Bool-cases (is_pow2 n)) [
  | inl yes_pow ↦
      let (w, e) = is_pow2-IsPow2 n (omega arith) yes_pow in
      let r : u32 (n * 2) ≡ n * 2 = omega arith in
      rw (yes_pow, r) ((suc w, omega (arith, pow-suc 2 w)), omega arith, omega arith)
  | inr no_pow ↦
      let (w, lo, hi, e) = next_pow2_lem n (omega (arith, not-IsPow2 n 0 no_pow)) (omega arith) in
      let r : next_pow2_u32 n ≡ 2 ^ suc w = omega arith in
      rw (no_pow, r) ((suc w, refl), omega (arith, not-IsPow2 n (suc w) no_pow), omega arith)
]
