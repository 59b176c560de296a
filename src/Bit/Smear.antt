-- ===== src/Bit/Smear.antt =====
-- The rounds of `n |= n >> s` fill every bit below the highest one.
use native.Mathlib.Nat.{div-div-eq-div-mul, mul_comm, pow-suc}
use zeq_server_trilogy.Common.{
  ℕ, zero, suc, ◌+◌, ◌*◌, ◌/◌, ◌%◌, ◌^◌, ◌≤◌, ◌<◌, ◌≡◌, ◌≢◌, refl, ap, ap₂, ◌∙◌, sym, bit_or, arith,
  dec_lt,
}
use zeq_server_trilogy.Common.Bits.{or_div, mod-or}
use zeq_server_trilogy.Bit.{smear1, smear2, smear4, smear8, smear16}

-- One round commutes with a shift to the right, and so do all.
div_swap : (x a b : ℕ) → x / a / b ≡ x / b / a
div_swap x a b =
    div-div-eq-div-mul x a b ∙ ap (λ (t : ℕ). x / t) (mul_comm a b) ∙ sym (div-div-eq-div-mul x b a)

round-div :
    (f : ℕ → ℕ) (s k x : ℕ)
    → f x / 2 ^ k ≡ f (x / 2 ^ k)
    → bit_or (f x) (f x / 2 ^ s) / 2 ^ k ≡ bit_or (f (x / 2 ^ k)) (f (x / 2 ^ k) / 2 ^ s)
round-div f s k x h =
    or_div k (f x) (f x / 2 ^ s)
    ∙ ap₂ bit_or h (div_swap (f x) (2 ^ s) (2 ^ k) ∙ ap (λ (t : ℕ). t / 2 ^ s) h)

smear1-div : (k x : ℕ) → smear1 x / 2 ^ k ≡ smear1 (x / 2 ^ k)
unfolding smear1
smear1-div k x = round-div (λ y. y) 1 k x refl

smear2-div : (k x : ℕ) → smear2 x / 2 ^ k ≡ smear2 (x / 2 ^ k)
smear2-div k x = unfold smear2 in round-div smear1 2 k x (smear1-div k x)

smear4-div : (k x : ℕ) → smear4 x / 2 ^ k ≡ smear4 (x / 2 ^ k)
smear4-div k x = unfold smear4 in round-div smear2 4 k x (smear2-div k x)

smear8-div : (k x : ℕ) → smear8 x / 2 ^ k ≡ smear8 (x / 2 ^ k)
smear8-div k x = unfold smear8 in round-div smear4 8 k x (smear4-div k x)

pub smear16-div : (k x : ℕ) → smear16 x / 2 ^ k ≡ smear16 (x / 2 ^ k)
smear16-div k x = unfold smear16 in round-div smear8 16 k x (smear8-div k x)

-- If the lowest bit is 0 after a round, the bits that it gathered were all 0.
smear1-even : (x : ℕ) → smear1 x % 2 ≡ 0 → x % 2 ^ 2 ≡ 0
unfolding smear1
smear1-even x h = omega (arith, mod-or x (x / 2))

module _ (f g : ℕ → ℕ) (s : ℕ) where
  -- Two windows of `s` bits, the second `s` bits further up.
  round-even :
      (x : ℕ)
      → g x ≡ bit_or (f x) (f x / 2 ^ s)
      → f x / 2 ^ s ≡ f (x / 2 ^ s)
      → ((y : ℕ) → f y % 2 ≡ 0 → y % 2 ^ s ≡ 0)
      → g x % 2 ≡ 0
      → (x % 2 ^ s ≡ 0) × (x / 2 ^ s % 2 ^ s ≡ 0)
  round-even x e d even h =
      let low = mod-or (f x) (f x / 2 ^ s) in
      (
        even x (omega (arith, ap (λ (t : ℕ). t % 2) e)),
        even (x / 2 ^ s) (omega (arith, ap (λ (t : ℕ). t % 2) e, ap (λ (t : ℕ). t % 2) d)),
      )

smear2-even : (x : ℕ) → smear2 x % 2 ≡ 0 → x % 2 ^ 4 ≡ 0
smear2-even x h =
    omega
      (arith, round-even smear1 smear2 2 x (unfold smear2 in refl) (smear1-div 2 x) smear1-even h)

smear4-even : (x : ℕ) → smear4 x % 2 ≡ 0 → x % 2 ^ 8 ≡ 0
smear4-even x h =
    omega
      (arith, round-even smear2 smear4 4 x (unfold smear4 in refl) (smear2-div 4 x) smear2-even h)

smear8-even : (x : ℕ) → smear8 x % 2 ≡ 0 → x % 2 ^ 16 ≡ 0
smear8-even x h =
    omega
      (arith, round-even smear4 smear8 8 x (unfold smear8 in refl) (smear4-div 8 x) smear4-even h)

smear16-even : (x : ℕ) → smear16 x % 2 ≡ 0 → x % 2 ^ 32 ≡ 0
smear16-even x h =
    omega (
      arith,
      round-even smear8 smear16 16 x (unfold smear16 in refl) (smear8-div 16 x) smear8-even h,
    )

smear16-suc : (x : ℕ) → 0 < x → x < 2 ^ 32 → smear16 x ≡ smear16 (x / 2) * 2 + 1
smear16-suc x p h =
    let odd : smear16 x % 2 ≢ 0 = λ e. omega (arith, smear16-even x e) in
    omega (arith, smear16-div 1 x)

-- The highest bit of a word is `w`, and its smear has every bit up to `w`.
pub record Smeared (x bound : ℕ) : Type 0 where
  pub w : ℕ
  pub below : w < bound
  pub at_least : 2 ^ w ≤ x
  pub less : x < 2 ^ suc w
  pub filled : smear16 x + 1 ≡ 2 ^ suc w

smear16-zero : smear16 0 ≡ 0
unfolding smear16
smear16-zero = refl

pub smear16-Smeared :
    (bound x : ℕ) → bound ≤ 32 → 0 < x → x < 2 ^ bound → x < 2 ^ 32 → Smeared x bound
smear16-Smeared zero x b p h t = absurd (omega arith)
smear16-Smeared (suc bound) x b p h t = elim (dec_lt x 2) [
  | yes one ↦
      let e : x ≡ 1 = omega arith in
      record {
        w = 0;
        below = omega arith;
        at_least = omega arith;
        less = omega arith;
        filled =
            omega (
              arith,
              smear16-suc x p t,
              ap smear16 {x = x / 2} {y = 0} (omega arith),
              smear16-zero,
            );
      }
  | no more ↦
      let r =
        smear16-Smeared bound (x / 2) (omega arith) (omega arith) (omega (arith, pow-suc 2 bound))
          (omega arith) in
      record {
        w = suc r.w;
        below = omega (arith, r.below);
        at_least = omega (arith, r.at_least, pow-suc 2 r.w);
        less = omega (arith, r.less, pow-suc 2 (suc r.w));
        filled = omega (arith, smear16-suc x p t, r.filled, pow-suc 2 (suc r.w));
      }
]
