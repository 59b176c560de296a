-- ===== src/Growth.antt =====
-- The growing arrays of the server: `if (bit_is_pow2_or_zero(n))` before the element `n` is added,
-- memory for the next power of two is asked for. So do src/ack_mgr.c and src/inventory.c.
use native.Mathlib.Nat.{pow-suc}
use zeq_server_trilogy.Common.{
  ℕ, suc, ◌+◌, ◌*◌, ◌^◌, ◌≤◌, ◌<◌, ◌≡◌, ◌≢◌, ◌⊎◌, inl, inr, refl, ◌∙◌, Bool, true, false, Option,
  none, some, List, [], ◌∷◌, ◌++◌, length, take, set, resize, arith, ltb, lt→ltb, ◌==◌, ◌&&◌, not,
  Bool-cases, if◌then◌else◌, u32, length-set, length-resize, take-set, take-resize, ℕ_discrete,
}
use zeq_server_trilogy.Bit.{is_pow2, is_pow2_or_zero}
use zeq_server_trilogy.Bit.Powers.{is_pow2_iff, IsPow2}

module _ {A : Type 0} where
  -- The result `none` is a write outside the memory; `some none` says that there was no memory.
  unfoldable pub push : A → Bool → ℕ → List A → A → Option (Option (List A))
  push junk found n q v =
      let room = if n == 0 then 1 else u32 (n * 2) in
      let q' = if is_pow2_or_zero n then resize junk room q else q in
      if is_pow2_or_zero n && not found
      then some none
      else if ltb n (length q')
      then some (some (set q' n v))
      else none

  -- The memory has the size of a power of two that is not below `n`.
  abbrev pub HasPower : ℕ → List A → Type 0
  HasPower n q = (w : ℕ) × (n ≤ 2 ^ w) × (2 ^ w ≤ length q)

  abbrev pub IsSized : ℕ → List A → Type 0
  IsSized n q = (n ≡ 0) ⊎ HasPower n q

  abbrev Pushed : A → ℕ → List A → A → Type 0
  Pushed junk n q v =
      (q' : List A) × (push junk true n q v ≡ some (some q'))
      × HasPower (n + 1) q'
      × (take (n + 1) q' ≡ take n q ++ v ∷ [])

  pushed :
      (junk : A) (n : ℕ) (q q' : List A) (v : A)
      → push junk true n q v ≡ (if ltb n (length q') then some (some (set q' n v)) else none)
      → n < length q'
      → take n q' ≡ take n q
      → HasPower (n + 1) q'
      → Pushed junk n q v
  pushed junk n q q' v run lt same (k, lo, hi) =
      let next : n + 1 ≡ suc n = omega arith in
      (
        set q' n v,
        run ∙ rw (lt→ltb n (length q') lt),
        (k, lo, omega (arith, length-set q' n v)),
        rw (next) (take-set n v q' lt ∙ rw (same)),
      )

  grown :
      (junk : A) (n j : ℕ) (q : List A) (v : A)
      → is_pow2_or_zero n ≡ true
      → (if n == 0 then 1 else u32 (n * 2)) ≡ 2 ^ j
      → n < 2 ^ j
      → n ≤ length q
      → Pushed junk n q v
  unfolding push
  grown junk n j q v p room lt le =
      let size = length-resize junk (2 ^ j) q in
      pushed junk n q (resize junk (2 ^ j) q) v (rw (p, room)) (omega arith)
        (take-resize junk n (2 ^ j) q (omega arith) le) (j, omega arith, omega arith)

  fits :
      (junk : A) (n k : ℕ) (q : List A) (v : A)
      → is_pow2_or_zero n ≡ false
      → n < 2 ^ k
      → 2 ^ k ≤ length q
      → Pushed junk n q v
  unfolding push
  fits junk n k q v p lt hi = pushed junk n q q v (rw (p)) (omega arith) refl (k, omega arith, hi)

power_of : (n : ℕ) → n ≢ 0 → n < 2 ^ 31 → is_pow2_or_zero n ≡ true → IsPow2 n
unfolding is_pow2_or_zero is_pow2
power_of n ne small p = (is_pow2_iff n (omega arith)).0 (ground arith)

not_power : (n k : ℕ) → n < 2 ^ 31 → is_pow2_or_zero n ≡ false → n ≢ 2 ^ k
unfolding is_pow2_or_zero is_pow2
not_power n k small p e = let yes_pow = (is_pow2_iff n (omega arith)).1 (k, e) in ground arith

pow2_or_zero-zero : (n : ℕ) → n ≡ 0 → is_pow2_or_zero n ≡ true
unfolding is_pow2_or_zero
pow2_or_zero-zero n e = ground arith

module _ {A : Type 0} where
  -- While memory is found and there are less than 2 ^ 31 elements: the new one goes to the end, no
  -- write leaves the memory, and the memory stays well-sized, also after a shrinking `realloc`.
  pub push-live :
      (junk : A) (n : ℕ) (q : List A) (v : A)
      → n < 2 ^ 31
      → IsSized n q
      → (q' : List A) × (push junk true n q v ≡ some (some q'))
        × HasPower (n + 1) q'
        × (take (n + 1) q' ≡ take n q ++ v ∷ [])
  push-live junk n q v small (inl empty) =
      grown junk n 0 q v (pow2_or_zero-zero n empty) (ground arith) (omega arith) (omega arith)
  push-live junk n q v small (inr (k, lo, hi)) = elim (ℕ_discrete n 0) [
    | yes empty ↦
        grown junk n 0 q v (pow2_or_zero-zero n empty) (ground arith) (omega arith) (omega arith)
    | no ne ↦ elim (Bool-cases (is_pow2_or_zero n)) [
      | inl p ↦
          let (j, e) = power_of n ne small p in
          let double = pow-suc 2 j in
          grown junk n (suc j) q v p (ground arith) (omega arith) (omega arith)
      | inr p ↦ fits junk n k q v p (omega (arith, not_power n k small p)) hi
    ]
  ]
