-- ===== src/RingBuf/Spsc/Position.antt =====
-- The index of the `k`-th message in a ring of `n` blocks.
use zeq_server_trilogy.Common.{
  ℕ, zero, suc, ◌+◌, ◌-◌, ◌<◌, ◌≡◌, ◌≢◌, ltb, ◌==◌, if◌then◌else◌, arith, ap,
}

unfoldable pub next : ℕ → ℕ → ℕ
next n i = if i + 1 == n then 0 else i + 1

unfoldable pub position : ℕ → ℕ → ℕ
position n zero = 0
position n (suc k) = next n (position n k)

pub position-lt : (n k : ℕ) → 0 < n → position n k < n
unfolding position next
position-lt n zero h = h
position-lt n (suc k) h = ground (arith, position-lt n k h)

pub position-suc : (n k : ℕ) → position n (k + 1) ≡ next n (position n k)
unfolding position
position-suc n k = let e : k + 1 ≡ suc k = omega arith in rw e

position-add :
    (n k d : ℕ)
    → d < n
    → position n (k + d)
      ≡ (if ltb (position n k + d) n then position n k + d else position n k + d - n)
unfolding next
position-add n k zero h = let e : k + 0 ≡ k = omega arith in rw e (ground (arith, position-lt n k))
position-add n k (suc d) h =
    let e : k + suc d ≡ k + d + 1 = omega arith in
    rw (e, position-suc n (k + d)) (ground (arith, position-add n k d, position-lt n k))

-- A round leads to the same index.
pub position-round : (n k : ℕ) → 0 < n → position n (k + n) ≡ position n k
unfolding next
position-round n k h =
    let e : k + n ≡ k + (n - 1) + 1 = omega arith in
    rw (e, position-suc n (k + (n - 1))) (ground (arith, position-add n k (n - 1), position-lt n k))

-- Messages less than a round apart are at different indexes.
pub position-ne : (n j k : ℕ) → j < k → k < j + n → position n j ≢ position n k
position-ne n j k h h' e =
    let d : k ≡ j + (k - j) = omega arith in
    let place = position-add n j (k - j) (omega arith) in
    let same : position n k ≡ position n (j + (k - j)) = ap (position n) d in
    ground (arith, place, same, position-lt n j)
