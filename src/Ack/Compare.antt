-- ===== src/Ack/Compare.antt =====
-- What the comparison of sequence numbers says on every pair of numbers.
use zeq_server_trilogy.Common.{ℕ, ◌+◌, ◌≤◌, ◌<◌, ◌≡◌, ◌↔◌, ◌-◌, ◌^◌, u16, arith}
use zeq_server_trilogy.Ack.{past, present, future, cmp}

pub cmp_self : (e : ℕ) → cmp e e ≡ present
unfolding cmp
cmp_self e = ground arith

pub cmp_ahead :
    (got expected : ℕ) → expected < got → got < expected + 1024 → cmp got expected ≡ future
unfolding cmp
cmp_ahead got expected lo hi = ground arith

pub cmp_behind :
    (got expected : ℕ) → got < expected → expected ≤ got + 1024 → cmp got expected ≡ past
unfolding cmp
cmp_behind got expected lo hi = ground arith

-- For two numbers of 16 bits: with their difference modulo 2^16, the comparison says present exactly
-- when it is 0, future when the first is fewer than 1024 numbers ahead of the second, and past when
-- it is at most 1024 numbers behind, across the wrap-around as well.
pub cmp_window :
    (got expected : ℕ)
    → got < 2 ^ 16
    → expected < 2 ^ 16
    → let d = u16 (got + 2 ^ 16 - expected) in
      ((d ≡ 0) ↔ (cmp got expected ≡ present))
      × (0 < d → d < 1024 → cmp got expected ≡ future)
      × (2 ^ 16 ≤ d + 1024 → cmp got expected ≡ past)
unfolding cmp
cmp_window got expected h h' = ground arith
