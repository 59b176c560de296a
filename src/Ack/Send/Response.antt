-- ===== src/Ack/Send/Response.antt =====
-- What an acknowledgement from the client takes out of the queue.
use zeq_server_trilogy.Common.{
  some, ℕ, zero, suc, ◌+◌, ◌-◌, ◌^◌, ◌≤◌, ◌<◌, ◌≡◌, refl, ap, true, false, List, [], ◌∷◌, ◌++◌,
  length, arith, take,
}
use zeq_server_trilogy.Ack.{cmp}
use zeq_server_trilogy.Ack.Send.{Wrapper, one_more, acked, last_ack_request, is_future}
use zeq_server_trilogy.Ack.Send.Schedule.{Numbered}

pub acked-take : (ack n : ℕ) (q : List Wrapper) → acked ack n q ≡ acked ack n (take n q)
unfolding acked
acked-take ack zero q = refl
acked-take ack (suc n) [] = refl
acked-take ack (suc n) (w ∷ q) = rw (← acked-take ack n q)

-- Numbers do not go down.
Numbered-le : (a b : ℕ) (ws : List Wrapper) → Numbered a ws b → a ≤ b
Numbered-le a b [] n = omega arith
Numbered-le a b (w ∷ ws) (e, f, n) = omega (arith, Numbered-le (a + w.frag_count) b ws n)

acked_one :
    (ack n : ℕ) (w : Wrapper) (q : List Wrapper)
    → is_future (cmp (last_ack_request w) ack) ≡ false
    → (i : ℕ) → acked ack n q ≡ some i
    → acked ack (suc n) (w ∷ q) ≡ some (suc i)
unfolding acked
acked_one ack n w q h i r = rw (acked, h) (ap one_more r)

acked_none :
    (ack n : ℕ) (w : Wrapper) (q : List Wrapper)
    → is_future (cmp (last_ack_request w) ack) ≡ true
    → acked ack (suc n) (w ∷ q) ≡ some 0
unfolding acked
acked_none ack n w q h = rw (h)

acked_zero : (ack : ℕ) (q : List Wrapper) → acked ack 0 q ≡ some 0
unfolding acked
acked_zero ack q = refl

-- Where a packet of the run stands between the first number and the last
pub Numbered-member :
    (a b : ℕ) (xs : List Wrapper) (w : Wrapper) (ys : List Wrapper)
    → Numbered a (xs ++ w ∷ ys) b
    → (a ≤ w.ack_request) × (w.ack_request + w.frag_count ≤ b) × (1 ≤ w.frag_count)
Numbered-member a b [] w ys (e, f, num) =
    (omega arith, omega (arith, Numbered-le (a + w.frag_count) b ys num), f)
Numbered-member a b (x ∷ xs) w ys (e, f, num) =
    let (lo, hi, one) = Numbered-member (a + x.frag_count) b xs w ys num in (omega arith, hi, one)

is_future-behind : (got ack : ℕ) → got ≤ ack → ack ≤ got + 1024 → is_future (cmp got ack) ≡ false
unfolding is_future cmp
is_future-behind got ack h h' = ground arith

is_future-ahead : (got ack : ℕ) → ack < got → got < ack + 1024 → is_future (cmp got ack) ≡ true
unfolding is_future cmp
is_future-ahead got ack h h' = ground arith

last_ack_request_lem :
    (w : Wrapper)
    → 1 ≤ w.frag_count
    → w.ack_request + w.frag_count < 2 ^ 16
    → last_ack_request w ≡ w.ack_request + w.frag_count - 1
unfolding last_ack_request
last_ack_request_lem w h h' = omega arith

-- Behind the acknowledged packet nothing is dropped.
acked_rest :
    (a b n : ℕ) (ys : List Wrapper)
    → 1 ≤ a
    → Numbered a ys b
    → b < 2 ^ 16
    → b ≤ a + 1023
    → n ≤ length ys
    → acked (a - 1) n ys ≡ some 0
acked_rest a b zero ys pos num hb hw inside = acked_zero (a - 1) ys
acked_rest a b (suc n) [] pos num hb hw inside = absurd (omega arith)
acked_rest a b (suc n) (w ∷ ys) pos (e, f, num) hb hw inside =
    let le = Numbered-le (a + w.frag_count) b ys num in
    let last = last_ack_request_lem w f (omega arith) in
    acked_none (a - 1) n w ys
      (is_future-ahead (last_ack_request w) (a - 1) (omega arith) (omega arith))

pub acked_up_to :
    (a b n : ℕ) (xs : List Wrapper) (w : Wrapper) (ys : List Wrapper)
    → Numbered a (xs ++ w ∷ ys) b
    → b < 2 ^ 16
    → b ≤ a + 1024
    → length xs < n
    → n ≤ length (xs ++ w ∷ ys)
    → acked (w.ack_request + w.frag_count - 1) n (xs ++ w ∷ ys) ≡ some (suc (length xs))
acked_up_to a b zero xs w ys num hb hw hn inside = absurd (omega arith)
acked_up_to a b (suc n) [] w ys (e, f, num) hb hw hn inside =
    let le = Numbered-le (a + w.frag_count) b ys num in
    let last = last_ack_request_lem w f (omega arith) in
    let ack = w.ack_request + w.frag_count - 1 in
    let same : a + w.frag_count - 1 ≡ ack = omega arith in
    acked_one ack n w ys (is_future-behind (last_ack_request w) ack (omega arith) (omega arith)) 0 (
      rw (← same)
        (acked_rest (a + w.frag_count) b n ys (omega arith) num hb (omega arith) (omega arith)))
acked_up_to a b (suc n) (x ∷ xs) w ys (e, f, num) hb hw hn inside =
    let ack = w.ack_request + w.frag_count - 1 in
    let above = Numbered-member (a + x.frag_count) b xs w ys num in
    let last = last_ack_request_lem x f (omega (arith, above.0, above.1)) in
    acked_one ack n x (xs ++ w ∷ ys)
      (is_future-behind (last_ack_request x) ack (omega (arith, above.0, above.1))
        (omega (arith, above.0, above.1)))
      (suc (length xs))
      (acked_up_to (a + x.frag_count) b n xs w ys num hb (omega arith) (omega arith) (omega arith))
