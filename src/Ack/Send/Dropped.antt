-- ===== src/Ack/Send/Dropped.antt =====
-- What an acknowledgement from the client leaves in the queue.
use zeq_server_trilogy.Common.{
  take-take, ℕ, zero, suc, ◌+◌, ◌-◌, ◌^◌, ◌≤◌, ◌<◌, ◌≡◌, refl, ap, ◌∙◌, sym, false, List, [], ◌∷◌,
  ◌++◌, some, ltb, length, arith, ◌==◌, take, drop, length-append, length-take, length-drop,
}
use zeq_server_trilogy.Ack.{to_host_uint16}
use zeq_server_trilogy.Ack.Send.{
  Wrapper, AckMgr, acked, remembered, drop_acked, respond, clear, packets, recv_ack_response,
}
use zeq_server_trilogy.Ack.Send.Queue.{live}
use zeq_server_trilogy.Ack.Send.Schedule.{Numbered}
use zeq_server_trilogy.Ack.Send.Response.{acked-take, acked_up_to, Numbered-member}

take-suc-append :
    (xs : List Wrapper) (w : Wrapper) (ys : List Wrapper)
    → take (suc (length xs)) (xs ++ w ∷ ys) ≡ xs ++ w ∷ []
take-suc-append [] w ys = refl
take-suc-append (x ∷ xs) w ys = ap (λ (l : List Wrapper). x ∷ l) (take-suc-append xs w ys)

drop-suc-append :
    (xs : List Wrapper) (w : Wrapper) (ys : List Wrapper)
    → drop (suc (length xs)) (xs ++ w ∷ ys) ≡ ys
drop-suc-append [] w ys = refl
drop-suc-append (x ∷ xs) w ys = drop-suc-append xs w ys

take-nil : (n : ℕ) → take {A = Wrapper} n [] ≡ []
take-nil zero = refl
take-nil (suc n) = refl

take-shorter : (i n : ℕ) (q : List Wrapper) → i ≤ n → take i (take n q) ≡ take i q
take-shorter zero n q h = refl
take-shorter (suc i) zero q h = absurd (omega arith)
take-shorter (suc i) (suc n) [] h = refl
take-shorter (suc i) (suc n) (w ∷ q) h =
    ap (λ (l : List Wrapper). w ∷ l) (take-shorter i n q (omega arith))

take-drop : (i n m : ℕ) (q : List Wrapper) → i + n ≡ m → take n (drop i q) ≡ drop i (take m q)
take-drop zero n m q e = ap (λ (k : ℕ). take k q) (omega arith)
take-drop (suc i) n zero q e = absurd (omega arith)
take-drop (suc i) n (suc m) [] e = take-nil n
take-drop (suc i) n (suc m) (w ∷ q) e = take-drop i n m q (omega arith)

drop-clear : (i : ℕ) (q : List Wrapper) → drop i (clear (take i q) ++ drop i q) ≡ drop i q
unfolding clear
drop-clear zero q = refl
drop-clear (suc i) [] = refl
drop-clear (suc i) (w ∷ q) = drop-clear i q

-- The state when `i` packets are dropped
abbrev after : ℕ → ℕ → AckMgr → AckMgr
after ack i mgr =
    let t = mgr.to_client in
    let n = t.count - i in
    let q = clear (take i t.queue) ++ drop i t.queue in
    record mgr {
      to_server = record (mgr.to_server) { last_ack_received = ack };
      to_client = record t {
        count = n;
        send_from_index = 0;
        queue = take n (drop i q) ++ drop n q;
      };
    }

drop_acked-after :
    (mgr : AckMgr) (ack i : ℕ)
    → mgr.to_client.count ≤ length mgr.to_client.queue
    → drop_acked i (remembered ack mgr)
      ≡ some (after ack i mgr, packets (take i mgr.to_client.queue))
unfolding drop_acked
drop_acked-after mgr ack i fits =
    let held : ltb (length mgr.to_client.queue) mgr.to_client.count ≡ false = ground arith in
    rw (held)

recv_ack_response-drop_acked :
    (mgr : AckMgr) (network i : ℕ)
    → acked (to_host_uint16 network) mgr.to_client.count mgr.to_client.queue ≡ some (suc i)
    → recv_ack_response network mgr ≡ drop_acked (suc i) (remembered (to_host_uint16 network) mgr)
unfolding recv_ack_response respond
recv_ack_response-drop_acked mgr network i e =
    let some_dropped : (suc i == 0) ≡ false = ground arith in
    ap (respond (to_host_uint16 network) mgr) e ∙ rw (some_dropped)

recv_ack_response-after :
    (mgr : AckMgr) (ack i : ℕ)
    → ack < 2 ^ 16
    → mgr.to_client.count ≤ length mgr.to_client.queue
    → acked ack mgr.to_client.count mgr.to_client.queue ≡ some (suc i)
    → recv_ack_response (to_host_uint16 ack) mgr
      ≡ some (after ack (suc i) mgr, packets (take (suc i) mgr.to_client.queue))
recv_ack_response-after mgr ack i h fits e =
    let swap : to_host_uint16 (to_host_uint16 ack) ≡ ack = omega arith in
    let t = mgr.to_client in
    recv_ack_response-drop_acked mgr (to_host_uint16 ack) i
      (ap (λ (k : ℕ). acked k t.count t.queue) swap ∙ e)
    ∙ ap (λ (k : ℕ). drop_acked (suc i) (remembered k mgr)) swap
    ∙ drop_acked-after mgr ack (suc i) fits

live-after :
    (mgr : AckMgr) (ack i : ℕ)
    → i ≤ mgr.to_client.count
    → mgr.to_client.count ≤ length mgr.to_client.queue
    → live (after ack i mgr).to_client ≡ drop i (live mgr.to_client)
live-after mgr ack i hi hl =
    let t = mgr.to_client in
    let n = t.count - i in
    let q = clear (take i t.queue) ++ drop i t.queue in
    let size : n ≤ length (drop i q) =
      rw (drop-clear i t.queue) (omega (arith, length-drop i t.queue)) in
    take-take n n (drop i q) (drop n q) (omega arith) size
    ∙ ap (take n) (drop-clear i t.queue)
    ∙ take-drop i n t.count t.queue (omega arith)

-- The queue holds a run of packets with numbers that follow each other without a gap, less than
-- 1024 of them and below 2 ^ 16. When the client acknowledges the last number of any packet in it,
-- exactly that packet and those before it are given to `packet_drop`, in order; those behind it
-- stay, in order; sending starts again at the first of them; and the number is remembered.
pub recv_ack_response_lem :
    (mgr : AckMgr) (a b : ℕ) (xs : List Wrapper) (w : Wrapper) (ys : List Wrapper)
    → live mgr.to_client ≡ xs ++ w ∷ ys
    → mgr.to_client.count ≤ length mgr.to_client.queue
    → Numbered a (xs ++ w ∷ ys) b
    → b < 2 ^ 16
    → b ≤ a + 1024
    → let ack = w.ack_request + w.frag_count - 1 in
      (mgr' : AckMgr) × (recv_ack_response (to_host_uint16 ack) mgr
        ≡ some (mgr', packets (xs ++ w ∷ [])))
      × (live mgr'.to_client ≡ ys)
      × (mgr'.to_client.send_from_index ≡ 0)
      × (mgr'.to_server.last_ack_received ≡ ack)
recv_ack_response_lem mgr a b xs w ys here fits num hb hw =
    let t = mgr.to_client in
    let ack = w.ack_request + w.frag_count - 1 in
    let (lo, hi, one) = Numbered-member a b xs w ys num in
    let i = length xs in
    let size : i < t.count =
      omega (arith, length-take t.count t.queue, ap length here, length-append xs (w ∷ ys)) in
    let dropped : acked ack t.count t.queue ≡ some (suc i) =
      acked-take ack t.count t.queue
      ∙ ap (acked ack t.count) here
      ∙ acked_up_to a b t.count xs w ys num hb hw size
          (omega (arith, length-take t.count t.queue, ap length here)) in
    let out : take (suc i) t.queue ≡ xs ++ w ∷ [] =
      sym (take-shorter (suc i) t.count t.queue (omega arith))
      ∙ ap (take (suc i)) here
      ∙ take-suc-append xs w ys in
    (
      after ack (suc i) mgr,
      recv_ack_response-after mgr ack i (omega arith) fits dropped
          ∙ ap (λ (l : List Wrapper). some (after ack (suc i) mgr, packets l)) out,
      live-after mgr ack (suc i) (omega arith) fits
          ∙ ap (drop (suc i)) here
          ∙ drop-suc-append xs w ys,
      refl,
      refl,
    )
