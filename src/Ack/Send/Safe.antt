-- ===== src/Ack/Send/Safe.antt =====
-- The loop of `ack_recv_ack_response` inside the memory of the queue
use zeq_server_trilogy.Common.{
  ℕ, zero, suc, ◌≡◌, ◌≤◌, refl, ap, ◌∙◌, inl, inr, false, Option, none, some, List, [], ◌∷◌, length,
  ltb, ◌==◌, if◌then◌else◌, Bool, arith, Bool-cases,
}
use zeq_server_trilogy.Packet.{TlgPacket}
use zeq_server_trilogy.Ack.{cmp, to_host_uint16}
use zeq_server_trilogy.Ack.Send.{
  AckMgr, Wrapper, acked, is_future, last_ack_request, one_more, remembered, drop_acked, respond,
  recv_ack_response,
}

acked-some : (ack n : ℕ) (q : List Wrapper) → n ≤ length q → (i : ℕ) × (acked ack n q ≡ some i)
unfolding acked
acked-some ack zero q h = (0, refl)
acked-some ack (suc n) [] h = absurd (omega arith)
acked-some ack (suc n) (w ∷ q) h = elim (Bool-cases (is_future (cmp (last_ack_request w) ack))) [
  | inl later ↦ (0, rw (acked, later))
  | inr done ↦
      let (i, run) = acked-some ack n q (omega arith) in
      (suc i, rw (acked, done) (ap (λ (o : Option ℕ). one_more o) run))
]

if_false :
    {A : Type 0} (x : A) (b : Bool) → b ≡ false → (r : A) × ((if b then none else some x) ≡ some r)
if_false x b e = (x, rw (e))

drop_acked-some :
    (i : ℕ) (mgr : AckMgr)
    → mgr.to_client.count ≤ length mgr.to_client.queue
    → (r : AckMgr × List TlgPacket) × (drop_acked i mgr ≡ some r)
unfolding drop_acked
drop_acked-some i mgr h =
    let e : (ltb (length mgr.to_client.queue) mgr.to_client.count) ≡ false = ground arith in
    if_false _ _ e

respond-some :
    (ack i : ℕ) (mgr : AckMgr)
    → mgr.to_client.count ≤ length mgr.to_client.queue
    → (r : AckMgr × List TlgPacket) × (respond ack mgr (some i) ≡ some r)
unfolding respond
respond-some ack i mgr h = elim (Bool-cases (i == 0)) [
  | inl kept ↦ ((remembered ack mgr, []), rw (respond, kept))
  | inr some_acked ↦
      let (r, run) = drop_acked-some i (remembered ack mgr) h in (r, rw (respond, some_acked, run))
]

-- An acknowledgement is handled inside the memory of a queue that holds the packets it counts.
pub recv_ack_response-some :
    (ack : ℕ) (mgr : AckMgr)
    → mgr.to_client.count ≤ length mgr.to_client.queue
    → (r : AckMgr × List TlgPacket) × (recv_ack_response ack mgr ≡ some r)
unfolding recv_ack_response
recv_ack_response-some ack mgr h =
    let (i, run) = acked-some (to_host_uint16 ack) mgr.to_client.count mgr.to_client.queue h in
    let (r, done) = respond-some (to_host_uint16 ack) i mgr h in
    (r, ap (respond (to_host_uint16 ack) mgr) run ∙ done)
