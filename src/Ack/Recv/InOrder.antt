-- ===== src/Ack/Recv/InOrder.antt =====
-- A stream whose new packets arrive in order, with earlier ones sent again in between.
use zeq_server_trilogy.Common.{
  ℕ, zero, suc, ◌+◌, ◌-◌, ◌^◌, ◌<◌, ◌≤◌, ◌≡◌, ◌≢◌, ◌⊎◌, refl, ap, ◌∙◌, sym, subst, false, Option,
  none, some, List, [], ◌∷◌, ◌++◌, arith, u16, ◌==◌, true, Bool-cases, inl, inr, ==_iff,
}
use zeq_server_trilogy.Ack.{past, cmp, ToServer, Delivery}
use zeq_server_trilogy.Ack.Compare.{cmp_self, cmp_behind}
use zeq_server_trilogy.Ack.Recv.{Env, deliver, recv_packet}

eq_self : (n : ℕ) → (n == n) ≡ true
eq_self n = ground arith

-- Packets without fragments arrive, each with its number; `sent k` is the packet with the number `k`.
pub recv_numbers : Env → ToServer → (ℕ → Delivery) → List ℕ → Option (ToServer × List Delivery)
recv_numbers env s sent [] = some (s, [])
recv_numbers env s sent (k ∷ ks) = elim (recv_packet env s (sent k).opcode k 0 (sent k).payload) [
  | none ↦ none
  | some (s', out) ↦ elim (recv_numbers env s' sent ks) [
    | none ↦ none
    | some (s'', out') ↦ some (s'', out ++ out')
  ]
]

-- Numbers that arrive while `e` is the next: each is the next, or one of the 1024 before it, sent
-- again; at the end `last` is the next.
unfoldable pub Arrivals : ℕ → List ℕ → ℕ → Type 0
Arrivals e [] last = e ≡ last
Arrivals e (k ∷ ks) last =
    (k ≡ e) × Arrivals (e + 1) ks last ⊎ (k < e) × (e ≤ k + 1024) × Arrivals e ks last

-- The `n` packets from number `e` on
pub consecutive : (ℕ → Delivery) → ℕ → ℕ → List Delivery
consecutive sent e zero = []
consecutive sent e (suc n) = sent e ∷ consecutive sent (e + 1) n

Arrivals-le : (e : ℕ) (ks : List ℕ) (last : ℕ) → Arrivals e ks last → e ≤ last
unfolding Arrivals
Arrivals-le e [] last h = omega arith
Arrivals-le e (k ∷ ks) last (inl (same, rest)) =
    let le = Arrivals-le (e + 1) ks last rest in omega arith
Arrivals-le e (k ∷ ks) last (inr (before, near, rest)) = Arrivals-le e ks last rest

pub recv_expected :
    (env : Env) (s : ToServer) (opcode : ℕ) (payload : List ℕ)
    → recv_packet env s opcode s.next_ack_request_expected 0 payload
      ≡ some (
        record s {
          next_ack_request_expected = u16 (s.next_ack_request_expected + 1);
          lowest_ack_in_queue = u16 (s.next_ack_request_expected + 1);
        },
        deliver env opcode payload,
      )
unfolding recv_packet
recv_expected env s opcode payload = rw (eq_self s.next_ack_request_expected)

-- A packet from the past is ignored: the state stays and nothing is delivered.
pub recv_past :
    (env : Env) (s : ToServer) (opcode ack frag : ℕ) (payload : List ℕ)
    → cmp ack s.next_ack_request_expected ≡ past
    → recv_packet env s opcode ack frag payload ≡ some (s, [])
unfolding recv_packet
recv_past env s opcode ack frag payload h = elim (Bool-cases (ack == s.next_ack_request_expected)) [
  | inl e ↦
      let same : ack ≡ s.next_ack_request_expected = (==_iff ack _).0 e in
      cc (
        ap (λ (a : ℕ). cmp a s.next_ack_request_expected) same,
        cmp_self s.next_ack_request_expected,
      )
  | inr ne ↦ rw (ne, h)
]

-- A new packet is delivered.
recv_new :
    (env : Env) (s : ToServer) (d : Delivery) (k : ℕ)
    → env.push_ok ≡ true
    → d.opcode ≢ 0
    → k ≡ s.next_ack_request_expected
    → k + 1 < 2 ^ 16
    → recv_packet env s d.opcode k 0 d.payload
      ≡ some (record s { next_ack_request_expected = k + 1; lowest_ack_in_queue = k + 1 }, d ∷ [])
unfolding deliver recv_packet
recv_new env s d k room named e h =
    let next : u16 (s.next_ack_request_expected + 1) ≡ k + 1 = omega arith in
    let now : (k == s.next_ack_request_expected) ≡ true = ground arith in
    let kept : (d.opcode == 0) ≡ false = ground arith in rw (recv_packet, now, next, kept, room)

recv_numbers-step :
    (env : Env) (s : ToServer) (sent : ℕ → Delivery) (k : ℕ) (ks : List ℕ) (s' s'' : ToServer)
    (out out' : List Delivery)
    → recv_packet env s (sent k).opcode k 0 (sent k).payload ≡ some (s', out)
    → recv_numbers env s' sent ks ≡ some (s'', out')
    → recv_numbers env s sent (k ∷ ks) ≡ some (s'', out ++ out')
unfolding recv_numbers
recv_numbers-step env s sent k ks s' s'' out out' run rest = rw (recv_numbers, run, rest)

consecutive-step :
    (sent : ℕ → Delivery) (e n m : ℕ)
    → n ≡ suc m
    → consecutive sent e n ≡ sent e ∷ consecutive sent (e + 1) m
unfolding consecutive
consecutive-step sent e n m h = ap (consecutive sent e) h

-- Packets without fragments, with opcodes that are not 0, arrive with their numbers while the queue
-- to the server has room; each is the next one or one of the 1024 before it, sent again, in any
-- mixture, and no number reaches 2^16. Then the packets from the number expected at first up to the
-- last new one are delivered, each once and in the order of their numbers; the number behind them
-- is expected; the queue, its count and the last acknowledgement sent are left alone.
pub recv_numbers-Arrivals :
    (env : Env) (s : ToServer) (sent : ℕ → Delivery) (ks : List ℕ) (last : ℕ)
    → env.push_ok ≡ true
    → ((k : ℕ) → (sent k).opcode ≢ 0)
    → last < 2 ^ 16
    → Arrivals s.next_ack_request_expected ks last
    → (s' : ToServer) × (recv_numbers env s sent ks
        ≡ some
            (s', consecutive sent s.next_ack_request_expected (last - s.next_ack_request_expected)))
      × (s'.next_ack_request_expected ≡ last)
      × (s'.queue ≡ s.queue)
      × (s'.count ≡ s.count)
      × (s'.last_ack_sent ≡ s.last_ack_sent)
unfolding recv_numbers Arrivals consecutive
recv_numbers-Arrivals env s sent [] last room named h e =
    let none_left : last - s.next_ack_request_expected ≡ 0 = omega arith in
    (s, rw (none_left), e, refl, refl, refl)
recv_numbers-Arrivals env s sent (k ∷ ks) last room named h (inl (now, more)) =
    let e = s.next_ack_request_expected in
    let le = Arrivals-le (e + 1) ks last more in
    let s1 = record s { next_ack_request_expected = k + 1; lowest_ack_in_queue = k + 1 } in
    let next : e + 1 ≡ k + 1 = omega arith in
    let more' = subst (λ (i : ℕ). Arrivals i ks last) next more in
    let (s', run, num, q, c, l) = recv_numbers-Arrivals env s1 sent ks last room named h more' in
    let new = recv_new env s (sent k) k room (named k) now (omega arith) in
    let all = consecutive-step sent k (last - k) (last - (k + 1)) (omega arith) in
    let from = ap (λ (i : ℕ). consecutive sent i (last - i)) now in
    (
      s',
      recv_numbers-step env s sent k ks s1 s' (sent k ∷ []) _ new run
          ∙ ap (λ (out : List Delivery). some (s', out)) (sym all ∙ from),
      num,
      q,
      c,
      l,
    )
recv_numbers-Arrivals env s sent (k ∷ ks) last room named h (inr (before, near, more)) =
    let (s', run, num, q, c, l) = recv_numbers-Arrivals env s sent ks last room named h more in
    let behind = cmp_behind k s.next_ack_request_expected before near in
    let again = recv_past env s (sent k).opcode k 0 (sent k).payload behind in
    (s', recv_numbers-step env s sent k ks s s' [] _ again run, num, q, c, l)
