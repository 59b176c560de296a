-- ===== src/Timer/Late.antt =====
-- A timer that is due behind others that are not.
use zeq_server_trilogy.Common.{
  ℕ, zero, suc, ◌+◌, ◌^◌, ◌<◌, ◌≡◌, ◌≢◌, ap, ◌∙◌, sym, true, false, Option, some, List, [], ◌∷◌,
  ◌++◌, get_elem?, set, length, take, u64, arith, get_elem?-set_self, get_elem?-set_ne,
}
use zeq_server_trilogy.Timer.{Timer, TimerPool, deref, find_due, run_due, execute_callbacks}
use zeq_server_trilogy.Timer.Due.{due, AllLive, HasTriggers, find_due_lem, store-set}

first_of : (c k : ℕ) (q : List ℕ) → take c q ≡ k ∷ [] → get_elem? q 0 ≡ some k
first_of zero k q h = cc
first_of (suc c) k [] h = cc
first_of (suc c) k (x ∷ q) h = ap (λ (l : List ℕ). get_elem? l 0) h

run_due_one :
    (callback : ℕ → TimerPool → Option TimerPool) (s : TimerPool) (k t t0 : ℕ) (timer : Timer)
    → get_elem? s.triggered_indices 0 ≡ some k
    → get_elem? s.timer_objects k ≡ some t
    → deref s t ≡ some timer
    → timer.callback ≡ false
    → get_elem? s.trigger_times 0 ≡ some t0
    → 0 < length s.trigger_times
    → run_due callback 1 0 s
      ≡ some (record s { trigger_times = set s.trigger_times 0 (u64 (t0 + timer.period_ms)) })
unfolding run_due
run_due_one callback s k t t0 timer i o d c z h =
    rw (i, o, d, z, store-set s.trigger_times 0 (u64 (t0 + timer.period_ms)) h, c)

pub execute-found :
    (callback : ℕ → TimerPool → Option TimerPool) (now : ℕ) (s s' s'' : TimerPool)
    → find_due true now s.timer_count 0 s ≡ some (true, s')
    → run_due callback s'.triggered_count 0 (record s' { triggered_count = 0 }) ≡ some s''
    → execute_callbacks callback true now s ≡ some (true, s'')
unfolding execute_callbacks
execute-found callback now s s' s'' f r = rw (f, r)

-- The pool holds the timers with the times `t0 ∷ ts`, none of them stopped, and of these exactly one
-- is due: that at the index `k`, which is not the first, and has no callback. One call succeeds, and
-- moves the time of the first timer on by the period of the due one; the time of the due timer stays
-- as it is, so that it is due again at once.
pub execute_callbacks_late :
    (callback : ℕ → TimerPool → Option TimerPool) (now : ℕ) (s : TimerPool) (t0 : ℕ)
    (ts rest : List ℕ) (k t : ℕ) (timer : Timer)
    → s.trigger_times ≡ (t0 ∷ ts) ++ rest
    → s.timer_count ≡ length (t0 ∷ ts)
    → AllLive (t0 ∷ ts)
    → HasTriggers s
    → s.triggered_count ≡ 0
    → length (t0 ∷ ts) < 2 ^ 31
    → due now 0 (t0 ∷ ts) ≡ k ∷ []
    → k ≢ 0
    → get_elem? s.timer_objects k ≡ some t
    → deref s t ≡ some timer
    → timer.callback ≡ false
    → (s' : TimerPool) × (execute_callbacks callback true now s ≡ some (true, s'))
      × (get_elem? s'.trigger_times 0 ≡ some (u64 (t0 + timer.period_ms)))
      × (get_elem? s'.trigger_times k ≡ get_elem? s.trigger_times k)
unfolding deref
execute_callbacks_late callback now s t0 ts rest k t timer e n live h z small one ne o d c =
    let (count, p, q, found, listed, counted) =
      find_due_lem now s (t0 ∷ ts) rest e n live h z small in
    let first = first_of count k q (listed ∙ one) in
    let single : count ≡ 1 = counted ∙ ap length one in
    let time : get_elem? s.trigger_times 0 ≡ some t0 = ap (λ (l : List ℕ). get_elem? l 0) e in
    let nonempty : 0 < length s.trigger_times = omega (arith, ap length e) in
    let s1 : TimerPool = record s {
      triggered_count = count;
      triggered_cap = p;
      triggered_indices = q;
    } in
    let s2 : TimerPool = record s1 { triggered_count = 0 } in
    let ran = run_due_one callback s2 k t t0 timer first o d c time nonempty in
    (
      record s2 { trigger_times = set s.trigger_times 0 (u64 (t0 + timer.period_ms)) },
      execute-found callback now s s1 _ found
          (ap (λ (m : ℕ). run_due callback m 0 s2) single ∙ ran),
      get_elem?-set_self s.trigger_times 0 (u64 (t0 + timer.period_ms)) nonempty,
      get_elem?-set_ne s.trigger_times 0 k (u64 (t0 + timer.period_ms)) (λ eq. ne (sym eq)),
    )
