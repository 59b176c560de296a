-- ===== src/Timer/Stopped.antt =====
-- Two timers that are stopped between two passes over the pool.
use zeq_server_trilogy.Common.{
  ℕ, suc, ◌+◌, ◌<◌, ◌≡◌, refl, ap, ◌∙◌, Bool, true, Option, none, some, List, ◌∷◌, get_elem?, set,
  ltb, length, u64, arith, get_elem?-set_self, lt_of_get_elem?, Option-cases, inl, inr,
}
use zeq_server_trilogy.Timer.{
  Timer, TimerPool, deref, store, is_dead, swap_and_pop, find_due, run_due, execute_callbacks,
  timer_restart,
}
use zeq_server_trilogy.Timer.Late.{execute-found}

-- The pool holds two timers, both stopped.
pub record TwoStopped (s : TimerPool) (a b d0 d1 : ℕ) (times objects : List ℕ) (second : Timer)
    : Type 0 where
  pub count : s.timer_count ≡ 2
  pub untriggered : s.triggered_count ≡ 0
  pub times_are : s.trigger_times ≡ d0 ∷ d1 ∷ times
  pub objects_are : s.timer_objects ≡ a ∷ b ∷ objects
  pub dead0 : is_dead d0 ≡ true
  pub dead1 : is_dead d1 ≡ true
  pub here : deref s b ≡ some second

-- The pool after `n` of them are left, the last moved to the front
abbrev dropped : ℕ → TimerPool → ℕ → ℕ → List ℕ → List ℕ → Timer → TimerPool
dropped n s b d1 times objects second = record s {
  timer_count = n;
  trigger_times = d1 ∷ d1 ∷ times;
  timer_objects = b ∷ b ∷ objects;
  timers = set s.timers b (some (record second { pool_index = 0 }));
}

find_due-dead :
    (room : Bool) (now left i t : ℕ) (s s' : TimerPool)
    → get_elem? s.trigger_times i ≡ some t
    → is_dead t ≡ true
    → swap_and_pop s i ≡ some s'
    → find_due room now (suc left) i s ≡ find_due room now left i s'
unfolding find_due
find_due-dead room now left i t s s' at dead pop = rw (at, dead, pop)

find_due-done : (room : Bool) (now i : ℕ) (s : TimerPool) → find_due room now 0 i s ≡ some (true, s)
unfolding find_due
find_due-done room now i s = refl

swap_and_pop-two :
    (s : TimerPool) (a b d0 d1 : ℕ) (times objects : List ℕ) (second : Timer)
    → TwoStopped s a b d0 d1 times objects second
    → swap_and_pop s 0 ≡ some (dropped 1 s b d1 times objects second)
unfolding swap_and_pop store deref
swap_and_pop-two s a b d0 d1 times objects second h =
    let here = h.here in
    let in_objects : ltb 0 (length (a ∷ b ∷ objects)) ≡ true = ground arith in
    let in_times : ltb 0 (length (d0 ∷ d1 ∷ times)) ≡ true = ground arith in
    rw (h.count, h.objects_are, h.times_are, in_objects, in_times, here)

swap_and_pop-one :
    (s : TimerPool) → s.timer_count ≡ 1 → swap_and_pop s 0 ≡ some (record s { timer_count = 0 })
unfolding swap_and_pop
swap_and_pop-one s h = rw (h)

find_due-two :
    (room : Bool) (now : ℕ) (s : TimerPool) (a b d0 d1 : ℕ) (times objects : List ℕ)
    (second : Timer)
    → TwoStopped s a b d0 d1 times objects second
    → find_due room now s.timer_count 0 s ≡ some (true, dropped 0 s b d1 times objects second)
find_due-two room now s a b d0 d1 times objects second h =
    let time : get_elem? s.trigger_times 0 ≡ some d0 =
      ap (λ (l : List ℕ). get_elem? l 0) h.times_are in
    let s1 = dropped 1 s b d1 times objects second in
    ap (λ (n : ℕ). find_due room now n 0 s) h.count
    ∙ find_due-dead room now 1 0 d0 s s1 time h.dead0
        (swap_and_pop-two s a b d0 d1 times objects second h)
    ∙ find_due-dead room now 0 0 d1 s1 (dropped 0 s b d1 times objects second) refl h.dead1
        (swap_and_pop-one s1 refl)
    ∙ find_due-done room now 0 (dropped 0 s b d1 times objects second)

deref-lt : (s : TimerPool) (t : ℕ) (timer : Timer) → deref s t ≡ some timer → t < length s.timers
unfolding deref
deref-lt s t timer h = elim (Option-cases (get_elem? s.timers t)) [
  | inl missing ↦ cc
  | inr (x, there) ↦ lt_of_get_elem? s.timers t there
]

run_due-none :
    (callback : ℕ → TimerPool → Option TimerPool) (s : TimerPool) → run_due callback 0 0 s ≡ some s
unfolding run_due
run_due-none callback s = refl

restart-linked :
    (times_ok objects_ok : Bool) (now b d1 : ℕ) (times : List ℕ) (s : TimerPool) (timer : Timer)
    → get_elem? s.timers b ≡ some (some timer)
    → timer.pool_index ≡ 0
    → s.trigger_times ≡ d1 ∷ d1 ∷ times
    → timer_restart times_ok objects_ok now b s
      ≡ some (true, record s { trigger_times = u64 (now + timer.period_ms) ∷ d1 ∷ times })
unfolding timer_restart deref store
restart-linked times_ok objects_ok now b d1 times s timer here front all =
    let in_times : ltb 0 (length (d1 ∷ d1 ∷ times)) ≡ true = ground arith in
    rw (timer_restart, deref, here, front, all, in_times)

-- The pool holds two timers, both stopped since the last call. The next call drops both, as it
-- should; but a later restart of the second one reports success and leaves the pool empty, so that
-- this timer never triggers.
pub restart_after_stop :
    (callback : ℕ → TimerPool → Option TimerPool) (times_ok objects_ok : Bool) (now later : ℕ)
    (s : TimerPool) (a b d0 d1 : ℕ) (times objects : List ℕ) (second : Timer)
    → TwoStopped s a b d0 d1 times objects second
    → (s' : TimerPool) × (s'' : TimerPool) × (execute_callbacks callback true now s
        ≡ some (true, s'))
      × (s'.timer_count ≡ 0)
      × (timer_restart times_ok objects_ok later b s' ≡ some (true, s''))
      × (s''.timer_count ≡ 0)
restart_after_stop callback times_ok objects_ok now later s a b d0 d1 times objects second h =
    let s1 = dropped 0 s b d1 times objects second in
    let s2 : TimerPool = record s1 { triggered_count = 0 } in
    let front : Timer = record second { pool_index = 0 } in
    let moved = get_elem?-set_self s.timers b (some front) (deref-lt s b second h.here) in
    (
      s2,
      _,
      execute-found callback now s s1 s2 (find_due-two true now s a b d0 d1 times objects second h)
          (ap (λ (n : ℕ). run_due callback n 0 s2) h.untriggered ∙ run_due-none callback s2),
      refl,
      restart-linked times_ok objects_ok later b d1 times s2 front moved refl refl,
      refl,
    )

swap_and_pop-freed :
    (s : TimerPool) (a b : ℕ) (d0 d1 : ℕ) (times objects : List ℕ)
    → s.timer_count ≡ 2
    → s.trigger_times ≡ d0 ∷ d1 ∷ times
    → s.timer_objects ≡ a ∷ b ∷ objects
    → deref s b ≡ none
    → swap_and_pop s 0 ≡ none
unfolding swap_and_pop store deref
swap_and_pop-freed s a b d0 d1 times objects n e o freed =
    let in_objects : ltb 0 (length (a ∷ b ∷ objects)) ≡ true = ground arith in
    let in_times : ltb 0 (length (d0 ∷ d1 ∷ times)) ≡ true = ground arith in
    rw (n, o, e, in_objects, in_times, freed)

find_due-fault :
    (room : Bool) (now left i t : ℕ) (s : TimerPool)
    → get_elem? s.trigger_times i ≡ some t
    → is_dead t ≡ true
    → swap_and_pop s i ≡ none
    → find_due room now (suc left) i s ≡ none
unfolding find_due
find_due-fault room now left i t s at dead pop = rw (at, dead, pop)

execute-fault :
    (callback : ℕ → TimerPool → Option TimerPool) (room : Bool) (now : ℕ) (s : TimerPool)
    → find_due room now s.timer_count 0 s ≡ none
    → execute_callbacks callback room now s ≡ none
unfolding execute_callbacks
execute-fault callback room now s h = rw (h)

-- The pool holds two timers, both stopped, and the second has been freed by `timer_destroy`: the
-- next call writes to the freed timer.
pub execute_callbacks_freed :
    (callback : ℕ → TimerPool → Option TimerPool) (room : Bool) (now : ℕ) (s : TimerPool)
    (a b d0 d1 : ℕ) (times objects : List ℕ)
    → s.timer_count ≡ 2
    → s.trigger_times ≡ d0 ∷ d1 ∷ times
    → s.timer_objects ≡ a ∷ b ∷ objects
    → is_dead d0 ≡ true
    → deref s b ≡ none
    → execute_callbacks callback room now s ≡ none
execute_callbacks_freed callback room now s a b d0 d1 times objects n e o dead freed =
    execute-fault callback room now s (
      ap (λ (k : ℕ). find_due room now k 0 s) n
      ∙ find_due-fault room now 1 0 d0 s (ap (λ (l : List ℕ). get_elem? l 0) e) dead
          (swap_and_pop-freed s a b d0 d1 times objects n e o freed))
