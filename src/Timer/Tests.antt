-- ===== src/Timer/Tests.antt =====
-- Pools of two timers.
use zeq_server_trilogy.Common.{
  ℕ, ◌+◌, ◌^◌, ◌≡◌, refl, true, false, Option, none, some, List, [], ◌∷◌, get_elem?, take, length,
  u64, arith,
}
use zeq_server_trilogy.Timer.{Timer, TimerPool, deref, find_due, execute_callbacks, timer_restart}
use zeq_server_trilogy.Timer.Due.{due, HasTriggers, find_due_lem}
use zeq_server_trilogy.Timer.Late.{execute_callbacks_late}
use zeq_server_trilogy.Timer.Stopped.{TwoStopped, restart_after_stop, execute_callbacks_freed}

abbrev timer : ℕ → ℕ → Timer
timer index period = record {
  pool_index = index;
  period_ms = period;
  lua_index = 0;
  callback = false;
}

abbrev no_callback : ℕ → TimerPool → Option TimerPool
no_callback t s = some s

-- The first timer is due at 1000, the second at 50.
abbrev running : TimerPool
running = record {
  timer_count = 2;
  triggered_count = 0;
  triggered_cap = 0;
  trigger_times = 1000 ∷ 50 ∷ [];
  timer_objects = 0 ∷ 1 ∷ [];
  triggered_indices = [];
  timers = some (timer 0 500) ∷ some (timer 1 20) ∷ [];
}

running-HasTriggers : HasTriggers running
running-HasTriggers = record { size = refl; within = omega arith }

find_due_lem_example :
    (c : ℕ) × (p : ℕ) × (q : List ℕ) × (find_due true 60 2 0 running
      ≡ some
          (true, record running { triggered_count = c; triggered_cap = p; triggered_indices = q }))
    × (take c q ≡ due 60 0 (1000 ∷ 50 ∷ []))
    × (c ≡ length (due 60 0 (1000 ∷ 50 ∷ [])))
find_due_lem_example =
    find_due_lem 60 running (1000 ∷ 50 ∷ []) [] refl refl (refl, (refl, tt)) running-HasTriggers
      refl (omega arith)

second_here : deref running 1 ≡ some (timer 1 20)
unfolding deref
second_here = refl

execute_callbacks_late_example :
    (s' : TimerPool) × (execute_callbacks no_callback true 60 running ≡ some (true, s'))
    × (get_elem? s'.trigger_times 0 ≡ some (u64 (1000 + 20)))
    × (get_elem? s'.trigger_times 1 ≡ get_elem? running.trigger_times 1)
execute_callbacks_late_example =
    execute_callbacks_late no_callback 60 running 1000 (50 ∷ []) [] 1 1 (timer 1 20) refl refl
      (refl, (refl, tt)) running-HasTriggers refl (omega arith) refl (omega arith) refl second_here
      refl

-- Both timers have been stopped.
abbrev stopped : TimerPool
stopped = record running { trigger_times = (2 ^ 63 + 1000) ∷ (2 ^ 63 + 50) ∷ [] }

stopped_here : deref stopped 1 ≡ some (timer 1 20)
unfolding deref
stopped_here = refl

stopped-TwoStopped : TwoStopped stopped 0 1 (2 ^ 63 + 1000) (2 ^ 63 + 50) [] [] (timer 1 20)
stopped-TwoStopped = record {
  count = refl;
  untriggered = refl;
  times_are = refl;
  objects_are = refl;
  dead0 = refl;
  dead1 = refl;
  here = stopped_here;
}

restart_after_stop_example :
    (s' : TimerPool) × (s'' : TimerPool) × (execute_callbacks no_callback true 60 stopped
      ≡ some (true, s'))
    × (s'.timer_count ≡ 0)
    × (timer_restart true true 70 1 s' ≡ some (true, s''))
    × (s''.timer_count ≡ 0)
restart_after_stop_example =
    restart_after_stop no_callback true true 60 70 stopped 0 1 (2 ^ 63 + 1000) (2 ^ 63 + 50) [] []
      (timer 1 20) stopped-TwoStopped

abbrev freed : TimerPool
freed = record stopped { timers = some (timer 0 500) ∷ none ∷ [] }

freed_gone : deref freed 1 ≡ none
unfolding deref
freed_gone = refl

execute_callbacks_freed_example : execute_callbacks no_callback true 60 freed ≡ none
execute_callbacks_freed_example =
    execute_callbacks_freed no_callback true 60 freed 0 1 (2 ^ 63 + 1000) (2 ^ 63 + 50) [] [] refl
      refl refl refl freed_gone
