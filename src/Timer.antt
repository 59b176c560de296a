-- ===== src/Timer.antt =====
-- src/timer.c and src/timer.h: the timers of a thread, in a pool of three arrays. Timers are shared
-- between the pool and their owners, so they stand in a heap, `timers`; a pointer is an index into
-- it, and a freed timer is `none`. `none` as a result is an access to freed memory or outside an array.
mod Due
mod Late
mod Stopped
mod Tests
use zeq_server_trilogy.Common.{
  ℕ, zero, suc, ◌+◌, ◌-◌, ◌*◌, ◌/◌, ◌%◌, ◌^◌, bit_or, Bool, true, false, Option, none, some, List,
  [], get_elem?, set, resize, length, ltb, leb, ◌==◌, not, ◌&&◌, if◌then◌else◌, u32, u64, ◌>>=◌,
  ◌∷◌, ◌++◌,
}
use zeq_server_trilogy.Bit.{is_pow2_or_zero}

-- `Timer`; `callback` says whether there is one.
pub record Timer : Type 0 where
  pub pool_index : ℕ
  pub period_ms : ℕ
  pub lua_index : ℕ
  pub callback : Bool

-- `TIMER_POOL_INVALID_INDEX`
abbrev pub invalid_index : ℕ
invalid_index = 0xffffffff

-- `TimerPool`, with the heap of timers
pub record TimerPool : Type 0 where
  pub timer_count : ℕ
  pub triggered_count : ℕ
  pub triggered_cap : ℕ
  pub trigger_times : List ℕ
  pub timer_objects : List ℕ
  pub triggered_indices : List ℕ
  pub timers : List (Option Timer)

-- `*timer`
unfoldable pub deref : TimerPool → ℕ → Option Timer
deref s t = elim (get_elem? s.timers t) [ none ↦ none | some timer ↦ timer ]

abbrev pub set_timer : TimerPool → ℕ → Timer → TimerPool
set_timer s t timer = record s { timers = set s.timers t (some timer) }

-- A store into an array: `none` outside it
unfoldable pub store : List ℕ → ℕ → ℕ → Option (List ℕ)
store xs i v = if ltb i (length xs) then some (set xs i v) else none

-- The 'dead' bit of a trigger time, and the time without it
abbrev pub is_dead : ℕ → Bool
is_dead time = time / 2 ^ 63 % 2 == 1

abbrev pub without_dead : ℕ → ℕ
without_dead time = time % 2 ^ 63

abbrev pub the_pair : Bool → TimerPool → Bool × TimerPool
the_pair ok s = (ok, s)

-- `timer_pool_swap_and_pop`
unfoldable pub swap_and_pop : TimerPool → ℕ → Option TimerPool
unfolding deref store
swap_and_pop s index = do
  let back = u32 (s.timer_count + 2 ^ 32 - 1)
  let s' = record s { timer_count = back }
  if back == index then some s' else (do
    t ← get_elem? s.timer_objects back
    objects ← store s.timer_objects index t
    time ← get_elem? s.trigger_times back
    times ← store s.trigger_times index time
    timer ← deref s t
    some (
        set_timer (record s' { timer_objects = objects; trigger_times = times }) t
          (record timer { pool_index = index })))

unfoldable pub put_trigger_index : TimerPool → ℕ → Option (Bool × TimerPool)
unfolding store
put_trigger_index s index = do
  indices ← store s.triggered_indices s.triggered_count index
  some (
      the_pair true
        (record s { triggered_indices = indices; triggered_count = u32 (s.triggered_count + 1) }))

-- `timer_pool_add_trigger_index`; `room` is what `realloc` answers.
unfoldable pub add_trigger_index : Bool → TimerPool → ℕ → Option (Bool × TimerPool)
unfolding put_trigger_index
add_trigger_index room s index =
    let bigger = if s.triggered_cap == 0 then 1 else u32 (s.triggered_cap * 2) in
    if leb s.triggered_cap s.triggered_count
    then if room
      then put_trigger_index
          (record s {
            triggered_cap = bigger;
            triggered_indices = resize 0 bigger s.triggered_indices;
          })
          index
      else some (the_pair false s)
    else put_trigger_index s index

-- The first loop of `timer_pool_execute_callbacks`: each round drops the entry at `i` or moves to the
-- next, so `n - i` rounds are left. `false` is `ERR_OutOfMemory`.
unfoldable pub find_due : Bool → ℕ → ℕ → ℕ → TimerPool → Option (Bool × TimerPool)
unfolding swap_and_pop add_trigger_index
find_due room now zero i s = some (true, s)
find_due room now (suc left) i s = do
  time ← get_elem? s.trigger_times i
  if is_dead time
      then (swap_and_pop s i >>= λ s'. find_due room now left i s')
      else if leb (without_dead time) now
      then (add_trigger_index room s i >>= λ added.
          if added.0 then find_due room now left (i + 1) added.1 else some added)
      else find_due room now left (i + 1) s

-- The second loop: `triggerTimes[i] += timer->periodMs`, and the callback of the triggered timer
unfoldable pub run_due : (ℕ → TimerPool → Option TimerPool) → ℕ → ℕ → TimerPool → Option TimerPool
unfolding deref store
run_due callback zero i s = some s
run_due callback (suc left) i s = do
  k ← get_elem? s.triggered_indices i
  t ← get_elem? s.timer_objects k
  timer ← deref s t
  time ← get_elem? s.trigger_times i
  times ← store s.trigger_times i (u64 (time + timer.period_ms))
  let s' = record s { trigger_times = times }
  s'' ← if timer.callback then callback t s' else some s'
  run_due callback left (i + 1) s''

-- `timer_pool_execute_callbacks`
unfoldable pub execute_callbacks :
    (ℕ → TimerPool → Option TimerPool) → Bool → ℕ → TimerPool → Option (Bool × TimerPool)
unfolding find_due run_due
execute_callbacks callback room now s = find_due room now s.timer_count 0 s >>= λ found.
    if found.0
    then (run_due callback found.1.triggered_count 0 (record (found.1) { triggered_count = 0 })
        >>= λ s'. some (the_pair true s'))
    else some found

-- The arrays have the slot: the timer is put behind those that are there.
unfoldable pub link_timer : ℕ → ℕ → TimerPool → Option (Bool × TimerPool)
unfolding deref store
link_timer now t s = do
  timer ← deref s t
  objects ← store s.timer_objects s.timer_count t
  times ← store s.trigger_times s.timer_count (u64 (now + timer.period_ms))
  some (
      the_pair true (
        set_timer
          (record s {
            timer_count = u32 (s.timer_count + 1);
            timer_objects = objects;
            trigger_times = times;
          })
          t (record timer { pool_index = s.timer_count })))

-- `timer_pool_start_timer`; `times_ok` and `objects_ok` are what the two `realloc`s answer. `false`
-- is `ERR_OutOfMemory`.
unfoldable pub start_timer : Bool → Bool → ℕ → ℕ → TimerPool → Option (Bool × TimerPool)
unfolding link_timer
start_timer times_ok objects_ok now t s =
    let index = s.timer_count in
    let room = if index == 0 then 1 else u32 (index * 2) in
    let times_grown = record s { trigger_times = resize 0 room s.trigger_times } in
    let both_grown = record times_grown { timer_objects = resize 0 room s.timer_objects } in
    if is_pow2_or_zero index
    then if not times_ok
      then some (the_pair false s)
      else if not objects_ok
      then some (the_pair false times_grown)
      else link_timer now t both_grown
    else link_timer now t s

-- `timer_restart`, which is `timer_start` too
unfoldable pub timer_restart : Bool → Bool → ℕ → ℕ → TimerPool → Option (Bool × TimerPool)
unfolding start_timer
timer_restart times_ok objects_ok now t s = do
  timer ← deref s t
  if timer.pool_index == invalid_index then start_timer times_ok objects_ok now t s else (do
    times ← store s.trigger_times timer.pool_index (u64 (now + timer.period_ms))
    some (the_pair true (record s { trigger_times = times })))

-- `timer_stop`; `false` is `ERR_Invalid`.
unfoldable pub timer_stop : ℕ → TimerPool → Option (Bool × TimerPool)
unfolding deref store
timer_stop t s = do
  timer ← deref s t
  if timer.pool_index == invalid_index then some (the_pair false s) else (do
    time ← get_elem? s.trigger_times timer.pool_index
    times ← store s.trigger_times timer.pool_index (bit_or time (2 ^ 63))
    some (
        the_pair true (
          set_timer (record s { trigger_times = times }) t
            (record timer { pool_index = invalid_index }))))

-- `timer_destroy` of a timer that is there
unfoldable pub timer_destroy : ℕ → TimerPool → Option TimerPool
unfolding timer_stop
timer_destroy t s = timer_stop t s >>= λ r. some (record (r.1) { timers = set r.1.timers t none })

-- `timer_new`; the timer is the one behind those in the heap, and is freed when it cannot start.
unfoldable pub timer_new : Bool → Bool → ℕ → ℕ → Bool → Bool → TimerPool → Option (Bool × TimerPool)
unfolding timer_restart
timer_new times_ok objects_ok now period callback start s =
    let t = length s.timers in
    let timer : Timer = record {
      pool_index = invalid_index;
      period_ms = period;
      lua_index = 0;
      callback = callback;
    } in
    let s' = record s { timers = s.timers ++ some timer ∷ [] } in
    if start
    then (timer_restart times_ok objects_ok now t s' >>= λ r.
        if r.0
        then some r
        else some (the_pair false (record (r.1) { timers = set r.1.timers t none })))
    else some (the_pair true s')

-- `timer_pool_init`: it leaves `triggeredCount` as it was.
unfoldable pub pool_init : TimerPool → TimerPool
pool_init s = record s {
  timer_count = 0;
  triggered_cap = 0;
  trigger_times = [];
  timer_objects = [];
  triggered_indices = [];
}
