-- ===== src/Timer/Due.antt =====
-- Which timers one pass over the pool finds due, and what it then does to the first one.
use zeq_server_trilogy.Common.{
  ℕ, suc, ◌+◌, ◌*◌, ◌^◌, ◌≤◌, ◌<◌, ◌≡◌, refl, ap, ◌∙◌, sym, true, false, some, List, [], ◌∷◌, ◌++◌,
  get_elem?, set, resize, length, take, leb, ◌==◌, if◌then◌else◌, u32, arith, take-set, take-resize,
  length-set, length-resize, lt→ltb, Bool-cases, inl, inr, dec_lt, length-append, ap₂, length-take,
}
use mathlib.Core.List.{append-nil, append_assoc}
use zeq_server_trilogy.Timer.{
  TimerPool, store, is_dead, without_dead, add_trigger_index, find_due, put_trigger_index,
}

-- The indices, counted from `i`, of the times that have come
abbrev pub due : ℕ → ℕ → List ℕ → List ℕ
due now i [] = []
due now i (t ∷ ts) = if leb (without_dead t) now then i ∷ due now (i + 1) ts else due now (i + 1) ts

abbrev pub AllLive : List ℕ → Type 0
AllLive [] = Unit {0}
AllLive (t ∷ ts) = (is_dead t ≡ false) × AllLive ts

-- The array of triggered indices has room for `triggered_cap` of them.
pub record HasTriggers (s : TimerPool) : Type 0 where
  pub size : length s.triggered_indices ≡ s.triggered_cap
  pub within : s.triggered_count ≤ s.triggered_cap

abbrev pub triggered : TimerPool → List ℕ
triggered s = take s.triggered_count s.triggered_indices

abbrev with_triggers : TimerPool → ℕ → ℕ → List ℕ → TimerPool
with_triggers s c p q = record s { triggered_count = c; triggered_cap = p; triggered_indices = q }

pub store-set : (xs : List ℕ) (i v : ℕ) → i < length xs → store xs i v ≡ some (set xs i v)
unfolding store
store-set xs i v h = rw (lt→ltb i (length xs) h)

put_trigger_index-set :
    (s : TimerPool) (i : ℕ)
    → s.triggered_count < length s.triggered_indices
    → s.triggered_count < 2 ^ 31
    → put_trigger_index s i
      ≡ some (
        true,
        with_triggers s
            (s.triggered_count + 1)
            s.triggered_cap
            (set s.triggered_indices s.triggered_count i),
      )
unfolding put_trigger_index
put_trigger_index-set s i h small =
    let e : u32 (s.triggered_count + 1) ≡ s.triggered_count + 1 = omega arith in
    rw (store-set s.triggered_indices s.triggered_count i h, e)

add_trigger_index-full :
    (s : TimerPool) (i : ℕ)
    → s.triggered_cap ≤ s.triggered_count
    → s.triggered_cap < 2 ^ 31
    → let p = if s.triggered_cap == 0 then 1 else s.triggered_cap * 2 in
      add_trigger_index true s i
      ≡ put_trigger_index
          (record s { triggered_cap = p; triggered_indices = resize 0 p s.triggered_indices })
          i
unfolding add_trigger_index
add_trigger_index-full s i h small =
    let full : leb s.triggered_cap s.triggered_count ≡ true = ground arith in
    let e : u32 (s.triggered_cap * 2) ≡ s.triggered_cap * 2 = omega arith in rw (full, e)

add_trigger_index-fits :
    (s : TimerPool) (i : ℕ)
    → s.triggered_count < s.triggered_cap
    → add_trigger_index true s i ≡ put_trigger_index s i
unfolding add_trigger_index
add_trigger_index-fits s i h =
    let room : leb s.triggered_cap s.triggered_count ≡ false = ground arith in rw (room)

record Added (s : TimerPool) (i c p : ℕ) (q : List ℕ) : Type 0 where
  counted : c ≡ s.triggered_count + 1
  within : c ≤ p
  size : length q ≡ p
  listed : take c q ≡ triggered s ++ i ∷ []

add_trigger_index-Added :
    (s : TimerPool) (i : ℕ)
    → HasTriggers s
    → s.triggered_count < 2 ^ 31
    → (c : ℕ) × (p : ℕ) × (q : List ℕ) × (add_trigger_index true s i
        ≡ some (true, with_triggers s c p q))
      × Added s i c p q
add_trigger_index-Added s i h small =
    let size = h.size in
    let within = h.within in
    let c = s.triggered_count in
    let next : c + 1 ≡ suc c = omega arith in
    elim (dec_lt c s.triggered_cap) [
      | yes lt ↦ (
        c + 1,
        s.triggered_cap,
        set s.triggered_indices c i,
        add_trigger_index-fits s i lt ∙ put_trigger_index-set s i (omega arith) small,
        record {
          counted = refl;
          within = omega arith;
          size = length-set s.triggered_indices c i ∙ size;
          listed = rw (next) (take-set c i s.triggered_indices (omega arith));
        },
      )
      | no full ↦
          let p = if s.triggered_cap == 0 then 1 else s.triggered_cap * 2 in
          let q = resize 0 p s.triggered_indices in
          let q_size = length-resize 0 p s.triggered_indices in
          let room : c < p = ground arith in
          (
            c + 1,
            p,
            set q c i,
            add_trigger_index-full s i (omega arith) (omega arith)
                ∙ put_trigger_index-set (record s { triggered_cap = p; triggered_indices = q }) i
                    (omega arith) small,
            record {
              counted = refl;
              within = omega arith;
              size = length-set q c i ∙ q_size;
              listed = rw (next) (
                  take-set c i q (omega arith)
                  ∙ ap (λ (l : List ℕ). l ++ i ∷ [])
                      (take-resize 0 c p s.triggered_indices (omega arith) (omega arith)));
            },
          )
    ]

-- A round at a live timer that is not due, and at one that is
find_due-later :
    (now left i t : ℕ) (s : TimerPool)
    → get_elem? s.trigger_times i ≡ some t
    → is_dead t ≡ false
    → leb (without_dead t) now ≡ false
    → find_due true now (suc left) i s ≡ find_due true now left (i + 1) s
unfolding find_due
find_due-later now left i t s at live later = rw (at, live, later)

find_due-now :
    (now left i t : ℕ) (s s' : TimerPool)
    → get_elem? s.trigger_times i ≡ some t
    → is_dead t ≡ false
    → leb (without_dead t) now ≡ true
    → add_trigger_index true s i ≡ some (true, s')
    → find_due true now (suc left) i s ≡ find_due true now left (i + 1) s'
unfolding find_due
find_due-now now left i t s s' at live here add = rw (at, live, here, add)

find_due-done : (now i : ℕ) (s : TimerPool) → find_due true now 0 i s ≡ some (true, s)
unfolding find_due
find_due-done now i s = refl

record Found (s : TimerPool) (is : List ℕ) (c p : ℕ) (q : List ℕ) : Type 0 where
  within : c ≤ p
  size : length q ≡ p
  listed : take c q ≡ triggered s ++ is

get_elem?-middle :
    (pre : List ℕ) (t : ℕ) (ts : List ℕ) → get_elem? (pre ++ t ∷ ts) (length pre) ≡ some t
get_elem?-middle [] t ts = refl
get_elem?-middle (x ∷ pre) t ts = get_elem?-middle pre t ts

find_due-Found :
    (now i : ℕ) (s : TimerPool) (pre ts rest : List ℕ)
    → length pre ≡ i
    → s.trigger_times ≡ pre ++ (ts ++ rest)
    → AllLive ts
    → HasTriggers s
    → s.triggered_count + length ts < 2 ^ 31
    → (c : ℕ) × (p : ℕ) × (q : List ℕ) × (find_due true now (length ts) i s
        ≡ some (true, with_triggers s c p q))
      × Found s (due now i ts) c p q
find_due-Found now i s pre [] rest hi e live h small = (
  s.triggered_count,
  s.triggered_cap,
  s.triggered_indices,
  find_due-done now i s,
  record { within = h.within; size = h.size; listed = sym (append-nil (triggered s)) },
)
find_due-Found now i s pre (t ∷ ts) rest hi e live h small =
    let at : get_elem? s.trigger_times i ≡ some t =
      ap₂ get_elem? e (sym hi) ∙ get_elem?-middle pre t (ts ++ rest) in
    let longer : length (pre ++ t ∷ []) ≡ i + 1 = omega (arith, length-append pre (t ∷ [])) in
    let times = e ∙ sym (append_assoc pre (t ∷ []) (ts ++ rest)) in
    elim (Bool-cases (leb (without_dead t) now)) [
      | inl here ↦
          let (c1, p1, q1, add, one) = add_trigger_index-Added s i h (omega arith) in
          let counted = one.counted in
          let s1 = with_triggers s c1 p1 q1 in
          let (c, p, q, run, more) =
            find_due-Found now (i + 1) s1 (pre ++ t ∷ []) ts rest longer times live.1
              record { size = one.size; within = one.within } (omega arith) in
          (
            c,
            p,
            q,
            find_due-now now (length ts) i t s s1 at live.0 here add ∙ run,
            rw (here) record {
              within = more.within;
              size = more.size;
              listed =
                  more.listed
                  ∙ ap (λ (l : List ℕ). l ++ due now (i + 1) ts) one.listed
                  ∙ append_assoc (triggered s) (i ∷ []) (due now (i + 1) ts);
            },
          )
      | inr later ↦
          let (c, p, q, run, more) =
            find_due-Found now (i + 1) s (pre ++ t ∷ []) ts rest longer times live.1 h
              (omega arith) in
          (c, p, q, find_due-later now (length ts) i t s at live.0 later ∙ run, rw (later) more)
    ]

-- The pool holds the timers whose times are `ts`, none of them stopped, memory is found, and nothing
-- is triggered yet: the first loop triggers exactly the timers whose time has come, each once, in
-- the order of the pool, and changes nothing else.
pub find_due_lem :
    (now : ℕ) (s : TimerPool) (ts rest : List ℕ)
    → s.trigger_times ≡ ts ++ rest
    → s.timer_count ≡ length ts
    → AllLive ts
    → HasTriggers s
    → s.triggered_count ≡ 0
    → length ts < 2 ^ 31
    → (c : ℕ) × (p : ℕ) × (q : List ℕ) × (find_due true now s.timer_count 0 s
        ≡ some (true, record s { triggered_count = c; triggered_cap = p; triggered_indices = q }))
      × (take c q ≡ due now 0 ts)
      × (c ≡ length (due now 0 ts))
find_due_lem now s ts rest e n live h zero_yet small =
    let (c, p, q, run, found) = find_due-Found now 0 s [] ts rest refl e live h (omega arith) in
    let none_yet : triggered s ≡ [] = ap (λ (k : ℕ). take k s.triggered_indices) zero_yet in
    let listed : take c q ≡ due now 0 ts =
      found.listed ∙ ap (λ (l : List ℕ). l ++ due now 0 ts) none_yet in
    let within = found.within in
    let size = found.size in
    (
      c,
      p,
      q,
      ap (λ (k : ℕ). find_due true now k 0 s) n ∙ run,
      listed,
      omega (arith, length-take c q, ap length listed),
    )
