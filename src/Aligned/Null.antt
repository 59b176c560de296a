-- ===== src/Aligned/Null.antt =====
-- `aligned_advance_past_null_terminator`: the search for the end of a string.
use zeq_server_trilogy.Common.{
  ℕ, zero, suc, ◌+◌, ◌-◌, ◌^◌, ◌≤◌, ◌<◌, ◌≡◌, ◌≢◌, refl, true, ap, ◌∙◌, List, Option, none, some,
  get_elem?, length, get_or, get_elem?-eq-get_or, Bool-cases, ◌==◌, ==_iff, inl, inr, arith, u32,
  ℕ_discrete, lt→ltb, ltb,
}
use zeq_server_trilogy.Aligned.{Aligned, past_null, advance_past_null_terminator}

-- No byte from `c` up to `d` is zero.
abbrev pub NoneZero : List ℕ → ℕ → ℕ → Type 0
NoneZero buf c d = (j : ℕ) → c ≤ j → j < d → get_elem? buf j ≢ some 0

-- What a search from `c` to `end` says, with `len` bytes counted before it, and where it stops.
abbrev pub Outcome : List ℕ → ℕ → ℕ → ℕ → Option ℕ → ℕ → Type 0
Outcome buf c end len none stop = NoneZero buf c end × (stop ≡ end)
Outcome buf c end len (some l) stop =
    (i : ℕ) × (l ≡ len + i)
    × (c + i < end)
    × (get_elem? buf (c + i) ≡ some 0)
    × NoneZero buf c (c + i)
    × (stop ≡ c + i + 1)

NoneZero-extend :
    (buf : List ℕ) (c d : ℕ) → get_elem? buf c ≢ some 0 → NoneZero buf (c + 1) d → NoneZero buf c d
NoneZero-extend buf c d ne h j lo hi = elim (ℕ_discrete c j) [
  | yes e ↦ rw (← e) ne
  | no n ↦ h j (omega arith) hi
]

Outcome-extend :
    (buf : List ℕ) (c end len stop : ℕ) (r : Option ℕ)
    → get_elem? buf c ≢ some 0
    → Outcome buf (c + 1) end (len + 1) r stop
    → Outcome buf c end len r stop
Outcome-extend buf c end len stop none ne (h, e) = (NoneZero-extend buf c end ne h, e)
Outcome-extend buf c end len stop (some l) ne (i, el, lt, z, h, e) =
    let m : c + 1 + i ≡ c + (i + 1) = omega arith in
    (
      i + 1,
      omega arith,
      omega arith,
      rw m at z,
      NoneZero-extend buf c (c + (i + 1)) ne (rw m at h),
      omega arith,
    )

-- The search from the cursor of `a`.
record Searched (a : Aligned) (len : ℕ) (run : Option (Option ℕ × Aligned)) : Type 0 where
  pub length_found : Option ℕ
  pub stop : ℕ
  pub returns : run ≡ some (length_found, record a { cursor = stop })
  pub outcome : Outcome a.buffer a.cursor a.length len length_found stop

past_null-Searched :
    (n len : ℕ) (a : Aligned)
    → a.cursor + n ≡ a.length
    → a.length ≤ length a.buffer
    → length a.buffer < 2 ^ 32
    → len + n < 2 ^ 31
    → Searched a len (past_null n len a)
unfolding past_null
past_null-Searched zero len a e fits small counted = record {
  length_found = none;
  stop = a.cursor;
  returns = refl;
  outcome = (λ j lo hi. absurd (omega arith), omega arith);
}
past_null-Searched (suc n) len a e fits small counted =
    let b = get_or a.buffer a.cursor 0 in
    let at : get_elem? a.buffer a.cursor ≡ some b =
      get_elem?-eq-get_or a.buffer a.cursor 0 (omega arith) in
    let wrap : u32 (a.cursor + 1) ≡ a.cursor + 1 = omega arith in
    let rest =
      past_null-Searched n (len + 1) (record a { cursor = a.cursor + 1 }) (omega arith) fits small
        (omega arith) in
    let held : ltb (len + 1) (2 ^ 31) ≡ true = lt→ltb (len + 1) (2 ^ 31) (omega arith) in
    rw (lt→ltb a.cursor a.length (omega arith), at, wrap)
      (elim (Bool-cases (b == 0)) [
        | inl z ↦
            let zero_here : b ≡ 0 = (==_iff b 0).0 z in
            let here : a.cursor + 0 ≡ a.cursor = omega arith in
            rw z (record {
              length_found = some len;
              stop = a.cursor + 1;
              returns = refl;
              outcome = (
                0,
                omega arith,
                omega arith,
                rw here (at ∙ ap some zero_here),
                λ j lo hi. absurd (omega arith),
                omega arith,
              );
            })
        | inr nz ↦
            let other : get_elem? a.buffer a.cursor ≢ some 0 = ground (arith) in
            rw (nz, held)
              (record {
                length_found = rest.length_found;
                stop = rest.stop;
                returns = rest.returns;
                outcome =
                    Outcome-extend a.buffer a.cursor a.length len rest.stop rest.length_found other
                      rest.outcome;
              })
      ])

-- With the cursor not behind `length`, the bytes up to `length` in memory, and a memory that `int` can
-- count, the search never leaves those bytes and its count never overflows. It returns the number of
-- bytes before the first zero at or behind the cursor and leaves the cursor just behind that zero;
-- if there is none before `length` it returns -1 and leaves the cursor at `length`.
pub advance_past_null_terminator-Outcome :
    (a : Aligned)
    → a.cursor ≤ a.length
    → a.length ≤ length a.buffer
    → length a.buffer < 2 ^ 31
    → (r : Option ℕ) × (stop : ℕ) × (advance_past_null_terminator a
        ≡ some (r, record a { cursor = stop }))
      × Outcome a.buffer a.cursor a.length 0 r stop
unfolding advance_past_null_terminator
advance_past_null_terminator-Outcome a h fits small =
    let s =
      past_null-Searched (a.length - a.cursor) 0 a (omega arith) fits (omega arith) (omega arith) in
    (s.length_found, s.stop, s.returns, s.outcome)
