-- ===== src/Text/Length.antt =====
-- What both lengths are, for text with and without a terminator.
use zeq_server_trilogy.Common.{
  ℕ, zero, suc, ◌+◌, ◌≤◌, min, ◌≡◌, ◌≢◌, ◌⊎◌, inl, inr, refl, ap, ◌∙◌, none, some, List, [], ◌∷◌,
  ◌++◌, length, ltb, if◌then◌else◌, arith,
}
use zeq_server_trilogy.Text.{bounded_loop, overflow_loop, str_len_bounded, str_len_overflow}

unfoldable pub HasNoNull : List ℕ → Type 0
HasNoNull [] = Unit {0}
HasNoNull (c ∷ str) = (c ≢ 0) × HasNoNull str

-- Behind the text the memory goes on with a terminator, unless the text fills the buffer.
abbrev pub Ends : ℕ → List ℕ → List ℕ → Type 0
Ends max text rest = (max ≤ length text) ⊎ ((tail : List ℕ) × (rest ≡ 0 ∷ tail))

Ends-suc : (n c : ℕ) (text rest : List ℕ) → Ends (suc n) (c ∷ text) rest → Ends n text rest
Ends-suc n c text rest (inl full) = inl (omega arith)
Ends-suc n c text rest (inr more) = inr more

-- Both loops, with `i` characters before
abbrev Loops : ℕ → ℕ → List ℕ → List ℕ → Type 0
Loops n i text rest =
    (bounded_loop n i (text ++ rest) ≡ some (i + min (length text) n))
    × (overflow_loop n i (text ++ rest)
        ≡ some (if ltb (length text) n then some (i + length text) else none))

loops_lem : (n i : ℕ) (text rest : List ℕ) → HasNoNull text → Ends n text rest → Loops n i text rest
unfolding bounded_loop overflow_loop HasNoNull
loops_lem zero i [] rest no_null ends = (ap some (omega arith), refl)
loops_lem zero i (c ∷ text) rest no_null ends = (ap some (omega arith), ground arith)
loops_lem (suc n) i [] rest no_null (inl full) = absurd (omega arith)
loops_lem (suc n) i [] rest no_null (inr (tail, e)) =
    (rw (e) (ap some (omega arith)), rw (e) (ground arith))
loops_lem (suc n) i (c ∷ text) rest (c_ne, no_null) ends =
    let later = loops_lem n (i + 1) text rest no_null (Ends-suc n c text rest ends) in
    (ground (arith, later.0, c_ne), ground (arith, later.1, c_ne))

-- For a text without a terminator in memory that goes on with one, or that is as long as `max` or
-- longer: neither function reads behind the terminator or behind `max` bytes. `str_len_bounded` is the
-- length of the text, at most `max`; `str_len_overflow` is the length when it is below `max`, and -1
-- otherwise.
pub str_len_lem :
    (text rest : List ℕ) (max : ℕ)
    → HasNoNull text
    → Ends max text rest
    → (str_len_bounded (text ++ rest) max ≡ some (min (length text) max))
      × (str_len_overflow (text ++ rest) max
          ≡ some (if ltb (length text) max then some (length text) else none))
unfolding str_len_bounded str_len_overflow
str_len_lem text rest max no_null ends =
    let both = loops_lem max 0 text rest no_null ends in
    (both.0 ∙ ap some (omega arith), both.1 ∙ ground arith)
