-- ===== src/Text/Tests.antt =====
-- Names in a buffer that goes on behind them
use zeq_server_trilogy.Common.{
  ℕ, ◌≡◌, inr, refl, some, none, List, [], ◌∷◌, ◌++◌, min, length, ltb, if◌then◌else◌, arith,
}
use zeq_server_trilogy.Text.{str_len_bounded, str_len_overflow}
use zeq_server_trilogy.Text.Length.{HasNoNull, str_len_lem}

abbrev name : List ℕ
name = 65 ∷ 66 ∷ 67 ∷ []

abbrev behind : List ℕ
behind = 0 ∷ 9 ∷ []

name-HasNoNull : HasNoNull name
unfolding HasNoNull
name-HasNoNull = (omega arith, (omega arith, (omega arith, tt)))

str_len_lem_example :
    (str_len_bounded (name ++ behind) 64 ≡ some (min (length name) 64))
    × (str_len_overflow (name ++ behind) 64
        ≡ some (if ltb (length name) 64 then some (length name) else none))
str_len_lem_example = str_len_lem name behind 64 name-HasNoNull (inr (9 ∷ [], refl))

-- A buffer that is full
full : (str_len_bounded name 2 ≡ some 2) × (str_len_overflow name 2 ≡ some none)
unfolding str_len_bounded str_len_overflow
full = (refl, refl)
