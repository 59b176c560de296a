-- ===== src/Text.antt =====
-- src/util_str.c: the length of a string in a buffer that may be full. An address is the memory from
-- there on; a read outside it is `none`.
mod Length
mod Tests
use zeq_server_trilogy.Common.{
  ℕ, zero, suc, ◌+◌, Option, none, some, List, [], ◌∷◌, ◌==◌, if◌then◌else◌,
}

-- The `while` of `str_len_bounded`, with `n` rounds left
unfoldable pub bounded_loop : ℕ → ℕ → List ℕ → Option ℕ
bounded_loop zero i str = some i
bounded_loop (suc n) i [] = none
bounded_loop (suc n) i (c ∷ str) =
    let rest = bounded_loop n (i + 1) str in if c == 0 then some i else rest

unfoldable pub str_len_bounded : List ℕ → ℕ → Option ℕ
unfolding bounded_loop
str_len_bounded str max = bounded_loop max 0 str

-- The `while` of `str_len_overflow` and the `return` behind it; -1 is the inner `none`.
unfoldable pub overflow_loop : ℕ → ℕ → List ℕ → Option (Option ℕ)
overflow_loop zero i str = some none
overflow_loop (suc n) i [] = none
overflow_loop (suc n) i (c ∷ str) =
    let rest = overflow_loop n (i + 1) str in if c == 0 then some (some i) else rest

unfoldable pub str_len_overflow : List ℕ → ℕ → Option (Option ℕ)
unfolding overflow_loop
str_len_overflow str max = overflow_loop max 0 str
