-- ===== src/Buffer/Tests.antt =====
-- Two texts appended
use zeq_server_trilogy.Common.{ℕ, ◌≡◌, List, [], ◌∷◌, arith, some, none, refl, replicate}
use zeq_server_trilogy.Aligned.RoundTrip.{Holds}
use zeq_server_trilogy.Buffer.{DynamicBuffer, StaticBuffer, init, convert_to_sbuf, copy_to_sbuf}
use zeq_server_trilogy.Buffer.Appended.{append_all, append_all-convert_to_sbuf}

abbrev first : List ℕ
first = 104 ∷ 105 ∷ []

abbrev second : List ℕ
second = 33 ∷ []

append_all-convert_to_sbuf_example :
    (b : DynamicBuffer) × (s : StaticBuffer) × (append_all 170 init (first ∷ second ∷ []) ≡ some b)
    × (convert_to_sbuf b ≡ some (s, init))
    × (s.len ≡ 5)
    × Holds s.memory 8 (104 ∷ 105 ∷ 0 ∷ 33 ∷ 0 ∷ [])
append_all-convert_to_sbuf_example =
    append_all-convert_to_sbuf 170 first (second ∷ []) (omega arith)

-- An empty buffer is copied: the terminator is written behind the eight bytes allocated.
copied_empty : copy_to_sbuf (λ n. some (replicate n 170)) init ≡ none
unfolding copy_to_sbuf
copied_empty = refl
