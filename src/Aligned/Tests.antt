-- ===== src/Aligned/Tests.antt =====
-- Cursors over concrete buffers.
use zeq_server_trilogy.Common.{
  ℕ, ◌≤◌, ◌<◌, ◌≡◌, ◌⊎◌, refl, Option, some, [], ◌∷◌, get_elem?, replicate, arith,
}
use zeq_server_trilogy.Aligned.{Aligned, reset_cursor_to, advance_past_null_terminator, past_null}
use zeq_server_trilogy.Aligned.Put.{HasRoom}
use zeq_server_trilogy.Aligned.Words.{
  Words, one, two, four, eight, write_words, read_words, values, read_words-write_words,
}
use zeq_server_trilogy.Aligned.Null.{Outcome, advance_past_null_terminator-Outcome}

abbrev blank : Aligned
blank = record { cursor = 2; length = 20; buffer = replicate 20 9 }

abbrev sample : Words
sample = (two, 0x1234) ∷ (one, 7) ∷ (eight, 0x1122334455667788) ∷ (four, 99) ∷ []

sample_room : HasRoom 15 blank
sample_room = record { within = omega arith; small = omega arith }

read_words-write_words_example :
    (a' : Aligned) × (write_words sample blank ≡ some (tt, a'))
    × (read_words sample (reset_cursor_to 2 a') ≡ some (values sample, a'))
    × ((j : ℕ) → (j < 2) ⊎ (17 ≤ j) → get_elem? a'.buffer j ≡ get_elem? blank.buffer j)
read_words-write_words_example =
    read_words-write_words sample blank
      (omega arith, (omega arith, (omega arith, (omega arith, tt)))) sample_room (omega arith)

-- "abc", a terminator and one more byte
abbrev name_buffer : Aligned
name_buffer = record { cursor = 0; length = 5; buffer = 97 ∷ 98 ∷ 99 ∷ 0 ∷ 1 ∷ [] }

advance_past_null_terminator-Outcome_example :
    (r : Option ℕ) × (stop : ℕ) × (advance_past_null_terminator name_buffer
      ≡ some (r, record name_buffer { cursor = stop }))
    × Outcome name_buffer.buffer 0 5 0 r stop
advance_past_null_terminator-Outcome_example =
    advance_past_null_terminator-Outcome name_buffer (omega arith) (omega arith) (omega arith)

past_name :
    advance_past_null_terminator name_buffer ≡ some (some 3, record name_buffer { cursor = 4 })
unfolding advance_past_null_terminator past_null
past_name = refl
