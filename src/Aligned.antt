-- ===== src/Aligned.antt =====
-- src/aligned.c and src/aligned.h: a cursor over a byte buffer, with little-endian reads and writes.
-- The release build (`NDEBUG` in the Makefile) drops the assertions, so an operation past the end is
-- not stopped: a load or a store outside the buffer is the fault `none`. A `float` is carried by its
-- bit pattern, as the source does it.
pub mod Put
pub mod RoundTrip
mod Words
mod Null
mod Tests
use zeq_server_trilogy.Common.{
  ℕ, zero, suc, ◌+◌, ◌-◌, ◌*◌, ◌/◌, ◌^◌, bit_and, bit_or, Bool, Option, none, some, List, [], ◌∷◌,
  get_elem?, set, length, ltb, leb, ◌==◌, if◌then◌else◌, u8, u32,
}

-- `buffer` is the memory that the pointer refers to; `length` is what the structure says of it.
pub record Aligned : Type 0 where
  pub cursor : ℕ
  pub length : ℕ
  pub buffer : List ℕ

-- An operation on a cursor; `none` is an access outside the buffer.
abbrev pub M : Type 0 → Type 0
M A = Aligned → Option (A × Aligned)

infixl 5 ◌>>=◌ ◌>>◌
abbrev pub ◌>>=◌ : {A B : Type 0} → M A → (A → M B) → M B
◌>>=◌ m f a = elim (m a) [ none ↦ none | some (x, a') ↦ f x a' ]

abbrev pub ◌>>◌ : {B : Type 0} → M (Unit {0}) → M B → M B
◌>>◌ m k a = elim (m a) [ none ↦ none | some (_, a') ↦ k a' ]

abbrev pub return : {A : Type 0} → A → M A
return x a = some (x, a)

-- `a->buffer[i]`, read and written
unfoldable pub load : ℕ → M ℕ
load i a = elim (get_elem? a.buffer i) [ none ↦ none | some v ↦ some (v, a) ]

unfoldable pub store : ℕ → ℕ → M (Unit {0})
store i v a =
    if ltb i (length a.buffer) then some (tt, record a { buffer = set a.buffer i v }) else none

unfoldable pub init : List ℕ → ℕ → Aligned
init ptr len = record { cursor = 0; length = len; buffer = ptr }

unfoldable pub init_cursor_at : List ℕ → ℕ → ℕ → Aligned
init_cursor_at ptr len cursor = record { cursor = cursor; length = len; buffer = ptr }

-- The result is the cursor before the step.
unfoldable pub advance_by : ℕ → M ℕ
advance_by len a = some (a.cursor, record a { cursor = u32 (a.cursor + len) })

unfoldable pub reverse_by : ℕ → M ℕ
reverse_by len a = some (a.cursor, record a { cursor = u32 (a.cursor + 2 ^ 32 - len) })

unfoldable pub check_bounds : ℕ → Aligned → Bool
check_bounds len a = leb (u32 (a.cursor + len)) a.length

-- `length - cursor` in `uint32_t`
unfoldable pub remaining_data : Aligned → ℕ
remaining_data a = u32 (a.length + 2 ^ 32 - a.cursor)

unfoldable pub reset_cursor_to : ℕ → Aligned → Aligned
reset_cursor_to offset a = record a { cursor = offset }

unfoldable pub set_length : ℕ → Aligned → Aligned
set_length len a = record a { length = len }

-- The `while` of `aligned_advance_past_null_terminator`; a round moves the cursor by one, so
-- `length - cursor` rounds are enough. The result `none` is -1. A count that
-- `int` cannot hold is a fault.
pub past_null : ℕ → ℕ → M (Option ℕ)
past_null zero len a = some (none, a)
past_null (suc fuel) len a =
    let next = λ (c : ℕ). past_null fuel (len + 1) (record a { cursor = u32 (a.cursor + 1) }) in
    if ltb a.cursor a.length
    then elim (get_elem? a.buffer a.cursor) [
      | none ↦ none
      | some c ↦
          if c == 0
          then some (some len, record a { cursor = u32 (a.cursor + 1) })
          else if ltb (len + 1) (2 ^ 31)
          then next c
          else none
    ]
    else some (none, a)

pub advance_past_null_terminator : M (Option ℕ)
advance_past_null_terminator a = past_null (a.length - a.cursor) 0 a

unfoldable pub read_uint8 : M ℕ
unfolding advance_by load
read_uint8 = do c ← advance_by 1; load c

unfoldable pub read_uint16 : M ℕ
unfolding advance_by load
read_uint16 = do
  c ← advance_by 2
  b0 ← load (u32 (c + 0))
  b1 ← load (u32 (c + 1))
  return (bit_or b0 (b1 * 2 ^ 8))

unfoldable pub read_uint32 : M ℕ
unfolding advance_by load
read_uint32 = do
  c ← advance_by 4
  b0 ← load (u32 (c + 0))
  b1 ← load (u32 (c + 1))
  b2 ← load (u32 (c + 2))
  b3 ← load (u32 (c + 3))
  return (bit_or (bit_or (bit_or b0 (b1 * 2 ^ 8)) (b2 * 2 ^ 16)) (b3 * 2 ^ 24))

pub read_uint64 : M ℕ
unfolding advance_by load
read_uint64 = do
  c ← advance_by 8
  b0 ← load (u32 (c + 0))
  b1 ← load (u32 (c + 1))
  b2 ← load (u32 (c + 2))
  b3 ← load (u32 (c + 3))
  b4 ← load (u32 (c + 4))
  b5 ← load (u32 (c + 5))
  b6 ← load (u32 (c + 6))
  b7 ← load (u32 (c + 7))
  let low = bit_or (bit_or (bit_or b0 (b1 * 2 ^ 8)) (b2 * 2 ^ 16)) (b3 * 2 ^ 24)
  let mid = bit_or (bit_or low (b4 * 2 ^ 32)) (b5 * 2 ^ 40)
  return (bit_or (bit_or mid (b6 * 2 ^ 48)) (b7 * 2 ^ 56))

read_float : M ℕ
unfolding read_uint32
read_float = read_uint32

-- The copying loop from `src[i]` on.
load_from : ℕ → ℕ → M (List ℕ)
load_from zero i a = some ([], a)
load_from (suc n) i a =
    let rest = load_from n (u32 (i + 1)) a in
    elim (get_elem? a.buffer i) [
      | none ↦ none
      | some v ↦ elim rest [ none ↦ none | some (vs, a') ↦ some (v ∷ vs, a') ]
    ]

read_buffer : ℕ → M (List ℕ)
unfolding advance_by load_from
read_buffer len = do c ← advance_by len; load_from len c

peek_uint8 : M ℕ
unfolding check_bounds load
peek_uint8 a = if check_bounds 1 a then load a.cursor a else some (0, a)

-- The storing loop of `aligned_write_buffer` from `dst[i]` on; `memset` is the same with one value.
unfoldable pub store_from : ℕ → List ℕ → M (Unit {0})
store_from i [] a = some (tt, a)
store_from i (v ∷ vs) a =
    if ltb i (length a.buffer)
    then store_from (u32 (i + 1)) vs (record a { buffer = set a.buffer i v })
    else none

fill_from : ℕ → ℕ → ℕ → M (Unit {0})
fill_from zero i v a = some (tt, a)
fill_from (suc n) i v a =
    if ltb i (length a.buffer)
    then fill_from n (u32 (i + 1)) v (record a { buffer = set a.buffer i v })
    else none

write_memset : ℕ → ℕ → M (Unit {0})
unfolding advance_by fill_from
write_memset val len = do c ← advance_by len; fill_from len c (u8 val)

write_zeroes : ℕ → M (Unit {0})
unfolding advance_by fill_from
write_zeroes count = do c ← advance_by count; fill_from count c 0

write_buffer : List ℕ → M (Unit {0})
unfolding advance_by store_from
write_buffer data' = do c ← advance_by (length data'); store_from c data'

unfoldable pub write_uint8 : ℕ → M (Unit {0})
unfolding advance_by
write_uint8 v = do c ← advance_by 1; store c v

unfoldable pub write_uint16 : ℕ → M (Unit {0})
unfolding advance_by
write_uint16 v = do
  c ← advance_by 2
  store (u32 (c + 0)) (u8 (bit_and v 0x00ff))
  store (u32 (c + 1)) (u8 (bit_and v 0xff00 / 2 ^ 8))

unfoldable pub write_uint32 : ℕ → M (Unit {0})
unfolding advance_by
write_uint32 v = do
  c ← advance_by 4
  store (u32 (c + 0)) (u8 (bit_and v 0x000000ff))
  store (u32 (c + 1)) (u8 (bit_and v 0x0000ff00 / 2 ^ 8))
  store (u32 (c + 2)) (u8 (bit_and v 0x00ff0000 / 2 ^ 16))
  store (u32 (c + 3)) (u8 (bit_and v 0xff000000 / 2 ^ 24))

pub write_uint64 : ℕ → M (Unit {0})
unfolding advance_by
write_uint64 v = do
  c ← advance_by 8
  store (u32 (c + 0)) (u8 (bit_and v 0x00000000000000ff))
  store (u32 (c + 1)) (u8 (bit_and v 0x000000000000ff00 / 2 ^ 8))
  store (u32 (c + 2)) (u8 (bit_and v 0x0000000000ff0000 / 2 ^ 16))
  store (u32 (c + 3)) (u8 (bit_and v 0x00000000ff000000 / 2 ^ 24))
  store (u32 (c + 4)) (u8 (bit_and v 0x000000ff00000000 / 2 ^ 32))
  store (u32 (c + 5)) (u8 (bit_and v 0x0000ff0000000000 / 2 ^ 40))
  store (u32 (c + 6)) (u8 (bit_and v 0x00ff000000000000 / 2 ^ 48))
  store (u32 (c + 7)) (u8 (bit_and v 0xff00000000000000 / 2 ^ 56))

write_float : ℕ → M (Unit {0})
unfolding write_uint32
write_float v = write_uint32 v

-- The header of a packet is written backwards, from just below the cursor.
unfoldable pub write_reverse_uint8 : ℕ → M (Unit {0})
unfolding reverse_by
write_reverse_uint8 v = do c ← reverse_by 1; store (u32 (c + 2 ^ 32 - 1)) v

unfoldable pub write_reverse_uint16 : ℕ → M (Unit {0})
unfolding reverse_by
write_reverse_uint16 v = do
  c ← reverse_by 2
  store (u32 (c + 2 ^ 32 - 2)) (u8 (bit_and v 0x00ff))
  store (u32 (c + 2 ^ 32 - 1)) (u8 (bit_and v 0xff00 / 2 ^ 8))
