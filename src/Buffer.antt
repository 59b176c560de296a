-- ===== src/Buffer.antt =====
-- src/buffer.c: the growing buffer, whose memory begins with room for the header of a static buffer,
-- and the static buffer, which is counted. `none` is an access outside the memory, or after the free.
mod Appended
mod Tests
use zeq_server_trilogy.Common.{
  ℕ, ◌+◌, ◌-◌, ◌^◌, Bool, true, false, Option, none, some, List, [], ◌∷◌, ◌++◌, length, replicate,
  resize, take, set, ◌==◌, ltb, leb, if◌then◌else◌, u32,
}
use zeq_server_trilogy.Bit.{pow2_greater_or_equal_u32}
use zeq_server_trilogy.Aligned.Put.{put}

-- `sizeof(StaticBuffer)`
abbrev pub header_size : ℕ
header_size = 8

pub record DynamicBuffer : Type 0 where
  pub capacity : ℕ
  pub length : ℕ
  pub memory : List ℕ

-- `StaticBuffer`; `memory` is all of what was allocated, with the header in it.
pub record StaticBuffer : Type 0 where
  pub ref_count : ℕ
  pub len : ℕ
  pub memory : List ℕ

-- `dbuf_init`
abbrev pub init : DynamicBuffer
init = record { capacity = 0; length = header_size; memory = [] }

-- `dbuf_realloc`: `ok` is whether there was memory, `junk` what it has before it is written.
unfoldable pub realloc : Bool → ℕ → DynamicBuffer → ℕ → Option DynamicBuffer
realloc ok junk b len =
    let cap = pow2_greater_or_equal_u32 len in
    if ok then some (record b { capacity = cap; memory = resize junk cap b.memory }) else none

-- The bytes and the terminator, written behind what is there
unfoldable pub write_at_end : DynamicBuffer → List ℕ → Option DynamicBuffer
write_at_end b text =
    if leb (b.length + length text + 1) (length b.memory)
    then some (record b {
      length = u32 (b.length + length text + 1);
      memory = put b.length (text ++ 0 ∷ []) b.memory;
    })
    else none

-- `dbuf_append`; the second result is whether it did.
unfoldable pub append : Bool → ℕ → DynamicBuffer → List ℕ → Option (DynamicBuffer × Bool)
unfolding realloc write_at_end
append ok junk b text =
    let total = u32 (b.length + length text + 1) in
    let grown = if ltb b.capacity total then realloc ok junk b total else some b in
    elim grown [
      | none ↦ some (b, false)
      | some b' ↦ elim (write_at_end b' text) [ none ↦ none | some b'' ↦ some (b'', true) ]
    ]

-- `dbuf_convert_to_sbuf`: the static buffer takes the memory over. `none` is a write to the null
-- pointer of an empty buffer.
unfoldable pub convert_to_sbuf : DynamicBuffer → Option (StaticBuffer × DynamicBuffer)
convert_to_sbuf b =
    if ltb (length b.memory) header_size
    then none
    else some (
      record { ref_count = 0; len = u32 (b.length + 2 ^ 32 - header_size); memory = b.memory },
      init,
    )

-- `sbuf_create`
unfoldable pub sbuf_create : (ℕ → Option (List ℕ)) → List ℕ → Option StaticBuffer
sbuf_create malloc text =
    elim (malloc (pow2_greater_or_equal_u32 (u32 (header_size + length text + 1)))) [
      | none ↦ none
      | some memory ↦ some record {
        ref_count = 0;
        len = length text;
        memory = put header_size (text ++ 0 ∷ []) memory;
      }
    ]

-- `sbuf_grab`
unfoldable pub sbuf_grab : StaticBuffer → StaticBuffer
sbuf_grab b = record b { ref_count = b.ref_count + 1 }

-- `sbuf_drop`: `none` when the memory has been freed.
unfoldable pub sbuf_drop : StaticBuffer → Option StaticBuffer
sbuf_drop b = if leb b.ref_count 1 then none else some (record b { ref_count = b.ref_count - 1 })

-- `dbuf_copy_to_sbuf`, as it is: from the start of the memory, header and all. The outer `none` is an
-- access outside, the inner one a failed allocation.
unfoldable pub copy_to_sbuf : (ℕ → Option (List ℕ)) → DynamicBuffer → Option (Option StaticBuffer)
copy_to_sbuf malloc b =
    let cap = if b.capacity == 0 then header_size else b.capacity in
    let len = u32 (b.length + 2 ^ 32 - header_size + 1) in
    let copied = if b.capacity == 0 then [] else take len b.memory in
    elim (malloc cap) [
      | none ↦ some none
      | some memory ↦
          if leb (header_size + len + 1) (length memory)
          then some (
              some record {
                ref_count = 0;
                len = len;
                memory = set (put header_size copied memory) (header_size + len) 0;
              })
          else none
    ]

-- `sbuf_zero_fill`
unfoldable pub sbuf_zero_fill : StaticBuffer → StaticBuffer
sbuf_zero_fill b = record b { memory = put header_size (replicate b.len 0) b.memory }
