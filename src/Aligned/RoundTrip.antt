-- ===== src/Aligned/RoundTrip.antt =====
-- What a write puts into the buffer, a read of the same width gets back.
use zeq_server_trilogy.Common.{
  dec_lt, get_or-append, sym, ◌-◌, zero, suc, refl, [], ◌∷◌, ◌++◌, length-append, ℕ, ◌+◌, ◌*◌, ◌/◌,
  ◌%◌, ◌^◌, ◌<◌, ◌≡◌, ap, ap₂, ◌∙◌, Option, some, List, get_elem?, get_or, length, arith, u32,
  bit_or,
}
use zeq_server_trilogy.Common.Bits.{or_low}
use zeq_server_trilogy.Aligned.{
  Aligned, M, load, read_uint8, read_uint16, read_uint32, read_uint64, ◌>>=◌,
}
use zeq_server_trilogy.Aligned.Put.{little_endian}

-- The buffer holds `bs` from `c` on.
abbrev pub Holds : List ℕ → ℕ → List ℕ → Type 0
Holds buf c bs = (i : ℕ) → i < length bs → get_elem? buf (c + i) ≡ some (get_or bs i 0)

get_or-append_left :
    (bs cs : List ℕ) (i : ℕ) → i < length bs → get_or (bs ++ cs) i 0 ≡ get_or bs i 0
get_or-append_left [] cs i h = elim h [ ]
get_or-append_left (b ∷ bs) cs zero h = refl
get_or-append_left (b ∷ bs) cs (suc i) h = get_or-append_left bs cs i (omega arith)

pub get_or-append_right :
    (bs cs : List ℕ) (i j : ℕ) → j ≡ length bs + i → get_or (bs ++ cs) j 0 ≡ get_or cs i 0
get_or-append_right [] cs i j e = ap (λ (k : ℕ). get_or cs k 0) (omega arith)
get_or-append_right (b ∷ bs) cs i zero e = absurd (omega arith)
get_or-append_right (b ∷ bs) cs i (suc j) e = get_or-append_right bs cs i j (omega arith)

module _ (buf : List ℕ) (c : ℕ) (bs cs : List ℕ) (h : Holds buf c (bs ++ cs)) where
  pub Holds-left : Holds buf c bs
  Holds-left i lt =
      h i (omega (arith, length-append bs cs)) ∙ ap some (get_or-append_left bs cs i lt)

  pub Holds-right : Holds buf (c + length bs) cs
  Holds-right i lt =
      let e : c + length bs + i ≡ c + (length bs + i) = omega arith in
      ap (get_elem? buf) e
      ∙ h (length bs + i) (omega (arith, length-append bs cs))
      ∙ ap some (get_or-append_right bs cs i (length bs + i) refl)

pub Holds-append :
    (buf : List ℕ) (c : ℕ) (bs cs : List ℕ)
    → Holds buf c bs
    → Holds buf (c + length bs) cs
    → Holds buf c (bs ++ cs)
Holds-append buf c bs cs left right i lt = elim (dec_lt i (length bs)) [
  | yes low ↦ left i low ∙ ap some (sym (get_or-append bs cs i 0 low))
  | no high ↦
      let k = i - length bs in
      let e : c + i ≡ c + length bs + k = omega arith in
      ap (get_elem? buf) e
      ∙ right k (omega (arith, length-append bs cs))
      ∙ ap some (sym (get_or-append_right bs cs k i (omega arith)))
]

load-then :
    {B : Type 0} (c i : ℕ) (bs : List ℕ) (a : Aligned) (f : ℕ → M B)
    → Holds a.buffer c bs
    → i < length bs
    → c + i < 2 ^ 32
    → (load (u32 (c + i)) >>= f) a ≡ f (get_or bs i 0) a
unfolding load
load-then c i bs a f h lt s =
    let e : u32 (c + i) ≡ c + i = omega arith in rw (e, ◌>>=◌, load, h i lt)

-- The value of bytes in little-endian order, as the reads put it together.
join2 : (v : ℕ) → v < 2 ^ 16 → bit_or (v % 256) (v / 256 % 256 * 2 ^ 8) ≡ v
join2 v h = omega (arith, or_low 8 (v % 256) (v / 256 % 256) (omega arith))

join4 :
    (v : ℕ)
    → bit_or
        (bit_or (bit_or (v % 256) (v / 256 % 256 * 2 ^ 8)) (v / 256 / 256 % 256 * 2 ^ 16))
        (v / 256 / 256 / 256 % 256 * 2 ^ 24)
      ≡ v % 2 ^ 32
join4 v = ground (
  arith,
  or_low 8 (v % 256) (v / 256 % 256),
  or_low 16 (v % 2 ^ 16) (v / 256 / 256 % 256),
  or_low 24 (v % 2 ^ 24) (v / 256 / 256 / 256 % 256),
)

join8 :
    (v : ℕ)
    → v < 2 ^ 64
    → let w = v / 256 / 256 / 256 / 256 in
      bit_or
        (bit_or
          (bit_or (bit_or (v % 2 ^ 32) (w % 256 * 2 ^ 32)) (w / 256 % 256 * 2 ^ 40))
          (w / 256 / 256 % 256 * 2 ^ 48))
        (w / 256 / 256 / 256 % 256 * 2 ^ 56)
      ≡ v
join8 v h = ground (
  arith,
  or_low 32 (v % 2 ^ 32) (v / 256 / 256 / 256 / 256 % 256),
  or_low 40 (v % 2 ^ 40) (v / 256 / 256 / 256 / 256 / 256 % 256),
  or_low 48 (v % 2 ^ 48) (v / 256 / 256 / 256 / 256 / 256 / 256 % 256),
  or_low 56 (v % 2 ^ 56) (v / 256 / 256 / 256 / 256 / 256 / 256 / 256 % 256),
)

module _ (v : ℕ) (a : Aligned) where
  abbrev result : ℕ → ℕ → Option (ℕ × Aligned)
  result x k = some (x, record a { cursor = k })

  pub read_uint8-little_endian :
      v < 2 ^ 8
      → a.cursor + 1 < 2 ^ 32
      → Holds a.buffer a.cursor (little_endian 1 v)
      → read_uint8 a ≡ some (v, record a { cursor = a.cursor + 1 })
  unfolding read_uint8 load
  read_uint8-little_endian fits s h =
      let e : get_elem? a.buffer a.cursor ≡ some (v % 256) =
        ap (get_elem? a.buffer) (omega arith) ∙ h 0 (omega arith) in
      rw (e, load) (ap₂ result (omega arith) (omega arith))

  pub read_uint16-little_endian :
      v < 2 ^ 16
      → a.cursor + 2 < 2 ^ 32
      → Holds a.buffer a.cursor (little_endian 2 v)
      → read_uint16 a ≡ some (v, record a { cursor = a.cursor + 2 })
  unfolding read_uint16
  read_uint16-little_endian fits s h =
      let a' = record a { cursor = u32 (a.cursor + 2) } in
      let bs = little_endian 2 v in
      load-then a.cursor 0 bs a' _ h (omega arith) (omega arith)
      ∙ load-then a.cursor 1 bs a' _ h (omega arith) (omega arith)
      ∙ ap₂ result (omega (arith, join2 v)) (omega arith)

  pub read_uint32-little_endian :
      v < 2 ^ 32
      → a.cursor + 4 < 2 ^ 32
      → Holds a.buffer a.cursor (little_endian 4 v)
      → read_uint32 a ≡ some (v, record a { cursor = a.cursor + 4 })
  unfolding read_uint32
  read_uint32-little_endian fits s h =
      let a' = record a { cursor = u32 (a.cursor + 4) } in
      let bs = little_endian 4 v in
      load-then a.cursor 0 bs a' _ h (omega arith) (omega arith)
      ∙ load-then a.cursor 1 bs a' _ h (omega arith) (omega arith)
      ∙ load-then a.cursor 2 bs a' _ h (omega arith) (omega arith)
      ∙ load-then a.cursor 3 bs a' _ h (omega arith) (omega arith)
      ∙ ap₂ result (omega (arith, join4 v)) (omega arith)

  pub read_uint64-little_endian :
      v < 2 ^ 64
      → a.cursor + 8 < 2 ^ 32
      → Holds a.buffer a.cursor (little_endian 8 v)
      → read_uint64 a ≡ some (v, record a { cursor = a.cursor + 8 })
  unfolding read_uint64
  read_uint64-little_endian fits s h =
      let a' = record a { cursor = u32 (a.cursor + 8) } in
      let bs = little_endian 8 v in
      load-then a.cursor 0 bs a' _ h (omega arith) (omega arith)
      ∙ load-then a.cursor 1 bs a' _ h (omega arith) (omega arith)
      ∙ load-then a.cursor 2 bs a' _ h (omega arith) (omega arith)
      ∙ load-then a.cursor 3 bs a' _ h (omega arith) (omega arith)
      ∙ load-then a.cursor 4 bs a' _ h (omega arith) (omega arith)
      ∙ load-then a.cursor 5 bs a' _ h (omega arith) (omega arith)
      ∙ load-then a.cursor 6 bs a' _ h (omega arith) (omega arith)
      ∙ load-then a.cursor 7 bs a' _ h (omega arith) (omega arith)
      ∙ ap₂ result (rw (join4 v) (join8 v fits)) (omega arith)
