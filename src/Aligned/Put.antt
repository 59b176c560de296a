-- ===== src/Aligned/Put.antt =====
-- A run of bytes placed in a buffer, and how the writes of a cursor come to it.
use zeq_server_trilogy.Common.{
  bit_and, u8, ℕ, zero, suc, ◌+◌, ◌/◌, ◌%◌, ◌^◌, ◌≤◌, ◌<◌, ◌≡◌, refl, ap, ap₂, ◌∙◌, some, List, [],
  ◌∷◌, get_elem?, set, length, arith, u32, lt→ltb, length-set, get_elem?-set_self, get_elem?-set_ne,
}
use zeq_server_trilogy.Common.Bits.{and_byte, and_low}
use zeq_server_trilogy.Aligned.{
  Aligned, M, store, write_uint8, write_uint16, write_uint32, write_uint64, ◌>>◌,
}

abbrev pub put : ℕ → List ℕ → List ℕ → List ℕ
put c [] buf = buf
put c (b ∷ bs) buf = put (c + 1) bs (set buf c b)

pub length-put : (c : ℕ) (bs buf : List ℕ) → length (put c bs buf) ≡ length buf
length-put c [] buf = refl
length-put c (b ∷ bs) buf = length-put (c + 1) bs (set buf c b) ∙ length-set buf c b

pub get_elem?-put_below :
    (c j : ℕ) (bs buf : List ℕ) → j < c → get_elem? (put c bs buf) j ≡ get_elem? buf j
get_elem?-put_below c j [] buf h = refl
get_elem?-put_below c j (b ∷ bs) buf h =
    get_elem?-put_below (c + 1) j bs (set buf c b) (omega arith)
    ∙ get_elem?-set_ne buf c j b (omega arith)

pub get_elem?-put_above :
    (c j : ℕ) (bs buf : List ℕ) → c + length bs ≤ j → get_elem? (put c bs buf) j ≡ get_elem? buf j
get_elem?-put_above c j [] buf h = refl
get_elem?-put_above c j (b ∷ bs) buf h =
    get_elem?-put_above (c + 1) j bs (set buf c b) (omega arith)
    ∙ get_elem?-set_ne buf c j b (omega arith)

pub get_elem?-put :
    (c i : ℕ) (bs buf : List ℕ)
    → i < length bs
    → c + length bs ≤ length buf
    → get_elem? (put c bs buf) (c + i) ≡ get_elem? bs i
get_elem?-put c i [] buf h f = elim h [ ]
get_elem?-put c zero (b ∷ bs) buf h f =
    ap (get_elem? (put (c + 1) bs (set buf c b))) (omega arith)
    ∙ get_elem?-put_below (c + 1) c bs (set buf c b) (omega arith)
    ∙ get_elem?-set_self buf c b (omega arith)
get_elem?-put c (suc i) (b ∷ bs) buf h f =
    ap (get_elem? (put (c + 1) bs (set buf c b))) (omega arith)
    ∙ get_elem?-put (c + 1) i bs (set buf c b) (omega arith) (omega (arith, length-set buf c b))

-- The `n` low bytes of a word, the lowest first.
abbrev pub little_endian : ℕ → ℕ → List ℕ
little_endian zero v = []
little_endian (suc n) v = v % 256 ∷ little_endian n (v / 256)

abbrev pub written : Aligned → List ℕ → Aligned
written a bs = record a { cursor = a.cursor + length bs; buffer = put a.cursor bs a.buffer }

-- There is room for `n` bytes at the cursor, and the cursor does not wrap.
pub record HasRoom (n : ℕ) (a : Aligned) : Type 0 where
  pub within : a.cursor + n ≤ length a.buffer
  pub small : length a.buffer < 2 ^ 32

-- The stores of one write in a row, from the byte at `c + i` on.
store_all : ℕ → ℕ → ℕ → List ℕ → M (Unit {0})
store_all c i w [] = store (u32 (c + i)) w
store_all c i w (w' ∷ ws) = store (u32 (c + i)) w >> store_all c (i + 1) w' ws

pub store-set :
    (i v : ℕ) (a : Aligned)
    → i < length a.buffer
    → store i v a ≡ some (tt, record a { buffer = set a.buffer i v })
unfolding store
store-set i v a h = rw (lt→ltb i (length a.buffer) h)

store_all-put :
    (c i w : ℕ) (ws : List ℕ) (a : Aligned)
    → c + i + length (w ∷ ws) ≤ length a.buffer
    → length a.buffer < 2 ^ 32
    → store_all c i w ws a ≡ some (tt, record a { buffer = put (c + i) (w ∷ ws) a.buffer })
unfolding store_all
store_all-put c i w [] a h s =
    let e : u32 (c + i) ≡ c + i = omega arith in rw (e, store-set (c + i) w a (omega arith))
store_all-put c i w (w' ∷ ws) a h s =
    let e : u32 (c + i) ≡ c + i = omega arith in
    let e' : c + (i + 1) ≡ c + i + 1 = omega arith in
    let a' = record a { buffer = set a.buffer (c + i) w } in
    rw (e, ◌>>◌, store-set (c + i) w a (omega arith))
      (rw (← e') (
        store_all-put c (i + 1) w' ws a' (omega (arith, length-set a.buffer (c + i) w))
          (omega (arith, length-set a.buffer (c + i) w))))

-- What a write of the bytes `w ∷ ws` at the cursor leaves, in terms of the bytes that are meant.
write-written :
    (n w : ℕ) (ws bs : List ℕ) (a : Aligned)
    → HasRoom n a
    → n ≡ length bs
    → w ∷ ws ≡ bs
    → store_all a.cursor 0 w ws (record a { cursor = u32 (a.cursor + n) }) ≡ some (tt, written a bs)
write-written n w ws bs a r l e =
    let a' = record a { cursor = u32 (a.cursor + n) } in
    let fits : a.cursor + 0 + length (w ∷ ws) ≤ length a.buffer = omega (arith, ap length e) in
    store_all-put a.cursor 0 w ws a' fits r.small
    ∙ ap₂ (λ (k : ℕ) (buf : List ℕ). some (tt, record a { cursor = k; buffer = buf })) (omega arith)
        (ap₂ (λ (k : ℕ) (l : List ℕ). put k l a.buffer) (omega arith) e)

pub write_uint8-written :
    (v : ℕ) (a : Aligned)
    → HasRoom 1 a
    → v < 256
    → write_uint8 v a ≡ some (tt, written a (little_endian 1 v))
unfolding write_uint8
write_uint8-written v a r h =
    store-set a.cursor v (record a { cursor = u32 (a.cursor + 1) }) (omega arith)
    ∙ ap₂ (λ (k b : ℕ). some (tt, record a { cursor = k; buffer = set a.buffer a.cursor b }))
        (omega arith) (omega arith)

pub write_uint16-written :
    (v : ℕ) (a : Aligned)
    → HasRoom 2 a
    → write_uint16 v a ≡ some (tt, written a (little_endian 2 v))
unfolding write_uint16 store_all
write_uint16-written v a r =
    write-written 2 (u8 (bit_and v 0xff)) (u8 (bit_and v 0xff00 / 2 ^ 8) ∷ []) (little_endian 2 v) a
      r refl (ground (arith, and_low 8 v, and_byte 8 v))

pub write_uint32-written :
    (v : ℕ) (a : Aligned)
    → HasRoom 4 a
    → write_uint32 v a ≡ some (tt, written a (little_endian 4 v))
unfolding write_uint32 store_all
write_uint32-written v a r =
    write-written 4 (u8 (bit_and v 0xff))
      (u8 (bit_and v 0xff00 / 2 ^ 8)
        ∷ u8 (bit_and v 0xff0000 / 2 ^ 16)
        ∷ u8 (bit_and v 0xff000000 / 2 ^ 24)
        ∷ [])
      (little_endian 4 v) a r refl
      (ground (arith, and_low 8 v, and_byte 8 v, and_byte 16 v, and_byte 24 v))

pub write_uint64-written :
    (v : ℕ) (a : Aligned)
    → HasRoom 8 a
    → write_uint64 v a ≡ some (tt, written a (little_endian 8 v))
unfolding write_uint64 store_all
write_uint64-written v a r =
    write-written 8 (u8 (bit_and v 0xff))
      (u8 (bit_and v 0xff00 / 2 ^ 8)
        ∷ u8 (bit_and v 0xff0000 / 2 ^ 16)
        ∷ u8 (bit_and v 0xff000000 / 2 ^ 24)
        ∷ u8 (bit_and v 0xff00000000 / 2 ^ 32)
        ∷ u8 (bit_and v 0xff0000000000 / 2 ^ 40)
        ∷ u8 (bit_and v 0xff000000000000 / 2 ^ 48)
        ∷ u8 (bit_and v 0xff00000000000000 / 2 ^ 56)
        ∷ [])
      (little_endian 8 v) a r refl
      (ground (
        arith,
        and_low 8 v,
        and_byte 8 v,
        and_byte 16 v,
        and_byte 24 v,
        and_byte 32 v,
        and_byte 40 v,
        and_byte 48 v,
        and_byte 56 v,
      ))
