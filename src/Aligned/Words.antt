-- ===== src/Aligned/Words.antt =====
-- A record of words of mixed widths, written in a row and read back in a row.
use zeq_server_trilogy.Common.{
  ℕ, zero, suc, ◌+◌, ◌/◌, ◌^◌, ◌≤◌, ◌<◌, ◌≡◌, ◌⊎◌, inl, inr, refl, ap, ap₂, ◌∙◌, Option, some, List,
  [], ◌∷◌, ◌++◌, get_elem?, length, arith, length-append, get_elem?-eq-get_or, set,
}
use zeq_server_trilogy.Aligned.{
  Aligned, M, reset_cursor_to, read_uint8, read_uint16, read_uint32, read_uint64, write_uint8,
  write_uint16, write_uint32, write_uint64, ◌>>=◌, ◌>>◌, return,
}
use zeq_server_trilogy.Aligned.Put.{
  put, written, little_endian, HasRoom, length-put, get_elem?-put, get_elem?-put_below,
  get_elem?-put_above, write_uint8-written, write_uint16-written, write_uint32-written,
  write_uint64-written,
}
use zeq_server_trilogy.Aligned.RoundTrip.{
  Holds, Holds-left, Holds-right, read_uint8-little_endian, read_uint16-little_endian,
  read_uint32-little_endian, read_uint64-little_endian,
}

pub data Width : Type 0 where
  one two four eight : Width

abbrev pub size : Width → ℕ
size one = 1
size two = 2
size four = 4
size eight = 8

abbrev pub write_word : Width → ℕ → M (Unit {0})
write_word one v = write_uint8 v
write_word two v = write_uint16 v
write_word four v = write_uint32 v
write_word eight v = write_uint64 v

abbrev pub read_word : Width → M ℕ
read_word one = read_uint8
read_word two = read_uint16
read_word four = read_uint32
read_word eight = read_uint64

abbrev pub Fits : Width → ℕ → Type 0
Fits one v = v < 2 ^ 8
Fits two v = v < 2 ^ 16
Fits four v = v < 2 ^ 32
Fits eight v = v < 2 ^ 64

-- The words of a packet, each with its width.
abbrev pub Words : Type 0
Words = List (Width × ℕ)

abbrev pub AllFit : Words → Type 0
AllFit [] = Unit
AllFit ((w, v) ∷ ws) = Fits w v × AllFit ws

abbrev pub total : Words → ℕ
total [] = 0
total ((w, v) ∷ ws) = size w + total ws

abbrev pub write_words : Words → M (Unit {0})
write_words [] = return tt
write_words ((w, v) ∷ ws) = write_word w v >> write_words ws

abbrev pub read_words : Words → M (List ℕ)
read_words [] = return []
read_words ((w, v) ∷ ws) = read_word w >>= λ x. read_words ws >>= λ xs. return (x ∷ xs)

abbrev pub values : Words → List ℕ
values [] = []
values ((w, v) ∷ ws) = v ∷ values ws

bytes_of : Words → List ℕ
bytes_of [] = []
bytes_of ((w, v) ∷ ws) = little_endian (size w) v ++ bytes_of ws

length-little_endian : (n v : ℕ) → length (little_endian n v) ≡ n
length-little_endian zero v = refl
length-little_endian (suc n) v = ap suc (length-little_endian n (v / 256))

length-bytes_of : (ws : Words) → length (bytes_of ws) ≡ total ws
unfolding bytes_of
length-bytes_of [] = refl
length-bytes_of ((w, v) ∷ ws) = omega (
  arith,
  length-append (little_endian (size w) v) (bytes_of ws),
  length-little_endian (size w) v,
  length-bytes_of ws,
)

put-append :
    (c : ℕ) (bs cs buf : List ℕ) → put (c + length bs) cs (put c bs buf) ≡ put c (bs ++ cs) buf
put-append c [] cs buf = ap (λ (k : ℕ). put k cs buf) (omega arith)
put-append c (b ∷ bs) cs buf =
    ap (λ (k : ℕ). put k cs (put (c + 1) bs (set buf c b))) (omega arith)
    ∙ put-append (c + 1) bs cs (set buf c b)

write_word-written :
    (w : Width) (v : ℕ) (a : Aligned)
    → Fits w v
    → HasRoom (size w) a
    → write_word w v a ≡ some (tt, written a (little_endian (size w) v))
write_word-written one v a f r = write_uint8-written v a r f
write_word-written two v a f r = write_uint16-written v a r
write_word-written four v a f r = write_uint32-written v a r
write_word-written eight v a f r = write_uint64-written v a r

write_words-written :
    (ws : Words) (a : Aligned)
    → AllFit ws
    → HasRoom (total ws) a
    → write_words ws a ≡ some (tt, written a (bytes_of ws))
unfolding bytes_of
write_words-written [] a f r = ap (λ (k : ℕ). some (tt, record a { cursor = k })) (omega arith)
write_words-written ((w, v) ∷ ws) a f r =
    let bs = little_endian (size w) v in
    let len = length-little_endian (size w) v in
    let a' = written a bs in
    let same = length-put a.cursor bs a.buffer in
    rw (◌>>◌, write_word-written w v a f.0 (omega arith))
      (write_words-written ws a' f.1 (omega arith) ∙ joined a bs (bytes_of ws))
  where
    joined :
        (a : Aligned) (bs cs : List ℕ)
        → ◌≡◌ {A = Option ((Unit {0}) × Aligned)}
            (some (tt, written (written a bs) cs))
            (some (tt, written a (bs ++ cs)))
    joined a bs cs =
        ap₂ (λ (k : ℕ) (buf : List ℕ). some (tt, record a { cursor = k; buffer = buf }))
          (omega (arith, length-append bs cs)) (put-append a.cursor bs cs a.buffer)

read_word-Holds :
    (w : Width) (v : ℕ) (a : Aligned)
    → Fits w v
    → a.cursor + size w < 2 ^ 32
    → Holds a.buffer a.cursor (little_endian (size w) v)
    → read_word w a ≡ some (v, record a { cursor = a.cursor + size w })
read_word-Holds one v a f s h = read_uint8-little_endian v a f s h
read_word-Holds two v a f s h = read_uint16-little_endian v a f s h
read_word-Holds four v a f s h = read_uint32-little_endian v a f s h
read_word-Holds eight v a f s h = read_uint64-little_endian v a f s h

read_words-Holds :
    (ws : Words) (a : Aligned)
    → AllFit ws
    → a.cursor + total ws < 2 ^ 32
    → Holds a.buffer a.cursor (bytes_of ws)
    → read_words ws a ≡ some (values ws, record a { cursor = a.cursor + total ws })
unfolding bytes_of
read_words-Holds [] a f s h = ap (λ (k : ℕ). some ([], record a { cursor = k })) (omega arith)
read_words-Holds ((w, v) ∷ ws) a f s h =
    let bs = little_endian (size w) v in
    let a' = record a { cursor = a.cursor + size w } in
    let rest = Holds-right a.buffer a.cursor bs (bytes_of ws) h in
    let rest' : Holds a.buffer (a.cursor + size w) (bytes_of ws) =
      rw (length-little_endian (size w) v) at rest in
    rw
      (
        ◌>>=◌,
        read_word-Holds w v a f.0 (omega arith) (Holds-left a.buffer a.cursor bs (bytes_of ws) h),
        read_words-Holds ws a' f.1 (omega arith) rest',
      )
      (ap (λ (k : ℕ). some (v ∷ values ws, record a { cursor = k })) (omega arith))

-- For every record of words, each within its width, and every cursor with room for them: the
-- writes succeed; a read of the same widths from where the writes started returns the written
-- values and ends behind them; and no byte before or behind the written range has changed.
pub read_words-write_words :
    (ws : Words) (a : Aligned)
    → AllFit ws
    → HasRoom (total ws) a
    → a.cursor + total ws < 2 ^ 32
    → (a' : Aligned) × (write_words ws a ≡ some (tt, a'))
      × (read_words ws (reset_cursor_to a.cursor a') ≡ some (values ws, a'))
      × ((j : ℕ)
          → (j < a.cursor) ⊎ (a.cursor + total ws ≤ j)
          → get_elem? a'.buffer j ≡ get_elem? a.buffer j)
unfolding reset_cursor_to
read_words-write_words ws a f r s =
    let bs = bytes_of ws in
    let len = length-bytes_of ws in
    (
      written a bs,
      write_words-written ws a f r,
      read_words-Holds ws (record a { buffer = put a.cursor bs a.buffer }) f s
            (λ i lt.
              get_elem?-put a.cursor i bs a.buffer lt (omega arith) ∙ get_elem?-eq-get_or bs i 0 lt)
          ∙ ap
              (λ (k : ℕ).
                some (values ws, record a { cursor = k; buffer = put a.cursor bs a.buffer }))
              (omega arith),
      λ j h. elim h [
        | inl before ↦ get_elem?-put_below a.cursor j bs a.buffer before
        | inr behind ↦ get_elem?-put_above a.cursor j bs a.buffer (omega arith)
      ],
    )
