-- ===== src/Buffer/Appended.antt =====
-- What a buffer holds after appends
use mathlib.Core.List.{append-nil, append_assoc}
use zeq_server_trilogy.Common.{
  ℕ, ◌+◌, ◌-◌, ◌^◌, ◌≤◌, ◌<◌, ◌≡◌, refl, ap, ◌∙◌, sym, subst, inl, inr, Bool, true, false, Option,
  none, some, List, [], ◌∷◌, ◌++◌, length, take, replicate, resize, get_elem?, ltb, leb, arith, u32,
  length-append, length-resize, length-take, get_elem?-eq-get_or, Bool-cases, lt_of_get_elem?,
  if◌then◌else◌, lt_of_get_elem?,
}
use zeq_server_trilogy.Common.Places.{get_elem?-append_left, get_elem?-take}
use zeq_server_trilogy.Bit.{pow2_greater_or_equal_u32}
use zeq_server_trilogy.Bit.Powers.{pow2_greater_or_equal_lem}
use zeq_server_trilogy.Aligned.Put.{put, length-put, get_elem?-put, get_elem?-put_below}
use zeq_server_trilogy.Aligned.RoundTrip.{Holds, Holds-append}
use zeq_server_trilogy.Buffer.{
  init, StaticBuffer, convert_to_sbuf, DynamicBuffer, header_size, realloc, write_at_end, append,
}

-- Behind the header stands `bs`, up to `length`.
pub record Contains (b : DynamicBuffer) (bs : List ℕ) : Type 0 where
  pub holds : Holds b.memory header_size bs
  pub end : header_size + length bs ≡ b.length
  pub size : length b.memory ≡ b.capacity
  pub small : length b.memory < 2 ^ 32

-- Growing keeps what is there.
get_elem?-resize :
    (junk n j : ℕ) (xs : List ℕ)
    → j < n
    → j < length xs
    → length xs ≤ n
    → get_elem? (resize junk n xs) j ≡ get_elem? xs j
get_elem?-resize junk n j xs lt inside fits =
    get_elem?-append_left (take n xs) (replicate (n - length xs) junk) j
      (omega (arith, length-take n xs))
    ∙ get_elem?-take n j xs lt

write_at_end-Contains :
    (b : DynamicBuffer) (bs text : List ℕ)
    → Contains b bs
    → b.length + length text + 1 ≤ length b.memory
    → (b' : DynamicBuffer) × (write_at_end b text ≡ some b') × Contains b' (bs ++ (text ++ 0 ∷ []))
unfolding write_at_end
write_at_end-Contains b bs text c fits =
    let small = c.small in
    let new = text ++ 0 ∷ [] in
    let long : length new ≡ length text + 1 = length-append text (0 ∷ []) in
    let e : leb (b.length + length text + 1) (length b.memory) ≡ true = ground arith in
    let at : header_size + length bs ≡ b.length = c.end in
    let b' : DynamicBuffer = record b {
      length = u32 (b.length + length text + 1);
      memory = put b.length new b.memory;
    } in
    (
      b',
      rw (write_at_end, e),
      record {
        holds =
            Holds-append (put b.length new b.memory) header_size bs new
              (λ i lt.
                get_elem?-put_below b.length (header_size + i) new b.memory (omega arith)
                ∙ c.holds i lt)
              (λ i lt.
                let f : header_size + length bs + i ≡ b.length + i = omega arith in
                ap (get_elem? (put b.length new b.memory)) f
                ∙ get_elem?-put b.length i new b.memory lt (omega arith)
                ∙ get_elem?-eq-get_or new i 0 lt);
        end = omega (arith, length-append bs new);
        size = length-put b.length new b.memory ∙ c.size;
        small = omega (arith, length-put b.length new b.memory);
      },
    )

append-step :
    (ok : Bool) (junk : ℕ) (b b1 b2 : DynamicBuffer) (text : List ℕ)
    → (if ltb b.capacity (u32 (b.length + length text + 1))
        then realloc ok junk b (u32 (b.length + length text + 1))
        else some b)
      ≡ some b1
    → write_at_end b1 text ≡ some b2
    → append ok junk b text ≡ some (b2, true)
unfolding append
append-step ok junk b b1 b2 text grown wrote = rw (append, grown, wrote)

realloc-Contains :
    (junk total : ℕ) (b : DynamicBuffer) (bs : List ℕ)
    → Contains b bs
    → b.capacity < total
    → b.length ≤ total
    → total ≤ 2 ^ 31
    → (b' : DynamicBuffer) × (realloc true junk b total ≡ some b')
      × Contains b' bs
      × (b'.length ≡ b.length)
      × (total ≤ length b'.memory)
unfolding realloc
realloc-Contains junk total b bs c more fits small =
    let cap = pow2_greater_or_equal_u32 total in
    let (p, lo, hi) = pow2_greater_or_equal_lem total (omega arith) small in
    let size = length-resize junk cap b.memory in
    let at = c.end in
    (
      record b { capacity = cap; memory = resize junk cap b.memory },
      refl,
      record {
        holds = λ i lt.
            get_elem?-resize junk cap (header_size + i) b.memory (omega arith)
              (lt_of_get_elem? b.memory (header_size + i) (c.holds i lt)) (omega (arith, c.size))
            ∙ c.holds i lt;
        end = c.end;
        size = size;
        small = omega arith;
      },
      refl,
      omega arith,
    )

append-Contains :
    (junk : ℕ) (b : DynamicBuffer) (bs text : List ℕ)
    → Contains b bs
    → b.length + length text + 1 ≤ 2 ^ 31
    → (b' : DynamicBuffer) × (append true junk b text ≡ some (b', true))
      × Contains b' (bs ++ (text ++ 0 ∷ []))
append-Contains junk b bs text c small =
    let total : u32 (b.length + length text + 1) ≡ b.length + length text + 1 = omega arith in
    elim (Bool-cases (ltb b.capacity (u32 (b.length + length text + 1)))) [
      | inl more ↦
          let (b1, run, c1, same, room) =
            realloc-Contains junk (u32 (b.length + length text + 1)) b bs c (ground (arith, more))
              (omega arith) (omega arith) in
          let (b2, wrote, c2) = write_at_end-Contains b1 bs text c1 (omega arith) in
          (b2, append-step true junk b b1 b2 text (rw (more) run) wrote, c2)
      | inr enough ↦
          let room : b.length + length text + 1 ≤ b.capacity = ground (arith, enough, total) in
          let (b2, wrote, c2) = write_at_end-Contains b bs text c (omega (arith, c.size)) in
          (b2, append-step true junk b b b2 text (rw (enough)) wrote, c2)
    ]

-- Texts appended one after the other, and what they are with their terminators
abbrev pub append_all : ℕ → DynamicBuffer → List (List ℕ) → Option DynamicBuffer
append_all junk b [] = some b
append_all junk b (t ∷ ts) = elim (append true junk b t) [
  | none ↦ none
  | some (b', _) ↦ append_all junk b' ts
]

abbrev pub terminated : List (List ℕ) → List ℕ
terminated [] = []
terminated (t ∷ ts) = (t ++ 0 ∷ []) ++ terminated ts

append_all-step :
    (junk : ℕ) (b b' : DynamicBuffer) (t : List ℕ) (ts : List (List ℕ))
    → append true junk b t ≡ some (b', true)
    → append_all junk b (t ∷ ts) ≡ append_all junk b' ts
append_all-step junk b b' t ts run = rw (append_all, run)

append_all-Contains :
    (junk : ℕ) (ts : List (List ℕ)) (b : DynamicBuffer) (bs : List ℕ)
    → Contains b bs
    → b.length + length (terminated ts) ≤ 2 ^ 31
    → (b' : DynamicBuffer) × (append_all junk b ts ≡ some b') × Contains b' (bs ++ terminated ts)
append_all-Contains junk [] b bs c small = (b, refl, subst (Contains b) (sym (append-nil bs)) c)
append_all-Contains junk (t ∷ ts) b bs c small =
    let new = t ++ 0 ∷ [] in
    let long = length-append t (0 ∷ []) in
    let both = length-append new (terminated ts) in
    let (b1, run, c1) = append-Contains junk b bs t c (omega arith) in
    let (b2, rest, c2) =
      append_all-Contains junk ts b1 (bs ++ new) c1
        (omega (arith, c1.end, c.end, length-append bs new)) in
    (
      b2,
      append_all-step junk b b1 t ts run ∙ rest,
      subst (Contains b2) (append_assoc bs new (terminated ts)) c2,
    )

init-Contains : Contains init []
init-Contains = record {
  holds = λ i lt. elim lt [ ];
  end = omega arith;
  size = refl;
  small = omega arith;
}

-- At least one text, less than 2^31 bytes in all, and memory to be had: all are appended, and the static
-- buffer that takes the memory over has, behind its header, the texts in order, each with its
-- terminator, and counts every terminator in its length; the growing buffer is empty again.
pub append_all-convert_to_sbuf :
    (junk : ℕ) (t : List ℕ) (ts : List (List ℕ))
    → header_size + length (terminated (t ∷ ts)) ≤ 2 ^ 31
    → (b : DynamicBuffer) × (s : StaticBuffer) × (append_all junk init (t ∷ ts) ≡ some b)
      × (convert_to_sbuf b ≡ some (s, init))
      × (s.len ≡ length (terminated (t ∷ ts)))
      × Holds s.memory header_size (terminated (t ∷ ts))
unfolding convert_to_sbuf
append_all-convert_to_sbuf junk t ts small =
    let bs = terminated (t ∷ ts) in
    let (b, run, c) = append_all-Contains junk (t ∷ ts) init [] init-Contains small in
    let there = lt_of_get_elem? b.memory (header_size + 0) (
      c.holds 0
        (omega (arith, length-append (t ++ 0 ∷ []) (terminated ts), length-append t (0 ∷ [])))) in
    let e : ltb (length b.memory) header_size ≡ false = ground arith in
    (
      b,
      record { ref_count = 0; len = u32 (b.length + 2 ^ 32 - header_size); memory = b.memory },
      run,
      rw (convert_to_sbuf, e),
      omega (arith, c.end),
      c.holds,
    )
