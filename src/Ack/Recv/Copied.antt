-- ===== src/Ack/Recv/Copied.antt =====
-- The fragments of a packet, and what they leave in the buffer that `ack_complete_fragments` allocates
use zeq_server_trilogy.Common.{
  ℕ, zero, suc, ◌+◌, ◌-◌, ◌≤◌, ◌<◌, ◌≡◌, refl, ap, ◌∙◌, Option, none, some, List, [], ◌∷◌, ◌++◌,
  length, get_elem?, take, arith, ltb, false, true, length-append, sym,
}
use zeq_server_trilogy.Ack.{ServerPacket}
use zeq_server_trilogy.Ack.Recv.{Env, copied}

-- The allocator and the queue to the server have room.
abbrev pub works : Env
works = record { queue_ok = true; data_ok = true; frags_ok = true; junk = λ _. 0; push_ok = true }

-- Fragment `k` of `n` with numbers from `first` on: the opcode is in the first of them.
abbrev pub opcode_of : ℕ → ℕ → ℕ
opcode_of opcode zero = opcode
opcode_of opcode (suc k) = 0

abbrev pub fragment : ℕ → ℕ → ℕ → (ℕ → List ℕ) → ℕ → ServerPacket
fragment first n opcode piece k = record {
  ack_request = first + k;
  frag_count = n;
  opcode = opcode_of opcode k;
  length = length (piece k);
  payload = piece k;
}

abbrev pub whole : (ℕ → List ℕ) → ℕ → ℕ → List ℕ
whole piece k zero = []
whole piece k (suc n) = piece k ++ whole piece (k + 1) n

pub length-whole :
    (piece : ℕ → List ℕ) (n k : ℕ)
    → length (whole piece k (suc n)) ≡ length (whole piece k n) + length (piece (k + n))
length-whole piece zero k =
    let e : k ≡ k + 0 = omega arith in
    length-append (piece k) [] ∙ ap (λ (i : ℕ). length (piece i) + 0) e ∙ omega arith
length-whole piece (suc n) k =
    let e : k + 1 + n ≡ k + suc n = omega arith in
    let same = ap (λ (i : ℕ). length (piece i)) e in
    omega (
      arith,
      length-append (piece k) (whole piece (k + 1) (suc n)),
      length-append (piece k) (whole piece (k + 1) n),
      length-whole piece n (k + 1),
      same,
    )

pub length-whole-le :
    (piece : ℕ → List ℕ) (n m : ℕ) → length (whole piece 0 n) ≤ length (whole piece 0 (m + n))
length-whole-le piece n zero =
    let e : n ≡ 0 + n = omega arith in
    let same = ap (λ (k : ℕ). length (whole piece 0 k)) e in omega (arith, same)
length-whole-le piece n (suc m) =
    let e : suc (m + n) ≡ suc m + n = omega arith in
    let same = ap (λ (k : ℕ). length (whole piece 0 k)) e in
    omega (arith, length-whole piece (m + n) 0, length-whole-le piece n m, same)

take-whole : (xs : List ℕ) → take (length xs) xs ≡ xs
take-whole [] = refl
take-whole (x ∷ xs) = ap (λ (ys : List ℕ). x ∷ ys) (take-whole xs)

copied-step :
    (room : ℕ) (p : ServerPacket) (ps : List ServerPacket) (bytes : List ℕ)
    → p.length ≡ length p.payload
    → p.length ≤ room
    → copied (room - p.length) ps ≡ some bytes
    → copied room (p ∷ ps) ≡ some (p.payload ++ bytes)
unfolding copied
copied-step room p ps bytes e fits rest =
    let here : ltb room p.length ≡ false = ground arith in
    let there : ltb (length p.payload) p.length ≡ false = ground arith in
    rw (copied, here, there, rest)
      (ap (λ (xs : List ℕ). some (xs ++ bytes))
        (ap (λ (k : ℕ). take k p.payload) e ∙ take-whole p.payload))

abbrev head_or : ServerPacket → Option ServerPacket → ServerPacket
head_or d none = d
head_or d (some p) = p

-- A buffer of the size of all the fragments holds them.
pub copied-whole :
    (first n opcode : ℕ) (piece : ℕ → List ℕ) (m k room : ℕ) (q : List ServerPacket)
    → ((j : ℕ) → j < m → get_elem? q j ≡ some (fragment first n opcode piece (k + j)))
    → room ≡ length (whole piece k m)
    → copied room (take m q) ≡ some (whole piece k m)
unfolding copied
copied-whole first n opcode piece zero k room q h e = refl
copied-whole first n opcode piece (suc m) k room [] h e = cc (h 0 (omega arith))
copied-whole first n opcode piece (suc m) k room (p ∷ q) h e =
    let f = fragment first n opcode piece in
    let here : k + 0 ≡ k = omega arith in
    let head : p ≡ f k = ap (head_or p) (h 0 (omega arith) ∙ ap (λ (j : ℕ). some (f j)) here) in
    let size : p.length ≡ length (piece k) = ap (λ (p : ServerPacket). p.length) head in
    let held : p.payload ≡ piece k = ap (λ (p : ServerPacket). p.payload) head in
    let next : (j : ℕ) → j < m → get_elem? q j ≡ some (f (k + 1 + j)) = λ j lt.
      let e : k + suc j ≡ k + 1 + j = omega arith in
      h (suc j) (omega arith) ∙ ap (λ (i : ℕ). some (f i)) e in
    let total = length-append (piece k) (whole piece (k + 1) m) in
    copied-step room p (take m q) (whole piece (k + 1) m)
      (size ∙ ap (λ (xs : List ℕ). length xs) (sym held)) (omega (arith, size, total, e))
      (copied-whole first n opcode piece m (k + 1) (room - p.length) q next
        (omega (arith, size, total, e)))
    ∙ ap (λ (xs : List ℕ). some (xs ++ whole piece (k + 1) m)) held
