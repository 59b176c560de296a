-- ===== src/Outgoing/Chunks.antt =====
-- A payload cut up as `ack_send_queued_packets` sends it, and where `packet_fragmentize` puts it
use zeq_server_trilogy.Common.{
  ℕ, zero, suc, ◌+◌, ◌-◌, ◌*◌, ◌/◌, ◌^◌, ◌≤◌, ◌<◌, ◌≡◌, refl, ap, ◌∙◌, sym, subst, some, List, [],
  ◌∷◌, ◌++◌, get_elem?, get_or, length, take, drop, arith, u32, false, ◌==◌, length-take,
  length-drop, take-append-drop, get_elem?-eq-get_or, min,
}
use zeq_server_trilogy.Aligned.RoundTrip.{Holds}
use zeq_server_trilogy.Packet.{header_size}
use zeq_server_trilogy.Outgoing.Fragments.{space, share, Laid, Shared, room}

-- Where fragment `index` begins in the payload: the first has two bytes less.
abbrev pub start : ℕ → ℕ
start index = 512 * index - 2

abbrev pub chunk : List ℕ → ℕ → List ℕ
chunk bs index = take (space index) (drop (start index) bs)

abbrev pub chunks : List ℕ → ℕ → ℕ → List (List ℕ)
chunks bs zero index = []
chunks bs (suc n) index = chunk bs index ∷ chunks bs n (index + 1)

abbrev pub joined : List (List ℕ) → List ℕ
joined [] = []
joined (x ∷ xs) = x ++ joined xs

-- Every byte of the payload is behind the headers and checksums of the fragments before its own.
abbrev pub Placed : List ℕ → List ℕ → Type 0
Placed buf bs =
    (q : ℕ) → q < length bs → get_or buf (header_size + q + 22 * ((q + 2) / 512)) 0 ≡ get_or bs q 0

space_lem : (index : ℕ) → start index + space index ≡ start (index + 1)
space_lem zero = omega arith
space_lem (suc i) = let e : (suc i == 0) ≡ false = ground arith in rw (e) (omega arith)

length-chunk :
    (bs : List ℕ) (index : ℕ)
    → length (chunk bs index) ≡ min (space index) (length bs - start index)
length-chunk bs index =
    length-take (space index) (drop (start index) bs)
    ∙ ap (min (space index)) (length-drop (start index) bs)

min-share : (index n : ℕ) → min (space index) n ≡ share index n
min-share index n = ground arith

drop-nil : (n : ℕ) → drop {A = ℕ} n [] ≡ []
drop-nil zero = refl
drop-nil (suc n) = refl

drop-drop : (k n m : ℕ) (bs : List ℕ) → m ≡ n + k → drop k (drop n bs) ≡ drop m bs
drop-drop k zero m bs e = ap (λ (j : ℕ). drop j bs) (omega arith)
drop-drop k (suc n) m [] e = drop-nil k ∙ sym (drop-nil m)
drop-drop k (suc n) zero (b ∷ bs) e = absurd (omega arith)
drop-drop k (suc n) (suc m) (b ∷ bs) e = drop-drop k n m bs (omega arith)

drop-all : (n : ℕ) (bs : List ℕ) → length bs ≤ n → drop n bs ≡ []
drop-all zero [] h = refl
drop-all zero (b ∷ bs) h = absurd (omega arith)
drop-all (suc n) [] h = refl
drop-all (suc n) (b ∷ bs) h = drop-all n bs (omega arith)

pub get_or-drop : (n i j : ℕ) (bs : List ℕ) → j ≡ n + i → get_or (drop n bs) i 0 ≡ get_or bs j 0
get_or-drop zero i j bs e = ap (λ (k : ℕ). get_or bs k 0) (omega arith)
get_or-drop (suc n) i j [] e = refl
get_or-drop (suc n) i zero (b ∷ bs) e = absurd (omega arith)
get_or-drop (suc n) i (suc j) (b ∷ bs) e = get_or-drop n i j bs (omega arith)

pub get_or-take : (n i : ℕ) (bs : List ℕ) → i < n → get_or (take n bs) i 0 ≡ get_or bs i 0
get_or-take zero i bs h = absurd (omega arith)
get_or-take (suc n) i [] h = refl
get_or-take (suc n) zero (b ∷ bs) h = refl
get_or-take (suc n) (suc i) (b ∷ bs) h = get_or-take n i bs (omega arith)

pub joined-chunks :
    (bs : List ℕ) (n index : ℕ)
    → length bs ≤ start (index + n)
    → joined (chunks bs n index) ≡ drop (start index) bs
joined-chunks bs zero index h = sym (drop-all (start index) bs (omega arith))
joined-chunks bs (suc n) index h =
    let e = space_lem index in
    ap (λ (l : List ℕ). chunk bs index ++ l)
      (joined-chunks bs n (index + 1) (omega arith)
        ∙ sym (drop-drop (space index) (start index) (start (index + 1)) bs (sym e)))
    ∙ take-append-drop (space index) (drop (start index) bs)

pub room-chunks :
    (bs : List ℕ) (n index : ℕ) → room (chunks bs n index) ≤ 22 * n + (length bs - start index)
room-chunks bs zero index = omega arith
room-chunks bs (suc n) index =
    let e = space_lem index in
    let size = length-chunk bs index in omega (arith, room-chunks bs n (index + 1))

pub Shared-chunks :
    (bs : List ℕ) (n index : ℕ)
    → length bs < 2 ^ 32
    → (0 < n → 512 * (index + n - 1) < length bs + 2)
    → Shared index (length bs - start index) (chunks bs n index)
Shared-chunks bs zero index small full = tt
Shared-chunks bs (suc zero) index small full =
    (length-chunk bs index ∙ min-share index (length bs - start index), tt)
Shared-chunks bs (suc (suc n)) index small full =
    let e = space_lem index in
    let more = full (omega arith) in
    let left : u32 (length bs - start index + 2 ^ 32 - space index)
        ≡ length bs - start (index + 1) =
      omega arith in
    (
      length-chunk bs index ∙ min-share index (length bs - start index),
      subst (λ (k : ℕ). Shared (index + 1) k (chunks bs (suc n) (index + 1))) (sym left)
          (Shared-chunks bs (suc n) (index + 1) small (λ _. omega arith)),
    )

chunk-Holds :
    (buf bs : List ℕ) (index : ℕ)
    → Placed buf bs
    → length bs + 22 * (index + 1) ≤ length buf
    → Holds buf (start index + 22 * index + header_size) (chunk bs index)
chunk-Holds buf bs index placed within j lt =
    let e = space_lem index in
    let size = length-chunk bs index in
    let q = start index + j in
    let group : (q + 2) / 512 ≡ index = ground arith in
    let at : start index + 22 * index + header_size + j ≡ header_size + q + 22 * ((q + 2) / 512) =
      omega arith in
    ap (get_elem? buf) at
    ∙ get_elem?-eq-get_or buf (header_size + q + 22 * ((q + 2) / 512)) 0 (omega arith)
    ∙ ap some (
        placed q (omega arith)
        ∙ sym (
            get_or-take (space index) j (drop (start index) bs) (omega arith)
            ∙ get_or-drop (start index) j q bs refl))

pub Laid-chunks :
    (buf bs : List ℕ) (n index : ℕ)
    → Placed buf bs
    → (0 < n → 512 * (index + n - 1) < length bs + 2)
    → length bs + 22 * (index + n) ≤ length buf
    → Laid buf (start index + 22 * index) (chunks bs n index)
Laid-chunks buf bs zero index placed full within = tt
Laid-chunks buf bs (suc zero) index placed full within =
    (chunk-Holds buf bs index placed (omega arith), tt)
Laid-chunks buf bs (suc (suc n)) index placed full within =
    let e = space_lem index in
    let size = length-chunk bs index in
    let more = full (omega arith) in
    let next : start index + 22 * index + header_size + length (chunk bs index) + 4
        ≡ start (index + 1) + 22 * (index + 1) =
      omega arith in
    (
      chunk-Holds buf bs index placed (omega arith),
      subst (λ (k : ℕ). Laid buf k (chunks bs (suc n) (index + 1))) (sym next)
          (Laid-chunks buf bs (suc n) (index + 1) placed (λ _. omega arith) (omega arith)),
    )

pub length-chunks : (bs : List ℕ) (n index : ℕ) → length (chunks bs n index) ≡ n
length-chunks bs zero index = refl
length-chunks bs (suc n) index = ap suc (length-chunks bs n (index + 1))
