-- ===== src/Packet/Copy.antt =====
-- One fragment moved to its place: the loop of `packet_fragmentize` that copies downwards.
use zeq_server_trilogy.Common.{
  ℕ, zero, suc, ◌+◌, ◌-◌, ◌^◌, ◌≤◌, ◌<◌, ◌≡◌, refl, ◌∙◌, some, List, length, get_or, set, arith,
  leb, u32, length-set, get_or-set_self, get_or-set_ne, get_elem?-eq-get_or, false, dec_lt, ◌≢◌,
  sym, ap,
}
use zeq_server_trilogy.Packet.{copy_down}

-- `bytes'` is `bytes` with the `k` bytes below `src` moved to those below `src + gap`.
pub record Moved (k src gap : ℕ) (bytes bytes' : List ℕ) : Type 0 where
  pub size : length bytes' ≡ length bytes
  pub below : (q : ℕ) → q + k < src + gap → get_or bytes' q 0 ≡ get_or bytes q 0
  pub above : (q : ℕ) → src + gap ≤ q → get_or bytes' q 0 ≡ get_or bytes q 0
  pub moved :
      (q : ℕ) → q < src + gap → src + gap ≤ q + k → get_or bytes' q 0 ≡ get_or bytes (q - gap) 0

copy_one :
    (k src gap : ℕ) (bytes : List ℕ)
    → src + gap < length bytes
    → copy_down (suc k) (src + gap) src bytes
      ≡ copy_down k
          (u32 (src + gap + 2 ^ 32 - 1))
          (u32 (src + 2 ^ 32 - 1))
          (set bytes (src + gap) (get_or bytes src 0))
unfolding copy_down
copy_one k src gap bytes h =
    let inside : leb (length bytes) (src + gap) ≡ false = ground arith in
    rw (inside, get_elem?-eq-get_or bytes src 0 (omega arith))

copy_step :
    (k src gap : ℕ) (bytes : List ℕ)
    → src + gap < length bytes
    → length bytes < 2 ^ 32
    → copy_down (suc k) (u32 (suc src + gap + 2 ^ 32 - 1)) (u32 (suc src + 2 ^ 32 - 1)) bytes
      ≡ copy_down k
          (u32 (src + gap + 2 ^ 32 - 1))
          (u32 (src + 2 ^ 32 - 1))
          (set bytes (src + gap) (get_or bytes src 0))
copy_step k src gap bytes h hw =
    let to : u32 (suc src + gap + 2 ^ 32 - 1) ≡ src + gap = omega arith in
    let from : u32 (suc src + 2 ^ 32 - 1) ≡ src = omega arith in
    rw (to, from) (copy_one k src gap bytes h)

copy_zero : (dst src : ℕ) (bytes : List ℕ) → copy_down 0 dst src bytes ≡ some bytes
unfolding copy_down
copy_zero dst src bytes = refl

Moved-refl : (src gap : ℕ) (bytes : List ℕ) → Moved 0 src gap bytes bytes
Moved-refl src gap bytes = record {
  size = refl;
  below = λ q h. refl;
  above = λ q h. refl;
  moved = λ q h h'. absurd (omega arith);
}

Moved-suc :
    (k src gap : ℕ) (bytes bytes' : List ℕ)
    → src + gap < length bytes
    → Moved k src gap (set bytes (src + gap) (get_or bytes src 0)) bytes'
    → Moved (suc k) (suc src) gap bytes bytes'
Moved-suc k src gap bytes bytes' h m =
    let v = get_or bytes src 0 in
    let other = λ (q : ℕ) (ne : src + gap ≢ q). get_or-set_ne bytes (src + gap) q v 0 ne in
    record {
      size = m.size ∙ length-set bytes (src + gap) v;
      below = λ q hq. m.below q (omega arith) ∙ other q (omega arith);
      above = λ q hq. m.above q (omega arith) ∙ other q (omega arith);
      moved = λ q hq hq'. elim (dec_lt q (src + gap)) [
        | yes lt ↦ m.moved q lt (omega arith) ∙ other (q - gap) (omega arith)
        | no ge ↦
            let top : q ≡ src + gap = omega arith in
            let from : q - gap ≡ src = omega arith in
            m.above q (omega arith)
            ∙ rw (top) (get_or-set_self bytes (src + gap) v 0 h)
            ∙ ap (λ (i : ℕ). get_or bytes i 0) (sym from)
      ];
    }

-- The copy runs, and moves the bytes.
pub copy_down-Moved :
    (k src gap : ℕ) (bytes : List ℕ)
    → k ≤ src
    → src + gap ≤ length bytes
    → length bytes < 2 ^ 32
    → (bytes' : List ℕ) × (copy_down k (u32 (src + gap + 2 ^ 32 - 1)) (u32 (src + 2 ^ 32 - 1)) bytes
        ≡ some bytes')
      × Moved k src gap bytes bytes'
copy_down-Moved zero src gap bytes hk hl hw = (bytes, copy_zero _ _ bytes, Moved-refl src gap bytes)
copy_down-Moved (suc k) zero gap bytes hk hl hw = absurd (omega arith)
copy_down-Moved (suc k) (suc src) gap bytes hk hl hw =
    let v = get_or bytes src 0 in
    let size = length-set bytes (src + gap) v in
    let (bytes', run, m) =
      copy_down-Moved k src gap (set bytes (src + gap) v) (omega arith) (omega arith)
        (omega arith) in
    (
      bytes',
      copy_step k src gap bytes (omega arith) hw ∙ run,
      Moved-suc k src gap bytes bytes' (omega arith) m,
    )
