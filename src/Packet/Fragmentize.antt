-- ===== src/Packet/Fragmentize.antt =====
-- Where `packet_fragmentize` puts every byte of the payload.
use zeq_server_trilogy.Common.{
  ℕ, zero, suc, ◌+◌, ◌-◌, ◌*◌, ◌/◌, ◌%◌, ◌^◌, ◌≤◌, ◌<◌, ◌≡◌, refl, ap, ◌∙◌, sym, some, List, length,
  get_or, arith, u32, ◌==◌, true, false, dec_lt, ◌≢◌, ◌↔◌, ◌⊎◌,
}
use zeq_server_trilogy.Packet.{
  TlgPacket, copy_down, spread, last_fragment, fragmentize, calc_length_and_frag_count,
  buffer_raw_length,
}
use zeq_server_trilogy.Packet.Copy.{Moved, copy_down-Moved}

-- The fragment that the byte at `q` belongs to, when `n` follow the first, the last with `k` bytes
-- below `src` and the others with 512.
abbrev group : ℕ → ℕ → ℕ → ℕ → ℕ
group n k src q = n - (src - k - q + 511) / 512

record Spread (n k src : ℕ) (bytes bytes' : List ℕ) : Type 0 where
  size : length bytes' ≡ length bytes
  above : (q : ℕ) → src + 22 * n ≤ q → get_or bytes' q 0 ≡ get_or bytes q 0
  placed : (q : ℕ) → q < src → get_or bytes' (q + 22 * group n k src q) 0 ≡ get_or bytes q 0

spread_zero : (k dst src : ℕ) (bytes : List ℕ) → spread 0 k dst src bytes ≡ some bytes
unfolding spread
spread_zero k dst src bytes = refl

spread_step :
    (n k src : ℕ) (bytes bytes' : List ℕ)
    → k ≤ 512
    → k ≤ src
    → src + 22 * suc n < 2 ^ 32
    → copy_down k (u32 (src + 22 * suc n + 2 ^ 32 - 1)) (u32 (src + 2 ^ 32 - 1)) bytes ≡ some bytes'
    → spread (suc n) k (u32 (src + 22 * suc n + 2 ^ 32 - 1)) (u32 (src + 2 ^ 32 - 1)) bytes
      ≡ spread n 512 (u32 (src - k + 22 * n + 2 ^ 32 - 1)) (u32 (src - k + 2 ^ 32 - 1)) bytes'
unfolding spread
spread_step n k src bytes bytes' hk hs hw run =
    let to : u32 (u32 (src + 22 * suc n + 2 ^ 32 - 1) + 2 ^ 32 * 2 - k - 22)
        ≡ u32 (src - k + 22 * n + 2 ^ 32 - 1) =
      omega arith in
    let from : u32 (u32 (src + 2 ^ 32 - 1) + 2 ^ 32 - k) ≡ u32 (src - k + 2 ^ 32 - 1) =
      omega arith in
    rw (spread, run, to, from)

Spread-suc :
    (n k src : ℕ) (bytes mid bytes' : List ℕ)
    → k ≤ src
    → Moved k src (22 * suc n) bytes mid
    → Spread n 512 (src - k) mid bytes'
    → Spread (suc n) k src bytes bytes'
Spread-suc n k src bytes mid bytes' hk m s = record {
  size = s.size ∙ m.size;
  above = λ q hq. s.above q (omega arith) ∙ m.above q (omega arith);
  placed = λ q hq. elim (dec_lt q (src - k)) [
    | yes lt ↦
        let same : group (suc n) k src q ≡ group n 512 (src - k) q = omega arith in
        rw (same) (s.placed q lt ∙ m.below q (omega arith))
    | no ge ↦
        let last : group (suc n) k src q ≡ suc n = omega arith in
        let back : q + 22 * suc n - 22 * suc n ≡ q = omega arith in
        rw (last) (
          s.above (q + 22 * suc n) (omega arith)
          ∙ m.moved (q + 22 * suc n) (omega arith) (omega arith)
          ∙ ap (λ (i : ℕ). get_or bytes i 0) back)
  ];
}

spread-Spread :
    (n k src : ℕ) (bytes : List ℕ)
    → k ≤ 512
    → k + 512 * n ≤ src + 512
    → src + 22 * n ≤ length bytes
    → length bytes < 2 ^ 32
    → (bytes' : List ℕ) × (spread n k
          (u32 (src + 22 * n + 2 ^ 32 - 1))
          (u32 (src + 2 ^ 32 - 1))
          bytes
        ≡ some bytes')
      × Spread n k src bytes bytes'
spread-Spread zero k src bytes hk hs hl hw = (
  bytes,
  spread_zero _ _ _ bytes,
  record {
    size = refl;
    above = λ q h. refl;
    placed = λ q h. ap (λ (i : ℕ). get_or bytes i 0) (omega arith);
  },
)
spread-Spread (suc n) k src bytes hk hs hl hw =
    let (mid, one, m) = copy_down-Moved k src (22 * suc n) bytes (omega arith) hl hw in
    let size = m.size in
    let (bytes', rest, s) =
      spread-Spread n 512 (src - k) mid (omega arith) (omega arith) (omega arith) (omega arith) in
    (
      bytes',
      spread_step n k src bytes mid hk (omega arith) (omega arith) one ∙ rest,
      Spread-suc n k src bytes mid bytes' (omega arith) m s,
    )

fragmentize-spread :
    (p : TlgPacket) (bytes : List ℕ)
    → (p.frag_count == 0) ≡ false
    → spread p.frag_count
        (last_fragment p.data_length)
        (u32 (buffer_raw_length p + 2 ^ 32 - 4 - 1))
        (u32 (p.data_length + 18 + 2 ^ 32 - 1))
        p.bytes
      ≡ some bytes
    → fragmentize p ≡ some (record p { is_fragmentized = true; bytes = bytes })
unfolding fragmentize
fragmentize-spread p bytes many run = rw (many, run)

frag_count_lem :
    (n : ℕ)
    → 512 < n
    → n < 512 * 2 ^ 16
    → n % 512 ≢ 0
    → n % 512 < 511
    → ((calc_length_and_frag_count n).1 ≡ (n + 1) / 512)
      × (512 * ((n + 1) / 512) + last_fragment n ≡ n + 2)
unfolding calc_length_and_frag_count last_fragment
frag_count_lem n lo hi r r' = ground arith

last_fragment_le : (n : ℕ) → last_fragment n ≤ 512
unfolding last_fragment
last_fragment_le n = ground arith

group_lem :
    (n k size q : ℕ)
    → k ≤ 512
    → 512 * n + k ≡ size + 2
    → q < size
    → group n k (size + 18) (18 + q) ≡ (q + 2) / 512
group_lem n k size q hk all hq = omega arith

-- A payload of more than 512 bytes (and less than 32 MiB), in a packet with the fragment count and
-- the memory that `packet_create` gives it, whose length does not leave 0 or 511 on division by 512:
-- the spreading succeeds, stays inside the memory and keeps its size, and the byte `q` of the
-- payload is in fragment `(q + 2) / 512` (the first one holds 510), behind one header of 18 bytes
-- and, per fragment before its own, a checksum and a header.
pub fragmentize_lem :
    (p : TlgPacket)
    → 512 < p.data_length
    → p.data_length < 512 * 2 ^ 16
    → p.frag_count ≡ (calc_length_and_frag_count p.data_length).1
    → p.data_length + 22 * (p.frag_count + 1) ≡ length p.bytes
    → p.data_length % 512 ≢ 0
    → p.data_length % 512 < 511
    → (p' : TlgPacket) × (fragmentize p ≡ some p')
      × (p'.is_fragmentized ≡ true)
      × (length p'.bytes ≡ length p.bytes)
      × ((q : ℕ)
          → q < p.data_length
          → get_or p'.bytes (18 + q + 22 * ((q + 2) / 512)) 0 ≡ get_or p.bytes (18 + q) 0)
unfolding buffer_raw_length
fragmentize_lem p lo hi count memory r r' =
    let n = p.frag_count in
    let size = p.data_length in
    let k = last_fragment size in
    let (c, all) = frag_count_lem size lo hi r r' in
    let nc : n ≡ (size + 1) / 512 = count ∙ c in
    let small = last_fragment_le size in
    let (bytes', run, s) =
      spread-Spread n k (size + 18) p.bytes small (omega arith) (omega arith) (omega arith) in
    let several : (n == 0) ≡ false = ground arith in
    let start : u32 (u32 (size + 22 * (n + 1)) + 2 ^ 32 - 4 - 1)
        ≡ u32 (size + 18 + 22 * n + 2 ^ 32 - 1) =
      omega arith in
    (
      record p { is_fragmentized = true; bytes = bytes' },
      fragmentize-spread p bytes' several
          (ap (λ (d : ℕ). spread n k d (u32 (size + 18 + 2 ^ 32 - 1)) p.bytes) start ∙ run),
      refl,
      s.size,
      λ q hq.
          ap (λ (i : ℕ). get_or bytes' (18 + q + 22 * i) 0)
            (sym (group_lem n k size q small (omega arith) hq))
          ∙ s.placed (18 + q) (omega arith),
    )

-- The fragments that `packet_create` counts for a payload of less than 32 MiB, of 510 bytes for the
-- first and 512 for each other, have room for it exactly when its length does not leave 511 on
-- division by 512, and does not leave 0 unless it is 0.
pub fragments_hold_iff :
    (n : ℕ)
    → n < 512 * 2 ^ 16
    → (n ≤ 510 + 512 * (calc_length_and_frag_count n).1)
      ↔ ((n % 512 < 511) × ((n % 512 ≢ 0) ⊎ (n ≡ 0)))
unfolding calc_length_and_frag_count
fragments_hold_iff n h = ground arith
