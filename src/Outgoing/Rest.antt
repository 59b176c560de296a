-- ===== src/Outgoing/Rest.antt =====
-- What is left of a datagram while it is read
use zeq_server_trilogy.Common.{
  ℕ, ◌+◌, ◌^◌, ◌≤◌, ◌<◌, ◌≡◌, refl, ap, false, ltb, some, List, ◌++◌, length, arith, u32,
  length-append,
}
use zeq_server_trilogy.Aligned.{Aligned, advance_by, read_uint16, remaining_data}
use zeq_server_trilogy.Aligned.Put.{little_endian}
use zeq_server_trilogy.Aligned.RoundTrip.{Holds, Holds-left, Holds-right, read_uint16-little_endian}
use zeq_server_trilogy.Crc.{crc_calc32_network, crc_calc32}
use zeq_server_trilogy.Udp.{ok, need, checked}
use zeq_server_trilogy.Udp.Checksum.{all-Holds, checked-right}
use zeq_server_trilogy.Udp.Protocol.{payload}
use zeq_server_trilogy.Outgoing.Datagram.{window}

-- The bytes from the cursor to the end are `bs`.
pub record Rest (a : Aligned) (bs : List ℕ) : Type 0 where
  pub holds : Holds a.buffer a.cursor bs
  pub end : a.cursor + length bs ≡ a.length
  pub small : a.length + 4 < 2 ^ 32

abbrev pub past : ℕ → Aligned → Aligned
past n a = record a { cursor = a.cursor + n }

pub Rest-past : (a : Aligned) (bs cs : List ℕ) → Rest a (bs ++ cs) → Rest (past (length bs) a) cs
Rest-past a bs cs r = record {
  holds = Holds-right a.buffer a.cursor bs cs r.holds;
  end = omega (arith, r.end, length-append bs cs);
  small = r.small;
}

pub remaining-Rest : (a : Aligned) (bs : List ℕ) → Rest a bs → remaining_data a ≡ length bs
unfolding remaining_data
remaining-Rest a bs r = omega (arith, r.end, r.small)

pub payload-Rest : (a : Aligned) (bs : List ℕ) → Rest a bs → payload a ≡ bs
unfolding payload
payload-Rest a bs r = rw (remaining-Rest a bs r) (window a.cursor a.buffer bs r.holds)

pub need-Rest : (n : ℕ) (a : Aligned) (bs : List ℕ) → Rest a bs → n ≤ length bs → need n a ≡ ok tt a
unfolding need
need-Rest n a bs r le =
    let e : ltb (remaining_data a) n ≡ false = ground (arith, remaining-Rest a bs r) in rw (e)

pub read-Rest :
    (v : ℕ) (a : Aligned) (cs : List ℕ)
    → Rest a (little_endian 2 v ++ cs)
    → v < 2 ^ 16
    → read_uint16 a ≡ some (v, past 2 a)
read-Rest v a cs r fits =
    read_uint16-little_endian v a fits
      (omega (arith, r.end, r.small, length-append (little_endian 2 v) cs))
      (Holds-left a.buffer a.cursor (little_endian 2 v) cs r.holds)

pub advance-Rest :
    (a : Aligned) (bs cs : List ℕ)
    → Rest a (bs ++ cs)
    → advance_by (length bs) a ≡ some (a.cursor, past (length bs) a)
unfolding advance_by
advance-Rest a bs cs r =
    let e : u32 (a.cursor + length bs) ≡ a.cursor + length bs =
      omega (arith, r.end, r.small, length-append bs cs) in
    ap (λ (k : ℕ). some (a.cursor, record a { cursor = k })) e

-- A datagram with the checksum of its body is accepted.
module _ (body : List ℕ) where
  abbrev crc : ℕ
  crc = crc_calc32_network body

  abbrev pub with_crc : List ℕ
  with_crc = body ++ little_endian 4 crc

  abbrev pub opened : Aligned
  opened = record { cursor = 0; length = length body; buffer = with_crc }

  crc_small : crc < 2 ^ 32
  unfolding crc_calc32_network crc_calc32
  crc_small = omega arith

  pub opened-Rest : length with_crc < 2 ^ 32 → Rest opened body
  opened-Rest small = record {
    holds = Holds-left with_crc 0 body (little_endian 4 crc) (all-Holds body crc crc_small);
    end = omega arith;
    small = omega (arith, length-append body (little_endian 4 crc));
  }

  pub checked-with_crc :
      length with_crc < 2 ^ 32 → checked with_crc (length with_crc) ≡ ok tt opened
  checked-with_crc small = checked-right body crc crc_small small refl
