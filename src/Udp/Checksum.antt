-- ===== src/Udp/Checksum.antt =====
-- The checksum behind a datagram: its last four bytes, the lowest first.
use zeq_server_trilogy.Common.{
  ℕ, ◌+◌, ◌-◌, ◌*◌, ◌/◌, ◌%◌, ◌^◌, ◌<◌, ◌≡◌, ◌≢◌, ap, ◌∙◌, subst, Bool, true, false, some, List, [],
  ◌∷◌, ◌++◌, length, get_elem?, get_elem?-eq-get_or, ◌==◌, ==_iff, u32, arith, length-append,
  take-length_append,
}
use zeq_server_trilogy.Aligned.{Aligned, init, advance_by, read_uint32, reset_cursor_to, set_length}
use zeq_server_trilogy.Aligned.Put.{little_endian}
use zeq_server_trilogy.Aligned.RoundTrip.{Holds, Holds-right, read_uint32-little_endian}
use zeq_server_trilogy.Ack.Recv.{Env}
use zeq_server_trilogy.Crc.{crc_calc32_network}
use zeq_server_trilogy.Udp.{UdpClient, oob, ok, footer, checked}
use zeq_server_trilogy.Udp.Protocol.{recv_protocol}
use zeq_server_trilogy.Udp.Safe.{lift-ok}

module _ (body : List ℕ) (v : ℕ) (fits : v < 2 ^ 32) where
  -- The body with the number behind it
  abbrev pub framed : List ℕ
  framed = body ++ little_endian 4 v

  pub all-Holds : Holds framed 0 (body ++ little_endian 4 v)
  all-Holds i lt =
      let e : 0 + i ≡ i = omega arith in ap (get_elem? framed) e ∙ get_elem?-eq-get_or framed i 0 lt

  abbrev last : Aligned
  last = record { cursor = 0 + length body + 4; length = length framed; buffer = framed }

  module _ (small : length framed < 2 ^ 32) where
    footer-framed : footer framed (length framed) ≡ ok v last
    unfolding footer init advance_by
    footer-framed =
        let size = length-append body (little_endian 4 v) in
        let e : u32 (0 + u32 (length framed + 2 ^ 32 - 4)) ≡ 0 + length body = omega arith in
        let a : Aligned = record {
          cursor = 0 + length body;
          length = length framed;
          buffer = framed;
        } in
        rw (e) (
          lift-ok read_uint32 a last v (
            read_uint32-little_endian v a fits (omega arith)
              (Holds-right framed 0 body (little_endian 4 v) all-Holds)))

    body_size : u32 (length framed + 2 ^ 32 - 4) ≡ length body
    body_size = omega (arith, length-append body (little_endian 4 v))

    -- The right number is accepted, and the body is left to be read.
    pub checked-right :
        v ≡ crc_calc32_network body
        → checked framed (length framed)
          ≡ ok tt (record { cursor = 0; length = length body; buffer = framed })
    unfolding checked reset_cursor_to set_length
    checked-right same =
        let right : (v == crc_calc32_network body) ≡ true =
          (==_iff v (crc_calc32_network body)).1 same in
        rw (checked, footer-framed, body_size, take-length_append body (little_endian 4 v), right)

    checked-wrong : v ≢ crc_calc32_network body → checked framed (length framed) ≡ oob
    unfolding checked
    checked-wrong other =
        let wrong : (v == crc_calc32_network body) ≡ false = ground arith in
        rw (checked, footer-framed, body_size, take-length_append body (little_endian 4 v), wrong)

refused :
    (env : Env) (junk bytes : List ℕ) (len : ℕ) (suppress : Bool) (c : UdpClient)
    → checked bytes len ≡ oob
    → recv_protocol env junk bytes len suppress c ≡ some (false, c, [])
unfolding recv_protocol
refused env junk bytes len suppress c h = rw (h)

abbrev pub four_bytes : ℕ → ℕ → ℕ → ℕ → ℕ
four_bytes b0 b1 b2 b3 = b0 + 2 ^ 8 * b1 + 2 ^ 16 * b2 + 2 ^ 24 * b3

little_endian-four_bytes :
    (b0 b1 b2 b3 : ℕ)
    → b0 < 256
    → b1 < 256
    → b2 < 256
    → b3 < 256
    → little_endian 4 (four_bytes b0 b1 b2 b3) ≡ b0 ∷ b1 ∷ b2 ∷ b3 ∷ []
little_endian-four_bytes b0 b1 b2 b3 h0 h1 h2 h3 =
    let v = four_bytes b0 b1 b2 b3 in
    let e0 : v % 256 ≡ b0 = omega arith in
    let e1 : v / 256 % 256 ≡ b1 = omega arith in
    let e2 : v / 256 / 256 % 256 ≡ b2 = omega arith in
    let e3 : v / 256 / 256 / 256 % 256 ≡ b3 = omega arith in rw (e0, e1, e2, e3)

-- A datagram of any body and four bytes behind it, shorter than 2^32: if these bytes, the lowest first,
-- are not the checksum of the body, then it is refused, the client stays as it is and nothing goes
-- out; if they are, then it passes, and what is left to be read is the body, from its start.
pub recv_protocol_checksum :
    (env : Env) (junk body : List ℕ) (b0 b1 b2 b3 : ℕ) (suppress : Bool) (c : UdpClient)
    → b0 < 256
    → b1 < 256
    → b2 < 256
    → b3 < 256
    → length body + 4 < 2 ^ 32
    → let bytes = body ++ b0 ∷ b1 ∷ b2 ∷ b3 ∷ [] in
      (four_bytes b0 b1 b2 b3 ≢ crc_calc32_network body
        → recv_protocol env junk bytes (length bytes) suppress c ≡ some (false, c, []))
      × (four_bytes b0 b1 b2 b3 ≡ crc_calc32_network body
          → checked bytes (length bytes)
            ≡ ok tt (record { cursor = 0; length = length body; buffer = bytes }))
recv_protocol_checksum env junk body b0 b1 b2 b3 suppress c h0 h1 h2 h3 small =
    let v = four_bytes b0 b1 b2 b3 in
    let fits : v < 2 ^ 32 = omega arith in
    let tail = little_endian-four_bytes b0 b1 b2 b3 h0 h1 h2 h3 in
    let size : length (framed body v fits) < 2 ^ 32 =
      omega (arith, length-append body (little_endian 4 v)) in
    (
      λ other.
          let wrong = checked-wrong body v fits size other in
          subst
            (λ (l : List ℕ).
              recv_protocol env junk (body ++ l) (length (body ++ l)) suppress c
              ≡ some (false, c, []))
            tail
            (refused env junk (framed body v fits) (length (framed body v fits)) suppress c wrong),
      λ same.
          subst
            (λ (l : List ℕ).
              checked (body ++ l) (length (body ++ l))
              ≡ ok tt (record { cursor = 0; length = length body; buffer = body ++ l }))
            tail (checked-right body v fits size same),
    )
