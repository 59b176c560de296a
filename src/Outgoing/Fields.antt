-- ===== src/Outgoing/Fields.antt =====
-- The fields of a datagram that `ack_send_fragment` writes, as `udpc_recv_protocol` reads them
use zeq_server_trilogy.Common.{
  ℕ, ◌^◌, ◌≤◌, ◌<◌, ◌≡◌, ◌∙◌, true, false, ltb, ◌==◌, leb, List, ◌++◌, length, arith, length-append,
}
use zeq_server_trilogy.Aligned.{Aligned, advance_by, read_uint16, remaining_data}
use zeq_server_trilogy.Ack.{to_host_uint16}
use zeq_server_trilogy.Udp.{
  P, ◌>>=◌, ok, pure, lift, has_bit, has_ack_request, is_fragment, ack_request_field,
  fragment_fields, opcode_field, skip_field,
}
use zeq_server_trilogy.Udp.Protocol.{header_field}
use zeq_server_trilogy.Udp.Safe.{lift-ok, lift-then, need-enough}
use zeq_server_trilogy.Outgoing.Header.{word}
use zeq_server_trilogy.Outgoing.Rest.{
  Rest, Rest-past, past, read-Rest, advance-Rest, remaining-Rest,
}

enough :
    (n : ℕ) (a : Aligned) (bs : List ℕ)
    → Rest a bs
    → n ≤ length bs
    → ltb (remaining_data a) n ≡ false
enough n a bs r le = ground (arith, remaining-Rest a bs r)

pub header_field-Rest :
    (h s : ℕ) (a : Aligned) (cs : List ℕ)
    → Rest a (word h ++ (word s ++ cs))
    → h < 2 ^ 16
    → header_field a ≡ ok h (past 2 (past 2 a))
unfolding header_field
header_field-Rest h s a cs r fits =
    lift-then read_uint16 _ a (past 2 a) h (read-Rest h a (word s ++ cs) r fits)
    ∙ lift-then (advance_by 2) (λ _. pure h) (past 2 a) (past 2 (past 2 a)) _
        (advance-Rest (past 2 a) (word s) cs (Rest-past a (word h) (word s ++ cs) r))

pub ack_request_field-Rest :
    (h v : ℕ) (a : Aligned) (cs : List ℕ)
    → has_bit h has_ack_request ≡ true
    → Rest a (word v ++ cs)
    → v < 2 ^ 16
    → ack_request_field h a ≡ ok (to_host_uint16 v) (past 2 a)
unfolding ack_request_field
ack_request_field-Rest h v a cs bit r fits = rw (bit) (
    need-enough 2 _ a (enough 2 a (word v ++ cs) r (omega (arith, length-append (word v) cs)))
    ∙ lift-then read_uint16 _ a (past 2 a) v (read-Rest v a cs r fits))

pub skip_field-Rest :
    (h bit : ℕ) (a : Aligned) (bs cs : List ℕ)
    → has_bit h bit ≡ true
    → Rest a (bs ++ cs)
    → skip_field h bit (length bs) a ≡ ok tt (past (length bs) a)
unfolding skip_field
skip_field-Rest h bit a bs cs set r = rw (set) (
    need-enough (length bs) _ a
      (enough (length bs) a (bs ++ cs) r (omega (arith, length-append bs cs)))
    ∙ lift-then (advance_by (length bs)) (λ _. pure tt) a (past (length bs) a) a.cursor
        (advance-Rest a bs cs r))

pub fragment_fields-Rest :
    (h g i n : ℕ) (a : Aligned) (cs : List ℕ)
    → has_bit h is_fragment ≡ true
    → Rest a (word g ++ (word i ++ (word n ++ cs)))
    → i < 2 ^ 16
    → n < 2 ^ 16
    → fragment_fields h a ≡ ok (to_host_uint16 i, to_host_uint16 n) (past 2 (past 2 (past 2 a)))
unfolding fragment_fields
fragment_fields-Rest h g i n a cs bit r fits_i fits_n =
    let a1 = past 2 a in
    let a2 = past 2 a1 in
    let value : ℕ → ℕ → P (ℕ × ℕ) =
      λ index count. pure (to_host_uint16 index, to_host_uint16 count) in
    let r1 = Rest-past a (word g) (word i ++ (word n ++ cs)) r in
    let r2 = Rest-past a1 (word i) (word n ++ cs) r1 in
    rw (bit) (
      need-enough 6 _ a (enough 6 a (word g ++ (word i ++ (word n ++ cs))) r (omega arith))
      ∙ lift-then (advance_by 2)
          (λ _. lift read_uint16 >>= λ index. lift read_uint16 >>= value index) a a1 a.cursor
          (advance-Rest a (word g) (word i ++ (word n ++ cs)) r)
      ∙ lift-then read_uint16 (λ index. lift read_uint16 >>= value index) a1 a2 i
          (read-Rest i a1 (word n ++ cs) r1 fits_i)
      ∙ lift-then read_uint16 (value i) a2 (past 2 a2) n (read-Rest n a2 cs r2 fits_n))

pub fragment_fields-none :
    (h : ℕ) (a : Aligned) → has_bit h is_fragment ≡ false → fragment_fields h a ≡ ok (0, 0) a
unfolding fragment_fields
fragment_fields-none h a bit = rw (bit)

pub opcode_field-Rest :
    (v : ℕ) (a : Aligned) (cs : List ℕ)
    → Rest a (word v ++ cs)
    → v < 2 ^ 16
    → opcode_field 0 a ≡ ok v (past 2 a)
unfolding opcode_field
opcode_field-Rest v a cs r fits =
    let e : leb 2 (remaining_data a) ≡ true = ground (arith, remaining-Rest a (word v ++ cs) r) in
    rw (e) (lift-ok read_uint16 a (past 2 a) v (read-Rest v a cs r fits))

pub opcode_field-none :
    (index : ℕ) (a : Aligned) → (index == 0) ≡ false → opcode_field index a ≡ ok 0 a
unfolding opcode_field
opcode_field-none index a h = rw (h)
