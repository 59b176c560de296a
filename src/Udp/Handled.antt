-- ===== src/Udp/Handled.antt =====
-- The handler of a datagram, from the checksum to its end.
use zeq_server_trilogy.Common.{
  ℕ, ◌+◌, ◌^◌, ◌≤◌, ◌<◌, ◌≡◌, ◌≢◌, inl, inr, refl, ap, ◌∙◌, Option, true, false, none, some, List,
  [], ◌∷◌, length, take, ◌==◌, arith, Bool-cases,
}
use zeq_server_trilogy.Aligned.{
  Aligned, init, advance_by, read_uint16, remaining_data, write_uint32, ◌>>◌,
}
use zeq_server_trilogy.Aligned.Put.{
  written, little_endian, HasRoom, length-put, write_uint16-written, write_uint32-written,
}
use zeq_server_trilogy.Ack.{to_host_uint16}
use zeq_server_trilogy.Ack.Send.{AckMgr, get_next_seq_to_send_and_increment}
use zeq_server_trilogy.Ack.Send.Safe.{recv_ack_response-some}
use zeq_server_trilogy.Packet.{TlgPacket}
use zeq_server_trilogy.Ack.Recv.{Env}
use zeq_server_trilogy.Crc.{crc_calc32_network}
use zeq_server_trilogy.Udp.{
  UdpClient, sent, ok, P, ◌>>=◌, pure, lift, has_bit, send_ack, has_ack_response, ack_front,
}
use zeq_server_trilogy.Udp.Safe.{
  Room, Room-zero, Room-plus, read_uint16-Room, advance_by-Room, lift-ok, lift-then,
}
use zeq_server_trilogy.Udp.Total.{
  checked-cases, Holds, Holds-on, Holds-returns, first_fields-Good, last_fields-Good,
}
use zeq_server_trilogy.Udp.Protocol.{
  returns, header_field, first_fields, last_fields, dispatch, after_request, synchronized,
  after_response, after_header, recv_protocol, with_mgr, acknowledged,
}

written-HasRoom :
    (n k : ℕ) (a : Aligned) (bs : List ℕ)
    → HasRoom (n + k) a
    → length bs ≡ n
    → HasRoom k (written a bs)
written-HasRoom n k a bs r e =
    let size = length-put a.cursor bs a.buffer in
    let within = r.within in
    let small = r.small in record { within = omega arith; small = omega arith }

ack_front-some :
    (v2 v3 : ℕ) (a : Aligned)
    → HasRoom 10 a
    → (a' : Aligned) × (ack_front v2 v3 a ≡ some (tt, a')) × HasRoom 4 a'
unfolding ack_front
ack_front-some v2 v3 a r =
    let v1 = has_ack_response in
    let a1 = written a (little_endian 2 v1) in
    let a2 = written a1 (little_endian 2 v2) in
    let a3 = written a2 (little_endian 2 v3) in
    let within = r.within in
    let r0 : HasRoom 2 a = record { within = omega arith; small = r.small } in
    let r1 : HasRoom 8 a1 = written-HasRoom 2 8 a (little_endian 2 v1) r refl in
    let r2 : HasRoom 6 a2 = written-HasRoom 2 6 a1 (little_endian 2 v2) r1 refl in
    let r3 : HasRoom 4 a3 = written-HasRoom 2 4 a2 (little_endian 2 v3) r2 refl in
    let within1 = r1.within in
    let within2 = r2.within in
    (
      a3,
      rw (
        ◌>>◌,
        write_uint16-written v1 a r0,
        write_uint16-written v2 a1 (record { within = omega arith; small = r1.small }),
        write_uint16-written v3 a2 (record { within = omega arith; small = r2.small }),
      ),
      r3,
    )

init-HasRoom : (junk : List ℕ) → 10 ≤ length junk → length junk < 2 ^ 32 → HasRoom 10 (init junk 10)
unfolding init
init-HasRoom junk h small = record { within = h; small = small }

send_ack-front :
    (junk : List ℕ) (c : UdpClient) (ack : ℕ) (a a' : Aligned)
    → let (seq, t) = get_next_seq_to_send_and_increment c.ack_mgr.to_client in
      ack_front (to_host_uint16 seq) ack (init junk 10) ≡ some (tt, a)
      → write_uint32 (crc_calc32_network (take 6 a.buffer)) a ≡ some (tt, a')
      → send_ack junk c ack
        ≡ some (
          a'.buffer,
          record c {
            ack_mgr = record (c.ack_mgr) {
              to_client = (get_next_seq_to_send_and_increment c.ack_mgr.to_client).1;
            };
          },
        )
unfolding send_ack
send_ack-front junk c ack a a' front footer = rw (send_ack, front, footer)

send_ack-some :
    (junk : List ℕ) (c : UdpClient) (ack : ℕ)
    → 10 ≤ length junk
    → length junk < 2 ^ 32
    → (r : List ℕ × UdpClient) × (send_ack junk c ack ≡ some r)
send_ack-some junk c ack h small =
    let seq = (get_next_seq_to_send_and_increment c.ack_mgr.to_client).0 in
    let (a, front, r) =
      ack_front-some (to_host_uint16 seq) ack (init junk 10) (init-HasRoom junk h small) in
    let v = crc_calc32_network (take 6 a.buffer) in
    (
      _,
      send_ack-front junk c ack a (written a (little_endian 4 v)) front
          (write_uint32-written v a r),
    )

-- The header and the sequence number take four bytes.
header_field-Room :
    (a : Aligned)
    → Room 6 a
    → (header : ℕ) × (a' : Aligned) × (header_field a ≡ ok header a') × Room 2 a'
unfolding header_field
header_field-Room a r =
    let done : ℕ → ℕ → P ℕ = λ header x. pure header in
    let (header, read, r1) = read_uint16-Room 4 a r in
    let a1 = record a { cursor = a.cursor + 2 } in
    let (step, r2) = advance_by-Room 2 2 a1 r1 in
    (
      header,
      record a1 { cursor = a1.cursor + 2 },
      lift-then read_uint16 (λ h. lift (advance_by 2) >>= done h) a a1 header read
          ∙ lift-then (advance_by 2) (done header) a1 (record a1 { cursor = a1.cursor + 2 })
              a1.cursor step,
      r2,
    )

after_request-Holds :
    (env : Env) (junk : List ℕ) (header ack : ℕ) (c : UdpClient) (a : Aligned)
    → 10 ≤ length junk
    → length junk < 2 ^ 32
    → Room 0 a
    → Holds (after_request env junk true header ack c a)
unfolding after_request dispatch
after_request-Holds env junk header ack c a h small r = elim (Bool-cases (has_bit header 0x44)) [
  | inl closing ↦
      let (x, run) = send_ack-some junk c (to_host_uint16 ack) h small in
      rw (closing, run) (Holds-returns false x.1 (sent x.0 ∷ []))
  | inr open_ ↦ rw (open_) (
      Holds-on (last_fields header a) (returns false c []) _ (last_fields-Good header a r)
        (Holds-returns false c []) (λ f a' r'. Holds-returns true c []))
]

after_response-Holds :
    (env : Env) (junk : List ℕ) (header : ℕ) (c : UdpClient) (a : Aligned)
    → 10 ≤ length junk
    → length junk < 2 ^ 32
    → Room 0 a
    → Holds (after_response env junk true header c a)
unfolding after_response
after_response-Holds env junk header c a h small r =
    Holds-on (first_fields header a) (returns false c []) _ (first_fields-Good header a r)
      (Holds-returns false c [])
      (λ ack a' r'.
        after_request-Holds env junk header ack (synchronized header ack c) a' h small r')

acknowledged-some :
    (ack : ℕ) (c : UdpClient)
    → c.ack_mgr.to_client.count ≤ length c.ack_mgr.to_client.queue
    → (c' : UdpClient) × (acknowledged ack c ≡ some c')
acknowledged-some ack c h =
    let (r, run) = recv_ack_response-some ack c.ack_mgr h in
    (_, ap (λ (o : Option (AckMgr × List TlgPacket)). with_mgr c o) run)

after_header-Holds :
    (env : Env) (junk : List ℕ) (header : ℕ) (c : UdpClient) (a : Aligned)
    → 10 ≤ length junk
    → length junk < 2 ^ 32
    → c.ack_mgr.to_client.count ≤ length c.ack_mgr.to_client.queue
    → Room 2 a
    → Holds (after_header env junk true header c a)
unfolding after_header
after_header-Holds env junk header c a h small queued r =
    elim (Bool-cases (has_bit header has_ack_response)) [
      | inl answered ↦
          let (ack, read, r1) = read_uint16-Room 0 a (Room-plus 2 a r) in
          let a1 = record a { cursor = a.cursor + 2 } in
          let (c1, run) = acknowledged-some ack c queued in
          rw (answered, lift-ok read_uint16 a a1 ack read, run)
            (elim (Bool-cases (remaining_data a1 == 0)) [
              | inl done ↦ rw (done) (Holds-returns true c1 [])
              | inr more ↦ rw (more) (after_response-Holds env junk header c1 a1 h small r1)
            ])
      | inr plain ↦ rw (plain) (after_response-Holds env junk header c a h small (Room-zero 2 a r))
    ]

-- Whatever the bytes of a datagram of at least ten bytes, and whatever the state of the client, as long
-- as the memory of its queue holds the packets it counts: with delivery suppressed, its handler
-- returns, and reads only those bytes and that memory, and builds its answer only inside the ten
-- bytes for it.
pub recv_protocol-ne-none :
    (env : Env) (junk bytes : List ℕ) (len : ℕ) (c : UdpClient)
    → 10 ≤ len
    → len ≤ length bytes
    → length bytes < 2 ^ 32
    → 10 ≤ length junk
    → length junk < 2 ^ 32
    → c.ack_mgr.to_client.count ≤ length c.ack_mgr.to_client.queue
    → recv_protocol env junk bytes len true c ≢ none
unfolding recv_protocol
recv_protocol-ne-none env junk bytes len c lo hi small h h' queued =
    elim (checked-cases bytes len lo hi small) [
      | inl wrong ↦ rw (wrong) (Holds-returns false c [])
      | inr (a, right, room) ↦
          let (header, a', read, r) = header_field-Room a room in
          rw (right, read) (after_header-Holds env junk header c a' h h' queued r)
    ]
