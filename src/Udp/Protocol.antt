-- ===== src/Udp/Protocol.antt =====
-- `udpc_recv_protocol` of src/udp_client.c: the parts of a datagram in order, with what each does to
-- the client.
use zeq_server_trilogy.Common.{
  ℕ, Bool, true, false, Option, none, some, List, [], ◌∷◌, map, take, drop, ◌==◌, not,
  if◌then◌else◌,
}
use zeq_server_trilogy.Aligned.{Aligned, advance_by, read_uint16, remaining_data}
use zeq_server_trilogy.Ack.{to_host_uint16}
use zeq_server_trilogy.Ack.Send.{AckMgr, recv_ack_response}
use zeq_server_trilogy.Packet.{TlgPacket}
use zeq_server_trilogy.Ack.Recv.{Env, recv_sync, recv_packet, deliver}
use zeq_server_trilogy.Udp.{
  UdpClient, Event, sent, delivered, Parse, fault, oob, ok, P, ◌>>=◌, pure, lift, has_bit, send_ack,
  skip_unknown, ack_request_field, fragment_fields, counter_field, opcode_field, checked,
  has_ack_response, is_first_packet,
}

-- The value returned, the client, and what has gone out. `none` is a fault.
abbrev pub Result : Type 0
Result = Option (Bool × UdpClient × List Event)

abbrev pub on : {A : Type 0} → Parse A → Result → (A → Aligned → Result) → Result
on p refused k = elim p [ fault ↦ none | oob ↦ refused | ok x a ↦ k x a ]

abbrev pub returns : Bool → UdpClient → List Event → Result
returns b c out = some (b, c, out)

unfoldable pub header_field : P ℕ
unfolding read_uint16 advance_by
header_field = lift read_uint16 >>= λ header. lift (advance_by 2) >>= λ _. pure header

unfoldable pub first_fields : ℕ → P ℕ
unfolding skip_unknown ack_request_field
first_fields header = skip_unknown header >>= λ _. ack_request_field header

-- `fragCount` and `opcode`
unfoldable pub last_fields : ℕ → P (ℕ × ℕ)
unfolding fragment_fields counter_field opcode_field
last_fields header = fragment_fields header >>= λ f.
    counter_field header >>= λ _. opcode_field (f.0) >>= λ opcode. pure (f.1, opcode)

-- The bytes that are left
unfoldable pub payload : Aligned → List ℕ
unfolding remaining_data
payload a = take (remaining_data a) (drop a.cursor a.buffer)

-- The end of the function: the packet goes to the acknowledgement layer, or straight on.
unfoldable pub dispatch : Env → Bool → UdpClient → ℕ → ℕ → ℕ → Aligned → Result
unfolding payload
dispatch env suppress c ack_request frag_count opcode a =
    if suppress
    then returns true c []
    else if not (ack_request == 0)
    then elim (recv_packet env c.ack_mgr.to_server opcode ack_request frag_count (payload a)) [
      | none ↦ none
      | some (s, out) ↦
          returns true (record c { ack_mgr = record (c.ack_mgr) { to_server = s } })
            (map delivered out)
    ]
    else if not (opcode == 0)
    then returns true c (map delivered (deliver env opcode (payload a)))
    else returns true c []

-- Behind the acknowledgement request: closing, or the rest of the header
unfoldable pub after_request : Env → List ℕ → Bool → ℕ → ℕ → UdpClient → Aligned → Result
unfolding last_fields dispatch send_ack
after_request env junk suppress header ack_request c a =
    if has_bit header 0x44
    then elim (send_ack junk c (to_host_uint16 ack_request)) [
      | none ↦ none
      | some (bytes, c') ↦ returns false c' (sent bytes ∷ [])
    ]
    else on (last_fields header a) (returns false c [])
        (λ f a'. dispatch env suppress c ack_request (f.0) (f.1) a')

-- `ack_recv_sync` for the first packet
unfoldable pub synchronized : ℕ → ℕ → UdpClient → UdpClient
synchronized header ack_request c =
    if has_bit header 0x0002
    then if has_bit header is_first_packet
      then record c {
        ack_mgr = record (c.ack_mgr) { to_server = recv_sync ack_request c.ack_mgr.to_server };
      }
      else c
    else c

unfoldable pub after_response : Env → List ℕ → Bool → ℕ → UdpClient → Aligned → Result
unfolding first_fields after_request synchronized
after_response env junk suppress header c a =
    on (first_fields header a) (returns false c []) (λ ack_request a'.
      after_request env junk suppress header ack_request (synchronized header ack_request c) a')

abbrev pub with_mgr : UdpClient → Option (AckMgr × List TlgPacket) → Option UdpClient
with_mgr c none = none
with_mgr c (some r) = some (record c { ack_mgr = r.0 })

abbrev pub acknowledged : ℕ → UdpClient → Option UdpClient
acknowledged ack c = with_mgr c (recv_ack_response ack c.ack_mgr)

abbrev pub for_client : Option UdpClient → (UdpClient → Result) → Result
for_client none k = none
for_client (some c) k = k c

-- The acknowledgement response, which can be a fault; a datagram with nothing else is done.
unfoldable pub after_header : Env → List ℕ → Bool → ℕ → UdpClient → Aligned → Result
unfolding after_response remaining_data
after_header env junk suppress header c a =
    if has_bit header has_ack_response
    then on (lift read_uint16 a) none (λ ack a'. for_client (acknowledged ack c) (λ c'.
      if remaining_data a' == 0
      then returns true c' []
      else after_response env junk suppress header c' a'))
    else after_response env junk suppress header c a

unfoldable pub recv_protocol : Env → List ℕ → List ℕ → ℕ → Bool → UdpClient → Result
unfolding checked header_field after_header
recv_protocol env junk bytes len suppress c =
    on (checked bytes len) (returns false c [])
      (λ _ a. on (header_field a) none (λ header a'. after_header env junk suppress header c a'))
