-- ===== src/Outgoing/Delivered.antt =====
-- Where the payload of a datagram of `ack_send_fragment` goes
use zeq_server_trilogy.Common.{
  ℕ, ◌^◌, ◌<◌, ◌≡◌, ◌≢◌, refl, ap, ◌∙◌, Bool, true, false, ◌==◌, if◌then◌else◌, Option, none, some,
  List, ◌++◌, map, arith,
}
use zeq_server_trilogy.Aligned.{Aligned, read_uint16, remaining_data}
use zeq_server_trilogy.Ack.{to_host_uint16}
use zeq_server_trilogy.Ack.Recv.{Env, recv_packet}
use zeq_server_trilogy.Udp.{
  UdpClient, delivered, ok, has_bit, has_ack_response, skip_unknown, ack_request_field,
}
use zeq_server_trilogy.Udp.Protocol.{
  Result, returns, first_fields, dispatch, after_request, synchronized, after_response,
  after_header, acknowledged, for_client,
}
use zeq_server_trilogy.Udp.Safe.{lift-ok}
use zeq_server_trilogy.Outgoing.Header.{word, response_bytes}
use zeq_server_trilogy.Outgoing.Rest.{
  Rest, Rest-past, past, payload-Rest, remaining-Rest, read-Rest,
}
use zeq_server_trilogy.Outgoing.Fields.{ack_request_field-Rest}
use zeq_server_trilogy.Outgoing.Received.{
  Header, bind-ok, to_host_twice, to_host_small, received_opcode, end_part, fragment_part,
  last_fields-Leaves,
}

-- A packet with an acknowledgement request is handed on.
abbrev pub handed : Env → UdpClient → ℕ → ℕ → ℕ → List ℕ → Result
handed env c opcode ack_request frag_count bs =
    elim (recv_packet env c.ack_mgr.to_server opcode ack_request frag_count bs) [
      | none ↦ none
      | some (s, out) ↦
          returns true (record c { ack_mgr = record (c.ack_mgr) { to_server = s } })
            (map delivered out)
    ]

dispatch-Rest :
    (env : Env) (c : UdpClient) (ack_request n opcode : ℕ) (a : Aligned) (bs : List ℕ)
    → Rest a bs
    → ack_request ≢ 0
    → dispatch env false c ack_request n opcode a ≡ handed env c opcode ack_request n bs
unfolding dispatch
dispatch-Rest env c ack_request n opcode a bs r h =
    let e : (ack_request == 0) ≡ false = ground arith in rw (e, payload-Rest a bs r)

synchronized-Header :
    (h ack_request : ℕ) (fragmented : Bool) (c : UdpClient)
    → Header h fragmented
    → synchronized h ack_request c ≡ c
unfolding synchronized
synchronized-Header h ack_request fragmented c bits = rw (bits.request, bits.later)

first_fields-Rest :
    (h v : ℕ) (fragmented : Bool) (a : Aligned) (cs : List ℕ)
    → Header h fragmented
    → Rest a (word (to_host_uint16 v) ++ cs)
    → v < 2 ^ 16
    → first_fields h a ≡ ok v (past 2 a)
unfolding first_fields
first_fields-Rest h v fragmented a cs bits r fits =
    bind-ok (skip_unknown h) (λ _. ack_request_field h) a a tt (bits.skipped a)
    ∙ ack_request_field-Rest h (to_host_uint16 v) a cs bits.request r (to_host_small v fits)
    ∙ ap (λ (k : ℕ). ok k (past 2 a)) (to_host_twice v fits)

for_client-same :
    (o : Option UdpClient) (f g : UdpClient → Result)
    → ((c : UdpClient) → f c ≡ g c)
    → for_client o f ≡ for_client o g
for_client-same none f g same = refl
for_client-same (some c) f g same = same c

-- What an acknowledgement in the datagram does first
abbrev pub answered : Option ℕ → UdpClient → Option UdpClient
answered none c = some c
answered (some ack) c = acknowledged ack c

abbrev pub is_some : Option ℕ → Bool
is_some none = false
is_some (some _) = true

abbrev pub Fits : Option ℕ → Type 0
Fits none = Unit {0}
Fits (some ack) = ack < 2 ^ 16

module _ (env : Env) (junk : List ℕ) (h g index n x y opcode v : ℕ) (bs : List ℕ)
    (fragmented : Bool) where
  abbrev pub tail : List ℕ
  tail =
      word (to_host_uint16 v)
      ++ (if fragmented
          then fragment_part h g index n x y opcode bs
          else end_part h g index n x y opcode bs)

  module _ (bits : Header h fragmented) (opcode_fits : opcode < 2 ^ 16)
      (index_fits : index < 2 ^ 16) (n_fits : n < 2 ^ 16) (v_fits : v < 2 ^ 16)
      (named : index ≡ 0 → opcode ≢ 0) (whole : fragmented ≡ false → index ≡ 0) (asks : v ≢ 0) where
    abbrev pub outcome : UdpClient → Result
    outcome c = handed env c (received_opcode opcode index) v (if fragmented then n else 0) bs

    after_request-tail :
        (c : UdpClient) (a : Aligned)
        → Rest a (
            if fragmented
            then fragment_part h g index n x y opcode bs
            else end_part h g index n x y opcode bs)
        → after_request env junk false h v c a ≡ outcome c
    unfolding after_request
    after_request-tail c a r =
        let (a', run, r') =
          last_fields-Leaves h g index n x y opcode bs opcode_fits named fragmented a bits
            index_fits n_fits whole r in
        rw (after_request, bits.stays, run)
          (dispatch-Rest env c v (if fragmented then n else 0) (received_opcode opcode index) a' bs
            r' asks)

    after_response-tail :
        (c : UdpClient) (a : Aligned)
        → Rest a tail
        → after_response env junk false h c a ≡ outcome c
    unfolding after_response
    after_response-tail c a r =
        let rest =
          if fragmented
          then fragment_part h g index n x y opcode bs
          else end_part h g index n x y opcode bs in
        rw (after_response, first_fields-Rest h v fragmented a rest bits r v_fits)
          (ap (λ (c' : UdpClient). after_request env junk false h v c' (past 2 a))
              (synchronized-Header h v fragmented c bits)
            ∙ after_request-tail c (past 2 a) (Rest-past a (word (to_host_uint16 v)) rest r))

    pub after_header-tail :
        (response : Option ℕ) (c : UdpClient) (a : Aligned)
        → has_bit h has_ack_response ≡ is_some response
        → Fits response
        → Rest a (response_bytes response ++ tail)
        → after_header env junk false h c a ≡ for_client (answered response c) outcome
    unfolding after_header
    after_header-tail none c a bit fits r = rw (bit) (after_response-tail c a r)
    after_header-tail (some ack) c a bit fits r =
        let r' = Rest-past a (word ack) tail r in
        let more : (remaining_data (past 2 a) == 0) ≡ false =
          ground (arith, remaining-Rest (past 2 a) tail r') in
        rw
          (
            after_header,
            bit,
            lift-ok read_uint16 a (past 2 a) ack (read-Rest ack a tail r fits),
            more,
          )
          (for_client-same (answered (some ack) c)
            (λ c'. after_response env junk false h c' (past 2 a)) outcome
            (λ c'. after_response-tail c' (past 2 a) r'))
