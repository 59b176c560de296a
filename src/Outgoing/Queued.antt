-- ===== src/Outgoing/Queued.antt =====
-- `ack_send_queued_packets` when nothing of the queue was sent before
use mathlib.Core.List.{append-nil}
use zeq_server_trilogy.Common.{
  ℕ, ◌+◌, ◌-◌, ◌^◌, ◌<◌, ◌≡◌, refl, ap, ◌∙◌, inl, inr, Option, some, List, [], ◌∷◌, ◌++◌, length,
  arith, u16, ◌==◌, ==_iff, Bool-cases,
}
use zeq_server_trilogy.Ack.{to_host_uint16}
use zeq_server_trilogy.Ack.Send.{Wrapper}
use zeq_server_trilogy.Udp.{UdpClient}
use zeq_server_trilogy.Outgoing.{
  Sending, Response, begun, flagged, send_packets, send_rest, send_queued_packets,
}
use zeq_server_trilogy.Outgoing.Queue.{
  Job, AllReady, wrappers, all_expected, used_by_all, send_packets-first,
}

abbrev pub next_ack_of : UdpClient → ℕ
next_ack_of c = u16 (c.ack_mgr.to_server.next_ack_request_expected + 2 ^ 16 - 1)

-- The client after all were sent
abbrev pub after_sending : UdpClient → Response → List Wrapper → Sending → UdpClient
after_sending c r q s = record c {
  ack_mgr = record {
    to_server = flagged r (next_ack_of c) c.ack_mgr.to_server;
    to_client = record (s.to_client) { queue = q; send_from_index = c.ack_mgr.to_client.count };
  };
}

-- What the loop over the packets is called with
abbrev loop : (ℕ → ℕ) → UdpClient → Option (List Wrapper × Sending)
loop clock c =
    let server = c.ack_mgr.to_server in
    let client = c.ack_mgr.to_client in
    send_packets clock (clock 0) (to_host_uint16 (next_ack_of c)) server.last_ack_received
      client.send_from_index client.count 0 client.queue
      (begun server.last_ack_sent (next_ack_of c) client)

module _ (clock : ℕ → ℕ) (junk : List ℕ) (c : UdpClient) (q : List Wrapper) (s : Sending)
    (run : loop clock c ≡ some (q, s)) where
  queued-nothing :
      s.response ≡ Response.nothing
      → send_queued_packets clock junk c
        ≡ some (s.datagrams ++ [], after_sending c Response.nothing q s)
  unfolding send_queued_packets send_rest
  queued-nothing h =
      rw (send_queued_packets, run, h)
        (ap (λ (r : Response). some (s.datagrams ++ [], after_sending c r q s)) h)

  queued-sent :
      s.response ≡ Response.sent
      → send_queued_packets clock junk c
        ≡ some (s.datagrams ++ [], after_sending c Response.sent q s)
  unfolding send_queued_packets send_rest
  queued-sent h =
      rw (send_queued_packets, run, h)
        (ap (λ (r : Response). some (s.datagrams ++ [], after_sending c r q s)) h)

used_by_all-nothing : (js : List Job) → used_by_all Response.nothing js ≡ Response.nothing
used_by_all-nothing [] = refl
used_by_all-nothing (j ∷ js) = used_by_all-nothing js

used_by_all-sent : (js : List Job) → used_by_all Response.sent js ≡ Response.sent
used_by_all-sent [] = refl
used_by_all-sent (j ∷ js) = used_by_all-sent js

-- Whether an acknowledgement is due
abbrev pub due : UdpClient → Response
due c = (begun c.ack_mgr.to_server.last_ack_sent (next_ack_of c) c.ack_mgr.to_client).response

module _ (clock : ℕ → ℕ) (junk : List ℕ) (c : UdpClient) (j : Job) (js : List Job)
    (slack : List Wrapper) (queue : c.ack_mgr.to_client.queue ≡ wrappers (j ∷ js) ++ slack)
    (count : c.ack_mgr.to_client.count ≡ length (j ∷ js))
    (from_start : c.ack_mgr.to_client.send_from_index ≡ 0)
    (word : c.ack_mgr.to_client.next_seq_to_send < 2 ^ 16) (ready : AllReady (j ∷ js)) where
  abbrev ack : ℕ
  ack = to_host_uint16 (next_ack_of c)

  loop-first :
      (ws : List Wrapper) × (s : Sending) × (loop clock c ≡ some (ws ++ slack, s))
      × (s.datagrams ≡ all_expected ack (j ∷ js) c.ack_mgr.to_client.next_seq_to_send (due c))
      × (s.response ≡ used_by_all (due c) (j ∷ js))
      × (length ws ≡ length (j ∷ js))
  loop-first =
      let server = c.ack_mgr.to_server in
      let client = c.ack_mgr.to_client in
      let start = begun server.last_ack_sent (next_ack_of c) client in
      let (ws, s, run, out, answer, long) =
        send_packets-first clock (clock 0) ack server.last_ack_received client.send_from_index slack
          (j ∷ js) 0 start (omega arith) word ready in
      (
        ws,
        s,
        ap
              (λ (n : ℕ).
                send_packets clock (clock 0) ack server.last_ack_received client.send_from_index n 0
                  client.queue start)
              count
            ∙ ap
                (λ (l : List Wrapper).
                  send_packets clock (clock 0) ack server.last_ack_received client.send_from_index
                    (length (j ∷ js)) 0 l start)
                queue
            ∙ run,
        out,
        answer,
        long,
      )

  -- A queue of at least one packet, none of them sent before, each with its payload spread out for its
  -- fragments, with any memory behind it that is not in use: the call sends every packet, in the order of the queue and in all its fragments, with
  -- sequence numbers in a row and an acknowledgement, if one is due, in the first datagram alone;
  -- afterwards the whole queue counts as sent, it has as many packets as before and the same memory
  -- behind it, and the last acknowledgement sent is the one that was due.
  pub send_queued_packets-first :
      (ws : List Wrapper) × (c' : UdpClient) × (send_queued_packets clock junk c
        ≡ some (all_expected ack (j ∷ js) c.ack_mgr.to_client.next_seq_to_send (due c), c'))
      × (c'.ack_mgr.to_client.send_from_index ≡ length (j ∷ js))
      × (c'.ack_mgr.to_client.queue ≡ ws ++ slack)
      × (length ws ≡ length (j ∷ js))
      × (c'.ack_mgr.to_server.last_ack_sent ≡ next_ack_of c)
  send_queued_packets-first =
      let (ws, s, run, out, answer, long) = loop-first in
      let last = c.ack_mgr.to_server.last_ack_sent in
      let sent_out : s.datagrams ++ []
          ≡ all_expected ack (j ∷ js) c.ack_mgr.to_client.next_seq_to_send (due c) =
        append-nil s.datagrams ∙ out in
      elim (Bool-cases (last == next_ack_of c)) [
        | inl same ↦
            let none_due : due c ≡ Response.nothing = rw (same) in
            let c' = after_sending c Response.nothing (ws ++ slack) s in
            (
              ws,
              c',
              queued-nothing clock junk c (ws ++ slack) s run (
                    answer
                    ∙ ap (λ (r : Response). used_by_all r (j ∷ js)) none_due
                    ∙ used_by_all-nothing (j ∷ js))
                  ∙ ap (λ (l : List (List ℕ)). some (l, c')) sent_out,
              count,
              refl,
              long,
              (==_iff last (next_ack_of c)).0 same,
            )
        | inr other ↦
            let one_due : due c ≡ Response.waiting = rw (other) in
            let c' = after_sending c Response.sent (ws ++ slack) s in
            (
              ws,
              c',
              queued-sent clock junk c (ws ++ slack) s run (
                    answer
                    ∙ ap (λ (r : Response). used_by_all r (j ∷ js)) one_due
                    ∙ used_by_all-sent js)
                  ∙ ap (λ (l : List (List ℕ)). some (l, c')) sent_out,
              count,
              refl,
              long,
              refl,
            )
      ]
