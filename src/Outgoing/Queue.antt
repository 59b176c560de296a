-- ===== src/Outgoing/Queue.antt =====
-- All packets of the queue, sent for the first time
use mathlib.Core.List.{append-nil, append_assoc}
use zeq_server_trilogy.Common.{
  ℕ, suc, ◌+◌, ◌-◌, ◌*◌, ◌^◌, ◌≤◌, ◌<◌, ◌≡◌, refl, ap, ◌∙◌, sym, some, List, [], ◌∷◌, ◌++◌, length,
  arith, u16,
}
use zeq_server_trilogy.Packet.{TlgPacket}
use zeq_server_trilogy.Ack.Send.{Wrapper}
use zeq_server_trilogy.Outgoing.{Sending, Response, the_response, used, send_packet, send_packets}
use zeq_server_trilogy.Outgoing.Fragments.{expected}
use zeq_server_trilogy.Outgoing.Chunks.{Placed, chunks}
use zeq_server_trilogy.Outgoing.First.{send_packet-first}

-- A wrapper with its packet and the payload in it
pub record Job : Type 0 where
  pub wrapper : Wrapper
  pub packet : TlgPacket
  pub payload : List ℕ

-- The payload is where the fragments look for it, and they can hold it.
pub record Ready (j : Job) : Type 0 where
  pub there : j.wrapper.packet ≡ some j.packet
  pub one : j.wrapper.ack_counter_always_one < 256
  pub size : j.packet.data_length ≡ length j.payload
  pub placed : Placed j.packet.bytes j.payload
  pub parts : 0 < j.wrapper.frag_count
  pub some_left : 512 * (j.wrapper.frag_count - 1) < length j.payload + 2
  pub full : length j.payload + 2 ≤ 512 * j.wrapper.frag_count
  pub within : length j.payload + 22 * j.wrapper.frag_count ≤ length j.packet.bytes
  pub small : length j.packet.bytes < 2 ^ 32

abbrev pub AllReady : List Job → Type 0
AllReady [] = Unit {0}
AllReady (j ∷ js) = Ready j × AllReady js

abbrev pub wrappers : List Job → List Wrapper
wrappers [] = []
wrappers (j ∷ js) = j.wrapper ∷ wrappers js

-- Every packet in its fragments, in the order of the queue
abbrev pub all_expected : ℕ → List Job → ℕ → Response → List (List ℕ)
all_expected ack [] seq r = []
all_expected ack (j ∷ js) seq r =
    expected j.wrapper j.packet.opcode (the_response r ack) 0 seq
      (chunks j.payload j.wrapper.frag_count 0)
    ++ all_expected ack js (u16 (seq + j.wrapper.frag_count)) (used r)

abbrev pub used_by_all : Response → List Job → Response
used_by_all r [] = r
used_by_all r (j ∷ js) = used_by_all (used r) js

module _ (clock : ℕ → ℕ) (time ack received from : ℕ) where
  send_packets-step :
      (n i : ℕ) (w w' : Wrapper) (q q' : List Wrapper) (s s' s'' : Sending)
      → send_packet clock time ack received from i w s ≡ some (w', s')
      → send_packets clock time ack received from n (i + 1) q s' ≡ some (q', s'')
      → send_packets clock time ack received from (suc n) i (w ∷ q) s ≡ some (w' ∷ q', s'')
  unfolding send_packets
  send_packets-step n i w w' q q' s s' s'' run rest = rw (send_packets, run, rest)

  pub send_packets-first :
      (slack : List Wrapper) (js : List Job) (i : ℕ) (s : Sending)
      → from ≤ i
      → s.to_client.next_seq_to_send < 2 ^ 16
      → AllReady js
      → (ws : List Wrapper) × (s' : Sending) × (send_packets clock time ack received from
            (length js)
            i
            (wrappers js ++ slack)
            s
          ≡ some (ws ++ slack, s'))
        × (s'.datagrams
            ≡ s.datagrams ++ all_expected ack js s.to_client.next_seq_to_send s.response)
        × (s'.response ≡ used_by_all s.response js)
        × (length ws ≡ length js)
  unfolding send_packets
  send_packets-first slack [] i s h word ready =
      ([], s, refl, sym (append-nil s.datagrams), refl, refl)
  send_packets-first slack (j ∷ js) i s h word (r, rs) =
      let seq = s.to_client.next_seq_to_send in
      let (w', s1, run, out, joined, numbers, answer) =
        send_packet-first clock time ack received from i j.wrapper j.packet s j.payload h r.there
          r.one word r.size r.placed r.parts r.some_left r.full r.within r.small in
      let (ws, s2, rest, outs, answers, long) =
        send_packets-first slack js (i + 1) s1 (omega arith) (omega arith) rs in
      let first =
        expected j.wrapper j.packet.opcode (the_response s.response ack) 0 seq
          (chunks j.payload j.wrapper.frag_count 0) in
      let after = all_expected ack js (u16 (seq + j.wrapper.frag_count)) (used s.response) in
      (
        w' ∷ ws,
        s2,
        send_packets-step (length js) i j.wrapper w' (wrappers js ++ slack) (ws ++ slack) s s1 s2
            run rest,
        outs
            ∙ ap (λ (k : ℕ). s1.datagrams ++ all_expected ack js k s1.response) numbers
            ∙ ap
                (λ (a : Response).
                  s1.datagrams ++ all_expected ack js (u16 (seq + j.wrapper.frag_count)) a)
                answer
            ∙ ap (λ (l : List (List ℕ)). l ++ after) out
            ∙ append_assoc s.datagrams first after,
        answers ∙ ap (λ (a : Response). used_by_all a js) answer,
        ap suc long,
      )
