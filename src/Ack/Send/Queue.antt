-- ===== src/Ack/Send/Queue.antt =====
-- The growing array of packets to the client, seen as the sequence of the packets in it.
use zeq_server_trilogy.Common.{
  ◌+◌, ◌^◌, ◌<◌, ◌≡◌, true, some, List, [], ◌∷◌, ◌++◌, take, arith, u32,
}
use zeq_server_trilogy.Growth
use zeq_server_trilogy.Growth.{push, HasPower, push-live}
use zeq_server_trilogy.Ack.Send.{Wrapper, ToClient, Memory, queue_packet}

-- The packets in the queue, in order
abbrev pub live : ToClient → List Wrapper
live t = take t.count t.queue

abbrev pub IsSized : ToClient → Type 0
IsSized t = Growth.IsSized t.count t.queue

queue_packet-push :
    (mem : Memory) (t : ToClient) (w : Wrapper) (q : List Wrapper)
    → mem.ok ≡ true
    → t.count < 2 ^ 31
    → push mem.junk true t.count t.queue w ≡ some (some q)
    → queue_packet mem t w ≡ some (record t { count = t.count + 1; queue = q }, true)
unfolding queue_packet
queue_packet-push mem t w q ok small run =
    let no_wrap : u32 (t.count + 1) ≡ t.count + 1 = omega arith in
    rw (queue_packet, ok, run, no_wrap)

-- While memory is found and there are less than 2 ^ 31 packets: the queue takes the new packet at its
-- end, without a write outside its memory, and stays well-sized, also after a shrinking `realloc`.
pub queue_packet-live :
    (mem : Memory) (t : ToClient) (w : Wrapper)
    → mem.ok ≡ true
    → t.count < 2 ^ 31
    → IsSized t
    → (q : List Wrapper) × (queue_packet mem t w
        ≡ some (record t { count = t.count + 1; queue = q }, true))
      × HasPower (t.count + 1) q
      × (take (t.count + 1) q ≡ live t ++ w ∷ [])
queue_packet-live mem t w ok small sized =
    let (q, run, power, all) = push-live mem.junk t.count t.queue w small sized in
    (q, queue_packet-push mem t w q ok small run, power, all)
