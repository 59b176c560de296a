-- ===== src/Outgoing/Datagram.antt =====
-- What `ack_send_fragment` sends: the header, the payload and the checksum of both.
use mathlib.Core.List.{append-nil}
use zeq_server_trilogy.Common.{
  ℕ, suc, ◌+◌, ◌-◌, ◌^◌, ◌≤◌, ◌<◌, ◌≡◌, refl, ap, ap₂, subst, ◌∙◌, Option, some, List, [], ◌∷◌,
  ◌++◌, get_elem?, get_or, length, take, drop, arith, u32, length-append, get_elem?-eq-get_or,
}
use zeq_server_trilogy.Common.Places.{get_elem?-drop}
use zeq_server_trilogy.Aligned.{Aligned, advance_by, write_uint32}
use zeq_server_trilogy.Aligned.Put.{
  put, written, little_endian, length-put, get_elem?-put, get_elem?-put_below, get_elem?-put_above,
  write_uint32-written,
}
use zeq_server_trilogy.Aligned.RoundTrip.{Holds, Holds-append}
use zeq_server_trilogy.Packet.{header_size}
use zeq_server_trilogy.Crc.{crc_calc32_network}
use zeq_server_trilogy.Ack.Send.{Wrapper}
use zeq_server_trilogy.Outgoing.{write_header, send_fragment}
use zeq_server_trilogy.Outgoing.Front.{Front, Prepends-run}
use zeq_server_trilogy.Outgoing.Header.{header_bytes, write_header-Prepends, length-header_bytes}

take-same :
    (xs buf : List ℕ)
    → ((i : ℕ) → i < length xs → get_elem? buf i ≡ some (get_or xs i 0))
    → take (length xs) buf ≡ xs
take-same [] buf h = refl
take-same (x ∷ xs) [] h = cc (h 0 (omega arith))
take-same (x ∷ xs) (b ∷ buf) h =
    ap₂ (λ (y : ℕ) (ys : List ℕ). y ∷ ys) (cc (h 0 (omega arith)))
      (take-same xs buf (λ i lt. h (suc i) (omega arith)))

pub window : (c : ℕ) (buf xs : List ℕ) → Holds buf c xs → take (length xs) (drop c buf) ≡ xs
window c buf xs h = take-same xs (drop c buf) (λ i lt. get_elem?-drop c i buf ∙ h i lt)

module _ (w : Wrapper) (a : Aligned) (data_length opcode : ℕ) (response : Option ℕ)
    (frag_index seq : ℕ) where
  send_fragment-run :
      (a' a'' : Aligned) (body : List ℕ)
      → write_header w opcode frag_index response seq a ≡ some (tt, a')
      → u32 (data_length + u32 (a.cursor + 2 ^ 32 - a'.cursor)) ≡ length body
      → take (length body) (drop a'.cursor a'.buffer) ≡ body
      → write_uint32
          (crc_calc32_network body)
          (record a' { cursor = u32 (a'.cursor + length body) })
        ≡ some (tt, a'')
      → send_fragment w a data_length opcode response frag_index seq
        ≡ some (take (length body + 4) (drop a'.cursor a''.buffer), a'')
  unfolding send_fragment advance_by
  send_fragment-run a' a'' body run len taken wrote =
      rw (send_fragment, run, len, taken, wrote) (rw (len))

-- The checksum put behind the `n` bytes at `c`
module _ (a' : Aligned) (body : List ℕ) (crc : ℕ) (holds : Holds a'.buffer a'.cursor body)
    (within : a'.cursor + length body + 4 ≤ length a'.buffer) where
  abbrev sealed : List ℕ
  sealed = put (a'.cursor + length body) (little_endian 4 crc) a'.buffer

  sealed-Holds : Holds sealed a'.cursor (body ++ little_endian 4 crc)
  sealed-Holds =
      let bs = little_endian 4 crc in
      let c = a'.cursor + length body in
      Holds-append sealed a'.cursor body bs
        (λ i lt. get_elem?-put_below c (a'.cursor + i) bs a'.buffer (omega arith) ∙ holds i lt)
        (λ i lt. get_elem?-put c i bs a'.buffer lt within ∙ get_elem?-eq-get_or bs i 0 lt)

  sealed-window : take (length body + 4) (drop a'.cursor sealed) ≡ body ++ little_endian 4 crc
  sealed-window =
      let e : length (body ++ little_endian 4 crc) ≡ length body + 4 =
        length-append body (little_endian 4 crc) in
      subst (λ (n : ℕ). take n (drop a'.cursor sealed) ≡ body ++ little_endian 4 crc) e
        (window a'.cursor sealed (body ++ little_endian 4 crc) sealed-Holds)

module _ (w : Wrapper) (payload : List ℕ) (opcode : ℕ) (response : Option ℕ)
    (frag_index seq : ℕ) where
  abbrev pub body : List ℕ
  body = header_bytes w opcode frag_index response seq ++ payload

  abbrev pub datagram : List ℕ
  datagram = body ++ little_endian 4 (crc_calc32_network body)

  -- With the payload at the cursor, room for the header in front of it and for the checksum behind it, in
  -- a buffer that 32 bits can measure: `ack_send_fragment` sends the header, the payload and the checksum
  -- of both, moves the cursor behind the checksum, and leaves the bytes from there on as they were.
  pub send_fragment-datagram :
      (a : Aligned)
      → w.ack_counter_always_one < 256
      → Holds a.buffer a.cursor payload
      → header_size ≤ a.cursor
      → a.cursor + length payload + 4 ≤ length a.buffer
      → length a.buffer < 2 ^ 32
      → (a'' : Aligned) × (send_fragment w a (length payload) opcode response frag_index seq
          ≡ some (datagram, a''))
        × (a''.cursor ≡ a.cursor + length payload + 4)
        × (length a''.buffer ≡ length a.buffer)
        × ((j : ℕ) → a''.cursor ≤ j → get_elem? a''.buffer j ≡ get_elem? a.buffer j)
  send_fragment-datagram a one held front within small =
      let low = length-header_bytes w opcode frag_index response seq in
      let hb = header_bytes w opcode frag_index response seq in
      let crc = crc_calc32_network body in
      let start : Front a a [] = record {
        at = omega arith;
        holds = λ i lt. elim lt [ ];
        same = λ j le. refl;
        size = refl;
        inside = omega arith;
        small = small;
      } in
      let (a', run, f') =
        Prepends-run a _ hb (write_header-Prepends w opcode frag_index response seq a one) a []
          start (omega arith) in
      let f : Front a a' hb = subst (Front a a') (append-nil hb) f' in
      let total = length-append hb payload in
      let at : a'.cursor + length hb ≡ a.cursor = f.at in
      let size : length a'.buffer ≡ length a.buffer = f.size in
      let above : Holds a'.buffer (a'.cursor + length hb) payload = λ i lt.
        let e : a'.cursor + length hb + i ≡ a.cursor + i = omega arith in
        ap (get_elem? a'.buffer) e ∙ f.same (a.cursor + i) (omega arith) ∙ held i lt in
      let holds = Holds-append a'.buffer a'.cursor hb payload f.holds above in
      let fits : a'.cursor + length body + 4 ≤ length a'.buffer = omega arith in
      let c : u32 (a'.cursor + length body) ≡ a'.cursor + length body = omega arith in
      let a1 = record a' { cursor = u32 (a'.cursor + length body) } in
      let a2 = record a' { cursor = a'.cursor + length body } in
      let bs = little_endian 4 crc in
      let wrote : write_uint32 crc a1 ≡ some (tt, written a2 bs) =
        rw (c) (write_uint32-written crc a2 (record { within = fits; small = omega arith })) in
      (
        written a2 bs,
        send_fragment-run w a (length payload) opcode response frag_index seq a' (written a2 bs)
              body run (omega arith) (window a'.cursor a'.buffer body holds) wrote
            ∙ ap (λ (d : List ℕ). some (d, written a2 bs)) (sealed-window a' body crc holds fits),
        omega arith,
        length-put (a'.cursor + length body) bs a'.buffer ∙ size,
        λ j le.
            get_elem?-put_above (a'.cursor + length body) j bs a'.buffer (omega arith)
            ∙ f.same j (omega arith),
      )
