-- ===== src/Outgoing/Received.antt =====
-- A datagram of `ack_send_fragment` read by `udpc_recv_protocol`
use zeq_server_trilogy.Common.{
  ℕ, zero, suc, ◌^◌, ◌<◌, ◌≡◌, ◌≢◌, refl, ap, sym, subst, ◌∙◌, Bool, true, false, ◌==◌, ◌&&◌, not,
  if◌then◌else◌, List, [], ◌++◌, arith,
}
use zeq_server_trilogy.Aligned.{Aligned}
use zeq_server_trilogy.Aligned.Put.{little_endian}
use zeq_server_trilogy.Ack.{to_host_uint16}
use zeq_server_trilogy.Udp.{
  Parse, P, ◌>>=◌, pure, ok, has_bit, has_ack_request, has_ack_counter, is_fragment,
  is_first_packet, skip_unknown, fragment_fields, counter_field, opcode_field,
}
use zeq_server_trilogy.Udp.Protocol.{last_fields}
use zeq_server_trilogy.Outgoing.Header.{word}
use zeq_server_trilogy.Outgoing.Rest.{Rest, Rest-past, past}
use zeq_server_trilogy.Outgoing.Fields.{
  skip_field-Rest, fragment_fields-Rest, fragment_fields-none, opcode_field-Rest, opcode_field-none,
}

-- The parse gives `x`, and `bs` is left.
abbrev pub Leaves : {A : Type 0} → Parse A → A → List ℕ → Type 0
Leaves p x bs = (a : Aligned) × (p ≡ ok x a) × Rest a bs

pub bind-ok :
    {A B : Type 0} (p : P A) (k : A → P B) (a a' : Aligned) (x : A)
    → p a ≡ ok x a'
    → (p >>= k) a ≡ k x a'
bind-ok p k a a' x h = rw (◌>>=◌, h)

-- The bits of a header that asks for an acknowledgement
pub record Header (h : ℕ) (fragmented : Bool) : Type 0 where
  pub skipped : (a : Aligned) → skip_unknown h a ≡ ok tt a
  pub request : has_bit h has_ack_request ≡ true
  pub counter : has_bit h has_ack_counter ≡ true
  pub fragment : has_bit h is_fragment ≡ fragmented
  pub stays : has_bit h 0x44 ≡ false
  pub later : has_bit h is_first_packet ≡ false

abbrev pub received_opcode : ℕ → ℕ → ℕ
received_opcode opcode index = if index == 0 then opcode else 0

abbrev pub opcode_part : ℕ → ℕ → List ℕ
opcode_part opcode index = if index == 0 && not (opcode == 0) then word opcode else []

opcode_part-named : (opcode : ℕ) → opcode ≢ 0 → opcode_part opcode 0 ≡ word opcode
opcode_part-named opcode h = let e : (opcode == 0) ≡ false = ground arith in rw (e)

opcode-Leaves :
    (opcode index : ℕ) (bs : List ℕ) (a : Aligned)
    → opcode < 2 ^ 16
    → (index ≡ 0 → opcode ≢ 0)
    → Rest a (opcode_part opcode index ++ bs)
    → Leaves (opcode_field index a) (received_opcode opcode index) bs
opcode-Leaves opcode zero bs a fits named r =
    let r' : Rest a (word opcode ++ bs) =
      subst (λ (l : List ℕ). Rest a (l ++ bs)) (opcode_part-named opcode (named refl)) r in
    (past 2 a, opcode_field-Rest opcode a bs r' fits, Rest-past a (word opcode) bs r')
opcode-Leaves opcode (suc k) bs a fits named r =
    let e : (suc k == 0) ≡ false = ground arith in
    let none_left : opcode_part opcode (suc k) ≡ [] = rw (e) in
    (
      a,
      opcode_field-none (suc k) a e ∙ ap (λ (n : ℕ). ok n a) (rw (e)),
      subst (λ (l : List ℕ). Rest a (l ++ bs)) none_left r,
    )

pub to_host_twice : (v : ℕ) → v < 2 ^ 16 → to_host_uint16 (to_host_uint16 v) ≡ v
to_host_twice v fits = ground arith

pub to_host_small : (v : ℕ) → v < 2 ^ 16 → to_host_uint16 v < 2 ^ 16
to_host_small v fits = omega arith

module _ (h g index n x y opcode : ℕ) (bs : List ℕ) where
  abbrev counters : List ℕ
  counters = little_endian 1 x ++ little_endian 1 y

  abbrev pub end_part : List ℕ
  end_part = counters ++ (opcode_part opcode index ++ bs)

  abbrev pub fragment_part : List ℕ
  fragment_part =
      word (to_host_uint16 g)
      ++ (word (to_host_uint16 index) ++ (word (to_host_uint16 n) ++ end_part))

  module _ (opcode_fits : opcode < 2 ^ 16) (named : index ≡ 0 → opcode ≢ 0) where
    end-Leaves :
        (f : ℕ × ℕ) (a : Aligned)
        → f.0 ≡ index
        → has_bit h has_ack_request ≡ true
        → has_bit h has_ack_counter ≡ true
        → Rest a end_part
        → Leaves {A = ℕ × ℕ}
            ((counter_field h >>= λ _. opcode_field (f.0) >>= λ code. pure (f.1, code)) a)
            (f.1, received_opcode opcode index)
            bs
    unfolding counter_field
    end-Leaves f a same request counter r =
        let r1 = Rest-past a counters (opcode_part opcode index ++ bs) r in
        let (a2, run, r2) = opcode-Leaves opcode index bs (past 2 a) opcode_fits named r1 in
        let skip : counter_field h a ≡ ok tt (past 2 a) = rw (request) (
          skip_field-Rest h has_ack_counter a counters (opcode_part opcode index ++ bs) counter
            r) in
        (
          a2,
          bind-ok (counter_field h) (λ _. opcode_field (f.0) >>= λ code. pure (f.1, code)) a
                (past 2 a) tt skip
              ∙ bind-ok (opcode_field (f.0)) (λ code. pure (f.1, code)) (past 2 a) a2
                  (received_opcode opcode index)
                  (ap (λ (i : ℕ). opcode_field i (past 2 a)) same ∙ run),
          r2,
        )

    pub last_fields-Leaves :
        (fragmented : Bool) (a : Aligned)
        → Header h fragmented
        → index < 2 ^ 16
        → n < 2 ^ 16
        → (fragmented ≡ false → index ≡ 0)
        → Rest a (if fragmented then fragment_part else end_part)
        → Leaves {A = ℕ × ℕ}
            (last_fields h a)
            (if fragmented then n else 0, received_opcode opcode index)
            bs
    unfolding last_fields
    last_fields-Leaves true a bits fits_i fits_n whole r =
        let i' = to_host_uint16 index in
        let n' = to_host_uint16 n in
        let g' = to_host_uint16 g in
        let a1 = past 2 (past 2 (past 2 a)) in
        let run =
          fragment_fields-Rest h g' i' n' a end_part bits.fragment r (to_host_small index fits_i)
            (to_host_small n fits_n) in
        let r1 = Rest-past (past 2 (past 2 a)) (word n') end_part (
          Rest-past (past 2 a) (word i') (word n' ++ end_part)
            (Rest-past a (word g') (word i' ++ (word n' ++ end_part)) r)) in
        let (a2, run2, r2) =
          end-Leaves (to_host_uint16 i', to_host_uint16 n') a1 (to_host_twice index fits_i)
            bits.request bits.counter r1 in
        (
          a2,
          bind-ok (fragment_fields h)
                (λ f. counter_field h >>= λ _. opcode_field (f.0) >>= λ code. pure (f.1, code)) a a1
                (to_host_uint16 i', to_host_uint16 n') run
              ∙ run2
              ∙ ap (λ (k : ℕ). ok (k, received_opcode opcode index) a2) (to_host_twice n fits_n),
          r2,
        )
    last_fields-Leaves false a bits fits_i fits_n whole r =
        let (a2, run2, r2) = end-Leaves (0, 0) a (sym (whole refl)) bits.request bits.counter r in
        (
          a2,
          bind-ok (fragment_fields h)
                (λ f. counter_field h >>= λ _. opcode_field (f.0) >>= λ code. pure (f.1, code)) a a
                (0, 0) (fragment_fields-none h a bits.fragment)
              ∙ run2,
          r2,
        )
