-- ===== src/Inventory/Loaded.antt =====
-- The slots after the rows of the database have been read.
use mathlib.Core.List.{append-nil, append_assoc}
use zeq_server_trilogy.Common.{
  ℕ, ◌+◌, ◌^◌, ◌<◌, ◌≡◌, ap, ap₂, ◌∙◌, sym, Bool, true, false, Option, none, some, List, [], ◌∷◌,
  ◌++◌, ◌==◌, length, take, if◌then◌else◌, not, u16, arith, Bool-cases, inl, inr, refl,
}
use zeq_server_trilogy.Growth
use zeq_server_trilogy.Growth.{push, push-live, HasPower}
use zeq_server_trilogy.Inventory.{
  Inventory, InvSlot, Memory, Row, from_db_to_slot, from_db, index_slot, slot_cursor,
}

abbrev pub filled : Inventory → List InvSlot
filled inv = take inv.slot_count inv.slots

abbrev pub slot_of : Row → InvSlot
slot_of r = record {
  slot_id = r.slot_id;
  item_id = r.item_id;
  item = record { stack_amt = r.stack_amt; charges = r.charges };
}

-- The slots of the rows whose item is known and that are not on the cursor
pub stored : (ℕ → Bool) → List Row → List InvSlot
stored known [] = []
stored known (r ∷ rs) =
    let rest = stored known rs in
    if not (known r.item_id)
    then rest
    else if r.slot_id == slot_cursor
    then rest
    else slot_of r ∷ rest

-- The switch changes indexes only.
index_slot-slots :
    (id i : ℕ) (inv : Inventory)
    → ((index_slot id i inv).slots ≡ inv.slots)
      × ((index_slot id i inv).slot_count ≡ inv.slot_count)
unfolding index_slot
index_slot-slots id i inv = ground arith

-- What reading rows gives: more slots at the end
abbrev pub Loaded : Option (Bool × Inventory) → Inventory → List InvSlot → ℕ → Type 0
Loaded run inv more n =
    (inv' : Inventory) × (run ≡ some (true, inv'))
    × Growth.IsSized inv'.slot_count inv'.slots
    × (inv'.slot_count < inv.slot_count + n + 1)
    × (filled inv' ≡ filled inv ++ more)

from_db_to_slot-Loaded :
    (mem : Memory) (inv : Inventory) (r : Row)
    → mem.found ≡ true
    → Growth.IsSized inv.slot_count inv.slots
    → inv.slot_count + 1 < 2 ^ 16
    → Loaded
        (from_db_to_slot mem inv (slot_of r).item r.slot_id r.item_id)
        inv
        (if r.slot_id == slot_cursor then [] else slot_of r ∷ [])
        1
unfolding from_db_to_slot
from_db_to_slot-Loaded mem inv r found sized small = elim (Bool-cases (r.slot_id == slot_cursor)) [
  | inl cursor ↦ rw (cursor) (
    record inv { cursor = some (slot_of r) },
    refl,
    sized,
    omega arith,
    sym (append-nil (filled inv)),
  )
  | inr other ↦
      let n = inv.slot_count in
      let (q, run, (k, lo, hi), all) =
        push-live mem.slot_junk n inv.slots (slot_of r) (omega arith) sized in
      let inv1 = index_slot r.slot_id n (record inv { slots = q; slot_count = u16 (n + 1) }) in
      let same =
        index_slot-slots r.slot_id n (record inv { slots = q; slot_count = u16 (n + 1) }) in
      let count : inv1.slot_count ≡ n + 1 = same.1 ∙ omega arith in
      rw (other) (
        inv1,
        rw (found, run) refl,
        inr (k, omega (arith, count), omega (arith, ap length same.0)),
        omega (arith, count),
        ap₂ take count same.0 ∙ all,
      )
]

Loaded-then :
    (run : Option (Bool × Inventory)) (inv : Inventory) (more later : List InvSlot) (n : ℕ)
    (next : Bool × Inventory → Option (Bool × Inventory))
    → Loaded run inv more 1
    → ((inv' : Inventory)
        → Growth.IsSized inv'.slot_count inv'.slots
        → inv'.slot_count < inv.slot_count + 2
        → Loaded (next (true, inv')) inv' later n)
    → Loaded (elim run [ none ↦ none | some p ↦ next p ]) inv (more ++ later) (n + 1)
Loaded-then run inv more later n next (inv1, first, sized, small, all) rest =
    let (inv2, second, sized2, small2, all2) = rest inv1 sized (omega arith) in
    (
      inv2,
      rw (first) second,
      sized2,
      omega arith,
      all2 ∙ ap (λ (l : List InvSlot). l ++ later) all ∙ append_assoc (filled inv) more later,
    )

from_db-none :
    (mem : Memory) (known : ℕ → Bool) (inv : Inventory)
    → from_db mem known inv [] ≡ some (true, inv)
unfolding from_db
from_db-none mem known inv = refl

row_slots :
    (b : Bool) (x : InvSlot) (later : List InvSlot)
    → (if b then [] else x ∷ []) ++ later ≡ (if b then later else x ∷ later)
row_slots true x later = refl
row_slots false x later = refl

from_db-known :
    (mem : Memory) (known : ℕ → Bool) (inv : Inventory) (r : Row) (rs : List Row)
    → mem.item_found ≡ true
    → known r.item_id ≡ true
    → from_db mem known inv (r ∷ rs)
      ≡ elim (from_db_to_slot mem inv (slot_of r).item r.slot_id r.item_id) [
        | none ↦ none
        | some p ↦ (let rest = from_db mem known p.1 rs in if p.0 then rest else some (false, p.1))
      ]
unfolding from_db
from_db-known mem known inv r rs item_found is_known = rw (is_known, item_found) refl

from_db-unknown :
    (mem : Memory) (known : ℕ → Bool) (inv : Inventory) (r : Row) (rs : List Row)
    → known r.item_id ≡ false
    → from_db mem known inv (r ∷ rs) ≡ from_db mem known inv rs
unfolding from_db
from_db-unknown mem known inv r rs unknown = rw (unknown) refl

-- While memory is found, for slots whose memory grew by powers of two, and with less than 65535 slots
-- and rows together: reading the rows succeeds, the slots stay so, and behind those that were filled
-- there is one for each row whose item is known and that is not on the cursor, in order.
pub from_db-Loaded :
    (mem : Memory) (known : ℕ → Bool) (inv : Inventory) (rows : List Row)
    → mem.found ≡ true
    → mem.item_found ≡ true
    → Growth.IsSized inv.slot_count inv.slots
    → inv.slot_count + length rows + 1 < 2 ^ 16
    → Loaded (from_db mem known inv rows) inv (stored known rows) (length rows)
unfolding stored
from_db-Loaded mem known inv [] found item_found sized small =
    (inv, from_db-none mem known inv, sized, omega arith, sym (append-nil (filled inv)))
from_db-Loaded mem known inv (r ∷ rs) found item_found sized small =
    elim (Bool-cases (known r.item_id)) [
      | inl is_known ↦
          let first = from_db_to_slot-Loaded mem inv r found sized (omega arith) in
          let next : Bool × Inventory → Option (Bool × Inventory) =
            λ p. (let rest = from_db mem known p.1 rs in if p.0 then rest else some (false, p.1)) in
          let (inv', run, sized', small', all) =
            Loaded-then (from_db_to_slot mem inv (slot_of r).item r.slot_id r.item_id) inv
              (if r.slot_id == slot_cursor then [] else slot_of r ∷ []) (stored known rs)
              (length rs) next first
              (λ inv1 sized1 small1.
                from_db-Loaded mem known inv1 rs found item_found sized1 (omega arith)) in
          (
            inv',
            from_db-known mem known inv r rs item_found is_known ∙ run,
            sized',
            omega arith,
            all
                ∙ ap (λ (l : List InvSlot). filled inv ++ l)
                    (row_slots (r.slot_id == slot_cursor) (slot_of r) (stored known rs)
                      ∙ rw (is_known) refl),
          )
      | inr unknown ↦
          let (inv', run, sized', small', all) =
            from_db-Loaded mem known inv rs found item_found sized (omega arith) in
          (
            inv',
            from_db-unknown mem known inv r rs unknown ∙ run,
            sized',
            omega arith,
            all ∙ ap (λ (l : List InvSlot). filled inv ++ l) (rw (unknown) refl),
          )
    ]
