-- ===== src/Inventory.antt =====
-- src/inventory.c and src/inventory.h: the items of a character. The client gets small numbers for
-- items; the slots are filled from the database.
mod Places
mod Ids
mod Loaded
mod Tests
use zeq_server_trilogy.Common.{
  ℕ, zero, suc, ◌+◌, ◌-◌, ◌*◌, ◌^◌, Bool, true, false, Option, none, some, List, [], ◌∷◌, ◌==◌, ltb,
  not, if◌then◌else◌, u16, u32,
}
use zeq_server_trilogy.Growth.{push}

-- `ItemIdMap`
pub record ItemId : Type 0 where
  pub real_id : ℕ
  pub client_id : ℕ

-- `Item`, without its prototype
pub record Item : Type 0 where
  pub stack_amt : ℕ
  pub charges : ℕ

pub record InvSlot : Type 0 where
  pub slot_id : ℕ
  pub item_id : ℕ
  pub item : Item

-- `Inventory`; an index is `none` at -1 (one of 2 ^ 15 and more is a negative number of the source),
-- and so is the slot of the cursor before it is written. The queue of the cursor and the list of lore
-- items are never changed here.
pub record Inventory : Type 0 where
  pub primary_index : Option ℕ
  pub secondary_index : Option ℕ
  pub range_index : Option ℕ
  pub ammo_index : Option ℕ
  pub slot_count : ℕ
  pub id_map_count : ℕ
  pub cursor : Option InvSlot
  pub slots : List InvSlot
  pub id_map : List ItemId

-- `INV_SLOT_Range`, `INV_SLOT_Primary`, `INV_SLOT_Secondary`, `INV_SLOT_Ammo`, `INV_SLOT_Cursor`
abbrev pub slot_range : ℕ
slot_range = 11

abbrev pub slot_primary : ℕ
slot_primary = 13

abbrev pub slot_secondary : ℕ
slot_secondary = 14

abbrev pub slot_ammo : ℕ
slot_ammo = 21

abbrev pub slot_cursor : ℕ
slot_cursor = 30

-- `INV_CLIENT_ITEM_ID_OFFSET`
abbrev pub id_offset : ℕ
id_offset = 1000

-- `inv_init`
abbrev inv_init : Inventory → Inventory
inv_init inv = record inv {
  primary_index = none;
  secondary_index = none;
  range_index = none;
  ammo_index = none;
}

-- What memory has before it is written, and whether `realloc` and `alloc_type(Item)` find any.
pub record Memory : Type 0 where
  pub found : Bool
  pub item_found : Bool
  pub slot_junk : InvSlot
  pub id_junk : ItemId

-- The `switch` of `inv_from_db_to_slot`
unfoldable pub index_slot : ℕ → ℕ → Inventory → Inventory
index_slot slot_id index inv =
    if slot_id == slot_primary
    then record inv { primary_index = some index }
    else if slot_id == slot_secondary
    then record inv { secondary_index = some index }
    else if slot_id == slot_range
    then record inv { range_index = some index }
    else if slot_id == slot_ammo
    then record inv { ammo_index = some index }
    else inv

abbrev pub result : Bool → Inventory → Bool × Inventory
result ok inv = (ok, inv)

-- `inv_from_db_to_slot`; `false` is `ERR_OutOfMemory`, `none` a write outside the slots.
unfoldable pub from_db_to_slot : Memory → Inventory → Item → ℕ → ℕ → Option (Bool × Inventory)
unfolding push index_slot
from_db_to_slot mem inv item slot_id item_id =
    let slot : InvSlot = record { slot_id = slot_id; item_id = item_id; item = item } in
    let filled : Option (Bool × Inventory) =
      elim (push mem.slot_junk mem.found inv.slot_count inv.slots slot) [
        | none ↦ none
        | some none ↦ some (result false inv)
        | some (some q) ↦ some (
            result true (
              index_slot slot_id inv.slot_count
                (record inv { slots = q; slot_count = u16 (inv.slot_count + 1) })))
      ] in
    if slot_id == slot_cursor
    then some (result true (record inv { cursor = some slot }))
    else filled

-- A row of `ClientLoadData_Inventory`
pub record Row : Type 0 where
  pub slot_id : ℕ
  pub item_id : ℕ
  pub stack_amt : ℕ
  pub charges : ℕ

-- `inv_from_db`; `known` says whether the list of items has a prototype. An `Item` is allocated for
-- each row that has one.
unfoldable pub from_db : Memory → (ℕ → Bool) → Inventory → List Row → Option (Bool × Inventory)
unfolding from_db_to_slot
from_db mem known inv [] = some (true, inv)
from_db mem known inv (r ∷ rs) =
    let item : Item = record { stack_amt = r.stack_amt; charges = r.charges } in
    let stored = from_db_to_slot mem inv item r.slot_id r.item_id in
    let next : Option (Bool × Inventory) = elim stored [
      | none ↦ none
      | some (ok, inv') ↦
          (let rest = from_db mem known inv' rs in if ok then rest else some (result false inv'))
    ] in
    let skipped = from_db mem known inv rs in
    if not (known r.item_id)
    then skipped
    else if mem.item_found
    then next
    else some (result false inv)

-- The loop of `inv_item_id_for_client` over the first `n` entries: the number, if there is one
unfoldable pub find_id : ℕ → ℕ → List ItemId → Option (Option ℕ)
find_id real zero m = some none
find_id real (suc n) [] = none
find_id real (suc n) (e ∷ m) =
    let rest = find_id real n m in if e.real_id == real then some (some e.client_id) else rest

-- `inv_item_id_for_client`; 0 when there is no memory
unfoldable pub item_id_for_client : Memory → Inventory → ℕ → Option (ℕ × Inventory)
unfolding find_id
item_id_for_client mem inv real =
    let n = inv.id_map_count in
    let i = u16 (n + id_offset) in
    elim (find_id real n inv.id_map) [
      | none ↦ none
      | some (some id) ↦ some (id, inv)
      | some none ↦
          elim (push mem.id_junk mem.found n inv.id_map
            (record { real_id = real; client_id = i })) [
              | none ↦ none
              | some none ↦ some (0, inv)
              | some (some q) ↦ some (i, record inv { id_map = q; id_map_count = u16 (n + 1) })
            ]
    ]
