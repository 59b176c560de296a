-- ===== src/Inventory/Tests.antt =====
-- The numbers of concrete items.
use zeq_server_trilogy.Common.{
  inl, List, Bool, ℕ, ◌+◌, ◌≡◌, ◌↔◌, inr, refl, true, none, some, [], ◌∷◌, arith, ◌==◌,
}
use zeq_server_trilogy.Bit.{is_pow2_or_zero}
use zeq_server_trilogy.Inventory.{Row, Inventory, Item, Memory, item_id_for_client, from_db}
use zeq_server_trilogy.Inventory.Loaded.{Loaded, stored, from_db-Loaded}
use zeq_server_trilogy.Inventory.Places.{IsMap, entries, items, index_of}
use zeq_server_trilogy.Inventory.Ids.{
  Numbered, item_id_for_client-Numbered, item_id_for_client-injective,
}

abbrev item : Item
item = record { stack_amt = 1; charges = 0 }

abbrev found : Memory
found = record {
  found = true;
  item_found = true;
  slot_junk = record { slot_id = 0; item_id = 0; item = item };
  id_junk = record { real_id = 0; client_id = 0 };
}

-- Two items have numbers.
abbrev two : Inventory
two = record {
  primary_index = none;
  secondary_index = none;
  range_index = none;
  ammo_index = none;
  slot_count = 0;
  id_map_count = 2;
  cursor = none;
  slots = [];
  id_map =
      record { real_id = 70; client_id = 1000 } ∷ record { real_id = 80; client_id = 1001 } ∷ [];
}

two-IsMap : IsMap two
two-IsMap = record { sized = inr (1, omega arith, omega arith); counted = (refl, (refl, tt)) }

item_id_for_client-Numbered_example :
    (inv' : Inventory) × (item_id_for_client found two 90
      ≡ some (1000 + index_of 90 (items (entries inv')), inv'))
    × Numbered two 90 inv'
item_id_for_client-Numbered_example =
    item_id_for_client-Numbered found two 90 refl two-IsMap (omega arith)

abbrev new_item : ℕ
new_item = 90

abbrev known_item : ℕ
known_item = 80

item_id_for_client-injective_example :
    (id_x : ℕ) × (id_y : ℕ) × (inv_x : Inventory) × (inv_y : Inventory) × (item_id_for_client found
        two 90
      ≡ some (id_x, inv_x))
    × (item_id_for_client found inv_x known_item ≡ some (id_y, inv_y))
    × ((id_x ≡ id_y) ↔ (new_item ≡ known_item))
item_id_for_client-injective_example =
    item_id_for_client-injective found two new_item known_item refl two-IsMap (omega arith)

abbrev rows : List Row
rows =
    record { slot_id = 13; item_id = 5; stack_amt = 1; charges = 2 }
    ∷ record { slot_id = 30; item_id = 5; stack_amt = 3; charges = 0 }
    ∷ record { slot_id = 14; item_id = 6; stack_amt = 1; charges = 0 }
    ∷ record { slot_id = 22; item_id = 5; stack_amt = 7; charges = 0 }
    ∷ []

abbrev is_five : ℕ → Bool
is_five id = id == 5

from_db-Loaded_example : Loaded (from_db found is_five two rows) two (stored is_five rows) 4
from_db-Loaded_example = from_db-Loaded found is_five two rows refl refl (inl refl) (omega arith)

-- Two rows, one of an item that no longer exists
two_rows :
    from_db found
      (λ id. id == 5)
      two
      (record { slot_id = 13; item_id = 5; stack_amt = 1; charges = 2 }
        ∷ record { slot_id = 14; item_id = 6; stack_amt = 1; charges = 0 }
        ∷ [])
    ≡ some (
      true,
      record two {
        primary_index = some 0;
        slot_count = 1;
        slots =
            record { slot_id = 13; item_id = 5; item = record { stack_amt = 1; charges = 2 } } ∷ [];
      },
    )
unfolding from_db is_pow2_or_zero
two_rows = refl
