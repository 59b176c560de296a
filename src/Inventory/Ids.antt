-- ===== src/Inventory/Ids.antt =====
-- The numbers that a client gets for items.
use mathlib.Core.List.{append-nil}
use zeq_server_trilogy.Common.{
  ℕ, ◌+◌, ◌^◌, ◌≤◌, ◌<◌, ◌≡◌, ◌↔◌, ap, ◌∙◌, sym, subst, true, none, some, List, [], ◌∷◌, ◌++◌,
  length, u16, arith, inl, inr, length-take, length-append, dec_lt,
}
use zeq_server_trilogy.Growth
use zeq_server_trilogy.Growth.{push, push-live, HasPower}
use zeq_server_trilogy.Inventory.{Inventory, ItemId, Memory, find_id, item_id_for_client}
use zeq_server_trilogy.Inventory.Places.{
  entries, items, Counted, IsMap, index_of, find_id-number, number-index, index_of-le, items-append,
  length-items, Counted-append, index_of-append, index_of-snoc, index_of-injective,
}

sized-le : (n : ℕ) (m : List ItemId) → Growth.IsSized n m → n ≤ length m
sized-le n m (inl empty) = omega arith
sized-le n m (inr (w, lo, hi)) = omega arith

item_id_known :
    (mem : Memory) (inv : Inventory) (x id : ℕ)
    → find_id x inv.id_map_count inv.id_map ≡ some (some id)
    → item_id_for_client mem inv x ≡ some (id, inv)
unfolding item_id_for_client
item_id_known mem inv x id h = rw (item_id_for_client, h)

item_id_new :
    (mem : Memory) (inv : Inventory) (x : ℕ) (q : List ItemId)
    → mem.found ≡ true
    → inv.id_map_count + 1000 < 2 ^ 16
    → find_id x inv.id_map_count inv.id_map ≡ some none
    → push mem.id_junk true inv.id_map_count inv.id_map
        (record { real_id = x; client_id = inv.id_map_count + 1000 })
      ≡ some (some q)
    → item_id_for_client mem inv x
      ≡ some
          (inv.id_map_count + 1000, record inv { id_map = q; id_map_count = inv.id_map_count + 1 })
unfolding item_id_for_client
item_id_new mem inv x q found small none_yet run =
    let id : u16 (inv.id_map_count + 1000) ≡ inv.id_map_count + 1000 = omega arith in
    let next : u16 (inv.id_map_count + 1) ≡ inv.id_map_count + 1 = omega arith in
    rw (item_id_for_client, none_yet, id, found, run, next)
      (ap (λ (i : ℕ). some (i, record inv { id_map = q; id_map_count = inv.id_map_count + 1 })) id)

-- What one call gives
pub record Numbered (inv : Inventory) (x : ℕ) (inv' : Inventory) : Type 0 where
  pub map : IsMap inv'
  pub extra : List ℕ
  pub kept : items (entries inv') ≡ items (entries inv) ++ extra
  pub inside : index_of x (items (entries inv')) < length (items (entries inv'))
  pub count : inv'.id_map_count ≤ inv.id_map_count + 1

-- While memory is found, for a map that grew by powers of two and whose numbers count up from 1000,
-- with less than 64535 items: the map stays so, it grows by at most one item, and the number of an item is 1000 plus its
-- place in the map; an item that is not yet in it is added at the end, and the others keep their
-- places.
pub item_id_for_client-Numbered :
    (mem : Memory) (inv : Inventory) (x : ℕ)
    → mem.found ≡ true
    → IsMap inv
    → inv.id_map_count + 1001 < 2 ^ 16
    → (inv' : Inventory) × (item_id_for_client mem inv x
        ≡ some (1000 + index_of x (items (entries inv')), inv'))
      × Numbered inv x inv'
item_id_for_client-Numbered mem inv x found h small =
    let n = inv.id_map_count in
    let ys = items (entries inv) in
    let le = sized-le n inv.id_map h.sized in
    let size : length ys ≡ n =
      omega (arith, length-items (entries inv), length-take n inv.id_map) in
    let look = find_id-number 1000 x n inv.id_map le h.counted in
    elim (dec_lt (index_of x ys) (length ys)) [
      | yes there ↦ (
        inv,
        item_id_known mem inv x (1000 + index_of x ys)
            (look ∙ ap some ((number-index 1000 x ys).0 there)),
        record {
          map = h;
          extra = [];
          kept = sym (append-nil ys);
          inside = there;
          count = omega arith;
        },
      )
      | no absent ↦
          let end : index_of x ys ≡ length ys = omega (arith, index_of-le x ys) in
          let e : ItemId = record { real_id = x; client_id = n + 1000 } in
          let (q, run, power, all) = push-live mem.id_junk n inv.id_map e (omega arith) h.sized in
          let inv' = record inv { id_map = q; id_map_count = n + 1 } in
          let grown : items (entries inv') ≡ ys ++ x ∷ [] =
            ap items all ∙ items-append (entries inv) (e ∷ []) in
          let place : index_of x (items (entries inv')) ≡ n =
            ap (index_of x) grown ∙ index_of-snoc x ys end ∙ size in
          (
            inv',
            item_id_new mem inv x q found (omega arith)
                  (look ∙ ap some ((number-index 1000 x ys).1 end)) run
                ∙ ap (λ (i : ℕ). some (i, inv')) (omega arith),
            record {
              map = record {
                sized = inr power;
                counted = subst (Counted 1000) (sym all) (
                    Counted-append 1000 (entries inv) e h.counted
                      (omega (arith, length-items (entries inv))));
              };
              extra = x ∷ [];
              kept = grown;
              inside = omega (arith, ap length grown, length-append ys (x ∷ []));
              count = omega arith;
            },
          )
    ]

-- While memory is found, for a map that grew by powers of two and whose numbers count up from 1000,
-- with less than 64534 items: two items, one after the other, get the same number exactly when they
-- are the same item.
pub item_id_for_client-injective :
    (mem : Memory) (inv : Inventory) (x y : ℕ)
    → mem.found ≡ true
    → IsMap inv
    → inv.id_map_count + 1002 < 2 ^ 16
    → (id_x : ℕ) × (id_y : ℕ) × (inv_x : Inventory) × (inv_y : Inventory) × (item_id_for_client mem
          inv x
        ≡ some (id_x, inv_x))
      × (item_id_for_client mem inv_x y ≡ some (id_y, inv_y))
      × ((id_x ≡ id_y) ↔ (x ≡ y))
item_id_for_client-injective mem inv x y found h small =
    let (inv_x, run_x, first) = item_id_for_client-Numbered mem inv x found h (omega arith) in
    let count = first.count in
    let (inv_y, run_y, second) =
      item_id_for_client-Numbered mem inv_x y found first.map (omega arith) in
    let xs = items (entries inv_x) in
    let ys = items (entries inv_y) in
    let same : index_of x ys ≡ index_of x xs =
      ap (index_of x) second.kept ∙ index_of-append x xs second.extra first.inside in
    let inside : index_of x ys < length ys =
      omega (arith, first.inside, ap length second.kept, length-append xs second.extra) in
    (
      1000 + index_of x xs,
      1000 + index_of y ys,
      inv_x,
      inv_y,
      run_x,
      run_y,
      (
        λ e. index_of-injective x y ys inside (omega arith),
        λ e. omega (arith, same, ap (λ (z : ℕ). index_of z ys) e),
      ),
    )
