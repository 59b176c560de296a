-- ===== src/Inventory/Places.antt =====
-- The map from items to numbers as a list, and the place of an item in it.
use zeq_server_trilogy.Common.{
  ℕ, zero, suc, ◌+◌, ◌≤◌, ◌<◌, ◌≡◌, refl, ap, ◌∙◌, Option, none, some, List, [], ◌∷◌, ◌++◌, ◌==◌,
  length, take, if◌then◌else◌, arith, Bool-cases, inl, inr,
}
use zeq_server_trilogy.Growth
use zeq_server_trilogy.Growth.{push, push-live, HasPower}
use zeq_server_trilogy.Inventory.{Inventory, ItemId, find_id}

-- The items that have numbers, in order
abbrev pub entries : Inventory → List ItemId
entries inv = take inv.id_map_count inv.id_map

abbrev pub items : List ItemId → List ℕ
items [] = []
items (e ∷ es) = e.real_id ∷ items es

-- The numbers are those from `k` on, in order.
abbrev pub Counted : ℕ → List ItemId → Type 0
Counted k [] = Unit {0}
Counted k (e ∷ es) = (e.client_id ≡ k) × Counted (k + 1) es

pub record IsMap (inv : Inventory) : Type 0 where
  pub sized : Growth.IsSized inv.id_map_count inv.id_map
  pub counted : Counted 1000 (entries inv)

-- The place of an item in a list, or the length of the list
abbrev pub index_of : ℕ → List ℕ → ℕ
index_of x [] = 0
index_of x (y ∷ ys) = if y == x then 0 else suc (index_of x ys)

-- The number of an item that is in the list
abbrev pub number : ℕ → ℕ → List ℕ → Option ℕ
number k x [] = none
number k x (y ∷ ys) = if y == x then some k else number (k + 1) x ys

pub find_id-number :
    (k x n : ℕ) (m : List ItemId)
    → n ≤ length m
    → Counted k (take n m)
    → find_id x n m ≡ some (number k x (items (take n m)))
unfolding find_id
find_id-number k x zero m h c = refl
find_id-number k x (suc n) [] h c = elim h [ ]
find_id-number k x (suc n) (e ∷ m) h c = elim (Bool-cases (e.real_id == x)) [
  | inl here ↦ rw (here) (ap (λ (i : ℕ). some (some i)) c.0)
  | inr there ↦ rw (there) (find_id-number (k + 1) x n m (omega arith) c.1)
]

pub number-index :
    (k x : ℕ) (ys : List ℕ)
    → (index_of x ys < length ys → number k x ys ≡ some (k + index_of x ys))
      × (index_of x ys ≡ length ys → number k x ys ≡ none)
number-index k x [] = (λ h. absurd (omega arith), λ h. refl)
number-index k x (y ∷ ys) = elim (Bool-cases (y == x)) [
  | inl here ↦ rw (here) (λ h. ap some (omega arith), λ h. absurd (omega arith))
  | inr there ↦
      let (inside, outside) = number-index (k + 1) x ys in
      rw (there) (λ h. inside (omega arith) ∙ ap some (omega arith), λ h. outside (omega arith))
]

pub index_of-le : (x : ℕ) (ys : List ℕ) → index_of x ys ≤ length ys
index_of-le x [] = omega arith
index_of-le x (y ∷ ys) = ground (arith, index_of-le x ys)

pub items-append : (xs ys : List ItemId) → items (xs ++ ys) ≡ items xs ++ items ys
items-append [] ys = refl
items-append (e ∷ xs) ys = ap (λ (l : List ℕ). e.real_id ∷ l) (items-append xs ys)

pub length-items : (xs : List ItemId) → length (items xs) ≡ length xs
length-items [] = refl
length-items (e ∷ xs) = ap suc (length-items xs)

pub Counted-append :
    (k : ℕ) (xs : List ItemId) (e : ItemId)
    → Counted k xs
    → e.client_id ≡ k + length xs
    → Counted k (xs ++ e ∷ [])
Counted-append k [] e c h = (omega arith, tt)
Counted-append k (x ∷ xs) e c h = (c.0, Counted-append (k + 1) xs e c.1 (omega arith))

pub index_of-append :
    (x : ℕ) (ys zs : List ℕ) → index_of x ys < length ys → index_of x (ys ++ zs) ≡ index_of x ys
index_of-append x [] zs h = absurd (omega arith)
index_of-append x (y ∷ ys) zs h = elim (Bool-cases (y == x)) [
  | inl here ↦ rw (here)
  | inr there ↦
      let lt : index_of x ys < length ys = ground arith in
      rw (there) (ap suc (index_of-append x ys zs lt))
]

pub index_of-snoc :
    (x : ℕ) (ys : List ℕ) → index_of x ys ≡ length ys → index_of x (ys ++ x ∷ []) ≡ length ys
index_of-snoc x [] h = ground arith
index_of-snoc x (y ∷ ys) h = elim (Bool-cases (y == x)) [
  | inl here ↦ absurd (ground arith)
  | inr there ↦
      let e : index_of x ys ≡ length ys = ground arith in rw (there) (ap suc (index_of-snoc x ys e))
]

pub index_of-injective :
    (x y : ℕ) (zs : List ℕ) → index_of x zs < length zs → index_of x zs ≡ index_of y zs → x ≡ y
index_of-injective x y [] h e = absurd (omega arith)
index_of-injective x y (z ∷ zs) h e = elim (Bool-cases (z == x)) [
  | inl here ↦ ground arith
  | inr there ↦
      let lt : index_of x zs < length zs = ground arith in
      elim (Bool-cases (z == y)) [
        | inl other ↦ absurd (ground arith)
        | inr neither ↦
            let next : index_of x zs ≡ index_of y zs = ground arith in
            index_of-injective x y zs lt next
      ]
]
