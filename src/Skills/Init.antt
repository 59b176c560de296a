-- ===== src/Skills/Init.antt =====
-- `skills_init`: the state of a fresh character, for every class and race number.
use zeq_server_trilogy.Common.{
  ℕ, zero, suc, ◌+◌, ◌-◌, ◌≤◌, ◌<◌, ◌≡◌, ◌≢◌, refl, ap, ◌∙◌, List, get_or, set, length, ltb, ◌==◌,
  ℕ_discrete, arith, length-set, get_or-set_self, get_or-set_ne, if◌then◌else◌, leb, ◌&&◌, ◌||◌,
  true, Bool, [], ◌∷◌, replicate,
}
use zeq_server_trilogy.Skills.Tables.{cant, notyet, racial_skills, class_skills}
use zeq_server_trilogy.Skills.{
  skill_count, lang_count, skill_cap, race_index, class_index, table_at, set_racial, set_class,
  init, skill_get, lang_cap, skill_forage, skill_hide, skill_sneak, skill_swimming, skill_tinkering,
}
use zeq_server_trilogy.Skills.Database.{IsValid}

length-set_class : (n i c : ℕ) (skill : List ℕ) → length (set_class n i c skill) ≡ length skill
unfolding set_class
length-set_class zero i c skill = refl
length-set_class (suc n) i c skill =
    length-set_class n (i + 1) c _ ∙ ground (arith, length-set skill i (table_at class_skills i c))

set_class_below :
    (n i c j : ℕ) (skill : List ℕ) → j < i → get_or (set_class n i c skill) j 0 ≡ get_or skill j 0
unfolding set_class
set_class_below zero i c j skill h = refl
set_class_below (suc n) i c j skill h =
    set_class_below n (i + 1) c j _ (omega arith)
    ∙ ground (arith, get_or-set_ne skill i j (table_at class_skills i c) 0)

-- The skill array after round `i` of the loop.
abbrev after : ℕ → ℕ → List ℕ → List ℕ
after i c skill =
    if get_or skill i 0 == cant then set skill i (table_at class_skills i c) else skill

get_or-after_ne :
    (i c j : ℕ) (skill : List ℕ) → i ≢ j → get_or (after i c skill) j 0 ≡ get_or skill j 0
get_or-after_ne i c j skill ne =
    ground (arith, get_or-set_ne skill i j (table_at class_skills i c) 0)

length-after : (i c : ℕ) (skill : List ℕ) → length (after i c skill) ≡ length skill
length-after i c skill = ground (arith, length-set skill i (table_at class_skills i c))

-- The value that the loop gives to skill `j` where `v` stood.
abbrev pub or_class : ℕ → ℕ → ℕ → ℕ
or_class v j c = if v == cant then table_at class_skills j c else v

set_class_at :
    (n i c j : ℕ) (skill : List ℕ)
    → i ≤ j
    → j < i + n
    → i + n ≤ length skill
    → get_or (set_class n i c skill) j 0 ≡ or_class (get_or skill j 0) j c
unfolding set_class
set_class_at zero i c j skill lo hi len = absurd (omega arith)
set_class_at (suc n) i c j skill lo hi len = elim (ℕ_discrete i j) [
  | yes e ↦ rw (← e) (
      set_class_below n (i + 1) c i (after i c skill) (omega arith)
      ∙ ground (arith, get_or-set_self skill i (table_at class_skills i c) 0))
  | no ne ↦
      set_class_at n (i + 1) c j (after i c skill) (omega arith) (omega arith)
        (omega (arith, length-after i c skill))
      ∙ ap (λ (v : ℕ). or_class v j c) (get_or-after_ne i c j skill ne)
]

-- What a race starts with: a table of five skills, nothing else.
abbrev pub racial : ℕ → ℕ → ℕ
racial race j =
    if j == skill_hide
    then table_at racial_skills race 0
    else if j == skill_sneak
    then table_at racial_skills race 1
    else if j == skill_forage
    then table_at racial_skills race 2
    else if j == skill_swimming
    then table_at racial_skills race 3
    else if j == skill_tinkering
    then table_at racial_skills race 4
    else cant

get_or-set :
    (xs : List ℕ) (i j v d : ℕ)
    → i < length xs
    → get_or (set xs i v) j d ≡ (if j == i then v else get_or xs j d)
get_or-set xs i j v d h = ground (arith, get_or-set_self xs i v d, get_or-set_ne xs i j v d)

get_or-replicate : (n i v : ℕ) → i < n → get_or (replicate n v) i 0 ≡ v
get_or-replicate zero i v h = elim h [ ]
get_or-replicate (suc n) zero v h = refl
get_or-replicate (suc n) (suc i) v h = get_or-replicate n i v (omega arith)

get_or-set_racial :
    (race j : ℕ) (cleared : List ℕ)
    → length cleared ≡ skill_count
    → get_or cleared j 0 ≡ cant
    → get_or (set_racial race cleared) j 0 ≡ racial race j
unfolding set_racial
get_or-set_racial race j cleared len e =
    let v = table_at racial_skills race in
    let s1 = set cleared skill_hide (v 0) in
    let s2 = set s1 skill_sneak (v 1) in
    let s3 = set s2 skill_forage (v 2) in
    let s4 = set s3 skill_swimming (v 3) in
    let l1 = length-set cleared skill_hide (v 0) ∙ len in
    let l2 = length-set s1 skill_sneak (v 1) ∙ l1 in
    let l3 = length-set s2 skill_forage (v 2) ∙ l2 in
    let l4 = length-set s3 skill_swimming (v 3) ∙ l3 in
    ground (
      arith,
      get_or-set cleared skill_hide j (v 0) 0,
      get_or-set s1 skill_sneak j (v 1) 0,
      get_or-set s2 skill_forage j (v 2) 0,
      get_or-set s3 skill_swimming j (v 3) 0,
      get_or-set s4 skill_tinkering j (v 4) 0,
    )

length-set_racial : (race : ℕ) (skill : List ℕ) → length (set_racial race skill) ≡ length skill
unfolding set_racial
length-set_racial race skill = simp length-set

pub init-IsValid : (class_id race_id : ℕ) → IsValid (init class_id race_id)
unfolding init
init-IsValid class_id race_id = record {
  skills =
      length-set_class skill_count 0 (class_index class_id)
        (set_racial (race_index race_id) (replicate skill_count cant))
      ∙ length-set_racial (race_index race_id) (replicate skill_count cant);
  languages = refl;
}

get_or-replicate_zero : (n j : ℕ) → get_or (replicate {A = ℕ} n 0) j 0 ≡ 0
get_or-replicate_zero zero j = refl
get_or-replicate_zero (suc n) zero = refl
get_or-replicate_zero (suc n) (suc j) = get_or-replicate_zero n j

fresh_languages :
    (j : ℕ)
    → get_or (set (replicate lang_count 0) 0 lang_cap) j 0 ≡ (if j == 0 then lang_cap else 0)
fresh_languages zero = refl
fresh_languages (suc j) = ground (arith, get_or-replicate_zero 23 j)

pub init_lem :
    (class_id race_id : ℕ)
    → IsValid (init class_id race_id)
      × ((j : ℕ)
          → j < skill_count
          → get_or (init class_id race_id).skill j 0
            ≡ or_class (racial (race_index race_id) j) j (class_index class_id))
      × ((j : ℕ) → get_or (init class_id race_id).language j 0 ≡ (if j == 0 then lang_cap else 0))
unfolding init
init_lem class_id race_id =
    let c = class_index class_id in
    let race = race_index race_id in
    let skill = set_racial race (replicate skill_count cant) in
    let size = length-set_racial race (replicate skill_count cant) in
    (
      init-IsValid class_id race_id,
      λ j lt.
          set_class_at skill_count 0 c j skill (omega arith) (omega arith) (omega (arith, size))
          ∙ ap (λ (v : ℕ). or_class v j c)
              (get_or-set_racial race j (replicate skill_count cant) refl
                (get_or-replicate skill_count j cant lt)),
      fresh_languages,
    )

-- The entries of both tables: a start value of at most 100, or one of the two marks.
well : ℕ → Bool
well v = leb v 100 || (v == notyet || v == cant)

all_well : List ℕ → Bool
all_well [] = true
all_well (v ∷ vs) = well v && all_well vs

all_rows : List (List ℕ) → Bool
all_rows [] = true
all_rows (row ∷ rows) = all_well row && all_rows rows

get_or-well : (row : List ℕ) (j : ℕ) → all_well row ≡ true → well (get_or row j 0) ≡ true
unfolding all_well well
get_or-well [] j h = refl
get_or-well (v ∷ row) zero h = ground arith
get_or-well (v ∷ row) (suc j) h = get_or-well row j (ground arith)

table_at-well :
    (table : List (List ℕ)) (i j : ℕ) → all_rows table ≡ true → well (table_at table i j) ≡ true
unfolding table_at all_rows well
table_at-well [] i j h = refl
table_at-well (row ∷ rows) zero j h = get_or-well row j (ground arith)
table_at-well (row ∷ rows) (suc i) j h = table_at-well rows i j (ground arith)

tables_well : (all_rows racial_skills ≡ true) × (all_rows class_skills ≡ true)
unfolding all_rows all_well well racial_skills class_skills
tables_well = (refl, refl)

or_class-well : (race j c : ℕ) → well (or_class (racial race j) j c) ≡ true
unfolding well
or_class-well race j c =
    let t = table_at-well racial_skills race in
    let ok = tables_well.0 in
    ground
      (arith, t 0 ok, t 1 ok, t 2 ok, t 3 ok, t 4 ok, table_at-well class_skills j c tables_well.1)

well_read : (v : ℕ) → well v ≡ true → (if ltb skill_cap v then 0 else v) ≤ 100
unfolding well
well_read v h = ground arith

-- Every skill of a fresh character reads as at most 100, whatever its class and race.
pub skill_get-init-le : (class_id race_id j : ℕ) → skill_get (init class_id race_id) j ≤ 100
unfolding skill_get
skill_get-init-le class_id race_id j =
    let i : ℕ = if leb skill_count j then skill_count - 1 else j in
    let lt : i < skill_count = ground arith in
    let stored = (init_lem class_id race_id).1 i lt in
    let c = class_index class_id in
    well_read (get_or (init class_id race_id).skill i 0)
      (rw stored (or_class-well (race_index race_id) i c))
