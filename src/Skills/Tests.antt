-- ===== src/Skills/Tests.antt =====
-- Skills of concrete characters.
use zeq_server_trilogy.Common.{ℕ, ◌+◌, ◌%◌, ◌≤◌, ◌<◌, ◌≡◌, ◌≢◌, ◌⊎◌, none, some, get_or, min, arith}
use zeq_server_trilogy.Skills.{
  Skills, skill_count, lang_count, skill_cap, init, set_from_db, skill_get, skill_get_language,
}
use zeq_server_trilogy.Skills.Init.{init_lem, skill_get-init-le}
use zeq_server_trilogy.Skills.Database.{
  set_from_db-eq-none, set_from_db_skill, set_from_db_language,
}

-- A gnome rogue
abbrev rogue : Skills
rogue = init 9 12

skill_get-init-le_example : skill_get (init 9 12) 29 ≤ 100
skill_get-init-le_example = skill_get-init-le 9 12 29

set_from_db-eq-none_example :
    (skill_count ≤ 80 → 80 < 100 → set_from_db rogue 80 5 ≡ none)
    × ((80 < skill_count) ⊎ (100 ≤ 80) → set_from_db rogue 80 5 ≢ none)
set_from_db-eq-none_example = set_from_db-eq-none rogue 80 5 (init_lem 9 12).0

set_from_db_skill_example :
    (sk' : Skills) × (set_from_db rogue 6 255 ≡ some sk')
    × (skill_get sk' 6 ≡ min 255 skill_cap)
    × ((j : ℕ) → j < skill_count → j ≢ 6 → skill_get sk' j ≡ skill_get rogue j)
    × ((j : ℕ) → skill_get_language sk' j ≡ skill_get_language rogue j)
set_from_db_skill_example = set_from_db_skill rogue 6 255 (init_lem 9 12).0 (omega arith)

set_from_db_language_example :
    (sk' : Skills) × (set_from_db rogue (100 + 1) 100 ≡ some sk')
    × (get_or sk'.language 1 0 ≡ 100 % 256)
    × (skill_get sk' 1 ≡ min 100 skill_cap)
    × ((j : ℕ) → j < skill_count → j ≢ 1 → skill_get sk' j ≡ skill_get rogue j)
    × ((j : ℕ) → j < lang_count → j ≢ 1 → skill_get_language sk' j ≡ skill_get_language rogue j)
set_from_db_language_example = set_from_db_language rogue 1 100 (init_lem 9 12).0 (omega arith)
