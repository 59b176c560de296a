-- ===== src/Skills/Database.antt =====
-- What `skills_set_from_db` stores, and what the getters then return.
use zeq_server_trilogy.Common.{
  ℕ, ◌+◌, ◌-◌, ◌%◌, ◌≤◌, ◌<◌, ◌≡◌, ◌≢◌, ◌⊎◌, refl, none, some, get_or, set, length, min, ltb, arith,
  length-set, get_or-set_self, get_or-set_ne, if◌then◌else◌, u8,
}
use zeq_server_trilogy.Skills.{
  Skills, skill_count, lang_count, skill_cap, set_from_db, skill_get, skill_get_language,
}

pub record IsValid (sk : Skills) : Type 0 where
  pub skills : length sk.skill ≡ skill_count
  pub languages : length sk.language ≡ lang_count

-- `set_from_db` keeps the sizes of both arrays.
pub set_from_db-IsValid :
    {sk sk' : Skills} (id v : ℕ) → IsValid sk → set_from_db sk id v ≡ some sk' → IsValid sk'
unfolding set_from_db
set_from_db-IsValid {sk} id v k e = ground (
  arith,
  length-set sk.skill id (u8 (if ltb skill_cap v then skill_cap else v)),
  length-set sk.skill (id - 100) (u8 (if ltb skill_cap v then skill_cap else v)),
  length-set sk.language (id - 100) (u8 v),
)

-- The store leaves the array exactly for the numbers between the skills and the languages.
pub set_from_db-eq-none :
    (sk : Skills) (id v : ℕ)
    → IsValid sk
    → (skill_count ≤ id → id < 100 → set_from_db sk id v ≡ none)
      × ((id < skill_count) ⊎ (100 ≤ id) → set_from_db sk id v ≢ none)
unfolding set_from_db
set_from_db-eq-none sk id v k = (λ p q. ground arith, λ p e. ground arith)

-- For a skill number: the stored value is capped at 250, `skill_get` returns it, no other skill
-- and no language changes.
pub set_from_db_skill :
    (sk : Skills) (id v : ℕ)
    → IsValid sk
    → id < skill_count
    → (sk' : Skills) × (set_from_db sk id v ≡ some sk')
      × (skill_get sk' id ≡ min v skill_cap)
      × ((j : ℕ) → j < skill_count → j ≢ id → skill_get sk' j ≡ skill_get sk j)
      × ((j : ℕ) → skill_get_language sk' j ≡ skill_get_language sk j)
unfolding set_from_db skill_get skill_get_language
set_from_db_skill sk id v k h =
    let w = u8 (if ltb skill_cap v then skill_cap else v) in
    (
      record sk { skill = set sk.skill id w },
      ground arith,
      ground (arith, get_or-set_self sk.skill id w 0),
      λ j lt ne. ground (arith, get_or-set_ne sk.skill id j w 0),
      λ j. refl,
    )

-- For a language number 100 + lang: the language is stored modulo 256, and the skill with the number
-- `lang` is overwritten by the value capped at 250. No other skill and no other language changes.
pub set_from_db_language :
    (sk : Skills) (lang v : ℕ)
    → IsValid sk
    → lang < lang_count
    → (sk' : Skills) × (set_from_db sk (100 + lang) v ≡ some sk')
      × (get_or sk'.language lang 0 ≡ v % 256)
      × (skill_get sk' lang ≡ min v skill_cap)
      × ((j : ℕ) → j < skill_count → j ≢ lang → skill_get sk' j ≡ skill_get sk j)
      × ((j : ℕ) → j < lang_count → j ≢ lang → skill_get_language sk' j ≡ skill_get_language sk j)
unfolding set_from_db skill_get skill_get_language
set_from_db_language sk lang v k h =
    let w = u8 (if ltb skill_cap v then skill_cap else v) in
    (
      record { skill = set sk.skill lang w; language = set sk.language lang (u8 v) },
      ground arith,
      get_or-set_self sk.language lang (u8 v) 0 (omega arith),
      ground (arith, get_or-set_self sk.skill lang w 0),
      λ j lt ne. ground (arith, get_or-set_ne sk.skill lang j w 0),
      λ j lt ne. ground (arith, get_or-set_ne sk.language lang j (u8 v) 0),
    )
