-- ===== src/Skills.antt =====
-- src/skills.c and src/skills.h: the skills and languages of a character.
-- A store at a skill number outside `skill[SKILL_COUNT]` is the fault `none`: in C it writes past the
-- array. Skill and language numbers given to `skill_get` are taken as not negative.
mod Tables
mod Init
mod Database
mod Tests
use zeq_server_trilogy.Common.{
  ℕ, zero, suc, ◌+◌, ◌-◌, ◌^◌, Option, none, some, Bool, List, [], ◌∷◌, get_or, set, length,
  replicate, ltb, leb, ◌==◌, if◌then◌else◌, u8, u32,
}
use zeq_server_trilogy.Aligned.{M, write_uint8, ◌>>◌, return}
use Tables.{cant, racial_skills, class_skills}

pub record Skills : Type 0 where
  pub skill : List ℕ
  pub language : List ℕ

abbrev pub skill_count : ℕ
skill_count = 74

abbrev pub lang_count : ℕ
lang_count = 24

abbrev pub skill_cap : ℕ
skill_cap = 250

abbrev pub lang_cap : ℕ
lang_cap = 100

abbrev pub skill_language_db_offset : ℕ
skill_language_db_offset = 100

-- The numbers of `enum SkillId` that a race can start with.
abbrev pub skill_forage : ℕ
skill_forage = 27

abbrev pub skill_hide : ℕ
skill_hide = 29

abbrev pub skill_sneak : ℕ
skill_sneak = 42

abbrev pub skill_swimming : ℕ
skill_swimming = 50

abbrev pub skill_tinkering : ℕ
skill_tinkering = 57

-- `raceId - 1` in `uint32_t`, and `classId--` in `uint8_t`, each with its upper bound
pub race_index : ℕ → ℕ
race_index race_id = let i = u32 (race_id + 2 ^ 32 - 1) in if ltb 12 i then 12 else i

pub class_index : ℕ → ℕ
class_index class_id = let i = u8 (class_id + 2 ^ 8 - 1) in if ltb 13 i then 13 else i

-- An element of a table; both indices are in range, by `Init.in_tables`.
pub table_at : List (List ℕ) → ℕ → ℕ → ℕ
table_at table i j = get_or (get_or table i []) j 0

pub set_racial : ℕ → List ℕ → List ℕ
set_racial race skill =
    let s1 = set skill skill_hide (table_at racial_skills race 0) in
    let s2 = set s1 skill_sneak (table_at racial_skills race 1) in
    let s3 = set s2 skill_forage (table_at racial_skills race 2) in
    let s4 = set s3 skill_swimming (table_at racial_skills race 3) in
    set s4 skill_tinkering (table_at racial_skills race 4)

-- The loop over the class skills, from `i` on: it writes over what the race has not set.
pub set_class : ℕ → ℕ → ℕ → List ℕ → List ℕ
set_class zero i c skill = skill
set_class (suc n) i c skill =
    set_class n (i + 1) c
      (if get_or skill i 0 == cant then set skill i (table_at class_skills i c) else skill)

pub init : ℕ → ℕ → Skills
unfolding race_index class_index set_racial set_class table_at
init class_id race_id =
    let cleared = replicate skill_count cant in
    record {
      skill =
          set_class skill_count 0 (class_index class_id) (set_racial (race_index race_id) cleared);
      language = set (replicate lang_count 0) 0 lang_cap;
    }

-- The tail of `skills_set_from_db`: cap the value and store it as a skill.
pub store_skill : Skills → ℕ → ℕ → Option Skills
store_skill sk skill_id value =
    let capped = if ltb skill_cap value then skill_cap else value in
    if ltb skill_id (length sk.skill)
    then some (record sk { skill = set sk.skill skill_id (u8 capped) })
    else none

-- A language is stored, and then the same number is stored as a skill too.
pub set_from_db : Skills → ℕ → ℕ → Option Skills
unfolding store_skill
set_from_db sk skill_id value =
    if leb skill_language_db_offset skill_id
    then (let lang = skill_id - skill_language_db_offset in
        if leb lang_count lang
        then some sk
        else store_skill (record sk { language = set sk.language lang (u8 value) }) lang value)
    else store_skill sk skill_id value

pub write_all : List ℕ → M (Unit {0})
write_all [] = return tt
write_all (v ∷ vs) = write_uint8 v >> write_all vs

pub write_pp : Skills → M (Unit {0})
unfolding write_all
write_pp sk = write_all sk.skill

pub write_pp_languages : Skills → M (Unit {0})
unfolding write_all
write_pp_languages sk = write_all sk.language

pub skill_get : Skills → ℕ → ℕ
skill_get sk skill_id =
    let i = if leb skill_count skill_id then skill_count - 1 else skill_id in
    let val = get_or sk.skill i 0 in if ltb skill_cap val then 0 else val

pub skill_get_language : Skills → ℕ → ℕ
skill_get_language sk lang_id =
    let i = if leb lang_count lang_id then lang_count - 1 else lang_id in
    let val = get_or sk.language i 0 in if ltb skill_cap val then 0 else val

pub skill_is_learned_value : ℕ → Bool
skill_is_learned_value value = leb value skill_cap
