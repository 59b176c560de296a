-- ===== src/Skills/Tables.antt =====
-- The two tables of `skills_init` (src/skills.c): what a race starts with, and what a class has at
-- level 1. A row of the class table is a skill, in the order of `enum SkillId` of src/skills.h.
use zeq_server_trilogy.Common.{ℕ, List, [], ◌∷◌}

-- `SKILL_CANT_LEARN` and `SKILL_HAVENT_TRAINED_YET`
abbrev pub cant : ℕ
cant = 0xff

abbrev pub notyet : ℕ
notyet = 0xfe

-- Hide, Sneak, Forage, Swimming, Tinkering
unfoldable pub racial_skills : List (List ℕ)
racial_skills =
    (cant ∷ cant ∷ cant ∷ cant ∷ cant ∷ [])
    ∷ (cant ∷ cant ∷ cant ∷ cant ∷ cant ∷ [])
    ∷ (cant ∷ cant ∷ cant ∷ cant ∷ cant ∷ [])
    ∷ (50 ∷ cant ∷ 50 ∷ cant ∷ cant ∷ [])
    ∷ (cant ∷ cant ∷ cant ∷ cant ∷ cant ∷ [])
    ∷ (50 ∷ cant ∷ cant ∷ cant ∷ cant ∷ [])
    ∷ (cant ∷ cant ∷ cant ∷ cant ∷ cant ∷ [])
    ∷ (cant ∷ cant ∷ cant ∷ cant ∷ cant ∷ [])
    ∷ (cant ∷ cant ∷ cant ∷ cant ∷ cant ∷ [])
    ∷ (cant ∷ cant ∷ cant ∷ cant ∷ cant ∷ [])
    ∷ (50 ∷ 50 ∷ cant ∷ cant ∷ cant ∷ [])
    ∷ (cant ∷ cant ∷ cant ∷ cant ∷ 50 ∷ [])
    ∷ (cant ∷ cant ∷ 50 ∷ 100 ∷ cant ∷ [])
    ∷ []

-- Warrior, Cleric, Paladin, Ranger, ShadowKnight, Druid, Monk, Bard, Rogue, Shaman, Necromancer,
-- Wizard, Magician, Enchanter
unfoldable pub class_skills : List (List ℕ)
class_skills =
    (0 ∷ 0 ∷ 0 ∷ 0 ∷ 0 ∷ 0 ∷ 0 ∷ 0 ∷ 0 ∷ 0 ∷ 0 ∷ 0 ∷ 0 ∷ 0 ∷ [])
    ∷ (0 ∷ cant ∷ 0 ∷ 0 ∷ 0 ∷ 0 ∷ cant ∷ 0 ∷ 0 ∷ cant ∷ cant ∷ cant ∷ cant ∷ cant ∷ [])
    ∷ (0 ∷ 0 ∷ 0 ∷ 0 ∷ 0 ∷ 0 ∷ 0 ∷ cant ∷ cant ∷ 0 ∷ 0 ∷ 0 ∷ 0 ∷ 0 ∷ [])
    ∷ (0 ∷ cant ∷ 0 ∷ 0 ∷ 0 ∷ cant ∷ cant ∷ cant ∷ cant ∷ cant ∷ cant ∷ cant ∷ cant ∷ cant ∷ [])
    ∷ (cant ∷ 0 ∷ notyet ∷ notyet ∷ notyet ∷ 0 ∷ cant ∷ cant ∷ cant ∷ 0 ∷ 0 ∷ 0 ∷ 0 ∷ 0 ∷ [])
    ∷ (cant ∷ 0 ∷ notyet ∷ notyet ∷ notyet ∷ 0 ∷ cant ∷ cant ∷ cant ∷ 0 ∷ 0 ∷ 0 ∷ 0 ∷ 0 ∷ [])
    ∷ (cant ∷ cant ∷ cant ∷ cant ∷ cant ∷ cant ∷ cant ∷ cant ∷ notyet ∷ cant ∷ cant ∷ cant ∷ cant
        ∷ cant ∷ [])
    ∷ (0 ∷ cant ∷ 0 ∷ 0 ∷ 0 ∷ cant ∷ cant ∷ cant ∷ 0 ∷ cant ∷ cant ∷ cant ∷ cant ∷ cant ∷ [])
    ∷ (cant ∷ cant ∷ cant ∷ cant ∷ cant ∷ cant ∷ cant ∷ cant ∷ notyet ∷ cant ∷ cant ∷ cant ∷ cant
        ∷ cant ∷ [])
    ∷ (0 ∷ 0 ∷ 0 ∷ 0 ∷ 0 ∷ 0 ∷ 0 ∷ 0 ∷ 0 ∷ 0 ∷ 0 ∷ 0 ∷ 0 ∷ 0 ∷ [])
    ∷ (0 ∷ cant ∷ 0 ∷ cant ∷ 0 ∷ cant ∷ cant ∷ cant ∷ cant ∷ cant ∷ cant ∷ cant ∷ cant ∷ cant ∷ [])
    ∷ (cant ∷ cant ∷ cant ∷ cant ∷ cant ∷ cant ∷ notyet ∷ cant ∷ cant ∷ cant ∷ cant ∷ cant ∷ cant
        ∷ cant ∷ [])
    ∷ (cant ∷ cant ∷ cant ∷ cant ∷ cant ∷ cant ∷ cant ∷ 0 ∷ cant ∷ cant ∷ cant ∷ cant ∷ cant ∷ cant
        ∷ [])
    ∷ (cant ∷ notyet ∷ notyet ∷ notyet ∷ notyet ∷ notyet ∷ cant ∷ cant ∷ cant ∷ notyet ∷ 0 ∷ 0 ∷ 0
        ∷ 0 ∷ [])
    ∷ (cant ∷ 0 ∷ notyet ∷ notyet ∷ notyet ∷ 0 ∷ cant ∷ cant ∷ cant ∷ 0 ∷ 0 ∷ 0 ∷ 0 ∷ 0 ∷ [])
    ∷ (0 ∷ 0 ∷ 0 ∷ 0 ∷ 0 ∷ 0 ∷ 0 ∷ 0 ∷ 0 ∷ 0 ∷ 0 ∷ 0 ∷ 0 ∷ 0 ∷ [])
    ∷ (notyet ∷ cant ∷ notyet ∷ notyet ∷ notyet ∷ cant ∷ notyet ∷ cant ∷ notyet ∷ cant ∷ cant ∷ cant
        ∷ cant ∷ cant ∷ [])
    ∷ (cant ∷ cant ∷ cant ∷ cant ∷ cant ∷ cant ∷ cant ∷ notyet ∷ notyet ∷ cant ∷ cant ∷ cant ∷ cant
        ∷ cant ∷ [])
    ∷ (cant ∷ 0 ∷ notyet ∷ notyet ∷ notyet ∷ 0 ∷ cant ∷ cant ∷ cant ∷ 0 ∷ 0 ∷ 0 ∷ 0 ∷ 0 ∷ [])
    ∷ (notyet ∷ notyet ∷ notyet ∷ notyet ∷ notyet ∷ notyet ∷ 0 ∷ notyet ∷ notyet ∷ notyet ∷ notyet
        ∷ notyet ∷ notyet ∷ notyet ∷ [])
    ∷ (notyet ∷ cant ∷ notyet ∷ notyet ∷ notyet ∷ cant ∷ notyet ∷ cant ∷ notyet ∷ cant ∷ cant ∷ cant
        ∷ cant ∷ cant ∷ [])
    ∷ (cant ∷ cant ∷ cant ∷ cant ∷ cant ∷ cant ∷ notyet ∷ cant ∷ cant ∷ cant ∷ cant ∷ cant ∷ cant
        ∷ cant ∷ [])
    ∷ (notyet ∷ cant ∷ cant ∷ notyet ∷ cant ∷ cant ∷ 0 ∷ notyet ∷ notyet ∷ cant ∷ cant ∷ cant ∷ cant
        ∷ cant ∷ [])
    ∷ (cant ∷ cant ∷ cant ∷ cant ∷ cant ∷ cant ∷ notyet ∷ cant ∷ cant ∷ cant ∷ cant ∷ cant ∷ cant
        ∷ cant ∷ [])
    ∷ (cant ∷ 0 ∷ notyet ∷ notyet ∷ notyet ∷ 0 ∷ cant ∷ cant ∷ cant ∷ 0 ∷ 0 ∷ 0 ∷ 0 ∷ 0 ∷ [])
    ∷ (cant ∷ cant ∷ cant ∷ cant ∷ cant ∷ cant ∷ notyet ∷ cant ∷ cant ∷ cant ∷ cant ∷ cant ∷ cant
        ∷ cant ∷ [])
    ∷ (cant ∷ cant ∷ cant ∷ cant ∷ cant ∷ cant ∷ notyet ∷ cant ∷ cant ∷ cant ∷ cant ∷ cant ∷ cant
        ∷ cant ∷ [])
    ∷ (cant ∷ cant ∷ cant ∷ notyet ∷ cant ∷ notyet ∷ cant ∷ notyet ∷ cant ∷ cant ∷ cant ∷ cant
        ∷ cant ∷ cant ∷ [])
    ∷ (0 ∷ 0 ∷ 0 ∷ 0 ∷ 0 ∷ 0 ∷ 0 ∷ 0 ∷ 0 ∷ 0 ∷ 0 ∷ 0 ∷ 0 ∷ 0 ∷ [])
    ∷ (cant ∷ cant ∷ cant ∷ notyet ∷ notyet ∷ cant ∷ cant ∷ notyet ∷ notyet ∷ cant ∷ cant ∷ cant
        ∷ cant ∷ cant ∷ [])
    ∷ (0 ∷ cant ∷ cant ∷ notyet ∷ cant ∷ cant ∷ 0 ∷ cant ∷ cant ∷ cant ∷ cant ∷ cant ∷ cant ∷ cant
        ∷ [])
    ∷ (cant ∷ notyet ∷ notyet ∷ notyet ∷ notyet ∷ notyet ∷ cant ∷ cant ∷ cant ∷ notyet ∷ notyet
        ∷ notyet ∷ notyet ∷ notyet ∷ [])
    ∷ (cant ∷ cant ∷ cant ∷ cant ∷ cant ∷ cant ∷ 0 ∷ cant ∷ cant ∷ cant ∷ cant ∷ cant ∷ cant ∷ cant
        ∷ [])
    ∷ (0 ∷ 0 ∷ 0 ∷ 0 ∷ 0 ∷ 0 ∷ 0 ∷ 0 ∷ 0 ∷ 0 ∷ 0 ∷ 0 ∷ 0 ∷ 0 ∷ [])
    ∷ (notyet ∷ cant ∷ notyet ∷ notyet ∷ notyet ∷ cant ∷ cant ∷ notyet ∷ notyet ∷ cant ∷ cant ∷ cant
        ∷ cant ∷ cant ∷ [])
    ∷ (cant ∷ cant ∷ cant ∷ cant ∷ cant ∷ cant ∷ cant ∷ notyet ∷ notyet ∷ cant ∷ cant ∷ cant ∷ cant
        ∷ cant ∷ [])
    ∷ (0 ∷ cant ∷ 0 ∷ 0 ∷ 0 ∷ cant ∷ cant ∷ 0 ∷ 0 ∷ 0 ∷ 0 ∷ 0 ∷ 0 ∷ 0 ∷ [])
    ∷ (notyet ∷ cant ∷ notyet ∷ notyet ∷ notyet ∷ cant ∷ notyet ∷ notyet ∷ notyet ∷ cant ∷ cant
        ∷ cant ∷ cant ∷ cant ∷ [])
    ∷ (cant ∷ cant ∷ cant ∷ cant ∷ cant ∷ cant ∷ notyet ∷ cant ∷ cant ∷ cant ∷ cant ∷ cant ∷ cant
        ∷ cant ∷ [])
    ∷ (cant ∷ cant ∷ cant ∷ cant ∷ cant ∷ cant ∷ notyet ∷ notyet ∷ notyet ∷ cant ∷ cant ∷ cant
        ∷ cant ∷ cant ∷ [])
    ∷ (0 ∷ 0 ∷ 0 ∷ 0 ∷ 0 ∷ 0 ∷ 0 ∷ 0 ∷ 0 ∷ 0 ∷ 0 ∷ 0 ∷ 0 ∷ 0 ∷ [])
    ∷ (cant ∷ cant ∷ cant ∷ cant ∷ cant ∷ cant ∷ cant ∷ 0 ∷ cant ∷ cant ∷ cant ∷ cant ∷ cant ∷ cant
        ∷ [])
    ∷ (cant ∷ cant ∷ cant ∷ notyet ∷ cant ∷ cant ∷ notyet ∷ notyet ∷ 0 ∷ cant ∷ cant ∷ cant ∷ cant
        ∷ cant ∷ [])
    ∷ (cant ∷ notyet ∷ cant ∷ cant ∷ cant ∷ notyet ∷ cant ∷ cant ∷ cant ∷ notyet ∷ notyet ∷ notyet
        ∷ notyet ∷ notyet ∷ [])
    ∷ (cant ∷ notyet ∷ cant ∷ cant ∷ cant ∷ notyet ∷ cant ∷ cant ∷ cant ∷ notyet ∷ notyet ∷ notyet
        ∷ notyet ∷ notyet ∷ [])
    ∷ (cant ∷ notyet ∷ cant ∷ cant ∷ cant ∷ notyet ∷ cant ∷ cant ∷ cant ∷ notyet ∷ notyet ∷ notyet
        ∷ notyet ∷ notyet ∷ [])
    ∷ (cant ∷ notyet ∷ cant ∷ cant ∷ cant ∷ notyet ∷ cant ∷ cant ∷ cant ∷ notyet ∷ notyet ∷ notyet
        ∷ notyet ∷ notyet ∷ [])
    ∷ (cant ∷ notyet ∷ cant ∷ cant ∷ cant ∷ notyet ∷ cant ∷ cant ∷ cant ∷ notyet ∷ notyet ∷ notyet
        ∷ notyet ∷ notyet ∷ [])
    ∷ (cant ∷ cant ∷ cant ∷ cant ∷ cant ∷ cant ∷ cant ∷ cant ∷ notyet ∷ cant ∷ cant ∷ cant ∷ cant
        ∷ cant ∷ [])
    ∷ (cant ∷ cant ∷ cant ∷ cant ∷ cant ∷ cant ∷ cant ∷ 0 ∷ cant ∷ cant ∷ cant ∷ cant ∷ cant ∷ cant
        ∷ [])
    ∷ (0 ∷ 0 ∷ 0 ∷ 0 ∷ 0 ∷ 0 ∷ 0 ∷ 0 ∷ 0 ∷ 0 ∷ 0 ∷ 0 ∷ 0 ∷ 0 ∷ [])
    ∷ (0 ∷ 0 ∷ 0 ∷ 0 ∷ 0 ∷ 0 ∷ 0 ∷ 0 ∷ 0 ∷ 0 ∷ 0 ∷ 0 ∷ 0 ∷ 0 ∷ [])
    ∷ (cant ∷ cant ∷ cant ∷ cant ∷ cant ∷ cant ∷ notyet ∷ cant ∷ cant ∷ cant ∷ cant ∷ cant ∷ cant
        ∷ cant ∷ [])
    ∷ (cant ∷ cant ∷ cant ∷ 0 ∷ cant ∷ notyet ∷ cant ∷ notyet ∷ cant ∷ cant ∷ cant ∷ cant ∷ cant
        ∷ cant ∷ [])
    ∷ (cant ∷ cant ∷ cant ∷ cant ∷ cant ∷ cant ∷ cant ∷ 0 ∷ cant ∷ cant ∷ cant ∷ cant ∷ cant ∷ cant
        ∷ [])
    ∷ (0 ∷ 0 ∷ 0 ∷ 0 ∷ 0 ∷ 0 ∷ 0 ∷ 0 ∷ 0 ∷ 0 ∷ 0 ∷ 0 ∷ 0 ∷ 0 ∷ [])
    ∷ (cant ∷ cant ∷ cant ∷ cant ∷ cant ∷ cant ∷ cant ∷ cant ∷ notyet ∷ cant ∷ cant ∷ cant ∷ cant
        ∷ cant ∷ [])
    ∷ (cant ∷ cant ∷ cant ∷ cant ∷ cant ∷ cant ∷ cant ∷ cant ∷ cant ∷ cant ∷ cant ∷ cant ∷ cant
        ∷ cant ∷ [])
    ∷ (cant ∷ cant ∷ cant ∷ cant ∷ cant ∷ cant ∷ cant ∷ cant ∷ cant ∷ cant ∷ notyet ∷ notyet
        ∷ notyet ∷ notyet ∷ [])
    ∷ (cant ∷ cant ∷ cant ∷ cant ∷ cant ∷ cant ∷ cant ∷ cant ∷ cant ∷ notyet ∷ cant ∷ cant ∷ cant
        ∷ cant ∷ [])
    ∷ (0 ∷ 0 ∷ 0 ∷ 0 ∷ 0 ∷ 0 ∷ 0 ∷ 0 ∷ 0 ∷ 0 ∷ 0 ∷ 0 ∷ 0 ∷ 0 ∷ [])
    ∷ (0 ∷ 0 ∷ 0 ∷ 0 ∷ 0 ∷ 0 ∷ 0 ∷ 0 ∷ 0 ∷ 0 ∷ 0 ∷ 0 ∷ 0 ∷ 0 ∷ [])
    ∷ (cant ∷ cant ∷ cant ∷ cant ∷ cant ∷ cant ∷ cant ∷ notyet ∷ notyet ∷ cant ∷ cant ∷ cant ∷ cant
        ∷ cant ∷ [])
    ∷ (0 ∷ 0 ∷ 0 ∷ 0 ∷ 0 ∷ 0 ∷ 0 ∷ 0 ∷ 0 ∷ 0 ∷ 0 ∷ 0 ∷ 0 ∷ 0 ∷ [])
    ∷ (0 ∷ 0 ∷ 0 ∷ 0 ∷ 0 ∷ 0 ∷ 0 ∷ 0 ∷ 0 ∷ 0 ∷ 0 ∷ 0 ∷ 0 ∷ 0 ∷ [])
    ∷ (0 ∷ 0 ∷ 0 ∷ 0 ∷ 0 ∷ 0 ∷ 0 ∷ 0 ∷ 0 ∷ 0 ∷ 0 ∷ 0 ∷ 0 ∷ 0 ∷ [])
    ∷ (0 ∷ 0 ∷ 0 ∷ 0 ∷ 0 ∷ 0 ∷ 0 ∷ 0 ∷ 0 ∷ 0 ∷ 0 ∷ 0 ∷ 0 ∷ 0 ∷ [])
    ∷ (0 ∷ 0 ∷ 0 ∷ 0 ∷ 0 ∷ 0 ∷ 0 ∷ 0 ∷ 0 ∷ 0 ∷ 0 ∷ 0 ∷ 0 ∷ 0 ∷ [])
    ∷ (0 ∷ 0 ∷ 0 ∷ 0 ∷ 0 ∷ 0 ∷ 0 ∷ 0 ∷ 0 ∷ 0 ∷ 0 ∷ 0 ∷ 0 ∷ 0 ∷ [])
    ∷ (0 ∷ 0 ∷ 0 ∷ 0 ∷ 0 ∷ 0 ∷ 0 ∷ 0 ∷ 0 ∷ 0 ∷ 0 ∷ 0 ∷ 0 ∷ 0 ∷ [])
    ∷ (cant ∷ cant ∷ cant ∷ cant ∷ cant ∷ cant ∷ cant ∷ 0 ∷ cant ∷ cant ∷ cant ∷ cant ∷ cant ∷ cant
        ∷ [])
    ∷ (cant ∷ cant ∷ cant ∷ cant ∷ cant ∷ cant ∷ notyet ∷ notyet ∷ cant ∷ cant ∷ cant ∷ cant ∷ cant
        ∷ cant ∷ [])
    ∷ (cant ∷ cant ∷ cant ∷ cant ∷ cant ∷ cant ∷ cant ∷ cant ∷ cant ∷ cant ∷ cant ∷ cant ∷ cant
        ∷ cant ∷ [])
    ∷ (0 ∷ cant ∷ 0 ∷ 0 ∷ 0 ∷ cant ∷ cant ∷ cant ∷ cant ∷ cant ∷ cant ∷ cant ∷ cant ∷ cant ∷ [])
    ∷ []
