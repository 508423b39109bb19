-- ===== src/Selection/Levels.antt =====
-- The level table: backend-nestjs/src/question-bank/constants/question-levels.constant.ts.
use odiseo_new.Common.{ℕ, ◌≡◌, ◌⊎◌, true, some, [], arith, String}
use odiseo_new.Selection.{
  has_level, easy_ids, medium_ids, hard_ids, level_ids_of_label, get_level_ids_for_difficulty,
}

-- The four answers of the ladder.
level_ids_of_label_cases :
    (upper : String)
    → (level_ids_of_label upper ≡ easy_ids)
      ⊎ ((level_ids_of_label upper ≡ medium_ids)
          ⊎ ((level_ids_of_label upper ≡ hard_ids) ⊎ (level_ids_of_label upper ≡ [])))
unfolding level_ids_of_label
level_ids_of_label_cases upper = ground arith

-- A level belongs to one difficulty at most: two labels whose lists both hold a level have the same
-- list.
pub level_ids_disjoint :
    (to_upper_case : String → String) (d e : String) (l : ℕ)
    → has_level (get_level_ids_for_difficulty to_upper_case d) (some l) ≡ true
    → has_level (get_level_ids_for_difficulty to_upper_case e) (some l) ≡ true
    → get_level_ids_for_difficulty to_upper_case d ≡ get_level_ids_for_difficulty to_upper_case e
unfolding get_level_ids_for_difficulty
level_ids_disjoint to_upper_case d e l h k =
    ground (
      arith,
      level_ids_of_label_cases (to_upper_case d),
      level_ids_of_label_cases (to_upper_case e),
    )
