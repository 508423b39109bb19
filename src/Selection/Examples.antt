-- ===== src/Selection/Examples.antt =====
-- Runs of the selection on a small bank, and instances of its theorems.
use mathlib.Core.List.{Perm, Mem, mem-cons_self}
use odiseo_new.Common.{
  ℕ, String, ◌===◌, ◌≡◌, refl, true, false, none, some, List, [], ◌∷◌, ◌++◌, length, includes,
  if◌then◌else◌,
}
use odiseo_new.Selection.{
  Question, SelectionRequest, shuffle, select_best_questions, unused_pool, used_pool, splice_first,
  level_ids_of_label, get_level_ids_for_difficulty,
}
use odiseo_new.Selection.Pools.{filled, select_best_questions-perm, select_best_questions-unused}
use odiseo_new.Selection.Slots.{select_best_questions_counts}

-- Upper case, for the labels of the tests.
abbrev upper : String → String
upper s = if s === "easy" then "EASY" else if s === "facil" then "FACIL" else s

abbrev question : String → ℕ → Question
question id level = record {
  id = id;
  topic_id = "topic";
  subtopic_id = "subtopic";
  answer_id = none;
  level_id = some level;
  html_content = "";
}

abbrev q1 : Question
q1 = question "q1" 43

abbrev q2 : Question
q2 = question "q2" 46

abbrev q3 : Question
q3 = question "q3" 45

abbrev bank : List Question
bank = q1 ∷ q2 ∷ q3 ∷ []

abbrev no_questions : List Question
no_questions = []

abbrev any_level : SelectionRequest
any_level = record { expected_level = none }

abbrev hard : SelectionRequest
hard = record { expected_level = some "HARD" }

abbrev numbers : List ℕ
numbers = 1 ∷ 2 ∷ 3 ∷ []

-- Always the first index.
abbrev first : ℕ → ℕ
first i = 0

shuffled : shuffle first numbers ≡ 2 ∷ 3 ∷ 1 ∷ []
unfolding shuffle
shuffled = refl

-- q1 was used already: the hard question comes first, then the other unused one, then q1 again.
selected :
    select_best_questions upper first first bank
      ("q1" ∷ [])
      (hard ∷ hard ∷ any_level ∷ any_level ∷ [])
      true
    ≡ some q2 ∷ some q3 ∷ some q1 ∷ none ∷ []
unfolding select_best_questions splice_first get_level_ids_for_difficulty level_ids_of_label
selected = refl

select_best_questions-perm_example :
    (rest : List Question) × Perm
      (filled
          (select_best_questions upper first first bank ("q1" ∷ []) (hard ∷ any_level ∷ []) true)
        ++ rest)
      bank
select_best_questions-perm_example =
    select_best_questions-perm upper first first bank ("q1" ∷ []) (hard ∷ any_level ∷ []) true

select_best_questions-unused_example : Mem q2 bank × (includes ("q1" ∷ []) q2.id ≡ false)
unfolding select_best_questions splice_first get_level_ids_for_difficulty level_ids_of_label
select_best_questions-unused_example =
    select_best_questions-unused upper first first bank ("q1" ∷ []) (hard ∷ any_level ∷ []) q2
      mem-cons_self

select_best_questions_counts_example :
    (length
        (select_best_questions upper first first bank ("q1" ∷ []) (hard ∷ hard ∷ hard ∷ []) false)
      ≡ 3)
    × (length (
          filled (
            select_best_questions upper first first bank
              ("q1" ∷ [])
              (hard ∷ hard ∷ hard ∷ [])
              false))
        ≡ 2)
unfolding unused_pool used_pool
select_best_questions_counts_example =
    select_best_questions_counts upper first first bank ("q1" ∷ []) (hard ∷ hard ∷ hard ∷ []) false
