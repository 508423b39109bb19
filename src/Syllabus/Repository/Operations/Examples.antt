-- ===== src/Syllabus/Repository/Operations/Examples.antt =====
-- A cycle held in memory, and instances of the theorems.
use odiseo_new.Common.{
  if◌then◌else◌, ℕ, ◌==◌, String, ◌===◌, ◌≡◌, refl, true, false, none, List, [], ◌∷◌, ◌++◌, arith,
}
use odiseo_new.Common.Http.{ok, err, bad_request}
use odiseo_new.Database.Memory.{in_memory}
use odiseo_new.Syllabus.{Syllabus, Distribution, SyllabusDb, World, Env, Cell}
use odiseo_new.Syllabus.Repository.{
  is_cell, row_of, sum_counts, create_distribution, put_distribution,
}
use odiseo_new.Syllabus.Repository.Operations.{summary_of, add_distribution}
use odiseo_new.Syllabus.Repository.Operations.Totals.{value_of, sum_values, summary_of_counts}
use odiseo_new.Syllabus.Repository.Operations.Cells.{IsLimited, HasKey}
use odiseo_new.Syllabus.Repository.Operations.Kept.{Operation, perform, perform-IsLimited}

abbrev memory : SyllabusDb
memory = record {
  Syllabuses = List Syllabus;
  Distributions = List Distribution;
  syllabuses = in_memory;
  distributions = in_memory;
}

abbrev env : Env
env = record {
  uuid = λ n. if n == 0 then "id0" else "id1";
  course_exists = λ c. c === "algebra";
  get_active_week_numbers = λ c. 1 ∷ [];
  get_templates = λ c. [];
  recovers = false;
  normalize = λ s. s;
}

abbrev cell : ℕ → ℕ → Cell
cell week n = record {
  template_id = none;
  week_number = week;
  topic_id = "t";
  subtopic_id = "s";
  question_count = n;
}

abbrev syllabus : String → String → Syllabus
syllabus id course = record {
  id = id;
  cycle_id = "cycle";
  course_id = course;
  name = "name";
  template_id = none;
  is_active = true;
}

abbrev world : World memory
world = record {
  syllabuses = syllabus "s1" "algebra" ∷ syllabus "s2" "geometry" ∷ [];
  distributions = [];
  created = 0;
}

abbrev added : World memory
added = record world { distributions = row_of "id0" "s1" (cell 1 60) ∷ []; created = 1 }

-- 60 and 60 are over the limit; 60 and 40 are not, but the second cell takes the place of the first.
over : add_distribution memory env (λ w. w) "s1" (cell 1 60) added ≡ err bad_request
unfolding add_distribution sum_counts row_of
over = refl

overwritten :
    add_distribution memory (record env { recovers = true }) (λ w. w) "s1" (cell 1 40) added
    ≡ ok (record world { distributions = row_of "id0" "s1" (cell 1 40) ∷ []; created = 2 })
unfolding add_distribution sum_counts row_of create_distribution put_distribution is_cell
overwritten = refl

abbrev other_cell : Cell
other_cell = record (cell 1 60) { topic_id = "other" }

abbrev rival : World memory → World memory
rival w = record w { distributions = w.distributions ++ row_of "x" "s1" other_cell ∷ [] }

-- Another cell that is added between the check and the write takes the week to 120 questions.
raced :
    add_distribution memory env rival "s1" (cell 1 60) world
    ≡ ok (record world {
      distributions = row_of "x" "s1" other_cell ∷ row_of "id0" "s1" (cell 1 60) ∷ [];
      created = 1;
    })
unfolding add_distribution sum_counts row_of create_distribution put_distribution is_cell
raced = refl

rows_with-nil : HasKey memory env world
rows_with-nil id = omega arith

IsLimited-nil : IsLimited memory env world
unfolding sum_counts
IsLimited-nil s week = omega arith

perform-IsLimited_example : IsLimited memory env added
unfolding perform add_distribution sum_counts row_of create_distribution put_distribution is_cell
perform-IsLimited_example =
    perform-IsLimited memory env (λ w. w) (Operation.add "s1" (cell 1 60)) world added (λ w. refl)
      rows_with-nil IsLimited-nil refl

abbrev rows : List Distribution
rows = row_of "a" "s1" (cell 1 10) ∷ row_of "b" "s1" (cell 2 20) ∷ row_of "c" "s1" (cell 1 5) ∷ []

summary_of_counts_example :
    let r = summary_of rows rows in
    (value_of (λ a b. a == b) 1 r.weekly_questions ≡ 15)
    × (value_of (λ a b. a === b) "t" r.topic_questions ≡ 35)
    × (sum_values r.weekly_questions ≡ r.total_questions)
    × (sum_values r.topic_questions ≡ r.total_questions)
unfolding row_of
summary_of_counts_example = summary_of_counts rows rows 1 "t"
