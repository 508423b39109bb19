-- ===== src/Generation/Plan/Examples.antt =====
-- A course with three cells, and instances of the theorems on the plan.
use odiseo_new.Common.{
  ℕ, ◌+◌, ◌==◌, ◌===◌, if◌then◌else◌, ◌≤◌, String, ◌≡◌, ◌↔◌, refl, true, false, Option, none, some,
  List, [], ◌∷◌, map, length,
}
use odiseo_new.Common.Http.{Result, ok, err, internal}
use odiseo_new.AcademicTime.{Template, TemplateCourse, Scope}
use odiseo_new.Syllabus.{Syllabus, Distribution}
use odiseo_new.Selection.{Question}
use odiseo_new.Review.Approve.{in_scope}
use odiseo_new.Generation.{CourseDistribution, Bank, Reads, Env}
use odiseo_new.Generation.Plan.{
  target_quantity, easy_count, medium_count, levels_pool, prepare_course, template_course_of,
  cells_of, topics_in_order, build_review_plan,
}
use odiseo_new.Generation.Plan.Levels.{levels_pool_iff}
use odiseo_new.Generation.Plan.Quantities.{Shares, prepare_course-Shares}
use odiseo_new.Generation.Plan.Review.{Blocks, build_review_plan-Blocks}

abbrev counts : ℕ → ℕ → ℕ → TemplateCourse
counts easy medium hard = record {
  id = "tc";
  template_id = "profile";
  course_id = "algebra";
  questions_quantity = easy + medium + hard;
  easy_count = easy;
  medium_count = medium;
  hard_count = hard;
}

-- A template that asks for easy questions only: its zeros are replaced, and the call throws.
only_easy : levels_pool (λ i. 0) (some (counts 10 0 0)) ≡ err internal
unfolding levels_pool
only_easy = refl

abbrev cell : String → ℕ → Distribution
cell subtopic week = record {
  id = subtopic;
  syllabus_id = "syllabus";
  template_id = none;
  week_number = week;
  topic_id = "t";
  subtopic_id = subtopic;
  question_count = 1;
  is_generated = false;
}

abbrev template : Template
template = record {
  id = "profile";
  cycle_id = "cycle";
  name = "Semanal";
  scope = Scope.current_week;
  accumulation_weeks = none;
}

abbrev syllabus : Syllabus
syllabus = record {
  id = "syllabus";
  cycle_id = "cycle";
  course_id = "algebra";
  name = "Algebra";
  template_id = none;
  is_active = true;
}

abbrev question : String → ℕ → Question
question id level = record {
  id = id;
  topic_id = "t";
  subtopic_id = "a";
  answer_id = none;
  level_id = some level;
  html_content = "";
}

abbrev bank : Bank
bank = record {
  mappings =
      record { question_id = "q1"; subtopic_id = "a" }
      ∷ record { question_id = "q2"; subtopic_id = "a" }
      ∷ record { question_id = "q3"; subtopic_id = "b" }
      ∷ [];
  questions = question "q1" 43 ∷ question "q2" 45 ∷ question "q3" 46 ∷ [];
}

abbrev pub reads : Reads
reads = record {
  companies = [];
  templates = template ∷ [];
  template_courses = counts 2 1 1 ∷ [];
  syllabuses = syllabus ∷ [];
  distributions = cell "a" 1 ∷ cell "b" 1 ∷ cell "c" 1 ∷ cell "d" 2 ∷ [];
  designs = [];
  bank = bank;
}

abbrev used : String → List String
used course_id = "q2" ∷ []

abbrev value_or {ℓ} : {V : Type ℓ} → V → Result (Option V) → V
value_or d (ok (some v)) = v
value_or d (ok none) = d
value_or d (err e) = d

prepared : CourseDistribution
unfolding prepare_course
prepared =
    value_or (record { course_id = ""; topics = []; exclude_question_ids = [] })
      (prepare_course reads (λ i. i) used template 1 "algebra")

-- Four questions over three cells: two, one and one.
prepared_quantities : map (λ t. t.quantity) prepared.topics ≡ 2 ∷ 1 ∷ 1 ∷ []
unfolding prepared in_scope
prepared_quantities = refl

levels_pool_iff_example :
    ((pool : List String) × (levels_pool (λ i. 0) (some (counts 10 0 0)) ≡ ok pool)) ↔ (
      easy_count (some (counts 10 0 0)) + medium_count (some (counts 10 0 0))
      ≤ target_quantity (some (counts 10 0 0)))
levels_pool_iff_example = levels_pool_iff (λ i. 0) (some (counts 10 0 0))

prepare_course-Shares_example :
    Shares
      (template_course_of reads template "algebra")
      (length (cells_of reads template syllabus 1))
      prepared.topics
unfolding prepared prepare_course in_scope
prepare_course-Shares_example =
    prepare_course-Shares reads (λ i. i) used template syllabus 1 "algebra" prepared refl refl

abbrev pub env : Env
env = record {
  pick_level = λ i n. n;
  pick_question = λ i n. n;
  to_upper_case = λ s. s;
  number = λ s. if s === "a" then 1 else if s === "b" then 2 else 3;
  uuid = λ n. if n == 0 then "id0" else if n == 1 then "id1" else if n == 2 then "id2" else "id";
  queue_accepts = λ jobs j. true;
}

build_review_plan-Blocks_example :
    Blocks env bank
      (topics_in_order env bank (prepared ∷ []))
      (build_review_plan env bank (prepared ∷ []))
build_review_plan-Blocks_example = build_review_plan-Blocks env bank (prepared ∷ [])
