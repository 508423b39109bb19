-- ===== src/Generation/Plan.antt =====
-- What backend-nestjs/src/materials/use-cases/generate-material.use-case.ts computes: the questions
-- of each topic, their levels, and `build_review_plan` (buildReviewPlan).
pub mod Levels
pub mod Quantities
pub mod Review
pub mod Examples
use odiseo_new.Common.{
  ℕ, zero, suc, ◌+◌, ◌-◌, ◌*◌, ◌/◌, ◌%◌, ltb, leb, ◌==◌, String, ◌===◌, includes, Bool, true, false,
  not, ◌&&◌, ◌||◌, Option, none, some, List, [], ◌∷◌, ◌++◌, map, filter, find?, any, length,
  get_elem?, take, drop, replicate, range_from, if◌then◌else◌,
}
use odiseo_new.Common.Http.{bad_request, internal, Result, ok, err, ◌>>=◌}
use odiseo_new.AcademicTime.{Template, TemplateCourse}
use odiseo_new.Syllabus.{Syllabus, Distribution}
use odiseo_new.Selection.{Question, SelectionRequest, shuffle, select_best_questions}
use odiseo_new.Review.Approve.{in_scope}
use odiseo_new.Webhook.{Usage}
use odiseo_new.Generation.{
  GenerateMaterialDto, Topic, CourseDistribution, ReviewSlot, Mapping, Bank, Reads, Env,
}

-- `n || d`: a number that is missing or 0 is replaced.
abbrev pub number_or : Option ℕ → ℕ → ℕ
number_or none d = d
number_or (some n) d = if n == 0 then d else n

abbrev column : Option TemplateCourse → (TemplateCourse → ℕ) → Option ℕ
column none f = none
column (some c) f = some (f c)

abbrev pub target_quantity : Option TemplateCourse → ℕ
target_quantity tc = number_or (column tc (λ c. c.questions_quantity)) 35

-- `Math.floor(target * 0.4)` and `Math.floor(target * 0.2)`
abbrev pub easy_count : Option TemplateCourse → ℕ
easy_count tc = number_or (column tc (λ c. c.easy_count)) (target_quantity tc * 2 / 5)

abbrev pub medium_count : Option TemplateCourse → ℕ
medium_count tc = number_or (column tc (λ c. c.medium_count)) (target_quantity tc * 2 / 5)

-- `hard + (target - sum)`, none where that is negative.
abbrev adjusted : ℕ → ℕ → ℕ → Option ℕ
adjusted target sum hard =
    if leb sum target
    then some (hard + (target - sum))
    else if leb (sum - target) hard
    then some (hard - (sum - target))
    else none

abbrev pub hard_count : Option TemplateCourse → Option ℕ
hard_count tc =
    let hard = number_or (column tc (λ c. c.hard_count)) (target_quantity tc / 5) in
    adjusted (target_quantity tc) (easy_count tc + medium_count tc + hard) hard

abbrev pub levels : ℕ → ℕ → ℕ → List String
levels easy medium hard =
    replicate easy "EASY" ++ replicate medium "MEDIUM" ++ replicate hard "HARD"

-- An array of negative length is a RangeError.
pub levels_pool : (ℕ → ℕ) → Option TemplateCourse → Result (List String)
levels_pool pick tc = elim (hard_count tc) [
  | none ↦ err internal
  | some hard ↦ ok (shuffle pick (levels (easy_count tc) (medium_count tc) hard))
]

-- The share of the cell at an index.
pub quantity_at : ℕ → ℕ → ℕ → ℕ
quantity_at target n idx = if ltb idx (target % n) then target / n + 1 else target / n

pub topics_from : ℕ → ℕ → ℕ → List String → List Distribution → List Topic
topics_from target n idx pool [] = []
topics_from target n idx pool (d ∷ ds) =
    let quantity = quantity_at target n idx in
    record {
      topic_id = d.topic_id;
      subtopic_id = d.subtopic_id;
      quantity = quantity;
      expected_levels = take quantity pool;
    }
    ∷ topics_from target n (suc idx) (drop quantity pool) ds

pub topics_of : ℕ → List String → List Distribution → List Topic
unfolding topics_from quantity_at
topics_of target pool ds = filter (λ t. ltb 0 t.quantity) (topics_from target (length ds) 0 pool ds)

module _ (reads : Reads) where
  abbrev pub syllabus_of : String → String → Option Syllabus
  syllabus_of course_id cycle_id =
      find? (λ s. s.course_id === course_id && s.cycle_id === cycle_id && s.is_active)
        reads.syllabuses

  -- The cells that the scope of the template selects.
  abbrev pub cells_of : Template → Syllabus → ℕ → List Distribution
  cells_of t s week =
      filter (λ d. d.syllabus_id === s.id && in_scope t week d.week_number) reads.distributions

  abbrev pub template_course_of : Template → String → Option TemplateCourse
  template_course_of t course_id =
      find? (λ c. c.template_id === t.id && c.course_id === course_id) reads.template_courses

  -- One turn of the loop over the courses; none where the course is passed over.
  pub prepare_course :
      (ℕ → ℕ) → (String → List String) → Template → ℕ → String → Result (Option CourseDistribution)
  unfolding levels_pool topics_of
  prepare_course pick used t week course_id = elim (syllabus_of course_id t.cycle_id) [
    | none ↦ ok none
    | some s ↦ elim (cells_of t s week) [
      | [] ↦ ok none
      | d ∷ ds ↦ do
        let tc = template_course_of t course_id
        pool ← levels_pool pick tc
        ok (
            some (record {
              course_id = course_id;
              topics = topics_of (target_quantity tc) pool (d ∷ ds);
              exclude_question_ids = used course_id;
            }))
    ]
  ]

  abbrev push : Option CourseDistribution → List CourseDistribution → List CourseDistribution
  push none ds = ds
  push (some d) ds = d ∷ ds

  pub prepare_courses :
      (ℕ → ℕ → ℕ)
      → (String → List String)
      → Template
      → ℕ
      → ℕ
      → List String
      → Result (List CourseDistribution)
  unfolding prepare_course
  prepare_courses pick used t week i [] = ok []
  prepare_courses pick used t week i (c ∷ cs) = do
    d ← prepare_course (pick i) used t week c
    ds ← prepare_courses pick used t week (suc i) cs
    ok (push d ds)

-- `getUsedQuestionsInCycle`
pub get_used_questions_in_cycle : List Usage → String → String → List String
get_used_questions_in_cycle usages cycle_id course_id =
    map (λ u. u.usage.question_id)
      (filter (λ u. u.usage.cycle_id === cycle_id && u.course_id === course_id) usages)

module _ (env : Env) (bank : Bank) where
  -- The ids of the questions of a subtopic, as the mappings list them.
  abbrev pub question_ids_of : ℕ → List String
  question_ids_of subtopic =
      map (λ m. m.question_id) (filter (λ m. env.number m.subtopic_id == subtopic) bank.mappings)

  -- `questionMap.get(id)` for each id, without those that are missing or excluded.
  pub load_questions : List String → List String → List Question
  load_questions exclude [] = []
  load_questions exclude (id ∷ ids) =
      let rest = load_questions exclude ids in
      elim (find? (λ q. q.id === id) bank.questions) [
        | none ↦ rest
        | some q ↦ if includes exclude q.id then rest else q ∷ rest
      ]

  abbrev pub pool_of : List String → Topic → List Question
  unfolding load_questions
  pool_of exclude t = load_questions exclude (question_ids_of (env.number t.subtopic_id))

  abbrev chosen : List (Option Question) → ℕ → Option String
  chosen selected i = elim (get_elem? selected i) [
    | none ↦ none
    | some slot ↦ elim slot [ none ↦ none | some q ↦ some q.id ]
  ]

  abbrev slot_at : Topic → List (Option Question) → ℕ → ReviewSlot
  slot_at t selected i = record {
    topic_id = t.topic_id;
    subtopic_id = t.subtopic_id;
    expected_level = get_elem? t.expected_levels i;
    question_id = chosen selected i;
  }

  abbrev requests_of : Topic → List SelectionRequest
  requests_of t =
      map (λ i. record { expected_level = get_elem? t.expected_levels i }) (range_from 0 t.quantity)

  -- The slots of one topic.
  pub topic_slots : (ℕ → ℕ) → List String → Topic → List ReviewSlot
  topic_slots pick exclude t =
      let selected =
        select_best_questions env.to_upper_case pick pick (pool_of exclude t) [] (requests_of t)
          false in
      map (slot_at t selected) (range_from 0 t.quantity)

  -- The topics of all courses in order, each with the ids that its course excludes.
  pub topics_in_order : List CourseDistribution → List (List String × Topic)
  topics_in_order [] = []
  topics_in_order (d ∷ ds) = map (λ t. (d.exclude_question_ids, t)) d.topics ++ topics_in_order ds

  pub plan_from : ℕ → List (List String × Topic) → List ReviewSlot
  unfolding topic_slots
  plan_from i [] = []
  plan_from i ((exclude, t) ∷ ts) =
      topic_slots (env.pick_question i) exclude t ++ plan_from (suc i) ts

  pub build_review_plan : List CourseDistribution → List ReviewSlot
  unfolding plan_from topics_in_order
  build_review_plan ds = plan_from 0 (topics_in_order ds)
