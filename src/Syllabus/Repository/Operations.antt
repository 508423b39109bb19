-- ===== src/Syllabus/Repository/Operations.antt =====
-- backend-nestjs/src/syllabus/syllabus.use-case.ts
-- Adding a cell and changing its quantity check the weekly limit in transactions before the one that
-- writes: `meanwhile` is what others commit between two of them.
pub mod Totals
pub mod Limits
pub mod Cells
pub mod Clones
pub mod Kept
mod Examples
use odiseo_new.Common.{
  ℕ, zero, suc, ◌+◌, ◌==◌, ltb, String, ◌===◌, truthy, includes, Bool, true, false, not, ◌&&◌, ◌||◌,
  Option, none, some, List, [], ◌∷◌, map, filter, find?, any, if◌then◌else◌,
}
use odiseo_new.Common.Http.{
  conflict, not_found, bad_request, Result, ok, err, ◌>>=◌, ◌>>◌, throw_if,
}
use odiseo_new.Syllabus.{Syllabus, Distribution, SyllabusDb, World, Env, Template, Cell}
use odiseo_new.Syllabus.Repository.{
  create_syllabus, find_by_id, find_by_course_and_cycle, find_by_cycle, set_template,
  update_visibility, create_distribution, get_distribution_by_id, sum_week_question_count,
  update_quantity, delete_distribution, bulk_create_distributions, bulk_delete_distributions,
  get_summary_by_syllabus,
}

abbrev pub weekly_question_limit : ℕ
weekly_question_limit = 100

-- `sums[key] = (sums[key] || 0) + n`, on a list of keys and values.
pub add_to {ℓ} : {K : Type ℓ} → (K → K → Bool) → K → ℕ → List (K × ℕ) → List (K × ℕ)
add_to same key n [] = (key, n) ∷ []
add_to same key n ((k, m) ∷ sums) =
    let rest = add_to same key n sums in if same k key then (k, m + n) ∷ sums else (k, m) ∷ rest

pub record Summary : Type 0 where
  pub total_questions : ℕ
  pub weekly_questions : List (ℕ × ℕ)
  pub topic_questions : List (String × ℕ)
  pub distributions : List Distribution
  pub generated_weeks : List ℕ

-- One turn of the loop of `getSummary`.
pub count_distribution : Distribution → Summary → Summary
count_distribution d s = record s {
  total_questions = s.total_questions + d.question_count;
  weekly_questions = add_to (λ a b. a == b) d.week_number d.question_count s.weekly_questions;
  topic_questions = add_to (λ a b. a === b) d.topic_id d.question_count s.topic_questions;
}

pub count_all : List Distribution → Summary → Summary
count_all [] s = s
count_all (d ∷ ds) s = count_all ds (count_distribution d s)

-- SELECT DISTINCT week_number ... is_generated = true
pub distinct_weeks : List Distribution → List ℕ
distinct_weeks [] = []
distinct_weeks (d ∷ ds) =
    let rest = distinct_weeks ds in
    if any (λ w. w == d.week_number) rest then rest else d.week_number ∷ rest

abbrev pub summary_of : List Distribution → List Distribution → Summary
summary_of distributions all = count_all distributions (record {
  total_questions = 0;
  weekly_questions = [];
  topic_questions = [];
  distributions = distributions;
  generated_weeks = distinct_weeks (filter (λ d. d.is_generated) all);
})

-- `templateMap`: no entry, an entry null, or an id.
abbrev pub TemplateMap : Type 0
TemplateMap = List (String × Option String)

lookup : TemplateMap → String → Option (Option String)
lookup [] id = none
lookup ((k, v) ∷ m) id = if k === id then some v else lookup m id

-- `Set.add`, where the id is truthy.
add_reference : Option String → List String → List String
add_reference none ids = ids
add_reference (some t) ids = if t === "" || includes ids t then ids else t ∷ ids

referenced_ids : List Distribution → List String
referenced_ids [] = []
referenced_ids (d ∷ ds) = add_reference d.template_id (referenced_ids ds)

-- One referenced template: no entry if the source does not know it, else the target's template of
-- the same name, or its name among the missing ones.
map_templates :
    (String → String) → List Template → List Template → List String → TemplateMap × List String
map_templates normalize source target [] = ([], [])
map_templates normalize source target (id ∷ ids) =
    let (found, missing) = map_templates normalize source target ids in
    elim (find? (λ t. t.id === id) source) [
      | none ↦ (found, missing)
      | some s ↦ elim (find? (λ t. normalize t.name === normalize s.name) target) [
        | none ↦ (found, s.name ∷ missing)
        | some t ↦ ((id, some t.id) ∷ found, missing)
      ]
    ]

abbrev pub is_nil {ℓ} : {A : Type ℓ} → List A → Bool
is_nil [] = true
is_nil (x ∷ xs) = false

pub build_template_mapping : Env → Syllabus → Syllabus → List Distribution → Result TemplateMap
build_template_mapping env source target distributions =
    let ids = add_reference source.template_id (referenced_ids distributions) in
    let targets = env.get_templates target.cycle_id in
    let mapped = map_templates env.normalize (env.get_templates source.cycle_id) targets ids in
    if source.cycle_id === target.cycle_id || is_nil ids
    then ok []
    else if is_nil targets
    then ok (map (λ id. (id, none)) ids)
    else if is_nil mapped.1
    then ok mapped.0
    else err bad_request

-- The template of a copied cell; none where the cell is left out.
new_template : Bool → TemplateMap → Option String → Option (Option String)
new_template same_cycle m none = some none
new_template same_cycle m (some t) = if t === "" then some (some t) else elim (lookup m t) [
  | none ↦ if same_cycle then some (some t) else none
  | some none ↦ none
  | some (some mapped) ↦ some (some mapped)
]

abbrev copy_cell : Bool → TemplateMap → Distribution → List Cell → List Cell
copy_cell same_cycle m d cells = elim (new_template same_cycle m d.template_id) [
  | none ↦ cells
  | some t ↦
      record {
        template_id = t;
        week_number = d.week_number;
        topic_id = d.topic_id;
        subtopic_id = d.subtopic_id;
        question_count = d.question_count;
      }
      ∷ cells
]

-- `distributionsToCreate`
pub cells_to_create : List ℕ → Bool → TemplateMap → List Distribution → List Cell
unfolding new_template
cells_to_create active same_cycle m [] = []
cells_to_create active same_cycle m (d ∷ ds) =
    let rest = cells_to_create active same_cycle m ds in
    if any (λ w. w == d.week_number) active then copy_cell same_cycle m d rest else rest

pub week_sums : List Cell → List (ℕ × ℕ) → List (ℕ × ℕ)
week_sums [] sums = sums
week_sums (c ∷ cells) sums =
    week_sums cells (add_to (λ a b. a == b) c.week_number c.question_count sums)

pub assert_clone_weekly_limits : List Cell → Result (Unit {0})
assert_clone_weekly_limits cells =
    throw_if (any (λ e. ltb weekly_question_limit e.1) (week_sums cells [])) bad_request

module _ (db : SyllabusDb) (env : Env) where
  pub create : String → String → World db → Result (World db)
  create course_id cycle_id w = do
    throw_if (not (env.course_exists course_id)) not_found
    elim (find_by_course_and_cycle db env course_id cycle_id w) [
      | some existing ↦ err conflict
      | none ↦ create_syllabus db env cycle_id course_id "Nuevo Sílabo" w >>= λ r. ok r.0
    ]

  abbrev pub or_null : Option String → Option String
  or_null t = if truthy t then t else none

  pub add_distribution : (World db → World db) → String → Cell → World db → Result (World db)
  add_distribution meanwhile syllabus_id c w =
      let sum = sum_week_question_count db env syllabus_id c.week_number none w in
      if ltb weekly_question_limit (sum + c.question_count)
      then err bad_request
      else create_distribution db env syllabus_id (record c { template_id = or_null c.template_id })
          (meanwhile w)

  abbrev pub over_limit : (World db → World db) → String → String → ℕ → World db → Bool
  over_limit meanwhile id syllabus_id n w = elim (get_distribution_by_id db env id syllabus_id w) [
    | none ↦ false
    | some d ↦
        ltb weekly_question_limit
          (sum_week_question_count db env syllabus_id d.week_number (some id) (meanwhile w) + n)
  ]

  pub update_distribution_quantity :
      (World db → World db) → String → String → ℕ → World db → Result (World db)
  update_distribution_quantity meanwhile id syllabus_id n w = do
    throw_if (over_limit meanwhile id syllabus_id n w) bad_request
    update_quantity db env id syllabus_id n (meanwhile (meanwhile w))

  abbrev get_summary : String → Option String → World db → Summary
  get_summary syllabus_id template_id w =
      summary_of (get_summary_by_syllabus db env syllabus_id template_id w)
        (get_summary_by_syllabus db env syllabus_id none w)

  pub copy_distributions :
      String → List Distribution → List ℕ → Bool → TemplateMap → World db → Result (World db)
  copy_distributions syllabus_id distributions active same_cycle m w = do
    let cells = cells_to_create active same_cycle m distributions
    assert_clone_weekly_limits cells
    bulk_create_distributions db env syllabus_id cells w

  abbrev set_if_filled : String → Option String → World db → World db
  set_if_filled syllabus_id none w = w
  set_if_filled syllabus_id (some t) w = if t === "" then w else set_template db env syllabus_id t w

  abbrev entry_or_null : Option (Option String) → Option String
  entry_or_null none = none
  entry_or_null (some v) = v

  pub set_default_template : String → Option String → Bool → TemplateMap → World db → World db
  set_default_template syllabus_id none same_cycle m w = w
  set_default_template syllabus_id (some t) same_cycle m w =
      if t === ""
      then w
      else set_if_filled syllabus_id (if same_cycle then some t else entry_or_null (lookup m t)) w

  abbrev pub found_or_bad : Option Syllabus → Result Syllabus
  found_or_bad none = err bad_request
  found_or_bad (some s) = ok s

  abbrev pub given_weeks : Option (List ℕ) → List ℕ → List ℕ
  given_weeks none weeks = weeks
  given_weeks (some weeks) _ = weeks

  pub clone_syllabus : String → String → Option (List ℕ) → World db → Result (World db × Summary)
  clone_syllabus syllabus_id source_id target_active_weeks w = do
    target ← found_or_bad (find_by_id db env syllabus_id w)
    source ← found_or_bad (find_by_id db env source_id w)
    let active = given_weeks target_active_weeks (env.get_active_week_numbers target.cycle_id)
    let distributions = get_summary_by_syllabus db env source_id none w
    let same_cycle = source.cycle_id === target.cycle_id
    m ← build_template_mapping env source target distributions
    copied ←
        copy_distributions syllabus_id distributions active same_cycle m
          (bulk_delete_distributions db env syllabus_id w)
    let done = set_default_template syllabus_id source.template_id same_cycle m copied
    ok (done, get_summary syllabus_id none done)

  -- `new Map(...)`: of two syllabuses of a course the later one stays.
  pub target_of : List Syllabus → String → Option Syllabus
  target_of [] course_id = none
  target_of (s ∷ rows) course_id = elim (target_of rows course_id) [
    | some later ↦ some later
    | none ↦ if s.course_id === course_id then some s else none
  ]

  pub target_id : String → List Syllabus → Syllabus → World db → Result (World db × String)
  target_id cycle_id existing source w = elim (target_of existing source.course_id) [
    | some t ↦ ok (w, t.id)
    | none ↦ create_syllabus db env cycle_id source.course_id source.name w
  ]

  pub clone_each :
      String → List ℕ → List Syllabus → List Syllabus → ℕ → World db → Result (World db × ℕ)
  clone_each cycle_id weeks existing [] cloned w = ok (w, cloned)
  clone_each cycle_id weeks existing (source ∷ sources) cloned w = do
    placed ← target_id cycle_id existing source w
    copied ← clone_syllabus placed.1 source.id (some weeks) placed.0
    clone_each cycle_id weeks existing sources (suc cloned) copied.0

  pub clone_cycle_syllabuses : String → String → World db → Result (World db × ℕ)
  clone_cycle_syllabuses target_cycle source_cycle w = do
    let sources = find_by_cycle db env source_cycle w
    throw_if (is_nil sources) bad_request
    clone_each target_cycle (env.get_active_week_numbers target_cycle)
        (find_by_cycle db env target_cycle w) sources 0 w
