-- ===== src/AcademicTime/UseCase.antt =====
-- backend-nestjs/src/academic-time/academic-time.use-case.ts, with the statements of
-- backend-nestjs/src/academic-time/repositories/academic-time.repository.ts.
-- `daysPerWeek` is at least 1 by its DTO, so `daysPerWeek - 1` is a natural number.
pub mod Weeks
pub mod Guards
mod Examples
use odiseo_new.Common.{
  ℕ, zero, suc, ◌+◌, ◌-◌, ◌*◌, ◌==◌, ltb, String, ◌===◌, includes, Bool, true, false, not, ◌&&◌,
  ◌||◌, Option, none, some, List, [], ◌∷◌, ◌++◌, length, map, filter, find?, any, if◌then◌else◌,
}
use odiseo_new.Common.Http.{
  conflict, not_found, bad_request, internal, Result, ok, err, ◌>>=◌, ◌>>◌, throw_if,
}
use odiseo_new.Database.{find_one, find_all}
use odiseo_new.AcademicTime.{
  Cycle, Week, Scope, Template, TemplateCourse, TimeDb, World, CycleUsage, TemplateUsage, Env,
}

pub record CreateCycleDto : Type 0 where
  pub name : String
  pub year : ℕ
  pub start_date : String
  pub days_per_week : ℕ
  pub total_weeks : ℕ

pub record UpdateCycleDto : Type 0 where
  pub name : Option String
  pub year : Option ℕ
  pub start_date : Option String
  pub days_per_week : Option ℕ
  pub total_weeks : Option ℕ

pub record CourseDto : Type 0 where
  pub course_id : String
  pub questions_quantity : ℕ
  pub easy_count : Option ℕ
  pub medium_count : Option ℕ
  pub hard_count : Option ℕ

pub record UpdateTemplateDto : Type 0 where
  pub name : Option String
  pub scope : Option Scope
  pub accumulation_weeks : Option (Option ℕ)
  pub courses : Option (List CourseDto)

-- `a ?? b`
abbrev pub or_else {ℓ} : {A : Type ℓ} → Option A → A → A
or_else none b = b
or_else (some a) b = a

-- `new !== undefined && old !== new`
abbrev pub changes : Option ℕ → ℕ → Bool
changes none old = false
changes (some new) old = not (old == new)

-- One turn of the loops that build the weeks. A week of that number that is there keeps its id and
-- whether it is active.
pub week_at : (env : Env) → String → env.Day → ℕ → ℕ → String → Option Week → Week
week_at env cycle_id start days i fresh_id old =
    let first = env.add_days start ((i - 1) * 7) in
    record {
      id = elim old [ none ↦ fresh_id | some w ↦ w.id ];
      cycle_id = cycle_id;
      week_number = i;
      start_date = env.format first;
      end_date = env.format (env.add_days first (days - 1));
      is_active = elim old [ none ↦ true | some w ↦ w.is_active ];
      deleted = false;
    }

abbrev pub ids_used : Option Week → ℕ → ℕ
ids_used none n = suc n
ids_used (some w) n = n

-- The weeks from number i on, and the count of ids after them.
pub plan_weeks : (env : Env) → String → env.Day → ℕ → List Week → ℕ → ℕ → ℕ → List Week × ℕ
plan_weeks env cycle_id start days existing zero i n = ([], n)
plan_weeks env cycle_id start days existing (suc k) i n =
    let old = find? (λ w. w.week_number == i) existing in
    let (weeks, n') = plan_weeks env cycle_id start days existing k (suc i) (ids_used old n) in
    (week_at env cycle_id start days i (env.uuid n) old ∷ weeks, n')

-- The end date of the last week.
last_end : String → List Week → String
last_end end_date [] = end_date
last_end end_date (w ∷ weeks) = last_end w.end_date weeks

abbrev normalize_date : Env → String → String
normalize_date env d = if d === "" then "" else env.format (env.utc d)

pub needs_recalculation : Env → UpdateCycleDto → Cycle → Bool
needs_recalculation env dto c =
    elim dto.start_date [
      | none ↦ false
      | some d ↦ not (normalize_date env c.start_date === normalize_date env d)
    ]
    || changes dto.days_per_week c.days_per_week
    || changes dto.total_weeks c.total_weeks

-- The columns that an update of a cycle sets.
pub updated_cycle : Env → UpdateCycleDto → Cycle → Cycle
updated_cycle env dto c = record c {
  name = or_else dto.name c.name;
  year = or_else dto.year c.year;
  start_date = elim dto.start_date [ none ↦ c.start_date | some d ↦ normalize_date env d ];
  days_per_week = or_else dto.days_per_week c.days_per_week;
  total_weeks = or_else dto.total_weeks c.total_weeks;
}

abbrev final_start_date : Env → UpdateCycleDto → Cycle → String
final_start_date env dto c = normalize_date env (or_else dto.start_date c.start_date)

-- `validateAndMapCourses`; the ids are given out one by one.
pub validate_and_map_courses : Env → String → ℕ → List CourseDto → Result (List TemplateCourse)
validate_and_map_courses env template_id n [] = ok []
validate_and_map_courses env template_id n (c ∷ cs) =
    let easy = or_else c.easy_count 0 in
    let medium = or_else c.medium_count 0 in
    let hard = or_else c.hard_count 0 in
    let rest = validate_and_map_courses env template_id (suc n) cs in
    if not (easy + medium + hard == c.questions_quantity)
    then err bad_request
    else rest >>= λ courses. ok (
        record {
          id = env.uuid n;
          template_id = template_id;
          course_id = c.course_id;
          questions_quantity = c.questions_quantity;
          easy_count = easy;
          medium_count = medium;
          hard_count = hard;
        }
        ∷ courses)

module _ (db : TimeDb) (env : Env) where
  abbrev week_rows : World db → List Week
  week_rows w = db.weeks.rows w.weeks

  abbrev pub cycle_with : String → World db → Option Cycle
  cycle_with id w = find_one db.cycles (λ c. c.id === id && not c.deleted) w.cycles

  abbrev pub weeks_of_cycle : String → World db → List Week
  weeks_of_cycle id w = find_all db.weeks (λ x. x.cycle_id === id && not x.deleted) w.weeks

  -- The partial unique index over the live weeks of a cycle.
  abbrev week_refused : Week → World db → Bool
  week_refused x w =
      any
        (λ y.
          not (y.id === x.id)
          && y.cycle_id === x.cycle_id
          && y.week_number == x.week_number
          && not y.deleted)
        (week_rows w)

  save_week : Week → World db → World db
  save_week x w =
      if any (λ y. y.id === x.id) (week_rows w)
      then record w { weeks = db.weeks.update (λ y. y.id === x.id) (λ y. x) w.weeks }
      else record w { weeks = db.weeks.insert (x ∷ []) w.weeks }

  save_weeks_safely : List Week → World db → Result (World db)
  save_weeks_safely [] w = ok w
  save_weeks_safely (x ∷ xs) w =
      let skipped = save_weeks_safely xs w in
      let saved = save_weeks_safely xs (save_week x w) in
      if week_refused x w then (if env.recovers then skipped else err internal) else saved

  create_cycle : CreateCycleDto → World db → Result (World db)
  create_cycle dto w =
      let id = env.uuid w.created in
      let start = env.utc dto.start_date in
      let planned =
        plan_weeks env id start dto.days_per_week [] dto.total_weeks 1 (suc w.created) in
      save_weeks_safely planned.0 (record w {
        cycles =
            db.cycles.insert
              (record {
                id = id;
                name = dto.name;
                year = dto.year;
                start_date = env.format start;
                end_date = last_end "" planned.0;
                days_per_week = dto.days_per_week;
                total_weeks = dto.total_weeks;
                is_active = true;
                deleted = false;
              }
                ∷ [])
              w.cycles;
        created = planned.1;
      })

  -- The weeks that the new plan has no place for are soft-deleted before the others are saved.
  write_weeks : String → List Week → World db → Result (World db)
  write_weeks id [] w = ok w
  write_weeks id (x ∷ xs) w = save_weeks_safely (x ∷ xs) (record w {
    weeks =
        db.weeks.update
          (λ y.
            y.cycle_id === id && not y.deleted && not (includes (map (λ z. z.id) (x ∷ xs)) y.id))
          (λ y. record y { deleted = true }) w.weeks;
  })

  recalculate : String → UpdateCycleDto → Cycle → World db → Result (World db)
  recalculate id dto c w =
      let next = updated_cycle env dto c in
      let start = env.utc (final_start_date env dto c) in
      let planned =
        plan_weeks env id start next.days_per_week (weeks_of_cycle id w) next.total_weeks 1
          w.created in
      write_weeks id planned.0 (record w {
        cycles =
            db.cycles.update (λ x. x.id === id)
              (λ x. record (updated_cycle env dto x) { end_date = last_end x.end_date planned.0 })
              w.cycles;
        created = planned.1;
      })

  abbrev pub known : Option Cycle → Result Cycle
  known none = err not_found
  known (some c) = ok c

  abbrev checked : Option Bool → Result Bool
  checked none = err internal
  checked (some b) = ok b

  pub write_cycle : String → UpdateCycleDto → Cycle → World db → Result (World db)
  write_cycle id dto c w =
      if needs_recalculation env dto c
      then recalculate id dto c w
      else ok (record w {
        cycles = db.cycles.update (λ x. x.id === id) (updated_cycle env dto) w.cycles;
      })

  pub update_cycle : String → UpdateCycleDto → World db → Result (World db)
  update_cycle id dto w = do
    c ← known (cycle_with id w)
    has_syllabus ← checked (env.has_syllabus id)
    throw_if (needs_recalculation env dto c && has_syllabus) conflict
    write_cycle id dto c w

  toggle_cycle_visibility : String → Bool → World db → World db
  toggle_cycle_visibility id is_active w = record w {
    cycles = db.cycles.update (λ c. c.id === id) (λ c. record c { is_active = is_active }) w.cycles;
    archived = if is_active then w.archived else w.archived ++ id ∷ [];
  }

  toggle_week_visibility : String → Bool → World db → World db
  toggle_week_visibility id is_active w = record w {
    weeks = db.weeks.update (λ x. x.id === id) (λ x. record x { is_active = is_active }) w.weeks;
  }

  pub get_active_week_numbers : String → World db → List ℕ
  get_active_week_numbers id w =
      map (λ x. x.week_number) (filter (λ x. x.is_active) (weeks_of_cycle id w))

  abbrev pub templates_of : String → World db → List Template
  templates_of id w = find_all db.templates (λ t. t.cycle_id === id) w.templates

  -- Some dependant has a count over 0.
  pub cycle_in_use : String → World db → Bool
  cycle_in_use id w =
      let usage = env.cycle_usage id in
      ltb 0 (length (templates_of id w))
      || ltb 0 usage.syllabus
      || ltb 0 usage.materials
      || ltb 0 usage.material_requests

  pub soft_delete_cycle : String → World db → World db
  soft_delete_cycle id w = record w {
    cycles =
        db.cycles.update (λ c. c.id === id && not c.deleted) (λ c. record c { deleted = true })
          w.cycles;
    weeks =
        db.weeks.update (λ x. x.cycle_id === id && not x.deleted) (λ x. record x { deleted = true })
          w.weeks;
  }

  pub delete_cycle : String → World db → Result (World db)
  delete_cycle id w = if cycle_in_use id w then err conflict else ok (soft_delete_cycle id w)

  create_template :
      String → String → Scope → Option ℕ → List CourseDto → World db → Result (World db)
  create_template cycle_id name scope accumulation courses w = do
    c ← known (cycle_with cycle_id w)
    has_syllabus ← checked (env.has_syllabus cycle_id)
    let id = env.uuid w.created
    rows ← validate_and_map_courses env id (suc w.created) courses
    ok (record w {
      templates =
          db.templates.insert
            (record {
              id = id;
              cycle_id = cycle_id;
              name = name;
              scope = scope;
              accumulation_weeks = accumulation;
            }
              ∷ [])
            w.templates;
      courses = db.courses.insert rows w.courses;
      created = suc w.created + length rows;
    })

  abbrev pub is_owned : String → String → World db → Bool
  is_owned template_id cycle_id w =
      any (λ t. t.id === template_id && t.cycle_id === cycle_id) (db.templates.rows w.templates)

  write_template : String → UpdateTemplateDto → Option (List TemplateCourse) → World db → World db
  write_template id dto rows w = record w {
    templates =
        db.templates.update (λ t. t.id === id)
          (λ t. record t {
            name = or_else dto.name t.name;
            scope = or_else dto.scope t.scope;
            accumulation_weeks = or_else dto.accumulation_weeks t.accumulation_weeks;
          })
          w.templates;
    courses = elim rows [
      | none ↦ w.courses
      | some rs ↦ db.courses.insert rs (db.courses.delete (λ c. c.template_id === id) w.courses)
    ];
    created = elim rows [ none ↦ w.created | some rs ↦ w.created + length rs ];
  }

  mapped_courses :
      String → Option (List CourseDto) → World db → Result (Option (List TemplateCourse))
  mapped_courses id none w = ok none
  mapped_courses id (some cs) w =
      validate_and_map_courses env id w.created cs >>= λ rows. ok (some rows)

  update_template : String → String → UpdateTemplateDto → World db → Result (World db)
  update_template cycle_id id dto w = do
    throw_if (not (is_owned id cycle_id w)) not_found
    rows ← mapped_courses id dto.courses w
    ok (write_template id dto rows w)

  pub template_in_use : String → Bool
  template_in_use id =
      let usage = env.template_usage id in
      ltb 0 usage.syllabus
      || ltb 0 usage.syllabus_distribution
      || ltb 0 usage.material_requests
      || ltb 0 usage.materials

  pub remove_template : String → World db → World db
  remove_template id w = record w {
    courses = db.courses.delete (λ c. c.template_id === id) w.courses;
    templates = db.templates.delete (λ t. t.id === id) w.templates;
  }

  pub delete_template : String → String → World db → Result (World db)
  delete_template cycle_id id w = do
    throw_if (not (is_owned id cycle_id w)) not_found
    throw_if (template_in_use id) conflict
    ok (remove_template id w)
