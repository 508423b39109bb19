-- ===== src/Syllabus/Repository.antt =====
-- backend-nestjs/src/syllabus/repositories/syllabus.repository.ts
pub mod Operations
use odiseo_new.Common.{
  ℕ, suc, ◌+◌, ◌==◌, String, ◌===◌, truthy, Bool, true, false, not, ◌&&◌, ◌||◌, Option, none, some,
  List, [], ◌∷◌, map, filter, any, if◌then◌else◌,
}
use odiseo_new.Common.Http.{conflict, not_found, internal, Result, ok, err}
use odiseo_new.Database.{find_one, find_all}
use odiseo_new.Syllabus.{Syllabus, Distribution, SyllabusDb, World, Env, Cell}

-- `COALESCE(template_id, <nil uuid>)`, of which both sides are null or the same text.
abbrev same_template : Option String → Option String → Bool
same_template none none = true
same_template (some a) (some b) = a === b
same_template _ _ = false

-- The columns of uq_syllabus_distribution_template_week_topic_subtopic.
pub is_cell : String → Cell → Distribution → Bool
is_cell syllabus_id c d =
    d.syllabus_id === syllabus_id
    && same_template d.template_id c.template_id
    && d.week_number == c.week_number
    && d.topic_id === c.topic_id
    && d.subtopic_id === c.subtopic_id

pub row_of : String → String → Cell → Distribution
row_of id syllabus_id c = record {
  id = id;
  syllabus_id = syllabus_id;
  template_id = c.template_id;
  week_number = c.week_number;
  topic_id = c.topic_id;
  subtopic_id = c.subtopic_id;
  question_count = c.question_count;
  is_generated = false;
}

abbrev excluded : Option String → Distribution → Bool
excluded none d = false
excluded (some id) d = d.id === id

-- What `sumWeekQuestionCount` adds up.
abbrev pub counted : String → ℕ → Option String → Distribution → Bool
counted syllabus_id week exclude d =
    d.syllabus_id === syllabus_id && d.week_number == week && not (excluded exclude d)

pub sum_counts : (Distribution → Bool) → List Distribution → ℕ
sum_counts p [] = 0
sum_counts p (d ∷ ds) = let rest = sum_counts p ds in if p d then d.question_count + rest else rest

module _ (db : SyllabusDb) (env : Env) where
  abbrev syllabus_rows : World db → List Syllabus
  syllabus_rows w = db.syllabuses.rows w.syllabuses

  abbrev pub distribution_rows : World db → List Distribution
  distribution_rows w = db.distributions.rows w.distributions

  -- The partial unique index over the active rows of a course and a cycle refuses the row.
  pub create_syllabus : String → String → String → World db → Result (World db × String)
  create_syllabus cycle_id course_id name w =
      if any (λ s. s.is_active && s.cycle_id === cycle_id && s.course_id === course_id)
        (syllabus_rows w)
      then err conflict
      else ok (
        record w {
          syllabuses =
              db.syllabuses.insert
                (record {
                  id = env.uuid w.created;
                  cycle_id = cycle_id;
                  course_id = course_id;
                  name = name;
                  template_id = none;
                  is_active = true;
                }
                  ∷ [])
                w.syllabuses;
          created = suc w.created;
        },
        env.uuid w.created,
      )

  abbrev pub find_by_id : String → World db → Option Syllabus
  find_by_id id w = find_one db.syllabuses (λ s. s.id === id && s.is_active) w.syllabuses

  abbrev pub find_by_course_and_cycle : String → String → World db → Option Syllabus
  find_by_course_and_cycle course_id cycle_id w =
      find_one db.syllabuses
        (λ s. s.course_id === course_id && s.cycle_id === cycle_id && s.is_active) w.syllabuses

  abbrev pub find_by_cycle : String → World db → List Syllabus
  find_by_cycle cycle_id w = find_all db.syllabuses (λ s. s.cycle_id === cycle_id) w.syllabuses

  pub set_template : String → String → World db → World db
  set_template id template_id w = record w {
    syllabuses =
        db.syllabuses.update (λ s. s.id === id) (λ s. record s { template_id = some template_id })
          w.syllabuses;
  }

  -- Another active row of the same course and cycle makes the index refuse the reactivation.
  clashes : String → List Syllabus → Bool
  clashes id rows =
      any
        (λ s.
          s.id === id
          && not s.is_active
          && any (λ t. t.is_active && t.cycle_id === s.cycle_id && t.course_id === s.course_id)
              rows)
        rows

  pub update_visibility : String → Bool → World db → Result (World db)
  unfolding clashes
  update_visibility id is_active w =
      if is_active && clashes id (syllabus_rows w)
      then err conflict
      else ok (record w {
        syllabuses =
            db.syllabuses.update (λ s. s.id === id) (λ s. record s { is_active = is_active })
              w.syllabuses;
      })

  -- Last write wins: where the index refuses the new row, the row in its place is overwritten.
  pub put_distribution : String → Cell → World db → World db
  put_distribution syllabus_id c w =
      elim (find_one db.distributions (is_cell syllabus_id c) w.distributions) [
        | none ↦ record w {
          distributions =
              db.distributions.insert (row_of (env.uuid w.created) syllabus_id c ∷ [])
                w.distributions;
          created = suc w.created;
        }
        | some existing ↦ record w {
          distributions =
              db.distributions.update (λ d. d.id === existing.id)
                (λ d. record existing { question_count = c.question_count }) w.distributions;
          created = suc w.created;
        }
      ]

  -- The overwriting runs in the transaction of the refused insert.
  pub create_distribution : String → Cell → World db → Result (World db)
  unfolding put_distribution
  create_distribution syllabus_id c w =
      if any (is_cell syllabus_id c) (distribution_rows w) && not env.recovers
      then err internal
      else ok (put_distribution syllabus_id c w)

  abbrev pub get_distribution_by_id : String → String → World db → Option Distribution
  get_distribution_by_id id syllabus_id w =
      find_one db.distributions (λ d. d.id === id && d.syllabus_id === syllabus_id) w.distributions

  abbrev pub sum_week_question_count : String → ℕ → Option String → World db → ℕ
  sum_week_question_count syllabus_id week exclude w =
      sum_counts (counted syllabus_id week exclude) (distribution_rows w)

  -- `result.affected` is 0 where no row was met.
  pub update_quantity : String → String → ℕ → World db → Result (World db)
  update_quantity id syllabus_id n w =
      if any (λ d. d.id === id && d.syllabus_id === syllabus_id) (distribution_rows w)
      then ok (record w {
        distributions =
            db.distributions.update (λ d. d.id === id && d.syllabus_id === syllabus_id)
              (λ d. record d { question_count = n }) w.distributions;
      })
      else err not_found

  pub delete_distribution : String → String → World db → Result (World db)
  delete_distribution id syllabus_id w =
      if any (λ d. d.id === id && d.syllabus_id === syllabus_id) (distribution_rows w)
      then ok (record w {
        distributions =
            db.distributions.delete (λ d. d.id === id && d.syllabus_id === syllabus_id)
              w.distributions;
      })
      else err not_found

  -- A bulk insert has no fallback: a cell that is there already is an error.
  pub bulk_create_distributions : String → List Cell → World db → Result (World db)
  bulk_create_distributions syllabus_id [] w = ok w
  bulk_create_distributions syllabus_id (c ∷ cells) w =
      if any (is_cell syllabus_id c) (distribution_rows w)
      then err internal
      else bulk_create_distributions syllabus_id cells (record w {
        distributions =
            db.distributions.insert (row_of (env.uuid w.created) syllabus_id c ∷ [])
              w.distributions;
        created = suc w.created;
      })

  pub bulk_delete_distributions : String → World db → World db
  bulk_delete_distributions syllabus_id w = record w {
    distributions = db.distributions.delete (λ d. d.syllabus_id === syllabus_id) w.distributions;
  }

  abbrev of_template : Option String → Distribution → Bool
  of_template none d = true
  of_template (some t) d = if truthy (some t) then same_template d.template_id (some t) else true

  abbrev pub get_summary_by_syllabus : String → Option String → World db → List Distribution
  get_summary_by_syllabus syllabus_id template_id w =
      find_all db.distributions (λ d. d.syllabus_id === syllabus_id && of_template template_id d)
        w.distributions
