-- ===== src/AcademicTime/UseCase/Examples.antt =====
-- A cycle held in memory, and instances of the theorems.
use odiseo_new.Common.{
  ℕ, ◌+◌, ◌==◌, String, ◌===◌, ◌≡◌, ◌↔◌, refl, true, false, none, some, All, List, [], ◌∷◌, map,
  find?, if◌then◌else◌,
}
use odiseo_new.Common.Http.{ok, err, conflict, not_found}
use odiseo_new.Database.Memory.{in_memory}
use odiseo_new.AcademicTime.{Cycle, Week, Template, TemplateCourse, TimeDb, World, Env, Scope}
use odiseo_new.AcademicTime.UseCase.{
  UpdateCycleDto, CourseDto, cycle_with, week_at, plan_weeks, needs_recalculation, updated_cycle,
  write_cycle, update_cycle, templates_of, delete_cycle, delete_template,
}
use odiseo_new.AcademicTime.UseCase.Weeks.{TakesOver, plan_weeks_lem}
use odiseo_new.AcademicTime.UseCase.Guards.{
  Deleted, Removed, Owned, update_cycle_frozen, delete_cycle_iff, delete_template_iff,
}

abbrev memory : TimeDb
memory = record {
  Cycles = List Cycle;
  Weeks = List Week;
  Templates = List Template;
  Courses = List TemplateCourse;
  cycles = in_memory;
  weeks = in_memory;
  templates = in_memory;
  courses = in_memory;
}

-- Days are counted from the start of the cycle.
abbrev env : Env
env = record {
  Day = ℕ;
  utc = λ s. 0;
  add_days = λ d n. d + n;
  format = λ d.
      if d == 0 then "day 0" else if d == 4 then "day 4" else if d == 7 then "day 7" else "later";
  uuid = λ n. if n == 0 then "id0" else "id1";
  has_syllabus = λ c. some (c === "used");
  cycle_usage = λ c. record {
    syllabus = if c === "used" then 1 else 0;
    materials = 0;
    material_requests = 0;
  };
  template_usage =
      λ t. record { syllabus = 0; syllabus_distribution = 0; material_requests = 0; materials = 0 };
  recovers = false;
}

abbrev cycle : String → Cycle
cycle id = record {
  id = id;
  name = "2026";
  year = 2026;
  start_date = "day 0";
  end_date = "day 4";
  days_per_week = 5;
  total_weeks = 1;
  is_active = true;
  deleted = false;
}

abbrev week : Week
week = record {
  id = "w1";
  cycle_id = "free";
  week_number = 1;
  start_date = "day 0";
  end_date = "day 4";
  is_active = false;
  deleted = false;
}

abbrev world : World memory
world = record {
  cycles = cycle "used" ∷ cycle "free" ∷ [];
  weeks = week ∷ [];
  templates =
      record {
        id = "t1";
        cycle_id = "used";
        name = "t";
        scope = Scope.current_week;
        accumulation_weeks = none;
      }
      ∷ [];
  courses = [];
  archived = [];
  created = 0;
}

abbrev no_change : UpdateCycleDto
no_change = record {
  name = none;
  year = none;
  start_date = none;
  days_per_week = none;
  total_weeks = none;
}

-- The first week keeps its id and stays inactive, the second one is new.
planned :
    (plan_weeks env "free" 0 5 (week ∷ []) 2 1 0).0
    ≡ week
      ∷ record {
        id = "id0";
        cycle_id = "free";
        week_number = 2;
        start_date = "day 7";
        end_date = "later";
        is_active = true;
        deleted = false;
      }
      ∷ []
unfolding plan_weeks week_at
planned = refl

refused :
    update_cycle memory env "used" (record no_change { total_weeks = some 3 }) world ≡ err conflict
unfolding update_cycle needs_recalculation
refused = refl

abbrev course : CourseDto
course = record {
  course_id = "algebra";
  questions_quantity = 10;
  easy_count = some 4;
  medium_count = none;
  hard_count = some 6;
}

abbrev course_rows : List TemplateCourse
course_rows =
    record {
      id = "id0";
      template_id = "t1";
      course_id = "algebra";
      questions_quantity = 10;
      easy_count = 4;
      medium_count = 0;
      hard_count = 6;
    }
    ∷ []

plan_weeks_lem_example :
    let planned' = (plan_weeks env "free" 0 5 (week ∷ []) 2 1 0).0 in
    (map (λ x. x.week_number) planned' ≡ 1 ∷ 2 ∷ [])
    × All (λ x. TakesOver x (find? (λ w. w.week_number == x.week_number) (week ∷ []))) planned'
plan_weeks_lem_example = plan_weeks_lem env "free" 0 5 (week ∷ []) 2 1 0

abbrev renamed : World memory
renamed = record world { cycles = record (cycle "used") { name = "new" } ∷ cycle "free" ∷ [] }

update_cycle_frozen_example :
    (renamed.weeks ≡ world.weeks)
    × (c' : Cycle) × (cycle_with memory env "used" renamed ≡ some c')
    × (c'.days_per_week ≡ (cycle "used").days_per_week)
    × (c'.total_weeks ≡ (cycle "used").total_weeks)
unfolding update_cycle needs_recalculation write_cycle updated_cycle
update_cycle_frozen_example =
    update_cycle_frozen memory env "used" (record no_change { name = some "new" }) (cycle "used")
      world renamed refl refl refl

delete_cycle_iff_example :
    ((w' : World memory) × (delete_cycle memory env "free" world ≡ ok w')
      × Deleted memory env "free" world w')
    ↔ ((templates_of memory env "free" world ≡ [])
        × ((env.cycle_usage "free").syllabus ≡ 0)
        × ((env.cycle_usage "free").materials ≡ 0)
        × ((env.cycle_usage "free").material_requests ≡ 0))
delete_cycle_iff_example = delete_cycle_iff memory env "free" world

delete_template_iff_example :
    (((w' : World memory) × (delete_template memory env "used" "t1" world ≡ ok w')
        × Removed memory env "t1" world w')
      ↔ (Owned "t1" "used" world.templates
          × ((env.template_usage "t1").syllabus ≡ 0)
          × ((env.template_usage "t1").syllabus_distribution ≡ 0)
          × ((env.template_usage "t1").material_requests ≡ 0)
          × ((env.template_usage "t1").materials ≡ 0)))
    × ((delete_template memory env "used" "t1" world ≡ err not_found)
        ↔ (¬ Owned "t1" "used" world.templates))
delete_template_iff_example = delete_template_iff memory env "used" "t1" world
