-- ===== src/Reconciliation/Examples.antt =====
-- A tick that finds two lost requests, of which one has no readable template.
use odiseo_new.Common.{
  any, ◌↔◌, ◌<◌, ◌+◌, ℕ, String, ◌===◌, ◌≡◌, refl, true, false, none, some, List, [], ◌∷◌, ◌++◌,
  map, concat, if◌then◌else◌,
}
use odiseo_new.Database.Memory.{in_memory}
use odiseo_new.Webhook.{CourseStatus}
use odiseo_new.Reconciliation.{
  Request, Course, StuckMaterialCourse, SweepDb, World, Env, deliverable, batch, stale_courses,
  sweep_stuck_material_courses, stale_threshold_minutes,
}
use odiseo_new.Reconciliation.Groups.{Grouped, of_request}
use odiseo_new.Reconciliation.Sweep.{processing_of, jobs-sweep, sweep_again_iff}

abbrev memory : SweepDb
memory = record {
  Requests = List Request;
  Courses = List Course;
  requests = in_memory;
  courses = in_memory;
}

abbrev request : String → String → ℕ → Request
request id profile updated_at = record {
  id = id;
  cycle_id = "cycle";
  week_number = 1;
  design_template_id = none;
  requires_review = false;
  profile_id = profile;
  material_type = "BALOTARIO";
  updated_at = updated_at;
}

abbrev course : String → String → Course
course id request_id = record {
  id = id;
  material_request_id = request_id;
  course_id = "algebra";
  status = CourseStatus.processing;
}

abbrev world : World memory
world = record {
  requests = request "r1" "p" 10 ∷ request "r2" "lost" 10 ∷ request "r3" "p" 18 ∷ [];
  courses = course "c1" "r1" ∷ course "c2" "r2" ∷ course "c3" "r1" ∷ course "c4" "r3" ∷ [];
  jobs = [];
}

abbrev env : Env
env = record {
  now = 20;
  company = record { id = "tenant"; commercial_name = none; logo_url = none };
  choose = λ cs. cs;
  template_name = λ id. if id === "p" then some (some "Semanal") else none;
  queue_accepts = λ j. true;
  bump_succeeds = λ id. true;
}

-- The two courses of the first request share a job; the last one is not stuck yet.
one_job :
    map
      (λ j. map (λ d. d.course_request_id) j.distributions)
      (sweep_stuck_material_courses memory env world).jobs
    ≡ ("c1" ∷ "c3" ∷ []) ∷ []
unfolding sweep_stuck_material_courses
one_job = refl

jobs-sweep_example :
    (groups : List (String × List StuckMaterialCourse)) × Grouped (batch memory env world) groups
    × ((sweep_stuck_material_courses memory env world).jobs
        ≡ [] ++ concat (map (deliverable env) groups))
jobs-sweep_example = jobs-sweep memory env world

-- The tick at minute 35, fifteen minutes later.
sweep_again_iff_example :
    let w' = sweep_stuck_material_courses memory env world in
    (any (of_request "r1") (stale_courses 35 w'.requests w'.courses) ≡ true) ↔ (
      (env.now + stale_threshold_minutes < 35)
      × (any (λ r. r.id === "r1") w'.requests ≡ true)
      × (any (processing_of memory "r1") w'.courses ≡ true))
unfolding sweep_stuck_material_courses
sweep_again_iff_example = sweep_again_iff memory env world "r1" 35 refl refl
