-- ===== src/Reconciliation.antt =====
-- The sweep that dispatches lost jobs again: `sweepStuckMaterialCourses` of
-- backend-nestjs/src/materials/materials.cron.ts, for one tenant at one tick.
-- The ticks are fifteen minutes apart, the threshold is five. Times are minutes. Which 200 rows the query returns, where there are more, is open: `choose` gives
-- the rows in some order, and may depend on anything. The reads of a template, the queue and the last
-- UPDATE may fail; each failure is caught where the code catches it.
pub mod Groups
pub mod Sweep
mod Examples
use odiseo_new.Common.{
  ℕ, suc, ◌+◌, ltb, String, ◌===◌, includes, Bool, true, false, not, ◌&&◌, Option, none, some, List,
  [], ◌∷◌, ◌++◌, map, filter, length, take, concat, if◌then◌else◌,
}
use odiseo_new.Database.{Table}
use odiseo_new.Webhook.{CourseStatus}
use odiseo_new.Review.{Company}
use odiseo_new.Review.Approve.{text_or, company_name, company_logo}

pub record Request : Type 0 where
  pub id : String
  pub cycle_id : String
  pub week_number : ℕ
  pub design_template_id : Option String
  pub requires_review : Bool
  pub profile_id : String
  pub material_type : String
  pub updated_at : ℕ

pub record Course : Type 0 where
  pub id : String
  pub material_request_id : String
  pub course_id : String
  pub status : CourseStatus

-- `StuckMaterialCourse`: a course with the columns of its request.
pub record StuckMaterialCourse : Type 0 where
  pub course_request_id : String
  pub course_id : String
  pub request : Request

-- One entry of `distributions`; its topics and its excluded ids are empty.
pub record Entry : Type 0 where
  pub course_id : String
  pub course_request_id : String

pub record Job : Type 0 where
  pub material_request_id : String
  pub tenant_id : String
  pub cycle_id : String
  pub week_number : ℕ
  pub template_name : String
  pub design_template_id : Option String
  pub requires_review : Bool
  pub material_type : String
  pub distributions : List Entry
  pub commercial_name : String
  pub logo_url : String

pub record SweepDb : Type 1 where
  pub Requests : Type 0
  pub Courses : Type 0
  pub requests : Table Requests Request
  pub courses : Table Courses Course

pub record World (db : SweepDb) : Type 0 where
  pub requests : db.Requests
  pub courses : db.Courses
  pub jobs : List Job

-- `template_name id` is none where the read fails, and holds the name where the template exists.
pub record Env : Type 0 where
  pub now : ℕ
  pub company : Company
  pub choose : List StuckMaterialCourse → List StuckMaterialCourse
  pub template_name : String → Option (Option String)
  pub queue_accepts : Job → Bool
  pub bump_succeeds : String → Bool

abbrev pub stale_threshold_minutes : ℕ
stale_threshold_minutes = 5

abbrev pub sweep_batch_limit : ℕ
sweep_batch_limit = 200

abbrev pub is_processing : CourseStatus → Bool
is_processing CourseStatus.processing = true
is_processing _ = false

-- `updated_at < now() - 5 minutes`
abbrev pub is_stale : ℕ → Request → Bool
is_stale now r = ltb (r.updated_at + stale_threshold_minutes) now

abbrev pub stuck : Course → Request → StuckMaterialCourse
stuck c r = record { course_request_id = c.id; course_id = c.course_id; request = r }

-- The rows of the join for one course.
pub join_course : ℕ → List Request → Course → List StuckMaterialCourse
join_course now requests c =
    if is_processing c.status
    then map (stuck c) (filter (λ r. r.id === c.material_request_id && is_stale now r) requests)
    else []

pub stale_courses : ℕ → List Request → List Course → List StuckMaterialCourse
unfolding join_course
stale_courses now requests courses = concat (map (join_course now requests) courses)

-- `byRequest`: a map keeps its keys in the order in which they came.
pub push_course :
    StuckMaterialCourse
    → List (String × List StuckMaterialCourse)
    → List (String × List StuckMaterialCourse)
push_course c [] = (c.request.id, c ∷ []) ∷ []
push_course c ((id, bucket) ∷ rest) =
    if id === c.request.id then (id, bucket ++ c ∷ []) ∷ rest else (id, bucket) ∷ push_course c rest

pub group_into :
    List (String × List StuckMaterialCourse)
    → List StuckMaterialCourse
    → List (String × List StuckMaterialCourse)
unfolding push_course
group_into buckets [] = buckets
group_into buckets (c ∷ cs) = group_into (push_course c buckets) cs

abbrev entry_of : StuckMaterialCourse → Entry
entry_of c = record { course_id = c.course_id; course_request_id = c.course_request_id }

abbrev name_or : Option String → String
name_or name = text_or name "Material"

-- The job for a request, from the first of its courses and all of them.
pub job_of : Env → String → Request → Option String → List StuckMaterialCourse → Job
job_of env id r name courses = record {
  material_request_id = id;
  tenant_id = env.company.id;
  cycle_id = r.cycle_id;
  week_number = r.week_number;
  template_name = name_or name;
  design_template_id = r.design_template_id;
  requires_review = r.requires_review;
  material_type = r.material_type;
  distributions = map entry_of courses;
  commercial_name = company_name (some env.company);
  logo_url = company_logo (some env.company);
}

-- The job of a bucket, if its template can be read and the queue takes it.
pub deliverable : Env → String × List StuckMaterialCourse → List Job
unfolding job_of
deliverable env (id, []) = []
deliverable env (id, c ∷ cs) = elim (env.template_name c.request.profile_id) [
  | none ↦ []
  | some name ↦
      let job = job_of env id c.request name (c ∷ cs) in
      if env.queue_accepts job then job ∷ [] else []
]

module _ (db : SweepDb) where
  -- The UPDATE that resets the clock of a request; its failure is only logged.
  pub bump : Env → String → World db → World db
  bump env id w =
      if env.bump_succeeds id
      then record w {
        requests =
            db.requests.update (λ r. r.id === id) (λ r. record r { updated_at = env.now })
              w.requests;
      }
      else w

  -- One turn of the loop.
  pub redispatch : Env → String × List StuckMaterialCourse → World db → World db
  unfolding deliverable bump
  redispatch env (id, courses) w = elim (deliverable env (id, courses)) [
    | [] ↦ w
    | job ∷ rest ↦ bump env id (record w { jobs = w.jobs ++ job ∷ [] })
  ]

  pub redispatch_all : Env → List (String × List StuckMaterialCourse) → World db → World db
  unfolding redispatch
  redispatch_all env [] w = w
  redispatch_all env (b ∷ bs) w = redispatch_all env bs (redispatch env b w)

  pub batch : Env → World db → List StuckMaterialCourse
  unfolding stale_courses
  batch env w =
      take sweep_batch_limit (
        env.choose
          (stale_courses env.now (db.requests.rows w.requests) (db.courses.rows w.courses)))

  pub sweep_stuck_material_courses : Env → World db → World db
  unfolding redispatch_all group_into batch
  sweep_stuck_material_courses env w = redispatch_all env (group_into [] (batch env w)) w
