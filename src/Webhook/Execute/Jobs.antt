-- ===== src/Webhook/Execute/Jobs.antt =====
-- How many merge jobs a request has, and what keeps a request without a failed course.
use odiseo_new.Common.{
  ℕ, ◌+◌, ◌≤◌, String, ◌===◌, eq_iff, ◌≡◌, ◌≢◌, refl, ap, ◌∙◌, inl, inr, true, false, Bool-cases,
  Option, some, List, [], ◌∷◌, ◌++◌, map, arith, any, if◌then◌else◌, filter, length,
}
use odiseo_new.Common.Http.{ok}
use odiseo_new.Database.{updated}
use odiseo_new.Webhook.{
  CourseStatus, Course, Request, UsageRecord, Database, StatusDto, ArtifactMeta, Env, World,
  MergeJob,
}
use odiseo_new.Webhook.Execute.{
  map_status, is_failed, is_final_success, course_update, final_status, should_merge, siblings_of,
  write_course, transition,
}
use odiseo_new.Webhook.Execute.Guard.{courses-transition}
use odiseo_new.Webhook.Execute.Rollup.{merge_job}

-- How many merge jobs of a request are in the queue.
abbrev pub merges : String → List MergeJob → ℕ
merges id jobs = length (filter (λ j. j.material_request_id === id) jobs)

pub merges-append :
    (id : String) (xs ys : List MergeJob) → merges id (xs ++ ys) ≡ merges id xs + merges id ys
merges-append id [] ys = omega arith
merges-append id (x ∷ xs) ys = ground (arith, merges-append id xs ys)

pub merges-merge_job-le : (env : Env) (id other : String) → merges other (merge_job env id) ≤ 1
merges-merge_job-le env id other = ground arith

pub merges-merge_job_ne :
    (env : Env) (id other : String) → (id === other) ≡ false → merges other (merge_job env id) ≡ 0
merges-merge_job_ne env id other ne = ground (arith, ne)

-- How many merge jobs the request may still get.
abbrev pub merges_left : Request → ℕ
merges_left r = if is_final_success r.status then 0 else 1

-- Without a failed course the roll-up is a success.
pub final_status-is_final_success :
    (siblings : List Course)
    → any (λ c. is_failed c.status) siblings ≡ false
    → is_final_success (final_status siblings) ≡ true
unfolding final_status
final_status-is_final_success siblings h = ground arith

pub should_merge-not_final :
    (r : Request) (siblings : List Course)
    → should_merge (some r) siblings ≡ true
    → is_final_success r.status ≡ false
unfolding should_merge
should_merge-not_final r siblings h = ground arith

pub status_ne :
    (status : String) {given : Option String}
    → given ≢ some "failed"
    → given ≡ some status
    → (status === "failed") ≡ false
status_ne status {given} h e = elim (Bool-cases (status === "failed")) [
  | inl same ↦ absurd (h (e ∙ ap some ((eq_iff status "failed").0 same)))
  | inr apart ↦ apart
]

-- A callback that does not report a failure fails no course.
any_failed-updated :
    (id other : String) (f : Course → Course)
    → ((c : Course) → is_failed (f c).status ≡ false)
    → ((c : Course) → (f c).material_request_id ≡ c.material_request_id)
    → (rows : List Course)
    → any (λ c. is_failed c.status) (filter (λ c. c.material_request_id === other) rows) ≡ false
    → any
        (λ c. is_failed c.status)
        (filter (λ c. c.material_request_id === other) (map (updated (λ c. c.id === id) f) rows))
      ≡ false
any_failed-updated id other f fine keeps [] h = refl
any_failed-updated id other f fine keeps (c ∷ rows) h =
    ground (arith, fine c, keeps c, any_failed-updated id other f fine keeps rows)

pub map_status-fine :
    (status : String) (incoming : CourseStatus)
    → map_status status ≡ ok incoming
    → (status === "failed") ≡ false
    → is_failed incoming ≡ false
unfolding map_status
map_status-fine status incoming h ne = ground arith

fine-course_update :
    (env : Env) (dto : StatusDto) (meta : Option ArtifactMeta) (incoming : CourseStatus)
    → is_failed incoming ≡ false
    → (c : Course)
    → (is_failed (course_update env dto meta incoming c).status ≡ false)
      × ((course_update env dto meta incoming c).material_request_id ≡ c.material_request_id)
unfolding course_update
fine-course_update env dto meta incoming h c = (h, refl)

module _ (db : Database) where
  abbrev pub HasNoFailure : String → World db → Type 0
  HasNoFailure id w = any (λ c. is_failed c.status) (siblings_of db id w) ≡ false

  pub HasNoFailure-transition :
      (env : Env) (dto : StatusDto) (usages : List UsageRecord) (meta : Option ArtifactMeta)
      (incoming : CourseStatus) (c : Course) (w w' : World db) (id : String)
      → is_failed incoming ≡ false
      → HasNoFailure id w
      → transition db env dto usages meta incoming c w ≡ ok w'
      → HasNoFailure id w'
  unfolding write_course
  HasNoFailure-transition env dto usages meta incoming c w w' id fine h moved =
      rw (courses-transition db env dto usages meta incoming c w w' moved, db.courses.rows-update)
        (any_failed-updated c.id id (course_update env dto meta incoming)
          (λ x. (fine-course_update env dto meta incoming fine x).0)
          (λ x. (fine-course_update env dto meta incoming fine x).1) (db.courses.rows w.courses) h)
