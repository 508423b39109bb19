-- ===== src/Webhook/Execute.antt =====
-- `mapStatus` and `execute` of
-- backend-nestjs/src/materials/use-cases/handle-material-webhook.use-case.ts, in their steps.
pub mod Guard
pub mod Total
pub mod Delivery
pub mod Statuses
pub mod Rollup
pub mod Jobs
pub mod Others
pub mod Merge
mod Examples
use odiseo_new.Common.{
  ℕ, leb, ◌==◌, String, ◌===◌, truthy, Bool, true, false, not, ◌&&◌, ◌||◌, Option, none, some, List,
  [], ◌∷◌, ◌++◌, map, length, all, any, if◌then◌else◌,
}
use odiseo_new.Common.Http.{bad_request, internal, Result, ok, err, ◌>>=◌, throw_if, ◌>>◌}
use odiseo_new.Database.{Table, find_one, find_all}
use odiseo_new.Webhook.{
  CourseStatus, RequestStatus, Course, Request, Material, UsageRecord, Usage, Ledger, Database,
  StatusDto, ArtifactMeta, MergeJob, GeneratedEvent, Env, World,
}

pub map_status : String → Result CourseStatus
map_status s =
    if s === "completed"
    then ok CourseStatus.completed
    else if s === "completed_with_warnings"
    then ok CourseStatus.completed_with_warnings
    else if s === "empty_bank"
    then ok CourseStatus.empty_bank
    else if s === "failed"
    then ok CourseStatus.failed
    else if s === "processing"
    then ok CourseStatus.processing
    else err bad_request

-- COMPLETED or COMPLETED_WITH_WARNINGS
abbrev pub is_success : CourseStatus → Bool
is_success CourseStatus.completed = true
is_success CourseStatus.completed_with_warnings = true
is_success _ = false

abbrev pub is_failed : CourseStatus → Bool
is_failed CourseStatus.failed = true
is_failed _ = false

abbrev pub is_warning : CourseStatus → Bool
is_warning CourseStatus.completed_with_warnings = true
is_warning CourseStatus.empty_bank = true
is_warning _ = false

abbrev pub is_finished : CourseStatus → Bool
is_finished CourseStatus.completed = true
is_finished CourseStatus.completed_with_warnings = true
is_finished CourseStatus.empty_bank = true
is_finished CourseStatus.failed = true
is_finished _ = false

-- `courseReq.status === incomingStatus`
abbrev pub same_status : CourseStatus → CourseStatus → Bool
same_status CourseStatus.pending CourseStatus.pending = true
same_status CourseStatus.processing CourseStatus.processing = true
same_status CourseStatus.completed CourseStatus.completed = true
same_status CourseStatus.completed_with_warnings CourseStatus.completed_with_warnings = true
same_status CourseStatus.empty_bank CourseStatus.empty_bank = true
same_status CourseStatus.failed CourseStatus.failed = true
same_status _ _ = false

-- A column that is `undefined` in the update keeps its value; so `value || undefined` and
-- `value ?? undefined` write a value that is there.
abbrev text_or_kept : Option String → Option String → Option String
text_or_kept new old = if truthy new then new else old

abbrev number_or_kept : Option ℕ → Option ℕ → Option ℕ
number_or_kept none old = old
number_or_kept (some n) old = some n

abbrev column : {A : Type 0} → Option ArtifactMeta → (ArtifactMeta → Option A) → Option A
column none f = none
column (some m) f = f m

pub course_update : Env → StatusDto → Option ArtifactMeta → CourseStatus → Course → Course
course_update env dto meta incoming c = record c {
  status = incoming;
  download_url = text_or_kept dto.download_url c.download_url;
  key_download_url = text_or_kept dto.key_download_url c.key_download_url;
  solution_download_url = text_or_kept dto.solution_download_url c.solution_download_url;
  warnings = if truthy dto.error_message then dto.error_message else none;
  page_count = number_or_kept (column meta (λ m. m.page_count)) c.page_count;
  file_size_bytes = number_or_kept (column meta (λ m. m.file_size_bytes)) c.file_size_bytes;
  completed_at = if is_success incoming then some env.now else c.completed_at;
}

-- The roll-up of the courses of a request.
pub final_status : List Course → RequestStatus
final_status siblings =
    if any (λ c. is_failed c.status) siblings
    then RequestStatus.failed
    else if any (λ c. is_warning c.status) siblings
    then RequestStatus.review_required
    else RequestStatus.completed

pub all_finished : List Course → Bool
all_finished siblings = all (λ c. is_finished c.status) siblings

abbrev pub is_final_success : RequestStatus → Bool
is_final_success RequestStatus.completed = true
is_final_success RequestStatus.review_required = true
is_final_success _ = false

-- `parentAlreadyFinalized`, of the parent as it was read under the lock
abbrev pub already_finalized : Option Request → Bool
already_finalized none = false
already_finalized (some r) = is_final_success r.status

-- No course failed, there are two or more, and no earlier callback finished the request.
pub should_merge : Option Request → List Course → Bool
should_merge parent siblings =
    not (any (λ c. is_failed c.status) siblings)
    && (leb 2 (length siblings) && not (already_finalized parent))

module _ (db : Database) where
  open db use {
    courses as course_table, requests as request_table, materials as material_table,
    usages as ledger,
  }

  abbrev pub course_with : String → World db → Option Course
  course_with id w = find_one course_table (λ c. c.id === id) w.courses

  abbrev pub request_with : String → World db → Option Request
  request_with id w = find_one request_table (λ r. r.id === id) w.requests

  abbrev pub siblings_of : String → World db → List Course
  siblings_of id w = find_all course_table (λ c. c.material_request_id === id) w.courses

  -- Between the savepoint and its release; an exception rolls back to the savepoint.
  replace_usages : Course → List UsageRecord → World db → World db
  replace_usages c usages w =
      elim (ledger.delete
        (λ u. u.material_request_id === c.material_request_id && u.course_id === c.course_id)
        w.usages) [
          | none ↦ w
          | some cleared ↦
              elim (ledger.insert_or_ignore
                (map
                  (λ u. record {
                    material_request_id = c.material_request_id;
                    course_id = c.course_id;
                    usage = u;
                  })
                  usages)
                cleared) [ none ↦ w | some written ↦ record w { usages = written } ]
        ]

  pub write_ledger : CourseStatus → Course → List UsageRecord → World db → World db
  unfolding replace_usages
  write_ledger incoming c usages w =
      if leb 1 (length usages) && is_success incoming then replace_usages c usages w else w

  -- The logical material follows its request.
  pub update_material : Option Request → RequestStatus → World db → World db
  update_material none status w = w
  update_material (some r) status w = elim r.material_id [
    | none ↦ w
    | some m ↦ if m === "" then w else record w {
      materials =
          material_table.update (λ x. x.id === m) (λ x. record x { status = status }) w.materials;
    }
  ]

  -- `materialsQueue.add('merge-pdf', ...)`, where the tenant is known.
  pub add_merge_job : Env → String → World db → Result (World db)
  add_merge_job env id w = elim env.company_id [
    | none ↦ ok w
    | some tenant ↦
        if tenant === ""
        then ok w
        else if env.queue_accepts
        then ok (record w {
          jobs = w.jobs ++ record { material_request_id = id; tenant_id = tenant } ∷ [];
        })
        else err internal
  ]

  pub dispatch_merge : Env → String → World db → Result (World db)
  unfolding add_merge_job
  dispatch_merge env id w = elim (request_with id w) [
    | none ↦ ok w
    | some r ↦ add_merge_job env id w
  ]

  pub write_request_status : String → RequestStatus → World db → World db
  write_request_status id status w = record w {
    requests =
        request_table.update (λ r. r.id === id) (λ r. record r { status = status }) w.requests;
  }

  -- The status of the request, and of its material as read back.
  pub close_request : String → RequestStatus → World db → World db
  unfolding update_material write_request_status
  close_request id status w =
      let w₁ = write_request_status id status w in update_material (request_with id w₁) status w₁

  pub finish_request : Env → String → Option Request → List Course → World db → Result (World db)
  finish_request env id parent siblings w =
      let closed = close_request id (final_status siblings) w in
      if should_merge parent siblings then dispatch_merge env id closed else ok closed

  -- The check of the siblings, under the lock on the parent.
  pub roll_up : Env → String → Option Request → World db → Result (World db)
  roll_up env id parent w =
      let siblings = siblings_of id w in
      if all_finished siblings then finish_request env id parent siblings w else ok w

  -- `materialGeneratedEvent`, emitted once the transaction has committed.
  pub emit_generated : CourseStatus → Course → Option Request → World db → World db
  emit_generated incoming c none w = w
  emit_generated incoming c (some r) w =
      if is_success incoming
      then record w {
        events =
            w.events
            ++ record {
              cycle_id = r.cycle_id;
              course_id = c.course_id;
              week_number = r.week_number;
            }
              ∷ [];
      }
      else w

  pub write_course :
      Env → StatusDto → Option ArtifactMeta → CourseStatus → String → World db → World db
  write_course env dto meta incoming id w = record w {
    courses =
        course_table.update (λ c. c.id === id) (course_update env dto meta incoming) w.courses;
  }

  -- What follows the two guards, for a course that was found.
  pub transition :
      Env
      → StatusDto
      → List UsageRecord
      → Option ArtifactMeta
      → CourseStatus
      → Course
      → World db
      → Result (World db)
  transition env dto usages meta incoming c w = do
    let w₁ = write_ledger incoming c usages (write_course env dto meta incoming c.id w)
    let parent = request_with c.material_request_id w₁
    w₂ ← roll_up env c.material_request_id parent w₁
    ok (emit_generated incoming c parent w₂)

  pub handle_course :
      Env
      → StatusDto
      → List UsageRecord
      → Option ArtifactMeta
      → CourseStatus
      → Course
      → World db
      → Result (World db)
  handle_course env dto usages meta incoming c w =
      if is_success c.status
      then ok w
      else if same_status c.status incoming
      then ok w
      else transition env dto usages meta incoming c w

  abbrev pub run :
      Env
      → StatusDto
      → List UsageRecord
      → Option ArtifactMeta
      → String
      → String
      → World db
      → Result (World db)
  run env dto usages meta job status w = do
    incoming ← map_status status
    throw_if (not (db.is_uuid job)) internal
    elim (course_with job w) [
      | none ↦ ok w
      | some c ↦ handle_course env dto usages meta incoming c w
    ]

  -- A blank or missing `job_id` or `status` is refused first.
  pub execute :
      Env → StatusDto → List UsageRecord → Option ArtifactMeta → World db → Result (World db)
  execute env dto usages meta w = elim dto.job_id [
    | none ↦ err bad_request
    | some job ↦ elim dto.status [
      | none ↦ err bad_request
      | some status ↦
          if job === "" || status === ""
          then err bad_request
          else run env dto usages meta job status w
    ]
  ]
