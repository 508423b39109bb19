-- ===== src/Review/Approve.antt =====
-- backend-nestjs/src/materials/use-cases/approve-material-review.use-case.ts: `save_draft` is
-- saveDraft; `approve` is the transaction of execute, and `dispatch` what follows its commit.
pub mod Steps
pub mod Version
pub mod Outcome
pub mod Jobs
pub mod Others
mod Examples
use odiseo_new.Common.{
  ℕ, suc, ◌-◌, leb, ◌==◌, String, ◌===◌, includes, truthy, Bool, true, false, not, ◌&&◌, Option,
  none, some, List, [], ◌∷◌, ◌++◌, map, filter, find?, all, any, length, if◌then◌else◌,
}
use odiseo_new.Common.Http.{
  bad_request, conflict, not_found, internal, Result, ok, err, ◌>>=◌, throw_if, ◌>>◌,
}
use odiseo_new.Database.{find_one, find_all}
use odiseo_new.Webhook.{CourseStatus, RequestStatus, Material}
use odiseo_new.AcademicTime.{Template, Scope}
use odiseo_new.Syllabus.{Syllabus, Distribution}
use odiseo_new.Review.{
  QuestionStatus, ReviewQuestion, Request, Course, Replacement, ApproveReviewDto, Context, Company,
  ReviewDb, Reads, Quota, Job, World, Reply, draft_saved, approved,
}

abbrev pub is_empty : QuestionStatus → Bool
is_empty QuestionStatus.empty = true
is_empty _ = false

-- `x != null`
abbrev pub present : {A : Type 0} → Option A → Bool
present none = false
present (some a) = true

-- The first of the two, if it is there and not the empty text.
abbrev pub text_or : Option String → String → String
text_or none d = d
text_or (some s) d = if s === "" then d else s

-- The version that a conditional UPDATE looks for.
abbrev pub has_version : String → ℕ → Request → Bool
has_version id version r = r.id === id && r.version == version

abbrev pub bumped : Request → Request
bumped r = record r { version = suc r.version }

abbrev pub is_slot : String → String → ReviewQuestion → Bool
is_slot request_id id q = q.id === id && q.material_request_id === request_id

abbrev replaced_by : String → ReviewQuestion → ReviewQuestion
replaced_by question_id q = record q {
  question_id = some question_id;
  status = QuestionStatus.replaced;
}

abbrev removed_slot : ReviewQuestion → ReviewQuestion
removed_slot q = record q { status = QuestionStatus.removed }

-- A course whose three documents exist.
abbrev pub is_generated : Course → Bool
is_generated c =
    present c.download_url && present c.key_download_url && present c.solution_download_url

-- `Math.max(1, week - n + 1)`, and 1 where no number is set.
pub start_week : Option ℕ → ℕ → ℕ
start_week none week = 1
start_week (some n) week =
    let from = suc week - n in if n == 0 then 1 else if leb 1 from then from else 1

-- The weeks that the scope of the template asks for.
unfoldable pub in_scope : Template → ℕ → ℕ → Bool
unfolding start_week
in_scope t week n = elim t.scope [
  | Scope.current_week ↦ n == week
  | Scope.accumulative ↦ leb (start_week t.accumulation_weeks week) n && leb n week
  | Scope.full_accumulative ↦ false
]

pub distributions_for : Reads → Option Template → Option Syllabus → ℕ → List Distribution
unfolding in_scope
distributions_for reads (some t) (some s) week =
    filter (λ d. d.syllabus_id === s.id && in_scope t week d.week_number) reads.distributions
distributions_for reads _ _ week = []

abbrev quota_of : Distribution → Quota
quota_of d = record {
  topic_id = d.topic_id;
  subtopic_id = d.subtopic_id;
  quantity = d.question_count;
}

abbrev name_of : Option Template → String
name_of none = "Material"
name_of (some t) = text_or (some t.name) "Material"

abbrev pub company_name : Option Company → String
company_name none = "Colegio Odiseo Innova"
company_name (some c) = text_or c.commercial_name "Colegio Odiseo Innova"

abbrev pub company_logo : Option Company → String
company_logo none = "https://s3.aws.com/tenant-assets/odiseo-innova.png"
company_logo (some c) = text_or c.logo_url "https://s3.aws.com/tenant-assets/odiseo-innova.png"

-- The active syllabus of a course in the cycle of the request.
abbrev pub syllabus_of : Reads → Request → Course → Option Syllabus
syllabus_of reads r c =
    find? (λ s. s.course_id === c.course_id && s.cycle_id === r.cycle_id && s.is_active)
      reads.syllabuses

abbrev pub template_of : Reads → Request → Option Template
template_of reads r = find? (λ t. t.id === r.profile_id) reads.templates

-- One 'generate' job.
pub job_of : Reads → Context → Request → Course → Job
unfolding distributions_for
job_of reads ctx r c =
    let company = find? (λ x. x.id === ctx.tenant_id) reads.companies in
    let template = template_of reads r in
    record {
      job_id = c.id;
      material_request_id = r.id;
      tenant_id = ctx.tenant_id;
      cycle_id = r.cycle_id;
      week_number = r.week_number;
      template_name = name_of template;
      design_template_id = r.design_template_id;
      commercial_name = company_name company;
      logo_url = company_logo company;
      material_type = text_or (some r.material_type) "BALOTARIO";
      course_id = c.course_id;
      syllabus_distribution =
          map quota_of (distributions_for reads template (syllabus_of reads r c) r.week_number);
      admin_user_id = ctx.user_id;
    }

-- `alreadyGenerated && noChanges`
pub bypasses : ApproveReviewDto → List Course → Bool
bypasses dto courses =
    all is_generated courses && length dto.replacements == 0 && length dto.removals == 0

abbrev pub approved_status : Bool → RequestStatus
approved_status has_empty =
    if has_empty then RequestStatus.completed_with_warnings else RequestStatus.completed

abbrev ids_of : List Course → List String
ids_of cs = map (λ c. c.id) cs

module _ (db : ReviewDb) where
  abbrev pub request_rows : World db → List Request
  request_rows w = db.requests.rows w.requests

  abbrev pub request_with : String → World db → Option Request
  request_with id w = find_one db.requests (λ r. r.id === id) w.requests

  abbrev pub courses_of : String → World db → List Course
  courses_of id w = find_all db.courses (λ c. c.material_request_id === id) w.courses

  abbrev pub questions_of : String → World db → List ReviewQuestion
  questions_of id w = find_all db.questions (λ q. q.material_request_id === id) w.questions

  -- The conditional UPDATE; no row found is the conflict.
  pub bump_version : String → ℕ → World db → Result (World db)
  bump_version id version w =
      if any (has_version id version) (request_rows w)
      then ok
          (record w { requests = db.requests.update (has_version id version) bumped w.requests })
      else err conflict

  abbrev write_question : String → String → (ReviewQuestion → ReviewQuestion) → World db → World db
  write_question request_id id f w = record w {
    questions = db.questions.update (is_slot request_id id) f w.questions;
  }

  pub apply_replacements : String → List Replacement → World db → World db
  apply_replacements id [] w = w
  apply_replacements id (r ∷ rs) w =
      apply_replacements id rs
        (write_question id r.review_question_id (replaced_by r.question_id) w)

  pub apply_removals : String → List String → World db → World db
  apply_removals id [] w = w
  apply_removals id (x ∷ xs) w = apply_removals id xs (write_question id x removed_slot w)

  -- Both loops of a curation.
  pub curate : String → ApproveReviewDto → World db → World db
  unfolding apply_replacements apply_removals
  curate id dto w = apply_removals id dto.removals (apply_replacements id dto.replacements w)

  -- The guards that a draft and an approval share, and the curation.
  pub guarded : String → ApproveReviewDto → World db → Result (World db)
  unfolding bump_version curate
  guarded id dto w = elim (request_with id w) [
    | none ↦ err not_found
    | some r ↦ do w₁ ← bump_version id dto.version w; ok (curate id dto w₁)
  ]

  pub save_draft : String → ApproveReviewDto → World db → Result (World db × List Job × Reply)
  unfolding guarded
  save_draft id dto w = do w₁ ← guarded id dto w; ok (w₁, [], draft_saved)

  pub has_empty : String → World db → Bool
  has_empty id w = any (λ q. is_empty q.status) (questions_of id w)

  -- `manager.save(request)` with a new status.
  pub save_status : String → RequestStatus → World db → World db
  save_status id status w = record w {
    requests =
        db.requests.update (λ r. r.id === id)
          (λ r. record r { status = status; version = db.saved_version r status }) w.requests;
  }

  pub update_material : Option String → RequestStatus → World db → World db
  update_material none status w = w
  update_material (some m) status w = if m === "" then w else record w {
    materials =
        db.materials.update (λ x. x.id === m) (λ x. record x { status = status }) w.materials;
  }

  -- An UPDATE of the courses with these ids.
  pub write_courses : List String → CourseStatus → World db → World db
  write_courses ids status w = record w {
    courses =
        db.courses.update (λ c. includes ids c.id) (λ c. record c { status = status }) w.courses;
  }

  -- Nothing was changed and all documents exist: the request is closed as it is. A course keeps its
  -- warnings, which decide its status.
  pub close_review : Request → Bool → World db → World db × List Job × Reply
  unfolding save_status update_material write_courses
  close_review r empty w =
      let status = approved_status empty in
      let courses = courses_of r.id w in
      let w₁ = update_material r.material_id status (save_status r.id status w) in
      let warned = ids_of (filter (λ c. truthy c.warnings) courses) in
      let clean = ids_of (filter (λ c. not (truthy c.warnings)) courses) in
      (
        write_courses clean CourseStatus.completed
            (write_courses warned CourseStatus.completed_with_warnings w₁),
        [],
        approved status,
      )

  -- The documents are generated again, one job for each course.
  pub regenerate : Reads → Context → Request → World db → World db × List Job × Reply
  unfolding save_status update_material write_courses job_of
  regenerate reads ctx r w =
      let courses = courses_of r.id w in
      let status = RequestStatus.processing in
      let w₁ = update_material r.material_id status (save_status r.id status w) in
      (
        write_courses (ids_of courses) CourseStatus.processing w₁,
        map (job_of reads ctx r) courses,
        approved status,
      )

  pub finish_review :
      Reads → Context → ApproveReviewDto → Request → World db → World db × List Job × Reply
  unfolding close_review regenerate bypasses
  finish_review reads ctx dto r w =
      if bypasses dto (courses_of r.id w)
      then close_review r (has_empty r.id w) w
      else regenerate reads ctx r w

  -- The transaction of `execute`; the entity `request` was read before the version was counted up.
  pub approve :
      Reads → Context → String → ApproveReviewDto → World db → Result (World db × List Job × Reply)
  unfolding guarded has_empty finish_review
  approve reads ctx id dto w = elim (request_with id w) [
    | none ↦ err not_found
    | some r ↦ do
      w₁ ← guarded id dto w
      throw_if (has_empty id w₁ && not dto.continue_with_warnings) bad_request
      ok (finish_review reads ctx dto r w₁)
  ]

  -- After the commit: the jobs are added one by one, until the queue throws.
  pub dispatch : (List Job → Job → Bool) → Reply → List Job → World db → World db × Result Reply
  dispatch accepts reply [] w = (w, ok reply)
  dispatch accepts reply (j ∷ js) w =
      if accepts w.jobs j
      then dispatch accepts reply js (record w { jobs = w.jobs ++ j ∷ [] })
      else (w, err internal)

-- The two entry points, with all that they are given.
pub data Operation : Type 0 where
  draft : String → ApproveReviewDto → Operation
  approval : Reads → Context → (List Job → Job → Bool) → String → ApproveReviewDto → Operation

abbrev pub target : Operation → String
target (draft id dto) = id
target (approval reads ctx accepts id dto) = id

abbrev pub version_of : Operation → ℕ
version_of (draft id dto) = dto.version
version_of (approval reads ctx accepts id dto) = dto.version

module _ (db : ReviewDb) where
  -- The transaction of an operation.
  pub commit : Operation → World db → Result (World db × List Job × Reply)
  unfolding save_draft approve
  commit (draft id dto) w = save_draft db id dto w
  commit (approval reads ctx accepts id dto) w = approve db reads ctx id dto w

  abbrev queue_of : Operation → List Job → Job → Bool
  queue_of (draft id dto) jobs j = true
  queue_of (approval reads ctx accepts id dto) jobs j = accepts jobs j

  -- An exception rolls the transaction back.
  pub perform : Operation → World db → World db × Result Reply
  unfolding commit dispatch
  perform op w = elim (commit op w) [
    | err e ↦ (w, err e)
    | ok (w', jobs, reply) ↦ dispatch db (queue_of op) reply jobs w'
  ]

  pub perform_all : List Operation → World db → World db
  perform_all [] w = w
  perform_all (op ∷ ops) w = perform_all ops (perform op w).0
