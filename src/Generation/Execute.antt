-- ===== src/Generation/Execute.antt =====
-- `execute` of backend-nestjs/src/materials/use-cases/generate-material.use-case.ts: `prepare` is its
-- first transaction, which only reads, `store` the second, which writes, and the job is added after
-- that one has committed. Between the read of the material and the insert another generation may
-- commit its own row: `meanwhile` is what others do to the table of materials in that moment.
pub mod Materials
pub mod Store
mod Examples
use odiseo_new.Common.{
  ℕ, suc, ◌+◌, ◌==◌, String, ◌===◌, includes, Bool, true, false, not, ◌&&◌, Option, none, some,
  List, [], ◌∷◌, ◌++◌, map, filter, find?, any, length, if◌then◌else◌,
}
use odiseo_new.Common.Http.{bad_request, internal, Result, ok, err, ◌>>=◌}
use odiseo_new.Database.{find_one, find_all}
use odiseo_new.Webhook.{CourseStatus, RequestStatus, Usage}
use odiseo_new.AcademicTime.{Template, TemplateCourse}
use odiseo_new.Review.{Company, Course, ReviewQuestion, QuestionStatus}
use odiseo_new.Review.Approve.{text_or, company_name, company_logo}
use odiseo_new.Generation.{
  GenerateMaterialDto, CourseDistribution, ReviewSlot, DesignTemplate, Reads, Material, Request,
  GenerationDb, JobCourse, Job, World, Env,
}
use odiseo_new.Generation.Plan.{prepare_courses, get_used_questions_in_cycle, build_review_plan}

-- What the first transaction hands on.
pub record Inputs : Type 0 where
  pub template_name : String
  pub cycle_id : String
  pub company : Option Company
  pub distributions : List CourseDistribution
  pub design_template_id : Option String

abbrev pub courses_of_template : Reads → Template → List String
courses_of_template reads t =
    map (λ c. c.course_id) (filter (λ c. c.template_id === t.id) reads.template_courses)

-- `dto.courses || template.courses`: an empty list counts as given.
abbrev pub asked_courses : Reads → Template → GenerateMaterialDto → List String
asked_courses reads t dto = elim dto.courses [
  | none ↦ courses_of_template reads t
  | some courses ↦ courses
]

-- The design of the body, or else the tenant's default one.
pub design_of : Reads → String → Option String → Option String
design_of reads tenant_id given =
    let by_default : Option String =
      elim (find? (λ d. d.tenant_id === tenant_id && d.is_default) reads.designs) [
        | none ↦ none
        | some d ↦ some d.id
      ] in
    elim given [ none ↦ by_default | some id ↦ if id === "" then by_default else some id ]

abbrev pub initial_status : Bool → RequestStatus
initial_status requires_review =
    if requires_review then RequestStatus.review_required else RequestStatus.processing

-- The natural key of a material: uq_materials_tenant_profile_week.
abbrev pub is_material : String → String → ℕ → Material → Bool
is_material tenant_id profile_id week m =
    m.tenant_id === tenant_id && m.profile_id === profile_id && m.week_number == week

abbrev pub slot_status : Option String → QuestionStatus
slot_status none = QuestionStatus.empty
slot_status (some id) = if id === "" then QuestionStatus.empty else QuestionStatus.found

module _ (db : GenerationDb) (env : Env) where
  abbrev pub used_in : World db → String → String → List String
  used_in w cycle_id course_id =
      get_used_questions_in_cycle (db.usages.rows w.usages) cycle_id course_id

  abbrev no_courses : List CourseDistribution → Result (List CourseDistribution)
  no_courses [] = err bad_request
  no_courses (d ∷ ds) = ok (d ∷ ds)

  -- The first transaction.
  pub prepare : Reads → String → GenerateMaterialDto → World db → Result Inputs
  unfolding design_of
  prepare reads tenant_id dto w = elim (find? (λ t. t.id === dto.profile_id) reads.templates) [
    | none ↦ err bad_request
    | some t ↦ do
      prepared ←
          prepare_courses reads env.pick_level (used_in w t.cycle_id) t dto.week_number 0
            (asked_courses reads t dto)
      distributions ← no_courses prepared
      ok (record {
        template_name = text_or (some t.name) "Material";
        cycle_id = t.cycle_id;
        company = find? (λ c. c.id === tenant_id) reads.companies;
        distributions = distributions;
        design_template_id = design_of reads tenant_id dto.design_template_id;
      })
  ]

  abbrev pub material_with : String → String → ℕ → World db → Option Material
  material_with tenant_id profile_id week w =
      find_one db.materials (is_material tenant_id profile_id week) w.materials

  -- An insert that the unique index turns into nothing where the key is taken.
  pub insert_or_ignore : Material → World db → World db
  insert_or_ignore m w =
      if any (is_material m.tenant_id m.profile_id m.week_number) (db.materials.rows w.materials)
      then w
      else record w { materials = db.materials.insert (m ∷ []) w.materials }

  pub find_or_create :
      (db.Materials → db.Materials) → Material → World db → Result (World db × Material)
  unfolding insert_or_ignore
  find_or_create meanwhile fresh w =
      elim (material_with fresh.tenant_id fresh.profile_id fresh.week_number w) [
        | some m ↦ ok (w, m)
        | none ↦
            let w₁ = insert_or_ignore fresh (record w { materials = meanwhile w.materials }) in
            elim (material_with fresh.tenant_id fresh.profile_id fresh.week_number w₁) [
              | none ↦ err bad_request
              | some m ↦ ok (w₁, m)
            ]
      ]

  abbrev pub requests_of : String → World db → List Request
  requests_of material_id w =
      find_all db.requests (λ r. elim r.material_id [ none ↦ false | some m ↦ m === material_id ])
        w.requests

  -- The questions that earlier requests of the material reserved are free again.
  pub release_usages : String → World db → World db
  release_usages material_id w =
      let ids = map (λ r. r.id) (requests_of material_id w) in
      if length ids == 0
      then w
      else record w { usages = db.usages.delete (λ u. includes ids u.material_request_id) w.usages }

  abbrev save_material : String → (Material → Material) → World db → World db
  save_material id f w = record w {
    materials = db.materials.update (λ m. m.id === id) f w.materials;
  }

  abbrev pub course_row : String → String → CourseDistribution → Course
  course_row id request_id d = record {
    id = id;
    material_request_id = request_id;
    course_id = d.course_id;
    status = CourseStatus.pending;
    download_url = none;
    key_download_url = none;
    solution_download_url = none;
    warnings = none;
  }

  pub course_rows : String → ℕ → List CourseDistribution → List Course
  course_rows request_id n [] = []
  course_rows request_id n (d ∷ ds) =
      course_row (env.uuid n) request_id d ∷ course_rows request_id (suc n) ds

  -- Positions are counted from 1.
  pub question_rows : String → ℕ → ℕ → List ReviewSlot → List ReviewQuestion
  question_rows request_id n idx [] = []
  question_rows request_id n idx (s ∷ ss) =
      record {
        id = env.uuid n;
        material_request_id = request_id;
        question_id = s.question_id;
        topic_id = s.topic_id;
        subtopic_id = s.subtopic_id;
        expected_level = s.expected_level;
        position = idx + 1;
        status = slot_status s.question_id;
      }
      ∷ question_rows request_id (suc n) (suc idx) ss

  -- `dist.course_request_id`
  abbrev pub job_course : List Course → CourseDistribution → JobCourse
  job_course created d = record {
    distribution = d;
    course_request_id = elim (find? (λ c. c.course_id === d.course_id) created) [
      | none ↦ none
      | some c ↦ some c.id
    ];
  }

  abbrev job_of : String → GenerateMaterialDto → Inputs → String → List Course → Job
  job_of tenant_id dto inputs request_id created = record {
    material_request_id = request_id;
    tenant_id = tenant_id;
    cycle_id = inputs.cycle_id;
    week_number = dto.week_number;
    template_name = inputs.template_name;
    design_template_id = inputs.design_template_id;
    requires_review = dto.requires_review;
    commercial_name = company_name inputs.company;
    logo_url = company_logo inputs.company;
    distributions = map (job_course created) inputs.distributions;
  }

  abbrev fresh_material : String → GenerateMaterialDto → Inputs → String → Material
  fresh_material tenant_id dto inputs id = record {
    id = id;
    tenant_id = tenant_id;
    profile_id = dto.profile_id;
    cycle_id = inputs.cycle_id;
    week_number = dto.week_number;
    status = initial_status dto.requires_review;
    latest_request_id = none;
  }

  abbrev request_row : String → String → GenerateMaterialDto → Inputs → String → String → Request
  request_row tenant_id user_id dto inputs id material_id = record {
    id = id;
    tenant_id = tenant_id;
    profile_id = dto.profile_id;
    cycle_id = inputs.cycle_id;
    week_number = dto.week_number;
    requires_review = dto.requires_review;
    material_type = "BALOTARIO";
    design_template_id = inputs.design_template_id;
    created_by = user_id;
    status = initial_status dto.requires_review;
    material_id = some material_id;
  }

  -- The material takes the status, and the request becomes its latest one.
  pub attach_request : String → Request → World db → World db
  attach_request material_id r w =
      let w₁ = save_material material_id (λ m. record m { status = r.status }) w in
      let w₂ = record w₁ { requests = db.requests.insert (r ∷ []) w₁.requests } in
      save_material material_id (λ m. record m { latest_request_id = some r.id }) w₂

  -- The courses of the request and its slots; without a review the courses go on at once.
  pub insert_rows : Bool → List Course → List ReviewQuestion → World db → World db
  insert_rows requires_review courses questions w =
      let w₁ = record w { courses = db.courses.insert courses w.courses } in
      let w₂ = record w₁ { questions = db.questions.insert questions w₁.questions } in
      if requires_review then w₂ else record w₂ {
        courses =
            db.courses.update (λ c. includes (map (λ x. x.id) courses) c.id)
              (λ c. record c { status = CourseStatus.processing }) w₂.courses;
      }

  -- The second transaction: the request that it creates, and the job to dispatch.
  pub store :
      (db.Materials → db.Materials)
      → String
      → String
      → GenerateMaterialDto
      → Inputs
      → List ReviewSlot
      → World db
      → Result (World db × String × List Job)
  unfolding find_or_create release_usages attach_request insert_rows course_rows question_rows
  store meanwhile tenant_id user_id dto inputs plan w = do
    let n = w.created
    (w₁, m) ← find_or_create meanwhile (fresh_material tenant_id dto inputs (env.uuid n)) w
    let w₂ = release_usages m.id w₁
    let r = request_row tenant_id user_id dto inputs (env.uuid (n + 1)) m.id
    let courses = course_rows r.id (n + 2) inputs.distributions
    let questions = question_rows r.id (n + 2 + length courses) 0 plan
    let w₃ = insert_rows dto.requires_review courses questions (attach_request m.id r w₂)
    let jobs = if dto.requires_review then [] else job_of tenant_id dto inputs r.id courses ∷ []
    ok (record w₃ { created = n + 2 + length courses + length questions }, r.id, jobs)

  -- The job is added after the commit.
  pub dispatch : List Job → String → World db → World db × Result String
  dispatch [] id w = (w, ok id)
  dispatch (j ∷ js) id w =
      if env.queue_accepts w.jobs j
      then dispatch js id (record w { jobs = w.jobs ++ j ∷ [] })
      else (w, err internal)

  pub execute :
      Reads
      → (db.Materials → db.Materials)
      → String
      → String
      → GenerateMaterialDto
      → World db
      → World db × Result String
  unfolding prepare store dispatch
  execute reads meanwhile tenant_id user_id dto w = elim (prepare reads tenant_id dto w) [
    | err e ↦ (w, err e)
    | ok inputs ↦
        elim (store meanwhile tenant_id user_id dto inputs
          (build_review_plan env reads.bank inputs.distributions) w) [
            | err e ↦ (w, err e)
            | ok (w', id, jobs) ↦ dispatch jobs id w'
          ]
  ]
