-- ===== src/Review/Approve/Jobs.antt =====
-- The jobs and the statuses that an approval leaves, and the weeks that a job asks for.
use odiseo_new.Common.{
  ℕ, ◌+◌, ◌≤◌, ◌<◌, String, ◌===◌, eq_iff, eq_refl, includes, truthy, ◌≡◌, ◌↔◌, refl, ◌∙◌, sym, ap,
  subst, Bool, true, false, not, ◌||◌, ◌==◌, length, Bool-cases, Option, none, some, inl, inr, List,
  [], ◌∷◌, map, filter, any, all, All, if◌then◌else◌, arith,
}
use odiseo_new.Common.Http.{ok}
use odiseo_new.Database.{updated}
use odiseo_new.Database.Rows.{find?-test}
use odiseo_new.Review.Approve.Outcome.{open_slot, named_by, has_empty-guarded}
use odiseo_new.Webhook.{CourseStatus, RequestStatus}
use odiseo_new.Webhook.Execute.{is_success}
use odiseo_new.AcademicTime.{Template, Scope}
use odiseo_new.Review.{
  Request, Course, Replacement, ApproveReviewDto, Context, ReviewDb, Reads, Job, World, Reply,
  approved,
}
use odiseo_new.Review.Approve.Steps.{guarded-inv, approve-inv}
use odiseo_new.Review.Approve.{
  request_rows, request_with, courses_of, questions_of, bump_version, curate, apply_replacements,
  apply_removals, guarded, has_empty, present, is_generated, bypasses, close_review, regenerate,
  finish_review, approve, approved_status, job_of, update_material, write_courses, ids_of,
  start_week, in_scope,
}

-- An accumulative template of k weeks, k at least 1, asks for exactly the k weeks that end with the
-- week of the request, or for all weeks up to it where there are fewer.
pub in_scope_iff :
    (t : Template) (week n k : ℕ)
    → t.scope ≡ Scope.accumulative
    → t.accumulation_weeks ≡ some k
    → 1 ≤ k
    → 1 ≤ n
    → (in_scope t week n ≡ true) ↔ ((n ≤ week) × (week < n + k))
unfolding in_scope start_week
in_scope_iff t week n k scope weeks some_weeks some_week = rw (scope, weeks) (ground arith)

-- Whether the status is that of a course that is being generated again.
abbrev pub is_processing : CourseStatus → Bool
is_processing CourseStatus.processing = true
is_processing _ = false

-- The courses whose ids one of two lists has.
abbrev covered : List String → List String → Course → Bool
covered xs ys c = includes xs c.id || includes ys c.id

covered-first :
    (x : String) (xs ys : List String) (cs : List Course)
    → all (covered xs ys) cs ≡ true
    → all (covered (x ∷ xs) ys) cs ≡ true
covered-first x xs ys [] h = refl
covered-first x xs ys (c ∷ cs) h = ground (arith, covered-first x xs ys cs)

covered-second :
    (y : String) (xs ys : List String) (cs : List Course)
    → all (covered xs ys) cs ≡ true
    → all (covered xs (y ∷ ys)) cs ≡ true
covered-second y xs ys [] h = refl
covered-second y xs ys (c ∷ cs) h = ground (arith, covered-second y xs ys cs)

-- Every course passes a test or fails it.
covered-split :
    (p : Course → Bool) (cs : List Course)
    → all (covered (ids_of (filter p cs)) (ids_of (filter (λ c. not (p c)) cs))) cs ≡ true
covered-split p [] = refl
covered-split p (c ∷ cs) =
    let xs = ids_of (filter p cs) in
    let ys = ids_of (filter (λ c. not (p c)) cs) in
    let rest = covered-split p cs in
    ground
      (arith, eq_refl c.id, covered-first c.id xs ys cs rest, covered-second c.id xs ys cs rest)

abbrev with_status : List String → CourseStatus → Course → Course
with_status ids status = updated (λ c. includes ids c.id) (λ c. record c { status = status })

all_success :
    (id : String) (xs ys : List String) (cs : List Course)
    → all (covered xs ys) (filter (λ c. c.material_request_id === id) cs) ≡ true
    → all
        (λ c. is_success c.status)
        (filter
          (λ c. c.material_request_id === id)
          (map
            (with_status ys CourseStatus.completed)
            (map (with_status xs CourseStatus.completed_with_warnings) cs)))
      ≡ true
all_success id xs ys [] h = refl
all_success id xs ys (c ∷ cs) h = ground (arith, all_success id xs ys cs)

all_processing :
    (id : String) (ids : List String) (cs : List Course)
    → all (λ c. includes ids c.id) (filter (λ c. c.material_request_id === id) cs) ≡ true
    → all
        (λ c. is_processing c.status)
        (filter
          (λ c. c.material_request_id === id)
          (map (with_status ids CourseStatus.processing) cs))
      ≡ true
all_processing id ids [] h = refl
all_processing id ids (c ∷ cs) h = ground (arith, all_processing id ids cs)

includes-more :
    (x : String) (xs : List String) (cs : List Course)
    → all (λ c. includes xs c.id) cs ≡ true
    → all (λ c. includes (x ∷ xs) c.id) cs ≡ true
includes-more x xs [] h = refl
includes-more x xs (c ∷ cs) h = ground (arith, includes-more x xs cs)

includes-own : (cs : List Course) → all (λ c. includes (ids_of cs) c.id) cs ≡ true
includes-own [] = refl
includes-own (c ∷ cs) =
    ground (arith, eq_refl c.id, includes-more c.id (ids_of cs) cs (includes-own cs))

-- The column holds an url: it is not null.
abbrev pub HasUrl : Option String → Type 0
HasUrl column = (url : String) × (column ≡ some url)

-- The material, the key and the solutions of the course have been generated.
abbrev pub HasDocuments : Course → Type 0
HasDocuments c = HasUrl c.download_url × HasUrl c.key_download_url × HasUrl c.solution_download_url

present_iff : (column : Option String) → (present column ≡ true) ↔ HasUrl column
present_iff none = (λ h. absurd (ground (arith, h)), λ (url, e). absurd (ground (arith, e)))
present_iff (some url) = (λ h. (url, refl), λ h. refl)

all-is_generated_iff : (cs : List Course) → (all is_generated cs ≡ true) ↔ All HasDocuments cs
all-is_generated_iff [] = (λ h. tt, λ h. refl)
all-is_generated_iff (c ∷ cs) =
    let a = present_iff c.download_url in
    let b = present_iff c.key_download_url in
    let d = present_iff c.solution_download_url in
    let rest = all-is_generated_iff cs in
    (
      λ h. (
        (a.0 (ground (arith, h)), b.0 (ground (arith, h)), d.0 (ground (arith, h))),
        rest.0 (ground (arith, h)),
      ),
      λ ((x, y, z), hs).
          let x' = a.1 x in
          let y' = b.1 y in
          let z' = d.1 z in let hs' = rest.1 hs in ground (arith, x', y', z', hs'),
    )

length_zero_iff {ℓ} : {A : Type ℓ} (xs : List A) → ((length xs == 0) ≡ true) ↔ (xs ≡ [])
length_zero_iff [] = (λ h. refl, λ h. refl)
length_zero_iff (x ∷ xs) = (λ h. absurd (ground (arith, h)), λ h. cc h)

bypasses_iff :
    (dto : ApproveReviewDto) (courses : List Course)
    → (bypasses dto courses ≡ true)
      ↔ (All HasDocuments courses × (dto.replacements ≡ []) × (dto.removals ≡ []))
unfolding bypasses
bypasses_iff dto courses =
    let a = all-is_generated_iff courses in
    let b = length_zero_iff dto.replacements in
    let c = length_zero_iff dto.removals in
    (
      λ h. (a.0 (ground (arith, h)), b.0 (ground (arith, h)), c.0 (ground (arith, h))),
      λ (x, y, z). let x' = a.1 x in let y' = b.1 y in let z' = c.1 z in ground (arith, x', y', z'),
    )

-- The ids that a job carries.
pub record Names : Type 0 where
  pub course_request : String
  pub course : String
  pub request : String
  pub tenant : String
  pub admin : String

abbrev names_of : Job → Names
names_of j = record {
  course_request = j.job_id;
  course = j.course_id;
  request = j.material_request_id;
  tenant = j.tenant_id;
  admin = j.admin_user_id;
}

abbrev names_for : Context → Request → Course → Names
names_for ctx r c = record {
  course_request = c.id;
  course = c.course_id;
  request = r.id;
  tenant = ctx.tenant_id;
  admin = ctx.user_id;
}

module _ (db : ReviewDb) where
  same_update_material :
      (m : Option String) (status : RequestStatus) (w : World db)
      → (update_material db m status w).courses ≡ w.courses
  unfolding update_material
  same_update_material m status w = ground arith

  close_review-courses :
      (r : Request) (empty : Bool) (w : World db)
      → all (λ c. is_success c.status) (courses_of db r.id (close_review db r empty w).0) ≡ true
  unfolding close_review write_courses
  close_review-courses r empty w =
      rw (db.courses.rows-update, db.courses.rows-update, same_update_material)
        (all_success r.id _ _ (db.courses.rows w.courses)
          (covered-split (λ c. truthy c.warnings) (courses_of db r.id w)))

  regenerate-courses :
      (reads : Reads) (ctx : Context) (r : Request) (w : World db)
      → all (λ c. is_processing c.status) (courses_of db r.id (regenerate db reads ctx r w).0)
        ≡ true
  unfolding regenerate write_courses
  regenerate-courses reads ctx r w =
      rw (db.courses.rows-update, same_update_material)
        (all_processing r.id _ (db.courses.rows w.courses) (includes-own (courses_of db r.id w)))

  -- What a committed approval of a request leaves, from the courses that the request had: the course
  -- that each job is for with the request, the tenant and the user that it names, the reply, and the
  -- statuses of the courses.
  pub record Effect (ctx : Context) (r : Request) (bypass empty : Bool) (courses : List Course)
      (w' : World db) (sent : List Job) (told : Reply) : Type 0 where
    pub jobs : map names_of sent ≡ (if bypass then [] else map (names_for ctx r) courses)
    pub reply : told ≡ approved (if bypass then approved_status empty else RequestStatus.processing)
    pub statuses :
        all
          (λ c. if bypass then is_success c.status else is_processing c.status)
          (courses_of db r.id w')
        ≡ true

  jobs_named :
      (reads : Reads) (ctx : Context) (r : Request) (cs : List Course)
      → map names_of (map (job_of reads ctx r) cs) ≡ map (names_for ctx r) cs
  unfolding job_of
  jobs_named reads ctx r [] = refl
  jobs_named reads ctx r (c ∷ cs) =
      ap (λ rest. names_for ctx r c ∷ rest) (jobs_named reads ctx r cs)

  close_review-Effect :
      (ctx : Context) (r : Request) (empty : Bool) (w : World db)
      → let (w', jobs, reply) = close_review db r empty w in
        Effect ctx r true empty (courses_of db r.id w) w' jobs reply
  unfolding close_review
  close_review-Effect ctx r empty w = record {
    jobs = refl;
    reply = refl;
    statuses = close_review-courses r empty w;
  }

  regenerate-Effect :
      (reads : Reads) (ctx : Context) (r : Request) (empty : Bool) (w : World db)
      → let (w', jobs, reply) = regenerate db reads ctx r w in
        Effect ctx r false empty (courses_of db r.id w) w' jobs reply
  unfolding regenerate
  regenerate-Effect reads ctx r empty w = record {
    jobs = jobs_named reads ctx r (courses_of db r.id w);
    reply = refl;
    statuses = regenerate-courses reads ctx r w;
  }

  finish_review-Effect :
      (reads : Reads) (ctx : Context) (dto : ApproveReviewDto) (r : Request) (w : World db)
      → let (w', jobs, reply) = finish_review db reads ctx dto r w in
        Effect ctx r
          (bypasses dto (courses_of db r.id w))
          (has_empty db r.id w)
          (courses_of db r.id w)
          w'
          jobs
          reply
  unfolding finish_review
  finish_review-Effect reads ctx dto r w = elim (Bool-cases (bypasses dto (courses_of db r.id w))) [
    | inl e ↦ rw (e, finish_review) (close_review-Effect ctx r (has_empty db r.id w) w)
    | inr e ↦ rw (e, finish_review) (regenerate-Effect reads ctx r (has_empty db r.id w) w)
  ]

  courses-apply_replacements :
      (id : String) (xs : List Replacement) (w : World db)
      → (apply_replacements db id xs w).courses ≡ w.courses
  unfolding apply_replacements
  courses-apply_replacements id [] w = refl
  courses-apply_replacements id (x ∷ xs) w = courses-apply_replacements id xs _

  courses-apply_removals :
      (id : String) (xs : List String) (w : World db)
      → (apply_removals db id xs w).courses ≡ w.courses
  unfolding apply_removals
  courses-apply_removals id [] w = refl
  courses-apply_removals id (x ∷ xs) w = courses-apply_removals id xs _

  pub courses-guarded :
      (id : String) (dto : ApproveReviewDto) (w w' : World db)
      → guarded db id dto w ≡ ok w'
      → w'.courses ≡ w.courses
  unfolding bump_version curate
  courses-guarded id dto w w' h =
      let g = guarded-inv db id dto w w' h in
      let bump = g.bump in
      let before : g.bumped.courses ≡ w.courses = ground arith in
      ap (λ x. x.courses) (sym g.curated)
      ∙ courses-apply_removals id dto.removals (apply_replacements db id dto.replacements g.bumped)
      ∙ courses-apply_replacements id dto.replacements g.bumped
      ∙ before

  -- An approval that commits takes one of two ways. Where all three documents of each course of the
  -- request exist, and the approval replaces and removes nothing, no job is dispatched, all courses
  -- are successful, and the reply is COMPLETED, or COMPLETED_WITH_WARNINGS if the request has an empty
  -- slot. In all other cases each course is PROCESSING and gets exactly one job, which names the
  -- course, the request, and the tenant and the user of the caller.
  pub approve-Effect :
      (reads : Reads) (ctx : Context) (id : String) (dto : ApproveReviewDto) (r : Request)
      (w w' : World db) (jobs : List Job) (reply : Reply)
      → request_with db id w ≡ some r
      → approve db reads ctx id dto w ≡ ok (w', jobs, reply)
      → (unchanged : Bool) × ((unchanged ≡ true)
          ↔ (All HasDocuments (courses_of db id w) × (dto.replacements ≡ []) × (dto.removals ≡ [])))
        × Effect ctx r unchanged
            (any (open_slot (named_by dto)) (questions_of db id w))
            (courses_of db id w)
            w'
            jobs
            reply
  approve-Effect reads ctx id dto r w w' jobs reply found h =
      let a = approve-inv db reads ctx id dto w h in
      let same : a.request ≡ r = let e = a.found in ground arith in
      let own : r.id ≡ id =
        (eq_iff r.id id).0 (find?-test (λ (x : Request). x.id === id) (request_rows db w) found) in
      let empty : has_empty db r.id a.curated
          ≡ any (open_slot (named_by dto)) (questions_of db id w) =
        ap (λ i. has_empty db i a.curated) own ∙ has_empty-guarded db id dto w a.curated a.passed in
      let courses : courses_of db r.id a.curated ≡ courses_of db id w =
        ap (λ i. courses_of db i a.curated) own
        ∙ ap (λ (s : db.Courses). filter (λ c. c.material_request_id === id) (db.courses.rows s))
            (courses-guarded id dto w a.curated a.passed) in
      let finished : finish_review db reads ctx dto r a.curated ≡ (w', jobs, reply) =
        subst (λ (x : Request). finish_review db reads ctx dto x a.curated ≡ (w', jobs, reply)) same
          a.finished in
      let effect : Effect ctx r (bypasses dto (courses_of db r.id a.curated))
          (has_empty db r.id a.curated) (courses_of db r.id a.curated)
          (finish_review db reads ctx dto r a.curated).0
          (finish_review db reads ctx dto r a.curated).1
          (finish_review db reads ctx dto r a.curated).2 =
        finish_review-Effect reads ctx dto r a.curated in
      (
        bypasses dto (courses_of db id w),
        bypasses_iff dto (courses_of db id w),
        rw (finished, courses, empty) at effect,
      )
