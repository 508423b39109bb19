-- ===== src/Webhook/Execute/Guard.antt =====
-- The guards of the callback: success is final, and a callback that comes again changes nothing.
use odiseo_new.Common.{
  String, ◌===◌, ◌≡◌, refl, ◌||◌, ◌⊎◌, inl, inr, true, false, Bool-cases, Option, none, some,
  Option-cases, List, arith,
}
use odiseo_new.Common.Http.{ok, >>=-eq-ok}
use odiseo_new.Webhook.{
  CourseStatus, RequestStatus, Course, Request, UsageRecord, Database, StatusDto, ArtifactMeta, Env,
  World,
}
use odiseo_new.Webhook.Execute.{
  map_status, is_success, same_status, all_finished, final_status, should_merge, close_request,
  course_with, request_with, siblings_of, write_ledger, update_material, dispatch_merge,
  finish_request, roll_up, emit_generated, write_course, transition, handle_course, run, execute,
}

pub same_status_refl : (s : CourseStatus) → same_status s s ≡ true
same_status_refl CourseStatus.pending = refl
same_status_refl CourseStatus.processing = refl
same_status_refl CourseStatus.completed = refl
same_status_refl CourseStatus.completed_with_warnings = refl
same_status_refl CourseStatus.empty_bank = refl
same_status_refl CourseStatus.failed = refl

module _ (db : Database) where
  -- The steps after the update of the course leave the courses alone.
  pub courses-write_ledger :
      (incoming : CourseStatus) (c : Course) (usages : List UsageRecord) (w : World db)
      → (write_ledger db incoming c usages w).courses ≡ w.courses
  unfolding write_ledger
  courses-write_ledger incoming c usages w = ground arith

  courses-emit_generated :
      (incoming : CourseStatus) (c : Course) (parent : Option Request) (w : World db)
      → (emit_generated db incoming c parent w).courses ≡ w.courses
  unfolding emit_generated
  courses-emit_generated incoming c none w = refl
  courses-emit_generated incoming c (some r) w = ground arith

  courses-update_material :
      (r : Option Request) (s : RequestStatus) (w : World db)
      → (update_material db r s w).courses ≡ w.courses
  unfolding update_material
  courses-update_material r s w = ground arith

  courses-dispatch_merge :
      (env : Env) (id : String) (w w' : World db)
      → dispatch_merge db env id w ≡ ok w'
      → w'.courses ≡ w.courses
  unfolding dispatch_merge
  courses-dispatch_merge env id w w' h = ground arith

  courses-close_request :
      (id : String) (s : RequestStatus) (w : World db)
      → (close_request db id s w).courses ≡ w.courses
  unfolding close_request
  courses-close_request id s w = ground arith

  courses-finish_request :
      (env : Env) (id : String) (parent : Option Request) (siblings : List Course) (w w' : World db)
      → finish_request db env id parent siblings w ≡ ok w'
      → w'.courses ≡ w.courses
  unfolding finish_request
  courses-finish_request env id parent siblings w w' h =
      let closed = close_request db id (final_status siblings) w in
      let same = courses-close_request id (final_status siblings) w in
      elim (Bool-cases (should_merge parent siblings)) [
        | inl merge ↦
            cc (courses-dispatch_merge env id closed w' (rw (merge, finish_request) at h), same)
        | inr skip ↦ let e : ok closed ≡ ok w' = rw (skip, finish_request) at h in cc (e, same)
      ]

  courses-roll_up :
      (env : Env) (id : String) (parent : Option Request) (w w' : World db)
      → roll_up db env id parent w ≡ ok w'
      → w'.courses ≡ w.courses
  unfolding roll_up
  courses-roll_up env id parent w w' h = elim (Bool-cases (all_finished (siblings_of db id w))) [
    | inl finished ↦
        courses-finish_request env id parent (siblings_of db id w) w w'
          (rw (finished, roll_up) at h)
    | inr waiting ↦ let e : ok w ≡ ok w' = rw (waiting, roll_up) at h in cc e
  ]

  pub courses-transition :
      (env : Env) (dto : StatusDto) (usages : List UsageRecord) (meta : Option ArtifactMeta)
      (incoming : CourseStatus) (c : Course) (w w' : World db)
      → transition db env dto usages meta incoming c w ≡ ok w'
      → w'.courses ≡ (write_course db env dto meta incoming c.id w).courses
  unfolding transition
  courses-transition env dto usages meta incoming c w w' h =
      let w₀ = write_course db env dto meta incoming c.id w in
      let w₁ = write_ledger db incoming c usages w₀ in
      let parent = request_with db c.material_request_id w₁ in
      let (w₂, rolled, e) = >>=-eq-ok (roll_up db env c.material_request_id parent w₁) _ h in
      let emitted : emit_generated db incoming c parent w₂ ≡ w' = ground arith in
      cc (
        emitted,
        courses-emit_generated incoming c parent w₂,
        courses-roll_up env c.material_request_id parent w₁ w₂ rolled,
        courses-write_ledger incoming c usages w₀,
      )

  -- What a callback that passed both guards did.
  pub record Transitioned (env : Env) (dto : StatusDto) (usages : List UsageRecord)
      (meta : Option ArtifactMeta) (w w' : World db) : Type 0 where
    pub job : String
    pub status : String
    pub incoming : CourseStatus
    pub course : Course
    pub job_given : dto.job_id ≡ some job
    pub status_given : dto.status ≡ some status
    pub filled : (job === "" || status === "") ≡ false
    pub mapped : map_status status ≡ ok incoming
    pub typed : db.is_uuid job ≡ true
    pub found : course_with db job w ≡ some course
    pub open_course : is_success course.status ≡ false
    pub changes : same_status course.status incoming ≡ false
    pub moved : transition db env dto usages meta incoming course w ≡ ok w'

  -- The callback is a no-op, whatever the clock, the queue, the questions and the file metadata.
  abbrev pub IsIgnored : StatusDto → World db → Type 0
  IsIgnored dto w =
      (env : Env) (usages : List UsageRecord) (meta : Option ArtifactMeta)
      → execute db env dto usages meta w ≡ ok w

  -- A callback that is accepted is ignored, or passed both guards.
  pub execute_cases :
      (env : Env) (dto : StatusDto) (usages : List UsageRecord) (meta : Option ArtifactMeta)
      (w w' : World db)
      → execute db env dto usages meta w ≡ ok w'
      → ((w' ≡ w) × IsIgnored dto w) ⊎ Transitioned env dto usages meta w w'
  unfolding execute handle_course
  execute_cases env dto usages meta w w' h = elim (Option-cases dto.job_id) [
    | inl missing ↦ absurd (ground arith)
    | inr (job, job_given) ↦ elim (Option-cases dto.status) [
      | inl missing ↦ absurd (ground arith)
      | inr (status, status_given) ↦ elim (Bool-cases (job === "" || status === "")) [
        | inl blank ↦ absurd (ground arith)
        | inr filled ↦
            let ran : run db env dto usages meta job status w ≡ ok w' = ground arith in
            let (incoming, mapped, e) = >>=-eq-ok (map_status status) _ ran in
            elim (Bool-cases (db.is_uuid job)) [
              | inr untyped ↦ absurd (ground arith)
              | inl typed ↦ elim (Option-cases (course_with db job w)) [
                | inl gone ↦ inl (ground arith, λ e u m. ground arith)
                | inr (course, found) ↦ elim (Bool-cases (is_success course.status)) [
                  | inl done ↦ inl (ground arith, λ e u m. ground arith)
                  | inr open_course ↦ elim (Bool-cases (same_status course.status incoming)) [
                    | inl again ↦ inl (ground arith, λ e u m. ground arith)
                    | inr changes ↦ inr (record {
                      job = job;
                      status = status;
                      incoming = incoming;
                      course = course;
                      job_given = job_given;
                      status_given = status_given;
                      filled = filled;
                      mapped = mapped;
                      typed = typed;
                      found = found;
                      open_course = open_course;
                      changes = changes;
                      moved = ground arith;
                    })
                  ]
                ]
              ]
            ]
      ]
    ]
  ]
