-- ===== src/Webhook/Execute/Rollup.antt =====
-- The roll-up of a request: what its status is after a callback, and which jobs are added.
use odiseo_new.Common.{
  String, ◌===◌, ◌≡◌, refl, ap, sym, ◌∙◌, ◌&&◌, ◌↔◌, subst, inl, inr, Bool, true, Bool-cases,
  Option, none, some, List, [], ◌∷◌, ◌++◌, arith, if◌then◌else◌, filter,
}
use mathlib.Core.List.{append-nil}
use odiseo_new.Common.Http.{ok, >>=-eq-ok}
use odiseo_new.Database.Rows.{find?-updated_self}
use odiseo_new.Webhook.{
  CourseStatus, RequestStatus, Course, Request, UsageRecord, Database, StatusDto, ArtifactMeta, Env,
  World, MergeJob,
}
use odiseo_new.Webhook.Execute.{
  all_finished, final_status, should_merge, close_request, write_request_status, write_ledger,
  update_material, dispatch_merge, finish_request, roll_up, emit_generated, request_with,
  siblings_of, write_course, transition,
}
use odiseo_new.Webhook.Execute.Statuses.{
  NoneOpen, MakesUp, Merges, all_finished_iff, should_merge_iff, final_status-MakesUp,
}
use odiseo_new.Webhook.Execute.Guard.{courses-transition, courses-write_ledger}

-- The merge job, where a tenant is known.
abbrev pub merge_job : Env → String → List MergeJob
merge_job env id = elim env.company_id [
  | none ↦ []
  | some t ↦ if t === "" then [] else record { material_request_id = id; tenant_id = t } ∷ []
]

module _ (db : Database) where
  pub same_write_ledger :
      (incoming : CourseStatus) (c : Course) (usages : List UsageRecord) (w : World db)
      → let w' = write_ledger db incoming c usages w in
        (w'.requests ≡ w.requests) × (w'.jobs ≡ w.jobs)
  unfolding write_ledger
  same_write_ledger incoming c usages w = ground arith

  pub same_emit_generated :
      (incoming : CourseStatus) (c : Course) (parent : Option Request) (w : World db)
      → let w' = emit_generated db incoming c parent w in
        (w'.requests ≡ w.requests) × (w'.jobs ≡ w.jobs)
  unfolding emit_generated
  same_emit_generated incoming c none w = (refl, refl)
  same_emit_generated incoming c (some r) w = ground arith

  pub same_update_material :
      (r : Option Request) (s : RequestStatus) (w : World db)
      → let w' = update_material db r s w in (w'.requests ≡ w.requests) × (w'.jobs ≡ w.jobs)
  unfolding update_material
  same_update_material r s w = ground arith

  request_with-close :
      (id : String) (s : RequestStatus) (w : World db) (r : Request)
      → request_with db id w ≡ some r
      → request_with db id (close_request db id s w) ≡ some (record r { status = s })
  unfolding close_request write_request_status
  request_with-close id s w r found =
      let w₁ = write_request_status db id s w in
      rw (same_update_material (request_with db id w₁) s w₁).0 (
        rw db.requests.rows-update (
          find?-updated_self (λ (x : Request). x.id) (λ x. record x { status = s }) (λ x. refl) id
            (db.requests.rows w.requests) found))

  pub jobs-close :
      (id : String) (s : RequestStatus) (w : World db) → (close_request db id s w).jobs ≡ w.jobs
  unfolding close_request write_request_status
  jobs-close id s w =
      let w₁ = write_request_status db id s w in
      (same_update_material (request_with db id w₁) s w₁).1

  dispatch_merge_lem :
      (env : Env) (id : String) (w w' : World db) (r : Request)
      → request_with db id w ≡ some r
      → dispatch_merge db env id w ≡ ok w'
      → (w'.requests ≡ w.requests) × (w'.jobs ≡ w.jobs ++ merge_job env id)
  unfolding dispatch_merge
  dispatch_merge_lem env id w w' r found h = ground (arith, append-nil w.jobs)

  -- The request after the check of its courses, and the jobs that the check added.
  pub record RolledUp (env : Env) (id : String) (r : Request) (w w' : World db) : Type 0 where
    pub request :
        request_with db id w'
        ≡ some (
            if all_finished (siblings_of db id w)
            then record r { status = final_status (siblings_of db id w) }
            else r)
    pub jobs :
        w'.jobs
        ≡ w.jobs
          ++ (if all_finished (siblings_of db id w) && should_merge (some r) (siblings_of db id w)
              then merge_job env id
              else [])

  finish_request_lem :
      (env : Env) (id : String) (r : Request) (siblings : List Course) (w w' : World db)
      → request_with db id w ≡ some r
      → finish_request db env id (some r) siblings w ≡ ok w'
      → (request_with db id w' ≡ some (record r { status = final_status siblings }))
        × (w'.jobs ≡ w.jobs ++ (if should_merge (some r) siblings then merge_job env id else []))
  unfolding finish_request
  finish_request_lem env id r siblings w w' found h =
      let s = final_status siblings in
      let closed = close_request db id s w in
      let now = request_with-close id s w r found in
      elim (Bool-cases (should_merge (some r) siblings)) [
        | inl merge ↦
            let (a, b) =
              dispatch_merge_lem env id closed w' (record r { status = s }) now
                (rw (merge, finish_request) at h) in
            rw merge (rw a now, b ∙ ap (λ j. j ++ merge_job env id) (jobs-close id s w))
        | inr skip ↦
            let e : closed ≡ w' = ground arith in
            rw (skip, ← e) (now, jobs-close id s w ∙ sym (append-nil w.jobs))
      ]

  roll_up_lem :
      (env : Env) (id : String) (r : Request) (w w' : World db)
      → request_with db id w ≡ some r
      → roll_up db env id (some r) w ≡ ok w'
      → RolledUp env id r w w'
  unfolding roll_up
  roll_up_lem env id r w w' found h = elim (Bool-cases (all_finished (siblings_of db id w))) [
    | inl finished ↦
        let (a, b) =
          finish_request_lem env id r (siblings_of db id w) w w' found
            (rw (finished, roll_up) at h) in
        record { request = rw finished a; jobs = rw finished b }
    | inr waiting ↦
        let e : w ≡ w' = ground arith in
        record {
          request = rw (waiting, ← e) found;
          jobs = rw (waiting, ← e) (sym (append-nil w.jobs));
        }
  ]

  pub same_write_course :
      (env : Env) (dto : StatusDto) (meta : Option ArtifactMeta) (incoming : CourseStatus)
      (id : String) (w : World db)
      → let w' = write_course db env dto meta incoming id w in
        (w'.requests ≡ w.requests) × (w'.jobs ≡ w.jobs)
  unfolding write_course
  same_write_course env dto meta incoming id w = (refl, refl)

  -- The roll-up seen from before the callback and from after it.
  carried :
      (env : Env) (id : String) (r : Request) (w w₁ w₂ w' : World db)
      → w₁.jobs ≡ w.jobs
      → RolledUp env id r w₁ w₂
      → w'.requests ≡ w₂.requests
      → w'.jobs ≡ w₂.jobs
      → w₁.courses ≡ w'.courses
      → let siblings = siblings_of db id w' in
        (request_with db id w'
          ≡ some (if all_finished siblings then record r { status = final_status siblings } else r))
        × (w'.jobs
            ≡ w.jobs
              ++ (if all_finished siblings && should_merge (some r) siblings
                  then merge_job env id
                  else []))
  carried env id r w w₁ w₂ w' jobs₁ after requests₂ jobs₂ courses =
      let siblings : siblings_of db id w₁ ≡ siblings_of db id w' =
        ap (λ (s : db.Courses). filter (λ x. x.material_request_id === id) (db.courses.rows s))
          courses in
      rw (requests₂, jobs₂, ← siblings, ← jobs₁) (after.request, after.jobs)

  pub transition_computes :
      (env : Env) (dto : StatusDto) (usages : List UsageRecord) (meta : Option ArtifactMeta)
      (incoming : CourseStatus) (c : Course) (r : Request) (w w' : World db)
      → request_with db c.material_request_id w ≡ some r
      → transition db env dto usages meta incoming c w ≡ ok w'
      → let siblings = siblings_of db c.material_request_id w' in
        (request_with db c.material_request_id w'
          ≡ some (if all_finished siblings then record r { status = final_status siblings } else r))
        × (w'.jobs
            ≡ w.jobs
              ++ (if all_finished siblings && should_merge (some r) siblings
                  then merge_job env c.material_request_id
                  else []))
  unfolding transition
  transition_computes env dto usages meta incoming c r w w' found h =
      let id = c.material_request_id in
      let w₀ = write_course db env dto meta incoming c.id w in
      let w₁ = write_ledger db incoming c usages w₀ in
      let (requests₁, jobs₁) = same_write_ledger incoming c usages w₀ in
      let same₀ = same_write_course env dto meta incoming c.id w in
      let found₁ : request_with db id w₁ ≡ some r = rw (requests₁, same₀.0) found in
      let (w₂, rolled, e) = >>=-eq-ok (roll_up db env id (request_with db id w₁) w₁) _ h in
      let after = roll_up_lem env id r w₁ w₂ found₁ (rw found₁ at rolled) in
      let courses : w₁.courses ≡ w'.courses =
        courses-write_ledger db incoming c usages w₀
        ∙ sym (courses-transition db env dto usages meta incoming c w w' h) in
      let emitted : emit_generated db incoming c (request_with db id w₁) w₂ ≡ w' = ground arith in
      let (requests₂, jobs₂) = same_emit_generated incoming c (request_with db id w₁) w₂ in
      carried env id r w w₁ w₂ w' (jobs₁ ∙ same₀.1) after
        (subst (λ x. x.requests ≡ w₂.requests) emitted requests₂)
        (subst (λ x. x.jobs ≡ w₂.jobs) emitted jobs₂) courses

  -- The request and the jobs after a callback, by the courses that it then has.
  pub record Outcome (env : Env) (id : String) (r : Request) (siblings : List Course)
      (w w' : World db) : Type 0 where
    pub waiting : ¬ NoneOpen siblings → request_with db id w' ≡ some r
    pub finished :
        NoneOpen siblings
        → (s : RequestStatus) × (request_with db id w' ≡ some (record r { status = s }))
          × MakesUp siblings s
    pub merges : Bool
    pub jobs : w'.jobs ≡ w.jobs ++ (if merges then merge_job env id else [])
    pub merges_iff : (merges ≡ true) ↔ (NoneOpen siblings × Merges r siblings)

  -- After a callback that passed both guards: while a course of the request is PENDING or PROCESSING,
  -- the request has the status that it had. Else it is FAILED if and only if a course failed, COMPLETED
  -- if and only if all courses are, and REVIEW_REQUIRED otherwise. A merge job is added exactly if no
  -- course is PENDING or PROCESSING and none failed, there are at least two, and the request was not
  -- COMPLETED or REVIEW_REQUIRED before (and a tenant is known).
  pub transition_rolls_up :
      (env : Env) (dto : StatusDto) (usages : List UsageRecord) (meta : Option ArtifactMeta)
      (incoming : CourseStatus) (c : Course) (r : Request) (w w' : World db)
      → request_with db c.material_request_id w ≡ some r
      → transition db env dto usages meta incoming c w ≡ ok w'
      → Outcome env c.material_request_id r (siblings_of db c.material_request_id w') w w'
  transition_rolls_up env dto usages meta incoming c r w w' found h =
      let id = c.material_request_id in
      let siblings = siblings_of db id w' in
      let (request, jobs) = transition_computes env dto usages meta incoming c r w w' found h in
      let all_done = all_finished_iff siblings in
      let merged = should_merge_iff r siblings in
      record {
        waiting = λ some_open. elim (Bool-cases (all_finished siblings)) [
          | inl done ↦ absurd (some_open (all_done.0 done))
          | inr waits ↦ rw waits at request
        ];
        finished = λ none_open.
            let done = all_done.1 none_open in
            (final_status siblings, rw done at request, final_status-MakesUp siblings done);
        merges = all_finished siblings && should_merge (some r) siblings;
        jobs = jobs;
        merges_iff = (
          λ m. (all_done.0 (ground (arith, m)), merged.0 (ground (arith, m))),
          λ (d, m). let x = all_done.1 d in let y = merged.1 m in ground (arith, x, y),
        );
      }
