-- ===== src/Webhook/Execute/Total.antt =====
-- When the callback is accepted, and what it writes about its course.
use odiseo_new.Common.{
  if◌then◌else◌, String, ◌===◌, ◌≡◌, refl, inl, inr, ◌||◌, Bool, true, false, Option, some,
  Option-cases, List,
}
use odiseo_new.Common.Http.{Result, ok}
use odiseo_new.Webhook.{
  CourseStatus, Course, Request, UsageRecord, Database, StatusDto, ArtifactMeta, Env, World,
}
use odiseo_new.Webhook.Execute.{
  map_status, is_success, same_status, all_finished, should_merge, write_ledger, add_merge_job,
  dispatch_merge, finish_request, roll_up, emit_generated, course_with, request_with, siblings_of,
  write_course, transition, handle_course, execute,
}

-- A computation that returns.
abbrev pub Returns {ℓ} : {A : Type ℓ} → Result A → Type ℓ
Returns {A} r = (a : A) × (r ≡ ok a)

Returns-if {ℓ} :
    {A : Type ℓ} (b : Bool) (x y : Result A) → Returns x → Returns y → Returns (if b then x else y)
Returns-if true x y h k = h
Returns-if false x y h k = k

module _ (db : Database) (env : Env) (accepts : env.queue_accepts ≡ true) where
  add_merge_job_total : (id : String) (w : World db) → Returns (add_merge_job db env id w)
  unfolding add_merge_job
  add_merge_job_total id w = elim (Option-cases env.company_id) [
    | inl unknown ↦ (w, rw (unknown, add_merge_job))
    | inr (tenant, known) ↦
        rw (known, add_merge_job) (Returns-if (tenant === "") _ _ (w, refl) (rw accepts (_, refl)))
  ]

  dispatch_merge_total : (id : String) (w : World db) → Returns (dispatch_merge db env id w)
  unfolding dispatch_merge
  dispatch_merge_total id w = elim (Option-cases (request_with db id w)) [
    | inl gone ↦ (w, rw (gone, dispatch_merge))
    | inr (r, found) ↦ rw (found, dispatch_merge) (add_merge_job_total id w)
  ]

  roll_up_total :
      (id : String) (parent : Option Request) (w : World db) → Returns (roll_up db env id parent w)
  unfolding roll_up finish_request
  roll_up_total id parent w =
      Returns-if (all_finished (siblings_of db id w)) _ _
        (Returns-if (should_merge parent (siblings_of db id w)) _ _ (dispatch_merge_total id _)
          (_, refl))
        (w, refl)

  transition_total :
      (dto : StatusDto) (usages : List UsageRecord) (meta : Option ArtifactMeta)
      (incoming : CourseStatus) (c : Course) (w : World db)
      → Returns (transition db env dto usages meta incoming c w)
  unfolding transition
  transition_total dto usages meta incoming c w =
      let id = c.material_request_id in
      let w₁ = write_ledger db incoming c usages (write_course db env dto meta incoming c.id w) in
      let parent = request_with db id w₁ in
      let (w₂, e) = roll_up_total id parent w₁ in (emit_generated db incoming c parent w₂, rw e)

  -- While the queue takes jobs, and no statement of the database fails but those of the question
  -- ledger, every callback with a uuid as its job and a known status is accepted: an unknown course, a
  -- late or repeated status, a missing parent, an unknown tenant and a failure of the question ledger
  -- never reject it.
  pub execute_total :
      (dto : StatusDto) (usages : List UsageRecord) (meta : Option ArtifactMeta) (w : World db)
      (job status : String) (incoming : CourseStatus)
      → dto.job_id ≡ some job
      → dto.status ≡ some status
      → (job === "" || status === "") ≡ false
      → map_status status ≡ ok incoming
      → db.is_uuid job ≡ true
      → Returns (execute db env dto usages meta w)
  unfolding execute handle_course
  execute_total dto usages meta w job status incoming job_given status_given filled mapped typed =
      rw (job_given, execute)
        (rw (status_given, execute)
          (rw (filled, mapped, typed)
            (elim (Option-cases (course_with db job w)) [
              | inl gone ↦ (w, rw gone)
              | inr (c, found) ↦ rw found (
                  Returns-if (is_success c.status) _ _ (w, refl)
                    (Returns-if (same_status c.status incoming) _ _ (w, refl)
                      (transition_total dto usages meta incoming c w)))
            ])))
