-- ===== src/Webhook/Execute/Others.antt =====
-- A callback leaves the requests of other courses alone.
use odiseo_new.Common.{
  String, ◌===◌, ◌≡◌, refl, ap, ◌∙◌, ◌⊎◌, subst, inl, inr, false, Bool-cases, Option, List, ◌++◌,
  arith,
}
use odiseo_new.Common.Http.{ok, >>=-eq-ok}
use odiseo_new.Database.Rows.{find?-updated_ne}
use odiseo_new.Webhook.{
  CourseStatus, RequestStatus, Course, Request, UsageRecord, Database, StatusDto, ArtifactMeta, Env,
  World,
}
use odiseo_new.Webhook.Execute.{
  all_finished, final_status, should_merge, close_request, write_request_status, write_ledger,
  dispatch_merge, finish_request, roll_up, emit_generated, request_with, siblings_of, write_course,
  transition,
}
use odiseo_new.Webhook.Execute.Rollup.{
  merge_job, same_write_ledger, same_emit_generated, same_update_material, same_write_course,
  jobs-close,
}
use odiseo_new.Webhook.Execute.Jobs.{merges, merges-append, merges-merge_job_ne}

module _ (db : Database) where
  -- Another request keeps its status and its jobs.
  request_with-close_ne :
      (id other : String) (s : RequestStatus) (w : World db)
      → (id === other) ≡ false
      → request_with db other (close_request db id s w) ≡ request_with db other w
  unfolding close_request write_request_status
  request_with-close_ne id other s w ne =
      let w₁ = write_request_status db id s w in
      rw (same_update_material db (request_with db id w₁) s w₁).0 (
        rw db.requests.rows-update (
          find?-updated_ne (λ (x : Request). x.id) (λ x. record x { status = s }) (λ x. refl) id
            other (db.requests.rows w.requests) ne))

  dispatch_merge_cases :
      (env : Env) (id : String) (w w' : World db)
      → dispatch_merge db env id w ≡ ok w'
      → (w'.requests ≡ w.requests) × ((w'.jobs ≡ w.jobs) ⊎ (w'.jobs ≡ w.jobs ++ merge_job env id))
  unfolding dispatch_merge
  dispatch_merge_cases env id w w' h = ground arith

  -- What the callbacks of one request leave of another.
  pub record Untouched (other : String) (w w' : World db) : Type 0 where
    pub request : request_with db other w' ≡ request_with db other w
    pub jobs : merges other w'.jobs ≡ merges other w.jobs

  finish_request_ne :
      (env : Env) (id other : String) (parent : Option Request) (siblings : List Course)
      (w w' : World db)
      → (id === other) ≡ false
      → finish_request db env id parent siblings w ≡ ok w'
      → Untouched other w w'
  unfolding finish_request
  finish_request_ne env id other parent siblings w w' ne h =
      let s = final_status siblings in
      let closed = close_request db id s w in
      let requests = request_with-close_ne id other s w ne in
      let jobs = jobs-close db id s w in
      elim (Bool-cases (should_merge parent siblings)) [
        | inl merge ↦
            let (a, b) = dispatch_merge_cases env id closed w' (rw (merge, finish_request) at h) in
            record {
              request = rw a requests;
              jobs = elim b [
                | inl none_added ↦ rw (none_added, jobs)
                | inr added ↦
                    rw (added, jobs)
                      (omega (
                        arith,
                        merges-append other w.jobs (merge_job env id),
                        merges-merge_job_ne env id other ne,
                      ))
              ];
            }
        | inr skip ↦
            let e : closed ≡ w' = ground arith in
            rw (← e) (record { request = requests; jobs = ap (merges other) jobs })
      ]

  roll_up_ne :
      (env : Env) (id other : String) (parent : Option Request) (w w' : World db)
      → (id === other) ≡ false
      → roll_up db env id parent w ≡ ok w'
      → Untouched other w w'
  unfolding roll_up
  roll_up_ne env id other parent w w' ne h =
      elim (Bool-cases (all_finished (siblings_of db id w))) [
        | inl finished ↦
            finish_request_ne env id other parent (siblings_of db id w) w w' ne
              (rw (finished, roll_up) at h)
        | inr waiting ↦
            let e : w ≡ w' = ground arith in rw (← e) (record { request = refl; jobs = refl })
      ]

  Untouched-of_same :
      (other : String) (w w₁ w₂ w' : World db)
      → w₁.requests ≡ w.requests
      → w₁.jobs ≡ w.jobs
      → Untouched other w₁ w₂
      → w'.requests ≡ w₂.requests
      → w'.jobs ≡ w₂.jobs
      → Untouched other w w'
  Untouched-of_same other w w₁ w₂ w' a b u c d = record {
    request = rw (c, ← a) u.request;
    jobs = rw (d, ← b) u.jobs;
  }

  pub transition_ne :
      (env : Env) (dto : StatusDto) (usages : List UsageRecord) (meta : Option ArtifactMeta)
      (incoming : CourseStatus) (c : Course) (w w' : World db) (other : String)
      → (c.material_request_id === other) ≡ false
      → transition db env dto usages meta incoming c w ≡ ok w'
      → Untouched other w w'
  unfolding transition
  transition_ne env dto usages meta incoming c w w' other ne h =
      let id = c.material_request_id in
      let w₀ = write_course db env dto meta incoming c.id w in
      let w₁ = write_ledger db incoming c usages w₀ in
      let parent = request_with db id w₁ in
      let (a, b) = same_write_ledger db incoming c usages w₀ in
      let (a₀, b₀) = same_write_course db env dto meta incoming c.id w in
      let (w₂, rolled, e) = >>=-eq-ok (roll_up db env id parent w₁) _ h in
      let emitted : emit_generated db incoming c parent w₂ ≡ w' = ground arith in
      let (c₂, d₂) = same_emit_generated db incoming c parent w₂ in
      Untouched-of_same other w w₁ w₂ w' (a ∙ a₀) (b ∙ b₀)
        (roll_up_ne env id other parent w₁ w₂ ne rolled)
        (subst (λ (x : World db). x.requests ≡ w₂.requests) emitted c₂)
        (subst (λ (x : World db). x.jobs ≡ w₂.jobs) emitted d₂)
