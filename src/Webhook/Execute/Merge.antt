-- ===== src/Webhook/Execute/Merge.antt =====
-- The merge job is dispatched once: over any sequence of callbacks without a failure.
use mathlib.Core.List.{append-nil}
use odiseo_new.Common.{
  ◌+◌, ◌≤◌, String, ◌===◌, eq_iff, ◌≡◌, ◌≢◌, refl, ◌∙◌, ◌&&◌, inl, inr, false, Bool-cases, Option,
  some, List, [], ◌∷◌, ◌++◌, arith, any, if◌then◌else◌, All,
}
use odiseo_new.Common.Http.{Result, ok, err}
use odiseo_new.Webhook.{Course, Request, UsageRecord, Database, StatusDto, ArtifactMeta, Env, World}
use odiseo_new.Webhook.Execute.{
  is_failed, all_finished, final_status, should_merge, request_with, siblings_of, execute,
}
use odiseo_new.Webhook.Execute.Guard.{execute_cases}
use odiseo_new.Webhook.Execute.Rollup.{merge_job, transition_computes}
use odiseo_new.Webhook.Execute.Delivery.{Callback, or_unchanged, deliver, deliver_all}
use odiseo_new.Webhook.Execute.Jobs.{
  merges, merges-append, merges-merge_job-le, merges_left, final_status-is_final_success,
  should_merge-not_final, status_ne, map_status-fine, HasNoFailure, HasNoFailure-transition,
}
use odiseo_new.Webhook.Execute.Others.{transition_ne}

module _ (db : Database) where
  -- The request is still there, and the jobs it has and may still get are no more than before.
  pub record Bounded (id : String) (r : Request) (w w' : World db) : Type 0 where
    pub request : Request
    pub there : request_with db id w' ≡ some request
    pub fine : HasNoFailure db id w'
    pub bound : merges id w'.jobs + merges_left request ≤ merges id w.jobs + merges_left r

  rolled_bound :
      (env : Env) (id : String) (r : Request) (siblings : List Course) (w w' : World db)
      → any (λ c. is_failed c.status) siblings ≡ false
      → w'.jobs
        ≡ w.jobs
          ++ (if all_finished siblings && should_merge (some r) siblings
              then merge_job env id
              else [])
      → merges id w'.jobs
          + merges_left
              (if all_finished siblings then record r { status = final_status siblings } else r)
        ≤ merges id w.jobs + merges_left r
  rolled_bound env id r siblings w w' fine jobs = elim (Bool-cases (all_finished siblings)) [
    | inr waiting ↦
        let e : w'.jobs ≡ w.jobs ++ [] = rw waiting at jobs in
        rw (waiting, e, append-nil) (omega arith)
    | inl finished ↦ elim (Bool-cases (should_merge (some r) siblings)) [
      | inr skip ↦
          let e : w'.jobs ≡ w.jobs ++ [] = rw (finished, skip) at jobs in
          rw (finished, e, append-nil, final_status-is_final_success siblings fine) (omega arith)
      | inl merge ↦
          let e : w'.jobs ≡ w.jobs ++ merge_job env id = rw (finished, merge) at jobs in
          rw
            (
              finished,
              e,
              final_status-is_final_success siblings fine,
              should_merge-not_final r siblings merge,
            )
            (omega
              (arith, merges-append id w.jobs (merge_job env id), merges-merge_job-le env id id))
    ]
  ]

  rolled :
      (env : Env) (id : String) (r : Request) (w w' : World db)
      → HasNoFailure db id w'
      → let siblings = siblings_of db id w' in
        request_with db id w'
          ≡ some (if all_finished siblings then record r { status = final_status siblings } else r)
        → w'.jobs
          ≡ w.jobs
            ++ (if all_finished siblings && should_merge (some r) siblings
                then merge_job env id
                else [])
        → Bounded id r w w'
  rolled env id r w w' fine there jobs = record {
    request =
        if all_finished (siblings_of db id w')
        then record r { status = final_status (siblings_of db id w') }
        else r;
    there = there;
    fine = fine;
    bound = rolled_bound env id r (siblings_of db id w') w w' fine jobs;
  }

  execute-Bounded :
      (env : Env) (dto : StatusDto) (usages : List UsageRecord) (meta : Option ArtifactMeta)
      (w w' : World db) (id : String) (r : Request)
      → dto.status ≢ some "failed"
      → request_with db id w ≡ some r
      → HasNoFailure db id w
      → execute db env dto usages meta w ≡ ok w'
      → Bounded id r w w'
  execute-Bounded env dto usages meta w w' id r reported found fine h =
      elim (execute_cases db env dto usages meta w w' h) [
        | inl (same, _) ↦
            rw same (record { request = r; there = found; fine = fine; bound = omega arith })
        | inr t ↦
            let ne : (t.status === "failed") ≡ false = status_ne t.status reported t.status_given in
            let fine' =
              HasNoFailure-transition db env dto usages meta t.incoming t.course w w' id
                (map_status-fine t.status t.incoming t.mapped ne) fine t.moved in
            elim (Bool-cases (t.course.material_request_id === id)) [
              | inr other ↦
                  let u =
                    transition_ne db env dto usages meta t.incoming t.course w w' id other
                      t.moved in
                  record {
                    request = r;
                    there = u.request ∙ found;
                    fine = fine';
                    bound = omega (arith, u.jobs);
                  }
              | inl own ↦
                  let e : t.course.material_request_id ≡ id = (eq_iff _ _).0 own in
                  let (there, jobs) =
                    transition_computes db env dto usages meta t.incoming t.course r w w'
                      (rw e found) t.moved in
                  rolled env id r w w' fine' (rw e at there) (rw e at jobs)
            ]
      ]

  deliver-Bounded :
      (cb : Callback) (w : World db) (id : String) (r : Request)
      → cb.dto.status ≢ some "failed"
      → request_with db id w ≡ some r
      → HasNoFailure db id w
      → Bounded id r w (deliver db cb w)
  unfolding deliver
  deliver-Bounded cb w id r reported found fine =
      go (execute db cb.env cb.dto cb.usages cb.meta w) refl
    where
      go :
          (x : Result (World db))
          → execute db cb.env cb.dto cb.usages cb.meta w ≡ x
          → Bounded id r w (or_unchanged x w)
      go (ok w') e = execute-Bounded cb.env cb.dto cb.usages cb.meta w w' id r reported found fine e
      go (err x) e = record { request = r; there = found; fine = fine; bound = omega arith }

  -- From a request without a failed course, any sequence of callbacks that reports no failure adds
  -- at most one merge job for the request, and none if it is COMPLETED or REVIEW_REQUIRED already.
  pub merge_once :
      (cbs : List Callback) (w : World db) (id : String) (r : Request)
      → All (λ cb. cb.dto.status ≢ some "failed") cbs
      → request_with db id w ≡ some r
      → HasNoFailure db id w
      → merges id (deliver_all db cbs w).jobs ≤ merges id w.jobs + merges_left r
  unfolding deliver_all
  merge_once [] w id r reported found fine = omega arith
  merge_once (cb ∷ cbs) w id r (first, later) found fine =
      let b = deliver-Bounded cb w id r first found fine in
      omega (arith, b.bound, merge_once cbs (deliver db cb w) id b.request later b.there b.fine)
