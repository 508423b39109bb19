-- ===== src/Reconciliation/Sweep.antt =====
-- What a tick of the sweep dispatches, and when a later one dispatches it again.
use odiseo_new.Common.{
  ℕ, ◌+◌, ◌<◌, ltb, ◌==◌, ==_iff, ◌↔◌, String, ◌===◌, eq_iff, ◌≡◌, refl, ◌∙◌, sym, ap, Bool, true,
  not, ◌&&◌, ◌||◌, Bool-cases, Option-cases, ◌⊎◌, inl, inr, List, [], ◌∷◌, ◌++◌, map, filter, any,
  all, concat, arith,
}
use odiseo_new.Database.{updated}
use odiseo_new.Reconciliation.Groups.{Grouped, group_into-Grouped, of_request}
use odiseo_new.Reconciliation.{
  Request, Course, StuckMaterialCourse, Job, SweepDb, World, Env, stale_threshold_minutes, is_stale,
  is_processing, stuck, join_course, stale_courses, group_into, job_of, deliverable, bump,
  redispatch, redispatch_all, batch, sweep_stuck_material_courses,
}

append_assoc {ℓ} : {A : Type ℓ} (xs ys zs : List A) → (xs ++ ys) ++ zs ≡ xs ++ (ys ++ zs)
append_assoc [] ys zs = refl
append_assoc (x ∷ xs) ys zs = ap (λ r. x ∷ r) (append_assoc xs ys zs)

append_nil {ℓ} : {A : Type ℓ} (xs : List A) → xs ++ [] ≡ xs
append_nil [] = refl
append_nil (x ∷ xs) = ap (λ r. x ∷ r) (append_nil xs)

-- A bucket gives one job or none; the job is that of the bucket's request.
deliverable-cases :
    (env : Env) (id : String) (cs : List StuckMaterialCourse)
    → (deliverable env (id, cs) ≡ [])
      ⊎ ((j : Job) × (deliverable env (id, cs) ≡ j ∷ []) × (j.material_request_id ≡ id))
unfolding deliverable
deliverable-cases env id [] = inl refl
deliverable-cases env id (c ∷ cs) = elim (Option-cases (env.template_name c.request.profile_id)) [
  | inl unread ↦ inl (rw (unread, deliverable) refl)
  | inr (name, read) ↦
      elim (Bool-cases (env.queue_accepts (job_of env id c.request name (c ∷ cs)))) [
        | inl taken ↦
            inr (job_of env id c.request name (c ∷ cs), rw (read, deliverable, taken) refl, refl)
        | inr refused ↦ inl (rw (read, deliverable, refused) refl)
      ]
]

-- The request has a job among these.
abbrev pub has_job : String → List Job → Bool
has_job id js = any (λ j. j.material_request_id === id) js

module _ (db : SweepDb) where
  jobs-bump : (env : Env) (id : String) (w : World db) → (bump db env id w).jobs ≡ w.jobs
  unfolding bump
  jobs-bump env id w = ground arith

  jobs-redispatch_all :
      (env : Env) (bs : List (String × List StuckMaterialCourse)) (w : World db)
      → (redispatch_all db env bs w).jobs ≡ w.jobs ++ concat (map (deliverable env) bs)
  unfolding redispatch_all redispatch
  jobs-redispatch_all env [] w = sym (append_nil w.jobs)
  jobs-redispatch_all env ((id, cs) ∷ bs) w = elim (deliverable-cases env id cs) [
    | inl nothing ↦ rw (nothing, redispatch_all, redispatch) (jobs-redispatch_all env bs w)
    | inr (j, e, own) ↦
        rw (e, redispatch_all, redispatch)
          (jobs-redispatch_all env bs (bump db env id (record w { jobs = w.jobs ++ j ∷ [] }))
            ∙ ap (λ js. js ++ concat (map (deliverable env) bs))
                (jobs-bump env id (record w { jobs = w.jobs ++ j ∷ [] }))
            ∙ append_assoc w.jobs (j ∷ []) (concat (map (deliverable env) bs)))
  ]

  -- One tick adds the jobs of groups of the rows that it read: one group for each request, with
  -- exactly its rows. In the order of the groups it adds the job of each whose template can be read
  -- and whose job the queue takes, so the failure of one request keeps no other from being
  -- dispatched.
  pub jobs-sweep :
      (env : Env) (w : World db)
      → (groups : List (String × List StuckMaterialCourse)) × Grouped (batch db env w) groups
        × ((sweep_stuck_material_courses db env w).jobs
            ≡ w.jobs ++ concat (map (deliverable env) groups))
  unfolding sweep_stuck_material_courses
  jobs-sweep env w =
      let groups = group_into [] (batch db env w) in
      (groups, group_into-Grouped (batch db env w), jobs-redispatch_all env groups w)

  -- The clock of the request stands at the tick.
  abbrev fresh : ℕ → String → Request → Bool
  fresh now id r = not (r.id === id) || r.updated_at == now

  fresh-bump_self :
      (env : Env) (id : String) (rs : List Request)
      → all
          (fresh env.now id)
          (map (updated (λ r. r.id === id) (λ r. record r { updated_at = env.now })) rs)
        ≡ true
  fresh-bump_self env id [] = refl
  fresh-bump_self env id (r ∷ rs) =
      ground (arith, ==_iff env.now env.now, fresh-bump_self env id rs)

  fresh-bump_other :
      (env : Env) (id other : String) (rs : List Request)
      → all (fresh env.now id) rs ≡ true
      → all
          (fresh env.now id)
          (map (updated (λ r. r.id === other) (λ r. record r { updated_at = env.now })) rs)
        ≡ true
  fresh-bump_other env id other [] h = refl
  fresh-bump_other env id other (r ∷ rs) h =
      ground (arith, ==_iff env.now env.now, fresh-bump_other env id other rs)

  abbrev rows : World db → List Request
  rows w = db.requests.rows w.requests

  fresh-bump :
      (env : Env) (id other : String) (w : World db)
      → all (fresh env.now id) (rows w) ≡ true
      → all (fresh env.now id) (rows (bump db env other w)) ≡ true
  unfolding bump
  fresh-bump env id other w h = elim (Bool-cases (env.bump_succeeds other)) [
    | inl e ↦
        rw (e, bump)
          (ap (all (fresh env.now id)) (db.requests.rows-update _ _ w.requests)
            ∙ fresh-bump_other env id other (rows w) h)
    | inr e ↦ rw (e, bump) h
  ]

  fresh-bump_now :
      (env : Env) (id : String) (w : World db)
      → env.bump_succeeds id ≡ true
      → all (fresh env.now id) (rows (bump db env id w)) ≡ true
  unfolding bump
  fresh-bump_now env id w e =
      rw (e, bump)
        (ap (all (fresh env.now id)) (db.requests.rows-update _ _ w.requests)
          ∙ fresh-bump_self env id (rows w))

  fresh-redispatch_all :
      (env : Env) (id : String) (bs : List (String × List StuckMaterialCourse)) (w : World db)
      → all (fresh env.now id) (rows w) ≡ true
      → all (fresh env.now id) (rows (redispatch_all db env bs w)) ≡ true
  unfolding redispatch_all redispatch
  fresh-redispatch_all env id [] w h = h
  fresh-redispatch_all env id ((key, cs) ∷ bs) w h = elim (deliverable-cases env key cs) [
    | inl nothing ↦ rw (nothing, redispatch_all, redispatch) (fresh-redispatch_all env id bs w h)
    | inr (j, e, own) ↦
        rw (e, redispatch_all, redispatch)
          (fresh-redispatch_all env id bs _
            (fresh-bump env id key (record w { jobs = w.jobs ++ j ∷ [] }) h))
  ]

  fresh-of_job :
      (env : Env) (id : String) (bs : List (String × List StuckMaterialCourse)) (w : World db)
      → env.bump_succeeds id ≡ true
      → has_job id (concat (map (deliverable env) bs)) ≡ true
      → all (fresh env.now id) (rows (redispatch_all db env bs w)) ≡ true
  unfolding redispatch_all redispatch
  fresh-of_job env id [] w ok' h = absurd (ground arith)
  fresh-of_job env id ((key, cs) ∷ bs) w ok' h = elim (deliverable-cases env key cs) [
    | inl nothing ↦
        rw (nothing, redispatch_all, redispatch) (fresh-of_job env id bs w ok' (rw nothing at h))
    | inr (j, e, own) ↦
        let w₁ = record w { jobs = w.jobs ++ j ∷ [] } in
        let h' = rw e at h in
        elim (Bool-cases (j.material_request_id === id)) [
          | inl mine ↦
              let at : key ≡ id = sym own ∙ (eq_iff j.material_request_id id).0 mine in
              rw (e, redispatch_all, redispatch)
                (fresh-redispatch_all env id bs (bump db env key w₁)
                  (rw at (fresh-bump_now env id w₁ ok')))
          | inr other ↦
              rw (e, redispatch_all, redispatch)
                (fresh-of_job env id bs (bump db env key w₁) ok' (ground arith))
        ]
  ]

  any-append :
      (p : StuckMaterialCourse → Bool) (xs ys : List StuckMaterialCourse)
      → any p (xs ++ ys) ≡ (any p xs || any p ys)
  any-append p [] ys = refl
  any-append p (x ∷ xs) ys = ground (arith, any-append p xs ys)

  -- The course is one of the request and PROCESSING.
  abbrev pub processing_of : String → Course → Bool
  processing_of id c = is_processing c.status && c.material_request_id === id

  -- The request is there and its clock, which stands at the tick, is over the threshold.
  abbrev due : ℕ → ℕ → String → List Request → Bool
  due now later id rs = ltb (now + stale_threshold_minutes) later && any (λ r. r.id === id) rs

  any-picked :
      (now later : ℕ) (id : String) (c : Course) (rs : List Request)
      → all (fresh now id) rs ≡ true
      → any
          (of_request id)
          (map (stuck c) (filter (λ r. r.id === c.material_request_id && is_stale later r) rs))
        ≡ (c.material_request_id === id && due now later id rs)
  any-picked now later id c [] h = ground arith
  any-picked now later id c (r ∷ rs) h = ground (
    arith,
    any-picked now later id c rs,
    ==_iff r.updated_at now,
    eq_iff r.id id,
    eq_iff r.id c.material_request_id,
    eq_iff c.material_request_id id,
  )

  any-joined :
      (now later : ℕ) (id : String) (c : Course) (rs : List Request)
      → all (fresh now id) rs ≡ true
      → any (of_request id) (join_course later rs c) ≡ (processing_of id c && due now later id rs)
  unfolding join_course
  any-joined now later id c rs h = elim (Bool-cases (is_processing c.status)) [
    | inl e ↦ rw (e, join_course) (any-picked now later id c rs h)
    | inr e ↦ rw (e, join_course) refl
  ]

  -- What the query returns of a request whose clock stands at the tick.
  any-stale :
      (now later : ℕ) (id : String) (rs : List Request) (cs : List Course)
      → all (fresh now id) rs ≡ true
      → any (of_request id) (stale_courses later rs cs)
        ≡ (any (processing_of id) cs && due now later id rs)
  unfolding stale_courses
  any-stale now later id rs [] h = refl
  any-stale now later id rs (c ∷ cs) h = ground (
    arith,
    any-append (of_request id) (join_course later rs c) (stale_courses later rs cs),
    any-joined now later id c rs h,
    any-stale now later id rs cs h,
  )

  -- The clock of a dispatched request is reset, and only for the threshold: if the sweep had a job for
  -- a request, and the UPDATE of its clock succeeded, then at a later time the query finds the
  -- request again exactly if more than five minutes have passed, the request is still there, and one
  -- of its courses is still PROCESSING. So the tick fifteen minutes later finds each request that is
  -- still being processed.
  pub sweep_again_iff :
      (env : Env) (w : World db) (id : String) (later : ℕ)
      → env.bump_succeeds id ≡ true
      → has_job id (concat (map (deliverable env) (group_into [] (batch db env w)))) ≡ true
      → let w' = sweep_stuck_material_courses db env w in
        (any
            (of_request id)
            (stale_courses later (db.requests.rows w'.requests) (db.courses.rows w'.courses))
          ≡ true)
        ↔ ((env.now + stale_threshold_minutes < later)
            × (any (λ r. r.id === id) (db.requests.rows w'.requests) ≡ true)
            × (any (processing_of id) (db.courses.rows w'.courses) ≡ true))
  unfolding sweep_stuck_material_courses
  sweep_again_iff env w id later bumped job =
      let w' = redispatch_all db env (group_into [] (batch db env w)) w in
      let found =
        any-stale env.now later id (db.requests.rows w'.requests) (db.courses.rows w'.courses)
          (fresh-of_job env id (group_into [] (batch db env w)) w bumped job) in
      ground (arith, found)
