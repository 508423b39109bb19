-- ===== src/Review/Approve/Version.antt =====
-- The optimistic guard on the version of a request.
use odiseo_new.Common.{
  ℕ, ◌<◌, ◌≤◌, String, ◌===◌, eq_iff, ==_iff, ◌≡◌, refl, ◌∙◌, sym, ap, subst, Bool, true, false,
  ◌⊎◌, inl, inr, Bool-cases, Option, some, List, [], ◌∷◌, ◌++◌, map, any, find?, All, arith,
}
use odiseo_new.Common.Http.{conflict, Result-cases, ok, err, >>=-eq-ok, ok-inj}
use odiseo_new.Database.{updated}
use odiseo_new.Webhook.{RequestStatus}
use odiseo_new.Review.{
  Request, Replacement, ApproveReviewDto, Context, ReviewDb, Reads, Job, World, Reply,
}
use odiseo_new.Review.Approve.Steps.{guarded-inv, approve-inv}
use odiseo_new.Review.Approve.{
  has_version, bumped, request_rows, request_with, bump_version, apply_replacements, apply_removals,
  curate, guarded, save_draft, has_empty, save_status, update_material, write_courses, close_review,
  regenerate, finish_review, approve, dispatch, Operation, draft, approval, target, version_of,
  commit, perform, approved_status, bypasses, courses_of, perform_all,
}

-- No two requests share an id.
abbrev pub IdsDiffer : List Request → Type 0
IdsDiffer [] = Unit
IdsDiffer (r ∷ rs) = All (λ x. (r.id === x.id) ≡ false) rs × IdsDiffer rs

-- The row of a request is past the version.
Past : String → ℕ → Request → Type 0
Past id v r = ((r.id === id) ≡ false) ⊎ (v < r.version)

-- All rows of the request are past the version, and there is one.
record Newer (id : String) (v : ℕ) (rs : List Request) : Type 0 where
  past : All (Past id v) rs
  there : any (λ r. r.id === id) rs ≡ true

-- A step that keeps the ids and never counts a version down.
record Grows (f : Request → Request) : Type 0 where
  id : (r : Request) → (f r).id ≡ r.id
  version : (r : Request) → r.version ≤ (f r).version

All-Past-map :
    (id : String) (v : ℕ) (f : Request → Request) (rs : List Request)
    → Grows f
    → All (Past id v) rs
    → All (Past id v) (map f rs)
unfolding Past
All-Past-map id v f [] g h = tt
All-Past-map id v f (r ∷ rs) g (h, k) =
    (ground (arith, g.id r, g.version r), All-Past-map id v f rs g k)

any-id-map :
    (id : String) (f : Request → Request) (rs : List Request)
    → Grows f
    → any (λ r. r.id === id) (map f rs) ≡ any (λ r. r.id === id) rs
any-id-map id f [] g = refl
any-id-map id f (r ∷ rs) g = rw (g.id r, any-id-map id f rs g) refl

Newer-map :
    (id : String) (v : ℕ) (f : Request → Request) (rs : List Request)
    → Grows f
    → Newer id v rs
    → Newer id v (map f rs)
Newer-map id v f rs g h = record {
  past = All-Past-map id v f rs g h.past;
  there = any-id-map id f rs g ∙ h.there;
}

Grows-updated : (p : Request → Bool) (f : Request → Request) → Grows f → Grows (updated p f)
Grows-updated p f g = record {
  id = λ r. ground (arith, g.id r);
  version = λ r. ground (arith, g.version r);
}

-- The rows of a request after its version was counted up.
Past-others :
    (id : String) (v : ℕ) (r : Request) (rs : List Request)
    → (r.id === id) ≡ true
    → All (λ x. (r.id === x.id) ≡ false) rs
    → All (Past id v) (map (updated (has_version id v) bumped) rs)
unfolding Past
Past-others id v r [] e h = tt
Past-others id v r (x ∷ rs) e (h, k) =
    (ground (arith, eq_iff r.id id, eq_iff r.id x.id, eq_iff x.id id), Past-others id v r rs e k)

no_other :
    (id : String) (v : ℕ) (r : Request) (rs : List Request)
    → (r.id === id) ≡ true
    → All (λ x. (r.id === x.id) ≡ false) rs
    → any (has_version id v) rs ≡ false
no_other id v r [] e h = refl
no_other id v r (x ∷ rs) e (h, k) =
    ground (arith, no_other id v r rs e k, eq_iff r.id id, eq_iff r.id x.id, eq_iff x.id id)

Past-bump :
    (id : String) (v : ℕ) (rs : List Request)
    → IdsDiffer rs
    → any (has_version id v) rs ≡ true
    → All (Past id v) (map (updated (has_version id v) bumped) rs)
unfolding Past
Past-bump id v [] h found = tt
Past-bump id v (r ∷ rs) (h, k) found = elim (Bool-cases (has_version id v r)) [
  | inl this ↦ (ground (arith, ==_iff r.version v), Past-others id v r rs (ground arith) h)
  | inr other ↦ elim (Bool-cases (r.id === id)) [
    | inl same ↦ let none_left = no_other id v r rs same h in ground arith
    | inr differs ↦ (ground arith, Past-bump id v rs k (ground arith))
  ]
]

pub any_id-of_version :
    (id : String) (v : ℕ) (rs : List Request)
    → any (has_version id v) rs ≡ true
    → any (λ r. r.id === id) rs ≡ true
any_id-of_version id v [] h = h
any_id-of_version id v (r ∷ rs) h = ground (arith, any_id-of_version id v rs)

-- A row that is past the version is not found by it.
not_found-Past :
    (id : String) (v : ℕ) (rs : List Request)
    → All (Past id v) rs
    → any (has_version id v) rs ≡ false
unfolding Past
not_found-Past id v [] h = refl
not_found-Past id v (r ∷ rs) (h, k) = ground (arith, not_found-Past id v rs k, ==_iff r.version v)

pub find-of_any :
    (id : String) (rs : List Request)
    → any (λ r. r.id === id) rs ≡ true
    → (r : Request) × (find? (λ x. x.id === id) rs ≡ some r)
find-of_any id [] h = cc
find-of_any id (r ∷ rs) h = elim (Bool-cases (r.id === id)) [
  | inl e ↦ (r, ground arith)
  | inr e ↦ let (x, f) = find-of_any id rs (ground arith) in (x, ground arith)
]

Grows-bumped : Grows bumped
Grows-bumped = record { id = λ r. refl; version = λ r. omega arith }

module _ (db : ReviewDb) where
  -- What operations do to the rows of the requests.
  data Evolves : List Request → List Request → Type 0 where
    same : {rs : List Request} → Evolves rs rs
    step :
        {rs rs' : List Request} (f : Request → Request)
        → Grows f
        → Evolves (map f rs) rs'
        → Evolves rs rs'

  Evolves-trans : {a b c : List Request} → Evolves a b → Evolves b c → Evolves a c
  Evolves-trans same k = k
  Evolves-trans (step f g h) k = step f g (Evolves-trans h k)

  Evolves-Newer :
      (id : String) (v : ℕ) {a b : List Request} → Evolves a b → Newer id v a → Newer id v b
  Evolves-Newer id v same n = n
  Evolves-Newer id v (step f g h) n = Evolves-Newer id v h (Newer-map id v f _ g n)

  requests-apply_replacements :
      (id : String) (xs : List Replacement) (w : World db)
      → (apply_replacements db id xs w).requests ≡ w.requests
  unfolding apply_replacements
  requests-apply_replacements id [] w = refl
  requests-apply_replacements id (x ∷ xs) w = requests-apply_replacements id xs _

  requests-apply_removals :
      (id : String) (xs : List String) (w : World db)
      → (apply_removals db id xs w).requests ≡ w.requests
  unfolding apply_removals
  requests-apply_removals id [] w = refl
  requests-apply_removals id (x ∷ xs) w = requests-apply_removals id xs _

  requests-curate :
      (id : String) (dto : ApproveReviewDto) (w : World db)
      → (curate db id dto w).requests ≡ w.requests
  unfolding curate
  requests-curate id dto w =
      requests-apply_removals id dto.removals (apply_replacements db id dto.replacements w)
      ∙ requests-apply_replacements id dto.replacements w

  requests-dispatch :
      (accepts : List Job → Job → Bool) (reply : Reply) (js : List Job) (w : World db)
      → (dispatch db accepts reply js w).0.requests ≡ w.requests
  unfolding dispatch
  requests-dispatch accepts reply [] w = refl
  requests-dispatch accepts reply (j ∷ js) w =
      ground (arith, requests-dispatch accepts reply js (record w { jobs = w.jobs ++ j ∷ [] }))

  requests-update_material :
      (m : Option String) (status : RequestStatus) (w : World db)
      → (update_material db m status w).requests ≡ w.requests
  unfolding update_material
  requests-update_material m status w = ground arith

  Evolves-of_eq : {a b : List Request} → a ≡ b → Evolves a b
  Evolves-of_eq {a} e = subst (λ b. Evolves a b) e same

  Evolves-update :
      (p : Request → Bool) (f : Request → Request) (s : db.Requests)
      → Grows f
      → Evolves (db.requests.rows s) (db.requests.rows (db.requests.update p f s))
  Evolves-update p f s g =
      step (updated p f) (Grows-updated p f g) (Evolves-of_eq (sym (db.requests.rows-update p f s)))

  Evolves-save_status :
      (id : String) (status : RequestStatus) (w : World db)
      → Evolves (request_rows db w) (request_rows db (save_status db id status w))
  unfolding save_status
  Evolves-save_status id status w =
      Evolves-update _ _ w.requests
        (record { id = λ r. refl; version = λ r. db.saved_version-grows r status })

  requests-close_review :
      (r : Request) (empty : Bool) (w : World db)
      → (close_review db r empty w).0.requests
        ≡ (save_status db r.id (approved_status empty) w).requests
  unfolding close_review write_courses
  requests-close_review r empty w = requests-update_material r.material_id _ _

  requests-regenerate :
      (reads : Reads) (ctx : Context) (r : Request) (w : World db)
      → (regenerate db reads ctx r w).0.requests
        ≡ (save_status db r.id RequestStatus.processing w).requests
  unfolding regenerate write_courses
  requests-regenerate reads ctx r w = requests-update_material r.material_id _ _

  Evolves-finish_review :
      (reads : Reads) (ctx : Context) (dto : ApproveReviewDto) (r : Request) (w : World db)
      → Evolves (request_rows db w) (request_rows db (finish_review db reads ctx dto r w).0)
  unfolding finish_review
  Evolves-finish_review reads ctx dto r w =
      let saved : (status : RequestStatus)
          → Evolves (request_rows db w) (request_rows db (save_status db r.id status w)) =
        λ status. Evolves-save_status r.id status w in
      elim (Bool-cases (bypasses dto (courses_of db r.id w))) [
        | inl e ↦ rw (e, requests-close_review r (has_empty db r.id w) w) (saved _)
        | inr e ↦ rw (e, requests-regenerate reads ctx r w) (saved _)
      ]

  -- The guard passes only a request at the version, and leaves it past the version.
  Newer-bump_version :
      (id : String) (v : ℕ) (w w' : World db)
      → IdsDiffer (request_rows db w)
      → bump_version db id v w ≡ ok w'
      → Newer id v (request_rows db w')
  unfolding bump_version
  Newer-bump_version id v w w' differ h =
      elim (Bool-cases (any (has_version id v) (request_rows db w))) [
        | inl found ↦
            let step = rw (found, bump_version) at h in
            let e = ap (λ x. x.requests) (ok-inj step) in
            rw (← e, db.requests.rows-update (has_version id v) bumped w.requests)
              (record {
                past = Past-bump id v (request_rows db w) differ found;
                there =
                    any-id-map id (updated (has_version id v) bumped) (request_rows db w)
                      (Grows-updated (has_version id v) bumped Grows-bumped)
                    ∙ any_id-of_version id v (request_rows db w) found;
              })
        | inr none_found ↦ ground arith
      ]

  Evolves-bump_version :
      (id : String) (v : ℕ) (w w' : World db)
      → bump_version db id v w ≡ ok w'
      → Evolves (request_rows db w) (request_rows db w')
  unfolding bump_version
  Evolves-bump_version id v w w' h =
      let now = Evolves-update (has_version id v) bumped w.requests Grows-bumped in
      elim (Bool-cases (any (has_version id v) (request_rows db w))) [
        | inl found ↦
            let e = ap (λ x. x.requests) (ok-inj (rw (found, bump_version) at h)) in rw (← e) now
        | inr none_found ↦ ground arith
      ]

  Evolves-guarded :
      (id : String) (dto : ApproveReviewDto) (w w' : World db)
      → guarded db id dto w ≡ ok w'
      → (w₁ : World db) × (bump_version db id dto.version w ≡ ok w₁) × (w'.requests ≡ w₁.requests)
  Evolves-guarded id dto w w' h =
      let g = guarded-inv db id dto w w' h in
      (g.bumped, g.bump, ap (λ x. x.requests) (sym g.curated) ∙ requests-curate id dto g.bumped)

  -- A transaction that commits counted the version up, and went on from there.
  commit-inv :
      (op : Operation) (w w' : World db) (jobs : List Job) (reply : Reply)
      → commit db op w ≡ ok (w', jobs, reply)
      → (w₁ : World db) × (bump_version db (target op) (version_of op) w ≡ ok w₁)
        × Evolves (request_rows db w₁) (request_rows db w')
  unfolding commit save_draft approve
  commit-inv (draft id dto) w w' jobs reply h =
      let (x, e, k) = >>=-eq-ok (guarded db id dto w) _ h in
      let (w₁, bump, kept) = Evolves-guarded id dto w x e in
      let out : x ≡ w' = ap (λ o. o.0) (ok-inj k) in
      (w₁, bump, Evolves-of_eq (ap db.requests.rows (sym kept ∙ ap (λ y. y.requests) out)))
  commit-inv (approval reads ctx accepts id dto) w w' jobs reply h =
      let a = approve-inv db reads ctx id dto w h in
      let (w₁, bump, kept) = Evolves-guarded id dto w a.curated a.passed in
      let out : (finish_review db reads ctx dto a.request a.curated).0 ≡ w' =
        ap (λ o. o.0) a.finished in
      (
        w₁,
        bump,
        Evolves-trans (Evolves-of_eq (ap db.requests.rows (sym kept))) (
            subst (λ y. Evolves (request_rows db a.curated) (request_rows db y)) out
              (Evolves-finish_review reads ctx dto a.request a.curated)),
      )

  Evolves-perform :
      (op : Operation) (w : World db)
      → Evolves (request_rows db w) (request_rows db (perform db op w).0)
  unfolding perform
  Evolves-perform op w = elim (Result-cases (commit db op w)) [
    | inl (e, refused) ↦ rw (refused, perform) same
    | inr ((w', jobs, reply), done) ↦
        let (w₁, bump, rest) = commit-inv op w w' jobs reply done in
        let sent = Evolves-of_eq (ap db.requests.rows (sym (requests-dispatch _ reply jobs w'))) in
        rw (done, perform)
          (Evolves-trans (Evolves-bump_version (target op) (version_of op) w w₁ bump)
            (Evolves-trans rest sent))
  ]

  Evolves-perform_all :
      (ops : List Operation) (w : World db)
      → Evolves (request_rows db w) (request_rows db (perform_all db ops w))
  unfolding perform_all
  Evolves-perform_all [] w = same
  Evolves-perform_all (op ∷ ops) w =
      Evolves-trans (Evolves-perform op w) (Evolves-perform_all ops (perform db op w).0)

  -- Behind the version the guard refuses.
  refused-guarded :
      (id : String) (dto : ApproveReviewDto) (w : World db)
      → Newer id dto.version (request_rows db w)
      → (r : Request) × (request_with db id w ≡ some r) × (guarded db id dto w ≡ err conflict)
  unfolding guarded bump_version
  refused-guarded id dto w n =
      let (r, found) = find-of_any id (request_rows db w) n.there in
      let none_found = not_found-Past id dto.version (request_rows db w) n.past in
      (r, found, ground arith)

  refused-commit :
      (op : Operation) (w : World db)
      → Newer (target op) (version_of op) (request_rows db w)
      → commit db op w ≡ err conflict
  unfolding commit save_draft approve
  refused-commit (draft id dto) w n = let (r, found, e) = refused-guarded id dto w n in ground arith
  refused-commit (approval reads ctx accepts id dto) w n =
      let (r, found, e) = refused-guarded id dto w n in ground arith

  refused-Newer :
      (op : Operation) (w : World db)
      → Newer (target op) (version_of op) (request_rows db w)
      → perform db op w ≡ (w, err conflict)
  unfolding perform
  refused-Newer op w n = rw (refused-commit op w n, perform) refl

  -- Of all drafts and approvals of a request that carry the same version, at most one is carried
  -- out: once one has committed, each later one is refused as a conflict and changes nothing,
  -- whatever drafts and approvals, of any request, run in between, and whether or not the queue took
  -- the jobs.
  pub one_operation_per_version :
      (op later : Operation) (between : List Operation) (w w' : World db) (jobs : List Job)
      (reply : Reply)
      → IdsDiffer (request_rows db w)
      → commit db op w ≡ ok (w', jobs, reply)
      → target later ≡ target op
      → version_of later ≡ version_of op
      → let now = perform_all db between (perform db op w).0 in
        perform db later now ≡ (now, err conflict)
  unfolding perform
  one_operation_per_version op later between w w' jobs reply differ done id version =
      let (w₁, bump, rest) = commit-inv op w w' jobs reply done in
      let newer = Newer-bump_version (target op) (version_of op) w w₁ differ bump in
      let after = Evolves-Newer (target op) (version_of op) rest newer in
      let sent : (perform db op w).0.requests ≡ w'.requests =
        rw (done, perform) (requests-dispatch _ reply jobs w') in
      let now = perform_all db between (perform db op w).0 in
      refused-Newer later now (
        rw (id, version)
          (Evolves-Newer (target op) (version_of op)
            (Evolves-perform_all between (perform db op w).0) (rw (sent, request_rows) after)))
