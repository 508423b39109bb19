-- ===== src/Review/Approve/Others.antt =====
-- An operation on a request touches no other request.
use odiseo_new.Common.{
  ℕ, String, ◌===◌, eq_iff, includes, truthy, ◌≡◌, refl, ◌∙◌, sym, ap, subst, Bool, true, false,
  not, ◌&&◌, Bool-cases, Option, none, some, inl, inr, List, [], ◌∷◌, ◌++◌, map, filter, any, all,
  arith,
}
use odiseo_new.Common.Http.{Result-cases, ok, >>=-eq-ok, ok-inj}
use odiseo_new.Database.{updated}
use odiseo_new.Database.Rows.{find?-test, filter-updated_other}
use odiseo_new.Webhook.{CourseStatus, RequestStatus}
use odiseo_new.Review.{
  ReviewQuestion, Request, Course, Replacement, ApproveReviewDto, Context, ReviewDb, Reads, Job,
  World, Reply,
}
use odiseo_new.Review.Approve.Steps.{guarded-inv, approve-inv}
use odiseo_new.Review.Approve.Jobs.{courses-guarded}
use odiseo_new.Review.Approve.{
  has_version, bumped, is_slot, replaced_by, removed_slot, ids_of, request_rows, courses_of,
  questions_of, approved_status, bump_version, curate, apply_replacements, apply_removals, guarded,
  save_draft, has_empty, save_status, update_material, write_courses, close_review, regenerate,
  finish_review, approve, dispatch, Operation, draft, approval, target, commit, perform, bypasses,
}

-- The courses share no id with the list.
Apart : List String → List Course → Type 0
Apart ids ds = all (λ c. not (includes ids c.id)) ds ≡ true

includes-filter :
    (p : Course → Bool) (cs : List Course) (x : String)
    → includes (ids_of cs) x ≡ false
    → includes (ids_of (filter p cs)) x ≡ false
includes-filter p [] x h = refl
includes-filter p (c ∷ cs) x h = ground (arith, includes-filter p cs x)

Apart-filter :
    (p : Course → Bool) (cs ds : List Course)
    → Apart (ids_of cs) ds
    → Apart (ids_of (filter p cs)) ds
unfolding Apart
Apart-filter p cs [] h = refl
Apart-filter p cs (d ∷ ds) h = ground (arith, includes-filter p cs d.id, Apart-filter p cs ds)

module _ (db : ReviewDb) (other : String) where
  -- The row, the slots and the courses of another request are the same.
  pub record Untouched (w w' : World db) : Type 0 where
    pub request :
        filter (λ r. r.id === other) (request_rows db w')
        ≡ filter (λ r. r.id === other) (request_rows db w)
    pub questions : questions_of db other w' ≡ questions_of db other w
    pub courses : courses_of db other w' ≡ courses_of db other w

  Untouched-refl : (w : World db) → Untouched w w
  Untouched-refl w = record { request = refl; questions = refl; courses = refl }

  Untouched-trans : (a b c : World db) → Untouched a b → Untouched b c → Untouched a c
  Untouched-trans a b c h k = record {
    request = k.request ∙ h.request;
    questions = k.questions ∙ h.questions;
    courses = k.courses ∙ h.courses;
  }

  module _ (id : String) (differs : (id === other) ≡ false) where
    Untouched-write_question :
        (slot : String) (f : ReviewQuestion → ReviewQuestion) (w : World db)
        → ((q : ReviewQuestion) → (f q).material_request_id ≡ q.material_request_id)
        → Untouched w (record w { questions = db.questions.update (is_slot id slot) f w.questions })
    Untouched-write_question slot f w keeps = record {
      request = refl;
      questions = rw (db.questions.rows-update (is_slot id slot) f w.questions) (
          filter-updated_other (λ (q : ReviewQuestion). q.material_request_id === other)
            (is_slot id slot) f (db.questions.rows w.questions) (λ q. rw (keeps q) refl)
            (λ q. ground (
              arith,
              eq_iff q.material_request_id other,
              eq_iff q.material_request_id id,
              eq_iff id other,
            )));
      courses = refl;
    }

    Untouched-apply_replacements :
        (rs : List Replacement) (w : World db) → Untouched w (apply_replacements db id rs w)
    unfolding apply_replacements
    Untouched-apply_replacements [] w = Untouched-refl w
    Untouched-apply_replacements (r ∷ rs) w =
        Untouched-trans _ _ _
          (Untouched-write_question r.review_question_id (replaced_by r.question_id) w (λ q. refl))
          (Untouched-apply_replacements rs _)

    Untouched-apply_removals :
        (xs : List String) (w : World db) → Untouched w (apply_removals db id xs w)
    unfolding apply_removals
    Untouched-apply_removals [] w = Untouched-refl w
    Untouched-apply_removals (x ∷ xs) w =
        Untouched-trans _ _ _ (Untouched-write_question x removed_slot w (λ q. refl))
          (Untouched-apply_removals xs _)

    Untouched-update_request :
        (p : Request → Bool) (f : Request → Request) (w : World db)
        → ((r : Request) → (f r).id ≡ r.id)
        → ((r : Request) → ((r.id === other) && p r) ≡ false)
        → Untouched w (record w { requests = db.requests.update p f w.requests })
    Untouched-update_request p f w keeps apart = record {
      request = rw (db.requests.rows-update p f w.requests) (
          filter-updated_other (λ (r : Request). r.id === other) p f (db.requests.rows w.requests)
            (λ r. rw (keeps r) refl) apart);
      questions = refl;
      courses = refl;
    }

    Untouched-bump_version :
        (v : ℕ) (w w' : World db) → bump_version db id v w ≡ ok w' → Untouched w w'
    unfolding bump_version
    Untouched-bump_version v w w' h =
        let now =
          Untouched-update_request (has_version id v) bumped w (λ r. refl)
            (λ r. ground (arith, eq_iff r.id other, eq_iff r.id id, eq_iff id other)) in
        elim (Bool-cases (any (has_version id v) (request_rows db w))) [
          | inl found ↦
              let e = ok-inj (rw (found, bump_version) at h) in subst (λ x. Untouched w x) e now
          | inr none_found ↦ ground arith
        ]

    Untouched-guarded :
        (dto : ApproveReviewDto) (w w' : World db) → guarded db id dto w ≡ ok w' → Untouched w w'
    unfolding curate
    Untouched-guarded dto w w' h =
        let g = guarded-inv db id dto w w' h in
        subst (λ x. Untouched w x) g.curated
          (Untouched-trans _ _ _ (Untouched-bump_version dto.version w g.bumped g.bump) (
            Untouched-trans _ _ _ (Untouched-apply_replacements dto.replacements g.bumped)
              (Untouched-apply_removals dto.removals _)))

    Untouched-save_status :
        (status : RequestStatus) (w : World db) → Untouched w (save_status db id status w)
    unfolding save_status
    Untouched-save_status status w =
        Untouched-update_request (λ r. r.id === id) _ w (λ r. refl)
          (λ r. ground (arith, eq_iff r.id other, eq_iff r.id id, eq_iff id other))

    Untouched-update_material :
        (m : Option String) (status : RequestStatus) (w : World db)
        → Untouched w (update_material db m status w)
    unfolding update_material
    Untouched-update_material none status w = Untouched-refl w
    Untouched-update_material (some m) status w = elim (Bool-cases (m === "")) [
      | inl e ↦ rw (e, update_material) (Untouched-refl w)
      | inr e ↦
          rw (e, update_material) (record { request = refl; questions = refl; courses = refl })
    ]

    -- No course of the other request has one of the ids.
    Untouched-write_courses :
        (ids : List String) (status : CourseStatus) (w : World db)
        → Apart ids (courses_of db other w)
        → Untouched w (write_courses db ids status w)
    unfolding write_courses Apart
    Untouched-write_courses ids status w apart = record {
      request = refl;
      questions = refl;
      courses = rw (db.courses.rows-update) (kept (db.courses.rows w.courses) apart);
    }
      where
        kept :
            (cs : List Course)
            → all (λ c. not (includes ids c.id)) (filter (λ c. c.material_request_id === other) cs)
              ≡ true
            → filter
                (λ c. c.material_request_id === other)
                (map (updated (λ c. includes ids c.id) (λ c. record c { status = status })) cs)
              ≡ filter (λ c. c.material_request_id === other) cs
        kept [] h = refl
        kept (c ∷ cs) h = ground (arith, kept cs)

    -- The row and the material that both endings write.
    Untouched-set_status :
        (m : Option String) (status : RequestStatus) (w : World db)
        → Untouched w (update_material db m status (save_status db id status w))
    Untouched-set_status m status w =
        Untouched-trans _ _ _ (Untouched-save_status status w)
          (Untouched-update_material m status (save_status db id status w))

    Apart-moved :
        (ids : List String) (w w' : World db)
        → Untouched w w'
        → Apart ids (courses_of db other w)
        → Apart ids (courses_of db other w')
    Apart-moved ids w w' h apart = subst (λ cs. Apart ids cs) (sym h.courses) apart

    Untouched-close_review :
        (r : Request) (empty : Bool) (w : World db)
        → r.id ≡ id
        → Apart (ids_of (courses_of db id w)) (courses_of db other w)
        → Untouched w (close_review db r empty w).0
    unfolding close_review
    Untouched-close_review r empty w own apart =
        let cs = courses_of db id w in
        let w₁ =
          update_material db r.material_id (approved_status empty)
            (save_status db id (approved_status empty) w) in
        let set : Untouched w w₁ = Untouched-set_status r.material_id (approved_status empty) w in
        let warned = ids_of (filter (λ c. truthy c.warnings) cs) in
        let w₂ = write_courses db warned CourseStatus.completed_with_warnings w₁ in
        let first : Untouched w w₂ = Untouched-trans _ _ _ set (
          Untouched-write_courses warned CourseStatus.completed_with_warnings w₁
            (Apart-moved warned w w₁ set (Apart-filter _ cs _ apart))) in
        let clean = ids_of (filter (λ c. not (truthy c.warnings)) cs) in
        rw own (
          Untouched-trans _ _ _ first (
            Untouched-write_courses clean CourseStatus.completed w₂
              (Apart-moved clean w w₂ first (Apart-filter _ cs _ apart))))

    Untouched-regenerate :
        (reads : Reads) (ctx : Context) (r : Request) (w : World db)
        → r.id ≡ id
        → Apart (ids_of (courses_of db id w)) (courses_of db other w)
        → Untouched w (regenerate db reads ctx r w).0
    unfolding regenerate
    Untouched-regenerate reads ctx r w own apart =
        let set = Untouched-set_status r.material_id RequestStatus.processing w in
        rw own (
          Untouched-trans _ _ _ set
            (Untouched-write_courses _ CourseStatus.processing _ (Apart-moved _ _ _ set apart)))

    Untouched-finish_review :
        (reads : Reads) (ctx : Context) (dto : ApproveReviewDto) (r : Request) (w : World db)
        → r.id ≡ id
        → Apart (ids_of (courses_of db id w)) (courses_of db other w)
        → Untouched w (finish_review db reads ctx dto r w).0
    unfolding finish_review
    Untouched-finish_review reads ctx dto r w own apart =
        elim (Bool-cases (bypasses dto (courses_of db r.id w))) [
          | inl e ↦
              rw (e, finish_review) (Untouched-close_review r (has_empty db r.id w) w own apart)
          | inr e ↦ rw (e, finish_review) (Untouched-regenerate reads ctx r w own apart)
        ]

    Untouched-approve :
        (reads : Reads) (ctx : Context) (dto : ApproveReviewDto) (w : World db)
        {out : World db × List Job × Reply}
        → approve db reads ctx id dto w ≡ ok out
        → Apart (ids_of (courses_of db id w)) (courses_of db other w)
        → Untouched w out.0
    Untouched-approve reads ctx dto w {out} h apart =
        let a = approve-inv db reads ctx id dto w h in
        let own : a.request.id ≡ id =
          (eq_iff a.request.id id).0
            (find?-test (λ (x : Request). x.id === id) (request_rows db w) a.found) in
        let before = Untouched-guarded dto w a.curated a.passed in
        let own_courses : courses_of db id a.curated ≡ courses_of db id w =
          ap (λ (s : db.Courses). filter (λ c. c.material_request_id === id) (db.courses.rows s))
            (courses-guarded db id dto w a.curated a.passed) in
        let apart' : Apart (ids_of (courses_of db id a.curated)) (courses_of db other a.curated) =
          rw (own_courses, before.courses) apart in
        subst (λ (o : World db × List Job × Reply). Untouched w o.0) a.finished
          (Untouched-trans _ _ _ before
            (Untouched-finish_review reads ctx dto a.request a.curated own apart'))

  Untouched-dispatch :
      (accepts : List Job → Job → Bool) (reply : Reply) (js : List Job) (w : World db)
      → Untouched w (dispatch db accepts reply js w).0
  unfolding dispatch
  Untouched-dispatch accepts reply [] w = Untouched-refl w
  Untouched-dispatch accepts reply (j ∷ js) w = elim (Bool-cases (accepts w.jobs j)) [
    | inl e ↦
        rw (e, dispatch)
          (Untouched-trans _ (record w { jobs = w.jobs ++ j ∷ [] }) _
            (record { request = refl; questions = refl; courses = refl })
            (Untouched-dispatch accepts reply js (record w { jobs = w.jobs ++ j ∷ [] })))
    | inr e ↦ rw (e, dispatch) (Untouched-refl w)
  ]

  Untouched-commit :
      (op : Operation) (w : World db) {out : World db × List Job × Reply}
      → (target op === other) ≡ false
      → commit db op w ≡ ok out
      → Apart (ids_of (courses_of db (target op) w)) (courses_of db other w)
      → Untouched w out.0
  unfolding commit save_draft
  Untouched-commit (draft id dto) w {out} differs h apart =
      let (x, e, k) = >>=-eq-ok (guarded db id dto w) _ h in
      subst (λ (o : World db × List Job × Reply). Untouched w o.0) (ok-inj k)
        (Untouched-guarded id differs dto w x e)
  Untouched-commit (approval reads ctx accepts id dto) w differs h apart =
      Untouched-approve id differs reads ctx dto w h apart

  -- A draft or an approval of a request leaves every other request as it is, whether it commits or
  -- not: its row, its slots, whatever ids the body names, and its courses, where the two requests
  -- share no course.
  pub perform-Untouched :
      (op : Operation) (w : World db)
      → (target op === other) ≡ false
      → all
          (λ c. not (includes (ids_of (courses_of db (target op) w)) c.id))
          (courses_of db other w)
        ≡ true
      → Untouched w (perform db op w).0
  unfolding perform Apart
  perform-Untouched op w differs apart = elim (Result-cases (commit db op w)) [
    | inl (e, refused) ↦ rw (refused, perform) (Untouched-refl w)
    | inr ((w', jobs, reply), done) ↦
        rw (done, perform)
          (Untouched-trans _ _ _ (Untouched-commit op w differs done apart)
            (Untouched-dispatch _ reply jobs w'))
  ]
