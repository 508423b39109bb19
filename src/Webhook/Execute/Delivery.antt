-- ===== src/Webhook/Execute/Delivery.antt =====
-- Callbacks that come again or late: success is final, and a second delivery changes nothing.
use odiseo_new.Common.{
  String, ◌===◌, eq_iff, ◌≡◌, refl, sym, ◌∙◌, subst, inl, inr, true, false, Bool-cases, Option,
  some, List, [], ◌∷◌, arith,
}
use odiseo_new.Common.Http.{Result, ok, err}
use odiseo_new.Database.Rows.{find?-updated_self, find?-updated_ne, find?-test}
use odiseo_new.Webhook.{
  CourseStatus, Course, UsageRecord, Database, StatusDto, ArtifactMeta, Env, World,
}
use odiseo_new.Webhook.Execute.{
  is_success, course_update, course_with, write_course, handle_course, execute,
}
use odiseo_new.Webhook.Execute.Guard.{
  IsIgnored, Transitioned, execute_cases, courses-transition, same_status_refl,
}

-- One delivery of a callback.
pub record Callback : Type 0 where
  pub env : Env
  pub dto : StatusDto
  pub usages : List UsageRecord
  pub meta : Option ArtifactMeta

-- An exception rolls the transaction back.
abbrev pub or_unchanged {ℓ} : {A : Type ℓ} → Result A → A → A
or_unchanged (ok a) old = a
or_unchanged (err e) old = old

id-course_update :
    (env : Env) (dto : StatusDto) (meta : Option ArtifactMeta) (incoming : CourseStatus)
    (c : Course)
    → (course_update env dto meta incoming c).id ≡ c.id
unfolding course_update
id-course_update env dto meta incoming c = refl

status-course_update :
    (env : Env) (dto : StatusDto) (meta : Option ArtifactMeta) (incoming : CourseStatus)
    (c : Course)
    → (course_update env dto meta incoming c).status ≡ incoming
unfolding course_update
status-course_update env dto meta incoming c = refl

module _ (db : Database) where
  unfoldable pub deliver : Callback → World db → World db
  deliver cb w = or_unchanged (execute db cb.env cb.dto cb.usages cb.meta w) w

  unfoldable pub deliver_all : List Callback → World db → World db
  deliver_all [] w = w
  deliver_all (cb ∷ cbs) w = deliver_all cbs (deliver cb w)

  course_with-write_self :
      (env : Env) (dto : StatusDto) (meta : Option ArtifactMeta) (incoming : CourseStatus)
      (id : String) (c : Course) (w w' : World db)
      → w'.courses ≡ (write_course db env dto meta incoming id w).courses
      → course_with db id w ≡ some c
      → course_with db id w' ≡ some (course_update env dto meta incoming c)
  unfolding write_course
  course_with-write_self env dto meta incoming id c w w' same found =
      rw (same, db.courses.rows-update)
        (find?-updated_self (λ (x : Course). x.id) (course_update env dto meta incoming)
          (id-course_update env dto meta incoming) id (db.courses.rows w.courses) found)

  course_with-write_ne :
      (env : Env) (dto : StatusDto) (meta : Option ArtifactMeta) (incoming : CourseStatus)
      (id other : String) (w w' : World db)
      → w'.courses ≡ (write_course db env dto meta incoming id w).courses
      → (id === other) ≡ false
      → course_with db other w' ≡ course_with db other w
  unfolding write_course
  course_with-write_ne env dto meta incoming id other w w' same ne =
      rw (same, db.courses.rows-update)
        (find?-updated_ne (λ (x : Course). x.id) (course_update env dto meta incoming)
          (id-course_update env dto meta incoming) id other (db.courses.rows w.courses) ne)

  course_with-id :
      (id : String) (c : Course) (w : World db) → course_with db id w ≡ some c → c.id ≡ id
  course_with-id id c w found =
      (eq_iff c.id id).0
        (find?-test (λ (x : Course). x.id === id) (db.courses.rows w.courses) found)

  execute-keeps_success :
      (env : Env) (dto : StatusDto) (usages : List UsageRecord) (meta : Option ArtifactMeta)
      (w w' : World db) (id : String) (c : Course)
      → course_with db id w ≡ some c
      → is_success c.status ≡ true
      → execute db env dto usages meta w ≡ ok w'
      → course_with db id w' ≡ some c
  execute-keeps_success env dto usages meta w w' id c found done h =
      elim (execute_cases db env dto usages meta w w' h) [
        | inl (same, _) ↦ rw same found
        | inr t ↦
            let moved =
              courses-transition db env dto usages meta t.incoming t.course w w' t.moved in
            elim (Bool-cases (t.course.id === id)) [
              | inl hit ↦
                  let a : t.course.id ≡ id = (eq_iff t.course.id id).0 hit in
                  let b : t.course.id ≡ t.job = course_with-id t.job t.course w t.found in
                  let e : t.job ≡ id = sym b ∙ a in
                  let d : some t.course ≡ some c = sym t.found ∙ (rw e found) in
                  absurd (ground (arith, t.open_course))
              | inr miss ↦
                  course_with-write_ne env dto meta t.incoming t.course.id id w w' moved miss
                  ∙ found
            ]
      ]

  deliver-keeps_success :
      (cb : Callback) (w : World db) (id : String) (c : Course)
      → course_with db id w ≡ some c
      → is_success c.status ≡ true
      → course_with db id (deliver cb w) ≡ some c
  unfolding deliver
  deliver-keeps_success cb w id c found done =
      go (execute db cb.env cb.dto cb.usages cb.meta w) refl
    where
      go :
          (r : Result (World db))
          → execute db cb.env cb.dto cb.usages cb.meta w ≡ r
          → course_with db id (or_unchanged r w) ≡ some c
      go (ok w') e = execute-keeps_success cb.env cb.dto cb.usages cb.meta w w' id c found done e
      go (err x) e = found

  -- Success is final: once a course is COMPLETED or COMPLETED_WITH_WARNINGS its row stays exactly as
  -- it is, whatever callbacks, for it or for other courses, arrive afterwards, in any order.
  pub success_persists :
      (cbs : List Callback) (w : World db) (id : String) (c : Course)
      → course_with db id w ≡ some c
      → is_success c.status ≡ true
      → course_with db id (deliver_all cbs w) ≡ some c
  unfolding deliver_all
  success_persists [] w id c found done = found
  success_persists (cb ∷ cbs) w id c found done =
      success_persists cbs (deliver cb w) id c (deliver-keeps_success cb w id c found done) done

  -- The course after an accepted callback that passed both guards.
  course_with-Transitioned :
      (env : Env) (dto : StatusDto) (usages : List UsageRecord) (meta : Option ArtifactMeta)
      (w w' : World db) (t : Transitioned db env dto usages meta w w')
      → course_with db t.job w' ≡ some (course_update env dto meta t.incoming t.course)
  course_with-Transitioned env dto usages meta w w' t =
      course_with-write_self env dto meta t.incoming t.job t.course w w'
        (subst (λ i. w'.courses ≡ (write_course db env dto meta t.incoming i w).courses)
          (course_with-id t.job t.course w t.found)
          (courses-transition db env dto usages meta t.incoming t.course w w' t.moved))
        t.found

  execute_again :
      (env : Env) (dto : StatusDto) (usages : List UsageRecord) (meta : Option ArtifactMeta)
      (w w' : World db) (t : Transitioned db env dto usages meta w w')
      → course_with db t.job w' ≡ some (course_update env dto meta t.incoming t.course)
      → IsIgnored db dto w'
  unfolding execute handle_course
  execute_again env dto usages meta w w' t after env' usages' meta' = ground (
    arith,
    t.job_given,
    t.status_given,
    t.mapped,
    t.typed,
    t.filled,
    status-course_update env dto meta t.incoming t.course,
    same_status_refl t.incoming,
  )

  -- Delivery at least once is harmless: a callback that was accepted changes nothing when it is
  -- delivered again at once, with any clock, tenant context, queue, question list or file metadata.
  pub execute_idempotent :
      (env env' : Env) (dto : StatusDto) (usages usages' : List UsageRecord)
      (meta meta' : Option ArtifactMeta) (w w' : World db)
      → execute db env dto usages meta w ≡ ok w'
      → execute db env' dto usages' meta' w' ≡ ok w'
  execute_idempotent env env' dto usages usages' meta meta' w w' h =
      elim (execute_cases db env dto usages meta w w' h) [
        | inl (same, ignored) ↦ rw same (ignored env' usages' meta')
        | inr t ↦
            execute_again env dto usages meta w w' t
              (course_with-Transitioned env dto usages meta w w' t) env' usages' meta'
      ]
