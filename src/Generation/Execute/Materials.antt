-- ===== src/Generation/Execute/Materials.antt =====
-- The material of a tenant, a profile and a week: found or created, and given its new request.
use odiseo_new.Common.{
  ℕ, suc, ◌+◌, ◌≤◌, ==_iff, String, ◌===◌, eq_refl, ◌≡◌, refl, ◌∙◌, ap, ◌↔◌, truthy, Bool, true,
  false, Bool-cases, Option, none, some, Option-cases, inl, inr, List, [], ◌∷◌, ◌++◌, List-cases,
  map, filter, find?, any, length, range_from, arith,
}
use odiseo_new.Common.Http.{ok}
use odiseo_new.Database.{updated}
use odiseo_new.Review.{ReviewQuestion, QuestionStatus}
use odiseo_new.Generation.{ReviewSlot, Material, Request, GenerationDb, World, Env}
use odiseo_new.Generation.Execute.{
  is_material, slot_status, material_with, insert_or_ignore, find_or_create, attach_request,
  question_rows,
}

filter-map {ℓ} :
    {A : Type ℓ} (p : A → Bool) (f : A → A) (xs : List A)
    → ((x : A) → p (f x) ≡ p x)
    → filter p (map f xs) ≡ map f (filter p xs)
filter-map p f [] h = refl
filter-map p f (x ∷ xs) h = ground (arith, h x, filter-map p f xs h)

filter-append {ℓ} :
    {A : Type ℓ} (p : A → Bool) (xs ys : List A) → filter p (xs ++ ys) ≡ filter p xs ++ filter p ys
filter-append p [] ys = refl
filter-append p (x ∷ xs) ys = ground (arith, filter-append p xs ys)

filter-none {ℓ} : {A : Type ℓ} (p : A → Bool) (xs : List A) → any p xs ≡ false → filter p xs ≡ []
filter-none p [] h = refl
filter-none p (x ∷ xs) h = ground (arith, filter-none p xs)

find?-first {ℓ} :
    {A : Type ℓ} (p : A → Bool) (xs : List A) {x : A}
    → find? p xs ≡ some x
    → (rest : List A) × (filter p xs ≡ x ∷ rest)
find?-first p [] h = absurd (ground arith)
find?-first p (y ∷ ys) {x} h = elim (Bool-cases (p y)) [
  | inl e ↦ let same : y ≡ x = ground arith in (filter p ys, ground arith)
  | inr e ↦ let (rest, f) = find?-first p ys {x = x} (ground arith) in (rest, ground arith)
]

find?-any {ℓ} : {A : Type ℓ} (p : A → Bool) (xs : List A) → find? p xs ≡ none → any p xs ≡ false
find?-any p [] h = refl
find?-any p (x ∷ xs) h = ground (arith, find?-any p xs)

only_row {ℓ} :
    {A : Type ℓ} (p : A → Bool) (xs : List A) {x : A}
    → length (filter p xs) ≤ 1
    → find? p xs ≡ some x
    → filter p xs ≡ x ∷ []
only_row p xs {x} one h =
    let (rest, e) = find?-first p xs h in
    elim (List-cases rest) [
      | inl none_left ↦ e ∙ ap (λ r. x ∷ r) none_left
      | inr (y, ys, more) ↦ let many = rw (e, more) at one in absurd (omega (arith, many))
    ]

find?-of_only {ℓ} :
    {A : Type ℓ} (p : A → Bool) (xs : List A) {x : A} → filter p xs ≡ x ∷ [] → find? p xs ≡ some x
find?-of_only p [] h = absurd (ground arith)
find?-of_only p (y ∷ ys) {x} h = ground (arith, find?-of_only p ys {x = x})

any-find? {ℓ} :
    {A : Type ℓ} (p : A → Bool) (xs : List A) → any p xs ≡ true → (x : A) × (find? p xs ≡ some x)
any-find? p [] h = absurd (ground arith)
any-find? p (x ∷ xs) h = elim (Bool-cases (p x)) [
  | inl e ↦ (x, ground arith)
  | inr e ↦ let (y, f) = any-find? p xs (ground arith) in (y, ground arith)
]

-- The stored row of an entry of the plan: it has the entry's question, topic, subtopic and level, and is
-- EMPTY or FOUND as the entry has no question or one.
pub record IsRowOf (request_id : String) (s : ReviewSlot) (q : ReviewQuestion) : Type 0 where
  pub request : q.material_request_id ≡ request_id
  pub question : q.question_id ≡ s.question_id
  pub topic : q.topic_id ≡ s.topic_id
  pub subtopic : q.subtopic_id ≡ s.subtopic_id
  pub level : q.expected_level ≡ s.expected_level
  pub is_empty : (q.status ≡ QuestionStatus.empty) ↔ (truthy s.question_id ≡ false)
  pub is_found : (q.status ≡ QuestionStatus.found) ↔ (truthy s.question_id ≡ true)

-- The rows are those of the entries of the plan, one for each and in their order.
pub data Fills (request_id : String) : List ReviewSlot → List ReviewQuestion → Type 0 where
  done : Fills request_id [] []
  next :
      {s : ReviewSlot} {q : ReviewQuestion} {ss : List ReviewSlot} {qs : List ReviewQuestion}
      → IsRowOf request_id s q
      → Fills request_id ss qs
      → Fills request_id (s ∷ ss) (q ∷ qs)

slot_status_iff :
    (question_id : Option String)
    → ((slot_status question_id ≡ QuestionStatus.empty) ↔ (truthy question_id ≡ false))
      × ((slot_status question_id ≡ QuestionStatus.found) ↔ (truthy question_id ≡ true))
slot_status_iff none = ground arith
slot_status_iff (some id) = ground arith

module _ (db : GenerationDb) (env : Env) where
  -- The rows of a material's key.
  abbrev pub rows_of : String → String → ℕ → db.Materials → List Material
  rows_of tenant_id profile_id week ms =
      filter (is_material tenant_id profile_id week) (db.materials.rows ms)

  insert_or_ignore_lem :
      (fresh : Material) (w : World db)
      → length (rows_of fresh.tenant_id fresh.profile_id fresh.week_number w.materials) ≤ 1
      → (m : Material) × (ms : db.Materials) × (insert_or_ignore db env fresh w
          ≡ record w { materials = ms })
        × (rows_of fresh.tenant_id fresh.profile_id fresh.week_number ms ≡ m ∷ [])
  unfolding insert_or_ignore
  insert_or_ignore_lem fresh w one =
      let p = is_material fresh.tenant_id fresh.profile_id fresh.week_number in
      let own : p fresh ≡ true = ground (
        arith,
        eq_refl fresh.tenant_id,
        eq_refl fresh.profile_id,
        ==_iff fresh.week_number fresh.week_number,
      ) in
      elim (Bool-cases (any p (db.materials.rows w.materials))) [
        | inl taken ↦
            let (m, found) = any-find? p (db.materials.rows w.materials) taken in
            (
              m,
              w.materials,
              rw (taken, insert_or_ignore) refl,
              only_row p (db.materials.rows w.materials) one found,
            )
        | inr free ↦ (
          fresh,
          db.materials.insert (fresh ∷ []) w.materials,
          rw (free, insert_or_ignore) refl,
          rw (db.materials.rows-insert, filter-append p, filter-none p _ free) (ground arith),
        )
      ]

  pub find_or_create_lem :
      (meanwhile : db.Materials → db.Materials) (fresh : Material) (w : World db)
      → length (rows_of fresh.tenant_id fresh.profile_id fresh.week_number w.materials) ≤ 1
      → length (rows_of fresh.tenant_id fresh.profile_id fresh.week_number (meanwhile w.materials))
        ≤ 1
      → (m : Material) × (ms : db.Materials) × (find_or_create db env meanwhile fresh w
          ≡ ok (record w { materials = ms }, m))
        × (rows_of fresh.tenant_id fresh.profile_id fresh.week_number ms ≡ m ∷ [])
  unfolding find_or_create insert_or_ignore
  find_or_create_lem meanwhile fresh w one other =
      let p = is_material fresh.tenant_id fresh.profile_id fresh.week_number in
      elim (Option-cases
        (material_with db env fresh.tenant_id fresh.profile_id fresh.week_number w)) [
          | inr (m, found) ↦ (
            m,
            w.materials,
            rw (found, find_or_create) refl,
            only_row p (db.materials.rows w.materials) one found,
          )
          | inl missing ↦
              let (m, ms, e, only) =
                insert_or_ignore_lem fresh (record w { materials = meanwhile w.materials }) other in
              (
                m,
                ms,
                rw (missing, find_or_create, e, find?-of_only p (db.materials.rows ms) only)
                    (ap (λ (x : World db). ok (x, m)) e),
                only,
              )
        ]

  -- Rows of a key stay rows of the key.
  rows_of-update :
      (tenant_id profile_id : String) (week : ℕ) (p : Material → Bool) (f : Material → Material)
      (ms : db.Materials)
      → ((m : Material) → (f m).tenant_id ≡ m.tenant_id)
      → ((m : Material) → (f m).profile_id ≡ m.profile_id)
      → ((m : Material) → (f m).week_number ≡ m.week_number)
      → rows_of tenant_id profile_id week (db.materials.update p f ms)
        ≡ map (updated p f) (rows_of tenant_id profile_id week ms)
  rows_of-update tenant_id profile_id week p f ms h k l = rw (db.materials.rows-update p f ms) (
      filter-map (is_material tenant_id profile_id week) (updated p f) (db.materials.rows ms)
        (λ m. ground (arith, h m, k m, l m)))

  pub attach_request_lem :
      (tenant_id profile_id : String) (week : ℕ) (m : Material) (r : Request) (w : World db)
      → rows_of tenant_id profile_id week w.materials ≡ m ∷ []
      → rows_of tenant_id profile_id week (attach_request db env m.id r w).materials
        ≡ record m { status = r.status; latest_request_id = some r.id } ∷ []
  unfolding attach_request
  attach_request_lem tenant_id profile_id week m r w only =
      let mine = λ (x : Material). x.id === m.id in
      let set_status = λ (x : Material). record x { status = r.status } in
      let set_latest = λ (x : Material). record x { latest_request_id = some r.id } in
      let ms = db.materials.update mine set_status w.materials in
      rows_of-update tenant_id profile_id week mine set_latest ms (λ x. refl) (λ x. refl)
        (λ x. refl)
      ∙ ap (map (updated mine set_latest)) (
          rows_of-update tenant_id profile_id week mine set_status w.materials (λ x. refl)
            (λ x. refl) (λ x. refl))
      ∙ (rw only (ground (arith, eq_refl m.id)))

  pub question_rows_lem :
      (request_id : String) (n idx : ℕ) (plan : List ReviewSlot)
      → let rows = question_rows db env request_id n idx plan in
        (map (λ q. q.position) rows ≡ range_from (idx + 1) (length plan))
        × Fills request_id plan rows
  unfolding question_rows
  question_rows_lem request_id n idx [] = (refl, done)
  question_rows_lem request_id n idx (s ∷ ss) =
      let (a, b) = question_rows_lem request_id (suc n) (suc idx) ss in
      (
        ap (λ l. (idx + 1) ∷ l)
            (a
              ∙ ap (λ i. range_from i (length ss))
                  (let e : suc idx + 1 ≡ suc (idx + 1) = omega arith in e)),
        next
            (record {
              request = refl;
              question = refl;
              topic = refl;
              subtopic = refl;
              level = refl;
              is_empty = (slot_status_iff s.question_id).0;
              is_found = (slot_status_iff s.question_id).1;
            })
            b,
      )
