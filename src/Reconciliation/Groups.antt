-- ===== src/Reconciliation/Groups.antt =====
-- The map from a request to its stuck courses.
use odiseo_new.Common.{
  String, ◌===◌, eq_iff, eq_refl, includes, ◌≡◌, refl, ◌∙◌, sym, ap, Bool, false, ◌||◌, Bool-cases,
  inl, inr, List, [], ◌∷◌, ◌++◌, map, filter, any, All, if◌then◌else◌, arith,
}
use odiseo_new.Reconciliation.{StuckMaterialCourse, push_course, group_into}

abbrev pub keys : List (String × List StuckMaterialCourse) → List String
keys bs = map (λ b. b.0) bs

abbrev pub of_request : String → StuckMaterialCourse → Bool
of_request id c = c.request.id === id

abbrev pub Distinct : List String → Type 0
Distinct [] = Unit
Distinct (x ∷ xs) = (includes xs x ≡ false) × Distinct xs

filter-snoc :
    (p : StuckMaterialCourse → Bool) (cs : List StuckMaterialCourse) (c : StuckMaterialCourse)
    → filter p (cs ++ c ∷ []) ≡ filter p cs ++ (if p c then c ∷ [] else [])
filter-snoc p [] c = ground arith
filter-snoc p (x ∷ xs) c = ground (arith, filter-snoc p xs c)

any-snoc :
    (p : StuckMaterialCourse → Bool) (cs : List StuckMaterialCourse) (c : StuckMaterialCourse)
    → any p (cs ++ c ∷ []) ≡ (any p cs || p c)
any-snoc p [] c = ground arith
any-snoc p (x ∷ xs) c = ground (arith, any-snoc p xs c)

append_nil {ℓ} : {A : Type ℓ} (xs : List A) → xs ++ [] ≡ xs
append_nil [] = refl
append_nil (x ∷ xs) = ap (λ r. x ∷ r) (append_nil xs)

keys-push_course :
    (c : StuckMaterialCourse) (bs : List (String × List StuckMaterialCourse)) (id : String)
    → includes (keys (push_course c bs)) id ≡ (includes (keys bs) id || of_request id c)
unfolding push_course
keys-push_course c [] id = ground arith
keys-push_course c ((key, bucket) ∷ rest) id = ground (
  arith,
  keys-push_course c rest id,
  eq_iff key c.request.id,
  eq_iff key id,
  eq_iff c.request.id id,
)

Distinct-push_course :
    (c : StuckMaterialCourse) (bs : List (String × List StuckMaterialCourse))
    → Distinct (keys bs)
    → Distinct (keys (push_course c bs))
unfolding push_course
Distinct-push_course c [] h = (refl, tt)
Distinct-push_course c ((key, bucket) ∷ rest) (h, k) = elim (Bool-cases (key === c.request.id)) [
  | inl same ↦ rw (same, push_course) (h, k)
  | inr other ↦
      rw (other, push_course)
        (
          ground (
            arith,
            keys-push_course c rest key,
            eq_iff key c.request.id,
            eq_iff c.request.id key,
          ),
          Distinct-push_course c rest k,
        )
]

-- The bucket of each key holds the courses of that request, in order.
abbrev pub Exact : List StuckMaterialCourse → List (String × List StuckMaterialCourse) → Type 0
Exact cs bs = All (λ b. b.1 ≡ filter (of_request b.0) cs) bs

Exact-other :
    (cs : List StuckMaterialCourse) (c : StuckMaterialCourse)
    (bs : List (String × List StuckMaterialCourse))
    → includes (keys bs) c.request.id ≡ false
    → Exact cs bs
    → Exact (cs ++ c ∷ []) bs
Exact-other cs c [] out h = tt
Exact-other cs c ((key, bucket) ∷ rest) out (h, k) = (
  ground (
    arith,
    filter-snoc (of_request key) cs c,
    append_nil (filter (of_request key) cs),
    eq_iff key c.request.id,
    eq_iff c.request.id key,
  ),
  Exact-other cs c rest (ground arith) k,
)

filter-none :
    (p : StuckMaterialCourse → Bool) (cs : List StuckMaterialCourse)
    → any p cs ≡ false
    → filter p cs ≡ []
filter-none p [] h = refl
filter-none p (c ∷ cs) h = ground (arith, filter-none p cs)

Exact-push_course :
    (cs : List StuckMaterialCourse) (c : StuckMaterialCourse)
    (bs : List (String × List StuckMaterialCourse))
    → Distinct (keys bs)
    → (includes (keys bs) c.request.id ≡ false → any (of_request c.request.id) cs ≡ false)
    → Exact cs bs
    → Exact (cs ++ c ∷ []) (push_course c bs)
unfolding push_course
Exact-push_course cs c [] d new h = (
  ground (
    arith,
    filter-snoc (of_request c.request.id) cs c,
    filter-none (of_request c.request.id) cs (new refl),
    eq_refl c.request.id,
  ),
  tt,
)
Exact-push_course cs c ((key, bucket) ∷ rest) (d, e) new (h, k) =
    elim (Bool-cases (key === c.request.id)) [
      | inl same ↦
          let at : key ≡ c.request.id = (eq_iff key c.request.id).0 same in
          rw (same, push_course)
            (
              ground (arith, filter-snoc (of_request key) cs c, eq_iff c.request.id key),
              Exact-other cs c rest (rw at at d) k,
            )
      | inr other ↦
          rw (other, push_course)
            (
              ground (
                arith,
                filter-snoc (of_request key) cs c,
                append_nil (filter (of_request key) cs),
                eq_iff key c.request.id,
                eq_iff c.request.id key,
              ),
              Exact-push_course cs c rest e (λ out. new (ground arith)) k,
            )
    ]

-- The buckets of a list of courses: each request once, with exactly its courses in order.
pub record Grouped (cs : List StuckMaterialCourse) (bs : List (String × List StuckMaterialCourse))
    : Type 0 where
  pub distinct : Distinct (keys bs)
  pub found : (id : String) → includes (keys bs) id ≡ any (of_request id) cs
  pub exact : Exact cs bs

append_assoc :
    (xs : List StuckMaterialCourse) (c : StuckMaterialCourse) (ys : List StuckMaterialCourse)
    → (xs ++ c ∷ []) ++ ys ≡ xs ++ c ∷ ys
append_assoc [] c ys = refl
append_assoc (x ∷ xs) c ys = ap (λ r. x ∷ r) (append_assoc xs c ys)

Grouped-group_into :
    (seen cs : List StuckMaterialCourse) (bs : List (String × List StuckMaterialCourse))
    → Grouped seen bs
    → Grouped (seen ++ cs) (group_into bs cs)
unfolding group_into
Grouped-group_into seen [] bs g = rw (append_nil seen) g
Grouped-group_into seen (c ∷ cs) bs g = rw (← append_assoc seen c cs) (
    Grouped-group_into (seen ++ c ∷ []) cs (push_course c bs) (record {
      distinct = Distinct-push_course c bs g.distinct;
      found = λ id.
          keys-push_course c bs id
          ∙ ap (λ b. b || of_request id c) (g.found id)
          ∙ sym (any-snoc (of_request id) seen c);
      exact =
          Exact-push_course seen c bs g.distinct (λ out. sym (g.found c.request.id) ∙ out) g.exact;
    }))

-- Grouping loses, invents and splits nothing: there is one bucket for each request with a stuck
-- course, and it holds exactly the stuck courses of that request, in the order of the rows.
pub group_into-Grouped : (cs : List StuckMaterialCourse) → Grouped cs (group_into [] cs)
group_into-Grouped cs =
    Grouped-group_into [] cs [] (record { distinct = tt; found = λ id. refl; exact = tt })
