-- ===== src/AcademicTime/UseCase/Weeks.antt =====
-- The weeks that a cycle is given, and the courses of a template.
use odiseo_new.Common.{
  ℕ, zero, suc, ◌+◌, ◌==◌, ==_iff, String, ◌≡◌, refl, ap, inl, inr, Bool-cases, Option, none, some,
  All, List, [], ◌∷◌, map, find?, arith,
}
use odiseo_new.Common.Http.{ok, >>=-eq-ok, ok-inj}
use odiseo_new.AcademicTime.{Week, TemplateCourse, Env}
use odiseo_new.AcademicTime.UseCase.{
  CourseDto, or_else, week_at, ids_used, plan_weeks, validate_and_map_courses,
}

-- The numbers from i on.
abbrev numbers_from : ℕ → ℕ → List ℕ
numbers_from i zero = []
numbers_from i (suc k) = i ∷ numbers_from (suc i) k

-- What a planned week takes over from the week of its number.
abbrev pub TakesOver : Week → Option Week → Type 0
TakesOver x none = Unit
TakesOver x (some w) = (x.id ≡ w.id) × (x.is_active ≡ w.is_active)

TakesOver-week_at :
    (env : Env) (cycle_id : String) (start : env.Day) (days i : ℕ) (fresh : String)
    (old : Option Week)
    → TakesOver (week_at env cycle_id start days i fresh old) old
unfolding week_at
TakesOver-week_at env cycle_id start days i fresh none = tt
TakesOver-week_at env cycle_id start days i fresh (some w) = (refl, refl)

-- A plan of k weeks from number i on has exactly these numbers in order, and each week whose number
-- is there already keeps that week's id and whether it is active.
pub plan_weeks_lem :
    (env : Env) (cycle_id : String) (start : env.Day) (days : ℕ) (existing : List Week) (k i n : ℕ)
    → let planned = (plan_weeks env cycle_id start days existing k i n).0 in
      (map (λ x. x.week_number) planned ≡ numbers_from i k)
      × All (λ x. TakesOver x (find? (λ w. w.week_number == x.week_number) existing)) planned
unfolding plan_weeks week_at
plan_weeks_lem env cycle_id start days existing zero i n = (refl, tt)
plan_weeks_lem env cycle_id start days existing (suc k) i n =
    let old = find? (λ w. w.week_number == i) existing in
    let (numbers, kept) =
      plan_weeks_lem env cycle_id start days existing k (suc i) (ids_used old n) in
    (
      ap (λ rest. i ∷ rest) numbers,
      (TakesOver-week_at env cycle_id start days i (env.uuid n) old, kept),
    )

-- Accepted courses of a template add up: the easy, medium and hard questions of each make its total.
pub validate_and_map_courses_sums :
    (env : Env) (template_id : String) (n : ℕ) (courses : List CourseDto)
    (rows : List TemplateCourse)
    → validate_and_map_courses env template_id n courses ≡ ok rows
    → All (λ r. r.easy_count + r.medium_count + r.hard_count ≡ r.questions_quantity) rows
unfolding validate_and_map_courses
validate_and_map_courses_sums env template_id n [] rows h =
    let e : [] ≡ rows = ground (arith, h) in rw (← e) tt
validate_and_map_courses_sums env template_id n (c ∷ cs) rows h =
    let easy = or_else c.easy_count 0 in
    let medium = or_else c.medium_count 0 in
    let hard = or_else c.hard_count 0 in
    elim (Bool-cases (easy + medium + hard == c.questions_quantity)) [
      | inr wrong ↦ cc (rw wrong at h)
      | inl right ↦
          let (rest, mapped, done) =
            >>=-eq-ok (validate_and_map_courses env template_id (suc n) cs) _ (rw right at h) in
          rw (← ok-inj done) (
            (==_iff (easy + medium + hard) c.questions_quantity).0 right,
            validate_and_map_courses_sums env template_id (suc n) cs rest mapped,
          )
    ]
