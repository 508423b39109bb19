-- ===== src/Generation/Plan/Quantities.antt =====
-- How the questions of a course are spread over its cells.
use native.Mathlib.Nat.{div-add-mod, mod-lt}
use mathlib.Core.List.{Perm}
use odiseo_new.Common.{
  All-filter, ℕ, zero, suc, ◌+◌, ◌-◌, ◌*◌, ◌/◌, ◌%◌, ◌≤◌, ltb, leb, String, ◌≡◌, refl, ◌∙◌, sym, ap,
  Bool, Option, some, List-cases, inl, inr, List, [], ◌∷◌, ◌++◌, map, filter, length, take, drop,
  concat, sum, All, if◌then◌else◌, arith,
}
use odiseo_new.Common.Http.{ok, >>=-eq-ok}
use odiseo_new.AcademicTime.{Template, TemplateCourse}
use odiseo_new.Syllabus.{Syllabus, Distribution}
use odiseo_new.Generation.Plan.Levels.{levels_pool_lem, length-levels_pool}
use odiseo_new.Generation.{Topic, CourseDistribution, Reads}
use odiseo_new.Generation.Plan.{
  target_quantity, easy_count, medium_count, levels, levels_pool, quantity_at, topics_from,
  topics_of, syllabus_of, cells_of, template_course_of, prepare_course,
}

module _ {ℓ} {A : Type ℓ} where
  take-append-drop : (n : ℕ) (xs : List A) → take n xs ++ drop n xs ≡ xs
  take-append-drop zero xs = refl
  take-append-drop (suc n) [] = refl
  take-append-drop (suc n) (x ∷ xs) = ap (λ r. x ∷ r) (take-append-drop n xs)

  length-take : (n : ℕ) (xs : List A) → n ≤ length xs → length (take n xs) ≡ n
  length-take zero xs h = refl
  length-take (suc n) [] h = omega arith
  length-take (suc n) (x ∷ xs) h = omega (arith, length-take n xs (omega arith))

  length-drop : (n : ℕ) (xs : List A) → length (drop n xs) ≡ length xs - n
  length-drop zero xs = omega arith
  length-drop (suc n) [] = omega arith
  length-drop (suc n) (x ∷ xs) = omega (arith, length-drop n xs)

-- The shares of k cells from an index on.
shares : ℕ → ℕ → ℕ → ℕ → ℕ
shares target n idx zero = 0
shares target n idx (suc k) = quantity_at target n idx + shares target n (suc idx) k

-- What the cells before an index have taken is `idx * base + min idx remainder`.
shares_lem :
    (target n idx k : ℕ)
    → shares target n idx k
      ≡ k * (target / n)
        + ((if leb (idx + k) (target % n) then idx + k else target % n)
            - (if leb idx (target % n) then idx else target % n))
unfolding shares quantity_at
shares_lem target n idx zero = ground arith
shares_lem target n idx (suc k) = grind (arith, shares_lem target n (suc idx) k)

shares_total : (target n : ℕ) → 1 ≤ n → shares target n 0 n ≡ target
shares_total target n h =
    grind (arith, shares_lem target n 0 n, div-add-mod target n, mod-lt target h)

-- A list of topics that spreads a pool of levels over its quantities.
record Spread (base total : ℕ) (pool : List String) (topics : List Topic) : Type 0 where
  quantities : sum (map (λ t. t.quantity) topics) ≡ total
  levels : concat (map (λ t. t.expected_levels) topics) ≡ pool
  sized : All (λ t. length t.expected_levels ≡ t.quantity) topics
  even : All (λ t. (base ≤ t.quantity) × (t.quantity ≤ base + 1)) topics

sum-topics_from :
    (target n idx : ℕ) (pool : List String) (ds : List Distribution)
    → sum (map (λ t. t.quantity) (topics_from target n idx pool ds))
      ≡ shares target n idx (length ds)
unfolding topics_from shares
sum-topics_from target n idx pool [] = refl
sum-topics_from target n idx pool (d ∷ ds) =
    omega (arith, sum-topics_from target n (suc idx) (drop (quantity_at target n idx) pool) ds)

share_even :
    (target n idx : ℕ)
    → (target / n ≤ quantity_at target n idx) × (quantity_at target n idx ≤ target / n + 1)
unfolding quantity_at
share_even target n idx = ground arith

Spread-topics_from :
    (target n idx : ℕ) (pool : List String) (ds : List Distribution)
    → length pool ≡ shares target n idx (length ds)
    → Spread (target / n) (shares target n idx (length ds)) pool (topics_from target n idx pool ds)
unfolding topics_from shares
Spread-topics_from target n idx [] [] h = record {
  quantities = refl;
  levels = refl;
  sized = tt;
  even = tt;
}
Spread-topics_from target n idx (l ∷ ls) [] h = absurd (omega (arith, h))
Spread-topics_from target n idx pool (d ∷ ds) h =
    let q = quantity_at target n idx in
    let rest =
      Spread-topics_from target n (suc idx) (drop q pool) ds (omega (arith, length-drop q pool)) in
    record {
      quantities = omega (arith, rest.quantities);
      levels = ap (λ r. take q pool ++ r) rest.levels ∙ take-append-drop q pool;
      sized = (length-take q pool (omega arith), rest.sized);
      even = (share_even target n idx, rest.even);
    }

-- Topics without questions are left out, which changes neither sum nor levels.
nonempty : Topic → Bool
nonempty t = ltb 0 t.quantity

sum-filter :
    (ts : List Topic)
    → sum (map (λ t. t.quantity) (filter nonempty ts)) ≡ sum (map (λ t. t.quantity) ts)
unfolding nonempty
sum-filter [] = refl
sum-filter (t ∷ ts) = ground (arith, sum-filter ts)

concat-filter :
    (ts : List Topic)
    → All (λ t. length t.expected_levels ≡ t.quantity) ts
    → concat (map (λ t. t.expected_levels) (filter nonempty ts))
      ≡ concat (map (λ t. t.expected_levels) ts)
unfolding nonempty
concat-filter [] h = refl
concat-filter (t ∷ ts) (h, k) = elim (List-cases t.expected_levels) [
  | inl none_left ↦ ground (arith, concat-filter ts k)
  | inr (l, ls, some_left) ↦ ground (arith, concat-filter ts k)
]

Spread-filter :
    (base total : ℕ) (pool : List String) (topics : List Topic)
    → Spread base total pool topics
    → Spread base total pool (filter nonempty topics)
Spread-filter base total pool ts h = record {
  quantities = sum-filter ts ∙ h.quantities;
  levels = concat-filter ts h.sized ∙ h.levels;
  sized = All-filter _ nonempty ts h.sized;
  even = All-filter _ nonempty ts h.even;
}

Spread-topics_of :
    (target : ℕ) (pool : List String) (d : Distribution) (ds : List Distribution)
    → length pool ≡ target
    → Spread (target / length (d ∷ ds)) target pool (topics_of target pool (d ∷ ds))
unfolding topics_of nonempty
Spread-topics_of target pool d ds h =
    let n = length (d ∷ ds) in
    let total : shares target n 0 n ≡ target = shares_total target n (omega arith) in
    let spread = Spread-topics_from target n 0 pool (d ∷ ds) (h ∙ sym total) in
    Spread-filter (target / n) target pool (topics_from target n 0 pool (d ∷ ds))
      (rw total at spread)

-- The topics of a course of n cells.
pub record Shares (tc : Option TemplateCourse) (n : ℕ) (topics : List Topic) : Type 0 where
  pub total : sum (map (λ t. t.quantity) topics) ≡ target_quantity tc
  pub even :
      All
        (λ t. (target_quantity tc / n ≤ t.quantity) × (t.quantity ≤ target_quantity tc / n + 1))
        topics
  pub sized : All (λ t. length t.expected_levels ≡ t.quantity) topics
  pub reordered : Perm (concat (map (λ t. t.expected_levels) topics)) (
      levels
        (easy_count tc)
        (medium_count tc)
        (target_quantity tc - easy_count tc - medium_count tc))

module _ (reads : Reads) where
  -- A course that is not passed over gets its questions in even shares. Its topics together have the
  -- target of its template, 35 questions where it has none; over n cells each topic has target / n
  -- questions or one more, and one expected level for each; and these levels are a reordering of as
  -- many EASY and MEDIUM as the counts say, and HARD for the rest.
  pub prepare_course-Shares :
      (pick : ℕ → ℕ) (used : String → List String) (t : Template) (s : Syllabus) (week : ℕ)
      (course_id : String) (d : CourseDistribution)
      → syllabus_of reads course_id t.cycle_id ≡ some s
      → prepare_course reads pick used t week course_id ≡ ok (some d)
      → Shares (template_course_of reads t course_id) (length (cells_of reads t s week)) d.topics
  unfolding prepare_course
  prepare_course-Shares pick used t s week course_id d found h =
      elim (List-cases (cells_of reads t s week)) [
        | inl none_left ↦ let k = rw (found, none_left, prepare_course) at h in ground arith
        | inr (c, cs, cells) ↦
            let tc = template_course_of reads t course_id in
            let (pool, e, k) =
              >>=-eq-ok (levels_pool pick tc) _ (rw (found, cells, prepare_course) at h) in
            let (fits, p) = levels_pool_lem pick tc pool e in
            let spread =
              Spread-topics_of (target_quantity tc) pool c cs (length-levels_pool pick tc pool e) in
            let topics : topics_of (target_quantity tc) pool (c ∷ cs) ≡ d.topics = ground arith in
            rw (cells, ← topics)
              (record {
                total = spread.quantities;
                even = spread.even;
                sized = spread.sized;
                reordered = rw spread.levels p;
              })
      ]
