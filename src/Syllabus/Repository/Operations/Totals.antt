-- ===== src/Syllabus/Repository/Operations/Totals.antt =====
-- The counters of the summary: what is stored under a key, and what the counters add up to.
use odiseo_new.Common.{
  ℕ, ◌+◌, ◌==◌, ==_iff, String, ◌===◌, eq_iff, ◌≡◌, ◌↔◌, filter, Bool, true, List, [], ◌∷◌,
  if◌then◌else◌, arith,
}
use odiseo_new.Syllabus.{Distribution}
use odiseo_new.Syllabus.Repository.Operations.{
  Summary, add_to, count_distribution, count_all, summary_of, distinct_weeks,
}

-- What is stored under a key, or 0.
abbrev pub value_of {ℓ} : {K : Type ℓ} → (K → K → Bool) → K → List (K × ℕ) → ℕ
value_of same key [] = 0
value_of same key ((k, m) ∷ sums) = if same k key then m else value_of same key sums

abbrev pub sum_values {ℓ} : {K : Type ℓ} → List (K × ℕ) → ℕ
sum_values [] = 0
sum_values ((k, m) ∷ sums) = m + sum_values sums

-- The questions of the distributions that pass a test.
abbrev questions_of : (Distribution → Bool) → List Distribution → ℕ
questions_of p [] = 0
questions_of p (d ∷ ds) = if p d then d.question_count + questions_of p ds else questions_of p ds

module _ {ℓ} {K : Type ℓ} (same : K → K → Bool) where
  sum_values-add_to :
      (key : K) (n : ℕ) (sums : List (K × ℕ))
      → sum_values (add_to same key n sums) ≡ sum_values sums + n
  unfolding add_to
  sum_values-add_to key n [] = omega arith
  sum_values-add_to key n ((k, m) ∷ sums) = ground (arith, sum_values-add_to key n sums)

  pub value_of-add_to :
      (same_iff : (a b : K) → (same a b ≡ true) ↔ (a ≡ b)) (key other : K) (n : ℕ)
      (sums : List (K × ℕ))
      → value_of same other (add_to same key n sums)
        ≡ (if same key other then value_of same other sums + n else value_of same other sums)
  unfolding add_to
  value_of-add_to same_iff key other n [] = ground arith
  value_of-add_to same_iff key other n ((k, m) ∷ sums) = ground (
    arith,
    value_of-add_to same_iff key other n sums,
    same_iff k key,
    same_iff k other,
    same_iff key other,
  )

count_all-totals :
    (ds : List Distribution) (s : Summary)
    → let r = count_all ds s in
      (r.total_questions ≡ s.total_questions + questions_of (λ d. true) ds)
      × (sum_values r.weekly_questions
          ≡ sum_values s.weekly_questions + questions_of (λ d. true) ds)
      × (sum_values r.topic_questions ≡ sum_values s.topic_questions + questions_of (λ d. true) ds)
unfolding count_all count_distribution
count_all-totals [] s = ground arith
count_all-totals (d ∷ ds) s = ground (
  arith,
  count_all-totals ds (count_distribution d s),
  sum_values-add_to (λ a b. a == b) d.week_number d.question_count s.weekly_questions,
  sum_values-add_to (λ a b. a === b) d.topic_id d.question_count s.topic_questions,
)

count_all-entries :
    (ds : List Distribution) (s : Summary) (week : ℕ) (topic : String)
    → let r = count_all ds s in
      (value_of (λ a b. a == b) week r.weekly_questions
        ≡ value_of (λ a b. a == b) week s.weekly_questions
          + questions_of (λ d. d.week_number == week) ds)
      × (value_of (λ a b. a === b) topic r.topic_questions
          ≡ value_of (λ a b. a === b) topic s.topic_questions
            + questions_of (λ d. d.topic_id === topic) ds)
unfolding count_all count_distribution
count_all-entries [] s week topic = ground arith
count_all-entries (d ∷ ds) s week topic = ground (
  arith,
  count_all-entries ds (count_distribution d s) week topic,
  value_of-add_to (λ a b. a == b) ==_iff d.week_number week d.question_count s.weekly_questions,
  value_of-add_to (λ a b. a === b) eq_iff d.topic_id topic d.question_count s.topic_questions,
)

-- The counters of a summary agree with the distributions and with each other: each week and each
-- topic has the sum of its question counts, and the weeks and the topics each add up to the total.
pub summary_of_counts :
    (ds all : List Distribution) (week : ℕ) (topic : String)
    → let r = summary_of ds all in
      (value_of (λ a b. a == b) week r.weekly_questions
        ≡ questions_of (λ d. d.week_number == week) ds)
      × (value_of (λ a b. a === b) topic r.topic_questions
          ≡ questions_of (λ d. d.topic_id === topic) ds)
      × (sum_values r.weekly_questions ≡ r.total_questions)
      × (sum_values r.topic_questions ≡ r.total_questions)
summary_of_counts ds all week topic =
    let start : Summary = record {
      total_questions = 0;
      weekly_questions = [];
      topic_questions = [];
      distributions = ds;
      generated_weeks = distinct_weeks (filter (λ d. d.is_generated) all);
    } in
    let (a, b, c) = count_all-totals ds start in
    let (e, f) = count_all-entries ds start week topic in
    (omega (arith, e), omega (arith, f), omega (arith, a, b), omega (arith, a, c))
