-- ===== src/Syllabus/Repository/Operations/Limits.antt =====
-- The weekly limit over the rows of the table, and over the batch of a clone.
use odiseo_new.Common.{
  ℕ, ◌+◌, ◌≤◌, ◌==◌, ==_iff, ltb, String, ◌===◌, eq_iff, ◌≡◌, refl, inl, inr, Bool-cases, Bool,
  false, ◌&&◌, none, some, List, [], ◌∷◌, ◌++◌, length, map, filter, find?, any, if◌then◌else◌,
  arith,
}
use odiseo_new.Common.Http.{ok}
use odiseo_new.Database.{updated}
use odiseo_new.Syllabus.{Distribution, Cell}
use odiseo_new.Syllabus.Repository.{counted, sum_counts}
use odiseo_new.Syllabus.Repository.Operations.{
  weekly_question_limit, add_to, week_sums, assert_clone_weekly_limits,
}
use odiseo_new.Syllabus.Repository.Operations.Totals.{value_of, value_of-add_to}

-- The questions of a week in a batch of cells.
abbrev pub cells_of_week : ℕ → List Cell → ℕ
cells_of_week week [] = 0
cells_of_week week (c ∷ cells) =
    if c.week_number == week
    then c.question_count + cells_of_week week cells
    else cells_of_week week cells

value_of-week_sums :
    (cells : List Cell) (sums : List (ℕ × ℕ)) (week : ℕ)
    → value_of (λ a b. a == b) week (week_sums cells sums)
      ≡ value_of (λ a b. a == b) week sums + cells_of_week week cells
unfolding week_sums
value_of-week_sums [] sums week = omega arith
value_of-week_sums (c ∷ cells) sums week = ground (
  arith,
  value_of-week_sums cells (add_to (λ a b. a == b) c.week_number c.question_count sums) week,
  value_of-add_to (λ a b. a == b) ==_iff c.week_number week c.question_count sums,
)

value_of-bounded :
    (sums : List (ℕ × ℕ)) (week : ℕ)
    → any (λ e. ltb weekly_question_limit e.1) sums ≡ false
    → value_of (λ a b. a == b) week sums ≤ weekly_question_limit
value_of-bounded [] week h = omega arith
value_of-bounded ((k, m) ∷ sums) week h = ground (arith, value_of-bounded sums week)

-- A batch that passes has no week over the limit.
pub assert_clone_weekly_limits_sound :
    (cells : List Cell) (week : ℕ)
    → assert_clone_weekly_limits cells ≡ ok tt
    → cells_of_week week cells ≤ weekly_question_limit
unfolding assert_clone_weekly_limits
assert_clone_weekly_limits_sound cells week h =
    let sums = week_sums cells [] in
    elim (Bool-cases (any (λ e. ltb weekly_question_limit e.1) sums)) [
      | inl over ↦ cc (over, h)
      | inr within ↦
          omega (arith, value_of-bounded sums week within, value_of-week_sums cells [] week)
    ]

-- The questions that a week of a syllabus has.
abbrev pub week_total : String → ℕ → List Distribution → ℕ
week_total s week rows = sum_counts (counted s week none) rows

pub sum_counts-append :
    (p : Distribution → Bool) (xs ys : List Distribution)
    → sum_counts p (xs ++ ys) ≡ sum_counts p xs + sum_counts p ys
unfolding sum_counts
sum_counts-append p [] ys = omega arith
sum_counts-append p (d ∷ xs) ys = ground (arith, sum_counts-append p xs ys)

pub sum_counts-filter-le :
    (p q : Distribution → Bool) (rows : List Distribution)
    → sum_counts p (filter q rows) ≤ sum_counts p rows
unfolding sum_counts
sum_counts-filter-le p q [] = omega arith
sum_counts-filter-le p q (d ∷ rows) = ground (arith, sum_counts-filter-le p q rows)

-- How many rows have an id: at most one, where the id is the key.
abbrev pub rows_with : String → List Distribution → ℕ
rows_with id rows = length (filter (λ d. d.id === id) rows)

-- Without a row of the id an update does nothing, and nothing is excluded.
untouched :
    (rows : List Distribution) (id s s' : String) (n week : ℕ)
    → rows_with id rows ≡ 0
    → (week_total s week (
          map
            (updated
              (λ d. d.id === id && d.syllabus_id === s')
              (λ d. record d { question_count = n }))
            rows)
        ≡ week_total s week rows)
      × (sum_counts (counted s week (some id)) rows ≡ week_total s week rows)
unfolding sum_counts
untouched [] id s s' n week h = (refl, refl)
untouched (d ∷ rows) id s s' n week h = ground (arith, untouched rows id s s' n week)

-- What a week has after the row of an id gets a new quantity.
pub week_total-updated :
    (rows : List Distribution) (id s s' : String) (n week : ℕ) (d : Distribution)
    → find? (λ x. x.id === id && x.syllabus_id === s') rows ≡ some d
    → rows_with id rows ≤ 1
    → week_total s week (
        map
          (updated
            (λ x. x.id === id && x.syllabus_id === s')
            (λ x. record x { question_count = n }))
          rows)
      ≡ (if s' === s && d.week_number == week
          then sum_counts (counted s week (some id)) rows + n
          else week_total s week rows)
unfolding sum_counts
week_total-updated [] id s s' n week d found key = cc
week_total-updated (r ∷ rows) id s s' n week d found key = ground (
  arith,
  week_total-updated rows id s s' n week d,
  untouched rows id s s' n week,
  eq_iff r.syllabus_id s',
  eq_iff r.syllabus_id s,
  eq_iff s' s,
)
