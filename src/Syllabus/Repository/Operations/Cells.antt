-- ===== src/Syllabus/Repository/Operations/Cells.antt =====
-- The writes of cells keep the weekly limit.
use odiseo_new.Common.{
  ℕ, suc, ◌+◌, ◌≤◌, ◌==◌, ==_iff, String, ◌===◌, eq_iff, ◌≡◌, refl, inl, inr, Bool-cases,
  Option-cases, Bool, true, false, not, ◌&&◌, none, some, List, [], ◌∷◌, map, filter, find?, any,
  if◌then◌else◌, arith,
}
use odiseo_new.Common.Http.{ok}
use odiseo_new.Database.{updated}
use odiseo_new.Database.Rows.{find?-test}
use odiseo_new.Syllabus.{Distribution, SyllabusDb, World, Env, Cell}
use odiseo_new.Syllabus.Repository.{
  is_cell, row_of, counted, sum_counts, distribution_rows, create_syllabus, create_distribution,
  put_distribution, sum_week_question_count, update_quantity, delete_distribution,
  bulk_create_distributions,
}
use odiseo_new.Syllabus.Repository.Operations.{weekly_question_limit, over_limit}
use odiseo_new.Syllabus.Repository.Operations.Limits.{
  week_total, cells_of_week, rows_with, sum_counts-append, sum_counts-filter-le, week_total-updated,
}

week_total-row :
    (id syllabus_id : String) (c : Cell) (s : String) (week : ℕ)
    → week_total s week (row_of id syllabus_id c ∷ [])
      ≡ (if syllabus_id === s && c.week_number == week then c.question_count else 0)
unfolding sum_counts row_of
week_total-row id syllabus_id c s week = ground arith

-- Without a row of the id a replacement does nothing.
replaced_none :
    (rows : List Distribution) (e : Distribution) (n : ℕ) (s : String) (week : ℕ)
    → rows_with e.id rows ≡ 0
    → week_total s week
        (map (updated (λ d. d.id === e.id) (λ d. record e { question_count = n })) rows)
      ≡ week_total s week rows
unfolding sum_counts
replaced_none [] e n s week h = refl
replaced_none (r ∷ rows) e n s week h = ground (arith, replaced_none rows e n s week)

-- Overwriting the row of an id adds no more than the new quantity, in the row's own week.
week_total-replaced :
    (rows : List Distribution) (e : Distribution) (n : ℕ) (s : String) (week : ℕ)
    → rows_with e.id rows ≤ 1
    → week_total s week
        (map (updated (λ d. d.id === e.id) (λ d. record e { question_count = n })) rows)
      ≤ week_total s week rows + (if counted s week none e then n else 0)
unfolding sum_counts
week_total-replaced [] e n s week h = ground arith
week_total-replaced (r ∷ rows) e n s week h =
    ground (arith, week_total-replaced rows e n s week, replaced_none rows e n s week)

find?-any :
    (p : Distribution → Bool) (rows : List Distribution)
    → any p rows ≡ true
    → (d : Distribution) × (find? p rows ≡ some d)
find?-any p [] h = cc
find?-any p (r ∷ rows) h = elim (Bool-cases (p r)) [
  | inl here ↦ (r, rw (here, find?) refl)
  | inr later ↦ let (d, e) = find?-any p rows (rw later at h) in (d, rw (later, find?) e)
]

-- What the deletion of a syllabus's rows leaves.
pub week_total-cleared :
    (rows : List Distribution) (id s : String) (week : ℕ)
    → week_total s week (filter (λ d. not (d.syllabus_id === id)) rows)
      ≡ (if id === s then 0 else week_total s week rows)
unfolding sum_counts
week_total-cleared [] id s week = ground arith
week_total-cleared (r ∷ rows) id s week = ground (
  arith,
  week_total-cleared rows id s week,
  eq_iff r.syllabus_id id,
  eq_iff r.syllabus_id s,
  eq_iff id s,
)

module _ (db : SyllabusDb) (env : Env) where
  -- No week of a syllabus has more than the limit.
  abbrev pub IsLimited : World db → Type 0
  IsLimited w =
      (s : String) (week : ℕ)
      → week_total s week (distribution_rows db env w) ≤ weekly_question_limit

  -- The id is the primary key.
  abbrev pub HasKey : World db → Type 0
  HasKey w = (id : String) → rows_with id (distribution_rows db env w) ≤ 1

  pub same_create_syllabus :
      (cycle_id course_id name : String) (w w' : World db) (id : String)
      → create_syllabus db env cycle_id course_id name w ≡ ok (w', id)
      → w'.distributions ≡ w.distributions
  unfolding create_syllabus
  same_create_syllabus cycle_id course_id name w w' id h = ground (arith, h)

  put_distribution-IsLimited :
      (syllabus_id : String) (c : Cell) (w : World db)
      → HasKey w
      → IsLimited w
      → sum_week_question_count db env syllabus_id c.week_number none w + c.question_count
        ≤ weekly_question_limit
      → IsLimited (put_distribution db env syllabus_id c w)
  unfolding put_distribution is_cell
  put_distribution-IsLimited syllabus_id c w key limited room s week =
      let rows = distribution_rows db env w in
      elim (Option-cases (find? (is_cell syllabus_id c) rows)) [
        | inl absent ↦
            let row = row_of (env.uuid w.created) syllabus_id c in
            rw (absent, put_distribution)
              (rw db.distributions.rows-insert (
                ground (
                  arith,
                  room,
                  limited s week,
                  sum_counts-append (counted s week none) rows (row ∷ []),
                  week_total-row (env.uuid w.created) syllabus_id c s week,
                  eq_iff syllabus_id s,
                  ==_iff c.week_number week,
                )))
        | inr (e, present) ↦
            rw (present, put_distribution)
              (rw db.distributions.rows-update (
                ground (
                  arith,
                  room,
                  limited s week,
                  key e.id,
                  find?-test (is_cell syllabus_id c) rows {x = e} present,
                  week_total-replaced rows e c.question_count s week (key e.id),
                  eq_iff e.syllabus_id syllabus_id,
                  eq_iff e.syllabus_id s,
                  ==_iff e.week_number c.week_number,
                  ==_iff e.week_number week,
                )))
      ]

  pub create_distribution-IsLimited :
      (syllabus_id : String) (c : Cell) (w w' : World db)
      → HasKey w
      → IsLimited w
      → sum_week_question_count db env syllabus_id c.week_number none w + c.question_count
        ≤ weekly_question_limit
      → create_distribution db env syllabus_id c w ≡ ok w'
      → IsLimited w'
  unfolding create_distribution
  create_distribution-IsLimited syllabus_id c w w' key limited room h =
      let e : put_distribution db env syllabus_id c w ≡ w' = ground (arith, h) in
      rw (← e) (put_distribution-IsLimited syllabus_id c w key limited room)

  pub update_quantity-IsLimited :
      (id syllabus_id : String) (n : ℕ) (w w' : World db)
      → HasKey w
      → IsLimited w
      → over_limit db env (λ x. x) id syllabus_id n w ≡ false
      → update_quantity db env id syllabus_id n w ≡ ok w'
      → IsLimited w'
  unfolding update_quantity
  update_quantity-IsLimited id syllabus_id n w w' key limited within h s week =
      let rows = distribution_rows db env w in
      let mine : Distribution → Bool = λ d. d.id === id && d.syllabus_id === syllabus_id in
      elim (Bool-cases (any mine rows)) [
        | inr none_there ↦ cc (none_there, h)
        | inl there ↦
            let (d, found) = find?-any mine rows there in
            let e : record w {
              distributions =
                  db.distributions.update mine (λ x. record x { question_count = n })
                    w.distributions;
            }
                ≡ w' =
              ground (arith, there, h) in
            rw (← e, db.distributions.rows-update)
              (ground (
                arith,
                found,
                within,
                limited s week,
                limited syllabus_id d.week_number,
                week_total-updated rows id s syllabus_id n week d found (key id),
                eq_iff syllabus_id s,
                ==_iff d.week_number week,
              ))
      ]

  pub delete_distribution-IsLimited :
      (id syllabus_id : String) (w w' : World db)
      → IsLimited w
      → delete_distribution db env id syllabus_id w ≡ ok w'
      → IsLimited w'
  unfolding delete_distribution
  delete_distribution-IsLimited id syllabus_id w w' limited h s week =
      let rows = distribution_rows db env w in
      let mine : Distribution → Bool = λ d. d.id === id && d.syllabus_id === syllabus_id in
      let e : record w { distributions = db.distributions.delete mine w.distributions } ≡ w' =
        ground (arith, h) in
      rw (← e, db.distributions.rows-delete)
        (omega (
          arith,
          limited s week,
          sum_counts-filter-le (counted s week none) (λ d. not (mine d)) rows,
        ))

  pub week_total-bulk_create :
      (syllabus_id : String) (cells : List Cell) (w w' : World db) (s : String) (week : ℕ)
      → bulk_create_distributions db env syllabus_id cells w ≡ ok w'
      → week_total s week (distribution_rows db env w')
        ≡ week_total s week (distribution_rows db env w)
          + (if syllabus_id === s then cells_of_week week cells else 0)
  unfolding bulk_create_distributions
  week_total-bulk_create syllabus_id [] w w' s week h =
      let e : w ≡ w' = ground (arith, h) in rw (← e) (ground arith)
  week_total-bulk_create syllabus_id (c ∷ cells) w w' s week h =
      let rows = distribution_rows db env w in
      let row = row_of (env.uuid w.created) syllabus_id c in
      let next : World db = record w {
        distributions = db.distributions.insert (row ∷ []) w.distributions;
        created = suc w.created;
      } in
      elim (Bool-cases (any (is_cell syllabus_id c) rows)) [
        | inl there ↦ cc (there, h)
        | inr absent ↦
            let rest =
              week_total-bulk_create syllabus_id cells next w' s week
                (rw (absent, bulk_create_distributions) at h) in
            ground (
              arith,
              rw db.distributions.rows-insert at rest,
              sum_counts-append (counted s week none) rows (row ∷ []),
              week_total-row (env.uuid w.created) syllabus_id c s week,
            )
      ]
