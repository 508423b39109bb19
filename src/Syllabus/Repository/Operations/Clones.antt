-- ===== src/Syllabus/Repository/Operations/Clones.antt =====
-- The clones keep the weekly limit.
use odiseo_new.Common.{
  ℕ, suc, String, ◌===◌, ◌≡◌, refl, inl, inr, Option-cases, Bool, Option, none, some, List, [], ◌∷◌,
  arith,
}
use odiseo_new.Common.Http.{ok, >>=-eq-ok}
use odiseo_new.Syllabus.{Syllabus, Distribution, SyllabusDb, World, Env}
use odiseo_new.Syllabus.Repository.{
  distribution_rows, find_by_id, set_template, bulk_delete_distributions, get_summary_by_syllabus,
}
use odiseo_new.Syllabus.Repository.Operations.{
  assert_clone_weekly_limits, cells_to_create, build_template_mapping, TemplateMap, Summary,
  copy_distributions, set_default_template, clone_syllabus, target_id, target_of, clone_each,
  found_or_bad, given_weeks,
}
use odiseo_new.Syllabus.Repository.Operations.Limits.{assert_clone_weekly_limits_sound}
use odiseo_new.Syllabus.Repository.Operations.Cells.{
  IsLimited, same_create_syllabus, week_total-bulk_create, week_total-cleared,
}

module _ (db : SyllabusDb) (env : Env) where
  copy_distributions-IsLimited :
      (id : String) (ds : List Distribution) (active : List ℕ) (same : Bool) (m : TemplateMap)
      (w w' : World db)
      → IsLimited db env w
      → copy_distributions db env id ds active same m (bulk_delete_distributions db env id w)
        ≡ ok w'
      → IsLimited db env w'
  unfolding copy_distributions bulk_delete_distributions
  copy_distributions-IsLimited id ds active same m w w' limited h s week =
      let cells = cells_to_create active same m ds in
      let (_, passed, copied) = >>=-eq-ok (assert_clone_weekly_limits cells) _ h in
      let total =
        week_total-bulk_create db env id cells (bulk_delete_distributions db env id w) w' s week
          copied in
      ground (
        arith,
        rw db.distributions.rows-delete at total,
        week_total-cleared (distribution_rows db env w) id s week,
        assert_clone_weekly_limits_sound cells week passed,
        limited s week,
      )

  same_set_default_template :
      (id : String) (t : Option String) (same : Bool) (m : TemplateMap) (w : World db)
      → (set_default_template db env id t same m w).distributions ≡ w.distributions
  unfolding set_default_template set_template
  same_set_default_template id none same m w = refl
  same_set_default_template id (some t) same m w = ground arith

  pub clone_syllabus-IsLimited :
      (id source_id : String) (weeks : Option (List ℕ)) (w w' : World db) (r : Summary)
      → IsLimited db env w
      → clone_syllabus db env id source_id weeks w ≡ ok (w', r)
      → IsLimited db env w'
  unfolding clone_syllabus
  clone_syllabus-IsLimited id source_id weeks w w' r limited h s week =
      let (target, _, h₁) = >>=-eq-ok (found_or_bad db env (find_by_id db env id w)) _ h in
      let (source, _, h₂) = >>=-eq-ok (found_or_bad db env (find_by_id db env source_id w)) _ h₁ in
      let ds = get_summary_by_syllabus db env source_id none w in
      let active = given_weeks db env weeks (env.get_active_week_numbers target.cycle_id) in
      let same = source.cycle_id === target.cycle_id in
      let (m, _, h₃) = >>=-eq-ok (build_template_mapping env source target ds) _ h₂ in
      let (copied, done, h₄) =
        >>=-eq-ok
          (copy_distributions db env id ds active same m (bulk_delete_distributions db env id w)) _
          h₃ in
      let last = set_default_template db env id source.template_id same m copied in
      let e : last ≡ w' = ground (arith, h₄) in
      rw (← e, same_set_default_template id source.template_id same m copied)
        (copy_distributions-IsLimited id ds active same m w copied limited done s week)

  pub IsLimited-same :
      (w w' : World db)
      → w'.distributions ≡ w.distributions
      → IsLimited db env w
      → IsLimited db env w'
  IsLimited-same w w' e limited s week = rw e (limited s week)

  target_id-IsLimited :
      (cycle_id : String) (existing : List Syllabus) (source : Syllabus) (w w' : World db)
      (id : String)
      → IsLimited db env w
      → target_id db env cycle_id existing source w ≡ ok (w', id)
      → IsLimited db env w'
  unfolding target_id
  target_id-IsLimited cycle_id existing source w w' id limited h =
      elim (Option-cases (target_of db env existing source.course_id)) [
        | inl new ↦
            IsLimited-same w w'
              (same_create_syllabus db env cycle_id source.course_id source.name w w' id
                (rw (new, target_id) at h))
              limited
        | inr (t, old) ↦ let e : w ≡ w' = ground (arith, old, h) in rw (← e) limited
      ]

  pub clone_each-IsLimited :
      (cycle_id : String) (weeks : List ℕ) (existing sources : List Syllabus) (n n' : ℕ)
      (w w' : World db)
      → IsLimited db env w
      → clone_each db env cycle_id weeks existing sources n w ≡ ok (w', n')
      → IsLimited db env w'
  unfolding clone_each
  clone_each-IsLimited cycle_id weeks existing [] n n' w w' limited h =
      let e : w ≡ w' = ground (arith, h) in rw (← e) limited
  clone_each-IsLimited cycle_id weeks existing (source ∷ sources) n n' w w' limited h =
      let ((w₁, id), placed, h₁) = >>=-eq-ok (target_id db env cycle_id existing source w) _ h in
      let ((w₂, r), copied, h₂) =
        >>=-eq-ok (clone_syllabus db env id source.id (some weeks) w₁) _ h₁ in
      clone_each-IsLimited cycle_id weeks existing sources (suc n) n' w₂ w'
        (clone_syllabus-IsLimited id source.id (some weeks) w₁ w₂ r
          (target_id-IsLimited cycle_id existing source w w₁ id limited placed) copied)
        h₂
