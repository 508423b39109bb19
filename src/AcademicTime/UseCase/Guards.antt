-- ===== src/AcademicTime/UseCase/Guards.antt =====
-- What an update and a deletion are refused for, and what a deletion leaves.
use odiseo_new.Common.{
  ==_iff, String, ◌===◌, eq_iff, ◌≡◌, ◌↔◌, refl, ap, inl, inr, Bool, Bool-cases, true, false, not,
  ◌&&◌, some, none, List, [], ◌∷◌, ◌++◌, List-cases, map, filter, find?, any, arith,
}
use odiseo_new.Common.Http.{ok, err, not_found}
use odiseo_new.Database.{updated}
use odiseo_new.AcademicTime.{Cycle, Week, Template, TimeDb, World, Env}
use odiseo_new.AcademicTime.UseCase.{
  UpdateCycleDto, needs_recalculation, updated_cycle, cycle_with, weeks_of_cycle, write_cycle,
  update_cycle, templates_of, cycle_in_use, soft_delete_cycle, delete_cycle, is_owned,
  template_in_use, delete_template, remove_template,
}

module _ (f : Cycle → Cycle) (keeps : (c : Cycle) → (f c).id ≡ c.id)
    (lives : (c : Cycle) → (f c).deleted ≡ c.deleted) where
  -- The live row of the id after an update of the rows of that id.
  find?-updated_live :
      (id : String) (cs : List Cycle) (c : Cycle)
      → find? (λ x. x.id === id && not x.deleted) cs ≡ some c
      → find? (λ x. x.id === id && not x.deleted) (map (updated (λ x. x.id === id) f) cs)
        ≡ some (f c)
  find?-updated_live id [] c h = cc
  find?-updated_live id (x ∷ cs) c h = ground (arith, keeps x, lives x, find?-updated_live id cs c)

none_live :
    (id : String) (cs : List Cycle)
    → find?
        (λ x. x.id === id && not x.deleted)
        (map (updated (λ x. x.id === id && not x.deleted) (λ x. record x { deleted = true })) cs)
      ≡ none
none_live id [] = refl
none_live id (c ∷ cs) = ground (arith, none_live id cs)

no_live_weeks :
    (id : String) (xs : List Week)
    → filter
        (λ x. x.cycle_id === id && not x.deleted)
        (map
          (updated (λ x. x.cycle_id === id && not x.deleted) (λ x. record x { deleted = true }))
          xs)
      ≡ []
no_live_weeks id [] = refl
no_live_weeks id (x ∷ xs) = ground (arith, no_live_weeks id xs)

other_cycles :
    (id : String) (cs : List Cycle)
    → filter
        (λ x. not (x.id === id))
        (map (updated (λ x. x.id === id && not x.deleted) (λ x. record x { deleted = true })) cs)
      ≡ filter (λ x. not (x.id === id)) cs
other_cycles id [] = refl
other_cycles id (c ∷ cs) = ground (arith, other_cycles id cs)

other_weeks :
    (id : String) (xs : List Week)
    → filter
        (λ x. not (x.cycle_id === id))
        (map
          (updated (λ x. x.cycle_id === id && not x.deleted) (λ x. record x { deleted = true }))
          xs)
      ≡ filter (λ x. not (x.cycle_id === id)) xs
other_weeks id [] = refl
other_weeks id (x ∷ xs) = ground (arith, other_weeks id xs)

-- The list has a template of this id that is one of this cycle.
abbrev pub Owned : String → String → List Template → Type 0
Owned id cycle_id ts =
    (before after : List Template) × (t : Template) × (ts ≡ before ++ t ∷ after)
    × (t.id ≡ id)
    × (t.cycle_id ≡ cycle_id)

abbrev owned : String → String → Template → Bool
owned id cycle_id t = t.id === id && t.cycle_id === cycle_id

owned_found :
    (id cycle_id : String) (ts : List Template)
    → any (owned id cycle_id) ts ≡ true
    → Owned id cycle_id ts
owned_found id cycle_id [] h = cc
owned_found id cycle_id (t ∷ ts) h = elim (Bool-cases (owned id cycle_id t)) [
  | inl here ↦
      ([], ts, t, refl, ground (arith, eq_iff t.id id), ground (arith, eq_iff t.cycle_id cycle_id))
  | inr later ↦
      let (before, after, u, e, f, g) = owned_found id cycle_id ts (ground arith) in
      (t ∷ before, after, u, ap (λ us. t ∷ us) e, f, g)
]

any-middle :
    (p : Template → Bool) (before after : List Template) (t : Template)
    → p t ≡ true
    → any p (before ++ t ∷ after) ≡ true
any-middle p [] after t h = ground arith
any-middle p (x ∷ before) after t h = ground (arith, any-middle p before after t h)

any-owned_iff :
    (id cycle_id : String) (ts : List Template)
    → (any (owned id cycle_id) ts ≡ true) ↔ Owned id cycle_id ts
any-owned_iff id cycle_id ts = (
  owned_found id cycle_id ts,
  λ (before, after, t, e, f, g). rw e (
      any-middle (owned id cycle_id) before after t
        (ground (arith, eq_iff t.id id, eq_iff t.cycle_id cycle_id))),
)

module _ (db : TimeDb) (env : Env) where
  write_cycle_kept :
      (id : String) (dto : UpdateCycleDto) (c : Cycle) (w w' : World db)
      → cycle_with db env id w ≡ some c
      → needs_recalculation env dto c ≡ false
      → write_cycle db env id dto c w ≡ ok w'
      → (w'.weeks ≡ w.weeks)
        × (c' : Cycle) × (cycle_with db env id w' ≡ some c')
        × (c'.days_per_week ≡ c.days_per_week)
        × (c'.total_weeks ≡ c.total_weeks)
  unfolding write_cycle needs_recalculation updated_cycle
  write_cycle_kept id dto c w w' found same h =
      let cycles = db.cycles.update (λ x. x.id === id) (updated_cycle env dto) w.cycles in
      let e : record w { cycles = cycles } ≡ w' = ground (arith, same, h) in
      rw (← e) (
        refl,
        updated_cycle env dto c,
        rw db.cycles.rows-update (
            find?-updated_live (updated_cycle env dto) (λ x. refl) (λ x. refl) id
              (db.cycles.rows w.cycles) c found),
        ground (arith, same, ==_iff c.days_per_week (updated_cycle env dto c).days_per_week),
        ground (arith, same, ==_iff c.total_weeks (updated_cycle env dto c).total_weeks),
      )

  -- While active syllabuses use a cycle, a successful update leaves all weeks as they are, and the
  -- stored cycle has as many days a week and as many weeks as before.
  pub update_cycle_frozen :
      (id : String) (dto : UpdateCycleDto) (c : Cycle) (w w' : World db)
      → cycle_with db env id w ≡ some c
      → env.has_syllabus id ≡ some true
      → update_cycle db env id dto w ≡ ok w'
      → (w'.weeks ≡ w.weeks)
        × (c' : Cycle) × (cycle_with db env id w' ≡ some c')
        × (c'.days_per_week ≡ c.days_per_week)
        × (c'.total_weeks ≡ c.total_weeks)
  unfolding update_cycle
  update_cycle_frozen id dto c w w' found used h =
      elim (Bool-cases (needs_recalculation env dto c)) [
        | inl changed ↦ absurd (cc (rw (found, used, changed) at h))
        | inr same ↦ write_cycle_kept id dto c w w' found same (rw (found, used, same) at h)
      ]

  -- What the deletion of a cycle leaves: the cycle and its weeks are not found any more, the rows of
  -- other cycles and their weeks, the templates and the courses are as they were.
  pub record Deleted (id : String) (w w' : World db) : Type 0 where
    pub cycle : cycle_with db env id w' ≡ none
    pub weeks : weeks_of_cycle db env id w' ≡ []
    pub others :
        filter (λ c. not (c.id === id)) (db.cycles.rows w'.cycles)
        ≡ filter (λ c. not (c.id === id)) (db.cycles.rows w.cycles)
    pub other_weeks :
        filter (λ x. not (x.cycle_id === id)) (db.weeks.rows w'.weeks)
        ≡ filter (λ x. not (x.cycle_id === id)) (db.weeks.rows w.weeks)
    pub templates : w'.templates ≡ w.templates
    pub courses : w'.courses ≡ w.courses

  soft_delete_cycle-Deleted :
      (id : String) (w : World db) → Deleted id w (soft_delete_cycle db env id w)
  unfolding soft_delete_cycle
  soft_delete_cycle-Deleted id w = record {
    cycle = rw db.cycles.rows-update (none_live id (db.cycles.rows w.cycles));
    weeks = rw db.weeks.rows-update (no_live_weeks id (db.weeks.rows w.weeks));
    others = rw db.cycles.rows-update (other_cycles id (db.cycles.rows w.cycles));
    other_weeks = rw db.weeks.rows-update (other_weeks id (db.weeks.rows w.weeks));
    templates = refl;
    courses = refl;
  }

  cycle_in_use_iff :
      (id : String) (w : World db)
      → (cycle_in_use db env id w ≡ false) ↔ (
          (templates_of db env id w ≡ [])
          × ((env.cycle_usage id).syllabus ≡ 0)
          × ((env.cycle_usage id).materials ≡ 0)
          × ((env.cycle_usage id).material_requests ≡ 0))
  unfolding cycle_in_use
  cycle_in_use_iff id w = elim (List-cases (templates_of db env id w)) [
    | inl none_there ↦ ground (arith, none_there)
    | inr (t, rest, there) ↦ ground (arith, there)
  ]

  -- A cycle is deleted exactly if nothing is counted that refers to it: no template, no syllabus, no
  -- material and no request. A deletion leaves neither the cycle nor any of its weeks to be found,
  -- and every other cycle, its weeks and all templates as they were.
  pub delete_cycle_iff :
      (id : String) (w : World db)
      → ((w' : World db) × (delete_cycle db env id w ≡ ok w') × Deleted id w w') ↔ (
          (templates_of db env id w ≡ [])
          × ((env.cycle_usage id).syllabus ≡ 0)
          × ((env.cycle_usage id).materials ≡ 0)
          × ((env.cycle_usage id).material_requests ≡ 0))
  unfolding delete_cycle
  delete_cycle_iff id w = elim (Bool-cases (cycle_in_use db env id w)) [
    | inl used ↦ (
      λ (w', e, d). absurd (cc (rw used at e)),
      λ free. absurd (cc ((cycle_in_use_iff id w).1 free, used)),
    )
    | inr free ↦ (
      λ d. (cycle_in_use_iff id w).0 free,
      λ _. (soft_delete_cycle db env id w, rw free refl, soft_delete_cycle-Deleted id w),
    )
  ]

  -- What the deletion of a template leaves: all templates but that one, and the courses of the
  -- others; cycles and weeks as they were.
  pub record Removed (id : String) (w w' : World db) : Type 0 where
    pub templates :
        db.templates.rows w'.templates
        ≡ filter (λ t. not (t.id === id)) (db.templates.rows w.templates)
    pub courses :
        db.courses.rows w'.courses
        ≡ filter (λ c. not (c.template_id === id)) (db.courses.rows w.courses)
    pub cycles : w'.cycles ≡ w.cycles
    pub weeks : w'.weeks ≡ w.weeks

  remove_template-Removed :
      (id : String) (w : World db) → Removed id w (remove_template db env id w)
  unfolding remove_template
  remove_template-Removed id w = record {
    templates = db.templates.rows-delete (λ t. t.id === id) w.templates;
    courses = db.courses.rows-delete (λ c. c.template_id === id) w.courses;
    cycles = refl;
    weeks = refl;
  }

  template_in_use_iff :
      (id : String)
      → (template_in_use db env id ≡ false) ↔ (
          ((env.template_usage id).syllabus ≡ 0)
          × ((env.template_usage id).syllabus_distribution ≡ 0)
          × ((env.template_usage id).material_requests ≡ 0)
          × ((env.template_usage id).materials ≡ 0))
  unfolding template_in_use
  template_in_use_iff id = ground arith

  delete_template_cases :
      (cycle_id id : String) (w : World db)
      → ((w' : World db) × (delete_template db env cycle_id id w ≡ ok w') × Removed id w w')
        ↔ ((is_owned db env id cycle_id w ≡ true) × (template_in_use db env id ≡ false))
  unfolding delete_template
  delete_template_cases cycle_id id w = (
    λ (w', e, r). ground (arith, e),
    λ (own, free). (remove_template db env id w, rw (own, free) refl, remove_template-Removed id w),
  )

  -- A template is deleted exactly if it is one of the named cycle and nothing that is counted uses
  -- it: then it and its courses are gone, and every other template, its courses, the cycles and the
  -- weeks are as they were. Of a template of another cycle, and only of one that is not of the named
  -- cycle, the answer is not_found, used or not.
  pub delete_template_iff :
      (cycle_id id : String) (w : World db)
      → (((w' : World db) × (delete_template db env cycle_id id w ≡ ok w') × Removed id w w') ↔ (
          Owned id cycle_id (db.templates.rows w.templates)
          × ((env.template_usage id).syllabus ≡ 0)
          × ((env.template_usage id).syllabus_distribution ≡ 0)
          × ((env.template_usage id).material_requests ≡ 0)
          × ((env.template_usage id).materials ≡ 0)))
        × ((delete_template db env cycle_id id w ≡ err not_found)
            ↔ (¬ Owned id cycle_id (db.templates.rows w.templates)))
  unfolding delete_template
  delete_template_iff cycle_id id w =
      let own = any-owned_iff id cycle_id (db.templates.rows w.templates) in
      let cases = delete_template_cases cycle_id id w in
      let free = template_in_use_iff id in
      (
        (
          λ d. let (o, f) = cases.0 d in let (a, b, c, e) = free.0 f in (own.0 o, a, b, c, e),
          λ (o, a, b, c, e). cases.1 (own.1 o, free.1 (a, b, c, e)),
        ),
        (
          λ missing o. let there = own.1 o in ground (arith, there, missing),
          λ out. elim (Bool-cases (is_owned db env id cycle_id w)) [
            | inl there ↦ absurd (out (own.0 there))
            | inr e ↦ rw e refl
          ],
        ),
      )
