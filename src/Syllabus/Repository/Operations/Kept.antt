-- ===== src/Syllabus/Repository/Operations/Kept.antt =====
-- Every operation that runs alone keeps the weekly limit. The code accepts that operations that overlap
-- can exceed it, since the check and the write are separate transactions; `raced` of Examples is such a
-- case.
use odiseo_new.Common.{
  ℕ, ◌+◌, ◌≤◌, String, ◌≡◌, refl, ap, sym, ◌∙◌, inl, inr, Bool-cases, Option-cases, Bool, not,
  Option, none, List, arith,
}
use odiseo_new.Common.Http.{Result, ok, throw_if, bad_request, not_found, ◌>>=◌, >>=-eq-ok}
use odiseo_new.Syllabus.{SyllabusDb, World, Env, Cell}
use odiseo_new.Syllabus.Repository.{
  create_syllabus, set_template, update_visibility, create_distribution, sum_week_question_count,
  delete_distribution, find_by_cycle, find_by_course_and_cycle,
}
use odiseo_new.Syllabus.Repository.Operations.{
  weekly_question_limit, create, add_distribution, or_null, over_limit,
  update_distribution_quantity, clone_syllabus, clone_cycle_syllabuses, is_nil,
}
use odiseo_new.Syllabus.Repository.Operations.Cells.{
  IsLimited, HasKey, same_create_syllabus, create_distribution-IsLimited, update_quantity-IsLimited,
  delete_distribution-IsLimited,
}
use odiseo_new.Syllabus.Repository.Operations.Clones.{
  clone_syllabus-IsLimited, clone_each-IsLimited, IsLimited-same,
}

-- The calls of the use case that write.
pub data Operation : Type 0 where
  create_one : (course_id cycle_id : String) → Operation
  add : (syllabus_id : String) (c : Cell) → Operation
  change : (id syllabus_id : String) (n : ℕ) → Operation
  drop : (id syllabus_id : String) → Operation
  clone : (id source_id : String) (weeks : Option (List ℕ)) → Operation
  clone_cycle : (target source : String) → Operation
  choose_template : (id template_id : String) → Operation
  archive : (id : String) (is_active : Bool) → Operation

module _ (db : SyllabusDb) (env : Env) where
  unfoldable pub perform : (World db → World db) → Operation → World db → Result (World db)
  perform meanwhile (create_one course_id cycle_id) w = create db env course_id cycle_id w
  perform meanwhile (add syllabus_id c) w = add_distribution db env meanwhile syllabus_id c w
  perform meanwhile (change id syllabus_id n) w =
      update_distribution_quantity db env meanwhile id syllabus_id n w
  perform meanwhile (drop id syllabus_id) w = delete_distribution db env id syllabus_id w
  perform meanwhile (clone id source_id weeks) w =
      clone_syllabus db env id source_id weeks w >>= λ r. ok r.0
  perform meanwhile (clone_cycle target source) w =
      clone_cycle_syllabuses db env target source w >>= λ r. ok r.0
  perform meanwhile (choose_template id template_id) w = ok (set_template db env id template_id w)
  perform meanwhile (archive id is_active) w = update_visibility db env id is_active w

  create-IsLimited :
      (course_id cycle_id : String) (w w' : World db)
      → IsLimited db env w
      → create db env course_id cycle_id w ≡ ok w'
      → IsLimited db env w'
  unfolding create
  create-IsLimited course_id cycle_id w w' limited h =
      let (_, _, h₁) = >>=-eq-ok (throw_if (not (env.course_exists course_id)) not_found) _ h in
      elim (Option-cases (find_by_course_and_cycle db env course_id cycle_id w)) [
        | inr (existing, there) ↦ cc (rw there at h₁)
        | inl absent ↦
            let ((w₁, id), made, h₂) =
              >>=-eq-ok (create_syllabus db env cycle_id course_id "Nuevo Sílabo" w) _
                (rw absent at h₁) in
            let e : w₁ ≡ w' = ground (arith, h₂) in
            rw (← e) (
              IsLimited-same db env w w₁
                (same_create_syllabus db env cycle_id course_id "Nuevo Sílabo" w w₁ id made)
                limited)
      ]

  -- Others leave the cells as they are.
  abbrev pub LeavesCells : (World db → World db) → Type 0
  LeavesCells meanwhile = (w : World db) → (meanwhile w).distributions ≡ w.distributions

  HasKey-same :
      (w w' : World db) → w'.distributions ≡ w.distributions → HasKey db env w → HasKey db env w'
  HasKey-same w w' e key id = rw e (key id)

  over_limit-same :
      (meanwhile : World db → World db) (id syllabus_id : String) (n : ℕ) (w : World db)
      → LeavesCells meanwhile
      → over_limit db env meanwhile id syllabus_id n w
        ≡ over_limit db env (λ x. x) id syllabus_id n (meanwhile (meanwhile w))
  over_limit-same meanwhile id syllabus_id n w alone =
      let f : db.Distributions → db.Distributions → Bool = λ a b.
        over_limit db env (λ x. record x { distributions = b }) id syllabus_id n
          (record w { distributions = a }) in
      ap (λ b. f w.distributions b) (alone w)
      ∙ sym (ap (λ a. f a a) (alone (meanwhile w) ∙ alone w))

  add_distribution-IsLimited :
      (meanwhile : World db → World db) (syllabus_id : String) (c : Cell) (w w' : World db)
      → LeavesCells meanwhile
      → HasKey db env w
      → IsLimited db env w
      → add_distribution db env meanwhile syllabus_id c w ≡ ok w'
      → IsLimited db env w'
  unfolding add_distribution
  add_distribution-IsLimited meanwhile syllabus_id c w w' alone key limited h =
      let next = meanwhile w in
      let sum = sum_week_question_count db env syllabus_id c.week_number none w in
      let stored : Cell = record c { template_id = or_null db env c.template_id } in
      let made : create_distribution db env syllabus_id stored next ≡ ok w' = ground (arith, h) in
      let room : sum + c.question_count ≤ weekly_question_limit = ground (arith, h) in
      create_distribution-IsLimited db env syllabus_id stored next w'
        (HasKey-same w next (alone w) key) (IsLimited-same db env w next (alone w) limited)
        (rw (alone w) room) made

  update_distribution_quantity-IsLimited :
      (meanwhile : World db → World db) (id syllabus_id : String) (n : ℕ) (w w' : World db)
      → LeavesCells meanwhile
      → HasKey db env w
      → IsLimited db env w
      → update_distribution_quantity db env meanwhile id syllabus_id n w ≡ ok w'
      → IsLimited db env w'
  unfolding update_distribution_quantity
  update_distribution_quantity-IsLimited meanwhile id syllabus_id n w w' alone key limited h =
      let next = meanwhile (meanwhile w) in
      let same : next.distributions ≡ w.distributions = alone (meanwhile w) ∙ alone w in
      let (_, guard, h₁) =
        >>=-eq-ok (throw_if (over_limit db env meanwhile id syllabus_id n w) bad_request) _ h in
      elim (Bool-cases (over_limit db env meanwhile id syllabus_id n w)) [
        | inl over ↦ cc (rw over at guard)
        | inr within ↦
            update_quantity-IsLimited db env id syllabus_id n next w' (HasKey-same w next same key)
              (IsLimited-same db env w next same limited)
              (sym (over_limit-same meanwhile id syllabus_id n w alone) ∙ within) h₁
      ]

  clone_cycle-IsLimited :
      (target source : String) (n : ℕ) (w w' : World db)
      → IsLimited db env w
      → clone_cycle_syllabuses db env target source w ≡ ok (w', n)
      → IsLimited db env w'
  unfolding clone_cycle_syllabuses
  clone_cycle-IsLimited target source n w w' limited h =
      let sources = find_by_cycle db env source w in
      let (_, _, h₁) = >>=-eq-ok (throw_if (is_nil sources) bad_request) _ h in
      clone_each-IsLimited db env target (env.get_active_week_numbers target)
        (find_by_cycle db env target w) sources 0 n w w' limited h₁

  same_set_template :
      (id template_id : String) (w : World db)
      → (set_template db env id template_id w).distributions ≡ w.distributions
  unfolding set_template
  same_set_template id template_id w = refl

  same_update_visibility :
      (id : String) (is_active : Bool) (w w' : World db)
      → update_visibility db env id is_active w ≡ ok w'
      → w'.distributions ≡ w.distributions
  unfolding update_visibility
  same_update_visibility id is_active w w' h = ground (arith, h)

  -- Every write of the use case that succeeds keeps each week of each syllabus within 100 questions,
  -- over all templates, where the ids of the cells are a key and no other operation changes the cells
  -- while it runs: cells added or overwritten, new quantities, deletions, and clones of a syllabus or
  -- of a whole cycle.
  pub perform-IsLimited :
      (meanwhile : World db → World db) (op : Operation) (w w' : World db)
      → LeavesCells meanwhile
      → HasKey db env w
      → IsLimited db env w
      → perform meanwhile op w ≡ ok w'
      → IsLimited db env w'
  unfolding perform
  perform-IsLimited meanwhile (create_one course_id cycle_id) w w' alone key limited h =
      create-IsLimited course_id cycle_id w w' limited h
  perform-IsLimited meanwhile (add syllabus_id c) w w' alone key limited h =
      add_distribution-IsLimited meanwhile syllabus_id c w w' alone key limited h
  perform-IsLimited meanwhile (change id syllabus_id n) w w' alone key limited h =
      update_distribution_quantity-IsLimited meanwhile id syllabus_id n w w' alone key limited h
  perform-IsLimited meanwhile (drop id syllabus_id) w w' alone key limited h =
      delete_distribution-IsLimited db env id syllabus_id w w' limited h
  perform-IsLimited meanwhile (clone id source_id weeks) w w' alone key limited h =
      let ((w₁, r), done, h₁) = >>=-eq-ok (clone_syllabus db env id source_id weeks w) _ h in
      let e : w₁ ≡ w' = ground (arith, h₁) in
      rw (← e) (clone_syllabus-IsLimited db env id source_id weeks w w₁ r limited done)
  perform-IsLimited meanwhile (clone_cycle target source) w w' alone key limited h =
      let ((w₁, n), done, h₁) = >>=-eq-ok (clone_cycle_syllabuses db env target source w) _ h in
      let e : w₁ ≡ w' = ground (arith, h₁) in
      rw (← e) (clone_cycle-IsLimited target source n w w₁ limited done)
  perform-IsLimited meanwhile (choose_template id template_id) w w' alone key limited h =
      let e : set_template db env id template_id w ≡ w' = ground (arith, h) in
      rw (← e) (
        IsLimited-same db env w (set_template db env id template_id w)
          (same_set_template id template_id w) limited)
  perform-IsLimited meanwhile (archive id is_active) w w' alone key limited h =
      IsLimited-same db env w w' (same_update_visibility id is_active w w' h) limited
