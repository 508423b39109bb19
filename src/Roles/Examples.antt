-- ===== src/Roles/Examples.antt =====
-- A small hierarchy, and instances of the theorems on it.
use odiseo_new.Common.{suc, ◌≡◌, ◌↔◌, refl, true, some, List, [], ◌∷◌, length, includes}
use odiseo_new.Roles.{
  Edge, UserRole, fresh, parents_of, rounds, role_set_closure, find_dependent_role_holder_ids,
}
use odiseo_new.Roles.Rounds.{role_set_closure_total}
use odiseo_new.Roles.Reach.{Reaches, role_set_closure_iff}

-- `base` is inherited by `teacher`, and `teacher` by `head`.
abbrev edges : List Edge
edges =
    record { parent = "base"; child = "teacher" }
    ∷ record { parent = "teacher"; child = "head" }
    ∷ []

-- The same with a cycle.
abbrev cyclic : List Edge
cyclic = record { parent = "head"; child = "base" } ∷ edges

abbrev user_roles : List UserRole
user_roles =
    record { user_id = "ana"; role_id = "head" } ∷ record { user_id = "leo"; role_id = "base" } ∷ []

ancestors : role_set_closure edges ("head" ∷ []) ≡ "head" ∷ "teacher" ∷ "base" ∷ []
unfolding role_set_closure rounds parents_of
ancestors = refl

around : role_set_closure cyclic ("base" ∷ []) ≡ "base" ∷ "head" ∷ "teacher" ∷ []
unfolding role_set_closure rounds parents_of
around = refl

holders : find_dependent_role_holder_ids user_roles edges "teacher" ≡ "ana" ∷ []
unfolding find_dependent_role_holder_ids rounds parents_of
holders = refl

role_set_closure_total_example :
    let start = fresh [] ("base" ∷ []) in
    rounds (suc (length cyclic)) cyclic start start ≡ some (role_set_closure cyclic ("base" ∷ []))
role_set_closure_total_example = role_set_closure_total cyclic ("base" ∷ [])

role_set_closure_iff_example :
    (includes (role_set_closure cyclic ("base" ∷ [])) "teacher" ≡ true)
    ↔ Reaches cyclic ("base" ∷ []) "teacher"
role_set_closure_iff_example = role_set_closure_iff cyclic ("base" ∷ []) "teacher"
