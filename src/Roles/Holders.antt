-- ===== src/Roles/Holders.antt =====
-- The users whose permissions depend on a role are those who hold it effectively.
use odiseo_new.Common.{
  String, ◌===◌, eq_iff, ◌≡◌, ◌↔◌, refl, ap, sym, subst, ◌∙◌, inl, inr, Bool, true, ◌&&◌,
  Bool-cases, List, [], ◌∷◌, map, filter, any, includes, arith,
}
use odiseo_new.Roles.{
  Edge, UserRole, flip, dependent_roles, assigned_roles, effective_roles,
  find_dependent_role_holder_ids,
}
use odiseo_new.Roles.Rounds.{includes-fresh}
use odiseo_new.Roles.Reach.{has_parent, Climb, stay, up, Climb-trans, role_set_closure_iff}

has_parent-flip :
    (edges : List Edge) (x y : String) → has_parent (map flip edges) x y ≡ has_parent edges y x
has_parent-flip [] x y = refl
has_parent-flip (e ∷ edges) x y = ground (arith, has_parent-flip edges x y)

flip-flip : (edges : List Edge) → map flip (map flip edges) ≡ edges
flip-flip [] = refl
flip-flip (e ∷ edges) = ap (λ es. e ∷ es) (flip-flip edges)

-- Climbing the flipped edges is descending.
Climb-flip : {edges : List Edge} {x y : String} → Climb (map flip edges) x y → Climb edges y x
Climb-flip (stay e) = stay (sym e)
Climb-flip {edges} (up {x} p h c) =
    Climb-trans (Climb-flip c) (up x (sym (has_parent-flip edges x p) ∙ h) (stay refl))

Climb-unflip : {edges : List Edge} {x y : String} → Climb edges x y → Climb (map flip edges) y x
Climb-unflip {edges} {x} {y} c =
    Climb-flip {edges = map flip edges} (subst (λ es. Climb es x y) (sym (flip-flip edges)) c)

dependent_roles_iff :
    (edges : List Edge) (role_id a : String)
    → (includes (dependent_roles edges role_id) a ≡ true) ↔ Climb edges a role_id
unfolding dependent_roles
dependent_roles_iff edges role_id a =
    let both = role_set_closure_iff (map flip edges) (role_id ∷ []) a in
    (
      λ m.
          let (s, i, c) = both.0 m in
          let e : role_id ≡ s = ground (arith, eq_iff role_id s) in rw e (Climb-flip c),
      λ c. both.1 (role_id, ground (arith, eq_iff role_id role_id), Climb-unflip c),
    )

-- Some assignment of the user has a role that passes.
abbrev holds : (String → Bool) → List UserRole → String → Bool
holds p user_roles user_id = any (λ u. u.user_id === user_id && p u.role_id) user_roles

includes-holders :
    (p : String → Bool) (user_roles : List UserRole) (user_id : String)
    → includes (map (λ u. u.user_id) (filter (λ u. p u.role_id) user_roles)) user_id
      ≡ holds p user_roles user_id
includes-holders p [] user_id = refl
includes-holders p (u ∷ user_roles) user_id = ground (arith, includes-holders p user_roles user_id)

holds_sound :
    (p : String → Bool) (user_roles : List UserRole) (user_id : String)
    → holds p user_roles user_id ≡ true
    → (r : String) × (includes (assigned_roles user_roles user_id) r ≡ true) × (p r ≡ true)
unfolding assigned_roles
holds_sound p [] user_id h = cc
holds_sound p (u ∷ user_roles) user_id h =
    elim (Bool-cases (u.user_id === user_id && p u.role_id)) [
      | inl here ↦ (u.role_id, ground (arith, eq_iff u.role_id u.role_id), ground arith)
      | inr later ↦
          let (r, i, q) = holds_sound p user_roles user_id (ground arith) in (r, ground arith, q)
    ]

holds_complete :
    (p : String → Bool) (user_roles : List UserRole) (user_id r : String)
    → includes (assigned_roles user_roles user_id) r ≡ true
    → p r ≡ true
    → holds p user_roles user_id ≡ true
unfolding assigned_roles
holds_complete p [] user_id r h q = h
holds_complete p (u ∷ user_roles) user_id r h q =
    ground (arith, holds_complete p user_roles user_id r, eq_iff u.role_id r)

-- The query of the holders of a role returns exactly the users of whose effective roles, assigned or
-- inherited, it is one.
pub dependent_holder_iff :
    (user_roles : List UserRole) (edges : List Edge) (role_id user_id : String)
    → (includes (find_dependent_role_holder_ids user_roles edges role_id) user_id ≡ true)
      ↔ (includes (effective_roles user_roles edges user_id) role_id ≡ true)
unfolding find_dependent_role_holder_ids effective_roles
dependent_holder_iff user_roles edges role_id user_id =
    let p = λ (r : String). includes (dependent_roles edges role_id) r in
    let ids = map (λ (u : UserRole). u.user_id) (filter (λ u. p u.role_id) user_roles) in
    let listed = includes-fresh [] ids user_id in
    let same = includes-holders p user_roles user_id in
    let closure = role_set_closure_iff edges (assigned_roles user_roles user_id) role_id in
    (
      λ m.
          let (r, i, q) = holds_sound p user_roles user_id (ground (arith, listed, same)) in
          closure.1 (r, i, (dependent_roles_iff edges role_id r).0 q),
      λ m.
          let (s, i, c) = closure.0 m in
          let h =
            holds_complete p user_roles user_id s i ((dependent_roles_iff edges role_id s).1 c) in
          ground (arith, listed, same, h),
    )
