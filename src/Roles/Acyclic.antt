-- ===== src/Roles/Acyclic.antt =====
-- The guard against cycles: an update that passes it leaves the inheritance without cycles.
use odiseo_new.Common.{
  String, ◌===◌, eq_iff, ◌≡◌, refl, inl, inr, ◌⊎◌, true, false, not, ◌&&◌, ◌||◌, Bool-cases, List,
  [], ◌∷◌, ◌++◌, map, filter, includes, arith, if◌then◌else◌,
}
use odiseo_new.Roles.{Edge, role_set_inherits_role, replace_parents}
use odiseo_new.Roles.Reach.{has_parent, Climb, stay, up, Climb-trans, role_set_closure_iff}

-- No role is an ancestor of one of its own parents.
abbrev pub IsAcyclic : List Edge → Type 0
IsAcyclic edges = (x p : String) → has_parent edges x p ≡ true → ¬ Climb edges p x

has_parent-append :
    (xs ys : List Edge) (x p : String)
    → has_parent (xs ++ ys) x p ≡ (has_parent xs x p || has_parent ys x p)
has_parent-append [] ys x p = refl
has_parent-append (e ∷ xs) ys x p = ground (arith, has_parent-append xs ys x p)

has_parent-filter :
    (edges : List Edge) (id x p : String)
    → has_parent (filter (λ e. not (e.child === id)) edges) x p
      ≡ (not (x === id) && has_parent edges x p)
has_parent-filter [] id x p = ground arith
has_parent-filter (e ∷ edges) id x p =
    ground (arith, has_parent-filter edges id x p, eq_iff e.child x, eq_iff e.child id, eq_iff x id)

has_parent-new :
    (parents : List String) (id x p : String)
    → has_parent (map (λ q. record { parent = q; child = id }) parents) x p
      ≡ (x === id && includes parents p)
has_parent-new [] id x p = ground arith
has_parent-new (q ∷ parents) id x p =
    ground (arith, has_parent-new parents id x p, eq_iff x id, eq_iff id x)

has_parent-replace :
    (edges : List Edge) (id : String) (parents : List String) (x p : String)
    → has_parent (replace_parents edges id parents) x p
      ≡ (if x === id then includes parents p else has_parent edges x p)
unfolding replace_parents
has_parent-replace edges id parents x p =
    let kept = filter (λ e. not (e.child === id)) edges in
    let added : List Edge = map (λ q. record { parent = q; child = id }) parents in
    ground (
      arith,
      has_parent-append kept added x p,
      has_parent-filter edges id x p,
      has_parent-new parents id x p,
    )

module _ (edges : List Edge) (id : String) (parents : List String) where
  abbrev edges' : List Edge
  edges' = replace_parents edges id parents

  -- Up to its first visit of the role, a climb uses old edges only.
  Climb-to_role : {x : String} → Climb edges' x id → Climb edges x id
  Climb-to_role (stay e) = stay e
  Climb-to_role (up {x} p h c) = elim (Bool-cases (x === id)) [
    | inl own ↦ stay ((eq_iff x id).0 own)
    | inr old ↦ up p (ground (arith, has_parent-replace edges id parents x p)) (Climb-to_role c)
  ]

  -- A climb uses old edges only, or a new edge, from the role to one of its new parents.
  Climb-cases :
      {x y : String}
      → Climb edges' x y
      → Climb edges x y
        ⊎ ((p : String) × (includes parents p ≡ true) × Climb edges' x id × Climb edges' p y)
  Climb-cases (stay e) = inl (stay e)
  Climb-cases (up {x} p h c) = elim (Bool-cases (x === id)) [
    | inl own ↦
        inr (
          p,
          ground (arith, has_parent-replace edges id parents x p),
          stay ((eq_iff x id).0 own),
          c,
        )
    | inr old ↦
        let h' : has_parent edges x p ≡ true =
          ground (arith, has_parent-replace edges id parents x p) in
        elim (Climb-cases c) [
          | inl d ↦ inl (up p h' d)
          | inr (q, i, to_role, from_parent) ↦ inr (q, i, up p h to_role, from_parent)
        ]
  ]

  -- With no new parent below the role, no new parent climbs to it.
  pub new_parent_apart :
      ((p : String) → includes parents p ≡ true → ¬ Climb edges p id)
      → IsAcyclic edges
      → IsAcyclic edges'
  new_parent_apart apart acyclic x p h c = elim (Bool-cases (x === id)) [
    | inl own ↦
        let e : x ≡ id = (eq_iff x id).0 own in
        apart p (ground (arith, has_parent-replace edges id parents x p))
          (Climb-to_role (rw e at c))
    | inr old ↦ elim (Climb-cases c) [
      | inl d ↦ acyclic x p (ground (arith, has_parent-replace edges id parents x p)) d
      | inr (q, i, to_role, from_parent) ↦
          apart q i (Climb-to_role (Climb-trans from_parent (up p h to_role)))
    ]
  ]

pub inherits_none :
    (edges : List Edge) (id : String) (parents : List String)
    → role_set_inherits_role edges parents id ≡ false
    → (p : String) → includes parents p ≡ true
    → ¬ Climb edges p id
unfolding role_set_inherits_role
inherits_none edges id [] h p i c = cc
inherits_none edges id (q ∷ qs) h p i c =
    cc (h, (role_set_closure_iff edges (q ∷ qs) id).1 (p, i, c))

-- An inheritance that the guard lets through closes no cycle: if the hierarchy had none, it has none
-- after the role's parents are replaced by roles none of which inherits from the role or is the role.
pub replace_parents-IsAcyclic :
    (edges : List Edge) (id : String) (parents : List String)
    → IsAcyclic edges
    → role_set_inherits_role edges parents id ≡ false
    → IsAcyclic (replace_parents edges id parents)
replace_parents-IsAcyclic edges id parents acyclic h =
    new_parent_apart edges id parents (inherits_none edges id parents h) acyclic
