-- ===== src/Roles/Descent.antt =====
-- What a role confers effectively, in terms of its own row and of its parents.
use odiseo_new.Common.{
  String, ◌===◌, eq_iff, ◌≡◌, refl, sym, subst, ◌∙◌, ◌⊎◌, inl, inr, Bool, true, false, not, ◌&&◌,
  ◌||◌, Bool-cases, List, [], ◌∷◌, filter, any, includes, arith,
}
use odiseo_new.Roles.{
  Edge, Role, rows_of, role_set_closure, find_effective_permissions_for_role_ids,
}
use odiseo_new.Roles.Reach.{has_parent, Climb, stay, up, role_set_closure_iff}
use odiseo_new.Roles.Monotone.{has_permission, includes-flatten_permissions}

-- A row of the role has the permission.
abbrev pub own : String → String → List Role → Bool
own id p rows = any (λ r. r.id === id && has_permission p r) rows

-- An edge leads from the role to a parent that passes the test.
abbrev pub via : String → (String → Bool) → List Edge → Bool
via id g edges = any (λ e. e.child === id && g e.parent) edges

-- The role confers the permission, by itself or by inheritance.
abbrev pub confers_by : List Role → List Edge → String → String → Bool
confers_by roles edges p id =
    includes (find_effective_permissions_for_role_ids roles edges (id ∷ [])) p

via-of_parent :
    (id q : String) (g : String → Bool) (edges : List Edge)
    → has_parent edges id q ≡ true
    → g q ≡ true
    → via id g edges ≡ true
via-of_parent id q g [] h k = h
via-of_parent id q g (e ∷ edges) h k = ground (arith, eq_iff e.parent q, via-of_parent id q g edges)

via_found :
    (id : String) (g : String → Bool) (edges : List Edge)
    → via id g edges ≡ true
    → (q : String) × (has_parent edges id q ≡ true) × (g q ≡ true)
via_found id g [] h = cc
via_found id g (e ∷ edges) h = elim (Bool-cases (e.child === id && g e.parent)) [
  | inl here ↦ (e.parent, ground (arith, eq_iff e.parent e.parent), ground arith)
  | inr later ↦ let (q, i, k) = via_found id g edges (ground arith) in (q, ground arith, k)
]

-- Some row passes, and so the list has a row that passes whatever this one does.
any_found :
    (f : Role → Bool) (rows : List Role)
    → any f rows ≡ true
    → (r : Role) × (f r ≡ true) × ((g : Role → Bool) → g r ≡ true → any g rows ≡ true)
any_found f [] h = cc
any_found f (r ∷ rows) h = elim (Bool-cases (f r)) [
  | inl here ↦ (r, here, λ g k. ground arith)
  | inr later ↦
      let (s, i, all_pass) = any_found f rows (ground arith) in
      (s, i, λ g k. let rest = all_pass g k in ground arith)
]

any-filter :
    (f g : Role → Bool) (rows : List Role) → any f (filter g rows) ≡ any (λ r. g r && f r) rows
any-filter f g [] = refl
any-filter f g (r ∷ rows) = ground (arith, any-filter f g rows)

any-others :
    (f : Role → Bool) (id : String) (rows : List Role)
    → any (λ r. not (r.id === id) && f r) rows ≡ any f (filter (λ r. not (r.id === id)) rows)
any-others f id rows = sym (any-filter f (λ r. not (r.id === id)) rows)

-- A role confers what some role that it reaches has itself.
confers_by-closure :
    (roles : List Role) (edges : List Edge) (p id : String)
    → confers_by roles edges p id
      ≡ any (λ r. includes (role_set_closure edges (id ∷ [])) r.id && has_permission p r) roles
unfolding find_effective_permissions_for_role_ids
confers_by-closure roles edges p id =
    includes-flatten_permissions (rows_of roles (role_set_closure edges (id ∷ []))) p
    ∙ any-filter (has_permission p) (λ r. includes (role_set_closure edges (id ∷ [])) r.id) roles

closure_one :
    (edges : List Edge) (id a : String)
    → includes (role_set_closure edges (id ∷ [])) a ≡ true
    → Climb edges id a
closure_one edges id a m =
    let (s, i, c) = (role_set_closure_iff edges (id ∷ []) a).0 m in
    let e : s ≡ id = ground (arith, eq_iff id s) in subst (λ x. Climb edges x a) e c

closure-Climb :
    (edges : List Edge) (id a : String)
    → Climb edges id a
    → includes (role_set_closure edges (id ∷ [])) a ≡ true
closure-Climb edges id a c =
    (role_set_closure_iff edges (id ∷ []) a).1 (id, ground (arith, eq_iff id id), c)

any-others_le :
    (f : Role → Bool) (id : String) (rows : List Role)
    → any f (filter (λ r. not (r.id === id)) rows) ≡ true
    → any f rows ≡ true
any-others_le f id [] h = h
any-others_le f id (r ∷ rows) h = ground (arith, any-others_le f id rows)

module _ (id : String) where
  -- The edges of the other roles.
  abbrev pub others : List Edge → List Edge
  others edges = filter (λ e. not (e.child === id)) edges

  has_parent-others :
      (edges : List Edge) (x q : String)
      → (x === id) ≡ false
      → has_parent edges x q ≡ true
      → has_parent (others edges) x q ≡ true
  has_parent-others [] x q ne h = h
  has_parent-others (e ∷ edges) x q ne h =
      ground
        (arith, has_parent-others edges x q ne, eq_iff e.child x, eq_iff e.child id, eq_iff x id)

  has_parent-of_others :
      (edges : List Edge) (x q : String)
      → has_parent (others edges) x q ≡ true
      → (has_parent edges x q ≡ true) × ((x === id) ≡ false)
  has_parent-of_others [] x q h = absurd (ground (arith, h))
  has_parent-of_others (e ∷ edges) x q h =
      ground
        (arith, has_parent-of_others edges x q, eq_iff e.child x, eq_iff e.child id, eq_iff x id)

  Climb-of_others : {edges : List Edge} {x y : String} → Climb (others edges) x y → Climb edges x y
  Climb-of_others (stay e) = stay e
  Climb-of_others {edges} (up {x} q h c) =
      up q (has_parent-of_others edges x q h).0 (Climb-of_others c)

  -- A climb passes the role for the last time, or never: from there on it uses edges of others.
  Climb-split :
      {edges : List Edge} {x y : String}
      → Climb edges x y
      → Climb (others edges) x y
        ⊎ ((q : String) × (has_parent edges id q ≡ true) × Climb (others edges) q y)
  Climb-split (stay e) = inl (stay e)
  Climb-split {edges} (up {x} q h c) = elim (Climb-split c) [
    | inr later ↦ inr later
    | inl d ↦ elim (Bool-cases (x === id)) [
      | inl here ↦ inr (q, subst (λ i. has_parent edges i q ≡ true) ((eq_iff x id).0 here) h, d)
      | inr elsewhere ↦ inl (up q (has_parent-others edges x q elsewhere h) d)
    ]
  ]

  -- Without its own edges a role reaches itself only.
  Climb-stuck : (edges : List Edge) {x y : String} → x ≡ id → Climb (others edges) x y → x ≡ y
  Climb-stuck edges at (stay e) = e
  Climb-stuck edges at (up {x} q h c) =
      let (_, ne) = has_parent-of_others edges x q h in
      let same = (eq_iff x id).1 at in absurd (cc (ne, same))

  module _ (roles roles' : List Role) (edges edges' : List Edge) (p : String)
      (same_roles : filter (λ r. not (r.id === id)) roles' ≡ filter (λ r. not (r.id === id)) roles)
      (same_edges : others edges' ≡ others edges) where
    -- What an ancestor through a parent has, that parent conferred before.
    conferred_before :
        (r : Role) (q : String)
        → (r.id === id) ≡ false
        → has_permission p r ≡ true
        → ((g : Role → Bool) → g r ≡ true → any g roles' ≡ true)
        → Climb (others edges') q r.id
        → confers_by roles edges p q ≡ true
    conferred_before r q other has there c =
        let reached : Role → Bool =
          λ x. includes (role_set_closure edges (q ∷ [])) x.id && has_permission p x in
        let climbed =
          closure-Climb edges q r.id
            (Climb-of_others (subst (λ es. Climb es q r.id) same_edges c)) in
        let after : any reached (filter (λ x. not (x.id === id)) roles') ≡ true =
          sym (any-others reached id roles')
          ∙ there (λ x. not (x.id === id) && reached x) (ground (arith, other, has, climbed)) in
        confers_by-closure roles edges p q
        ∙ any-others_le reached id roles (subst (λ rows. any reached rows ≡ true) same_roles after)

    -- Where only the row of the role and its own edges change, what the role confers afterwards it has
    -- itself, or a parent conferred it before.
    pub confers_by-split :
        confers_by roles' edges' p id ≡ true
        → (own id p roles' || via id (confers_by roles edges p) edges') ≡ true
    confers_by-split h =
        let reached : Role → Bool =
          λ r. includes (role_set_closure edges' (id ∷ [])) r.id && has_permission p r in
        let found = sym (confers_by-closure roles' edges' p id) ∙ h in
        let (r, passes, there) = any_found reached roles' found in
        let has : has_permission p r ≡ true = ground (arith, passes) in
        elim (Bool-cases (r.id === id)) [
          | inl mine ↦
              let owns =
                there (λ x. x.id === id && has_permission p x) (ground (arith, mine, has)) in
              ground (arith, owns)
          | inr other ↦ elim (Climb-split (closure_one edges' id r.id (ground (arith, passes)))) [
            | inl stuck ↦
                let at : id ≡ r.id = Climb-stuck edges' refl stuck in
                let same = (eq_iff r.id id).1 (sym at) in absurd (cc (same, other))
            | inr (q, parent, c) ↦
                let given =
                  via-of_parent id q (confers_by roles edges p) edges' parent
                    (conferred_before r q other has there c) in
                ground (arith, given)
          ]
        ]

-- What a role has itself, or a parent confers, the role confers.
pub confers_by-join :
    (roles : List Role) (edges : List Edge) (p id : String)
    → (own id p roles || via id (confers_by roles edges p) edges) ≡ true
    → confers_by roles edges p id ≡ true
confers_by-join roles edges p id h =
    let reached : String → Role → Bool =
      λ i r. includes (role_set_closure edges (i ∷ [])) r.id && has_permission p r in
    elim (Bool-cases (own id p roles)) [
      | inl mine ↦
          let (r, passes, there) = any_found (λ x. x.id === id && has_permission p x) roles mine in
          let e : r.id ≡ id = ground (arith, passes, eq_iff r.id id) in
          let here = closure-Climb edges id r.id (stay (sym e)) in
          confers_by-closure roles edges p id ∙ there (reached id) (ground (arith, passes, here))
      | inr theirs ↦
          let (q, parent, k) =
            via_found id (confers_by roles edges p) edges (ground (arith, h, theirs)) in
          let (r, passes, there) =
            any_found (reached q) roles (sym (confers_by-closure roles edges p q) ∙ k) in
          let c = closure_one edges q r.id (ground (arith, passes)) in
          let here = closure-Climb edges id r.id (up q parent c) in
          confers_by-closure roles edges p id ∙ there (reached id) (ground (arith, passes, here))
    ]
