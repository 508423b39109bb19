-- ===== src/Roles.antt =====
-- The role hierarchy: the recursive queries of
-- backend-nestjs/src/admin/roles/permissions/flattened-permissions.query.ts, and the service
-- backend-nestjs/src/admin/roles/services/roles.service.ts over them (in the module Service).
-- A recursive query with UNION works in rounds: a round joins the rows found last with the edges,
-- drops what was found before and what it finds twice, and the query ends when a round finds nothing.
-- The rounds are counted by fuel, one more than there are edges, which is always enough.
pub mod Rounds
pub mod Reach
pub mod Monotone
pub mod Descent
pub mod Holders
pub mod Acyclic
pub mod Service
mod Examples
use odiseo_new.Common.{
  ℕ, zero, suc, String, ◌===◌, Bool, true, false, not, ◌&&◌, Option, none, some, List, [], ◌∷◌,
  ◌++◌, map, length, filter, any, includes, if◌then◌else◌,
}

-- A row of `role_inheritance`: the child inherits from the parent.
pub record Edge : Type 0 where
  pub parent : String
  pub child : String

pub record Role : Type 0 where
  pub id : String
  pub name : String
  pub description : Option String
  pub permissions : Option (List String)
  pub is_system_default : Bool

pub record UserRole : Type 0 where
  pub user_id : String
  pub role_id : String

-- The join of the rows found last with the edges.
pub parents_of : List Edge → List String → List String
parents_of edges working = map (λ e. e.parent) (filter (λ e. includes working e.child) edges)

-- What UNION keeps of the rows of a round.
pub fresh : List String → List String → List String
fresh found [] = []
fresh found (x ∷ xs) =
    let added = x ∷ fresh (x ∷ found) xs in
    let rest = fresh found xs in if includes found x then rest else added

-- The rounds; none when the fuel runs out.
pub rounds : ℕ → List Edge → List String → List String → Option (List String)
rounds zero edges found working = none
rounds (suc fuel) edges found working = elim (fresh found (parents_of edges working)) [
  | [] ↦ some found
  | x ∷ xs ↦ rounds fuel edges (found ++ x ∷ xs) (x ∷ xs)
]

abbrev or_empty : Option (List String) → List String
or_empty none = []
or_empty (some xs) = xs

-- `effective_roles` from a set of role ids: the seeds and their ancestors.
pub role_set_closure : List Edge → List String → List String
unfolding fresh
role_set_closure edges seeds =
    let start = fresh [] seeds in or_empty (rounds (suc (length edges)) edges start start)

-- The same walk from parents to children.
abbrev pub flip : Edge → Edge
flip e = record { parent = e.child; child = e.parent }

pub dependent_roles : List Edge → String → List String
unfolding role_set_closure
dependent_roles edges role_id = role_set_closure (map flip edges) (role_id ∷ [])

-- SELECT ur.role_id ... WHERE ur.user_id = $1
pub assigned_roles : List UserRole → String → List String
assigned_roles user_roles user_id =
    map (λ u. u.role_id) (filter (λ u. u.user_id === user_id) user_roles)

pub effective_roles : List UserRole → List Edge → String → List String
effective_roles user_roles edges user_id =
    role_set_closure edges (assigned_roles user_roles user_id)

-- The join with `roles`.
abbrev pub rows_of : List Role → List String → List Role
rows_of roles ids = filter (λ r. includes ids r.id) roles

abbrev pub permissions_or_empty : Option (List String) → List String
permissions_or_empty none = []
permissions_or_empty (some ps) = ps

-- `rows.flatMap(...)`
pub all_permissions : List Role → List String
all_permissions [] = []
all_permissions (r ∷ rows) = permissions_or_empty r.permissions ++ all_permissions rows

-- `Array.from(new Set(...))`
pub flatten_permissions : List Role → List String
unfolding all_permissions fresh
flatten_permissions rows = fresh [] (all_permissions rows)

pub find_effective_permissions : List Role → List UserRole → List Edge → String → List String
unfolding effective_roles
find_effective_permissions roles user_roles edges user_id =
    flatten_permissions (rows_of roles (effective_roles user_roles edges user_id))

-- An empty set of roles asks nothing of the database.
pub find_effective_permissions_for_role_ids : List Role → List Edge → List String → List String
find_effective_permissions_for_role_ids roles edges [] = []
find_effective_permissions_for_role_ids roles edges (id ∷ ids) =
    flatten_permissions (rows_of roles (role_set_closure edges (id ∷ ids)))

pub role_set_inherits_role : List Edge → List String → String → Bool
role_set_inherits_role edges [] role_id = false
role_set_inherits_role edges (id ∷ ids) role_id =
    includes (role_set_closure edges (id ∷ ids)) role_id

-- SELECT DISTINCT ur.user_id
pub find_dependent_role_holder_ids : List UserRole → List Edge → String → List String
unfolding dependent_roles fresh
find_dependent_role_holder_ids user_roles edges role_id = fresh [] (
    map (λ u. u.user_id)
      (filter (λ u. includes (dependent_roles edges role_id) u.role_id) user_roles))

-- Saving a role with its `inheritedRoles` replaces the role's own edges.
pub replace_parents : List Edge → String → List String → List Edge
replace_parents edges id parents =
    filter (λ e. not (e.child === id)) edges ++ map (λ p. record { parent = p; child = id }) parents
