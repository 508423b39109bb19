-- ===== src/Roles/Rounds.antt =====
-- The rounds of a recursive query: what a round adds, and that the query ends.
use odiseo_new.Common.{
  ℕ, zero, suc, ◌<◌, ◌≤◌, String, eq_iff, ◌≡◌, refl, sym, ◌∙◌, inl, inr, Bool, true, false, not,
  ◌&&◌, ◌||◌, some, List-cases, List, [], ◌∷◌, ◌++◌, map, length, filter, includes, arith,
}
use odiseo_new.Roles.{Edge, parents_of, fresh, rounds, role_set_closure}

pub includes-append :
    (xs ys : List String) (a : String) → includes (xs ++ ys) a ≡ (includes xs a || includes ys a)
includes-append [] ys a = refl
includes-append (x ∷ xs) ys a = ground (arith, includes-append xs ys a)

-- A round keeps what it finds and was not found before.
pub includes-fresh :
    (found xs : List String) (a : String)
    → includes (fresh found xs) a ≡ (includes xs a && not (includes found a))
unfolding fresh
includes-fresh found [] a = refl
includes-fresh found (x ∷ xs) a =
    ground (arith, includes-fresh found xs a, includes-fresh (x ∷ found) xs a, eq_iff x a)

-- How many edges lead to a parent that is not found yet.
unfound : List String → List Edge → ℕ
unfound found edges = length (filter (λ e. not (includes found e.parent)) edges)

unfound_append-le :
    (found new : List String) (edges : List Edge)
    → unfound (found ++ new) edges ≤ unfound found edges
unfolding unfound
unfound_append-le found new [] = omega arith
unfound_append-le found new (e ∷ edges) =
    ground (arith, unfound_append-le found new edges, includes-append found new e.parent)

unfound_append-lt :
    (found new : List String) (x : String) (edges : List Edge)
    → includes (map (λ e. e.parent) edges) x ≡ true
    → includes found x ≡ false
    → includes new x ≡ true
    → unfound (found ++ new) edges < unfound found edges
unfolding unfound
unfound_append-lt found new x [] h k l = cc
unfound_append-lt found new x (e ∷ edges) h k l = ground (
  arith,
  unfound_append-lt found new x edges,
  unfound_append-le found new edges,
  includes-append found new e.parent,
  eq_iff e.parent x,
)

includes-map-filter :
    (p : Edge → Bool) (edges : List Edge) (x : String)
    → includes (map (λ e. e.parent) (filter p edges)) x ≡ true
    → includes (map (λ e. e.parent) edges) x ≡ true
includes-map-filter p [] x h = h
includes-map-filter p (e ∷ edges) x h = ground (arith, includes-map-filter p edges x)

-- A round that finds something finds the parent of an edge that was not counted as found.
fresh_round :
    (edges : List Edge) (found working : List String) {x : String} {xs : List String}
    → fresh found (parents_of edges working) ≡ x ∷ xs
    → (includes (map (λ e. e.parent) edges) x ≡ true) × (includes found x ≡ false)
unfolding parents_of
fresh_round edges found working {x} {xs} h =
    let there : includes (fresh found (parents_of edges working)) x ≡ true =
      rw h (ground (arith, eq_iff x x)) in
    let both = sym (includes-fresh found (parents_of edges working) x) ∙ there in
    (includes-map-filter (λ e. includes working e.child) edges x (ground arith), ground arith)

-- Fuel above the number of edges to unfound parents is enough.
rounds_total :
    (fuel : ℕ) (edges : List Edge) (found working : List String)
    → unfound found edges < fuel
    → (result : List String) × (rounds fuel edges found working ≡ some result)
unfolding rounds
rounds_total zero edges found working h = absurd (omega arith)
rounds_total (suc fuel) edges found working h =
    elim (List-cases (fresh found (parents_of edges working))) [
      | inl done ↦ (found, rw (done, rounds))
      | inr (x, xs, e) ↦
          let (edge, new) = fresh_round edges found working e in
          let ih = rounds_total fuel edges (found ++ x ∷ xs) (x ∷ xs) (
            omega (
              arith,
              unfound_append-lt found (x ∷ xs) x edges edge new (ground (arith, eq_iff x x)),
            )) in
          rw (e, rounds) ih
    ]

unfound-le-length : (found : List String) (edges : List Edge) → unfound found edges ≤ length edges
unfolding unfound
unfound-le-length found [] = omega arith
unfound-le-length found (e ∷ edges) = ground (arith, unfound-le-length found edges)

-- The query always ends: the fuel of the model is never used up, whatever the edges are, cycles
-- included.
pub role_set_closure_total :
    (edges : List Edge) (seeds : List String)
    → let start = fresh [] seeds in
      rounds (suc (length edges)) edges start start ≡ some (role_set_closure edges seeds)
unfolding role_set_closure
role_set_closure_total edges seeds =
    let start = fresh [] seeds in
    let (result, e) =
      rounds_total (suc (length edges)) edges start start
        (omega (arith, unfound-le-length start edges)) in
    rw e
