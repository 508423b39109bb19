-- ===== src/Roles/Reach.antt =====
-- The recursive query finds the seeds and their ancestors, and nothing else.
use odiseo_new.Common.{
  ℕ, zero, suc, String, ◌===◌, eq_iff, ◌≡◌, ◌↔◌, refl, sym, ◌∙◌, inl, inr, ◌⊎◌, Bool, true, ◌&&◌,
  ◌||◌, Bool-cases, some, List-cases, List, [], ◌∷◌, ◌++◌, length, any, includes, arith,
}
use odiseo_new.Roles.{Edge, parents_of, fresh, rounds, role_set_closure}
use odiseo_new.Roles.Rounds.{includes-append, includes-fresh, role_set_closure_total}

-- The child inherits from the parent directly.
abbrev pub has_parent : List Edge → String → String → Bool
has_parent edges child parent = any (λ e. e.child === child && e.parent === parent) edges

-- The inheritance relation, climbed from a role to one of its ancestors or to itself.
pub data Climb (edges : List Edge) : String → String → Type 0 where
  stay : {x y : String} → x ≡ y → Climb edges x y
  up : {x y : String} (p : String) → has_parent edges x p ≡ true → Climb edges p y → Climb edges x y

pub Climb-trans :
    {edges : List Edge} {x y z : String} → Climb edges x y → Climb edges y z → Climb edges x z
Climb-trans (stay e) d = rw e d
Climb-trans (up p h c) d = up p h (Climb-trans c d)

abbrev pub Reaches : List Edge → List String → String → Type 0
Reaches edges seeds a = (s : String) × (includes seeds s ≡ true) × Climb edges s a

parents_of_sound :
    (edges : List Edge) (working : List String) (a : String)
    → includes (parents_of edges working) a ≡ true
    → (w : String) × (includes working w ≡ true) × (has_parent edges w a ≡ true)
unfolding parents_of
parents_of_sound [] working a h = absurd (ground arith)
parents_of_sound (e ∷ edges) working a h =
    elim (Bool-cases (includes working e.child && e.parent === a)) [
      | inl hit ↦ (e.child, ground arith, ground (arith, eq_iff e.child e.child))
      | inr miss ↦
          let (w, i, p) = parents_of_sound edges working a (ground arith) in (w, i, ground arith)
    ]

parents_of_complete :
    (edges : List Edge) (working : List String) (w a : String)
    → includes working w ≡ true
    → has_parent edges w a ≡ true
    → includes (parents_of edges working) a ≡ true
unfolding parents_of
parents_of_complete [] working w a h k = k
parents_of_complete (e ∷ edges) working w a h k =
    ground (arith, eq_iff e.child w, parents_of_complete edges working w a)

module _ (edges : List Edge) (seeds : List String) where
  abbrev AllReach : List String → Type 0
  AllReach found = (a : String) → includes found a ≡ true → Reaches edges seeds a

  fresh-AllReach :
      (found working : List String)
      → AllReach working
      → AllReach (fresh found (parents_of edges working))
  fresh-AllReach found working h a m =
      let (w, i, p) =
        parents_of_sound edges working a
          (ground (arith, includes-fresh found (parents_of edges working) a)) in
      let (s, j, c) = h w i in (s, j, Climb-trans c (up a p (stay refl)))

  append-AllReach : (xs ys : List String) → AllReach xs → AllReach ys → AllReach (xs ++ ys)
  append-AllReach xs ys h k a m = elim (Bool-cases (includes xs a)) [
    | inl left ↦ h a left
    | inr other ↦ k a (ground (arith, includes-append xs ys a))
  ]

  rounds_sound :
      (fuel : ℕ) (found working : List String) {result : List String}
      → rounds fuel edges found working ≡ some result
      → AllReach found
      → AllReach working
      → AllReach result
  unfolding rounds
  rounds_sound zero found working e h k = cc
  rounds_sound (suc fuel) found working {result} e h k =
      elim (List-cases (fresh found (parents_of edges working))) [
        | inl done ↦ let same : found ≡ result = ground arith in rw (← same) h
        | inr (x, xs, new) ↦
            let added : AllReach (x ∷ xs) = rw new at (fresh-AllReach found working k) in
            rounds_sound fuel (found ++ x ∷ xs) (x ∷ xs) (rw (new, rounds) at e)
              (append-AllReach found (x ∷ xs) h added) added
      ]

  -- What was found has its parents found too, but for what was found last.
  abbrev IsClosedBut : List String → List String → Type 0
  IsClosedBut found working =
      (x p : String)
      → includes found x ≡ true
      → has_parent edges x p ≡ true
      → (includes found p ≡ true) ⊎ (includes working x ≡ true)

  abbrev IsClosed : List String → Type 0
  IsClosed found =
      (x p : String)
      → includes found x ≡ true
      → has_parent edges x p ≡ true
      → includes found p ≡ true

  parent_found :
      (found working : List String) (x p : String)
      → includes working x ≡ true
      → has_parent edges x p ≡ true
      → (includes found p || includes (fresh found (parents_of edges working)) p) ≡ true
  parent_found found working x p h k = ground (
    arith,
    includes-fresh found (parents_of edges working) p,
    parents_of_complete edges working x p h k,
  )

  rounds-IsClosed :
      (fuel : ℕ) (found working : List String) {result : List String}
      → rounds fuel edges found working ≡ some result
      → IsClosedBut found working
      → IsClosed result × ((a : String) → includes found a ≡ true → includes result a ≡ true)
  unfolding rounds
  rounds-IsClosed zero found working e h = cc
  rounds-IsClosed (suc fuel) found working {result} e h =
      elim (List-cases (fresh found (parents_of edges working))) [
        | inl done ↦
            let same : found ≡ result = ground arith in
            rw (← same) (
              λ x p i k. elim (h x p i k) [
                | inl found_p ↦ found_p
                | inr last ↦ ground (arith, rw done at (parent_found found working x p last k))
              ],
              λ a m. m,
            )
        | inr (x, xs, new) ↦
            let (closed, grows) =
              rounds-IsClosed fuel (found ++ x ∷ xs) (x ∷ xs) (rw (new, rounds) at e) λ y p i k.
                elim (Bool-cases (includes (x ∷ xs) y)) [
                  | inl last ↦ inr last
                  | inr before ↦
                      inl (elim (h y p (ground (arith, includes-append found (x ∷ xs) y)) k) [
                        | inl found_p ↦ ground (arith, includes-append found (x ∷ xs) p)
                        | inr last ↦ ground (
                          arith,
                          includes-append found (x ∷ xs) p,
                          rw new at (parent_found found working y p last k),
                        )
                      ])
                ] in
            (closed, λ a m. grows a (ground (arith, includes-append found (x ∷ xs) a)))
      ]

  Climb-closed :
      (found : List String)
      → IsClosed found
      → {s a : String} → Climb edges s a
      → includes found s ≡ true
      → includes found a ≡ true
  Climb-closed found closed (stay e) i = rw (← e) i
  Climb-closed found closed (up {x} p h c) i = Climb-closed found closed c (closed x p i h)

  includes-fresh_nil : (a : String) → includes (fresh [] seeds) a ≡ includes seeds a
  includes-fresh_nil a = ground (arith, includes-fresh [] seeds a)

  -- The query returns exactly the seeds and the roles that one of them inherits from, directly or
  -- through other roles, also where the inheritance has cycles.
  pub role_set_closure_iff :
      (a : String) → (includes (role_set_closure edges seeds) a ≡ true) ↔ Reaches edges seeds a
  role_set_closure_iff a =
      let start = fresh [] seeds in
      let e = role_set_closure_total edges seeds in
      let from_start : AllReach start = λ b m. (b, sym (includes-fresh_nil b) ∙ m, stay refl) in
      let (closed, grows) = rounds-IsClosed (suc (length edges)) start start e (λ x p i k. inr i) in
      (
        λ m. rounds_sound (suc (length edges)) start start e from_start from_start a m,
        λ r.
            Climb-closed (role_set_closure edges seeds) closed r.2
              (grows r.0 (includes-fresh_nil r.0 ∙ r.1)),
      )
