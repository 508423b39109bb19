-- ===== src/Selection/Slots.antt =====
-- Which requests get a question, and from which pool.
use Prim.Native.Nat.{min}
use odiseo_new.Common.{
  ℕ, suc, ◌+◌, ◌-◌, ◌≡◌, ◌≢◌, ◌↔◌, ◌⊎◌, refl, ap, inl, inr, Bool, true, false, Option, none, some,
  List, [], ◌∷◌, arith, length, Option-cases, Bool-cases, String, any, truthy,
}
use odiseo_new.Selection.{
  Question, SelectionRequest, splice_first, matches_level, take_matching, recycle, take_any,
  select_one, select_from, unused_pool, used_pool, shuffle, select_best_questions,
}
use odiseo_new.Selection.Shuffle.{shuffle-perm}
use odiseo_new.Selection.Pools.{filled, of_slot, length-perm, take_matching-perm}

module _ {ℓ} {A : Type ℓ} (p : A → Bool) where
  -- `findIndex` finds an item exactly if some item passes, and what it finds passes.
  splice_first_found :
      (xs : List A)
      → any p xs ≡ true
      → (x : A) × (rest : List A) × (splice_first p xs ≡ some (x, rest)) × (p x ≡ true)
  unfolding splice_first
  splice_first_found [] h = cc
  splice_first_found (y ∷ xs) h = elim (Bool-cases (p y)) [
    | inl here ↦ (y, xs, rw (here, splice_first), here)
    | inr later ↦
        let (x, rest, e, q) = splice_first_found xs (ground arith) in
        (x, y ∷ rest, rw (later, splice_first) (rw (e, splice_first)), q)
  ]

module _ (to_upper_case : String → String) (allow : Bool) where
  -- In each round: where the request names a level and an unused question has it, the slot gets
  -- such a question, and the used pool stays as it was.
  pub select_one-matching :
      (level : String) (unused used : List Question)
      → truthy (some level) ≡ true
      → any (matches_level to_upper_case level) unused ≡ true
      → let r =
          select_one to_upper_case allow (record { expected_level = some level }) unused used in
        (q : Question) × (r.slot ≡ some q)
        × (matches_level to_upper_case level q ≡ true)
        × (r.used ≡ used)
  unfolding select_one take_matching
  select_one-matching level unused used named there =
      let (q, rest, e, m) = splice_first_found (matches_level to_upper_case level) unused there in
      (q, rw (named, e, select_one), m, rw (named, e, select_one))

  take_matching-nil : (level : Option String) → take_matching to_upper_case level [] ≡ none
  unfolding take_matching splice_first
  take_matching-nil none = refl
  take_matching-nil (some level) = ground arith

  -- With no unused question left a round recycles, or leaves the slot empty.
  select_one-nil :
      (req : SelectionRequest) (used : List Question)
      → select_one to_upper_case allow req [] used ≡ recycle allow used
  unfolding select_one take_any
  select_one-nil req used = rw (take_matching-nil req.expected_level, select_one)

  -- While unused questions are left a round takes one of them.
  select_one-cons :
      (req : SelectionRequest) (q : Question) (unused used : List Question)
      → let r = select_one to_upper_case allow req (q ∷ unused) used in
        (r.slot ≢ none) × (length r.unused ≡ length unused) × (r.used ≡ used)
  unfolding select_one take_any
  select_one-cons req q unused used =
      elim (Option-cases (take_matching to_upper_case req.expected_level (q ∷ unused))) [
        | inl missed ↦ rw (missed, select_one) (λ e. cc, refl, refl)
        | inr ((x, rest), taken) ↦
            rw (taken, select_one)
              (
                λ e. cc,
                omega (
                  arith,
                  length-perm
                      (take_matching-perm to_upper_case req.expected_level (q ∷ unused) taken),
                ),
                refl,
              )
      ]

  -- In each round: the slot stays empty exactly if no unused question is left and none may be
  -- recycled or none is there to recycle.
  pub select_one-eq-none_iff :
      (req : SelectionRequest) (unused used : List Question)
      → ((select_one to_upper_case allow req unused used).slot ≡ none)
        ↔ ((unused ≡ []) × ((allow ≡ false) ⊎ (used ≡ [])))
  unfolding recycle
  select_one-eq-none_iff req [] used = rw select_one-nil (ground arith)
  select_one-eq-none_iff req (q ∷ unused) used =
      (λ e. absurd ((select_one-cons req q unused used).0 e), λ h. cc (h.0))

-- How many used questions may be recycled.
abbrev recyclable : Bool → List Question → ℕ
recyclable true used = length used
recyclable false used = 0

recycle_counts :
    (allow : Bool) (used : List Question)
    → let r = recycle allow used in
      (length (of_slot r.slot) ≡ min 1 (recyclable allow used))
      × (r.unused ≡ [])
      × (recyclable allow r.used ≡ recyclable allow used - 1)
      × (length (of_slot r.slot) + length r.used ≡ length used)
unfolding recycle
recycle_counts false used = (omega arith, refl, omega arith, omega arith)
recycle_counts true [] = (omega arith, refl, omega arith, omega arith)
recycle_counts true (q ∷ used) = (omega arith, refl, omega arith, omega arith)

length-filled_cons :
    (slot : Option Question) (slots : List (Option Question))
    → length (filled (slot ∷ slots)) ≡ length (of_slot slot) + length (filled slots)
length-filled_cons none slots = omega arith
length-filled_cons (some q) slots = omega arith

length-of_slot : (slot : Option Question) → slot ≢ none → length (of_slot slot) ≡ 1
length-of_slot none h = absurd (h refl)
length-of_slot (some q) h = refl

module _ (to_upper_case : String → String) (allow : Bool) where
  length-select_from :
      (reqs : List SelectionRequest) (unused used : List Question)
      → length (select_from to_upper_case allow reqs unused used).0 ≡ length reqs
  unfolding select_from
  length-select_from [] unused used = refl
  length-select_from (req ∷ reqs) unused used =
      let r = select_one to_upper_case allow req unused used in
      ap suc (length-select_from reqs r.unused r.used)

  -- With no unused question left, as many slots are filled as can be recycled.
  length-filled_nil :
      (reqs : List SelectionRequest) (used : List Question)
      → length (filled (select_from to_upper_case allow reqs [] used).0)
        ≡ min (length reqs) (recyclable allow used)
  unfolding select_from
  length-filled_nil [] used = omega arith
  length-filled_nil (req ∷ reqs) used =
      let r = recycle allow used in
      let (one, gone, left, _) = recycle_counts allow used in
      rw (select_one-nil to_upper_case allow req used, length-filled_cons, gone)
        (omega (arith, one, left, length-filled_nil reqs r.used))

  length-filled :
      (reqs : List SelectionRequest) (unused used : List Question)
      → length (filled (select_from to_upper_case allow reqs unused used).0)
        ≡ min (length reqs) (length unused + recyclable allow used)
  unfolding select_from
  length-filled [] unused used = omega arith
  length-filled (req ∷ reqs) [] used = omega (arith, length-filled_nil (req ∷ reqs) used)
  length-filled (req ∷ reqs) (q ∷ unused) used =
      let r = select_one to_upper_case allow req (q ∷ unused) used in
      let (taken, fewer, same) = select_one-cons to_upper_case allow req q unused used in
      rw length-filled_cons (
        omega (
          arith,
          length-of_slot r.slot taken,
          fewer,
          ap (recyclable allow) same,
          length-filled reqs r.unused r.used,
        ))

recyclable-shuffle :
    (allow : Bool) (pick : ℕ → ℕ) (used : List Question)
    → recyclable allow (shuffle pick used) ≡ recyclable allow used
recyclable-shuffle false pick used = refl
recyclable-shuffle true pick used = length-perm (shuffle-perm pick used)

module _ (to_upper_case : String → String) (pick₁ pick₂ : ℕ → ℕ) (pool : List Question)
    (used_ids : List String) (requests : List SelectionRequest) (allow : Bool) where
  -- There is one slot for each request, and as many slots are filled as the pool allows: all of
  -- them, or as many as there are unused questions and, if recycling is allowed, used ones.
  pub select_best_questions_counts :
      (length (select_best_questions to_upper_case pick₁ pick₂ pool used_ids requests allow)
        ≡ length requests)
      × (length
            (filled (select_best_questions to_upper_case pick₁ pick₂ pool used_ids requests allow))
          ≡ min
              (length requests)
              (length (unused_pool used_ids pool) + recyclable allow (used_pool used_ids pool)))
  unfolding select_best_questions
  select_best_questions_counts =
      let u = unused_pool used_ids pool in
      let v = used_pool used_ids pool in
      (
        length-select_from to_upper_case allow requests (shuffle pick₁ u) (shuffle pick₂ v),
        omega (
          arith,
          length-filled to_upper_case allow requests (shuffle pick₁ u) (shuffle pick₂ v),
          length-perm (shuffle-perm pick₁ u),
          recyclable-shuffle allow pick₂ v,
        ),
      )
