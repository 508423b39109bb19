-- ===== src/Selection/Pools.antt =====
-- No question is lost, invented or chosen twice: what the selection picks and what it leaves make
-- up the pool.
use mathlib.Core.Logic.{∥∥₁_elim}
use mathlib.Core.List.{Perm, Permᴰ, Nodup, Mem, Memᴰ, perm_middle, mem-append_left, map-append}
use mathlib.Core.List.Perm
use mathlib.Core.List.Nodup
use native.Mathlib.Nat.{ℕ_set}
use odiseo_new.Common.{
  ℕ, suc, ◌≡◌, refl, ap, inl, inr, Bool, true, false, not, Option, none, some, List, [], ◌∷◌, ◌++◌,
  ◌∙◌, arith, map, ◌⊎◌, length, Option-cases, Bool-cases, String, filter, includes,
}
use odiseo_new.Selection.{
  Question, SelectionRequest, splice_first, matches_level, take_matching, take_any, select_one,
  select_from, unused_pool, used_pool, shuffle, select_best_questions,
}
use odiseo_new.Selection.Shuffle.{shuffle-perm}

-- The questions of the slots that are filled.
abbrev pub filled : List (Option Question) → List Question
filled [] = []
filled (none ∷ slots) = filled slots
filled (some q ∷ slots) = q ∷ filled slots

abbrev pub of_slot : Option Question → List Question
of_slot none = []
of_slot (some q) = q ∷ []

length-permᴰ {ℓ} : {A : Type ℓ} {xs ys : List A} → Permᴰ xs ys → length xs ≡ length ys
length-permᴰ Permᴰ.nil = refl
length-permᴰ (Permᴰ.cons e p) = ap suc (length-permᴰ p)
length-permᴰ (Permᴰ.swap e f) = refl
length-permᴰ (Permᴰ.trans p q) = length-permᴰ p ∙ length-permᴰ q

pub length-perm {ℓ} : {A : Type ℓ} {xs ys : List A} → Perm xs ys → length xs ≡ length ys
length-perm p = ∥∥₁_elim p (ℕ_set _ _) length-permᴰ

module _ {ℓ} {A : Type ℓ} (p : A → Bool) where
  splice_first-perm :
      (xs : List A) {x : A} {rest : List A}
      → splice_first p xs ≡ some (x, rest)
      → Perm (x ∷ rest) xs
  unfolding splice_first
  splice_first-perm [] h = cc
  splice_first-perm (y ∷ xs) {x} {rest} h = elim (Bool-cases (p y)) [
    | inl yes' ↦
        let (e, f) : (y ≡ x) × (xs ≡ rest) = ground arith in rw (← e, ← f) (Perm.refl (y ∷ xs))
    | inr no' ↦ elim (Option-cases (splice_first p xs)) [
      | inl missing ↦ absurd (ground arith)
      | inr ((z, zs), found) ↦
          let (e, f) : (z ≡ x) × (y ∷ zs ≡ rest) = ground arith in
          rw (← e, ← f) (Perm.trans (Perm.swap _ _ zs) (Perm.cons y (splice_first-perm xs found)))
    ]
  ]

  filter-perm : (xs : List A) → Perm (filter (λ x. not (p x)) xs ++ filter p xs) xs
  filter-perm [] = Perm.refl []
  filter-perm (x ∷ xs) = elim (Bool-cases (p x)) [
    | inl yes' ↦ rw (yes', filter) (Perm.trans (perm_middle _ _) (Perm.cons x (filter-perm xs)))
    | inr no' ↦ rw (no', filter) (Perm.cons x (filter-perm xs))
  ]

module _ (to_upper_case : String → String) where
  pub take_matching-perm :
      (level : Option String) (unused : List Question) {q : Question} {rest : List Question}
      → take_matching to_upper_case level unused ≡ some (q, rest)
      → Perm (q ∷ rest) unused
  unfolding take_matching
  take_matching-perm none unused h = cc
  take_matching-perm (some level) unused h =
      splice_first-perm (matches_level to_upper_case level) unused (ground arith)

take_any-perm :
    (allow : Bool) (unused used : List Question)
    → let r = take_any allow unused used in
      Perm (of_slot r.slot ++ (r.unused ++ r.used)) (unused ++ used)
unfolding take_any
take_any-perm false [] used = Perm.refl used
take_any-perm true [] [] = Perm.refl []
take_any-perm true [] (q ∷ used) = Perm.refl (q ∷ used)
take_any-perm allow (q ∷ unused) used = Perm.refl (q ∷ (unused ++ used))

take_any-perm_unused :
    (unused used : List Question)
    → let r = take_any false unused used in
      Perm (of_slot r.slot ++ r.unused) unused × (r.used ≡ used)
unfolding take_any
take_any-perm_unused [] used = (Perm.refl [], refl)
take_any-perm_unused (q ∷ unused) used = (Perm.refl (q ∷ unused), refl)

filled_cons :
    (slot : Option Question) (slots : List (Option Question)) (rest : List Question)
    {pool : List Question}
    → Perm (filled slots ++ rest) pool
    → Perm (filled (slot ∷ slots) ++ rest) (of_slot slot ++ pool)
filled_cons none slots rest h = h
filled_cons (some q) slots rest h = Perm.cons q h

module _ (to_upper_case : String → String) where
  select_one-perm :
      (allow : Bool) (req : SelectionRequest) (unused used : List Question)
      → let r = select_one to_upper_case allow req unused used in
        Perm (of_slot r.slot ++ (r.unused ++ r.used)) (unused ++ used)
  unfolding select_one
  select_one-perm allow req unused used =
      elim (Option-cases (take_matching to_upper_case req.expected_level unused)) [
        | inl missed ↦ rw (missed, select_one) (take_any-perm allow unused used)
        | inr ((q, rest), taken) ↦
            rw (taken, select_one)
              (Perm.append_right used
                (take_matching-perm to_upper_case req.expected_level unused taken))
      ]

  select_one-perm_unused :
      (req : SelectionRequest) (unused used : List Question)
      → let r = select_one to_upper_case false req unused used in
        Perm (of_slot r.slot ++ r.unused) unused × (r.used ≡ used)
  unfolding select_one
  select_one-perm_unused req unused used =
      elim (Option-cases (take_matching to_upper_case req.expected_level unused)) [
        | inl missed ↦ rw (missed, select_one) (take_any-perm_unused unused used)
        | inr ((q, rest), taken) ↦
            rw (taken, select_one)
              (take_matching-perm to_upper_case req.expected_level unused taken, refl)
      ]

  select_from-perm :
      (allow : Bool) (reqs : List SelectionRequest) (unused used : List Question)
      → let (slots, unused', used') = select_from to_upper_case allow reqs unused used in
        Perm (filled slots ++ (unused' ++ used')) (unused ++ used)
  unfolding select_from
  select_from-perm allow [] unused used = Perm.refl (unused ++ used)
  select_from-perm allow (req ∷ reqs) unused used =
      let r = select_one to_upper_case allow req unused used in
      let (slots, unused', used') = select_from to_upper_case allow reqs r.unused r.used in
      Perm.trans
        (filled_cons r.slot slots (unused' ++ used') (select_from-perm allow reqs r.unused r.used))
        (select_one-perm allow req unused used)

  select_from-perm_unused :
      (reqs : List SelectionRequest) (unused used : List Question)
      → let (slots, unused', used') = select_from to_upper_case false reqs unused used in
        Perm (filled slots ++ unused') unused
  unfolding select_from
  select_from-perm_unused [] unused used = Perm.refl unused
  select_from-perm_unused (req ∷ reqs) unused used =
      let r = select_one to_upper_case false req unused used in
      let (slots, unused', used') = select_from to_upper_case false reqs r.unused r.used in
      Perm.trans (filled_cons r.slot slots unused' (select_from-perm_unused reqs r.unused r.used))
        (select_one-perm_unused req unused used).0

Memᴰ-cons_cases {ℓ} : {A : Type ℓ} {x y : A} {ys : List A} → Memᴰ x (y ∷ ys) → (x ≡ y) ⊎ Memᴰ x ys
Memᴰ-cons_cases (Memᴰ.head e) = inl e
Memᴰ-cons_cases (Memᴰ.tail m) = inr m

not-eq-true : {b : Bool} → not b ≡ true → b ≡ false
not-eq-true {b} h = ground arith

-- What passes a filter passes its test.
mem-filter_test {ℓ} :
    {A : Type ℓ} (p : A → Bool) (xs : List A) {x : A} → Memᴰ x (filter p xs) → p x ≡ true
mem-filter_test p [] m = elim m [ ]
mem-filter_test p (y ∷ xs) {x} m = elim (Bool-cases (p y)) [
  | inl kept ↦ elim (Memᴰ-cons_cases {y = y} (rw (kept, filter) at m)) [
    | inl here ↦ rw here kept
    | inr later ↦ mem-filter_test p xs later
  ]
  | inr dropped ↦ mem-filter_test p xs (rw (dropped, filter) at m)
]

module _ (to_upper_case : String → String) (pick₁ pick₂ : ℕ → ℕ) (pool : List Question)
    (used_ids : List String) (requests : List SelectionRequest) where
  pools-perm :
      Perm
        (shuffle pick₁ (unused_pool used_ids pool) ++ shuffle pick₂ (used_pool used_ids pool))
        pool
  unfolding unused_pool used_pool
  pools-perm =
      Perm.trans (Perm.append (shuffle-perm pick₁ _) (shuffle-perm pick₂ _))
        (filter-perm (λ q. includes used_ids q.id) pool)

  -- The chosen questions and some rest are together a reordering of the pool: no question is
  -- invented, lost or chosen twice, whatever the random draws, the requests and the used ids are.
  pub select_best_questions-perm :
      (allow : Bool)
      → (rest : List Question) × Perm
          (filled (select_best_questions to_upper_case pick₁ pick₂ pool used_ids requests allow)
            ++ rest)
          pool
  unfolding select_best_questions
  select_best_questions-perm allow =
      let u = shuffle pick₁ (unused_pool used_ids pool) in
      let v = shuffle pick₂ (used_pool used_ids pool) in
      let (slots, unused', used') = select_from to_upper_case allow requests u v in
      (unused' ++ used', Perm.trans (select_from-perm to_upper_case allow requests u v) pools-perm)

  -- Where the ids of the pool differ, so do those of the chosen questions.
  pub select_best_questions-Nodup :
      (allow : Bool)
      → Nodup (map (λ q. q.id) pool)
      → Nodup (
          map
            (λ q. q.id)
            (filled (select_best_questions to_upper_case pick₁ pick₂ pool used_ids requests allow)))
  select_best_questions-Nodup allow h =
      let (rest, p) = select_best_questions-perm allow in
      Nodup.of_append_left (map (λ q. q.id) rest) (
        rw (← map-append (λ (q : Question). q.id))
          (Perm.nodup (Perm.symm (Perm.map (λ (q : Question). q.id) p)) h))

  -- Without recycling a chosen question is one of the pool, and its id is not among the used ids.
  pub select_best_questions-unused :
      (q : Question)
      → Mem q
          (filled (select_best_questions to_upper_case pick₁ pick₂ pool used_ids requests false))
      → Mem q pool × (includes used_ids q.id ≡ false)
  unfolding select_best_questions unused_pool
  select_best_questions-unused q m =
      let u = shuffle pick₁ (unused_pool used_ids pool) in
      let v = shuffle pick₂ (used_pool used_ids pool) in
      let (rest, p) = select_best_questions-perm false in
      let in_filter : Mem q (unused_pool used_ids pool) =
        (Perm.mem_iff (
            Perm.trans (select_from-perm_unused to_upper_case requests u v)
              (shuffle-perm pick₁ _))).0
          (mem-append_left _ m) in
      (
        (Perm.mem_iff p).0 (mem-append_left rest m),
        ∥∥₁_elim in_filter (hlevel)
            λ d. not-eq-true (mem-filter_test (λ r. not (includes used_ids r.id)) pool d),
      )
