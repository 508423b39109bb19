-- ===== src/Selection.antt =====
-- Choosing the questions of a material: backend-nestjs/src/question-bank/strategies/
-- question-selection.strategy.ts, with the level tables of
-- backend-nestjs/src/question-bank/constants/question-levels.constant.ts.
-- `Math.random` is a parameter: `pick i` is an arbitrary number, of which the loop uses the rest
-- modulo i + 1, so that every index of 0..i can be drawn. `toUpperCase` is a parameter too.
pub mod Shuffle
pub mod Pools
pub mod Slots
pub mod Levels
mod Examples
use odiseo_new.Common.{
  ℕ, zero, suc, ◌-◌, ◌%◌, ◌==◌, String, ◌===◌, truthy, Bool, true, false, not, ◌||◌, Option, none,
  some, List, [], ◌∷◌, length, get_elem?, set, filter, includes, if◌then◌else◌,
}

pub record Question : Type 0 where
  pub id : String
  pub topic_id : String
  pub subtopic_id : String
  pub answer_id : Option String
  pub level_id : Option ℕ  -- null where the bank has no level
  pub html_content : String

-- `ids.includes(levelId)`, false at null
abbrev pub has_level : List ℕ → Option ℕ → Bool
has_level [] l = false
has_level (i ∷ ids) none = false
has_level (i ∷ ids) (some l) = i == l || has_level ids (some l)

abbrev pub easy_ids : List ℕ
easy_ids = 43 ∷ 44 ∷ []

abbrev pub medium_ids : List ℕ
medium_ids = 45 ∷ []

abbrev pub hard_ids : List ℕ
hard_ids = 46 ∷ 47 ∷ 48 ∷ 49 ∷ 50 ∷ 51 ∷ 52 ∷ []

-- The ladder of tests on the label in upper case.
pub level_ids_of_label : String → List ℕ
level_ids_of_label upper =
    if upper === "EASY" || upper === "FACIL"
    then easy_ids
    else if upper === "MEDIUM" || (upper === "INTERMEDIO" || upper === "MEDIA")
    then medium_ids
    else if upper === "HARD" || upper === "DIFICIL"
    then hard_ids
    else []

pub get_level_ids_for_difficulty : (String → String) → String → List ℕ
get_level_ids_for_difficulty to_upper_case difficulty =
    level_ids_of_label (to_upper_case difficulty)

-- [array[i], array[j]] = [array[j], array[i]]; both indices are in range where the loop swaps.
swap {ℓ} : {A : Type ℓ} → ℕ → ℕ → List A → List A
swap i j xs = elim (get_elem? xs i) [
  | none ↦ xs
  | some a ↦ elim (get_elem? xs j) [ none ↦ xs | some b ↦ set (set xs i b) j a ]
]

-- The Fisher-Yates loop, from index i down to 1.
shuffle_from {ℓ} : {A : Type ℓ} → (ℕ → ℕ) → ℕ → List A → List A
shuffle_from pick zero xs = xs
shuffle_from pick (suc i) xs = shuffle_from pick i (swap (suc i) (pick (suc i) % suc (suc i)) xs)

pub shuffle {ℓ} : {A : Type ℓ} → (ℕ → ℕ) → List A → List A
unfolding shuffle_from swap
shuffle pick xs = shuffle_from pick (length xs - 1) xs

-- `findIndex` with `splice(idx, 1)[0]`: the first item that passes, and the others in order.
pub splice_first {ℓ} : {A : Type ℓ} → (A → Bool) → List A → Option (A × List A)
splice_first p [] = none
splice_first p (x ∷ xs) = elim (p x) [
  | true ↦ some (x, xs)
  | false ↦ elim (splice_first p xs) [ none ↦ none | some (y, ys) ↦ some (y, x ∷ ys) ]
]

-- What one round leaves: the slot, the unused pool and the used pool.
pub record Round : Type 0 where
  pub slot : Option Question
  pub unused : List Question
  pub used : List Question

pub record SelectionRequest : Type 0 where
  pub expected_level : Option String

module _ (to_upper_case : String → String) where
  -- The test of `findIndex`: the question's level is one of those of the difficulty.
  abbrev pub matches_level : String → Question → Bool
  matches_level level q = has_level (get_level_ids_for_difficulty to_upper_case level) q.level_id

  -- Priority 1, only where the request names a level.
  pub take_matching : Option String → List Question → Option (Question × List Question)
  take_matching none unused = none
  take_matching (some level) unused =
      if truthy (some level) then splice_first (matches_level level) unused else none

-- Priority 3: a used question, if recycling is allowed.
pub recycle : Bool → List Question → Round
recycle false used = record { slot = none; unused = []; used = used }
recycle true [] = record { slot = none; unused = []; used = [] }
recycle true (q ∷ used) = record { slot = some q; unused = []; used = used }

-- Priority 2: the first unused question, and priority 3 where none is left.
pub take_any : Bool → List Question → List Question → Round
unfolding recycle
take_any allow [] used = recycle allow used
take_any allow (q ∷ unused) used = record { slot = some q; unused = unused; used = used }

module _ (to_upper_case : String → String) (allow_recycling : Bool) where
  pub select_one : SelectionRequest → List Question → List Question → Round
  unfolding take_matching take_any
  select_one req unused used = elim (take_matching to_upper_case req.expected_level unused) [
    | some (q, rest) ↦ record { slot = some q; unused = rest; used = used }
    | none ↦ take_any allow_recycling unused used
  ]

  -- The loop over the requests.
  pub select_from :
      List SelectionRequest
      → List Question
      → List Question
      → List (Option Question) × List Question × List Question
  select_from [] unused used = ([], unused, used)
  select_from (req ∷ reqs) unused used =
      let r = select_one req unused used in
      let (slots, unused', used') = select_from reqs r.unused r.used in
      (r.slot ∷ slots, unused', used')

pub unused_pool : List String → List Question → List Question
unused_pool used_ids = filter (λ q. not (includes used_ids q.id))

pub used_pool : List String → List Question → List Question
used_pool used_ids = filter (λ q. includes used_ids q.id)

pub select_best_questions :
    (String → String)
    → (ℕ → ℕ)
    → (ℕ → ℕ)
    → List Question
    → List String
    → List SelectionRequest
    → Bool
    → List (Option Question)
unfolding select_from select_one unused_pool used_pool shuffle
select_best_questions to_upper_case pick₁ pick₂ pool used_ids requests allow_recycling =
    (select_from to_upper_case allow_recycling requests (shuffle pick₁ (unused_pool used_ids pool))
      (shuffle pick₂ (used_pool used_ids pool))).0
