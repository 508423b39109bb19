-- ===== src/Generation/Plan/Review.antt =====
-- The review plan: its slots belong to the topics in order, and each question is one that the topic's
-- subtopic has and the course does not exclude.
use mathlib.Core.Logic.{∥∥₁_elim}
use mathlib.Core.Bool.{Bool-set}
use mathlib.Core.List.{Mem, Memᴰ}
use odiseo_new.Common.{
  ℕ, zero, suc, String, ◌===◌, eq_iff, eq_refl, includes, ◌≡◌, refl, ap, Bool, true, false, not,
  ◌&&◌, Option, none, some, Option-cases, inl, inr, List, [], ◌∷◌, ◌++◌, map, find?, all, length,
  get_elem?, range_from, arith,
}
use odiseo_new.Database.Rows.{find?-test}
use odiseo_new.Selection.{Question, select_best_questions}
use odiseo_new.Selection.Pools.{filled, select_best_questions-unused}
use odiseo_new.Generation.{Topic, CourseDistribution, ReviewSlot, Bank, Env}
use odiseo_new.Generation.Plan.{
  question_ids_of, load_questions, pool_of, slot_at, requests_of, topic_slots, topics_in_order,
  plan_from, build_review_plan,
}

all-Memᴰ {ℓ} :
    {A : Type ℓ} (p : A → Bool) (xs : List A) {x : A} → all p xs ≡ true → Memᴰ x xs → p x ≡ true
all-Memᴰ p [] h m = elim m [ ]
all-Memᴰ p (y ∷ xs) h (Memᴰ.head e) = rw e (ground arith)
all-Memᴰ p (y ∷ xs) h (Memᴰ.tail m) = all-Memᴰ p xs (ground arith) m

all-Mem {ℓ} :
    {A : Type ℓ} (p : A → Bool) (xs : List A) {x : A} → all p xs ≡ true → Mem x xs → p x ≡ true
all-Mem p xs h m = ∥∥₁_elim m (Bool-set _ _) (all-Memᴰ p xs h)

Mem-filled :
    (slots : List (Option Question)) (i : ℕ) (q : Question)
    → get_elem? slots i ≡ some (some q)
    → Memᴰ q (filled slots)
Mem-filled [] i q h = absurd (ground arith)
Mem-filled (none ∷ slots) zero q h = absurd (ground arith)
Mem-filled (some x ∷ slots) zero q h = Memᴰ.head (ground arith)
Mem-filled (none ∷ slots) (suc i) q h = Mem-filled slots i q h
Mem-filled (some x ∷ slots) (suc i) q h = Memᴰ.tail (Mem-filled slots i q h)

includes-more :
    (x : String) (ids xs : List String)
    → all (includes ids) xs ≡ true
    → all (includes (x ∷ ids)) xs ≡ true
includes-more x ids [] h = refl
includes-more x ids (y ∷ xs) h = ground (arith, includes-more x ids xs)

includes_self : (ids : List String) → all (includes ids) ids ≡ true
includes_self [] = refl
includes_self (x ∷ ids) = ground (arith, eq_refl x, includes-more x ids ids (includes_self ids))

module _ (env : Env) (bank : Bank) where
  -- The question is one of the subtopic, and not one that is excluded.
  abbrev pub admits : List String → Topic → Option String → Bool
  admits exclude t none = true
  admits exclude t (some id) =
      not (includes exclude id) && includes (question_ids_of env bank (env.number t.subtopic_id)) id

  -- A slot of the topic, at an index.
  pub record Slot (exclude : List String) (t : Topic) (i : ℕ) (s : ReviewSlot) : Type 0 where
    pub topic : s.topic_id ≡ t.topic_id
    pub subtopic : s.subtopic_id ≡ t.subtopic_id
    pub level : s.expected_level ≡ get_elem? t.expected_levels i
    pub question : admits exclude t s.question_id ≡ true

  -- Slots of the topic from an index on.
  abbrev pub Slots : List String → Topic → ℕ → List ReviewSlot → Type 0
  Slots exclude t i [] = Unit
  Slots exclude t i (s ∷ ss) = Slot exclude t i s × Slots exclude t (suc i) ss

  -- The plan, cut into the slots of each topic in order, as many as the topic's quantity.
  abbrev pub Blocks : List (List String × Topic) → List ReviewSlot → Type 0
  Blocks [] plan = plan ≡ []
  Blocks ((exclude, t) ∷ ts) plan =
      (block : List ReviewSlot) × (rest : List ReviewSlot) × (plan ≡ block ++ rest)
      × (length block ≡ t.quantity)
      × Slots exclude t 0 block
      × Blocks ts rest

  load_questions-admitted :
      (exclude ids all_ids : List String)
      → all (includes all_ids) ids ≡ true
      → all
          (λ q. not (includes exclude q.id) && includes all_ids q.id)
          (load_questions env bank exclude ids)
        ≡ true
  unfolding load_questions
  load_questions-admitted exclude [] all_ids h = refl
  load_questions-admitted exclude (id ∷ ids) all_ids h =
      let rest = load_questions-admitted exclude ids all_ids (ground arith) in
      elim (Option-cases (find? (λ q. q.id === id) bank.questions)) [
        | inl missing ↦ rw (missing, load_questions) rest
        | inr (q, found) ↦
            let same : q.id ≡ id =
              (eq_iff q.id id).0
                (find?-test (λ (x : Question). x.id === id) bank.questions found) in
            rw (found, load_questions) (ground arith)
      ]

  pool-admitted :
      (exclude : List String) (t : Topic)
      → all
          (λ q.
            not (includes exclude q.id)
            && includes (question_ids_of env bank (env.number t.subtopic_id)) q.id)
          (pool_of env bank exclude t)
        ≡ true
  unfolding pool_of
  pool-admitted exclude t =
      let ids = question_ids_of env bank (env.number t.subtopic_id) in
      load_questions-admitted exclude ids ids (includes_self ids)

  -- What the strategy chooses for a topic is admitted.
  selected-admitted :
      (pick : ℕ → ℕ) (exclude : List String) (t : Topic) (i : ℕ) (q : Question)
      → get_elem?
          (select_best_questions env.to_upper_case pick pick
            (pool_of env bank exclude t)
            []
            (requests_of env bank t)
            false)
          i
        ≡ some (some q)
      → admits exclude t (some q.id) ≡ true
  selected-admitted pick exclude t i q at_i =
      let slots =
        select_best_questions env.to_upper_case pick pick (pool_of env bank exclude t) []
          (requests_of env bank t) false in
      let (m, unused) =
        select_best_questions-unused env.to_upper_case pick pick (pool_of env bank exclude t) []
          (requests_of env bank t) q ∣ Mem-filled slots i q at_i ∣₁ in
      all-Mem _ (pool_of env bank exclude t) (pool-admitted exclude t) m

  Slots-of_topic :
      (exclude : List String) (t : Topic) (selected : List (Option Question)) (i n : ℕ)
      → ((j : ℕ) (q : Question)
          → get_elem? selected j ≡ some (some q)
          → admits exclude t (some q.id) ≡ true)
      → Slots exclude t i (map (slot_at env bank t selected) (range_from i n))
  Slots-of_topic exclude t selected i zero h = tt
  Slots-of_topic exclude t selected i (suc n) h = (
    record {
      topic = refl;
      subtopic = refl;
      level = refl;
      question = elim (Option-cases (get_elem? selected i)) [
        | inl out ↦ rw (out, admits) refl
        | inr (slot, at_i) ↦ elim (Option-cases slot) [
          | inl empty ↦ rw (at_i, empty, admits) refl
          | inr (q, full) ↦ rw (at_i, full, admits) (h i q (rw full at at_i))
        ]
      ];
    },
    Slots-of_topic exclude t selected (suc i) n h,
  )

  topic_slots-Slots :
      (pick : ℕ → ℕ) (exclude : List String) (t : Topic)
      → Slots exclude t 0 (topic_slots env bank pick exclude t)
  unfolding topic_slots
  topic_slots-Slots pick exclude t =
      let selected =
        select_best_questions env.to_upper_case pick pick (pool_of env bank exclude t) []
          (requests_of env bank t) false in
      Slots-of_topic exclude t selected 0 t.quantity
        (λ i q at_i. selected-admitted pick exclude t i q at_i)

  length-range {ℓ} : {A : Type ℓ} (f : ℕ → A) (i n : ℕ) → length (map f (range_from i n)) ≡ n
  length-range f i zero = refl
  length-range f i (suc n) = ap suc (length-range f (suc i) n)

  length-topic_slots :
      (pick : ℕ → ℕ) (exclude : List String) (t : Topic)
      → length (topic_slots env bank pick exclude t) ≡ t.quantity
  unfolding topic_slots
  length-topic_slots pick exclude t = length-range _ 0 t.quantity

  plan_from-Blocks : (i : ℕ) (ts : List (List String × Topic)) → Blocks ts (plan_from env bank i ts)
  unfolding plan_from
  plan_from-Blocks i [] = refl
  plan_from-Blocks i ((exclude, t) ∷ ts) = (
    topic_slots env bank (env.pick_question i) exclude t,
    plan_from env bank (suc i) ts,
    refl,
    length-topic_slots (env.pick_question i) exclude t,
    topic_slots-Slots (env.pick_question i) exclude t,
    plan_from-Blocks (suc i) ts,
  )

  -- The review plan of courses with their topics has, for each topic of each course in order, as many
  -- slots as the topic's quantity; the i-th of them has the i-th expected level; and a slot that is
  -- filled has a question which the bank ties to the topic's subtopic and which the course does not
  -- exclude as used.
  pub build_review_plan-Blocks :
      (ds : List CourseDistribution)
      → Blocks (topics_in_order env bank ds) (build_review_plan env bank ds)
  unfolding build_review_plan
  build_review_plan-Blocks ds = plan_from-Blocks 0 (topics_in_order env bank ds)
