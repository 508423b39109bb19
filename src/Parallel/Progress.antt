-- ===== src/Parallel/Progress.antt =====
-- The workers always get on, never too many at a time, and they come to an end.
use odiseo_new.Common.{
  ℕ, zero, suc, ◌+◌, ◌*◌, ◌-◌, ◌≤◌, ◌<◌, ltb, ◌≡◌, refl, Bool, true, false, Bool-cases, Option,
  some, Option-cases, ◌⊎◌, inl, inr, List, [], ◌∷◌, map, all, any, length, filter, get_elem?, set,
  replicate, min, sum, arith,
}
use odiseo_new.Parallel.{
  Worker, ready, running, stopped, failed, State, Step, take_index, end_loop, fulfil, reject, Run,
  here, next, start, is_stopped, is_failed, is_running,
}
use odiseo_new.Parallel.Results.{get_elem?-lt, Inv-start, Run-Inv, IsDone}

-- How many steps a worker has left, the turns of its loop for further items aside.
abbrev weight : Worker → ℕ
weight ready = 1
weight (running i) = 2
weight stopped = 0
weight failed = 0

abbrev total : List Worker → ℕ
total ws = sum (map weight ws)

total-set :
    (ws : List Worker) (k : ℕ) (old new : Worker)
    → get_elem? ws k ≡ some old
    → total (set ws k new) + weight old ≡ total ws + weight new
total-set [] k old new h = absurd (ground arith)
total-set (w ∷ ws) zero old new h = let e : w ≡ old = ground arith in rw e (omega arith)
total-set (w ∷ ws) (suc k) old new h = omega (arith, total-set ws k old new h)

total-replicate : (n : ℕ) → total (replicate n ready) ≡ n
total-replicate zero = refl
total-replicate (suc n) = omega (arith, total-replicate n)

-- The indices that workers wait for were handed out.
abbrev handed_out : ℕ → Worker → Bool
handed_out n (running i) = ltb i n
handed_out n _ = true

all-set :
    (p : Worker → Bool) (ws : List Worker) (k : ℕ) (new : Worker)
    → all p ws ≡ true
    → p new ≡ true
    → all p (set ws k new) ≡ true
all-set p [] k new h e = refl
all-set p (w ∷ ws) zero new h e = ground arith
all-set p (w ∷ ws) (suc k) new h e = ground (arith, all-set p ws k new)

all-at :
    (p : Worker → Bool) (ws : List Worker) (k : ℕ) {w : Worker}
    → all p ws ≡ true
    → get_elem? ws k ≡ some w
    → p w ≡ true
all-at p [] k h e = absurd (ground arith)
all-at p (x ∷ xs) zero {w} h e = let same : x ≡ w = ground arith in rw (← same) (ground arith)
all-at p (x ∷ xs) (suc k) {w} h e = all-at p xs k {w = w} (ground arith) e

handed_out-more :
    (n : ℕ) (ws : List Worker) → all (handed_out n) ws ≡ true → all (handed_out (suc n)) ws ≡ true
handed_out-more n [] h = refl
handed_out-more n (ready ∷ ws) h = handed_out-more n ws h
handed_out-more n (running i ∷ ws) h = ground (arith, handed_out-more n ws)
handed_out-more n (stopped ∷ ws) h = handed_out-more n ws h
handed_out-more n (failed ∷ ws) h = handed_out-more n ws h

abbrev is_over : Worker → Bool
is_over stopped = true
is_over failed = true
is_over _ = false

-- All workers are over, or there is one that is not.
over-cases :
    (ws : List Worker)
    → (all is_over ws ≡ true)
      ⊎ ((k : ℕ) × (w : Worker) × (get_elem? ws k ≡ some w) × (is_over w ≡ false))
over-cases [] = inl refl
over-cases (w ∷ ws) = elim (Bool-cases (is_over w)) [
  | inr open' ↦ inr (0, w, refl, open')
  | inl over ↦ elim (over-cases ws) [
    | inl rest ↦ inl (ground arith)
    | inr (k, x, at_k, open') ↦ inr (suc k, x, at_k, open')
  ]
]

length-filter : (p : Worker → Bool) (ws : List Worker) → length (filter p ws) ≤ length ws
length-filter p [] = omega arith
length-filter p (w ∷ ws) = ground (arith, length-filter p ws)

get_elem?-of_lt {ℓ} :
    {A : Type ℓ} (xs : List A) (i : ℕ) → i < length xs → (x : A) × (get_elem? xs i ≡ some x)
get_elem?-of_lt [] i h = absurd (omega (arith, h))
get_elem?-of_lt (x ∷ xs) zero h = (x, refl)
get_elem?-of_lt (x ∷ xs) (suc i) h = get_elem?-of_lt xs i (omega (arith, h))

kept_off :
    (ws : List Worker) (k : ℕ) (new : Worker)
    → is_failed new ≡ false
    → any is_failed ws ≡ false
    → any is_failed (set ws k new) ≡ false
kept_off [] k new e h = refl
kept_off (w ∷ ws) zero new e h = ground arith
kept_off (w ∷ ws) (suc k) new e h = ground (arith, kept_off ws k new e)

over-IsDone :
    (ws : List Worker) → all is_over ws ≡ true → any is_failed ws ≡ false → all is_stopped ws ≡ true
over-IsDone [] h e = refl
over-IsDone (stopped ∷ ws) h e = over-IsDone ws h e
over-IsDone (failed ∷ ws) h e = absurd (ground arith)
over-IsDone (ready ∷ ws) h e = absurd (ground arith)
over-IsDone (running i ∷ ws) h e = absurd (ground arith)

module _ {T R : Type 0} (items : List T) (task : T → ℕ → Option R) where
  measure : State R → ℕ
  measure s = 3 * (length items - s.next_index) + total s.workers

  Step-measure : {s t : State R} → Step items task s t → suc (measure t) ≤ measure s
  unfolding measure
  Step-measure (take_index {s} k x at_k item) = omega (
    arith,
    total-set s.workers k ready (running s.next_index) at_k,
    get_elem?-lt items s.next_index item,
  )
  Step-measure (end_loop {s} k at_k over) = omega (arith, total-set s.workers k ready stopped at_k)
  Step-measure (fulfil {s} k i x r at_k item done) =
      omega (arith, total-set s.workers k (running i) ready at_k)
  Step-measure (reject {s} k i x at_k item done) =
      omega (arith, total-set s.workers k (running i) failed at_k)

  Run-measure :
      {s : State R} {n : ℕ} {t : State R} → Run items task s n t → n + measure t ≤ measure s
  Run-measure here = omega arith
  Run-measure (next r step) = omega (arith, Run-measure r, Step-measure step)

  Step-handed_out :
      {s t : State R}
      → Step items task s t
      → all (handed_out s.next_index) s.workers ≡ true
      → all (handed_out t.next_index) t.workers ≡ true
  Step-handed_out (take_index {s} k x at_k item) h =
      all-set (handed_out (suc s.next_index)) s.workers k (running s.next_index)
        (handed_out-more s.next_index s.workers h) (ground arith)
  Step-handed_out (end_loop {s} k at_k over) h =
      all-set (handed_out s.next_index) s.workers k stopped h refl
  Step-handed_out (fulfil {s} k i x r at_k item done) h =
      all-set (handed_out s.next_index) s.workers k ready h refl
  Step-handed_out (reject {s} k i x at_k item done) h =
      all-set (handed_out s.next_index) s.workers k failed h refl

  all-replicate : (n m : ℕ) → all (handed_out m) (replicate n ready) ≡ true
  all-replicate zero m = refl
  all-replicate (suc n) m = all-replicate n m

  Run-handed_out :
      {s : State R} {n : ℕ} {t : State R}
      → Run items task s n t
      → all (handed_out s.next_index) s.workers ≡ true
      → all (handed_out t.next_index) t.workers ≡ true
  Run-handed_out here h = h
  Run-handed_out (next r step) h = Step-handed_out step (Run-handed_out r h)

  -- A worker that is not over has a step.
  worker_steps :
      (s : State R) (k : ℕ) (w : Worker)
      → s.next_index ≤ length items
      → all (handed_out s.next_index) s.workers ≡ true
      → get_elem? s.workers k ≡ some w
      → is_over w ≡ false
      → (t : State R) × Step items task s t
  worker_steps s k ready bounded h at_k open' =
      elim (Bool-cases (ltb s.next_index (length items))) [
        | inl more ↦
            let (x, item) = get_elem?-of_lt items s.next_index (ground arith) in
            (_, take_index k x at_k item)
        | inr over ↦ (_, end_loop k at_k (ground arith))
      ]
  worker_steps s k (running i) bounded h at_k open' =
      let low = all-at (handed_out s.next_index) s.workers k h at_k in
      let (x, item) = get_elem?-of_lt items i (ground (arith, bounded)) in
      elim (Option-cases (task x i)) [
        | inl none_left ↦ (_, reject k i x at_k item none_left)
        | inr (r, done) ↦ (_, fulfil k i x r at_k item done)
      ]
  worker_steps s k stopped bounded h at_k open' = absurd (ground arith)
  worker_steps s k failed bounded h at_k open' = absurd (ground arith)

  -- No worker fails where no task rejects.
  Step-none_failed :
      {s t : State R}
      → ((x : T) (i : ℕ) → (r : R) × (task x i ≡ some r))
      → Step items task s t
      → any is_failed s.workers ≡ false
      → any is_failed t.workers ≡ false
  Step-none_failed fulfils (take_index {s} k x at_k item) h =
      kept_off s.workers k (running s.next_index) refl h
  Step-none_failed fulfils (end_loop {s} k at_k over) h = kept_off s.workers k stopped refl h
  Step-none_failed fulfils (fulfil {s} k i x r at_k item done) h = kept_off s.workers k ready refl h
  Step-none_failed fulfils (reject {s} k i x at_k item gone) h =
      let (r, e) = fulfils x i in absurd (ground arith)

  Run-none_failed :
      {s : State R} {n : ℕ} {t : State R}
      → ((x : T) (i : ℕ) → (r : R) × (task x i ≡ some r))
      → Run items task s n t
      → any is_failed s.workers ≡ false
      → any is_failed t.workers ≡ false
  Run-none_failed fulfils here h = h
  Run-none_failed fulfils (next r step) h =
      Step-none_failed fulfils step (Run-none_failed fulfils r h)

  start-none_failed : (n : ℕ) → any is_failed (replicate n ready) ≡ false
  start-none_failed zero = refl
  start-none_failed (suc n) = start-none_failed n

  -- Where no task rejects, the workers come to their end however they interleave: no run is longer
  -- than three steps for each item and one for each worker, and a run that has not brought all
  -- workers out of their loops can go on.
  pub Run-ends :
      (concurrency n : ℕ) (s : State R)
      → ((x : T) (i : ℕ) → (r : R) × (task x i ≡ some r))
      → Run items task (start items task concurrency) n s
      → (n ≤ 3 * length items + min concurrency (length items))
        × (IsDone items task s ⊎ ((t : State R) × Step items task s t))
  unfolding measure
  Run-ends concurrency n s fulfils r =
      let m = min concurrency (length items) in
      let none_failed = Run-none_failed fulfils r (start-none_failed m) in
      let inv = Run-Inv items task r (Inv-start items task concurrency) in
      let low = Run-handed_out r (all-replicate m 0) in
      (
        omega (arith, Run-measure r, total-replicate m),
        elim (over-cases s.workers) [
          | inl over ↦ inl (over-IsDone s.workers over none_failed)
          | inr (k, w, at_k, open') ↦ inr (worker_steps s k w inv.bounded low at_k open')
        ],
      )

  -- At no moment of a run do more tasks wait than the concurrency allows.
  pub in_flight_bounded :
      (concurrency n : ℕ) (s : State R)
      → Run items task (start items task concurrency) n s
      → length (filter is_running s.workers) ≤ concurrency
  in_flight_bounded concurrency n s r =
      let inv = Run-Inv items task r (Inv-start items task concurrency) in
      omega (arith, length-filter is_running s.workers, inv.many)
