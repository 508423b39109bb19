-- ===== src/Parallel.antt =====
-- The bounded fan-out of backend-nestjs/src/common/utils/map-with-concurrency.util.ts: workers that
-- share the counter `nextIndex` take the items one by one. Only an `await` lets another worker run, so
-- a worker goes from one to the next in one step of `Step`; which worker goes on is open, as it
-- depends on when the promises of the tasks settle. `task x i` is what the promise for an item and
-- its index settles with, none where it rejects.
pub mod Results
pub mod Progress
mod Examples
use odiseo_new.Common.{
  ℕ, suc, ◌≤◌, ◌<◌, ltb, ◌==◌, ◌≡◌, Bool, true, false, Option, none, some, List, [], ◌∷◌, map,
  length, get_elem?, set, replicate, range_from, min, if◌then◌else◌,
}
use odiseo_new.Common.Http.{internal, Result, ok, err}

-- Before the test of the loop; waiting for the task of an index; past the loop; rejected.
pub data Worker : Type 0 where
  ready : Worker
  running : ℕ → Worker
  stopped failed : Worker

-- `results` is the array that the workers fill, none where it has a hole.
pub record State (R : Type 0) : Type 0 where
  pub next_index : ℕ
  pub workers : List Worker
  pub results : ℕ → Option R

abbrev pub assign : {R : Type 0} → (ℕ → Option R) → ℕ → R → ℕ → Option R
assign results i r j = if j == i then some r else results j

module _ {T R : Type 0} (items : List T) (task : T → ℕ → Option R) where
  pub data Step : State R → State R → Type 0 where
    -- The loop goes on: the counter is read and counted up, and the task of that index starts.
    take_index :
        {s : State R} (k : ℕ) (x : T)
        → get_elem? s.workers k ≡ some ready
        → get_elem? items s.next_index ≡ some x
        → Step s (record s {
          next_index = suc s.next_index;
          workers = set s.workers k (running s.next_index);
        })
    -- The loop ends.
    end_loop :
        {s : State R} (k : ℕ)
        → get_elem? s.workers k ≡ some ready
        → length items ≤ s.next_index
        → Step s (record s { workers = set s.workers k stopped })
    -- A task fulfils.
    fulfil :
        {s : State R} (k i : ℕ) (x : T) (r : R)
        → get_elem? s.workers k ≡ some (running i)
        → get_elem? items i ≡ some x
        → task x i ≡ some r
        → Step s (record s { workers = set s.workers k ready; results = assign s.results i r })
    -- A task rejects, and its worker with it.
    reject :
        {s : State R} (k i : ℕ) (x : T)
        → get_elem? s.workers k ≡ some (running i)
        → get_elem? items i ≡ some x
        → task x i ≡ none
        → Step s (record s { workers = set s.workers k failed })

  -- A run of so many steps.
  pub data Run (s : State R) : ℕ → State R → Type 0 where
    here : Run s 0 s
    next : {n : ℕ} {t u : State R} → Run s n t → Step t u → Run s (suc n) u

  -- The state after the workers were made.
  abbrev pub start : ℕ → State R
  start concurrency = record {
    next_index = 0;
    workers = replicate (min concurrency (length items)) ready;
    results = λ i. none;
  }

  -- `mapWithConcurrency`, up to the await of the workers.
  pub launch : ℕ → Result (State R)
  launch concurrency = if ltb concurrency 1 then err internal else ok (start concurrency)

abbrev pub is_stopped : Worker → Bool
is_stopped stopped = true
is_stopped _ = false

abbrev pub is_failed : Worker → Bool
is_failed failed = true
is_failed _ = false

abbrev pub is_running : Worker → Bool
is_running (running i) = true
is_running _ = false

-- The array that is returned.
abbrev pub returned : {R : Type 0} → ℕ → State R → List (Option R)
returned n s = map s.results (range_from 0 n)

-- The reference: the tasks one after the other.
pub map_indexed : {T R : Type 0} → (T → ℕ → Option R) → ℕ → List T → List (Option R)
map_indexed task i [] = []
map_indexed task i (x ∷ xs) = task x i ∷ map_indexed task (suc i) xs
