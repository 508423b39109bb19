-- ===== src/Parallel/Examples.antt =====
-- Two workers over three items, of which the later ones settle first.
use odiseo_new.Common.{
  ℕ, ◌+◌, ◌*◌, ◌≤◌, ◌≡◌, refl, Option, none, some, ◌⊎◌, List, [], ◌∷◌, length, filter, min, arith,
}
use odiseo_new.Parallel.{
  running, stopped, assign, State, Step, take_index, end_loop, fulfil, Run, here, next, start,
  returned, map_indexed, is_running,
}
use odiseo_new.Parallel.Results.{IsDone, Run-returned}
use odiseo_new.Parallel.Progress.{Run-ends, in_flight_bounded}

abbrev items : List ℕ
items = 10 ∷ 20 ∷ 30 ∷ []

abbrev task : ℕ → ℕ → Option ℕ
task x i = some (x + i)

abbrev halfway : State ℕ
halfway = record { next_index = 2; workers = running 0 ∷ running 1 ∷ []; results = λ i. none }

half : Run items task (start items task 2) 2 halfway
half = next (next here (take_index 0 10 refl refl)) (take_index 1 20 refl refl)

abbrev finished : State ℕ
finished = record {
  next_index = 3;
  workers = stopped ∷ stopped ∷ [];
  results = assign (assign (assign (λ i. none) 1 21) 2 32) 0 10;
}

-- The second worker settles its two items before the first settles its one.
whole : Run items task (start items task 2) 8 finished
whole =
    next
      (next
        (next
          (next (next (next half (fulfil 1 1 20 21 refl refl refl)) (take_index 1 30 refl refl))
            (fulfil 1 2 30 32 refl refl refl))
          (end_loop 1 refl (omega arith)))
        (fulfil 0 0 10 10 refl refl refl))
      (end_loop 0 refl (omega arith))

Run-returned_example : returned 3 finished ≡ map_indexed task 0 items
Run-returned_example = Run-returned items task 2 8 finished (omega arith) whole refl

Run-ends_example :
    (2 ≤ 3 * length items + min 2 (length items))
    × (IsDone items task halfway ⊎ ((t : State ℕ) × Step items task halfway t))
Run-ends_example = Run-ends items task 2 2 halfway (λ x i. (x + i, refl)) half

in_flight_bounded_example : length (filter is_running halfway.workers) ≤ 2
in_flight_bounded_example = in_flight_bounded items task 2 2 halfway half
