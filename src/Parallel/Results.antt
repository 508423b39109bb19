-- ===== src/Parallel/Results.antt =====
-- Every interleaving of the workers fills the array as the tasks one after the other would.
use odiseo_new.Common.{
  ℕ, zero, suc, ◌+◌, ◌≤◌, ◌<◌, ◌==◌, ==_iff, ◌≡◌, refl, ◌∙◌, sym, ap, subst, Bool, true, false,
  ◌||◌, Bool-cases, Option, none, some, Option-cases, inl, inr, List, [], ◌∷◌, map, all, any,
  length, get_elem?, set, replicate, range_from, min, arith,
}
use odiseo_new.Parallel.{
  Worker, ready, running, stopped, failed, State, Step, take_index, end_loop, fulfil, reject, Run,
  here, next, start, is_stopped, is_failed, returned, map_indexed,
}

-- The worker that waits for the task of an index.
abbrev runs : ℕ → Worker → Bool
runs i (running j) = i == j
runs i _ = false

module _ (p : Worker → Bool) where
  pub any-set_new :
      (ws : List Worker) (k : ℕ) (old new : Worker)
      → get_elem? ws k ≡ some old
      → p new ≡ true
      → any p (set ws k new) ≡ true
  any-set_new [] k old new h e = absurd (ground arith)
  any-set_new (w ∷ ws) zero old new h e = ground arith
  any-set_new (w ∷ ws) (suc k) old new h e = ground (arith, any-set_new ws k old new h e)

  pub any-set_kept :
      (ws : List Worker) (k : ℕ) (old new : Worker)
      → get_elem? ws k ≡ some old
      → p old ≡ false
      → any p ws ≡ true
      → any p (set ws k new) ≡ true
  any-set_kept [] k old new h e a = absurd (ground arith)
  any-set_kept (w ∷ ws) zero old new h e a = ground arith
  any-set_kept (w ∷ ws) (suc k) old new h e a = ground (arith, any-set_kept ws k old new h e)

  pub any-set_back :
      (ws : List Worker) (k : ℕ) (new : Worker)
      → p new ≡ false
      → any p (set ws k new) ≡ true
      → any p ws ≡ true
  any-set_back [] k new e a = a
  any-set_back (w ∷ ws) zero new e a = ground arith
  any-set_back (w ∷ ws) (suc k) new e a = ground (arith, any-set_back ws k new e)

pub length-set : (ws : List Worker) (k : ℕ) (new : Worker) → length (set ws k new) ≡ length ws
length-set [] k new = refl
length-set (w ∷ ws) zero new = refl
length-set (w ∷ ws) (suc k) new = ap suc (length-set ws k new)

pub get_elem?-lt {ℓ} :
    {A : Type ℓ} (xs : List A) (i : ℕ) {x : A} → get_elem? xs i ≡ some x → i < length xs
get_elem?-lt [] i h = absurd (ground arith)
get_elem?-lt (y ∷ ys) zero h = omega arith
get_elem?-lt (y ∷ ys) (suc i) h = omega (arith, get_elem?-lt ys i h)

abbrev is_filled : {R : Type 0} → Option R → Bool
is_filled none = false
is_filled (some r) = true

-- Whether an item is settled: filled in, waited for, or given up with a worker that failed.
abbrev accounted : {R : Type 0} → State R → ℕ → Bool
accounted s i = is_filled (s.results i) || any (runs i) s.workers || any is_failed s.workers

-- A worker that waits for another task, and has not failed, goes on.
kept :
    (b : Bool) (i : ℕ) (ws : List Worker) (k : ℕ) (old new : Worker)
    → get_elem? ws k ≡ some old
    → runs i old ≡ false
    → is_failed old ≡ false
    → (b || any (runs i) ws || any is_failed ws) ≡ true
    → (b || any (runs i) (set ws k new) || any is_failed (set ws k new)) ≡ true
kept b i ws k old new h e f a =
    ground (arith, any-set_kept (runs i) ws k old new h e, any-set_kept is_failed ws k old new h f)

module _ {T R : Type 0} (items : List T) (task : T → ℕ → Option R) where
  -- What the task of an index gives.
  abbrev settles : ℕ → Option R
  settles i = elim (get_elem? items i) [ none ↦ none | some x ↦ task x i ]

  pub record Inv (concurrency : ℕ) (s : State R) : Type 0 where
    pub right : (i : ℕ) (r : R) → s.results i ≡ some r → settles i ≡ some r
    pub covered : (i : ℕ) → i < s.next_index → accounted s i ≡ true
    pub closed : any is_stopped s.workers ≡ true → length items ≤ s.next_index
    pub bounded : s.next_index ≤ length items
    pub many : length s.workers ≡ min concurrency (length items)

  pub Inv-start : (concurrency : ℕ) → Inv concurrency (start items task concurrency)
  Inv-start concurrency = record {
    right = λ i r h. absurd (ground arith);
    covered = λ i h. absurd (omega (arith, h));
    closed = λ h. absurd (none_stopped (min concurrency (length items)) h);
    bounded = omega arith;
    many = length-replicate (min concurrency (length items));
  }
    where
      none_stopped : (n : ℕ) → any is_stopped (replicate n ready) ≡ true → ⊥
      none_stopped zero h = ground arith
      none_stopped (suc n) h = none_stopped n h

      length-replicate : (n : ℕ) → length (replicate n ready) ≡ n
      length-replicate zero = refl
      length-replicate (suc n) = ap suc (length-replicate n)

  Step-Inv : {c : ℕ} {s t : State R} → Step items task s t → Inv c s → Inv c t
  Step-Inv (take_index {s} k x at_k item) inv = record {
    right = inv.right;
    covered = λ i h. elim (Bool-cases (i == s.next_index)) [
      | inl this ↦
          let new = any-set_new (runs i) s.workers k ready (running s.next_index) at_k this in
          ground arith
      | inr earlier ↦
          kept (is_filled (s.results i)) i s.workers k ready (running s.next_index) at_k refl refl
            (inv.covered i (ground (arith, h, ==_iff i s.next_index)))
    ];
    closed = λ h.
        let over = inv.closed (any-set_back is_stopped s.workers k (running s.next_index) refl h) in
        omega (arith, over);
    bounded = omega (arith, get_elem?-lt items s.next_index item);
    many = length-set s.workers k _ ∙ inv.many;
  }
  Step-Inv (end_loop {s} k at_k over) inv = record {
    right = inv.right;
    covered = λ i h.
        kept (is_filled (s.results i)) i s.workers k ready stopped at_k refl refl (inv.covered i h);
    closed = λ h. over;
    bounded = inv.bounded;
    many = length-set s.workers k _ ∙ inv.many;
  }
  Step-Inv (fulfil {s} k i x r at_k item done) inv = record {
    right = λ j v h. elim (Bool-cases (j == i)) [
      | inl same ↦
          let at : j ≡ i = (==_iff j i).0 same in
          let value : r ≡ v = ground arith in
          let got : settles i ≡ some r = rw (settles, item) done in
          subst (λ l. settles l ≡ some v) (sym at) (got ∙ ap some value)
      | inr other ↦ inv.right j v (ground arith)
    ];
    covered = λ j h. elim (Bool-cases (j == i)) [
      | inl same ↦ ground arith
      | inr other ↦
          let rest =
            kept (is_filled (s.results j)) j s.workers k (running i) ready at_k other refl
              (inv.covered j h) in
          ground arith
    ];
    closed = λ h. inv.closed (any-set_back is_stopped s.workers k ready refl h);
    bounded = inv.bounded;
    many = length-set s.workers k _ ∙ inv.many;
  }
  Step-Inv (reject {s} k i x at_k item done) inv = record {
    right = inv.right;
    covered = λ j h.
        let gone = any-set_new is_failed s.workers k (running i) failed at_k refl in ground arith;
    closed = λ h. inv.closed (any-set_back is_stopped s.workers k failed refl h);
    bounded = inv.bounded;
    many = length-set s.workers k _ ∙ inv.many;
  }

  pub Run-Inv :
      {c : ℕ} {s : State R} {n : ℕ} {t : State R} → Run items task s n t → Inv c s → Inv c t
  Run-Inv here inv = inv
  Run-Inv (next r step) inv = Step-Inv step (Run-Inv r inv)

  -- Every worker has left its loop.
  abbrev pub IsDone : State R → Type 0
  IsDone s = all is_stopped s.workers ≡ true

  settles_range :
      (xs : List T) (i n : ℕ) (f : ℕ → Option R)
      → n ≡ length xs
      → ((j k : ℕ) (x : T) → k ≡ i + j → get_elem? xs j ≡ some x → f k ≡ task x k)
      → map f (range_from i n) ≡ map_indexed task i xs
  unfolding map_indexed
  settles_range [] i zero f e h = refl
  settles_range [] i (suc n) f e h = absurd (omega (arith, e))
  settles_range (x ∷ xs) i zero f e h = absurd (omega (arith, e))
  settles_range (x ∷ xs) i (suc n) f e h = rw (h 0 i x (omega arith) refl) (
      ap (λ r. task x i ∷ r)
        (settles_range xs (suc i) n f (omega (arith, e))
          (λ j k y at item. h (suc j) k y (omega (arith, at)) item)))

  all_stopped :
      (ws : List Worker) (i : ℕ)
      → all is_stopped ws ≡ true
      → (any (runs i) ws ≡ false) × (any is_failed ws ≡ false)
  all_stopped [] i h = (refl, refl)
  all_stopped (w ∷ ws) i h = ground (arith, all_stopped ws i)

  some_stopped :
      (ws : List Worker) → 1 ≤ length ws → all is_stopped ws ≡ true → any is_stopped ws ≡ true
  some_stopped [] h a = absurd (omega (arith, h))
  some_stopped (w ∷ ws) h a = ground arith

  -- However the workers interleave: once all of them have left the loop, the array has, at each
  -- index, what the task of that item gives, as if the tasks had run one after the other; no item is
  -- left out.
  pub Run-returned :
      (concurrency n : ℕ) (s : State R)
      → 1 ≤ concurrency
      → Run items task (start items task concurrency) n s
      → IsDone s
      → returned (length items) s ≡ map_indexed task 0 items
  Run-returned concurrency n s positive r done =
      let inv = Run-Inv r (Inv-start concurrency) in
      settles_range items 0 (length items) s.results refl (λ j k x at item.
        let at' : k ≡ j = omega (arith, at) in
        let here' : get_elem? items k ≡ some x = rw at' item in
        let value : settles k ≡ task x k = rw (settles, here') refl in
        elim (Option-cases (s.results k)) [
          | inr (v, filled) ↦ filled ∙ sym (inv.right k v filled) ∙ value
          | inl hole ↦
              let low = get_elem?-lt items k here' in
              let (none_runs, none_failed) = all_stopped s.workers k done in
              let over =
                inv.closed (some_stopped s.workers (omega (arith, inv.many, low, positive)) done) in
              let account = inv.covered k (omega (arith, low, over)) in absurd (ground arith)
        ])
