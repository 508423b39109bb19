-- ===== src/Locking/Exclusion.antt =====
-- Two replicas never do the work of a key within its time to live.
use odiseo_new.Common.{
  ℕ, ◌+◌, ◌≤◌, ltb, String, ◌≡◌, true, Bool-cases, Option, some, Option-cases, inl, inr, List, [],
  ◌∷◌, arith,
}
use odiseo_new.Locking.{Redis, prefixed, try_acquire, run_exclusively}

-- One scheduled run of a replica: its key, its time to live and the moment of its call.
pub record Attempt : Type 0 where
  pub key : String
  pub ttl : ℕ
  pub at : ℕ

module _ {S : Type 0} (redis : Redis S) where
  -- Whether the attempt did its work, and the state that it leaves.
  unfoldable pub attempt : Attempt → S → Option (Unit {0}) × S
  unfolding run_exclusively
  attempt a s = run_exclusively redis a.key a.ttl tt a.at s

  unfoldable pub attempt_all : List Attempt → S → S
  unfolding attempt
  attempt_all [] s = s
  attempt_all (a ∷ rest) s = attempt_all rest (attempt a s).1

  set-of_attempt :
      (a : Attempt) (s : S)
      → (attempt a s).0 ≡ some tt
      → (redis.set (prefixed a.key) a.ttl a.at s).0 ≡ some true
  unfolding attempt run_exclusively try_acquire
  set-of_attempt a s h = elim (Option-cases (redis.set (prefixed a.key) a.ttl a.at s).0) [
    | inl e ↦ let k = rw (attempt, run_exclusively, try_acquire, e) at h in absurd (ground arith)
    | inr (b, e) ↦ elim (Bool-cases b) [
      | inl yes' ↦ rw yes' at e
      | inr no' ↦
          let k = rw (attempt, run_exclusively, try_acquire, e, no') at h in absurd (ground arith)
    ]
  ]

  held-attempt_all :
      (rest : List Attempt) (key : String) (t : ℕ) (s : S)
      → redis.held key t s ≡ true
      → redis.held key t (attempt_all rest s) ≡ true
  unfolding attempt_all attempt run_exclusively try_acquire
  held-attempt_all [] key t s h = h
  held-attempt_all (a ∷ rest) key t s h =
      held-attempt_all rest key t (attempt a s).1
        (redis.keeps (prefixed a.key) a.ttl a.at s key t h)

  -- If two attempts for a key both do their work, the later one comes when the time to live of the
  -- earlier one has passed, whatever attempts, for this key and others, run in between, and whether
  -- or not their calls of Redis fail.
  pub attempts_apart :
      (first last : Attempt) (between : List Attempt) (s : S)
      → first.key ≡ last.key
      → first.at ≤ last.at
      → (attempt first s).0 ≡ some tt
      → (attempt last (attempt_all between (attempt first s).1)).0 ≡ some tt
      → first.at + first.ttl ≤ last.at
  unfolding attempt run_exclusively try_acquire
  attempts_apart first last between s same order ran ran_too =
      elim (Bool-cases (ltb last.at (first.at + first.ttl))) [
        | inr late ↦ ground arith
        | inl early ↦
            let held =
              redis.expires (prefixed first.key) first.ttl first.at last.at s
                (set-of_attempt first s ran) order (ground arith) in
            let s' = attempt_all between (attempt first s).1 in
            let still : redis.held (prefixed last.key) last.at s' ≡ true =
              rw (← same)
                (held-attempt_all between (prefixed first.key) last.at (attempt first s).1 held) in
            absurd (
              redis.refuses (prefixed last.key) last.ttl last.at s' still
                (set-of_attempt last s' ran_too))
      ]
