-- ===== src/Locking/Examples.antt =====
-- A Redis in memory, and replicas that want the same lock.
use odiseo_new.Common.{
  ℕ, ◌+◌, ◌≤◌, ◌<◌, ltb, String, ◌===◌, eq_refl, ◌≡◌, ◌≢◌, refl, Bool, true, false, ◌&&◌,
  Bool-cases, Option, none, some, inl, inr, List, [], ◌∷◌, any, if◌then◌else◌, arith,
}
use odiseo_new.Locking.{Redis}
use odiseo_new.Locking.Exclusion.{Attempt, attempt, attempt_all, attempts_apart}

-- Each key with the time at which it expires.
abbrev Keys : Type 0
Keys = List (String × ℕ)

abbrev exists_at : String → ℕ → Keys → Bool
exists_at key t s = any (λ e. e.0 === key && ltb t e.1) s

abbrev set_nx : String → ℕ → ℕ → Keys → Option Bool × Keys
set_nx key ttl now s =
    if exists_at key now s then (some false, s) else (some true, (key, now + ttl) ∷ s)

set_nx-refuses :
    (key : String) (ttl now : ℕ) (s : Keys)
    → exists_at key now s ≡ true
    → (set_nx key ttl now s).0 ≢ some true
set_nx-refuses key ttl now s h e = let k = rw (set_nx, h) at e in ground arith

set_nx-expires :
    (key : String) (ttl now t : ℕ) (s : Keys)
    → (set_nx key ttl now s).0 ≡ some true
    → now ≤ t
    → t < now + ttl
    → exists_at key t (set_nx key ttl now s).1 ≡ true
set_nx-expires key ttl now t s h from until = elim (Bool-cases (exists_at key now s)) [
  | inl e ↦ absurd (set_nx-refuses key ttl now s e h)
  | inr e ↦ rw (set_nx, e) (ground (arith, eq_refl key))
]

set_nx-keeps :
    (key : String) (ttl now : ℕ) (s : Keys) (other : String) (t : ℕ)
    → exists_at other t s ≡ true
    → exists_at other t (set_nx key ttl now s).1 ≡ true
set_nx-keeps key ttl now s other t h = elim (Bool-cases (exists_at key now s)) [
  | inl e ↦ rw (set_nx, e) h
  | inr e ↦ rw (set_nx, e) (ground arith)
]

abbrev redis : Redis Keys
redis = record {
  held = exists_at;
  set = set_nx;
  refuses = set_nx-refuses;
  expires = set_nx-expires;
  keeps = set_nx-keeps;
}

abbrev sweep_at : ℕ → Attempt
sweep_at t = record { key = "sweep"; ttl = 10; at = t }

-- A replica that comes within the time to live is skipped.
skipped : (attempt redis (sweep_at 109) (attempt redis (sweep_at 100) []).1).0 ≡ none
unfolding attempt
skipped = refl

attempts_apart_example : 100 + 10 ≤ 115
unfolding attempt attempt_all
attempts_apart_example =
    attempts_apart redis (sweep_at 100) (sweep_at 115) (sweep_at 105 ∷ []) [] refl (omega arith)
      refl refl
