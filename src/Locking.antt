-- ===== src/Locking.antt =====
-- The lock that keeps a scheduled job to one replica:
-- backend-nestjs/src/common/locking/redis-distributed-lock.ts. Redis is a parameter, with the
-- documented effect of SET with NX and PX. The lock is never released; it ends with its time to live.
-- Replicas reach Redis in some order, which is the order of a list of attempts; times are those of
-- Redis.
pub mod Exclusion
mod Examples
use Prim.Native.String.{◌++◌}
use odiseo_new.Common.{
  ℕ, ◌+◌, ◌≤◌, ◌<◌, String, ◌≡◌, ◌≢◌, Bool, true, false, Option, none, some, if◌then◌else◌,
}

-- `held key t s`: as s stands, the key exists at the time t. `set key ttl now` answers whether the
-- key was set, none where the call fails; a call that fails may have had its effect.
pub record Redis (S : Type 0) : Type 0 where
  pub held : String → ℕ → S → Bool
  pub set : String → ℕ → ℕ → S → Option Bool × S
  -- NX: an existing key is not set.
  pub refuses :
      (key : String) (ttl now : ℕ) (s : S)
      → held key now s ≡ true
      → (set key ttl now s).0 ≢ some true
  -- PX: a key that was set exists for the time to live.
  pub expires :
      (key : String) (ttl now t : ℕ) (s : S)
      → (set key ttl now s).0 ≡ some true
      → now ≤ t
      → t < now + ttl
      → held key t (set key ttl now s).1 ≡ true
  -- No SET with NX shortens the life of a key that exists.
  pub keeps :
      (key : String) (ttl now : ℕ) (s : S) (other : String) (t : ℕ)
      → held other t s ≡ true
      → held other t (set key ttl now s).1 ≡ true

abbrev pub prefixed : String → String
prefixed key = "lock:" ++ key

module _ {S : Type 0} (redis : Redis S) where
  -- Where Redis cannot be reached the lock counts as taken.
  pub try_acquire : String → ℕ → ℕ → S → Bool × S
  try_acquire key ttl now s =
      let (answer, s') = redis.set (prefixed key) ttl now s in
      (elim answer [ none ↦ false | some b ↦ b ], s')

  -- The result of the work, none where it is skipped.
  pub run_exclusively {ℓ} : {A : Type ℓ} → String → ℕ → A → ℕ → S → Option A × S
  unfolding try_acquire
  run_exclusively key ttl work now s =
      let (acquired, s') = try_acquire key ttl now s in (if acquired then some work else none, s')
