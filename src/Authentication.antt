-- ===== src/Authentication.antt =====
-- The state that the guards know of a user: `getUserAuthState` of
-- backend-nestjs/src/auth/auth.service.ts with its two caches, the shared one (Redis, behind
-- cache-manager) and the one in the process, and `invalidateUserPermissions`. Times are milliseconds.
-- The shared cache is a parameter with the documented effect of its calls, each of which may fail;
-- `db at key` is what a read of the tenant's tables at a time gives, none where it fails.
pub mod Freshness
mod Examples
use Prim.Native.String.{◌++◌}
use odiseo_new.Common.{
  ℕ, ◌+◌, ◌≤◌, ◌<◌, leb, String, ◌===◌, ◌≡◌, Bool, true, false, not, ◌&&◌, Option, none, some, ◌⊎◌,
  List, [], ◌∷◌, map, filter, find?, any, length, if◌then◌else◌,
}
use odiseo_new.Access.{AuthState}

-- `get key t s` is none where the call fails, and else what the cache holds.
pub record SharedCache (S : Type 0) : Type 0 where
  pub get : String → ℕ → S → Option (Option AuthState)
  pub set : String → AuthState → ℕ → ℕ → S → S
  pub del : String → S → S
  -- What is there after a write was written, and its time to live has not passed, or was there.
  pub get-set :
      (key : String) (v : AuthState) (ttl now : ℕ) (s : S) (other : String) (t : ℕ) (u : AuthState)
      → get other t (set key v ttl now s) ≡ some (some u)
      → ((other ≡ key) × (u ≡ v) × (t < now + ttl)) ⊎ (get other t s ≡ some (some u))
  pub get-del :
      (key : String) (s : S) (other : String) (t : ℕ) (u : AuthState)
      → get other t (del key s) ≡ some (some u)
      → get other t s ≡ some (some u)

pub record Entry : Type 0 where
  pub key : String
  pub state : AuthState
  pub expires_at : ℕ

pub record World (S : Type 0) : Type 0 where
  pub shared : S
  pub local : List Entry  -- in the order of insertion

-- The moments of one call: it asks the caches, reads the tables and writes the caches.
pub record Moments : Type 0 where
  pub asked : ℕ
  pub read : ℕ
  pub written : ℕ

abbrev pub shared_cache_ttl_ms : ℕ
shared_cache_ttl_ms = 60000

abbrev pub local_cache_ttl_ms : ℕ
local_cache_ttl_ms = 4000

abbrev pub local_cache_max_entries : ℕ
local_cache_max_entries = 5000

abbrev pub cache_key : String → String → String
cache_key company_id user_id = "auth:permissions:" ++ company_id ++ ":" ++ user_id

abbrev pub has_key : String → Entry → Bool
has_key key e = e.key === key

pub delete_key : String → List Entry → List Entry
delete_key key es = filter (λ e. not (has_key key e)) es

-- The entry, or none; one that has expired is deleted.
pub get_local_auth_state : ℕ → String → List Entry → Option AuthState × List Entry
unfolding delete_key
get_local_auth_state now key es = elim (find? (has_key key) es) [
  | none ↦ (none, es)
  | some e ↦ if leb e.expires_at now then (none, delete_key key es) else (some e.state, es)
]

-- The oldest entry makes room for a new key.
pub evict_oldest : List Entry → List Entry
unfolding delete_key
evict_oldest [] = []
evict_oldest (e ∷ es) = delete_key e.key (e ∷ es)

-- `Map.set`: an entry that is there keeps its place.
pub map_set : Entry → List Entry → List Entry
map_set e [] = e ∷ []
map_set e (x ∷ xs) = let rest = map_set e xs in if has_key e.key x then e ∷ xs else x ∷ rest

pub set_local_auth_state : ℕ → String → AuthState → List Entry → List Entry
unfolding evict_oldest map_set
set_local_auth_state now key state es =
    let room =
      if not (any (has_key key) es) && leb local_cache_max_entries (length es)
      then evict_oldest es
      else es in
    map_set (record { key = key; state = state; expires_at = now + local_cache_ttl_ms }) room

module _ {S : Type 0} (cache : SharedCache S) (db : ℕ → String → Option AuthState) where
  -- What was read goes into both caches.
  pub write_caches : ℕ → String → AuthState → World S → World S
  unfolding set_local_auth_state
  write_caches now key state w = record {
    shared = cache.set key state shared_cache_ttl_ms now w.shared;
    local = set_local_auth_state now key state w.local;
  }

  -- Where no cache answers; none where the read of the tables throws.
  pub compute_auth_state : Moments → String → World S → Option AuthState × World S
  unfolding write_caches
  compute_auth_state m key w = elim (db m.read key) [
    | none ↦ (none, w)
    | some state ↦ (some state, write_caches m.written key state w)
  ]

  pub ask_local : Moments → String → World S → Option AuthState × World S
  unfolding get_local_auth_state compute_auth_state
  ask_local m key w =
      let (hit, rest) = get_local_auth_state m.asked key w.local in
      let w' = record w { local = rest } in
      elim hit [ none ↦ compute_auth_state m key w' | some state ↦ (some state, w') ]

  pub get_user_auth_state : Moments → String → World S → Option AuthState × World S
  unfolding ask_local
  get_user_auth_state m key w = elim (cache.get key m.asked w.shared) [
    | none ↦ ask_local m key w
    | some answer ↦ elim answer [ none ↦ ask_local m key w | some state ↦ (some state, w) ]
  ]

  -- Both caches forget the user; the shared one where the call works.
  pub invalidate_user_permissions : String → World S → World S
  unfolding delete_key
  invalidate_user_permissions key w = record {
    shared = cache.del key w.shared;
    local = delete_key key w.local;
  }
