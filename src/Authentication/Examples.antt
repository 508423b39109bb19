-- ===== src/Authentication/Examples.antt =====
-- A process that asks twice for the same user.
use odiseo_new.Common.{ℕ, ◌+◌, String, ◌≡◌, refl, false, Option, none, some, inr, [], ◌∷◌, arith}
use odiseo_new.Access.{AuthState}
use odiseo_new.Authentication.{
  SharedCache, World, Moments, get_user_auth_state, shared_cache_ttl_ms,
}
use odiseo_new.Authentication.Freshness.{Known, Ordered, look, answer-Known}

-- A shared cache that is out of reach.
abbrev unreachable : SharedCache (Unit {0})
unreachable = record {
  get = λ key t s. none;
  set = λ key v ttl now s. s;
  del = λ key s. s;
  get-set = λ key v ttl now s other t u h. inr h;
  get-del = λ key s other t u h. h;
}

abbrev teacher : AuthState
teacher = record {
  permissions = "materials.read" ∷ [];
  force_password_reset = false;
  tokens_valid_after = none;
}

abbrev db : ℕ → String → Option AuthState
db at key = some teacher

abbrev cold : World (Unit {0})
cold = record { shared = tt; local = [] }

abbrev at : ℕ → Moments
at t = record { asked = t; read = t + 1; written = t + 2 }

at-Ordered : (t : ℕ) → Ordered unreachable db 5 (at t)
at-Ordered t = record { asked = omega arith; read = omega arith; written = omega arith }

-- The second call is answered by the cache of the process.
answer-Known_example : Known unreachable db 5 "u1" shared_cache_ttl_ms 2000 teacher
unfolding get_user_auth_state
answer-Known_example =
    answer-Known unreachable db 5 (look (at 1000) "u1" ∷ []) cold (at 2000) "u1" teacher refl
      (λ other t v h. let e : none ≡ some (some v) = h in ground arith) (at-Ordered 1000, tt)
      (at-Ordered 2000) refl
