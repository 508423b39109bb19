-- ===== src/Authentication/Freshness.antt =====
-- How old the state can be that the guards see.
use odiseo_new.Common.{
  ℕ, ◌+◌, ◌≤◌, leb, String, eq_iff, ◌≡◌, ◌≢◌, ◌∙◌, sym, subst, ap, Bool, not, ◌&&◌, Bool-cases,
  Option, some, Option-cases, inl, inr, List, [], ◌∷◌, find?, any, length, All, All-filter, arith,
}
use odiseo_new.Database.Rows.{find?-test}
use odiseo_new.Access.{AuthState}
use odiseo_new.Authentication.{
  SharedCache, Entry, World, Moments, shared_cache_ttl_ms, local_cache_ttl_ms,
  local_cache_max_entries, has_key, delete_key, get_local_auth_state, evict_oldest, map_set,
  set_local_auth_state, write_caches, compute_auth_state, ask_local, get_user_auth_state,
  invalidate_user_permissions,
}

All-find {ℓ κ} :
    {A : Type ℓ} (P : A → Type κ) (p : A → Bool) (xs : List A) {x : A}
    → All P xs
    → find? p xs ≡ some x
    → P x
All-find P p [] h e = absurd (ground arith)
All-find P p (y ∷ ys) {x} (h, k) e = elim (Bool-cases (p y)) [
  | inl yes' ↦ let same : y ≡ x = ground arith in subst P same h
  | inr no' ↦ All-find P p ys {x = x} k (ground arith)
]

All-map_set :
    (P : Entry → Type 0) (e : Entry) (es : List Entry) → P e → All P es → All P (map_set e es)
unfolding map_set
All-map_set P e [] h k = (h, tt)
All-map_set P e (x ∷ xs) h (k, l) = elim (Bool-cases (has_key e.key x)) [
  | inl same ↦ rw (same, map_set) (h, l)
  | inr other ↦ rw (other, map_set) (k, All-map_set P e xs h l)
]

All-evict_oldest : (P : Entry → Type 0) (es : List Entry) → All P es → All P (evict_oldest es)
unfolding evict_oldest
All-evict_oldest P [] h = h
All-evict_oldest P (e ∷ es) h = All-filter P (λ x. not (has_key e.key x)) (e ∷ es) h

All-set_local :
    (P : Entry → Type 0) (now : ℕ) (key : String) (state : AuthState) (es : List Entry)
    → P (record { key = key; state = state; expires_at = now + local_cache_ttl_ms })
    → All P es
    → All P (set_local_auth_state now key state es)
unfolding set_local_auth_state
All-set_local P now key state es h k =
    elim (Bool-cases (not (any (has_key key) es) && leb local_cache_max_entries (length es))) [
      | inl full ↦ rw (full, set_local_auth_state) (All-map_set P _ _ h (All-evict_oldest P es k))
      | inr room ↦ rw (room, set_local_auth_state) (All-map_set P _ _ h k)
    ]

module _ {S : Type 0} (cache : SharedCache S) (db : ℕ → String → Option AuthState) (delay : ℕ) where
  -- The state is what the tables held for the user at a moment that is at most `age` before the time.
  pub record Known (key : String) (age now : ℕ) (u : AuthState) : Type 0 where
    pub at : ℕ
    pub value : db at key ≡ some u
    pub recent : now ≤ at + (delay + age)

  pub record Fresh (w : World S) : Type 0 where
    pub shared :
        (key : String) (t : ℕ) (u : AuthState)
        → cache.get key t w.shared ≡ some (some u)
        → Known key shared_cache_ttl_ms t u
    pub local : All (λ e. Known e.key local_cache_ttl_ms e.expires_at e.state) w.local

  -- A call asks the caches, then reads the tables, and writes what it read soon after.
  pub record Ordered (m : Moments) : Type 0 where
    pub asked : m.asked ≤ m.read
    pub read : m.read ≤ m.written
    pub written : m.written ≤ m.read + delay

  -- What a call answers, and the caches that it leaves.
  pub record Answered (m : Moments) (key : String) (out : Option AuthState × World S) : Type 0 where
    pub fresh : Fresh out.1
    pub known : (u : AuthState) → out.0 ≡ some u → Known key shared_cache_ttl_ms m.asked u

  Fresh-write_caches :
      (m : Moments) (key : String) (u : AuthState) (w : World S)
      → Ordered m
      → db m.read key ≡ some u
      → Fresh w
      → Fresh (write_caches cache db m.written key u w)
  unfolding write_caches
  Fresh-write_caches m key u w o value f = record {
    shared = λ other t v h.
        elim (cache.get-set key u shared_cache_ttl_ms m.written w.shared other t v h) [
          | inl (same, own, soon) ↦ record {
            at = m.read;
            value = rw (same, own) value;
            recent = let late = o.written in omega (arith, soon, late);
          }
          | inr before ↦ f.shared other t v before
        ];
    local =
        All-set_local _ m.written key u w.local
          (record {
            at = m.read;
            value = value;
            recent = let late = o.written in omega (arith, late);
          })
          f.local;
  }

  Answered-compute :
      (m : Moments) (key : String) (w : World S)
      → Ordered m
      → Fresh w
      → Answered m key (compute_auth_state cache db m key w)
  unfolding compute_auth_state
  Answered-compute m key w o f = elim (Option-cases (db m.read key)) [
    | inl broken ↦
        rw (broken, compute_auth_state) (record { fresh = f; known = λ u h. absurd (ground arith) })
    | inr (u, value) ↦
        rw (value, compute_auth_state)
          (record {
            fresh = Fresh-write_caches m key u w o value f;
            known = λ v h. record {
              at = m.read;
              value = value ∙ h;
              recent = let early = o.asked in omega (arith, early);
            };
          })
  ]

  -- What the cache of the process answers, and keeps.
  local_lookup :
      (now : ℕ) (key : String) (es : List Entry)
      → All (λ e. Known e.key local_cache_ttl_ms e.expires_at e.state) es
      → let r = get_local_auth_state now key es in
        All (λ e. Known e.key local_cache_ttl_ms e.expires_at e.state) r.1
        × ((u : AuthState) → r.0 ≡ some u → Known key local_cache_ttl_ms now u)
  unfolding get_local_auth_state delete_key
  local_lookup now key es f = elim (Option-cases (find? (has_key key) es)) [
    | inl missing ↦ rw (get_local_auth_state, missing) (f, λ u h. absurd (ground arith))
    | inr (e, found) ↦ elim (Bool-cases (leb e.expires_at now)) [
      | inl expired ↦
          rw (get_local_auth_state, found, expired)
            (All-filter _ (λ x. not (has_key key x)) es f, λ u h. absurd (ground arith))
      | inr live ↦
          let k = All-find _ (has_key key) es f found in
          let same : e.key ≡ key = (eq_iff e.key key).0 (find?-test (has_key key) es found) in
          rw (get_local_auth_state, found, live)
            (
              f,
              λ u h. record {
                at = k.at;
                value =
                    ap (db k.at) (sym same)
                    ∙ k.value
                    ∙ (let g : e.state ≡ u = ground arith in ap some g);
                recent = let r = k.recent in ground arith;
              },
            )
    ]
  ]

  Answered-ask_local :
      (m : Moments) (key : String) (w : World S)
      → Ordered m
      → Fresh w
      → Answered m key (ask_local cache db m key w)
  unfolding ask_local
  Answered-ask_local m key w o f =
      let (kept, known) = local_lookup m.asked key w.local f.local in
      let w' = record w { local = (get_local_auth_state m.asked key w.local).1 } in
      let f' : Fresh w' = record { shared = f.shared; local = kept } in
      elim (Option-cases (get_local_auth_state m.asked key w.local).0) [
        | inl missing ↦ rw (ask_local, missing) (Answered-compute m key w' o f')
        | inr (u, hit) ↦
            rw (ask_local, hit)
              (record {
                fresh = f';
                known = λ v h.
                    let same : u ≡ v = ground arith in
                    let k = known v (hit ∙ ap some same) in
                    record {
                      at = k.at;
                      value = k.value;
                      recent = let r = k.recent in omega (arith, r);
                    };
              })
      ]

  -- A call keeps the caches fresh, and answers from them or from the tables.
  pub get_user_auth_state-Answered :
      (m : Moments) (key : String) (w : World S)
      → Ordered m
      → Fresh w
      → Answered m key (get_user_auth_state cache db m key w)
  unfolding get_user_auth_state
  get_user_auth_state-Answered m key w o f = elim (Option-cases (cache.get key m.asked w.shared)) [
    | inl fails ↦ rw (fails, get_user_auth_state) (Answered-ask_local m key w o f)
    | inr (answer, e) ↦ elim (Option-cases answer) [
      | inl missing ↦ rw (e, missing, get_user_auth_state) (Answered-ask_local m key w o f)
      | inr (u, hit) ↦
          rw (e, hit, get_user_auth_state)
            (record {
              fresh = f;
              known = λ v h. f.shared key m.asked v (e ∙ ap some hit ∙ ap some h);
            })
    ]
  ]

  Fresh-invalidate :
      (key : String) (w : World S) → Fresh w → Fresh (invalidate_user_permissions cache db key w)
  unfolding invalidate_user_permissions delete_key
  Fresh-invalidate key w f = record {
    shared = λ other t u h. f.shared other t u (cache.get-del key w.shared other t u h);
    local = All-filter _ (λ x. not (has_key key x)) w.local f.local;
  }

  -- What a process does with its caches.
  pub data Operation : Type 0 where
    look : Moments → String → Operation
    forget : String → Operation

  abbrev pub IsOrdered : Operation → Type 0
  IsOrdered (look m key) = Ordered m
  IsOrdered (forget key) = Unit

  abbrev pub run : List Operation → World S → World S
  run [] w = w
  run (look m key ∷ ops) w = run ops (get_user_auth_state cache db m key w).1
  run (forget key ∷ ops) w = run ops (invalidate_user_permissions cache db key w)

  Fresh-run : (ops : List Operation) (w : World S) → All IsOrdered ops → Fresh w → Fresh (run ops w)
  Fresh-run [] w h f = f
  Fresh-run (look m key ∷ ops) w (o, h) f =
      let a = get_user_auth_state-Answered m key w o f in Fresh-run ops _ h a.fresh
  Fresh-run (forget key ∷ ops) w (o, h) f = Fresh-run ops _ h (Fresh-invalidate key w f)

  -- From empty caches on, after any calls and invalidations, a call answers with the permissions, the
  -- reset flag and the revocation instant that the tables held at most a minute before it (and the
  -- time that may lie between a read and its write), whichever cache or read answers, and whether or
  -- not the shared cache works.
  pub answer-Known :
      (ops : List Operation) (w : World S) (m : Moments) (key : String) (u : AuthState)
      → w.local ≡ []
      → ((other : String) (t : ℕ) (v : AuthState) → cache.get other t w.shared ≢ some (some v))
      → All IsOrdered ops
      → Ordered m
      → (get_user_auth_state cache db m key (run ops w)).0 ≡ some u
      → Known key shared_cache_ttl_ms m.asked u
  answer-Known ops w m key u no_local no_shared h o e =
      let f : Fresh w = record {
        shared = λ other t v k. absurd (no_shared other t v k);
        local = rw no_local tt;
      } in
      let a = get_user_auth_state-Answered m key (run ops w) o (Fresh-run ops w h f) in a.known u e
