-- ===== src/Database/Rows.antt =====
-- Reading a row after an update.
use odiseo_new.Common.{
  String, ◌===◌, eq_iff, ◌≡◌, refl, Bool, true, false, none, some, List, [], ◌∷◌, map, find?,
  filter, ◌&&◌, arith,
}
use odiseo_new.Database.{updated}

module _ {Row : Type 0} (id_of : Row → String) (f : Row → Row)
    (keeps : (r : Row) → id_of (f r) ≡ id_of r) (id : String) where
  -- The row of the id that is updated.
  pub find?-updated_self :
      (rs : List Row) {r : Row}
      → find? (λ x. id_of x === id) rs ≡ some r
      → find? (λ x. id_of x === id) (map (updated (λ x. id_of x === id) f) rs) ≡ some (f r)
  find?-updated_self [] h = cc
  find?-updated_self (x ∷ rs) {r} h = ground (arith, keeps x, find?-updated_self rs {r = r})

  find?-updated-none :
      (rs : List Row)
      → find? (λ x. id_of x === id) rs ≡ none
      → find? (λ x. id_of x === id) (map (updated (λ x. id_of x === id) f) rs) ≡ none
  find?-updated-none [] h = refl
  find?-updated-none (x ∷ rs) h = ground (arith, keeps x, find?-updated-none rs)

  -- The row of another id.
  pub find?-updated_ne :
      (other : String) (rs : List Row)
      → (id === other) ≡ false
      → find? (λ x. id_of x === other) (map (updated (λ x. id_of x === id) f) rs)
        ≡ find? (λ x. id_of x === other) rs
  find?-updated_ne other [] ne = refl
  find?-updated_ne other (x ∷ rs) ne = ground (
    arith,
    keeps x,
    find?-updated_ne other rs ne,
    eq_iff id other,
    eq_iff (id_of x) id,
    eq_iff (id_of x) other,
  )

-- What a search finds passes its test.
pub find?-test {ℓ} :
    {A : Type ℓ} (p : A → Bool) (xs : List A) {x : A} → find? p xs ≡ some x → p x ≡ true
find?-test p [] h = cc
find?-test p (y ∷ xs) {x} h = ground (arith, find?-test p xs {x = x})

-- Rows that an update does not find are read as they were.
pub filter-updated_other :
    {Row : Type 0} (p u : Row → Bool) (f : Row → Row) (rs : List Row)
    → ((r : Row) → p (f r) ≡ p r)
    → ((r : Row) → (p r && u r) ≡ false)
    → filter p (map (updated u f) rs) ≡ filter p rs
filter-updated_other p u f [] keeps apart = refl
filter-updated_other p u f (r ∷ rs) keeps apart =
    ground (arith, keeps r, apart r, filter-updated_other p u f rs keeps apart)
