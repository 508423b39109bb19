-- ===== src/Selection/Shuffle.antt =====
-- The Fisher-Yates helper of the selection: it only reorders.
use mathlib.Core.List.{Perm, perm-cons}
use mathlib.Core.List.Perm
use odiseo_new.Common.{
  ℕ, zero, suc, ◌%◌, ◌-◌, ◌≡◌, refl, inl, inr, some, List, [], ◌∷◌, arith, length, get_elem?, set,
  Option-cases,
}
use odiseo_new.Selection.{swap, shuffle_from, shuffle}

module _ {ℓ} {A : Type ℓ} where
  -- Overwriting an item exchanges it with the new one.
  set_perm :
      (xs : List A) (i : ℕ) (a b : A) → get_elem? xs i ≡ some a → Perm (b ∷ xs) (a ∷ set xs i b)
  set_perm [] i a b h = cc
  set_perm (x ∷ xs) zero a b h = let e : x ≡ a = ground arith in rw (← e) (Perm.swap _ _ xs)
  set_perm (x ∷ xs) (suc i) a b h =
      Perm.trans (Perm.swap _ _ xs)
        (Perm.trans (Perm.cons x (set_perm xs i a b h)) (Perm.swap _ _ (set xs i b)))

  get_elem?-set :
      (xs : List A) (i j : ℕ) (a b : A)
      → get_elem? xs i ≡ some a
      → get_elem? xs j ≡ some b
      → get_elem? (set xs i b) j ≡ some b
  get_elem?-set [] i j a b h k = k
  get_elem?-set (x ∷ xs) zero zero a b h k = refl
  get_elem?-set (x ∷ xs) zero (suc j) a b h k = k
  get_elem?-set (x ∷ xs) (suc i) zero a b h k = k
  get_elem?-set (x ∷ xs) (suc i) (suc j) a b h k = get_elem?-set xs i j a b h k

  swap-perm : (i j : ℕ) (xs : List A) → Perm (swap i j xs) xs
  unfolding swap
  swap-perm i j xs = elim (Option-cases (get_elem? xs i)) [
    | inl out ↦ rw (out, swap) (Perm.refl xs)
    | inr (a, at_i) ↦ elim (Option-cases (get_elem? xs j)) [
      | inl out ↦ rw (at_i, out, swap) (Perm.refl xs)
      | inr (b, at_j) ↦
          rw (at_i, at_j, swap)
            (Perm.symm (
              (perm-cons b).0 (
                Perm.trans (set_perm xs i a b at_i)
                  (set_perm (set xs i b) j b a (get_elem?-set xs i j a b at_i at_j)))))
    ]
  ]

  shuffle_from-perm : (pick : ℕ → ℕ) (i : ℕ) (xs : List A) → Perm (shuffle_from pick i xs) xs
  unfolding shuffle_from
  shuffle_from-perm pick zero xs = Perm.refl xs
  shuffle_from-perm pick (suc i) xs =
      Perm.trans (shuffle_from-perm pick i (swap (suc i) (pick (suc i) % suc (suc i)) xs))
        (swap-perm (suc i) (pick (suc i) % suc (suc i)) xs)

  -- The shuffle only reorders: its result has the same items as often, whatever is drawn.
  pub shuffle-perm : (pick : ℕ → ℕ) (xs : List A) → Perm (shuffle pick xs) xs
  unfolding shuffle
  shuffle-perm pick xs = shuffle_from-perm pick (length xs - 1) xs
