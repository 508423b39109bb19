-- ===== src/Generation/Plan/Levels.antt =====
-- The pool of levels of a course.
use mathlib.Core.List.{Perm}
use odiseo_new.Common.{
  ℕ, zero, suc, ◌+◌, ◌-◌, ◌≤◌, leb, String, ◌≡◌, ◌↔◌, refl, ◌∙◌, ap, Bool-cases, Option, none, some,
  inl, inr, List, ◌++◌, length, length-append, replicate, if◌then◌else◌, arith,
}
use odiseo_new.Common.Http.{ok, ok-inj}
use odiseo_new.AcademicTime.{TemplateCourse}
use odiseo_new.Selection.{shuffle}
use odiseo_new.Selection.Shuffle.{shuffle-perm}
use odiseo_new.Selection.Pools.{length-perm}
use odiseo_new.Generation.Plan.{
  adjusted, target_quantity, easy_count, medium_count, hard_count, levels, levels_pool,
}

length-replicate {ℓ} : {A : Type ℓ} (n : ℕ) (x : A) → length (replicate n x) ≡ n
length-replicate zero x = refl
length-replicate (suc n) x = ap suc (length-replicate n x)

adjusted_lem :
    (target easy medium hard : ℕ)
    → adjusted target (easy + medium + hard) hard
      ≡ (if leb (easy + medium) target then some (target - easy - medium) else none)
adjusted_lem target easy medium hard = ground arith

hard_count_lem :
    (tc : Option TemplateCourse)
    → hard_count tc ≡ (
        if leb (easy_count tc + medium_count tc) (target_quantity tc)
        then some (target_quantity tc - easy_count tc - medium_count tc)
        else none)
hard_count_lem tc = adjusted_lem (target_quantity tc) (easy_count tc) (medium_count tc) _

pub levels_pool_lem :
    (pick : ℕ → ℕ) (tc : Option TemplateCourse) (pool : List String)
    → levels_pool pick tc ≡ ok pool
    → (easy_count tc + medium_count tc ≤ target_quantity tc)
      × Perm pool (
          levels
            (easy_count tc)
            (medium_count tc)
            (target_quantity tc - easy_count tc - medium_count tc))
unfolding levels_pool
levels_pool_lem pick tc pool h =
    elim (Bool-cases (leb (easy_count tc + medium_count tc) (target_quantity tc))) [
      | inl fits ↦
          let hard : hard_count tc ≡ some (target_quantity tc - easy_count tc - medium_count tc) =
            hard_count_lem tc ∙ rw fits refl in
          let e = ok-inj (rw (hard, levels_pool) at h) in
          (ground arith, rw (← e) (shuffle-perm pick _))
      | inr over ↦
          let hard : hard_count tc ≡ none = hard_count_lem tc ∙ rw over refl in
          let e = rw (hard, levels_pool) at h in ground arith
    ]

-- The levels of a course can be made up exactly if the easy and the medium questions do not exceed
-- the target; else the call throws.
pub levels_pool_iff :
    (pick : ℕ → ℕ) (tc : Option TemplateCourse)
    → ((pool : List String) × (levels_pool pick tc ≡ ok pool))
      ↔ (easy_count tc + medium_count tc ≤ target_quantity tc)
unfolding levels_pool
levels_pool_iff pick tc = (
  λ (pool, h). (levels_pool_lem pick tc pool h).0,
  λ fits.
      let hard : hard_count tc ≡ some (target_quantity tc - easy_count tc - medium_count tc) =
        hard_count_lem tc ∙ ground arith in
      (
        shuffle pick (
            levels (easy_count tc) (medium_count tc)
              (target_quantity tc - easy_count tc - medium_count tc)),
        rw (hard, levels_pool) refl,
      ),
)

length-levels : (easy medium hard : ℕ) → length (levels easy medium hard) ≡ easy + (medium + hard)
length-levels easy medium hard =
    let e : List String = replicate easy "EASY" in
    let m : List String = replicate medium "MEDIUM" in
    let h : List String = replicate hard "HARD" in
    rw
      (
        length-append (e ++ m) h,
        length-append e m,
        length-replicate {A = String} easy "EASY",
        length-replicate {A = String} medium "MEDIUM",
        length-replicate {A = String} hard "HARD",
      )
      (omega arith)

pub length-levels_pool :
    (pick : ℕ → ℕ) (tc : Option TemplateCourse) (pool : List String)
    → levels_pool pick tc ≡ ok pool
    → length pool ≡ target_quantity tc
length-levels_pool pick tc pool h =
    let (fits, p) = levels_pool_lem pick tc pool h in
    omega (
      arith,
      length-perm p,
      length-levels (easy_count tc) (medium_count tc)
          (target_quantity tc - easy_count tc - medium_count tc),
    )
