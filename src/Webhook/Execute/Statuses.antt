-- ===== src/Webhook/Execute/Statuses.antt =====
-- What the statuses of the courses make of their request.
use odiseo_new.Common.{
  ◌≡◌, ◌≢◌, ◌≤◌, ◌↔◌, refl, inl, inr, true, false, Bool-cases, some, length, any, All, List, [],
  ◌∷◌, arith,
}
use odiseo_new.Webhook.{CourseStatus, RequestStatus, Course, Request}
use odiseo_new.Webhook.Execute.{
  is_failed, is_finished, is_final_success, final_status, all_finished, should_merge,
}

-- No course failed.
abbrev pub NoneFailed : List Course → Type 0
NoneFailed cs = All (λ c. c.status ≢ CourseStatus.failed) cs

-- No course waits for its job or for its result.
abbrev pub NoneOpen : List Course → Type 0
NoneOpen cs = All (λ c. (c.status ≢ CourseStatus.pending) × (c.status ≢ CourseStatus.processing)) cs

abbrev pub AllCompleted : List Course → Type 0
AllCompleted cs = All (λ c. c.status ≡ CourseStatus.completed) cs

is_failed_iff : (s : CourseStatus) → (is_failed s ≡ false) ↔ (s ≢ CourseStatus.failed)
is_failed_iff s = ground arith

is_finished_iff :
    (s : CourseStatus)
    → (is_finished s ≡ true) ↔ ((s ≢ CourseStatus.pending) × (s ≢ CourseStatus.processing))
is_finished_iff s = ground arith

pub any_failed_iff : (cs : List Course) → (any (λ c. is_failed c.status) cs ≡ false) ↔ NoneFailed cs
any_failed_iff [] = (λ h. tt, λ h. refl)
any_failed_iff (c ∷ cs) =
    let one = is_failed_iff c.status in
    let rest = any_failed_iff cs in
    (
      λ h. (one.0 (ground (arith, h)), rest.0 (ground (arith, h))),
      λ (x, xs). let x' = one.1 x in let xs' = rest.1 xs in ground (arith, x', xs'),
    )

pub all_finished_iff : (cs : List Course) → (all_finished cs ≡ true) ↔ NoneOpen cs
unfolding all_finished
all_finished_iff [] = (λ h. tt, λ h. refl)
all_finished_iff (c ∷ cs) =
    let one = is_finished_iff c.status in
    let rest = all_finished_iff cs in
    (
      λ h. (one.0 (ground (arith, h)), rest.0 (ground (arith, h))),
      λ (x, xs). let x' = one.1 x in let xs' = rest.1 xs in ground (arith, x', xs'),
    )

-- A finished request is COMPLETED exactly if each of its courses is: one failed, empty or incomplete
-- course keeps it out of that status.
final_status_completed_iff :
    (siblings : List Course)
    → all_finished siblings ≡ true
    → (final_status siblings ≡ RequestStatus.completed) ↔ AllCompleted siblings
unfolding all_finished final_status
final_status_completed_iff [] h = ground arith
final_status_completed_iff (c ∷ cs) h =
    let ih = final_status_completed_iff cs in
    let tail : all_finished cs ≡ true = ground arith in ground (arith, ih tail)

final_status_failed_iff :
    (siblings : List Course)
    → (final_status siblings ≡ RequestStatus.failed)
      ↔ (any (λ c. is_failed c.status) siblings ≡ true)
unfolding final_status
final_status_failed_iff siblings = ground arith

final_status_other :
    (siblings : List Course)
    → final_status siblings ≢ RequestStatus.failed
    → final_status siblings ≢ RequestStatus.completed
    → final_status siblings ≡ RequestStatus.review_required
unfolding final_status
final_status_other siblings h k = ground (arith, h, k)

-- The status that finished courses make up: FAILED if one failed, COMPLETED if all are, and else
-- REVIEW_REQUIRED.
pub record MakesUp (siblings : List Course) (s : RequestStatus) : Type 0 where
  pub failed : (s ≡ RequestStatus.failed) ↔ (¬ NoneFailed siblings)
  pub completed : (s ≡ RequestStatus.completed) ↔ AllCompleted siblings
  pub other :
      s ≢ RequestStatus.failed → s ≢ RequestStatus.completed → s ≡ RequestStatus.review_required

pub final_status-MakesUp :
    (siblings : List Course)
    → all_finished siblings ≡ true
    → MakesUp siblings (final_status siblings)
final_status-MakesUp siblings h =
    let none_there = any_failed_iff siblings in
    let failed = final_status_failed_iff siblings in
    record {
      failed = (
        λ e n. let x = none_there.1 n in let y = failed.0 e in absurd (ground (arith, x, y)),
        λ out. elim (Bool-cases (any (λ c. is_failed c.status) siblings)) [
          | inl some_failed ↦ failed.1 some_failed
          | inr none_failed ↦ absurd (out (none_there.0 none_failed))
        ],
      );
      completed = final_status_completed_iff siblings h;
      other = final_status_other siblings;
    }

-- When the courses are merged: none failed, there are two or more, and the request was not finished
-- with success before.
abbrev pub Merges : Request → List Course → Type 0
Merges r siblings =
    NoneFailed siblings
    × (2 ≤ length siblings)
    × (r.status ≢ RequestStatus.completed)
    × (r.status ≢ RequestStatus.review_required)

is_final_success_iff :
    (s : RequestStatus)
    → (is_final_success s ≡ false)
      ↔ ((s ≢ RequestStatus.completed) × (s ≢ RequestStatus.review_required))
is_final_success_iff s = ground arith

pub should_merge_iff :
    (r : Request) (siblings : List Course)
    → (should_merge (some r) siblings ≡ true) ↔ Merges r siblings
unfolding should_merge
should_merge_iff r siblings =
    let none_there = any_failed_iff siblings in
    let fresh = is_final_success_iff r.status in
    (
      λ h.
          let (a, b) = fresh.0 (ground (arith, h)) in
          (none_there.0 (ground (arith, h)), ground (arith, h), a, b),
      λ (n, two, a, b).
          let x = none_there.1 n in let y = fresh.1 (a, b) in ground (arith, x, two, y),
    )
