-- ===== src/Review/Approve/Outcome.antt =====
-- When an approval commits: the guard on the version, and the slots that the curation resolves.
use odiseo_new.Common.{
  String, ◌===◌, ◌≡◌, ◌↔◌, refl, ◌∙◌, sym, ap, Bool, true, false, not, ◌&&◌, ◌||◌, some, List, [],
  ◌∷◌, map, filter, any, arith,
}
use odiseo_new.Common.Http.{ok}
use odiseo_new.Database.{updated}
use odiseo_new.Review.{
  ReviewQuestion, Request, Replacement, ApproveReviewDto, Context, ReviewDb, Reads, Job, World,
  Reply,
}
use odiseo_new.Review.Approve.Steps.{guarded-inv, approve-inv}
use odiseo_new.Review.Approve.Version.{find-of_any, any_id-of_version}
use odiseo_new.Review.Approve.{
  has_version, bumped, is_slot, is_empty, replaced_by, removed_slot, request_rows, request_with,
  questions_of, bump_version, curate, apply_replacements, apply_removals, guarded, has_empty,
  finish_review, approve,
}

-- An empty slot that `named` does not name.
abbrev pub open_slot : (String → Bool) → ReviewQuestion → Bool
open_slot named q = is_empty q.status && not (named q.id)

-- The slots that a curation names.
pub named_by : ApproveReviewDto → String → Bool
named_by dto id =
    any (λ r. id === r.review_question_id) dto.replacements || any (λ x. id === x) dto.removals

-- What a curation makes of a slot: it stays where it is, and is not empty.
record Fills (f : ReviewQuestion → ReviewQuestion) : Type 0 where
  id : (q : ReviewQuestion) → (f q).id ≡ q.id
  request : (q : ReviewQuestion) → (f q).material_request_id ≡ q.material_request_id
  filled : (q : ReviewQuestion) → is_empty (f q).status ≡ false

Fills-replaced_by : (question_id : String) → Fills (replaced_by question_id)
Fills-replaced_by x = record { id = λ q. refl; request = λ q. refl; filled = λ q. refl }

Fills-removed_slot : Fills removed_slot
Fills-removed_slot = record { id = λ q. refl; request = λ q. refl; filled = λ q. refl }

open-filled :
    (request_id id : String) (named : String → Bool) (f : ReviewQuestion → ReviewQuestion)
    (qs : List ReviewQuestion)
    → Fills f
    → any (open_slot named) (
        filter
          (λ q. q.material_request_id === request_id)
          (map (updated (is_slot request_id id) f) qs))
      ≡ any
          (open_slot (λ x. x === id || named x))
          (filter (λ q. q.material_request_id === request_id) qs)
open-filled request_id id named f [] g = refl
open-filled request_id id named f (q ∷ qs) g =
    ground (arith, open-filled request_id id named f qs g, g.id q, g.request q, g.filled q)

any_empty :
    (qs : List ReviewQuestion) → any (λ q. is_empty q.status) qs ≡ any (open_slot (λ x. false)) qs
any_empty [] = refl
any_empty (q ∷ qs) = ground (arith, any_empty qs)

-- Names are taken as functions, of which only the values matter.
open-congr :
    (p q : String → Bool) (qs : List ReviewQuestion)
    → ((x : String) → p x ≡ q x)
    → any (open_slot p) qs ≡ any (open_slot q) qs
open-congr p q [] e = refl
open-congr p q (x ∷ xs) e = rw (e x.id, open-congr p q xs e) refl

module _ (db : ReviewDb) where
  open-write :
      (request_id id : String) (named : String → Bool) (f : ReviewQuestion → ReviewQuestion)
      (w : World db)
      → Fills f
      → any (open_slot named) (
          filter
            (λ q. q.material_request_id === request_id)
            (db.questions.rows (db.questions.update (is_slot request_id id) f w.questions)))
        ≡ any (open_slot (λ x. x === id || named x)) (questions_of db request_id w)
  open-write request_id id named f w g =
      rw (db.questions.rows-update (is_slot request_id id) f w.questions)
        (open-filled request_id id named f (db.questions.rows w.questions) g)

  open-apply_replacements :
      (id : String) (named : String → Bool) (rs : List Replacement) (w : World db)
      → any (open_slot named) (questions_of db id (apply_replacements db id rs w))
        ≡ any
            (open_slot (λ x. any (λ r. x === r.review_question_id) rs || named x))
            (questions_of db id w)
  unfolding apply_replacements
  open-apply_replacements id named [] w = refl
  open-apply_replacements id named (r ∷ rs) w =
      open-apply_replacements id named rs _
      ∙ open-write id r.review_question_id _ _ w (Fills-replaced_by r.question_id)
      ∙ open-congr _ _ (questions_of db id w) (λ x. ground arith)

  open-apply_removals :
      (id : String) (named : String → Bool) (xs : List String) (w : World db)
      → any (open_slot named) (questions_of db id (apply_removals db id xs w))
        ≡ any (open_slot (λ y. any (λ x. y === x) xs || named y)) (questions_of db id w)
  unfolding apply_removals
  open-apply_removals id named [] w = refl
  open-apply_removals id named (x ∷ xs) w =
      open-apply_removals id named xs _
      ∙ open-write id x _ _ w Fills-removed_slot
      ∙ open-congr _ _ (questions_of db id w) (λ x. ground arith)

  has_empty-curate :
      (id : String) (dto : ApproveReviewDto) (w : World db)
      → has_empty db id (curate db id dto w) ≡ any (open_slot (named_by dto)) (questions_of db id w)
  unfolding has_empty curate named_by
  has_empty-curate id dto w =
      let w₁ = apply_replacements db id dto.replacements w in
      any_empty (questions_of db id (apply_removals db id dto.removals w₁))
      ∙ open-apply_removals id (λ x. false) dto.removals w₁
      ∙ open-apply_replacements id _ dto.replacements w
      ∙ open-congr _ _ (questions_of db id w) (λ x. ground arith)

  same_questions-bump :
      (id : String) (dto : ApproveReviewDto) (w w' : World db)
      → bump_version db id dto.version w ≡ ok w'
      → w'.questions ≡ w.questions
  unfolding bump_version
  same_questions-bump id dto w w' h = ground arith

  -- Whether the curated request has an empty slot, seen from before the transaction.
  pub has_empty-guarded :
      (id : String) (dto : ApproveReviewDto) (w w' : World db)
      → guarded db id dto w ≡ ok w'
      → has_empty db id w' ≡ any (open_slot (named_by dto)) (questions_of db id w)
  has_empty-guarded id dto w w' h =
      let g = guarded-inv db id dto w w' h in
      ap (has_empty db id) (sym g.curated)
      ∙ has_empty-curate id dto g.bumped
      ∙ ap
          (λ (s : db.Questions).
            any (open_slot (named_by dto))
              (filter (λ q. q.material_request_id === id) (db.questions.rows s)))
          (same_questions-bump id dto w g.bumped g.bump)

  guarded-at_version :
      (id : String) (dto : ApproveReviewDto) (w : World db)
      → any (has_version id dto.version) (request_rows db w) ≡ true
      → (r : Request) × (w' : World db) × (request_with db id w ≡ some r)
        × (guarded db id dto w ≡ ok w')
  unfolding guarded bump_version
  guarded-at_version id dto w found =
      let (r, e) = find-of_any id (request_rows db w) (any_id-of_version id dto.version _ found) in
      let w₁ = record w {
        requests = db.requests.update (has_version id dto.version) bumped w.requests;
      } in
      (r, curate db id dto w₁, e, ground arith)

  version-of_guarded :
      (id : String) (dto : ApproveReviewDto) (w w' : World db)
      → guarded db id dto w ≡ ok w'
      → any (has_version id dto.version) (request_rows db w) ≡ true
  unfolding bump_version
  version-of_guarded id dto w w' h =
      let g = guarded-inv db id dto w w' h in let e = g.bump in ground arith

  -- An approval commits exactly if the request is still at the version that the client has seen, and
  -- either the client goes on with warnings or each empty slot of the request is one that the
  -- curation replaces or removes.
  pub approve_commits_iff :
      (reads : Reads) (ctx : Context) (id : String) (dto : ApproveReviewDto) (w : World db)
      → ((out : World db × List Job × Reply) × (approve db reads ctx id dto w ≡ ok out)) ↔ (
          (any (has_version id dto.version) (request_rows db w) ≡ true)
          × ((dto.continue_with_warnings
                || not (any (open_slot (named_by dto)) (questions_of db id w)))
              ≡ true))
  unfolding approve
  approve_commits_iff reads ctx id dto w = (
    λ (out, h).
        let a = approve-inv db reads ctx id dto w h in
        let resolved = a.resolved in
        let empty = has_empty-guarded id dto w a.curated a.passed in
        (version-of_guarded id dto w a.curated a.passed, ground arith),
    λ (found, resolved).
        let (r, w', e, passed) = guarded-at_version id dto w found in
        let empty = has_empty-guarded id dto w w' passed in
        (finish_review db reads ctx dto r w', ground arith),
  )
