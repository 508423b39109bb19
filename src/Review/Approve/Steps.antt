-- ===== src/Review/Approve/Steps.antt =====
-- An approval and a draft that commit, taken apart.
use odiseo_new.Common.{
  String, ◌≡◌, Bool, false, not, ◌&&◌, Option-cases, some, inl, inr, List, arith,
}
use odiseo_new.Common.Http.{bad_request, ok, >>=-eq-ok, ok-inj, throw_if}
use odiseo_new.Review.{Request, ApproveReviewDto, Context, ReviewDb, Reads, Job, World, Reply}
use odiseo_new.Review.Approve.{
  request_with, bump_version, curate, guarded, has_empty, finish_review, approve,
}

throw_if-ok : (b : Bool) {u : Unit {0}} → throw_if b bad_request ≡ ok u → b ≡ false
throw_if-ok b h = ground arith

module _ (db : ReviewDb) where
  pub record Guarded (id : String) (dto : ApproveReviewDto) (w w' : World db) : Type 0 where
    pub request : Request
    pub found : request_with db id w ≡ some request
    pub bumped : World db
    pub bump : bump_version db id dto.version w ≡ ok bumped
    pub curated : curate db id dto bumped ≡ w'

  pub guarded-inv :
      (id : String) (dto : ApproveReviewDto) (w w' : World db)
      → guarded db id dto w ≡ ok w'
      → Guarded id dto w w'
  unfolding guarded
  guarded-inv id dto w w' h = elim (Option-cases (request_with db id w)) [
    | inl gone ↦ ground arith
    | inr (r, found) ↦
        let (w₁, e, k) =
          >>=-eq-ok (bump_version db id dto.version w) _ (rw (found, guarded) at h) in
        record { request = r; found = found; bumped = w₁; bump = e; curated = ok-inj k }
  ]

  pub record Approved (reads : Reads) (ctx : Context) (id : String) (dto : ApproveReviewDto)
      (w : World db) (out : World db × List Job × Reply) : Type 0 where
    pub request : Request
    pub found : request_with db id w ≡ some request
    pub curated : World db
    pub passed : guarded db id dto w ≡ ok curated
    pub resolved : (has_empty db id curated && not dto.continue_with_warnings) ≡ false
    pub finished : finish_review db reads ctx dto request curated ≡ out

  pub approve-inv :
      (reads : Reads) (ctx : Context) (id : String) (dto : ApproveReviewDto) (w : World db)
      {out : World db × List Job × Reply}
      → approve db reads ctx id dto w ≡ ok out
      → Approved reads ctx id dto w out
  unfolding approve
  approve-inv reads ctx id dto w h = elim (Option-cases (request_with db id w)) [
    | inl gone ↦ ground arith
    | inr (r, found) ↦
        let (w₁, e, k) = >>=-eq-ok (guarded db id dto w) _ (rw (found, approve) at h) in
        let (u, e', k') =
          >>=-eq-ok (throw_if (has_empty db id w₁ && not dto.continue_with_warnings) bad_request) _
            k in
        record {
          request = r;
          found = found;
          curated = w₁;
          passed = e;
          resolved = throw_if-ok _ e';
          finished = ok-inj k';
        }
  ]
