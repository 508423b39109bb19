-- ===== src/Review/Approve/Examples.antt =====
-- Curations of a request with two courses, and instances of the theorems.
use odiseo_new.Common.{
  Bool, All, ℕ, suc, map, ◌≤◌, ◌<◌, ◌+◌, String, ◌≡◌, ◌↔◌, refl, true, false, not, ◌||◌, none, some,
  List, [], ◌∷◌, any, arith,
}
use odiseo_new.Common.Http.{Result, ok, err, conflict, bad_request}
use odiseo_new.Database.Memory.{in_memory}
use odiseo_new.Webhook.{CourseStatus, RequestStatus, Material}
use odiseo_new.AcademicTime.{Template, Scope}
use odiseo_new.Syllabus.{Distribution}
use odiseo_new.Review.{
  QuestionStatus, ReviewQuestion, Request, Course, ApproveReviewDto, Context, ReviewDb, Reads, Job,
  World, Reply, draft_saved,
}
use odiseo_new.Review.Approve.{
  Operation, draft, approval, commit, perform, perform_all, approve, request_rows, courses_of,
  questions_of, has_version, in_scope,
}
use odiseo_new.Review.Approve.Version.{one_operation_per_version}
use odiseo_new.Review.Approve.Outcome.{open_slot, named_by, approve_commits_iff}
use odiseo_new.Review.Approve.Jobs.{HasDocuments, Effect, in_scope_iff, approve-Effect}
use odiseo_new.Review.Approve.Others.{Untouched, perform-Untouched}

-- The tables in memory; a save counts the version up by one.
abbrev memory : ReviewDb
memory = record {
  Requests = List Request;
  Courses = List Course;
  Questions = List ReviewQuestion;
  Materials = List Material;
  requests = in_memory;
  courses = in_memory;
  questions = in_memory;
  materials = in_memory;
  saved_version = λ r status. suc r.version;
  saved_version-grows = λ r status. omega arith;
}

abbrev request : String → Request
request id = record {
  id = id;
  profile_id = "profile";
  cycle_id = "cycle";
  week_number = 5;
  status = RequestStatus.review_required;
  material_type = "BALOTARIO";
  design_template_id = none;
  material_id = some "material";
  version = 3;
}

abbrev course : String → String → Course
course id request_id = record {
  id = id;
  material_request_id = request_id;
  course_id = "algebra";
  status = CourseStatus.pending;
  download_url = none;
  key_download_url = none;
  solution_download_url = none;
  warnings = none;
}

abbrev slot : String → ℕ → QuestionStatus → ReviewQuestion
slot id position status = record {
  id = id;
  material_request_id = "r1";
  question_id = none;
  topic_id = "t";
  subtopic_id = "s";
  expected_level = some "EASY";
  position = position;
  status = status;
}

abbrev world : World memory
world = record {
  requests = request "r1" ∷ request "r2" ∷ [];
  courses = course "c1" "r1" ∷ course "c2" "r1" ∷ course "c3" "r2" ∷ [];
  questions = slot "q1" 1 QuestionStatus.found ∷ slot "q2" 2 QuestionStatus.empty ∷ [];
  materials = record { id = "material"; status = RequestStatus.review_required } ∷ [];
  jobs = [];
}

abbrev template : Template
template = record {
  id = "profile";
  cycle_id = "cycle";
  name = "Semanal";
  scope = Scope.accumulative;
  accumulation_weeks = some 2;
}

abbrev cell : String → ℕ → Distribution
cell id week = record {
  id = id;
  syllabus_id = "syllabus";
  template_id = none;
  week_number = week;
  topic_id = "t";
  subtopic_id = "s";
  question_count = week;
  is_generated = false;
}

abbrev reads : Reads
reads = record {
  companies = record { id = "tenant"; commercial_name = some "Odiseo"; logo_url = none } ∷ [];
  templates = template ∷ [];
  syllabuses =
      record {
        id = "syllabus";
        cycle_id = "cycle";
        course_id = "algebra";
        name = "Algebra";
        template_id = none;
        is_active = true;
      }
      ∷ [];
  distributions = cell "d3" 3 ∷ cell "d4" 4 ∷ cell "d5" 5 ∷ cell "d6" 6 ∷ [];
}

abbrev context : Context
context = record { tenant_id = "tenant"; user_id = "user" }

abbrev removal : ℕ → ApproveReviewDto
removal version = record {
  version = version;
  continue_with_warnings = false;
  replacements = [];
  removals = "q2" ∷ [];
}

abbrev approve_it : Operation
approve_it = approval reads context (λ queue j. true) "r1" (removal 3)

-- The jobs of both courses ask for the weeks 4 and 5.
quotas : List (List ℕ)
unfolding perform
quotas =
    map (λ j. map (λ q. q.quantity) j.syllabus_distribution)
      (perform memory approve_it world).0.jobs

two_weeks : quotas ≡ (4 ∷ 5 ∷ []) ∷ (4 ∷ 5 ∷ []) ∷ []
unfolding perform quotas
two_weeks = refl

-- The slot that is still empty is refused.
still_empty :
    (perform memory
      (approval reads context (λ queue j. true) "r1" (record (removal 3) { removals = [] }))
      world).1
    ≡ err bad_request
unfolding perform
still_empty = refl

abbrev value_or {ℓ} : {V : Type ℓ} → V → Result V → V
value_or d (ok v) = v
value_or d (err e) = d

out : World memory × List Job × Reply
unfolding commit
out = value_or (world, [], draft_saved) (commit memory approve_it world)

done : commit memory approve_it world ≡ ok (out.0, out.1, out.2)
unfolding out commit
done = refl

one_operation_per_version_example :
    let now =
      perform_all memory
        (draft "r1" (removal 4) ∷ draft "r2" (removal 3) ∷ [])
        (perform memory approve_it world).0 in
    perform memory (draft "r1" (removal 3)) now ≡ (now, err conflict)
one_operation_per_version_example =
    one_operation_per_version memory approve_it (draft "r1" (removal 3))
      (draft "r1" (removal 4) ∷ draft "r2" (removal 3) ∷ []) world out.0 out.1 out.2
      ((refl, tt), (tt, tt)) done refl refl

approve_commits_iff_example :
    ((out : World memory × List Job × Reply) × (approve memory reads context "r1" (removal 3) world
        ≡ ok out))
    ↔ ((any (has_version "r1" 3) (request_rows memory world) ≡ true)
        × ((false || not (any (open_slot (named_by (removal 3))) (questions_of memory "r1" world)))
            ≡ true))
approve_commits_iff_example = approve_commits_iff memory reads context "r1" (removal 3) world

approve-Effect_example :
    (unchanged : Bool) × ((unchanged ≡ true) ↔ (
      All HasDocuments (courses_of memory "r1" world)
      × ((removal 3).replacements ≡ [])
      × ((removal 3).removals ≡ [])))
    × Effect memory context
        (request "r1")
        unchanged
        (any (open_slot (named_by (removal 3))) (questions_of memory "r1" world))
        (courses_of memory "r1" world)
        out.0
        out.1
        out.2
unfolding approve commit
approve-Effect_example =
    approve-Effect memory reads context "r1" (removal 3) (request "r1") world out.0 out.1 out.2 refl
      done

in_scope_iff_example : (in_scope template 5 4 ≡ true) ↔ ((4 ≤ 5) × (5 < 4 + 2))
in_scope_iff_example = in_scope_iff template 5 4 2 refl refl (omega arith) (omega arith)

perform-Untouched_example : Untouched memory "r2" world (perform memory approve_it world).0
perform-Untouched_example = perform-Untouched memory "r2" approve_it world refl refl
