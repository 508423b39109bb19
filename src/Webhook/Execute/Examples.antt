-- ===== src/Webhook/Execute/Examples.antt =====
-- Callbacks for a request with two courses, and instances of the theorems.
use odiseo_new.Common.{
  ◌≤◌, String, ◌===◌, ◌≡◌, ◌≢◌, refl, ap, Bool, true, false, not, Option, none, some, List, [], ◌∷◌,
  ◌++◌, filter,
}
use odiseo_new.Common.Http.{ok, err, bad_request, internal}
use odiseo_new.Database.Memory.{in_memory}
use odiseo_new.Webhook.{
  CourseStatus, RequestStatus, Course, Request, Material, Usage, Database, StatusDto, Env, World,
}
use odiseo_new.Webhook.Execute.{
  map_status, all_finished, final_status, should_merge, course_with, siblings_of, course_update,
  write_course, write_ledger, close_request, dispatch_merge, finish_request, roll_up,
  emit_generated, transition, handle_course, execute,
}
use odiseo_new.Webhook.Execute.Delivery.{
  Callback, deliver, deliver_all, success_persists, execute_idempotent,
}
use odiseo_new.Webhook.Execute.Rollup.{Outcome, transition_rolls_up}
use odiseo_new.Webhook.Execute.Jobs.{merges}
use odiseo_new.Webhook.Execute.Merge.{merge_once}
use odiseo_new.Webhook.Execute.Total.{Returns, execute_total}

-- The tables in memory.
abbrev memory : Database
memory = record {
  Courses = List Course;
  Requests = List Request;
  Materials = List Material;
  Usages = List Usage;
  courses = in_memory;
  requests = in_memory;
  materials = in_memory;
  usages = record {
    rows = λ s. s;
    delete = λ p s. some (filter (λ u. not (p u)) s);
    insert_or_ignore = λ us s. some (s ++ us);
  };
  is_uuid = λ s. not (s === "unknown");
}

abbrev course : String → CourseStatus → Course
course id status = record {
  id = id;
  material_request_id = "r1";
  course_id = "algebra";
  status = status;
  download_url = none;
  key_download_url = none;
  solution_download_url = none;
  warnings = none;
  page_count = none;
  file_size_bytes = none;
  completed_at = none;
}

abbrev request : Request
request = record {
  id = "r1";
  cycle_id = "cycle";
  week_number = 3;
  status = RequestStatus.processing;
  material_id = some "m1";
}

abbrev world : CourseStatus → CourseStatus → World memory
world a b = record {
  courses = course "j1" a ∷ course "j2" b ∷ [];
  requests = request ∷ [];
  materials = record { id = "m1"; status = RequestStatus.processing } ∷ [];
  usages = [];
  jobs = [];
  events = [];
}

abbrev start : World memory
start = world CourseStatus.processing CourseStatus.processing

abbrev env : Env
env = record { now = 7; company_id = some "c1"; queue_accepts = true }

abbrev report : String → String → StatusDto
report id status = record {
  job_id = some id;
  status = some status;
  download_url = some "url";
  key_download_url = none;
  solution_download_url = none;
  error_message = none;
}

abbrev callback : String → String → Callback
callback id status = record { env = env; dto = report id status; usages = []; meta = none }

abbrev is_failure : Option String → Bool
is_failure none = false
is_failure (some s) = s === "failed"

abbrev both : List Callback
both = callback "j1" "completed" ∷ callback "j2" "completed" ∷ callback "j2" "completed" ∷ []

-- The last course closes the request and adds the merge job; the repeated callback is ignored.
delivered :
    deliver_all memory both start ≡ record (world CourseStatus.completed CourseStatus.completed) {
      courses =
          course_update env
            (report "j1" "completed")
            none
            CourseStatus.completed
            (course "j1" CourseStatus.processing)
          ∷ course_update env
              (report "j2" "completed")
              none
              CourseStatus.completed
              (course "j2" CourseStatus.processing)
          ∷ [];
      requests = record request { status = RequestStatus.completed } ∷ [];
      materials = record { id = "m1"; status = RequestStatus.completed } ∷ [];
      jobs = record { material_request_id = "r1"; tenant_id = "c1" } ∷ [];
      events =
          record { cycle_id = "cycle"; course_id = "algebra"; week_number = 3 }
          ∷ record { cycle_id = "cycle"; course_id = "algebra"; week_number = 3 }
          ∷ [];
    }
unfolding deliver_all deliver execute map_status handle_course transition roll_up all_finished
    write_ledger write_course course_update emit_generated finish_request should_merge
    dispatch_merge close_request final_status
delivered = refl

no_status :
    execute memory env (record (report "j1" "completed") { status = none }) [] none start
    ≡ err bad_request
unfolding execute
no_status = refl

-- A `job_id` that is no uuid ends in a 500.
no_uuid : execute memory env (report "unknown" "failed") [] none start ≡ err internal
unfolding execute map_status
no_uuid = refl

success_persists_example :
    course_with memory "j1" (
      deliver_all memory
        (callback "j1" "failed" ∷ callback "j2" "failed" ∷ [])
        (world CourseStatus.completed CourseStatus.processing))
    ≡ some (course "j1" CourseStatus.completed)
success_persists_example =
    success_persists memory (callback "j1" "failed" ∷ callback "j2" "failed" ∷ [])
      (world CourseStatus.completed CourseStatus.processing) "j1"
      (course "j1" CourseStatus.completed) refl refl

execute_idempotent_example :
    let w' = deliver_all memory (callback "j1" "completed" ∷ []) start in
    execute memory (record env { now = 9 }) (report "j1" "completed") [] none w' ≡ ok w'
unfolding deliver_all deliver execute map_status handle_course transition roll_up all_finished
    write_ledger write_course course_update emit_generated finish_request should_merge
    dispatch_merge close_request final_status
execute_idempotent_example =
    execute_idempotent memory env (record env { now = 9 }) (report "j1" "completed") [] [] none none
      start (deliver_all memory (callback "j1" "completed" ∷ []) start) refl

transition_rolls_up_example :
    let w' =
      deliver_all memory
        (callback "j2" "completed" ∷ [])
        (world CourseStatus.completed CourseStatus.processing) in
    Outcome memory env "r1" request
      (siblings_of memory "r1" w')
      (world CourseStatus.completed CourseStatus.processing)
      w'
unfolding deliver_all deliver execute map_status handle_course transition roll_up all_finished
    write_ledger write_course course_update emit_generated finish_request should_merge
    dispatch_merge close_request final_status
transition_rolls_up_example =
    transition_rolls_up memory env (report "j2" "completed") [] none CourseStatus.completed
      (course "j2" CourseStatus.processing) request
      (world CourseStatus.completed CourseStatus.processing)
      (deliver_all memory (callback "j2" "completed" ∷ [])
        (world CourseStatus.completed CourseStatus.processing))
      refl refl

not_failed : (callback "j1" "completed").dto.status ≢ some "failed"
not_failed e = let h : false ≡ true = ap (λ s. is_failure s) e in cc

merge_once_example : merges "r1" (deliver_all memory both start).jobs ≤ 1
merge_once_example =
    merge_once memory both start "r1" request (not_failed, (not_failed, (not_failed, tt))) refl refl

execute_total_example : Returns (execute memory env (report "j9" "failed") [] none start)
unfolding map_status
execute_total_example =
    execute_total memory env refl (report "j9" "failed") [] none start "j9" "failed"
      CourseStatus.failed refl refl refl refl refl
