-- ===== src/Webhook.antt =====
-- The callback of the PDF worker:
-- backend-nestjs/src/materials/use-cases/handle-material-webhook.use-case.ts, with the statuses of
-- backend-nestjs/src/materials/entities/material-request-course.entity.ts and material-status.enum.ts.
-- `execute` runs in one transaction: an exception leaves the world as it was, so the result is the
-- new world or the error. A sequence of callbacks is a sequence of whole transactions: each starts after
-- the one before has committed. Of callbacks that overlap the lock on the parent row orders the
-- roll-ups only; the course is read and the guards are tested before it is taken.
-- The id of a course is a uuid column, so PostgreSQL refuses a `job_id` that is no uuid, and the callback
-- ends in a 500: `is_uuid` tells which texts it takes.
pub mod Execute
use odiseo_new.Common.{ℕ, String, Bool, Option, List}
use odiseo_new.Database.{Table}

pub data CourseStatus : Type 0 where
  pending processing completed completed_with_warnings empty_bank failed : CourseStatus

pub data RequestStatus : Type 0 where
  pending in_review processing review_required completed completed_with_warnings failed :
      RequestStatus

pub record Course : Type 0 where
  pub id : String
  pub material_request_id : String
  pub course_id : String
  pub status : CourseStatus
  pub download_url : Option String
  pub key_download_url : Option String
  pub solution_download_url : Option String
  pub warnings : Option String
  pub page_count : Option ℕ
  pub file_size_bytes : Option ℕ
  pub completed_at : Option ℕ

pub record Request : Type 0 where
  pub id : String
  pub cycle_id : String
  pub week_number : ℕ
  pub status : RequestStatus
  pub material_id : Option String

pub record Material : Type 0 where
  pub id : String
  pub status : RequestStatus

-- `QuestionUsageRecord`, and the row of the ledger made of it.
pub record UsageRecord : Type 0 where
  pub cycle_id : String
  pub question_id : String
  pub topic_id : String
  pub subtopic_id : String
  pub position_in_pdf : ℕ
  pub was_replacement : Bool

pub record Usage : Type 0 where
  pub material_request_id : String
  pub course_id : String
  pub usage : UsageRecord

-- The ledger's statements may fail; `none` is the exception.
pub record Ledger (S : Type 0) : Type 0 where
  pub rows : S → List Usage
  pub delete : (Usage → Bool) → S → Option S
  pub insert_or_ignore : List Usage → S → Option S

pub record Database : Type 1 where
  pub Courses : Type 0
  pub Requests : Type 0
  pub Materials : Type 0
  pub Usages : Type 0
  pub courses : Table Courses Course
  pub requests : Table Requests Request
  pub materials : Table Materials Material
  pub usages : Ledger Usages
  pub is_uuid : String → Bool

-- `job_id` and `status` may be missing, as the urls and the message may.
pub record StatusDto : Type 0 where
  pub job_id : Option String
  pub status : Option String
  pub download_url : Option String
  pub key_download_url : Option String
  pub solution_download_url : Option String
  pub error_message : Option String

pub record ArtifactMeta : Type 0 where
  pub page_count : Option ℕ
  pub file_size_bytes : Option ℕ

pub record MergeJob : Type 0 where
  pub material_request_id : String
  pub tenant_id : String

pub record GeneratedEvent : Type 0 where
  pub cycle_id : String
  pub course_id : String
  pub week_number : ℕ

-- The clock, the tenant in CLS, and whether the queue takes a job or throws.
pub record Env : Type 0 where
  pub now : ℕ
  pub company_id : Option String
  pub queue_accepts : Bool

-- The tables of the tenant, the jobs added to the queue and the events emitted, in order.
pub record World (db : Database) : Type 0 where
  pub courses : db.Courses
  pub requests : db.Requests
  pub materials : db.Materials
  pub usages : db.Usages
  pub jobs : List MergeJob
  pub events : List GeneratedEvent
