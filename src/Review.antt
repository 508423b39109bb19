-- ===== src/Review.antt =====
-- The curation of a material request:
-- backend-nestjs/src/materials/use-cases/approve-material-review.use-case.ts (in the module Approve)
-- with backend-nestjs/src/materials/entities/material-review-question.entity.ts and
-- backend-nestjs/src/materials/dto/approve-review.dto.ts.
-- The tables that the use case writes stand in `ReviewDb`, those that it only reads in `Reads`. A
-- transaction gives the new world and the jobs to dispatch; the jobs are added after the commit, so
-- a queue that refuses one leaves the committed rows behind.
pub mod Approve
use odiseo_new.Common.{ℕ, ◌≤◌, String, Bool, Option, List}
use odiseo_new.Database.{Table}
use odiseo_new.Webhook.{CourseStatus, RequestStatus, Material}
use odiseo_new.AcademicTime.{Template}
use odiseo_new.Syllabus.{Syllabus, Distribution}

pub data QuestionStatus : Type 0 where
  found empty replaced removed : QuestionStatus

pub record ReviewQuestion : Type 0 where
  pub id : String
  pub material_request_id : String
  pub question_id : Option String
  pub topic_id : String
  pub subtopic_id : String
  pub expected_level : Option String
  pub position : ℕ
  pub status : QuestionStatus

pub record Request : Type 0 where
  pub id : String
  pub profile_id : String
  pub cycle_id : String
  pub week_number : ℕ
  pub status : RequestStatus
  pub material_type : String
  pub design_template_id : Option String
  pub material_id : Option String
  pub version : ℕ

pub record Course : Type 0 where
  pub id : String
  pub material_request_id : String
  pub course_id : String
  pub status : CourseStatus
  pub download_url : Option String
  pub key_download_url : Option String
  pub solution_download_url : Option String
  pub warnings : Option String

pub record Replacement : Type 0 where
  pub review_question_id : String
  pub question_id : String

-- A version is counted from 1, so a negative number in the body matches no row.
pub record ApproveReviewDto : Type 0 where
  pub version : ℕ
  pub continue_with_warnings : Bool
  pub replacements : List Replacement
  pub removals : List String

pub record Context : Type 0 where
  pub tenant_id : String
  pub user_id : String

pub record Company : Type 0 where
  pub id : String
  pub commercial_name : Option String
  pub logo_url : Option String

-- `saved_version` is what `manager.save` with a new status makes of the column marked with
-- @VersionColumn: it may count further, and never goes back.
pub record ReviewDb : Type 1 where
  pub Requests : Type 0
  pub Courses : Type 0
  pub Questions : Type 0
  pub Materials : Type 0
  pub requests : Table Requests Request
  pub courses : Table Courses Course
  pub questions : Table Questions ReviewQuestion
  pub materials : Table Materials Material
  pub saved_version : Request → RequestStatus → ℕ
  pub saved_version-grows :
      (r : Request) (status : RequestStatus) → r.version ≤ saved_version r status

pub record Reads : Type 0 where
  pub companies : List Company
  pub templates : List Template
  pub syllabuses : List Syllabus
  pub distributions : List Distribution

-- One entry of `syllabus_distribution`.
pub record Quota : Type 0 where
  pub topic_id : String
  pub subtopic_id : String
  pub quantity : ℕ

-- The data of a 'generate' job; its fixed fields are left out.
pub record Job : Type 0 where
  pub job_id : String
  pub material_request_id : String
  pub tenant_id : String
  pub cycle_id : String
  pub week_number : ℕ
  pub template_name : String
  pub design_template_id : Option String
  pub commercial_name : String
  pub logo_url : String
  pub material_type : String
  pub course_id : String
  pub syllabus_distribution : List Quota
  pub admin_user_id : String

pub record World (db : ReviewDb) : Type 0 where
  pub requests : db.Requests
  pub courses : db.Courses
  pub questions : db.Questions
  pub materials : db.Materials
  pub jobs : List Job  -- what the queue was given, in order

-- What a client is told.
pub data Reply : Type 0 where
  draft_saved : Reply
  approved : RequestStatus → Reply
