-- ===== src/Generation.antt =====
-- The generation of the material of a week:
-- backend-nestjs/src/materials/use-cases/generate-material.use-case.ts. The module Plan has what is
-- computed (how many questions of which level each topic gets, and the review plan), Execute the two
-- transactions and the job.
-- Ids are not empty. `Reads` holds the tables that are only read; the question bank is another
-- database, of which the model has the rows that the queries select from.
pub mod Plan
pub mod Execute
use odiseo_new.Common.{ℕ, String, Bool, Option, List}
use odiseo_new.Database.{Table}
use odiseo_new.Webhook.{RequestStatus, Usage}
use odiseo_new.AcademicTime.{Template, TemplateCourse}
use odiseo_new.Syllabus.{Syllabus, Distribution}
use odiseo_new.Selection.{Question}
use odiseo_new.Review.{Company, Course, ReviewQuestion}

-- `courses` is none where the body leaves it out.
pub record GenerateMaterialDto : Type 0 where
  pub profile_id : String
  pub week_number : ℕ
  pub requires_review : Bool
  pub courses : Option (List String)
  pub design_template_id : Option String

-- What a course gets of one cell of its syllabus.
pub record Topic : Type 0 where
  pub topic_id : String
  pub subtopic_id : String
  pub quantity : ℕ
  pub expected_levels : List String

pub record CourseDistribution : Type 0 where
  pub course_id : String
  pub topics : List Topic
  pub exclude_question_ids : List String

pub record ReviewSlot : Type 0 where
  pub topic_id : String
  pub subtopic_id : String
  pub expected_level : Option String
  pub question_id : Option String

-- A row of the question bank that ties a question to a subtopic.
pub record Mapping : Type 0 where
  pub question_id : String
  pub subtopic_id : String

pub record Bank : Type 0 where
  pub mappings : List Mapping
  pub questions : List Question

pub record DesignTemplate : Type 0 where
  pub id : String
  pub tenant_id : String
  pub is_default : Bool

pub record Reads : Type 0 where
  pub companies : List Company
  pub templates : List Template
  pub template_courses : List TemplateCourse
  pub syllabuses : List Syllabus
  pub distributions : List Distribution
  pub designs : List DesignTemplate
  pub bank : Bank

pub record Material : Type 0 where
  pub id : String
  pub tenant_id : String
  pub profile_id : String
  pub cycle_id : String
  pub week_number : ℕ
  pub status : RequestStatus
  pub latest_request_id : Option String

pub record Request : Type 0 where
  pub id : String
  pub tenant_id : String
  pub profile_id : String
  pub cycle_id : String
  pub week_number : ℕ
  pub requires_review : Bool
  pub material_type : String
  pub design_template_id : Option String
  pub created_by : String
  pub status : RequestStatus
  pub material_id : Option String

pub record GenerationDb : Type 1 where
  pub Materials : Type 0
  pub Requests : Type 0
  pub Courses : Type 0
  pub Questions : Type 0
  pub Usages : Type 0
  pub materials : Table Materials Material
  pub requests : Table Requests Request
  pub courses : Table Courses Course
  pub questions : Table Questions ReviewQuestion
  pub usages : Table Usages Usage

-- A distribution in the payload, with the course row that was created for it.
pub record JobCourse : Type 0 where
  pub distribution : CourseDistribution
  pub course_request_id : Option String

-- The data of a 'generate-pdf' job.
pub record Job : Type 0 where
  pub material_request_id : String
  pub tenant_id : String
  pub cycle_id : String
  pub week_number : ℕ
  pub template_name : String
  pub design_template_id : Option String
  pub requires_review : Bool
  pub commercial_name : String
  pub logo_url : String
  pub distributions : List JobCourse

pub record World (db : GenerationDb) : Type 0 where
  pub materials : db.Materials
  pub requests : db.Requests
  pub courses : db.Courses
  pub questions : db.Questions
  pub usages : db.Usages
  pub created : ℕ  -- how many ids were generated
  pub jobs : List Job

-- Math.random (for the shuffle of the levels of the i-th course, and for the selection of the i-th
-- topic), toUpperCase, Number, generated ids, and the queue.
pub record Env : Type 0 where
  pub pick_level : ℕ → ℕ → ℕ
  pub pick_question : ℕ → ℕ → ℕ
  pub to_upper_case : String → String
  pub number : String → ℕ
  pub uuid : ℕ → String
  pub queue_accepts : List Job → Job → Bool
