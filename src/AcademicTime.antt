-- ===== src/AcademicTime.antt =====
-- Cycles, their weeks and their material templates:
-- backend-nestjs/src/academic-time/academic-time.use-case.ts (in the module UseCase) with the
-- entities of backend-nestjs/src/academic-time/entities. The date library, the id generator and the
-- tables of other modules stand in `Env`. An operation runs in one transaction.
pub mod UseCase
use odiseo_new.Common.{ℕ, String, Bool, Option, List}
use odiseo_new.Database.{Table}

pub record Cycle : Type 0 where
  pub id : String
  pub name : String
  pub year : ℕ
  pub start_date : String
  pub end_date : String
  pub days_per_week : ℕ
  pub total_weeks : ℕ
  pub is_active : Bool
  pub deleted : Bool

pub record Week : Type 0 where
  pub id : String
  pub cycle_id : String
  pub week_number : ℕ
  pub start_date : String
  pub end_date : String
  pub is_active : Bool
  pub deleted : Bool

pub data Scope : Type 0 where
  current_week accumulative full_accumulative : Scope

pub record Template : Type 0 where
  pub id : String
  pub cycle_id : String
  pub name : String
  pub scope : Scope
  pub accumulation_weeks : Option ℕ

pub record TemplateCourse : Type 0 where
  pub id : String
  pub template_id : String
  pub course_id : String
  pub questions_quantity : ℕ
  pub easy_count : ℕ
  pub medium_count : ℕ
  pub hard_count : ℕ

pub record TimeDb : Type 1 where
  pub Cycles : Type 0
  pub Weeks : Type 0
  pub Templates : Type 0
  pub Courses : Type 0
  pub cycles : Table Cycles Cycle
  pub weeks : Table Weeks Week
  pub templates : Table Templates Template
  pub courses : Table Courses TemplateCourse

pub record World (db : TimeDb) : Type 0 where
  pub cycles : db.Cycles
  pub weeks : db.Weeks
  pub templates : db.Templates
  pub courses : db.Courses
  pub archived : List String  -- the cycles whose syllabuses were deactivated, in order
  pub created : ℕ  -- how many ids uuid gave out

-- How many rows of the other modules refer to a cycle, and to a template.
pub record CycleUsage : Type 0 where
  pub syllabus : ℕ
  pub materials : ℕ
  pub material_requests : ℕ

pub record TemplateUsage : Type 0 where
  pub syllabus : ℕ
  pub syllabus_distribution : ℕ
  pub material_requests : ℕ
  pub materials : ℕ

pub record Env : Type 1 where
  pub Day : Type 0
  pub utc : String → Day
  pub add_days : Day → ℕ → Day
  pub format : Day → String
  pub uuid : ℕ → String
  pub has_syllabus : String → Option Bool  -- none where the query fails
  pub cycle_usage : String → CycleUsage
  pub template_usage : String → TemplateUsage
  pub recovers : Bool  -- whether a transaction goes on after a statement that an index refused
