-- ===== src/Syllabus.antt =====
-- The syllabus of a course in a cycle: backend-nestjs/src/syllabus/syllabus.use-case.ts over
-- backend-nestjs/src/syllabus/repositories/syllabus.repository.ts (in the module Repository), with
-- the unique indexes of backend-nestjs/src/database/tenant-migrations/index.ts.
-- The module of academic times, the catalog and the text functions of the language stand in `Env`;
-- `uuid n` is the n-th id that the database generates. A clone runs in one transaction, so an
-- exception leaves the world as it was.
pub mod Repository
use odiseo_new.Common.{ℕ, String, Bool, Option, List}
use odiseo_new.Database.{Table}

pub record Syllabus : Type 0 where
  pub id : String
  pub cycle_id : String
  pub course_id : String
  pub name : String
  pub template_id : Option String
  pub is_active : Bool

-- `SyllabusDistribution`: one cell of the matrix.
pub record Distribution : Type 0 where
  pub id : String
  pub syllabus_id : String
  pub template_id : Option String
  pub week_number : ℕ
  pub topic_id : String
  pub subtopic_id : String
  pub question_count : ℕ
  pub is_generated : Bool

pub record SyllabusDb : Type 1 where
  pub Syllabuses : Type 0
  pub Distributions : Type 0
  pub syllabuses : Table Syllabuses Syllabus
  pub distributions : Table Distributions Distribution

pub record World (db : SyllabusDb) : Type 0 where
  pub syllabuses : db.Syllabuses
  pub distributions : db.Distributions
  pub created : ℕ  -- how many ids the database generated

-- What the clone reads of a material template.
pub record Template : Type 0 where
  pub id : String
  pub name : String

pub record Env : Type 0 where
  pub uuid : ℕ → String
  pub course_exists : String → Bool
  pub get_active_week_numbers : String → List ℕ
  pub get_templates : String → List Template
  pub recovers : Bool  -- whether a transaction goes on after a statement that an index refused
  pub normalize : String → String  -- trim and toLowerCase

-- A cell before it has an id: what `manager.create` is given.
pub record Cell : Type 0 where
  pub template_id : Option String
  pub week_number : ℕ
  pub topic_id : String
  pub subtopic_id : String
  pub question_count : ℕ
