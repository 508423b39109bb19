-- ===== src/Generation/Execute/Examples.antt =====
-- A generation that loses the race for its material, and an instance of the theorem.
use odiseo_new.Common.{true, none, some, List, [], ◌∷◌}
use odiseo_new.Database.Memory.{in_memory}
use odiseo_new.Webhook.{RequestStatus, Usage}
use odiseo_new.Review.{Course, ReviewQuestion}
use odiseo_new.Generation.{GenerateMaterialDto, ReviewSlot, Material, Request, GenerationDb, World}
use odiseo_new.Generation.Execute.{Inputs}

abbrev memory : GenerationDb
memory = record {
  Materials = List Material;
  Requests = List Request;
  Courses = List Course;
  Questions = List ReviewQuestion;
  Usages = List Usage;
  materials = in_memory;
  requests = in_memory;
  courses = in_memory;
  questions = in_memory;
  usages = in_memory;
}

abbrev world : World memory
world = record {
  materials = [];
  requests = [];
  courses = [];
  questions = [];
  usages = [];
  created = 0;
  jobs = [];
}

abbrev rival : Material
rival = record {
  id = "rival";
  tenant_id = "tenant";
  profile_id = "profile";
  cycle_id = "cycle";
  week_number = 1;
  status = RequestStatus.processing;
  latest_request_id = none;
}

abbrev body : GenerateMaterialDto
body = record {
  profile_id = "profile";
  week_number = 1;
  requires_review = true;
  courses = none;
  design_template_id = none;
}

abbrev inputs : Inputs
inputs = record {
  template_name = "Semanal";
  cycle_id = "cycle";
  company = none;
  distributions = record { course_id = "algebra"; topics = []; exclude_question_ids = [] } ∷ [];
  design_template_id = none;
}

abbrev plan : List ReviewSlot
plan =
    record {
      topic_id = "t";
      subtopic_id = "s";
      expected_level = some "EASY";
      question_id = some "q";
    }
    ∷ record { topic_id = "t"; subtopic_id = "s"; expected_level = some "HARD"; question_id = none }
    ∷ []
