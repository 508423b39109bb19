-- ===== src/Generation/Execute/Store.antt =====
-- What the second transaction of a generation leaves.
use odiseo_new.Common.{
  String, includes, ◌≡◌, not, some, List, [], ◌∷◌, ◌++◌, map, filter, length, range_from,
  if◌then◌else◌,
}
use odiseo_new.Review.{ReviewQuestion}
use odiseo_new.Generation.{GenerateMaterialDto, ReviewSlot, Material, GenerationDb, Job, World, Env}
use odiseo_new.Generation.Execute.{Inputs, initial_status, requests_of, request_row}
use odiseo_new.Generation.Execute.Materials.{Fills, rows_of}

module _ (db : GenerationDb) (env : Env) where
  -- The ids of the requests of a material.
  abbrev pub earlier_requests : String → World db → List String
  earlier_requests material_id w = map (λ r. r.id) (requests_of db env material_id w)

  -- What a generation leaves.
  pub record Stored (tenant_id user_id : String) (dto : GenerateMaterialDto) (inputs : Inputs)
      (plan : List ReviewSlot) (w w' : World db) (id : String) (jobs : List Job) : Type 0 where
    pub material : Material
    pub only : rows_of db env tenant_id dto.profile_id dto.week_number w'.materials ≡ material ∷ []
    pub status : material.status ≡ initial_status dto.requires_review
    pub latest : material.latest_request_id ≡ some id
    pub request :
        db.requests.rows w'.requests
        ≡ db.requests.rows w.requests
          ++ request_row db env tenant_id user_id dto inputs id material.id ∷ []
    pub usages :
        db.usages.rows w'.usages
        ≡ filter
            (λ u. not (includes (earlier_requests material.id w) u.material_request_id))
            (db.usages.rows w.usages)
    pub slots : List ReviewQuestion
    pub questions : db.questions.rows w'.questions ≡ db.questions.rows w.questions ++ slots
    pub positions : map (λ q. q.position) slots ≡ range_from 1 (length plan)
    pub filled : Fills id plan slots
    pub dispatched : length jobs ≡ (if dto.requires_review then 0 else 1)
