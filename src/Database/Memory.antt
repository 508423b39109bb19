-- ===== src/Database/Memory.antt =====
-- A table held in memory: the interface can be met.
use odiseo_new.Common.{refl, not, List, ◌++◌, map, filter}
use odiseo_new.Database.{updated, Table}

abbrev pub in_memory : {Row : Type 0} → Table (List Row) Row
in_memory = record {
  rows = λ s. s;
  update = λ p f s. map (updated p f) s;
  insert = λ rs s. s ++ rs;
  delete = λ p s. filter (λ r. not (p r)) s;
  rows-update = λ p f s. refl;
  rows-insert = λ rs s. refl;
  rows-delete = λ p s. refl;
}
