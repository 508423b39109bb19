-- ===== src/Database.antt =====
-- What the code relies on of a table of a tenant's schema, which it reaches through TypeORM and
-- PostgreSQL: a parameter of the components that read and write rows. `rows` lists the rows that a
-- SELECT inside the running transaction sees. The laws are the documented effects of the statements:
-- an UPDATE changes the rows that meet its WHERE clause and no others, an INSERT adds its rows, a
-- DELETE removes the rows that meet its WHERE clause.
pub mod Memory
pub mod Rows
use odiseo_new.Common.{◌≡◌, Bool, not, List, ◌++◌, map, filter, find?, Option, if◌then◌else◌}

-- The row that an UPDATE leaves for a row that it finds.
abbrev pub updated {ℓ} : {Row : Type ℓ} → (Row → Bool) → (Row → Row) → Row → Row
updated p f r = if p r then f r else r

pub record Table (S Row : Type 0) : Type 0 where
  pub rows : S → List Row
  pub update : (Row → Bool) → (Row → Row) → S → S
  pub insert : List Row → S → S
  pub delete : (Row → Bool) → S → S
  pub rows-update :
      (p : Row → Bool) (f : Row → Row) (s : S) → rows (update p f s) ≡ map (updated p f) (rows s)
  pub rows-insert : (rs : List Row) (s : S) → rows (insert rs s) ≡ rows s ++ rs
  pub rows-delete : (p : Row → Bool) (s : S) → rows (delete p s) ≡ filter (λ r. not (p r)) (rows s)

module _ {S Row : Type 0} (t : Table S Row) where
  -- `manager.findOne` and `manager.find`
  abbrev pub find_one : (Row → Bool) → S → Option Row
  find_one p s = find? p (t.rows s)

  abbrev pub find_all : (Row → Bool) → S → List Row
  find_all p s = filter p (t.rows s)
