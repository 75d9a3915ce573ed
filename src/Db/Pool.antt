-- ===== src/Db/Pool.antt =====
-- gateway/db.py: the pool of connections and the migrations. A `Handle` says whether the pool is
-- there, and `none` is an exception. The directory is what `glob` lists, a name with the text of
-- the file if it can be read; `created` says whether asyncpg makes a pool, and `execute` what the
-- SQL of a file does to the database. All statements stand in one transaction, so an exception in
-- between leaves the database.
use librouter.Prelude.{String, Bool, true, false, Option, none, some, List, [], ◌∷◌, if◌then◌else◌}

pub record Handle : Type 0 where
  pub pool : Bool

unfoldable pub connect : Bool → Handle → Option Handle
connect created db =
    if db.pool then some db else if created then some (record { pool = true }) else none

unfoldable pub close : Handle → Handle
close db = if db.pool then record { pool = false } else db

abbrev pub Files : Type 0
Files = List (String × Option String)

module _ (le : String → String → Bool) where
  unfoldable pub insert_file : String × Option String → Files → Files
  insert_file f [] = f ∷ []
  insert_file f (g ∷ files) = if le f.0 g.0 then f ∷ (g ∷ files) else g ∷ insert_file f files

  -- `sorted`, by the order of the names.
  unfoldable pub sort_files : Files → Files
  unfolding insert_file
  sort_files [] = []
  sort_files (f ∷ files) = insert_file f (sort_files files)

module _ {D : Type 0} (execute : String → D → Option D) where
  -- The loop in the transaction.
  unfoldable pub apply_files : Files → D → Option D
  apply_files [] d = some d
  apply_files ((name, none) ∷ files) d = none
  apply_files ((name, some sql) ∷ files) d = elim (execute sql d) [
    | none ↦ none
    | some d' ↦ apply_files files d'
  ]

  -- The database afterwards, and whether the method returned: a directory or files that are not
  -- there raise before the pool is touched, and so does a pool that is not there.
  unfoldable pub run_migrations : (String → String → Bool) → Option Files → Handle → D → D × Bool
  unfolding sort_files apply_files
  run_migrations le none db d = (d, false)
  run_migrations le (some []) db d = (d, false)
  run_migrations le (some (f ∷ files)) db d =
      if db.pool
      then elim (apply_files (sort_files le (f ∷ files)) d) [
        | none ↦ (d, false)
        | some d' ↦ (d', true)
      ]
      else (d, false)
