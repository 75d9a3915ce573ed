-- ===== src/Scripts/SeedConfig.antt =====
-- scripts/seed_config.py: a configuration from a YAML file, checked and written. `shape` is the
-- reading of YAML and the types of the fields, `none` if either raises; `file` is the text of the
-- file, if it is there, and `loaded` says whether Redis takes the scripts.
-- `WriteEnd` says how the write ends.
use librouter.Prelude.{String, Bool, false, ◌&&◌, Option, none, some, if◌then◌else◌}
use librouter.Prelude.Float.{Float}
use librouter.Models.{Config}
use librouter.Models.Valid.{is_valid_config}
use librouter.Db.{Database}
use librouter.Db.Pool.{Handle, Files, connect, close, run_migrations}
use librouter.ConfigStore.{WriteEnd, try_write}
use librouter.Scripts.{ScriptRun, new_handle}

module _ {W : Type 0} ⦃d : Float W⦄ (shape : String → Option (Config W)) where
  -- `Config.model_validate` of the data of a text.
  unfoldable pub validated : String → Option (Config W)
  unfolding is_valid_config
  validated raw = elim (shape raw) [
    | none ↦ none
    | some cfg ↦ if is_valid_config cfg then some cfg else none
  ]

  -- The database and the cache, and whether neither the validation nor the write raised.
  unfoldable pub seed_from_yaml :
      {P : Type 0} → String → WriteEnd W → Database W → Option P → (Database W × Option P) × Bool
  unfolding validated try_write
  seed_from_yaml raw end db cache = elim (validated raw) [
    | none ↦ ((db, cache), false)
    | some cfg ↦ try_write end cfg db cache
  ]

  -- What follows the migrations; the pool is closed on every path.
  unfoldable pub after_migrations :
      {P : Type 0}
      → String
      → Bool
      → WriteEnd W
      → Handle
      → Option P
      → Database W × Bool
      → ScriptRun (Database W × Option P)
  unfolding close seed_from_yaml
  after_migrations {P} raw loaded end handle cache (db, migrated) =
      let failed : ScriptRun (Database W × Option P) = record {
        exit_code = 1;
        database = (db, cache);
        handle = close handle;
      } in
      let (stored, returned) = seed_from_yaml raw end db cache in
      let seeded : ScriptRun (Database W × Option P) = record {
        exit_code = if returned then 0 else 1;
        database = stored;
        handle = close handle;
      } in
      if migrated && loaded then seeded else failed

  -- `_main`, and the test for the file before it; an exception ends the script with 1.
  unfoldable pub seed_config :
      {P : Type 0}
      → (String → String → Bool)
      → (String → Database W → Option (Database W))
      → Option String
      → Bool
      → Option Files
      → Bool
      → WriteEnd W
      → Database W
      → Option P
      → ScriptRun (Database W × Option P)
  unfolding connect run_migrations after_migrations
  seed_config le execute none created directory loaded end db cache = record {
    exit_code = 1;
    database = (db, cache);
    handle = new_handle;
  }
  seed_config le execute (some raw) created directory loaded end db cache =
      elim (connect created new_handle) [
        | none ↦ record { exit_code = 1; database = (db, cache); handle = new_handle }
        | some handle ↦
            after_migrations raw loaded end handle cache
              (run_migrations execute le directory handle db)
      ]
