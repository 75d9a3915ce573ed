-- ===== src/Scripts/ApplyMigrations.antt =====
-- scripts/apply_migrations.py.
use librouter.Prelude.{String, Bool, Option, none, some, if◌then◌else◌}
use librouter.Scripts.{ScriptRun, new_handle}
use librouter.Db.Pool.{Files, connect, close, run_migrations}

module _ {D : Type 0} (le : String → String → Bool) (execute : String → D → Option D) where
  unfoldable pub apply_migrations : Bool → Option Files → D → ScriptRun D
  unfolding connect close run_migrations
  apply_migrations created directory d = elim (connect created new_handle) [
    | none ↦ record { exit_code = 1; database = d; handle = new_handle }
    | some db ↦
        let (d', applied) = run_migrations execute le directory db d in
        record { exit_code = if applied then 0 else 1; database = d'; handle = close db }
  ]
