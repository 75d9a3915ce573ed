-- ===== src/Scripts.antt =====
-- The scripts of the repository that fill the database: scripts/seed_callers.py,
-- scripts/seed_config.py and scripts/apply_migrations.py.
pub mod SeedCallers
pub mod Login
pub mod ApplyMigrations
pub mod Migrated
pub mod SeedConfig
pub mod Seeded
pub mod CallersRun
mod Tests
use librouter.Prelude.{ℕ, Bool, false}
use librouter.Db.Pool.{Handle}

-- What a script leaves: its exit code, the database and its handle.
pub record ScriptRun (D : Type 0) : Type 0 where
  pub exit_code : ℕ
  pub database : D
  pub handle : Handle

abbrev pub new_handle : Handle
new_handle = record { pool = false }
