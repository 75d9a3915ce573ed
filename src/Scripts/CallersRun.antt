-- ===== src/Scripts/CallersRun.antt =====
-- A whole run of scripts/seed_callers.py.
use librouter.Prelude.{
  ◌≡◌, refl, ◌⊎◌, inl, inr, String, Bool, true, false, Option, none, some, List, string_eq, ◌==◌,
  Bool-cases,
}
use librouter.Prelude.Dict.{Dict, IsKeyed}
use librouter.Auth.{lstrip, rstrip}
use librouter.Db.{Database}
use librouter.Db.Pool.{connect, close}
use librouter.Secrets.{env_value}
use librouter.Scripts.{ScriptRun}
use librouter.Scripts.SeedCallers.{SeedEntry, seed_callers}
use librouter.Scripts.Login.{IsSeeded, seed_from_json-IsSeeded}

-- The pepper of the script.
abbrev pub stripped_pepper : Dict String String → String
stripped_pepper environ = rstrip (lstrip (env_value environ "GATEWAY_KEY_HASH_PEPPER"))

module _ {W : Type 0} (upper : String → String) (hmac_sha256 : String → String → String)
    (environ : Dict String String) where
  abbrev pub Seeding : Bool → Option (List SeedEntry) → Database W → ScriptRun (Database W) → Type 0
  Seeding created file db run =
      (run.handle.pool ≡ false)
      × (((run.exit_code ≡ 0)
            × ((entries : List SeedEntry) × (file ≡ some entries)
                × IsSeeded upper hmac_sha256 environ (stripped_pepper environ) entries db
                    run.database))
          ⊎ ((run.exit_code ≡ 1)
              × (run.database ≡ db)
              × (((stripped_pepper environ == "") ≡ true) ⊎ ((created ≡ false) ⊎ (file ≡ none)))))

  -- The script closes its pool on every path. It exits with 0 and the callers of the file in the
  -- database, each with the row of its last entry that has a key in the environment, or with 1 and
  -- the database as it was, and then the pepper is blank, there is no pool, or the file cannot be
  -- read.
  pub seed_callers-Seeding :
      (created : Bool) (file : Option (List SeedEntry)) (db : Database W)
      → IsKeyed db.callers
      → Seeding created file db (seed_callers upper hmac_sha256 environ created file db)
  unfolding seed_callers connect close
  seed_callers-Seeding false file db k = elim (Bool-cases (stripped_pepper environ == "")) [
    | inl blank ↦ rw (blank, seed_callers) (refl, inr (refl, refl, inl refl))
    | inr peppered ↦ rw (peppered, seed_callers) (refl, inr (refl, refl, inr (inl refl)))
  ]
  seed_callers-Seeding true none db k = elim (Bool-cases (stripped_pepper environ == "")) [
    | inl blank ↦ rw (blank, seed_callers) (refl, inr (refl, refl, inl refl))
    | inr peppered ↦ rw (peppered, seed_callers) (refl, inr (refl, refl, inr (inr refl)))
  ]
  seed_callers-Seeding true (some entries) db k =
      elim (Bool-cases (stripped_pepper environ == "")) [
        | inl blank ↦ rw (blank, seed_callers) (refl, inr (refl, refl, inl refl))
        | inr peppered ↦
            let (ended, seeded) =
              seed_from_json-IsSeeded upper hmac_sha256 environ (stripped_pepper environ) entries db
                peppered k in
            rw (peppered, seed_callers, ended) (refl, inl (refl, (entries, refl, seeded)))
      ]
