-- ===== src/Scripts/SeedCallers.antt =====
-- scripts/seed_callers.py: the callers of a JSON file, with their keys from the environment.
-- `upper` is `str.upper`; an entry is read as the names that the script looks up in it.
use Prim.Native.Char.{code}
use Prim.Native.String.{◌++◌ as str_append}
use librouter.Prelude.{
  ℕ, String, Bool, true, false, Option, none, some, List, [], ◌∷◌, string_eq, nat_eq, ◌==◌,
  if◌then◌else◌,
}
use librouter.Prelude.Dict.{Dict, get}
use librouter.Auth.{hash_api_key, lstrip, rstrip}
use librouter.Db.{Database, upsert_caller}
use librouter.Db.Pool.{connect, close}
use librouter.Secrets.{env_value}
use librouter.Scripts.{ScriptRun, new_handle}

pub record SeedEntry : Type 0 where
  pub name : String
  pub daily_token_cap : Option ℕ
  pub enabled : Option Bool

-- `caller_name.replace("-", "_")`
unfoldable pub underscored : String → String
underscored String.[] = String.[]
underscored (String.◌∷◌ c s) =
    let rest = underscored s in if code c == 45 then String.◌∷◌ "_" rest else String.◌∷◌ c rest

-- `_env_key_name`
unfoldable pub env_key_name : (String → String) → String → String
unfolding underscored
env_key_name upper caller_name = str_append "GATEWAY_SEED_KEY_" (upper (underscored caller_name))

-- `entry.get("enabled", True)`
abbrev pub enabled_of : SeedEntry → Bool
enabled_of entry = elim entry.enabled [ none ↦ true | some b ↦ b ]

module _ {W : Type 0} (upper : String → String) (hmac_sha256 : String → String → String)
    (environ : Dict String String) (pepper : String) where
  -- The database and whether the loop came to its end: a ValueError of `hash_api_key` stops it, and
  -- what was written before stays.
  unfoldable pub seed_from_json : List SeedEntry → Database W → Database W × Bool
  unfolding get env_key_name hash_api_key upsert_caller
  seed_from_json [] db = (db, true)
  seed_from_json (entry ∷ entries) db =
      let skipped = seed_from_json entries db in
      elim (get environ (env_key_name upper entry.name)) [
        | none ↦ skipped
        | some plaintext ↦ elim (hash_api_key hmac_sha256 pepper plaintext) [
          | none ↦ (db, false)
          | some key_hash ↦
              seed_from_json entries
                (upsert_caller entry.name key_hash entry.daily_token_cap (enabled_of entry) db)
        ]
      ]

-- `main`: the pepper is stripped; `file` is what is read of the JSON file, if it can be read.
unfoldable pub seed_callers :
    {W : Type 0}
    → (String → String)
    → (String → String → String)
    → Dict String String
    → Bool
    → Option (List SeedEntry)
    → Database W
    → ScriptRun (Database W)
unfolding lstrip rstrip connect close get seed_from_json
seed_callers {W} upper hmac_sha256 environ created file db =
    let pepper = rstrip (lstrip (env_value environ "GATEWAY_KEY_HASH_PEPPER")) in
    let refused : ScriptRun (Database W) = record {
      exit_code = 1;
      database = db;
      handle = new_handle;
    } in
    if pepper == "" then refused else elim (connect created new_handle) [
      | none ↦ refused
      | some handle ↦ elim file [
        | none ↦ record { exit_code = 1; database = db; handle = close handle }
        | some callers ↦
            let (db', ended) = seed_from_json upper hmac_sha256 environ pepper callers db in
            record { exit_code = if ended then 0 else 1; database = db'; handle = close handle }
      ]
    ]
