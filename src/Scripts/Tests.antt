-- ===== src/Scripts/Tests.antt =====
-- Instances of the theorems on the scripts, at floats of whole thousandths.
use mathlib.Core.Path.{subst}
use mathlib.Core.Option.{some-injective}
use Prim.Native.String.{◌++◌ as str_append, count}
use librouter.Prelude.{
  ◌≡◌, refl, sym, inl, inr, Bool-cases, String, Bool, true, false, Option, none, some, List, [],
  ◌∷◌, arith, leb, string_eq, ◌==◌, if◌then◌else◌,
}
use librouter.Prelude.Dict.{Dict, get, put, IsKeyed}
use librouter.Prelude.Float.{Milli, milli_float}
use librouter.Models.{Config, ProviderMode, SecretsMode}
use librouter.Models.Valid.{caller_name_ok, is_valid_config}
use librouter.Auth.{
  CallerResolver, bearer_token, lstrip, rstrip, drop_prefix, enabled_only, resolve_bearer,
  hash_api_key,
}
use librouter.Db.{Database, CallerRow, caller_by_key_hash, caller_row_raises, upsert_caller}
use librouter.Db.Pool.{Files, insert_file, sort_files, apply_files, connect, close, run_migrations}
use librouter.ConfigStore.Written.{IsOrderBy}
use librouter.Scripts.SeedCallers.{
  SeedEntry, underscored, env_key_name, seed_from_json, seed_callers,
}
use librouter.Scripts.Login.{caller_of_row, row_after, seeded_row, resolve_bearer-seed_from_json}
use librouter.Scripts.CallersRun
use librouter.Scripts.CallersRun.{seed_callers-Seeding}
use librouter.Scripts.ApplyMigrations.{apply_migrations}
use librouter.Scripts.Migrated.{Migration, apply_migrations-Migration}
use librouter.Scripts.SeedConfig.{seed_config}
use librouter.ConfigStore.{completed}
use librouter.Scripts.Seeded.{Seeding, seed_config-Seeding}

program : Unit {0}
unfolding get put lstrip rstrip drop_prefix bearer_token hash_api_key upsert_caller underscored
    env_key_name seed_from_json seed_callers insert_file sort_files apply_files connect close
    run_migrations apply_migrations
program = tt

abbrev no_rows : Database Milli
no_rows = record {
  tiers = [];
  tier_models = [];
  routing_config = none;
  callers = [];
  requests = [];
}

-- The two names of the tests in capitals.
abbrev upper : String → String
upper s = if s == "dev" then "DEV" else if s == "search_svc" then "SEARCH_SVC" else s

abbrev hmac : String → String → String
hmac pepper raw = str_append pepper (str_append "." raw)

abbrev environ : Dict String String
environ = ("GATEWAY_KEY_HASH_PEPPER", "salt") ∷ (("GATEWAY_SEED_KEY_SEARCH_SVC", "k") ∷ [])

abbrev dev : SeedEntry
dev = record { name = "dev"; daily_token_cap = some 10; enabled = none }

abbrev search : SeedEntry
search = record { name = "search-svc"; daily_token_cap = some 7; enabled = none }

abbrev entries : List SeedEntry
entries = dev ∷ (search ∷ [])

abbrev search_row : CallerRow
search_row = record { key_hash = "v2:hmac-sha256:salt.k"; daily_token_cap = some 7; enabled = true }

seeded :
    (seed_from_json upper hmac environ "salt" entries no_rows).0.callers
    ≡ ("search-svc", search_row) ∷ []
unfolding program
seeded = refl

-- Two names that differ in a dash share their variable, so they get one key.
shared_variable : env_key_name upper "search-svc" ≡ env_key_name upper "search_svc"
unfolding program
shared_variable = refl

abbrev resolver : CallerResolver Milli
resolver = record { ttl = 60000; maxsize = 10; cache = [] }

only_search :
    (n : String) (q : CallerRow)
    → row_after upper hmac environ "salt" entries no_rows n ≡ some q
    → q.key_hash ≡ "v2:hmac-sha256:salt.k"
    → n ≡ "search-svc"
unfolding program
only_search n q h e = ground (arith, string_eq.beq_iff "search-svc" n, string_eq.beq_iff "dev" n)

search_seeded : seeded_row upper hmac environ "salt" entries "search-svc" ≡ some search_row
unfolding program
search_seeded = refl

bearer : bearer_token (some "Bearer k") ≡ some "k"
unfolding program
bearer = refl

resolve_bearer-seed_from_json_example :
    (r' : CallerResolver Milli) × (resolve_bearer hmac "salt"
        (λ key_hash.
          caller_by_key_hash key_hash (seed_from_json upper hmac environ "salt" entries no_rows).0)
        (some "Bearer k")
        0
        resolver
      ≡ some (enabled_only (some (caller_of_row "search-svc" search_row)), r'))
    × (caller_row_raises "v2:hmac-sha256:salt.k"
          (seed_from_json upper hmac environ "salt" entries no_rows).0
        ≡ false)
resolve_bearer-seed_from_json_example =
    resolve_bearer-seed_from_json upper hmac environ "salt" entries no_rows "search-svc" search_row
      (some "Bearer k") "k" 0 resolver refl (unfold caller_name_ok in refl) tt search_seeded bearer
      refl only_search tt

seed_callers-Seeding_example :
    CallersRun.Seeding upper hmac environ true
      (some entries)
      no_rows
      (seed_callers upper hmac environ true (some entries) no_rows)
seed_callers-Seeding_example =
    seed_callers-Seeding upper hmac environ true (some entries) no_rows tt

-- Names in the order of their lengths.
abbrev le : String → String → Bool
le a b = leb (count a) (count b)

le_total : (a b : String) → le a b ≡ false → le b a ≡ true
le_total a b h = ground arith

le_trans : (a b c : String) → le a b ≡ true → le b c ≡ true → le a c ≡ true
le_trans a b c h k = ground arith

-- The statements so far, and one that fails.
abbrev run_sql : String → List String → Option (List String)
run_sql sql done = if sql == "bad" then none else some (sql ∷ done)

abbrev directory : Files
directory = ("00002.sql", some "b") ∷ (("0001.sql", some "a") ∷ [])

in_order : (apply_migrations le run_sql true (some directory) []).database ≡ "b" ∷ ("a" ∷ [])
unfolding program
in_order = refl

rolled_back :
    (apply_migrations le run_sql true (some (("00003.sql", some "bad") ∷ directory)) []).database
    ≡ []
unfolding program
rolled_back = refl

apply_migrations-Migration_example :
    Migration run_sql le true
      (some directory)
      []
      (apply_migrations le run_sql true (some directory) [])
apply_migrations-Migration_example =
    apply_migrations-Migration run_sql le le_total le_trans true (some directory) []

abbrev config : Config Milli
config = record {
  provider_mode = ProviderMode.mock;
  secrets_mode = SecretsMode.mock;
  tiers =
      (
        "fast",
        record {
          candidates =
              record {
                provider = "openai";
                model = "o";
                weight = 1000;
                rate_limits = record { rpm = 60; tpm = 1000 };
              }
              ∷ [];
        },
      )
      ∷ [];
  routing = record {
    refresh_interval_ms = 500;
    health_window_s = 30;
    target_latency_s = 2000;
    min_weight_floor = 10;
    rng_seed_env = none;
  };
  callers = [];
}

-- The one YAML text that can be read.
abbrev shape : String → Option (Config Milli)
shape raw = if raw == "yaml" then some config else none

shape-IsKeyed : (raw : String) (cfg : Config Milli) → shape raw ≡ some cfg → IsKeyed cfg.tiers
unfolding get
shape-IsKeyed raw cfg h = elim (Bool-cases (raw == "yaml")) [
  | inl read ↦
      let same : config ≡ cfg = some-injective config cfg (rw read at h) in
      subst (λ (c : Config Milli). IsKeyed c.tiers) same (refl, tt)
  | inr other ↦ absurd (ground arith)
]

abbrev keep : String → Database Milli → Option (Database Milli)
keep sql db = some db

keep_same : (sql : String) (db e : Database Milli) → keep sql db ≡ some e → e ≡ db
keep_same sql db e h = sym (some-injective db e h)

abbrev order_by : (V : Type 0) → Dict String V → Dict String V
order_by V d = d

order_by-IsOrderBy : IsOrderBy order_by
order_by-IsOrderBy = record { keyed = λ V d h. h; same = λ V d k h. refl }

seed_config-Seeding_example :
    Seeding shape le keep order_by
      (some "yaml")
      true
      (some directory)
      true
      completed
      no_rows
      (some config)
      (seed_config shape le keep
        (some "yaml")
        true
        (some directory)
        true
        completed
        no_rows
        (some config))
seed_config-Seeding_example =
    seed_config-Seeding shape le keep order_by order_by-IsOrderBy keep_same shape-IsKeyed
      (some "yaml") true (some directory) true completed no_rows (some config)
      (record { tiers_keyed = tt; tier_models_keyed = tt }) (record { models = tt; routing = refl })

seeds :
    (seed_config shape le keep
      (some "yaml")
      true
      (some directory)
      true
      completed
      no_rows
      (some config)).exit_code
    ≡ 0
unfolding program seed_config is_valid_config
seeds = refl
