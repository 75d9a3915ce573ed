-- ===== src/ConfigStore/Tests.antt =====
-- The configuration store on a configuration with one tier. The payload of the tests is the
-- configuration itself.
use librouter.Prelude.{
  ◌≡◌, refl, ℕ, zero, ◌≤◌, suc, All, String, Bool, true, false, Option, none, some, List, [], ◌∷◌,
  arith, length, string_eq, ◌==◌, if◌then◌else◌,
}
use librouter.Prelude.Dict.{Dict, get, put, IsKeyed}
use librouter.Prelude.Float.{Milli, milli_float}
use librouter.Models.{Config, ProviderMode, SecretsMode, TierEntry}
use librouter.Db.{Database, upsert_tier, upsert_tier_models, upsert_routing_config}
use librouter.ConfigStore.{
  write, write_to_db, write_tiers, write_tier_models, add_entries, add_entry, rows_config,
  load_from_db, load_or_refresh, put_rows, build_tiers, tier_entries,
}
use librouter.ConfigStore.Tables.{entries_for, candidates_of}
use librouter.ConfigStore.Written.{IsOrderBy, IsTables, IsStored}
use librouter.ConfigStore.RoundTrip.{IsSame, load_from_db-write_to_db, load_or_refresh-write}
use librouter.ConfigStore.SingleFlight.{
  Event, run_task, expire, cold, expiries, run_events, run_events-SingleFlight, HasConfig, answered,
}
use librouter.Models.Valid.{is_valid_config}
use librouter.ConfigStore.Valid.{AreValidRows, write_all, load_from_db-write_all}
use librouter.ConfigStore.Turns.{IsRound, in_a_row}
use librouter.ConfigStore.Progress.{run_events_answers}

abbrev entry : String → String → TierEntry Milli
entry provider model_name = record {
  provider = provider;
  model = model_name;
  weight = 1000;
  rate_limits = record { rpm = 60; tpm = 1000 };
}

abbrev config : Config Milli
config = record {
  provider_mode = ProviderMode.mock;
  secrets_mode = SecretsMode.mock;
  tiers = ("fast", record { candidates = entry "openai" "o" ∷ (entry "google" "g" ∷ []) }) ∷ [];
  routing = record {
    refresh_interval_ms = 500;
    health_window_s = 30;
    target_latency_s = 2000;
    min_weight_floor = 10;
    rng_seed_env = none;
  };
  callers = [];
}

abbrev no_rows : Database Milli
no_rows = record {
  tiers = [];
  tier_models = [];
  routing_config = none;
  callers = [];
  requests = [];
}

-- The table's own order.
abbrev order_by : (V : Type 0) → Dict String V → Dict String V
order_by V d = d

order_by-IsOrderBy : IsOrderBy order_by
order_by-IsOrderBy = record { keyed = λ V d h. h; same = λ V d k h. refl }

config-IsKeyed : IsKeyed config.tiers
unfolding get
config-IsKeyed = (refl, tt)

entry_single : (p : String) → length (entries_for p (candidates_of config.tiers "fast")) ≤ 1
unfolding get
entry_single p = ground (
  arith,
  string_eq.beq_iff "openai" p,
  string_eq.beq_iff "google" p,
  string_eq.beq_iff "openai" "google",
)

abbrev fast_if : Bool → List (TierEntry Milli)
fast_if b = if b then candidates_of config.tiers "fast" else []

candidates_fast : (t : String) → candidates_of config.tiers t ≡ fast_if ("fast" == t)
unfolding get
candidates_fast t = ground arith

config_single : (t p : String) → length (entries_for p (candidates_of config.tiers t)) ≤ 1
config_single t p = rw (candidates_fast t) (single ("fast" == t))
  where
    single : (b : Bool) → length (entries_for p (fast_if b)) ≤ 1
    single true = entry_single p
    single false = omega arith

abbrev encode : Config Milli → Config Milli
encode c = c

config_valid : is_valid_config config ≡ true
unfolding is_valid_config
config_valid = refl

abbrev decode : Config Milli → Option (Config Milli)
decode c = if is_valid_config c then some c else none

-- The check of a payload passes.
decode_valid : (c : Config Milli) → is_valid_config c ≡ true → decode (encode c) ≡ some c
decode_valid c valid = rw valid refl

load_or_refresh-write_example :
    let (db', cache') = write config no_rows (some config) in
    (c : Config Milli) × (load_or_refresh order_by encode decode true db' cache'
      ≡ (some c, some (encode c)))
    × IsSame config c
    × ((later : Database Milli)
        → load_or_refresh order_by encode decode false later (some (encode c))
          ≡ (some c, some (encode c)))
load_or_refresh-write_example =
    load_or_refresh-write order_by order_by-IsOrderBy encode decode decode_valid config no_rows
      (some config) true config-IsKeyed config_valid config_single refl refl

-- Rows from before, with a provider that the configuration no longer has.
abbrev old_rows : Database Milli
old_rows = record no_rows {
  tiers = ("fast", none) ∷ [];
  tier_models =
      (
        "anthropic",
        ("fast", record { model = "a"; weight = 1000; rate_limits = record { rpm = 1; tpm = 1 } })
            ∷ [],
      )
      ∷ [];
}

old_rows-IsTables : IsTables old_rows
unfolding get
old_rows-IsTables = record { tiers_keyed = (refl, tt); tier_models_keyed = (refl, tt) }

old_rows-AreValid : AreValidRows old_rows.tier_models
old_rows-AreValid = ((refl, tt), tt)

load_from_db-write_to_db_example :
    (c : Config Milli) × (load_from_db order_by (write_to_db config old_rows) ≡ some c)
    × IsStored config old_rows c
load_from_db-write_to_db_example =
    load_from_db-write_to_db order_by order_by-IsOrderBy config old_rows config-IsKeyed config_valid
      old_rows-IsTables old_rows-AreValid

abbrev providers_of : List (TierEntry Milli) → List String
providers_of [] = []
providers_of (t ∷ ts) = t.provider ∷ providers_of ts

abbrev fast_providers : Option (Config Milli) → List String
fast_providers none = []
fast_providers (some c) = providers_of (candidates_of c.tiers "fast")

-- The provider that is gone comes back.
stale :
    fast_providers (load_from_db order_by (write_to_db config old_rows))
    ≡ "anthropic" ∷ ("openai" ∷ ("google" ∷ []))
unfolding rows_config is_valid_config load_from_db write_to_db write_tiers write_tier_models
    add_entries add_entry put_rows build_tiers tier_entries get put upsert_tier upsert_tier_models
    upsert_routing_config
stale = refl

-- Two calls at once, and the payload taken away between their steps.
abbrev schedule : List Event
schedule = run_task 0 ∷ (run_task 1 ∷ (run_task 0 ∷ (expire ∷ (run_task 1 ∷ (run_task 0 ∷ [])))))

config_stored : load_from_db order_by (write_to_db config no_rows) ≡ some config
unfolding rows_config is_valid_config load_from_db write_to_db write_tiers write_tier_models
    add_entries add_entry put_rows build_tiers tier_entries get put upsert_tier upsert_tier_models
    upsert_routing_config
config_stored = refl

run_events-SingleFlight_example :
    ((run_events order_by encode decode (write_to_db config no_rows) schedule cold).fetches
      ≤ suc (expiries schedule))
    × ((i : ℕ)
        → HasConfig config (
            (run_events order_by encode decode (write_to_db config no_rows) schedule cold).phases
              i))
run_events-SingleFlight_example =
    run_events-SingleFlight order_by encode decode (write_to_db config no_rows) config config_stored
      (decode_valid config config_valid) schedule

-- Two tasks, the second one first, and the payload taken away in each round.
abbrev round : List Event
round = run_task 1 ∷ (expire ∷ (run_task 0 ∷ []))

round-IsRound : IsRound 2 round
round-IsRound = (λ i lt. ground arith, (omega arith, (tt, (omega arith, tt))))

abbrev again : ℕ → List (List Event)
again zero = []
again (suc n) = round ∷ again n

again-AreRounds : (n : ℕ) → All (IsRound 2) (again n)
again-AreRounds zero = tt
again-AreRounds (suc n) = (round-IsRound, again-AreRounds n)

run_events_answers_example :
    (run_events order_by encode decode
        (write_to_db config no_rows)
        (in_a_row (again 10))
        cold).phases
      0
    ≡ answered (some config)
run_events_answers_example =
    run_events_answers order_by encode decode (write_to_db config no_rows) config config_stored
      (decode_valid config config_valid) 2 (again 10) 0 (again-AreRounds 10) (omega arith)
      (omega arith)

load_from_db-write_all_example :
    (c : Config Milli) × (load_from_db order_by (write_all (config ∷ (config ∷ [])) no_rows)
      ≡ some c)
    × (is_valid_config c ≡ true)
load_from_db-write_all_example =
    load_from_db-write_all order_by config (config ∷ []) no_rows order_by-IsOrderBy
      (config_valid, (config_valid, tt)) (record { tiers_keyed = tt; tier_models_keyed = tt })
      (record { models = tt; routing = refl })
