-- ===== src/App/Started.antt =====
-- A start of the process of gateway/app.py with mock vendors, its first tick and a pick.
use librouter.Prelude.{
  ℕ, ◌≡◌, ◌≢◌, refl, String, true, false, Option, none, some, [], ◌∷◌, string_eq,
}
use librouter.Prelude.Int.{pos}
use librouter.Prelude.Dict.{Dict, get, put, setdefault}
use librouter.Prelude.Float.{Milli, milli_float, Milli-IsOrdered}
use librouter.Models.{candidate_eq, Config}
use librouter.Breaker.{BreakerState}
use librouter.Weights.{
  WeightEngine, health_score, budget_score, effective_weight, signals_weight, weight, weighted,
  choose, pick, pick_from, update_cache,
}
use librouter.Refresh.{
  Sources, all_candidates, build_signals, collect, read_signals, tick, tier_candidates,
}
use librouter.Secrets.{SecretsManager, build_secrets_manager, secret, set_secret}
use librouter.Ratelimit.{candidate_key}
use librouter.Providers.Registry.{build_vendors}
use librouter.Router.Sample.{cfg, gpt, routing, tier}
use librouter.App.Boot.{
  Gateway, apply_env_overrides, boot, boot_secrets, db_dsn, limits_of, make_gateway, seed,
  tier_limits,
}
use librouter.App.Vendors.{pick-HasVendor}
use librouter.Auth.{lstrip, rstrip}
use librouter.Db.{Database}
use librouter.Db.Pool.{connect}
use librouter.ConfigStore.{load_or_refresh}
use librouter.Refresh.Task.{RefreshTask, new_task, start_task, stop_task}
use librouter.Accounting.{AccountingQueue, empty_queue}
use librouter.App.Lifespan.{
  Startup, started, seed_is_read, start_process, start_tasks, start_with, shutdown,
}
use librouter.App.Startup.{all_held, Ends, IsSettled, start_process-Ends, shutdown-start_process}

program : Unit {0}
unfolding get put setdefault health_score budget_score effective_weight signals_weight weight
    weighted choose pick pick_from update_cache all_candidates build_signals collect read_signals
    tick tier_candidates build_secrets_manager secret set_secret candidate_key build_vendors
    apply_env_overrides boot boot_secrets db_dsn limits_of make_gateway seed tier_limits
program = tt

abbrev environ : Dict String String
environ = ("GATEWAY_KEY_HASH_PEPPER", "salt") ∷ []

abbrev mock : String → String
mock name = name

abbrev build : String → SecretsManager → Option String
build name sm = none

abbrev gateway : Gateway Milli String
gateway = record {
  cfg = cfg;
  secrets = SecretsManager.mock_manager environ;
  pepper = "salt";
  vendors = ("openai", "openai") ∷ (("anthropic", "anthropic") ∷ (("google", "google") ∷ []));
  limits =
      ("openai/gpt", record { rpm = 60; tpm = 1000 })
      ∷ (("anthropic/claude", record { rpm = 60; tpm = 1000 }) ∷ []);
  available_providers = "openai" ∷ ("anthropic" ∷ ("google" ∷ []));
}

booted : boot environ mock build cfg ≡ some gateway
unfolding program
booted = refl

-- Redis knows of no call, every bucket is full, every breaker closed.
abbrev sources : Sources Milli (Unit {0})
sources = record {
  refresh_snapshot = λ s. some s;
  aggregate = λ c s.
      some
        (record { successes = 0; failures = 0; total = 0; error_rate = 0; mean_latency_s = 0 }, s);
  remaining = λ p m s. some ((pos 60, pos 1000), s);
  state = λ p m s. some (BreakerState.closed, s);
}

abbrev engine : WeightEngine Milli
engine = record { routing = routing; cache = [] }

abbrev engine_of : Option (WeightEngine Milli × Unit {0}) → WeightEngine Milli
engine_of none = engine
engine_of (some (e, s)) = e

abbrev ticked_engine : WeightEngine Milli
ticked_engine = engine_of (tick sources (some gateway.available_providers) gateway.cfg engine tt)

ticked :
    tick sources (some gateway.available_providers) gateway.cfg engine tt ≡ some (ticked_engine, tt)
unfolding program
ticked = refl

abbrev random : Unit {0} → Milli × Unit {0}
random s = (0, s)

picked : (pick random ticked_engine tier.candidates [] tt).0 ≡ some gpt
unfolding program
picked = refl

pick-HasVendor_example : get gateway.vendors "openai" ≢ none
pick-HasVendor_example =
    pick-HasVendor environ mock build cfg gateway booted Milli-IsOrdered sources engine
      ticked_engine tt tt random tier.candidates [] tt gpt ticked picked

abbrev no_rows : Database Milli
no_rows = record {
  tiers = [];
  tier_models = [];
  routing_config = none;
  callers = [];
  requests = [];
}

abbrev order_by : (V : Type 0) → Dict String V → Dict String V
order_by V d = d

abbrev encode : Config Milli → Config Milli
encode c = c

abbrev decode : Config Milli → Option (Config Milli)
decode c = some c

-- A start that finds the configuration in the cache.
abbrev startup : Startup Milli String (Unit {0})
startup =
    start_process environ (λ text. false) mock build sources order_by encode decode (some true) true
      no_rows (some cfg) tt

serves : startup ≡ started all_held gateway ticked_engine tt
unfolding program start_process start_with start_tasks seed_is_read connect load_or_refresh lstrip
    rstrip
serves = refl

start_process-Ends_example :
    Ends environ
      (λ text. false)
      mock
      build
      sources
      order_by
      encode
      decode
      (some true)
      true
      no_rows
      (some cfg)
      tt
      startup
start_process-Ends_example =
    start_process-Ends environ (λ text. false) mock build sources order_by encode decode (some true)
      true no_rows (some cfg) tt

-- A batch on its way, and two records behind it.
abbrev pending : AccountingQueue ℕ
pending = record (empty_queue 10 2) { in_flight = 1 ∷ []; buffer = 2 ∷ (3 ∷ []) }

abbrev halted : RefreshTask
halted = record new_task { stop_set = true }

shutdown-start_process_example :
    IsSettled pending (shutdown (start_task new_task) true true true all_held pending)
shutdown-start_process_example =
    shutdown-start_process environ (λ text. false) mock build sources order_by encode decode
      (some true) true no_rows (some cfg) tt tt all_held gateway ticked_engine (start_task new_task)
      halted pending serves (unfold start_task stop_task in refl)
