-- ===== src/Refresh/Tests.antt =====
-- Instances of the theorems on gateway/routing/refresh.py, at floats of whole thousandths.
use librouter.Prelude.{
  ℕ, zero, suc, ◌≡◌, refl, String, Option, none, some, List, [], ◌∷◌, ◌&&◌, Bool, true, false, ◌++◌,
  leb, if◌then◌else◌,
}
use librouter.Prelude.Dict.{get, put, setdefault}
use librouter.Prelude.Int.{pos}
use librouter.Prelude.Float.{Milli, milli_float}
use librouter.Models.{
  CandidateRef, candidate_eq, Config, ProviderMode, RoutingConfig, SecretsMode, TierEntry,
}
use librouter.Breaker.{BreakerState}
use librouter.Refresh.{
  Sources, Signals, tier_candidates, all_candidates, is_available, read_signals, collect,
  build_signals, tick, next_wait,
}
use librouter.Refresh.Task.{new_task, start_task, stop_task, loop_rounds}
use librouter.Refresh.Outage.{longest_streak, loop_rounds-stop_task}
use librouter.Refresh.Signals.{IsUp, has, in_tiers, build_signals-covers}

program : Unit {0}
unfolding get put setdefault tier_candidates all_candidates read_signals collect build_signals tick
    next_wait
program = tt

abbrev routing : RoutingConfig Milli
routing = record {
  refresh_interval_ms = 1000;
  health_window_s = 60;
  target_latency_s = 3000;
  min_weight_floor = 20;
  rng_seed_env = none;
}

abbrev entry : String → TierEntry Milli
entry provider = record {
  provider = provider;
  model = "m";
  weight = 1000;
  rate_limits = record { rpm = 60; tpm = 1000 };
}

-- The second tier names a candidate of the first again.
abbrev cfg : Config Milli
cfg = record {
  provider_mode = ProviderMode.mock;
  secrets_mode = SecretsMode.env;
  tiers =
      ("fast", record { candidates = entry "openai" ∷ entry "google" ∷ [] })
      ∷ ("smart", record { candidates = entry "google" ∷ entry "anthropic" ∷ [] })
      ∷ [];
  routing = routing;
  callers = [];
}

-- Sources that count the reads and see an idle candidate wherever there are limits.
abbrev sources : Sources Milli ℕ
sources = record {
  refresh_snapshot = λ s. some s;
  aggregate = λ cand s.
      some
        (record { successes = 0; failures = 0; total = 0; mean_latency_s = 0; error_rate = 0 }, s);
  remaining = λ provider model s.
      if in_tiers (record { provider = provider; model = model }) cfg.tiers
      then some ((pos 60, pos 1000), s)
      else none;
  state = λ provider model s. some (BreakerState.closed, suc s);
}

sources-IsUp : IsUp sources cfg
sources-IsUp = record {
  refreshed = λ s. (_, refl);
  aggregated = λ cand s. (_, refl);
  measured = λ cand s listed. (((pos 60, pos 1000), s), rw listed refl);
  looked_up = λ provider model s. (_, refl);
}

abbrev available : Option (List String)
available = some ("google" ∷ "openai" ∷ [])

abbrev reads : Option (Signals Milli × ℕ) → ℕ
reads none = 0
reads (some r) = r.1

build_signals_runs : reads (build_signals sources available cfg 0) ≡ 2
unfolding program
build_signals_runs = refl

next_wait_runs : next_wait routing 3 500 ≡ some 3000
unfolding program
next_wait_runs = refl

build_signals-covers_example :
    (r : Signals Milli × ℕ) × (build_signals sources available cfg 0 ≡ some r)
    × ((c : CandidateRef) → has r.0 c ≡ (in_tiers c cfg.tiers && is_available available c))
build_signals-covers_example = build_signals-covers sources available cfg sources-IsUp 0

abbrev failing : ℕ → List (Bool × Milli)
failing zero = []
failing (suc n) = (false, 500) ∷ failing n

-- The tick after the 1025th failure in a row would be good.
abbrev outage : List (Bool × Milli)
outage = failing 1025 ++ ((true, 500) ∷ [])

loop_rounds-stop_task_example :
    ((loop_rounds routing outage (start_task new_task)).crashed
      ≡ leb 1025 (longest_streak routing 0 outage))
    × (stop_task (loop_rounds routing outage (start_task new_task)) ≡ (
        if leb 1025 (longest_streak routing 0 outage)
        then none
        else some (record (loop_rounds routing outage (start_task new_task)) {
          stop_set = true;
          running = false;
        })))
loop_rounds-stop_task_example = loop_rounds-stop_task routing outage
