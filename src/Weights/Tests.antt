-- ===== src/Weights/Tests.antt =====
-- Instances of the theorems on gateway/routing/weights.py, at floats of whole thousandths.
use librouter.Prelude.{
  ℕ, ◌+◌, ◌≡◌, ◌≢◌, refl, true, none, some, List, [], ◌∷◌, arith, ◌⊎◌, ◌↔◌, contains, All,
  string_eq,
}
use librouter.Prelude.Dict.{get, put}
use librouter.Prelude.Int.{pos}
use librouter.Prelude.Float.{Milli, milli_float, Milli-IsOrdered, ◌≼◌}
use librouter.Models.{CandidateRef, candidate_eq, RoutingConfig, TierEntry}
use librouter.Breaker.{BreakerState}
use librouter.Weights.{
  CandidateSignals, WeightEngine, health_score, budget_score, effective_weight, signals_weight,
  weight, weighted, choose, pick, pick_from,
}
use librouter.Weights.Effective.{IsSane, IsBetter, signals_weight_bounds, signals_weight_mono}
use librouter.Weights.Pick.{IsOpen, IsShut, refs, pick-IsOpen, pick-none_iff}
use librouter.Weights.Interval.{LiesIn, LiesBehind, choose-LiesIn}

program : Unit {0}
unfolding get put health_score budget_score effective_weight signals_weight weight weighted choose
    pick pick_from
program = tt

abbrev pub routing : RoutingConfig Milli
routing = record {
  refresh_interval_ms = 1000;
  health_window_s = 60;
  target_latency_s = 3000;
  min_weight_floor = 20;
  rng_seed_env = none;
}

-- A tenth of the calls fail, the latency is at its target, half of the budget is left.
abbrev pub fair : CandidateSignals Milli
fair = record {
  base_weight = 1000;
  error_rate = 100;
  mean_latency_s = 3000;
  rpm_remaining = pos 30;
  rpm_cap = 60;
  tpm_remaining = pos 600;
  tpm_cap = 1000;
  breaker = BreakerState.closed;
}

abbrev pub good : CandidateSignals Milli
good = record fair { error_rate = 0; mean_latency_s = 0; rpm_remaining = pos 60 }

abbrev pub gpt : CandidateRef
gpt = record { provider = "openai"; model = "gpt" }

abbrev pub claude : CandidateRef
claude = record { provider = "anthropic"; model = "claude" }

abbrev pub entry_of : CandidateRef → TierEntry Milli
entry_of c = record {
  provider = c.provider;
  model = c.model;
  weight = 1000;
  rate_limits = record { rpm = 60; tpm = 1000 };
}

abbrev pub candidates : List (TierEntry Milli)
candidates = entry_of gpt ∷ entry_of claude ∷ []

abbrev pub engine : WeightEngine Milli
engine = record { routing = routing; cache = (gpt, fair) ∷ (claude, good) ∷ [] }

-- A generator whose state is the next number.
abbrev pub random : ℕ → Milli × ℕ
random n = (n, n + 1)

signals_weight_runs : signals_weight routing fair ≡ 225
unfolding program
signals_weight_runs = refl

pick_runs : (pick random engine candidates [] 999).0 ≡ some claude
unfolding program
pick_runs = refl

fair-IsSane : IsSane routing fair
fair-IsSane = record {
  target_pos = refl;
  base_nonneg = refl;
  error_nonneg = refl;
  rpm_le = omega arith;
  tpm_le = omega arith;
}

good-IsBetter : IsBetter fair good
good-IsBetter = record {
  same_base = refl;
  same_rpm_cap = refl;
  same_tpm_cap = refl;
  same_breaker = refl;
  fewer_errors = refl;
  faster = refl;
  more_rpm = omega arith;
  more_tpm = omega arith;
}

signals_weight_bounds_example :
    let w = signals_weight routing fair in
    (◌≼◌ {W = Milli} 0 w)
    × (w ≼ fair.base_weight)
    × ((w ≡ 0) ⊎ (◌≼◌ {W = Milli} 20 w))
    × ((fair.breaker ≢ BreakerState.opened) ⊎ (w ≡ 0))
signals_weight_bounds_example = signals_weight_bounds Milli-IsOrdered routing fair fair-IsSane

signals_weight_mono_example : signals_weight routing fair ≼ signals_weight routing good
signals_weight_mono_example =
    signals_weight_mono Milli-IsOrdered routing fair good fair-IsSane good-IsBetter

pick-IsOpen_example : IsOpen engine (gpt ∷ []) claude × (contains (refs candidates) claude ≡ true)
unfolding program
pick-IsOpen_example = pick-IsOpen random engine candidates (gpt ∷ []) 5 claude refl

pick-none_iff_example :
    ((pick random engine candidates (gpt ∷ []) 5).0 ≡ none)
    ↔ All (IsShut engine (gpt ∷ [])) (refs candidates)
pick-none_iff_example = pick-none_iff random engine candidates (gpt ∷ []) 5

choose-LiesIn_example :
    let l : List (CandidateRef × Milli) = (gpt, 225) ∷ (claude, 1000) ∷ [] in
    let x = choose 300 0 gpt l in LiesIn 300 0 l x ⊎ LiesBehind 300 0 gpt l x
choose-LiesIn_example = choose-LiesIn Milli-IsOrdered 300 0 gpt ((gpt, 225) ∷ (claude, 1000) ∷ [])
