-- ===== src/App/Gauges.antt =====
-- gateway/app.py: `_refresh_observability_gauges`, as the list of the values that it sets.
use librouter.Prelude.{ℕ, String, none, some, List, [], ◌∷◌, ◌++◌}
use librouter.Prelude.Dict.{Dict, get}
use librouter.Prelude.Int.{ℤ}
use librouter.Prelude.Float.{Float}
use librouter.Models.{TierConfig, TierEntry, RoutingConfig, candidate_eq, ref_of}
use librouter.Breaker.{BreakerState}
use librouter.Weights.{CandidateSignals, WeightEngine, health_score, budget_score, effective_weight}

pub data Gauge (W : Type 0) : Type 0 where
  routing_weight : (provider model : String) → W → Gauge W
  breaker_state : (provider model : String) → ℕ → Gauge W
  bucket_remaining : (provider model dim : String) → ℤ → Gauge W

abbrev pub state_value : BreakerState → ℕ
state_value BreakerState.closed = 0
state_value BreakerState.half_open = 1
state_value BreakerState.opened = 2

module _ {W : Type 0} ⦃d : Float W⦄ where
  -- The gauges of a candidate that has signals.
  unfoldable pub gauges_of : RoutingConfig W → TierEntry W → CandidateSignals W → List (Gauge W)
  unfolding health_score budget_score effective_weight
  gauges_of routing t sig =
      let h = health_score sig.error_rate sig.mean_latency_s routing.target_latency_s in
      let b = budget_score sig.rpm_remaining sig.rpm_cap sig.tpm_remaining sig.tpm_cap in
      let w = effective_weight sig.base_weight h b sig.breaker routing.min_weight_floor in
      routing_weight t.provider t.model w
      ∷ (breaker_state t.provider t.model (state_value sig.breaker)
          ∷ (bucket_remaining t.provider t.model "rpm" sig.rpm_remaining
              ∷ (bucket_remaining t.provider t.model "tpm" sig.tpm_remaining ∷ [])))

  unfoldable pub tier_gauges :
      RoutingConfig W → WeightEngine W → List (TierEntry W) → List (Gauge W)
  unfolding gauges_of get
  tier_gauges routing eng [] = []
  tier_gauges routing eng (t ∷ ts) =
      let rest = tier_gauges routing eng ts in
      elim (get eng.cache (ref_of t)) [ none ↦ rest | some sig ↦ gauges_of routing t sig ++ rest ]

  unfoldable pub refresh_gauges :
      RoutingConfig W → WeightEngine W → Dict String (TierConfig W) → List (Gauge W)
  unfolding tier_gauges
  refresh_gauges routing eng [] = []
  refresh_gauges routing eng ((name, tier_cfg) ∷ tiers) =
      tier_gauges routing eng tier_cfg.candidates ++ refresh_gauges routing eng tiers
