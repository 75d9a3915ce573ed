-- ===== src/Refresh.antt =====
-- gateway/routing/refresh.py: the signals of every candidate, built from the breakers, the buckets
-- and the observer. Those are the interface `Sources` over one state, in the order in which
-- `build_signals` calls them; its operations raise in Redis or, for `remaining`, on a missing
-- limit, and then the whole tick fails and the cache of the engine stays.
pub mod Signals
pub mod Available
pub mod Task
pub mod Outage
mod Tests
use librouter.Prelude.{
  ℕ, zero, suc, ◌-◌, ◌^◌, String, Bool, true, false, Option, none, some, List, [], ◌∷◌, contains,
  string_eq, if◌then◌else◌, ltb,
}
use librouter.Prelude.Dict.{Dict, setdefault, put}
use librouter.Prelude.Int.{ℤ}
use librouter.Prelude.Float.{Float, ◌⊕◌, ◌⊗◌, ◌⊘◌, of_nat, fmin}
use librouter.Models.{
  CandidateRef, candidate_eq, ref_of, Config, RateLimitEntry, RoutingConfig, TierConfig, TierEntry,
}
use librouter.Breaker.{BreakerState}
use librouter.Observe.{WindowAggregate}
use librouter.Weights.{CandidateSignals, WeightEngine, update_cache}

pub record Sources (W S : Type 0) : Type 0 where
  pub refresh_snapshot : S → Option S
  pub aggregate : CandidateRef → S → Option (WindowAggregate W × S)
  pub remaining : String → String → S → Option ((ℤ × ℤ) × S)
  pub state : String → String → S → Option (BreakerState × S)

abbrev pub Seen : Type 0 → Type 0
Seen W = Dict CandidateRef (W × RateLimitEntry)

abbrev pub Signals : Type 0 → Type 0
Signals W = Dict CandidateRef (CandidateSignals W)

abbrev pub is_available : Option (List String) → CandidateRef → Bool
is_available none cand = true
is_available (some providers) cand = contains providers cand.provider

module _ {W : Type 0} where
  -- The loops of `_all_candidates`: over the candidates of a tier, and over the tiers.
  unfoldable pub tier_candidates : List (TierEntry W) → Seen W → Seen W
  tier_candidates [] seen = seen
  tier_candidates (t ∷ ts) seen =
      tier_candidates ts (setdefault (ref_of t) (t.weight, t.rate_limits) seen)

  unfoldable pub all_candidates : Dict String (TierConfig W) → Seen W → Seen W
  unfolding tier_candidates
  all_candidates [] seen = seen
  all_candidates ((name, tier) ∷ tiers) seen =
      all_candidates tiers (tier_candidates tier.candidates seen)

  abbrev pub signals_of :
      W → RateLimitEntry → WindowAggregate W → ℤ × ℤ → BreakerState → CandidateSignals W
  signals_of base_weight rl agg (rpm_remaining, tpm_remaining) brk = record {
    base_weight = base_weight;
    error_rate = agg.error_rate;
    mean_latency_s = agg.mean_latency_s;
    rpm_remaining = rpm_remaining;
    rpm_cap = rl.rpm;
    tpm_remaining = tpm_remaining;
    tpm_cap = rl.tpm;
    breaker = brk;
  }

module _ {W S : Type 0} (sources : Sources W S) where
  -- The three calls for one candidate.
  unfoldable pub read_signals :
      CandidateRef → W → RateLimitEntry → S → Option (CandidateSignals W × S)
  read_signals cand base_weight rl s = elim (sources.aggregate cand s) [
    | none ↦ none
    | some (agg, s1) ↦ elim (sources.remaining cand.provider cand.model s1) [
      | none ↦ none
      | some (rem, s2) ↦ elim (sources.state cand.provider cand.model s2) [
        | none ↦ none
        | some (brk, s3) ↦ some (signals_of base_weight rl agg rem brk, s3)
      ]
    ]
  ]

  -- The loop of `build_signals`, with `out`.
  unfoldable pub collect : Option (List String) → Seen W → Signals W → S → Option (Signals W × S)
  unfolding read_signals
  collect available [] out s = some (out, s)
  collect available ((cand, (base_weight, rl)) ∷ rest) out s =
      let skipped = collect available rest out s in
      if is_available available cand
      then elim (read_signals cand base_weight rl s) [
        | none ↦ none
        | some (signals, s') ↦ collect available rest (put cand signals out) s'
      ]
      else skipped

  unfoldable pub build_signals : Option (List String) → Config W → S → Option (Signals W × S)
  unfolding collect all_candidates
  build_signals available cfg s = elim (sources.refresh_snapshot s) [
    | none ↦ none
    | some s' ↦ collect available (all_candidates cfg.tiers []) [] s'
  ]

  -- `RefreshTask.tick`; an exception leaves the engine as it is.
  unfoldable pub tick :
      Option (List String) → Config W → WeightEngine W → S → Option (WeightEngine W × S)
  unfolding build_signals update_cache
  tick available cfg engine s = elim (build_signals available cfg s) [
    | none ↦ none
    | some (signals, s') ↦ some (update_cache signals engine, s')
  ]

module _ {W : Type 0} ⦃d : Float W⦄ where
  -- The wait after `failures` failed ticks in a row, with `random` the number of the generator.
  -- Python has no float for 2 ** 1024 and more: `none` is its OverflowError.
  unfoldable pub next_wait : RoutingConfig W → ℕ → W → Option W
  next_wait routing zero random = some (of_nat routing.refresh_interval_ms ⊘ of_nat 1000)
  next_wait routing (suc failures) random =
      let base_interval_s = of_nat routing.refresh_interval_ms ⊘ of_nat 1000 in
      let backoff = fmin (of_nat 30) (base_interval_s ⊗ of_nat (2 ^ failures)) in
      if ltb failures 1024 then some (backoff ⊗ (d.literal 5 1 ⊕ random ⊗ d.literal 5 1)) else none
