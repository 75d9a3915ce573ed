-- ===== src/Weights.antt =====
-- gateway/routing/weights.py: the weight of a candidate and the weighted pick.
-- `S` is the state of the random generator, `random` its `random()`.
pub mod Range
pub mod Effective
pub mod Pick
mod Tests
pub mod Interval
use librouter.Prelude.{
  ℕ, ◌≡◌, Bool, true, false, ◌||◌, Option, none, some, List, [], ◌∷◌, map, leb, if◌then◌else◌, Eq,
  contains,
}
use librouter.Prelude.Dict.{Dict, get}
use librouter.Prelude.Int.{ℤ}
use librouter.Prelude.Float.{Float, ◌⊕◌, ◌⊖◌, ◌⊗◌, ◌⊘◌, of_nat, nought, one, fmin, fmax}
use librouter.Models.{CandidateRef, candidate_eq, ref_of, TierEntry, RoutingConfig}
use librouter.Breaker.{BreakerState}

pub record CandidateSignals (W : Type 0) : Type 0 where
  pub base_weight : W
  pub error_rate : W
  pub mean_latency_s : W
  pub rpm_remaining : ℤ
  pub rpm_cap : ℕ
  pub tpm_remaining : ℤ
  pub tpm_cap : ℕ
  pub breaker : BreakerState

pub record WeightEngine (W : Type 0) : Type 0 where
  pub routing : RoutingConfig W
  pub cache : Dict CandidateRef (CandidateSignals W)

-- `update_cache`: the whole map is replaced.
unfoldable pub update_cache :
    {W : Type 0} → Dict CandidateRef (CandidateSignals W) → WeightEngine W → WeightEngine W
update_cache signals engine = record engine { cache = signals }

module _ {W : Type 0} ⦃d : Float W⦄ where
  -- The arguments: `error_rate`, `mean_latency_s`, `target_latency_s`.
  unfoldable pub health_score : W → W → W → W
  health_score error_rate mean_latency_s target_latency_s =
      let error_factor = fmax nought (one ⊖ error_rate) in
      let latency_factor = target_latency_s ⊘ (target_latency_s ⊕ fmax nought mean_latency_s) in
      error_factor ⊗ latency_factor

  -- The arguments: `rpm_remaining`, `rpm_cap`, `tpm_remaining`, `tpm_cap`.
  unfoldable pub budget_score : ℤ → ℕ → ℤ → ℕ → W
  budget_score rpm_remaining rpm_cap tpm_remaining tpm_cap =
      if leb rpm_cap 0 || leb tpm_cap 0
      then nought
      else (let rpm = fmax nought (d.of_int rpm_remaining ⊘ of_nat rpm_cap) in
          let tpm = fmax nought (d.of_int tpm_remaining ⊘ of_nat tpm_cap) in fmin rpm tpm)

  -- The arguments: `base`, `health`, `budget`, `breaker`, `floor`.
  unfoldable pub effective_weight : W → W → W → BreakerState → W → W
  effective_weight base health budget BreakerState.opened floor = nought
  effective_weight base health budget _ floor =
      let w = base ⊗ health ⊗ budget in if d.le floor w then w else nought

  -- The weight that `_weight` computes from the signals of a candidate.
  unfoldable pub signals_weight : RoutingConfig W → CandidateSignals W → W
  signals_weight routing s =
      effective_weight s.base_weight
        (health_score s.error_rate s.mean_latency_s routing.target_latency_s)
        (budget_score s.rpm_remaining s.rpm_cap s.tpm_remaining s.tpm_cap) s.breaker
        routing.min_weight_floor

  unfoldable pub weight : WeightEngine W → CandidateRef → W
  weight engine cand = elim (get engine.cache cand) [
    | none ↦ nought
    | some s ↦ signals_weight engine.routing s
  ]

  -- The first loop of `pick`: the lists `cands` and `weights`, zipped.
  unfoldable pub weighted :
      WeightEngine W → List CandidateRef → List (TierEntry W) → List (CandidateRef × W)
  weighted engine exclude [] = []
  weighted engine exclude (t ∷ ts) =
      let rest = weighted engine exclude ts in
      let w = weight engine (ref_of t) in
      if contains exclude (ref_of t)
      then rest
      else if d.le w nought
      then rest
      else (ref_of t, w) ∷ rest

  -- The second loop: `c` is the last candidate so far, for the return behind the loop.
  unfoldable pub choose : W → W → CandidateRef → List (CandidateRef × W) → CandidateRef
  choose r acc c [] = c
  choose r acc _ ((c, w) ∷ l) =
      let rest = choose r (acc ⊕ w) c l in if d.le r (acc ⊕ w) then c else rest

  module _ {S : Type 0} (random : S → W × S) where
    -- The generator is asked only if some candidate is left.
    unfoldable pub pick_from : List (CandidateRef × W) → S → Option CandidateRef × S
    pick_from [] s = (none, s)
    pick_from ((c, w) ∷ l) s =
        let total = d.sum (w ∷ map (λ e. e.1) l) in
        let (u, s') = random s in (some (choose (u ⊗ total) nought c ((c, w) ∷ l)), s')

    unfoldable pub pick :
        WeightEngine W → List (TierEntry W) → List CandidateRef → S → Option CandidateRef × S
    pick engine tier_candidates exclude s = pick_from (weighted engine exclude tier_candidates) s
