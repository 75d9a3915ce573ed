-- ===== src/Weights/Effective.antt =====
-- The weight of a candidate as a function of its signals (gateway/routing/weights.py): its range,
-- and that better signals never lower it.
use librouter.Prelude.{◌≡◌, ◌≢◌, refl, ◌⊎◌, inl, inr, arith}
use librouter.Prelude.Int.{pos, ◌≤ℤ◌}
use librouter.Prelude.Float.{Float, IsOrdered, ◌≼◌, ◌≺◌, ◌⊗◌, nought, one}
use librouter.Models.{RoutingConfig}
use librouter.Breaker.{BreakerState}
use librouter.Weights.{
  CandidateSignals, health_score, budget_score, effective_weight, signals_weight,
}
use librouter.Weights.Range.{
  health_score_bounds, health_score_anti, budget_score_bounds, budget_score_mono,
}

module _ {W : Type 0} ⦃d : Float W⦄ where
  -- What the configuration and the observer promise of the numbers.
  pub record IsSane (routing : RoutingConfig W) (s : CandidateSignals W) : Type 0 where
    pub target_pos : nought ≺ routing.target_latency_s
    pub base_nonneg : nought ≼ s.base_weight
    pub error_nonneg : nought ≼ s.error_rate
    pub rpm_le : s.rpm_remaining ≤ℤ pos s.rpm_cap
    pub tpm_le : s.tpm_remaining ≤ℤ pos s.tpm_cap

  -- `t` is at least as good as `s` in every signal, under the same weight, caps and breaker.
  pub record IsBetter (s t : CandidateSignals W) : Type 0 where
    pub same_base : t.base_weight ≡ s.base_weight
    pub same_rpm_cap : t.rpm_cap ≡ s.rpm_cap
    pub same_tpm_cap : t.tpm_cap ≡ s.tpm_cap
    pub same_breaker : t.breaker ≡ s.breaker
    pub fewer_errors : t.error_rate ≼ s.error_rate
    pub faster : t.mean_latency_s ≼ s.mean_latency_s
    pub more_rpm : s.rpm_remaining ≤ℤ t.rpm_remaining
    pub more_tpm : s.tpm_remaining ≤ℤ t.tpm_remaining

  module _ (laws : IsOrdered W) where
    open laws use {le_refl, le_trans, mul_nonneg, mul-le, mul_mono}

    effective_weight_bounds :
        (base health budget : W) (breaker : BreakerState) (floor : W)
        → nought ≼ base
        → (nought ≼ health) × (health ≼ one)
        → (nought ≼ budget) × (budget ≼ one)
        → let w = effective_weight base health budget breaker floor in
          (nought ≼ w) × (w ≼ base) × ((w ≡ nought) ⊎ (floor ≼ w))
    unfolding effective_weight
    effective_weight_bounds base health budget breaker floor hb (h0, h1) (b0, b1) =
        let bh0 = mul_nonneg base health hb h0 in
        let w0 = mul_nonneg _ _ bh0 b0 in
        let w1 = le_trans _ _ _ (mul-le _ _ bh0 b0 b1) (mul-le base health hb h0 h1) in
        ground (arith, w0, w1, hb, le_refl nought)

    opened_weight :
        (base health budget : W) (breaker : BreakerState) (floor : W)
        → (breaker ≢ BreakerState.opened)
          ⊎ (effective_weight base health budget breaker floor ≡ nought)
    unfolding effective_weight
    opened_weight base health budget BreakerState.opened floor = inr refl
    opened_weight base health budget BreakerState.closed floor = inl (λ e. cc)
    opened_weight base health budget BreakerState.half_open floor = inl (λ e. cc)

    effective_weight_mono :
        (base health health' budget budget' : W) (breaker : BreakerState) (floor : W)
        → nought ≼ base
        → nought ≼ health
        → nought ≼ budget
        → health ≼ health'
        → budget ≼ budget'
        → effective_weight base health budget breaker floor
          ≼ effective_weight base health' budget' breaker floor
    unfolding effective_weight
    effective_weight_mono base health health' budget budget' breaker floor hb h0 b0 h k =
        let up =
          mul_mono _ _ _ _ (mul_nonneg base health hb h0)
            (mul_mono base base health health' hb (le_refl base) h0 h) b0 k in
        let w0' =
          mul_nonneg _ _ (mul_nonneg base health' hb (le_trans _ _ _ h0 h)) (le_trans _ _ _ b0 k) in
        ground (
          arith,
          up,
          w0',
          le_refl nought,
          le_trans floor (base ⊗ health ⊗ budget) (base ⊗ health' ⊗ budget'),
        )

    module _ (routing : RoutingConfig W) (s : CandidateSignals W) where
      -- For signals in their ranges and a positive target latency, the weight of a candidate lies
      -- between 0 and the weight of the configuration, is 0 while the breaker is open, and is never
      -- below the floor unless it is 0.
      pub signals_weight_bounds :
          IsSane routing s
          → let w = signals_weight routing s in
            (nought ≼ w)
            × (w ≼ s.base_weight)
            × ((w ≡ nought) ⊎ (routing.min_weight_floor ≼ w))
            × ((s.breaker ≢ BreakerState.opened) ⊎ (w ≡ nought))
      unfolding signals_weight
      signals_weight_bounds h =
          let health = health_score s.error_rate s.mean_latency_s routing.target_latency_s in
          let budget : W = budget_score s.rpm_remaining s.rpm_cap s.tpm_remaining s.tpm_cap in
          let (w0, w1, low) =
            effective_weight_bounds s.base_weight health budget s.breaker routing.min_weight_floor
              h.base_nonneg
              (health_score_bounds laws s.error_rate s.mean_latency_s routing.target_latency_s
                h.error_nonneg h.target_pos)
              (budget_score_bounds laws s.rpm_remaining s.rpm_cap s.tpm_remaining s.tpm_cap h.rpm_le
                h.tpm_le) in
          (
            w0,
            w1,
            low,
            opened_weight s.base_weight health budget s.breaker routing.min_weight_floor,
          )

      -- For signals in their ranges and a positive target latency: a candidate with no more errors,
      -- no higher latency and no less budget left, and with the same configured weight, caps and
      -- breaker state, never gets a lower weight.
      pub signals_weight_mono :
          (t : CandidateSignals W)
          → IsSane routing s
          → IsBetter s t
          → signals_weight routing s ≼ signals_weight routing t
      unfolding signals_weight
      signals_weight_mono t hs b =
          let better_health =
            health_score_anti laws t.error_rate s.error_rate t.mean_latency_s s.mean_latency_s
              routing.target_latency_s hs.target_pos b.fewer_errors b.faster in
          let better_budget =
            budget_score_mono laws s.rpm_remaining t.rpm_remaining s.rpm_cap s.tpm_remaining
              t.tpm_remaining s.tpm_cap b.more_rpm b.more_tpm in
          rw (b.same_base, b.same_rpm_cap, b.same_tpm_cap, b.same_breaker)
            (effective_weight_mono s.base_weight _ _ _ _ s.breaker routing.min_weight_floor
              hs.base_nonneg
              (health_score_bounds laws s.error_rate s.mean_latency_s routing.target_latency_s
                hs.error_nonneg hs.target_pos).0
              (budget_score_bounds laws s.rpm_remaining s.rpm_cap s.tpm_remaining s.tpm_cap
                hs.rpm_le hs.tpm_le).0
              better_health better_budget)
