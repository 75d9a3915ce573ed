-- ===== src/Weights/Range.antt =====
-- The range and the monotonicity of the scores (gateway/routing/weights.py).
use librouter.Prelude.{ℕ, ◌<◌, ◌≡◌, false, ◌||◌, inl, inr, arith, leb, Bool-cases}
use librouter.Prelude.Int.{ℤ, pos, ◌≤ℤ◌}
use librouter.Prelude.Float.{
  Float, IsOrdered, ◌≼◌, ◌≺◌, ◌⊕◌, ◌⊖◌, ◌⊘◌, of_nat, nought, one, fmin, fmax, le-fmin, fmin-le_left,
  fmin-le_right, le-fmax_left, le-fmax_right, fmax-le, le_of_lt, lt_of_lt-le,
}
use librouter.Weights.{health_score, budget_score}

module _ {W : Type 0} ⦃d : Float W⦄ (laws : IsOrdered W) where
  open laws use {
    le_refl, le_trans, le-add, add_mono, sub-le, sub_anti, mul_nonneg, mul-le, mul_mono, div_nonneg,
    div-le-one, div_mono, div_anti, of_nat_mono, of_nat-lt, of_int_mono,
  }

  fmax_mono : (a b c : W) → b ≼ c → fmax a b ≼ fmax a c
  fmax_mono a b c h =
      fmax-le laws a b (fmax a c) (le-fmax_left laws a c)
        (le_trans _ _ _ h (le-fmax_right laws a c))

  fmin_mono : (a b c e : W) → a ≼ c → b ≼ e → fmin a b ≼ fmin c e
  fmin_mono a b c e h k =
      le-fmin laws c e (fmin a b) (le_trans _ _ _ (fmin-le_left laws a b) h)
        (le_trans _ _ _ (fmin-le_right laws a b) k)

  pub zero-le-one : ◌≼◌ {W = W} nought one
  zero-le-one = of_nat_mono 0 1 (omega arith)

  error_factor_bounds :
      (e : W) → nought ≼ e → (nought ≼ fmax nought (one ⊖ e)) × (fmax nought (one ⊖ e) ≼ one)
  error_factor_bounds e h = (le-fmax_left laws _ _, fmax-le laws _ _ _ zero-le-one (sub-le one e h))

  -- The denominator of the latency term is at least the target.
  target-le : (target mean : W) → target ≼ target ⊕ fmax nought mean
  target-le target mean = le-add _ _ (le-fmax_left laws nought mean)

  latency_factor_bounds :
      (target mean : W)
      → nought ≺ target
      → let f = target ⊘ (target ⊕ fmax nought mean) in (nought ≼ f) × (f ≼ one)
  latency_factor_bounds target mean h =
      let pos_den = lt_of_lt-le laws _ _ _ h (target-le target mean) in
      (
        div_nonneg _ _ (le_of_lt laws _ _ h) pos_den,
        div-le-one _ _ (le_of_lt laws _ _ h) (target-le target mean) pos_den,
      )

  -- The health score lies between 0 and 1, for an error rate that is not negative and a positive
  -- target latency.
  pub health_score_bounds :
      (error_rate mean target : W)
      → nought ≼ error_rate
      → nought ≺ target
      → (nought ≼ health_score error_rate mean target) × (health_score error_rate mean target ≼ one)
  unfolding health_score
  health_score_bounds error_rate mean target he ht =
      let (e0, e1) = error_factor_bounds error_rate he in
      let (l0, l1) = latency_factor_bounds target mean ht in
      (mul_nonneg _ _ e0 l0, le_trans _ _ _ (mul-le _ _ e0 l0 l1) e1)

  pub health_score_anti :
      (e e' mean mean' target : W)
      → nought ≺ target
      → e ≼ e'
      → mean ≼ mean'
      → health_score e' mean' target ≼ health_score e mean target
  unfolding health_score
  health_score_anti e e' mean mean' target ht he hm =
      let l = latency_factor_bounds target mean' ht in
      mul_mono _ _ _ _ (le-fmax_left laws _ _) (fmax_mono _ _ _ (sub_anti _ _ _ he)) l.0 (
        div_anti _ _ _ (le_of_lt laws _ _ ht) (lt_of_lt-le laws _ _ _ ht (target-le target mean))
          (add_mono _ _ _ _ (le_refl target) (fmax_mono _ _ _ hm)))

  -- One dimension of the budget.
  ratio_bounds :
      (rem : ℤ) (cap : ℕ)
      → 0 < cap
      → rem ≤ℤ pos cap
      → let f = fmax nought (d.of_int rem ⊘ of_nat cap) in (nought ≼ f) × (f ≼ one)
  ratio_bounds rem cap hc hr =
      let pos_cap = of_nat-lt 0 cap hc in
      (
        le-fmax_left laws _ _,
        fmax-le laws _ _ _ zero-le-one (
            le_trans _ _ _ (div_mono _ _ _ (of_int_mono rem (pos cap) hr) pos_cap)
              (div-le-one _ _ (of_nat_mono 0 cap (omega arith)) (le_refl _) pos_cap)),
      )

  ratio_mono :
      (rem rem' : ℤ) (cap : ℕ)
      → 0 < cap
      → rem ≤ℤ rem'
      → fmax nought (d.of_int rem ⊘ of_nat cap) ≼ fmax nought (d.of_int rem' ⊘ of_nat cap)
  ratio_mono rem rem' cap hc h =
      fmax_mono _ _ _ (div_mono _ _ _ (of_int_mono rem rem' h) (of_nat-lt 0 cap hc))

  caps-pos : (m n : ℕ) → (leb m 0 || leb n 0) ≡ false → (0 < m) × (0 < n)
  caps-pos m n h = ground arith

  -- The budget score lies between 0 and 1, on every branch, for counts that are at most their caps.
  pub budget_score_bounds :
      (rpm : ℤ) (rpm_cap : ℕ) (tpm : ℤ) (tpm_cap : ℕ)
      → rpm ≤ℤ pos rpm_cap
      → tpm ≤ℤ pos tpm_cap
      → let score : W = budget_score rpm rpm_cap tpm tpm_cap in (nought ≼ score) × (score ≼ one)
  unfolding budget_score
  budget_score_bounds rpm rpm_cap tpm tpm_cap hr ht =
      elim (Bool-cases (leb rpm_cap 0 || leb tpm_cap 0)) [
        | inl e ↦ rw e (le_refl _, zero-le-one)
        | inr e ↦
            let (pr, pt) = caps-pos rpm_cap tpm_cap e in
            let (r0, r1) = ratio_bounds rpm rpm_cap pr hr in
            let (t0, t1) = ratio_bounds tpm tpm_cap pt ht in
            rw e (le-fmin laws _ _ _ r0 t0, le_trans _ _ _ (fmin-le_left laws _ _) r1)
      ]

  pub budget_score_mono :
      (rpm rpm' : ℤ) (rpm_cap : ℕ) (tpm tpm' : ℤ) (tpm_cap : ℕ)
      → rpm ≤ℤ rpm'
      → tpm ≤ℤ tpm'
      → let score : W = budget_score rpm rpm_cap tpm tpm_cap in
        score ≼ budget_score rpm' rpm_cap tpm' tpm_cap
  unfolding budget_score
  budget_score_mono rpm rpm' rpm_cap tpm tpm' tpm_cap hr ht =
      elim (Bool-cases (leb rpm_cap 0 || leb tpm_cap 0)) [
        | inl e ↦ rw e (le_refl _)
        | inr e ↦
            let (pr, pt) = caps-pos rpm_cap tpm_cap e in
            rw e (
              fmin_mono _ _ _ _ (ratio_mono rpm rpm' rpm_cap pr hr)
                (ratio_mono tpm tpm' tpm_cap pt ht))
      ]
