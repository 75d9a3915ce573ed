-- ===== src/Observe/Window.antt =====
-- What an aggregate says of the calls that were recorded (gateway/routing/observe.py).
use librouter.Prelude.{
  ℕ, suc, ◌+◌, ◌<◌, ◌≡◌, ◌≢◌, ◌⊎◌, refl, String, List, [], ◌∷◌, arith, nat_eq, ◌==◌, Bool-cases,
  inl, inr, if◌then◌else◌, string_eq,
}
use librouter.Prelude.Int.{ℤ, int_eq}
use librouter.Prelude.Float.{Float, IsOrdered, ◌≼◌, nought, one}
use librouter.Models.{CandidateRef, candidate_eq}
use librouter.Observe.{
  Tallies, sum_rows, record_success, record_failure, window, error_rate_of, aggregate,
}

-- How often a second stands in a list of seconds.
abbrev pub occurrences : ℤ → List ℤ → ℕ
occurrences sec [] = 0
occurrences sec (s ∷ secs) = let rest = occurrences sec secs in if s == sec then suc rest else rest

module _ {W : Type 0} ⦃d : Float W⦄ where
  -- The calls of `cand` at `now` that a window counts for `c`.
  abbrev pub seen_in : CandidateRef → CandidateRef → W → List ℤ → ℕ
  seen_in c cand now secs = if c == cand then occurrences (d.trunc now) secs else 0

  failures-sum_rows :
      (now : W) (cand c : CandidateRef) (kind : String) (store : Tallies) (secs : List ℤ)
      → ((sum_rows (record_failure now cand kind store) c secs).failures
          ≡ (sum_rows store c secs).failures + seen_in c cand now secs)
        × ((sum_rows (record_failure now cand kind store) c secs).successes
            ≡ (sum_rows store c secs).successes)
  unfolding sum_rows record_failure
  failures-sum_rows now cand c kind store [] = ground arith
  failures-sum_rows now cand c kind store (sec ∷ secs) =
      ground (arith, failures-sum_rows now cand c kind store secs)

  successes-sum_rows :
      (now latency_s : W) (cand c : CandidateRef) (store : Tallies) (secs : List ℤ)
      → ((sum_rows (record_success now cand latency_s store) c secs).successes
          ≡ (sum_rows store c secs).successes + seen_in c cand now secs)
        × ((sum_rows (record_success now cand latency_s store) c secs).failures
            ≡ (sum_rows store c secs).failures)
  unfolding sum_rows record_success
  successes-sum_rows now latency_s cand c store [] = ground arith
  successes-sum_rows now latency_s cand c store (sec ∷ secs) =
      ground (arith, successes-sum_rows now latency_s cand c store secs)

  -- A failure that is recorded adds one to the failures of its candidate in each window, as often
  -- as its second stands in the window, and a success one to the successes; the other count, and
  -- every other candidate, stay as they are.
  pub aggregate-counts :
      (window_s : ℕ) (now later latency_s : W) (cand c : CandidateRef) (kind : String)
      (store : Tallies)
      → let old = aggregate window_s later c store in
        let failed = aggregate window_s later c (record_failure now cand kind store) in
        let passed = aggregate window_s later c (record_success now cand latency_s store) in
        let seen = seen_in c cand now (window window_s later) in
        (failed.failures ≡ old.failures + seen)
        × (failed.successes ≡ old.successes)
        × (failed.total ≡ old.total + seen)
        × (passed.successes ≡ old.successes + seen)
        × (passed.failures ≡ old.failures)
        × (passed.total ≡ old.total + seen)
  unfolding aggregate
  aggregate-counts window_s now later latency_s cand c kind store =
      let secs = window window_s later in
      let (f, s) = failures-sum_rows now cand c kind store secs in
      let (s', f') = successes-sum_rows now latency_s cand c store secs in
      (f, s, omega (arith, f, s), s', f', omega (arith, s', f'))

  error_rate_of-bounds :
      IsOrdered W
      → (f s : ℕ)
      → let rate = error_rate_of {W = W} f (s + f) in
        (nought ≼ rate) × (rate ≼ one) × ((s + f ≢ 0) ⊎ (rate ≡ nought))
  unfolding error_rate_of
  error_rate_of-bounds laws f s = elim (Bool-cases (s + f == 0)) [
    | inl idle ↦ rw idle (laws.le_refl nought, laws.of_nat_mono 0 1 (omega arith), inr refl)
    | inr busy ↦
        let some_seen : 0 < s + f = ground arith in
        rw busy (
          laws.div_nonneg _ _ (laws.of_nat_mono 0 f (omega arith))
              (laws.of_nat-lt 0 (s + f) some_seen),
          laws.div-le-one _ _ (laws.of_nat_mono 0 f (omega arith))
              (laws.of_nat_mono f (s + f) (omega arith)) (laws.of_nat-lt 0 (s + f) some_seen),
          inl (λ e. omega (arith, e, some_seen)),
        )
  ]

  -- With the order laws of floats, an error rate lies between 0 and 1, and is 0 where no call was
  -- seen.
  pub error_rate-bounds :
      IsOrdered W
      → (window_s : ℕ) (now : W) (cand : CandidateRef) (store : Tallies)
      → let agg = aggregate window_s now cand store in
        (nought ≼ agg.error_rate)
        × (agg.error_rate ≼ one)
        × ((agg.total ≢ 0) ⊎ (agg.error_rate ≡ nought))
  unfolding aggregate
  error_rate-bounds laws window_s now cand store =
      let rows = sum_rows store cand (window window_s now) in
      error_rate_of-bounds laws rows.failures rows.successes
