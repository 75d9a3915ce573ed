-- ===== src/Observe.antt =====
-- gateway/routing/observe.py: the per-second counters of the calls of each candidate, and their
-- sums over a window. `store` is what Redis holds under the keys of `observe_key`, with absent
-- fields read as 0; their time to live is four windows, so none that a window reads has expired.
-- The store is by candidate and second: no two candidates' names are taken to join to one key.
pub mod Window
mod Tests
use librouter.Prelude.{
  ℕ, ◌+◌, String, Bool, true, false, List, [], ◌∷◌, string_eq, nat_eq, ◌==◌, ◌&&◌, if◌then◌else◌,
  Eq,
}
use librouter.Prelude.Int.{ℤ, pos, ◌+ℤ◌, ◌-ℤ◌, range, int_eq}
use librouter.Prelude.Float.{Float, ◌⊗◌, ◌⊘◌, of_nat, nought}
use librouter.Models.{CandidateRef, candidate_eq}

-- The hash of one key; `fail_kinds` are its fields `fail_<kind>`.
pub record Tally : Type 0 where
  pub successes : ℕ
  pub failures : ℕ
  pub latency_sum_ms : ℤ
  pub latency_count : ℕ
  pub fail_kinds : String → ℕ

abbrev pub Tallies : Type 0
Tallies = CandidateRef → ℤ → Tally

pub record WindowAggregate (W : Type 0) : Type 0 where
  pub successes : ℕ
  pub failures : ℕ
  pub total : ℕ
  pub mean_latency_s : W
  pub error_rate : W

abbrev pub no_calls : Tally
no_calls = record {
  successes = 0;
  failures = 0;
  latency_sum_ms = pos 0;
  latency_count = 0;
  fail_kinds = λ kind. 0;
}

-- The loop over the rows; the counters by kind are not read.
unfoldable pub sum_rows : Tallies → CandidateRef → List ℤ → Tally
sum_rows store cand [] = no_calls
sum_rows store cand (sec ∷ secs) =
    let rest = sum_rows store cand secs in
    let row = store cand sec in
    record rest {
      successes = row.successes + rest.successes;
      failures = row.failures + rest.failures;
      latency_sum_ms = row.latency_sum_ms +ℤ rest.latency_sum_ms;
      latency_count = row.latency_count + rest.latency_count;
    }

module _ {W : Type 0} ⦃d : Float W⦄ where
  -- At the time `now`.
  unfoldable pub record_success : W → CandidateRef → W → Tallies → Tallies
  record_success now cand latency_s store c sec =
      let old = store c sec in
      if c == cand && sec == d.trunc now
      then record old {
        successes = old.successes + 1;
        latency_sum_ms = old.latency_sum_ms +ℤ d.trunc (latency_s ⊗ of_nat 1000);
        latency_count = old.latency_count + 1;
      }
      else old

  unfoldable pub record_failure : W → CandidateRef → String → Tallies → Tallies
  record_failure now cand kind store c sec =
      let old = store c sec in
      if c == cand && sec == d.trunc now
      then record old {
        failures = old.failures + 1;
        fail_kinds = λ k. if k == kind then old.fail_kinds k + 1 else old.fail_kinds k;
      }
      else old

  -- The seconds of the window that ends now.
  unfoldable pub window : ℕ → W → List ℤ
  unfolding range
  window window_s now = range (d.trunc now -ℤ pos window_s) (d.trunc now)

  unfoldable pub error_rate_of : ℕ → ℕ → W
  error_rate_of failures total = if total == 0 then nought else of_nat failures ⊘ of_nat total

  unfoldable pub mean_latency_of : ℤ → ℕ → W
  mean_latency_of latency_sum_ms latency_count =
      if latency_count == 0
      then nought
      else d.of_int latency_sum_ms ⊘ of_nat latency_count ⊘ of_nat 1000

  unfoldable pub aggregate : ℕ → W → CandidateRef → Tallies → WindowAggregate W
  unfolding window sum_rows error_rate_of mean_latency_of
  aggregate window_s now cand store =
      let rows = sum_rows store cand (window window_s now) in
      let total = rows.successes + rows.failures in
      record {
        successes = rows.successes;
        failures = rows.failures;
        total = total;
        mean_latency_s = mean_latency_of rows.latency_sum_ms rows.latency_count;
        error_rate = error_rate_of rows.failures total;
      }
