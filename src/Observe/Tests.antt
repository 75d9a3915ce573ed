-- ===== src/Observe/Tests.antt =====
-- Instances of the theorems on gateway/routing/observe.py, at floats of whole thousandths.
use librouter.Prelude.{◌+◌, ◌≡◌, ◌≢◌, ◌⊎◌, refl}
use librouter.Prelude.Int.{range}
use librouter.Prelude.Float.{Milli, milli_float, Milli-IsOrdered, ◌≼◌, nought, one}
use librouter.Models.{CandidateRef}
use librouter.Observe.{
  Tallies, no_calls, sum_rows, record_success, record_failure, window, error_rate_of,
  mean_latency_of, aggregate,
}
use librouter.Observe.Window.{seen_in, aggregate-counts, error_rate-bounds}

program : Unit {0}
unfolding range sum_rows record_success record_failure window error_rate_of mean_latency_of
    aggregate
program = tt

abbrev gpt : CandidateRef
gpt = record { provider = "openai"; model = "gpt" }

-- Two successes, of 2 s and 4 s, and two failures, one of them before the window.
abbrev store : Tallies
store = record_failure {W = Milli} 20_000 gpt "Timeout" (
    record_success {W = Milli} 98_000 gpt 2_000 (
      record_success {W = Milli} 99_500 gpt 4_000
        (record_failure {W = Milli} 99_000 gpt "Transient5xx" (λ cand sec. no_calls))))

aggregate_runs :
    aggregate {W = Milli} 60 100_000 gpt store
    ≡ record { successes = 2; failures = 1; total = 3; mean_latency_s = 3_000; error_rate = 333 }
unfolding program
aggregate_runs = refl

aggregate-counts_example :
    let old = aggregate {W = Milli} 60 100_000 gpt store in
    let failed =
      aggregate {W = Milli} 60 100_000 gpt
        (record_failure {W = Milli} 70_000 gpt "Timeout" store) in
    let passed =
      aggregate {W = Milli} 60 100_000 gpt (record_success {W = Milli} 70_000 gpt 500 store) in
    let seen = seen_in {W = Milli} gpt gpt 70_000 (window {W = Milli} 60 100_000) in
    (failed.failures ≡ old.failures + seen)
    × (failed.successes ≡ old.successes)
    × (failed.total ≡ old.total + seen)
    × (passed.successes ≡ old.successes + seen)
    × (passed.failures ≡ old.failures)
    × (passed.total ≡ old.total + seen)
aggregate-counts_example =
    aggregate-counts {W = Milli} 60 70_000 100_000 500 gpt gpt "Timeout" store

error_rate-bounds_example :
    let agg = aggregate {W = Milli} 60 100_000 gpt store in
    (nought {W = Milli} ≼ agg.error_rate)
    × (agg.error_rate ≼ one {W = Milli})
    × ((agg.total ≢ 0) ⊎ (agg.error_rate ≡ nought {W = Milli}))
error_rate-bounds_example = error_rate-bounds Milli-IsOrdered 60 100_000 gpt store
