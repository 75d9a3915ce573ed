-- ===== src/Metrics/Tests.antt =====
-- The calls of a chat request with one attempt, and of the gauges of one candidate.
use librouter.Prelude.{List, [], ◌∷◌, ◌++◌, map, All, Distinct, string_eq}
use librouter.Prelude.Int.{pos}
use librouter.Prelude.Float.{Milli}
use librouter.App.{Sample, requests_total, request_latency, attempts_total, cost_usd_total}
use librouter.App.Gauges.{Gauge, routing_weight, breaker_state, bucket_remaining}
use librouter.Metrics.{registry, call_of_sample, call_of_gauge}
use librouter.Metrics.Labels.{IsDeclared, IsAscending, calls-AreDeclared}

abbrev samples : List (Sample Milli)
samples =
    requests_total "alice" "fast" "ok"
    ∷ (request_latency "fast" "ok" 120
        ∷ (attempts_total "openai" "gpt" "ok" ∷ (cost_usd_total "alice" "fast" "openai" 3 ∷ [])))

abbrev gauges : List (Gauge Milli)
gauges =
    routing_weight "openai" "gpt" 900
    ∷ (breaker_state "openai" "gpt" 0 ∷ (bucket_remaining "openai" "gpt" "rpm" (pos 59) ∷ []))

calls-AreDeclared_example :
    Distinct (map (λ m. m.name) registry)
    × All (λ m. IsAscending m.buckets) registry
    × All IsDeclared (map call_of_sample samples ++ map call_of_gauge gauges)
calls-AreDeclared_example = calls-AreDeclared samples gauges
