-- ===== src/Metrics/Labels.antt =====
-- The calls of the collectors agree with their declarations in gateway/metrics.py.
use librouter.Prelude.{
  ◌≡◌, refl, ◌<◌, ℕ, some, List, [], ◌∷◌, ◌++◌, map, All, All-append, Distinct, string_eq, arith,
}
use librouter.App.{Sample, requests_total, request_latency, attempts_total, cost_usd_total}
use librouter.App.Gauges.{Gauge, routing_weight, breaker_state, bucket_remaining}
use librouter.Metrics.{Metric, registry, MetricCall, call_of_sample, call_of_gauge, declaration}

-- The collector is declared, with exactly the labels of the call, and has the operation.
abbrev pub IsDeclared : MetricCall → Type 0
IsDeclared c =
    (m : Metric) × (declaration c.metric registry ≡ some m)
    × (map (λ l. l.0) c.labels ≡ m.labelnames)
    × (c.operation ≡ m.kind)

abbrev pub IsAscending : List ℕ → Type 0
IsAscending [] = Unit
IsAscending (a ∷ []) = Unit
IsAscending (a ∷ (b ∷ rest)) = (a < b) × IsAscending (b ∷ rest)

registry-Distinct : Distinct (map (λ m. m.name) registry)
registry-Distinct =
    (refl, (refl, (refl, (refl, (refl, (refl, (refl, (refl, (refl, (refl, tt))))))))))

module _ {W : Type 0} where
  sample-IsDeclared : (s : Sample W) → IsDeclared (call_of_sample s)
  unfolding call_of_sample declaration
  sample-IsDeclared (requests_total caller tier outcome) = (_, refl, refl, refl)
  sample-IsDeclared (request_latency tier outcome elapsed) = (_, refl, refl, refl)
  sample-IsDeclared (attempts_total provider model status) = (_, refl, refl, refl)
  sample-IsDeclared (cost_usd_total caller tier provider cost) = (_, refl, refl, refl)

  gauge-IsDeclared : (g : Gauge W) → IsDeclared (call_of_gauge g)
  unfolding call_of_gauge declaration
  gauge-IsDeclared (routing_weight provider model w) = (_, refl, refl, refl)
  gauge-IsDeclared (breaker_state provider model state) = (_, refl, refl, refl)
  gauge-IsDeclared (bucket_remaining provider model dim remaining) = (_, refl, refl, refl)

  -- No two metrics have one name, and the buckets of each ascend, so that the registry accepts all;
  -- and each sample of a chat request and each gauge of `/metrics` is set by a call of a declared
  -- collector with exactly its labels, in their order, by the operation of its kind.
  pub calls-AreDeclared :
      (samples : List (Sample W)) (gauges : List (Gauge W))
      → Distinct (map (λ m. m.name) registry)
        × All (λ m. IsAscending m.buckets) registry
        × All IsDeclared (map call_of_sample samples ++ map call_of_gauge gauges)
  calls-AreDeclared samples gauges = (
    registry-Distinct,
    omega arith,
    All-append IsDeclared (map call_of_sample samples) _ (of_samples samples) (of_gauges gauges),
  )
    where
      of_samples : (ss : List (Sample W)) → All IsDeclared (map call_of_sample ss)
      of_samples [] = tt
      of_samples (s ∷ ss) = (sample-IsDeclared s, of_samples ss)

      of_gauges : (gs : List (Gauge W)) → All IsDeclared (map call_of_gauge gs)
      of_gauges [] = tt
      of_gauges (g ∷ gs) = (gauge-IsDeclared g, of_gauges gs)
