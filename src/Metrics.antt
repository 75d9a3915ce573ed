-- ===== src/Metrics.antt =====
-- gateway/metrics.py: the declarations of the metrics, and how gateway/app.py calls those with
-- labels. Buckets are in thousandths of a second.
pub mod Labels
mod Tests
use librouter.Prelude.{
  ◌≡◌, refl, ℕ, String, true, false, Option, none, some, List, [], ◌∷◌, map, ltb, ◌&&◌, Bool,
  Distinct, string_eq, ◌==◌, if◌then◌else◌,
}
use librouter.App.{Sample, requests_total, request_latency, attempts_total, cost_usd_total}
use librouter.App.Gauges.{Gauge, routing_weight, breaker_state, bucket_remaining}

pub data MetricKind : Type 0 where
  counter histogram gauge : MetricKind

pub record Metric : Type 0 where
  pub name : String
  pub kind : MetricKind
  pub labelnames : List String
  pub buckets : List ℕ

abbrev declare : String → MetricKind → List String → Metric
declare name kind labelnames = record {
  name = name;
  kind = kind;
  labelnames = labelnames;
  buckets = [];
}

-- The collectors of `REGISTRY`.
abbrev pub registry : List Metric
registry =
    declare "gateway_requests_total" counter ("caller" ∷ ("tier" ∷ ("outcome" ∷ [])))
    ∷ (record (declare "gateway_request_latency_seconds" histogram ("tier" ∷ ("outcome" ∷ []))) {
      buckets =
          50
          ∷ (100
              ∷ (200
                  ∷ (500
                      ∷ (1_000
                          ∷ (2_000 ∷ (3_000 ∷ (5_000 ∷ (8_000 ∷ (10_000 ∷ (15_000 ∷ []))))))))));
    }
        ∷ (declare "gateway_attempts_total" counter ("provider" ∷ ("model" ∷ ("status" ∷ [])))
            ∷ (declare "gateway_routing_weight" gauge ("provider" ∷ ("model" ∷ []))
                ∷ (declare "gateway_breaker_state" gauge ("provider" ∷ ("model" ∷ []))
                    ∷ (declare "gateway_bucket_remaining" gauge
                          ("provider" ∷ ("model" ∷ ("dim" ∷ [])))
                        ∷ (declare "gateway_cost_usd_total" counter
                              ("caller" ∷ ("tier" ∷ ("provider" ∷ [])))
                            ∷ (declare "gateway_accounting_dropped_total" counter []
                                ∷ (declare "gateway_redis_down" gauge []
                                    ∷ (declare "gateway_refresh_errors_total" counter []
                                        ∷ [])))))))))

-- A call of a collector: its name, the keyword arguments of `labels`, and whether it is `inc`,
-- `observe` or `set`.
pub record MetricCall : Type 0 where
  pub metric : String
  pub operation : MetricKind
  pub labels : List (String × String)

abbrev metric_call : String → MetricKind → List (String × String) → MetricCall
metric_call metric operation labels = record {
  metric = metric;
  operation = operation;
  labels = labels;
}

module _ {W : Type 0} where
  unfoldable pub call_of_sample : Sample W → MetricCall
  call_of_sample (requests_total caller tier outcome) =
      metric_call "gateway_requests_total" counter
        (("caller", caller) ∷ (("tier", tier) ∷ (("outcome", outcome) ∷ [])))
  call_of_sample (request_latency tier outcome elapsed) =
      metric_call "gateway_request_latency_seconds" histogram
        (("tier", tier) ∷ (("outcome", outcome) ∷ []))
  call_of_sample (attempts_total provider model status) =
      metric_call "gateway_attempts_total" counter
        (("provider", provider) ∷ (("model", model) ∷ (("status", status) ∷ [])))
  call_of_sample (cost_usd_total caller tier provider cost) =
      metric_call "gateway_cost_usd_total" counter
        (("caller", caller) ∷ (("tier", tier) ∷ (("provider", provider) ∷ [])))

  unfoldable pub call_of_gauge : Gauge W → MetricCall
  call_of_gauge (routing_weight provider model w) =
      metric_call "gateway_routing_weight" gauge (("provider", provider) ∷ (("model", model) ∷ []))
  call_of_gauge (breaker_state provider model state) =
      metric_call "gateway_breaker_state" gauge (("provider", provider) ∷ (("model", model) ∷ []))
  call_of_gauge (bucket_remaining provider model dim remaining) =
      metric_call "gateway_bucket_remaining" gauge
        (("provider", provider) ∷ (("model", model) ∷ (("dim", dim) ∷ [])))

unfoldable pub declaration : String → List Metric → Option Metric
declaration name [] = none
declaration name (m ∷ ms) = if m.name == name then some m else declaration name ms
