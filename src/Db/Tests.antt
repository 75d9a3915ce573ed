-- ===== src/Db/Tests.antt =====
-- The usage of two callers (gateway/db.py), by one of them and by the day.
use librouter.Prelude.{◌≡◌, refl, ℕ, ◌+◌, String, none, some, List, [], ◌∷◌, map, string_eq}
use librouter.Prelude.Float.{Milli}
use librouter.Models.{AttemptRecord}
use librouter.Db.{
  Database, UsageRow, caller_tokens_used_today, group_members, groups, is_grouped, is_selected,
  selected, sum_since, usage_of, usage_summary, write_batch,
}

program : Unit {0}
unfolding caller_tokens_used_today group_members groups is_grouped is_selected selected sum_since
    usage_of usage_summary write_batch
program = tt

abbrev attempt : String → String → ℕ → AttemptRecord Milli
attempt caller provider tokens = record {
  request_id = "r";
  caller = caller;
  tier = "fast";
  provider = provider;
  model = "m";
  attempt_idx = 0;
  input_tokens = tokens;
  output_tokens = 1;
  cost_usd = 10;
  latency_ms = 1;
  status = "ok";
  vendor_req_id = none;
  client_trace_id = none;
}

-- Two days of attempts.
abbrev db : Database Milli
db = write_batch 90_000 (attempt "alice" "openai" 4 ∷ (attempt "bob" "openai" 7 ∷ [])) (
    write_batch 80_000 (attempt "alice" "openai" 2 ∷ (attempt "alice" "google" 1 ∷ []))
      (record { tiers = []; tier_models = []; routing_config = none; callers = []; requests = [] }))

abbrev sum_cost : List Milli → Milli
sum_cost [] = 0
sum_cost (x ∷ xs) = x + sum_cost xs

abbrev tokens : List (UsageRow Milli) → List (String × ℕ × Milli)
tokens = map (λ r. (r.provider, r.tokens, r.cost_usd))

used_today : caller_tokens_used_today 100_000 "alice" db ≡ 5
unfolding program
used_today = refl

summary :
    tokens (usage_summary sum_cost (λ rows. rows) (some "alice") none db)
    ≡ ("google", 2, 10) ∷ (("openai", 8, 20) ∷ [])
unfolding program
summary = refl
