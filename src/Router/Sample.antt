-- ===== src/Router/Sample.antt =====
-- A world of scripted vendors for the tests of gateway/router.py and of its clients: the time in
-- milliseconds, and what the vendors will answer.
use librouter.Prelude.{ℕ, ◌+◌, true, false, none, some, List, [], ◌∷◌, string_eq}
use librouter.Prelude.Int.{pos}
use librouter.Prelude.Float.{Milli, milli_float}
use librouter.Models.{
  Caller, CandidateRef, ChatCompletionRequest, Config, ProviderMode, Role, RoutingConfig,
  SecretsMode, TierConfig,
}
use librouter.Breaker.{BreakerState}
use librouter.Errors.{ErrorClass}
use librouter.Weights.{CandidateSignals}
use librouter.Router.{Acquired, Answer, Env, Settings}

pub record World : Type 0 where
  pub clock : ℕ
  pub answers : List Answer

abbrev pub gpt : CandidateRef
gpt = record { provider = "openai"; model = "gpt" }

abbrev pub claude : CandidateRef
claude = record { provider = "anthropic"; model = "claude" }

abbrev pub signals : CandidateSignals Milli
signals = record {
  base_weight = 1000;
  error_rate = 0;
  mean_latency_s = 0;
  rpm_remaining = pos 60;
  rpm_cap = 60;
  tpm_remaining = pos 1000;
  tpm_cap = 1000;
  breaker = BreakerState.closed;
}

abbrev pub routing : RoutingConfig Milli
routing = record {
  refresh_interval_ms = 1000;
  health_window_s = 60;
  target_latency_s = 3000;
  min_weight_floor = 20;
  rng_seed_env = none;
}

abbrev pub answer_next : List Answer → ℕ → Answer × World
answer_next [] t = (Answer.other_exception, record { clock = t + 500; answers = [] })
answer_next (a ∷ rest) t = (a, record { clock = t + 500; answers = rest })

abbrev pub world_env : Env Milli World
world_env = record {
  now = λ w. (w.clock, w);
  random = λ w. (0, w);
  uuid4 = λ w. ("id", w);
  engine = λ w. record { routing = routing; cache = (gpt, signals) ∷ (claude, signals) ∷ [] };
  try_acquire = λ p m n w. (Acquired.acquired true, w);
  has_vendor = λ p. true;
  chat = λ c ms ps t w. answer_next w.answers w.clock;
  record_failure = λ c k w. some w;
  record_success = λ c t w. some w;
  cost_usd = λ p m i o. i + o;
  repr = λ s. s;
}

abbrev pub settings : Settings Milli
settings = record { total_budget_s = 10_000; per_attempt_max_s = 8000; deadline_buffer_s = 500 }

abbrev pub tier : TierConfig Milli
tier = record {
  candidates =
      record {
        provider = "openai";
        model = "gpt";
        weight = 1000;
        rate_limits = record { rpm = 60; tpm = 1000 };
      }
      ∷ record {
        provider = "anthropic";
        model = "claude";
        weight = 1000;
        rate_limits = record { rpm = 60; tpm = 1000 };
      }
      ∷ [];
}

abbrev pub cfg : Config Milli
cfg = record {
  provider_mode = ProviderMode.mock;
  secrets_mode = SecretsMode.mock;
  tiers = ("fast", tier) ∷ [];
  routing = routing;
  callers = [];
}

abbrev pub req : ChatCompletionRequest Milli
req = record {
  model = "fast";
  messages = record { role = Role.user; content = "hello" } ∷ [];
  max_tokens = 16;
  temperature = none;
  top_p = none;
  stream = false;
  metadata = none;
}

abbrev pub caller : Caller
caller = record { name = "svc"; daily_token_cap = none; enabled = true }

-- The first vendor times out, the second answers.
abbrev pub failover : World
failover = record {
  clock = 0;
  answers =
      Answer.raises
        (record { class = ErrorClass.timeout; message = "Timeout"; vendor_detail = none })
      ∷ Answer.reply (record {
        text = "hi";
        finish_reason = some "stop";
        input_tokens = 3;
        output_tokens = 4;
        vendor_request_id = none;
      })
      ∷ [];
}
