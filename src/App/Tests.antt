-- ===== src/App/Tests.antt =====
-- The handlers of gateway/app.py in the world of scripted vendors.
use Prim.Native.String.{◌++◌ as str_append}
use librouter.Prelude.{
  ◌≡◌, refl, ℕ, ◌≤◌, String, true, false, Option, none, some, [], ◌∷◌, arith, length, string_eq,
}
use librouter.Prelude.Dict.{get, put}
use librouter.Prelude.Float.{Milli, milli_float}
use librouter.Models.{Caller, ChatCompletionResponse, Role}
use librouter.Models.Valid.{caller_name_ok}
use librouter.Models.Request.{prompt_chars}
use librouter.Errors.{caller_error_for, status_for}
use librouter.Ratelimit.{estimate_tokens}
use librouter.Weights.{
  health_score, budget_score, effective_weight, signals_weight, weight, weighted, choose, pick,
  pick_from,
}
use librouter.Db.{
  Database, caller_by_key_hash, caller_row_raises, caller_tokens_used_today, find_caller, sum_since,
}
use librouter.Auth.{
  enabled_only, lstrip, rstrip, drop_prefix, bearer_token, hash_api_key, remove, move_to_end,
  cached_answer, remember, resolve_hash, resolve_bearer, asked_hash,
}
use librouter.Auth.Bearer.{caller_of, IsCoherent}
use librouter.Accounting.{empty_queue, enqueue, make_room}
use librouter.Secrets.{SecretsManager, has_secret, secret}
use librouter.Router.{is_final, client_trace_id}
use librouter.Router.Route.{attempt_timeout, route}
use librouter.Router.Termination.{enough_fuel}
use librouter.Router.Sample.{World, world_env, settings, tier, cfg, req, failover}
use librouter.App.{
  App, Reply, Postgres, internal_error, lookup_raises, usage_raises, success, http_error, answer,
  answer_caller, bill, chat_completions, http_status_for, is_over_cap, may_scrape, provided_token,
  resolve_caller, serve,
}
use librouter.App.Chat.{IsHandled, chat_completions_total, chat_completions-IsHandled}
use librouter.App.Charge.{IsCharged, chat_completions-IsCharged}

program : Unit {0}
unfolding get put health_score budget_score effective_weight signals_weight weight weighted choose
    pick pick_from caller_error_for status_for estimate_tokens prompt_chars client_trace_id is_final
    attempt_timeout route enabled_only lstrip rstrip drop_prefix bearer_token hash_api_key remove
    move_to_end cached_answer remember resolve_hash resolve_bearer asked_hash caller_by_key_hash
    caller_row_raises lookup_raises usage_raises find_caller caller_tokens_used_today sum_since
    enqueue make_room answer answer_caller bill chat_completions http_status_for is_over_cap
    resolve_caller serve caller_name_ok
program = tt

abbrev hmac : String → String → String
hmac pepper raw = str_append pepper (str_append "." raw)

-- Alice has used 5 of her 100 tokens of the second day.
abbrev rows : Database Milli
rows = record {
  tiers = [];
  tier_models = [];
  routing_config = none;
  callers =
      (
        "alice",
        record { key_hash = "v2:hmac-sha256:salt.a"; daily_token_cap = some 100; enabled = true },
      )
      ∷ [];
  requests =
      record {
        ts = 90_000;
        attempt = record {
          request_id = "r";
          caller = "alice";
          tier = "fast";
          provider = "openai";
          model = "gpt";
          attempt_idx = 0;
          input_tokens = 2;
          output_tokens = 3;
          cost_usd = 0;
          latency_ms = 1;
          status = "ok";
          vendor_req_id = none;
          client_trace_id = none;
        };
      }
      ∷ [];
}

abbrev app : App Milli World
app = record {
  auth = record { ttl = 60_000; maxsize = 2; cache = [] };
  db = rows;
  accounting = empty_queue 10 5;
  metrics = [];
  world = failover;
}

abbrev pg : Postgres
pg = record { lookup = true; usage = true }

abbrev header : Option String
header = some "Bearer a"

known : get cfg.tiers req.model ≡ some tier
unfolding get
known = refl

enough : enough_fuel cfg req.model ≤ 3
unfolding get
enough = omega arith

chat_completions_total_example :
    (r : Reply ChatCompletionResponse × App Milli World) × (chat_completions world_env settings 3
        cfg hmac "salt" req pg header 0 100_000 app
      ≡ some r)
chat_completions_total_example =
    chat_completions_total world_env settings 3 cfg req hmac "salt" pg header 0 100_000 app enough

abbrev db : String → Option Caller
db key_hash = caller_by_key_hash key_hash rows

chat_completions-IsHandled_example :
    (reply : Reply ChatCompletionResponse) × (app' : App Milli World) × (chat_completions world_env
        settings 3 cfg hmac "salt" req pg header 0 100_000 app
      ≡ some (reply, app'))
    × IsHandled world_env settings 3 cfg req pg 100_000 app
        (lookup_raises hmac "salt" pg header 0 app)
        (caller_of hmac "salt" db header)
        reply
        app'
    × IsCoherent hmac "salt" db app'.auth
chat_completions-IsHandled_example =
    chat_completions-IsHandled world_env settings 3 cfg req pg 100_000 app hmac "salt" header 0 refl
      tt enough

abbrev alice : Caller
alice = record { name = "alice"; daily_token_cap = some 100; enabled = true }

known_caller : caller_of hmac "salt" db header ≡ some alice
unfolding program
known_caller = refl

-- The first vendor times out, the second answers.
abbrev answered : ChatCompletionResponse
answered = record {
  id = "id";
  model = "fast";
  choices =
      record {
        index = 0;
        message = record { role = Role.assistant; content = "hi" };
        finish_reason = some "stop";
      }
      ∷ [];
  usage = record { prompt_tokens = 3; completion_tokens = 4; total_tokens = 7 };
}

abbrev app_of : Option (Reply ChatCompletionResponse × App Milli World) → App Milli World
app_of none = app
app_of (some (reply, app')) = app'

abbrev after : App Milli World
after = app_of (chat_completions world_env settings 3 cfg hmac "salt" req pg header 0 100_000 app)

chat_answered :
    chat_completions world_env settings 3 cfg hmac "salt" req pg header 0 100_000 app
    ≡ some (success answered, after)
unfolding program
chat_answered = refl

-- Both attempts are queued.
queued : length after.accounting.buffer ≡ 2
unfolding program
queued = refl

chat_completions-IsCharged_example :
    IsCharged world_env settings 3 cfg req tier known enough 100_000 100_001 app after answered
      (caller_of hmac "salt" db header)
chat_completions-IsCharged_example =
    chat_completions-IsCharged world_env settings 3 cfg req tier known enough hmac "salt" pg header
      0 100_000 100_001 app after answered refl tt (omega arith) (omega arith) chat_answered

-- Over the cap: 5 of 5 tokens.
abbrev capped : App Milli World
capped = record app {
  db = record rows {
    callers =
        (
          "alice",
          record { key_hash = "v2:hmac-sha256:salt.a"; daily_token_cap = some 5; enabled = true },
        )
        ∷ [];
  };
}

abbrev http_status : Option (Reply ChatCompletionResponse × App Milli World) → ℕ
http_status (some (http_error status detail, app')) = status
http_status _ = 0

abbrev reply_status : Option (Reply ChatCompletionResponse × App Milli World) → ℕ
reply_status (some (internal_error, app')) = 500
reply_status r = http_status r

over_the_cap :
    http_status
      (chat_completions world_env settings 3 cfg hmac "salt" req pg header 0 100_000 capped)
    ≡ 429
unfolding program
over_the_cap = refl

no_header :
    http_status (chat_completions world_env settings 3 cfg hmac "salt" req pg none 0 100_000 app)
    ≡ 401
unfolding program
no_header = refl

-- Postgres does not answer.
unavailable :
    reply_status (
      chat_completions world_env settings 3 cfg hmac "salt" req
        (record { lookup = true; usage = false })
        header
        0
        100_000
        app)
    ≡ 500
unfolding program
unavailable = refl

-- A token that is not ASCII makes the comparison raise.
scrape :
    may_scrape []
      (SecretsManager.mock_manager (("GATEWAY_METRICS_TOKEN", "t") ∷ []))
      (some "Bearer é")
    ≡ none
unfolding may_scrape provided_token has_secret secret get program
scrape = refl
