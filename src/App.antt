-- ===== src/App.antt =====
-- gateway/app.py: the handlers of a request. `App` is the state that they share: the resolver of
-- callers, the tables, the queue of attempts, the changes of the Prometheus metrics in order, and
-- the state `S` of what the router talks to. A handler takes the time of the clock at its call, and
-- the time of day where the database needs it. The start of the process is in App/Boot, the gauges
-- are in App/Gauges.
pub mod Boot
pub mod Lifespan
pub mod Startup
pub mod Gauges
pub mod Named
pub mod Billing
pub mod Chat
pub mod Charge
pub mod Vendors
mod Tests
mod Started
use Prim.Native.Char.{code}
use librouter.Prelude.{
  ℕ, String, Bool, true, false, Option, none, some, List, [], ◌∷◌, ◌++◌, leb, ltb, ◌&&◌, ◌||◌, not,
  string_eq, ◌==◌, if◌then◌else◌,
}
use librouter.Prelude.Float.{Float, ◌⊖◌}
use librouter.Models.{
  AttemptRecord, Caller, ChatCompletionRequest, ChatCompletionResponse, Config, ErrorBody,
}
use librouter.Db.{
  Database, UsageRow, caller_by_key_hash, caller_row_raises, caller_tokens_used_today,
  usage_summary,
}
use librouter.Auth.{CallerResolver, resolve_bearer, asked_hash, lstrip, rstrip, drop_prefix}
use librouter.Accounting.{AccountingQueue, enqueue}
use librouter.Secrets.{SecretsManager, has_secret, secret}
use librouter.Prelude.Dict.{Dict}
use librouter.Router.{RouterErrorKind, RouterError, Outcome, Env, Settings, result, error, crash}
use librouter.Router.Route.{route}

-- A change of a metric, with its labels.
pub data Sample (W : Type 0) : Type 0 where
  requests_total : (caller tier outcome : String) → Sample W
  request_latency : (tier outcome : String) → W → Sample W
  attempts_total : (provider model status : String) → Sample W
  cost_usd_total : (caller tier provider : String) → W → Sample W

pub record App (W S : Type 0) : Type 0 where
  pub auth : CallerResolver W
  pub db : Database W
  pub accounting : AccountingQueue (AttemptRecord W)
  pub metrics : List (Sample W)
  pub world : S

-- What a client gets: a body with status 200, an error with a status and a detail, or the status
-- 500 of an exception that no handler catches.
pub data Reply (A : Type 0) : Type 0 where
  success : A → Reply A
  http_error : ℕ → ErrorBody → Reply A
  internal_error : Reply A

-- The detail has no `retryable` field here, and it counts as false.
abbrev pub unauthorized : {A : Type 0} → Reply A
unauthorized =
    http_error 401
      (record { type = "auth"; message = "invalid or missing API key"; retryable = false })

abbrev pub over_cap : {A : Type 0} → Reply A
over_cap = http_error 429 (record {
  type = "caller_rate_limit";
  message = "daily token cap exhausted";
  retryable = false;
})

-- `RouterErrorKind.value`
abbrev pub kind_value : RouterErrorKind → String
kind_value RouterErrorKind.invalid_request = "invalid_request"
kind_value RouterErrorKind.auth = "auth"
kind_value RouterErrorKind.upstream_unavailable = "upstream_unavailable"
kind_value RouterErrorKind.deadline_exceeded = "deadline_exceeded"

unfoldable pub http_status_for : RouterErrorKind → ℕ
http_status_for RouterErrorKind.invalid_request = 400
http_status_for RouterErrorKind.auth = 401
http_status_for RouterErrorKind.upstream_unavailable = 503
http_status_for RouterErrorKind.deadline_exceeded = 504

-- Whether Postgres answers the two queries of a request: for the caller, and for its usage.
pub record Postgres : Type 0 where
  pub lookup : Bool
  pub usage : Bool

-- The tokens of the day are asked for where the caller has a cap.
unfoldable pub usage_raises : Postgres → Caller → Bool
usage_raises pg caller = elim caller.daily_token_cap [
  | none ↦ false
  | some daily_cap ↦ not pg.usage
]

module _ {W : Type 0} where
  -- A caller without a cap is never over it.
  unfoldable pub is_over_cap : ℕ → Caller → Database W → Bool
  unfolding caller_tokens_used_today
  is_over_cap today caller db = elim caller.daily_token_cap [
    | none ↦ false
    | some daily_cap ↦ leb daily_cap (caller_tokens_used_today today caller.name db)
  ]

  -- The metrics of an attempt: the cost counts for a successful one only.
  abbrev pub attempt_samples : String → String → AttemptRecord W → List (Sample W)
  attempt_samples caller tier a =
      attempts_total a.provider a.model a.status
      ∷ (if a.status == "ok" then cost_usd_total caller tier a.provider a.cost_usd ∷ [] else [])

module _ {W S : Type 0} where
  abbrev pub observe : List (Sample W) → App W S → App W S
  observe samples app = record app { metrics = app.metrics ++ samples }

  -- The loop over `result.attempts`.
  unfoldable pub bill : String → String → List (AttemptRecord W) → App W S → App W S
  unfolding enqueue
  bill caller tier [] app = app
  bill caller tier (a ∷ attempts) app =
      bill caller tier attempts (record (observe (attempt_samples caller tier a) app) {
        accounting = enqueue a app.accounting;
      })

module _ {W S : Type 0} ⦃d : Float W⦄ (hmac_sha256 : String → String → String)
    (pepper : String) where
  -- Whether the query of the resolver raises: the database does not answer, or has a row that is no
  -- caller. The cache is as before then.
  unfoldable pub lookup_raises : Postgres → Option String → W → App W S → Bool
  unfolding asked_hash caller_row_raises
  lookup_raises pg authorization now app =
      elim (asked_hash hmac_sha256 pepper authorization now app.auth) [
        | none ↦ false
        | some key_hash ↦ not pg.lookup || caller_row_raises key_hash app.db
      ]

  -- `_resolve_caller`: the inner `none` is the 401, the outer one an exception of the resolver.
  unfoldable pub resolve_caller :
      Postgres → Option String → W → App W S → Option (Option Caller × App W S)
  unfolding resolve_bearer caller_by_key_hash lookup_raises
  resolve_caller pg authorization now app =
      if lookup_raises pg authorization now app
      then none
      else elim (resolve_bearer hmac_sha256 pepper (λ key_hash. caller_by_key_hash key_hash app.db)
          authorization now app.auth) [
            | none ↦ none
            | some (caller, auth') ↦ some (caller, record app { auth = auth' })
          ]

  -- `v1_usage`; the query parameter `caller` is not read.
  unfoldable pub v1_usage :
      (List W → W)
      → (List (UsageRow W) → List (UsageRow W))
      → Postgres
      → Option String
      → Option String
      → W
      → App W S
      → Reply (List (UsageRow W)) × App W S
  unfolding resolve_caller usage_summary
  v1_usage sum_cost order_usage pg authorization caller now app =
      elim (resolve_caller pg authorization now app) [
        | none ↦ (internal_error, app)
        | some (none, app') ↦ (unauthorized, app')
        | some (some resolved, app') ↦
            if pg.usage
            then (
              success (usage_summary sum_cost order_usage (some resolved.name) none app'.db),
              app',
            )
            else (internal_error, app')
      ]

module _ {W S : Type 0} where
  -- What follows the router's answer, with the time that it took.
  unfoldable pub answer :
      Caller → String → W → Outcome W → App W S → Reply ChatCompletionResponse × App W S
  unfolding bill http_status_for
  answer caller tier elapsed (error e) app = (
    http_error (http_status_for e.kind) e.body,
    observe
        (requests_total caller.name tier (kind_value e.kind)
          ∷ (request_latency tier (kind_value e.kind) elapsed ∷ []))
        app,
  )
  answer caller tier elapsed (result response attempts) app = (
    success response,
    bill caller.name tier attempts (
        observe (requests_total caller.name tier "ok" ∷ (request_latency tier "ok" elapsed ∷ []))
          app),
  )
  answer caller tier elapsed crash app = (internal_error, app)

module _ {W S : Type 0} ⦃d : Float W⦄ (env : Env W S) (settings : Settings W) (fuel : ℕ)
    (cfg : Config W) where
  -- The call of the router between two looks at the clock.
  unfoldable pub serve :
      ChatCompletionRequest W → Caller → App W S → Option (Reply ChatCompletionResponse × App W S)
  unfolding route answer
  serve request caller app =
      let (t0, world1) = env.now app.world in
      elim (route env settings fuel cfg request caller world1) [
        | none ↦ none
        | some (outcome, world2) ↦
            let (t1, world3) = env.now world2 in
            some (answer caller request.model (t1 ⊖ t0) outcome (record app { world = world3 }))
      ]

  -- What follows the resolution of the caller, in state `app` if that raised.
  unfoldable pub answer_caller :
      ChatCompletionRequest W
      → Postgres
      → ℕ
      → App W S
      → Option (Option Caller × App W S)
      → Option (Reply ChatCompletionResponse × App W S)
  unfolding is_over_cap usage_raises serve
  answer_caller request pg today app none = some (internal_error, app)
  answer_caller request pg today app (some (none, app')) = some (unauthorized, app')
  answer_caller request pg today app (some (some caller, app')) =
      let served = serve request caller app' in
      if usage_raises pg caller
      then some (internal_error, app')
      else if is_over_cap today caller app'.db
      then some (over_cap, app')
      else served

  module _ (hmac_sha256 : String → String → String) (pepper : String) where
    -- `chat_completions`; `none` means that the fuel of the router ran out.
    unfoldable pub chat_completions :
        ChatCompletionRequest W
        → Postgres
        → Option String
        → W
        → ℕ
        → App W S
        → Option (Reply ChatCompletionResponse × App W S)
    unfolding resolve_caller answer_caller
    chat_completions request pg authorization now today app =
        answer_caller request pg today app
          (resolve_caller hmac_sha256 pepper pg authorization now app)

-- The token of a `/metrics` request: the rest of a bearer header, stripped.
unfoldable pub provided_token : Option String → String
unfolding lstrip rstrip drop_prefix
provided_token none = ""
provided_token (some authorization) = elim (drop_prefix "Bearer " authorization) [
  | none ↦ ""
  | some rest ↦ rstrip (lstrip rest)
]

unfoldable pub is_ascii : String → Bool
is_ascii String.[] = true
is_ascii (String.◌∷◌ c s) = ltb (code c) 128 && is_ascii s

-- `hmac.compare_digest` of two texts, which raises a TypeError (`none`) on one that is not ASCII.
unfoldable pub compare_digest : String → String → Option Bool
unfolding is_ascii
compare_digest a b = if is_ascii a && is_ascii b then some (a == b) else none

-- The access check of `metrics`: true if the metrics may be read, `none` for an exception.
unfoldable pub may_scrape : Dict String String → SecretsManager → Option String → Option Bool
unfolding has_secret secret provided_token compare_digest
may_scrape environ secrets authorization =
    if has_secret environ secrets "GATEWAY_METRICS_TOKEN"
    then elim (secret environ secrets "GATEWAY_METRICS_TOKEN") [
      | none ↦ none
      | some expected ↦ compare_digest expected (provided_token authorization)
    ]
    else some false
