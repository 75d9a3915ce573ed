-- ===== src/App/Chat.antt =====
-- The chat handler of gateway/app.py: that it answers, and with what.
use librouter.Prelude.{
  ◌≡◌, refl, ℕ, ◌≤◌, String, Bool, true, false, Option, none, some, inl, inr, Bool-cases, string_eq,
  ◌==◌,
}
use librouter.Prelude.Float.{Float, ◌⊖◌}
use librouter.Models.{Caller, ChatCompletionRequest, ChatCompletionResponse, Config}
use librouter.Db.{caller_by_key_hash}
use librouter.Auth.{CallerResolver}
use librouter.Auth.Bearer.{caller_of, IsCoherent, resolve_bearer-IsCoherent}
use librouter.Router.{Env, Settings, Outcome}
use librouter.Router.Route.{route}
use librouter.Router.Termination.{enough_fuel, route_total}
use librouter.App.Billing.{reply_of, attempts_of, enqueue_all, answer-Billed}
use librouter.App.{
  App, Reply, Postgres, internal_error, usage_raises, lookup_raises, unauthorized, over_cap,
  is_over_cap, resolve_caller, answer, serve, answer_caller, chat_completions,
}

module _ {W S : Type 0} ⦃d : Float W⦄ (env : Env W S) (settings : Settings W) (fuel : ℕ)
    (cfg : Config W) (request : ChatCompletionRequest W) where
  serve_total :
      (caller : Caller) (app : App W S)
      → enough_fuel cfg request.model ≤ fuel
      → (o : Outcome W) × (w1 w2 : S) × (route env settings fuel cfg request caller
            ((env.now app.world).1)
          ≡ some (o, w1))
        × (elapsed : W) × (serve env settings fuel cfg request caller app
            ≡ some (answer caller request.model elapsed o (record app { world = w2 })))
  unfolding serve
  serve_total caller app enough =
      let ((o, w1), e) =
        route_total env settings fuel cfg request caller ((env.now app.world).1) enough in
      (o, w1, (env.now w1).1, e, (env.now w1).0 ⊖ (env.now app.world).0, rw (serve, e) refl)

  answer_caller_total :
      (pg : Postgres) (today : ℕ) (app : App W S) (o : Option (Option Caller × App W S))
      → enough_fuel cfg request.model ≤ fuel
      → (r : Reply ChatCompletionResponse × App W S) × (answer_caller env settings fuel cfg request
            pg today app o
          ≡ some r)
  unfolding answer_caller
  answer_caller_total pg today app none enough = (_, refl)
  answer_caller_total pg today app (some (none, app')) enough = (_, refl)
  answer_caller_total pg today app (some (some caller, app')) enough =
      let (o, w1, w2, routed, elapsed, served) = serve_total caller app' enough in
      elim (Bool-cases (usage_raises pg caller)) [
        | inl down ↦ ((internal_error, app'), rw (answer_caller, down) refl)
        | inr up ↦ elim (Bool-cases (is_over_cap today caller app'.db)) [
          | inl capped ↦ ((over_cap, app'), rw (answer_caller, up, capped) refl)
          | inr free ↦ (
            answer caller request.model elapsed o (record app' { world = w2 }),
            rw (answer_caller, up, free) served,
          )
        ]
      ]

  module _ (hmac_sha256 : String → String → String) (pepper : String) (pg : Postgres)
      (authorization : Option String) (now : W) (today : ℕ) (app : App W S)
      (enough : enough_fuel cfg request.model ≤ fuel) where
    -- Every chat request gets a reply, whatever its header and whatever the clock, the buckets and
    -- the vendors do, with one round of the router's loop more than the tier has candidates as
    -- fuel.
    pub chat_completions_total :
        (r : Reply ChatCompletionResponse × App W S) × (chat_completions env settings fuel cfg
            hmac_sha256 pepper request pg authorization now today app
          ≡ some r)
    unfolding chat_completions
    chat_completions_total =
        answer_caller_total pg today app
          (resolve_caller hmac_sha256 pepper pg authorization now app) enough

  module _ (pg : Postgres) (today : ℕ) (app : App W S) where
    -- Nothing but the cache of callers may have changed.
    abbrev pub IsIdle : App W S → Type 0
    IsIdle app' =
        (app'.accounting ≡ app.accounting)
        × (app'.metrics ≡ app.metrics)
        × (app'.world ≡ app.world)
        × (app'.db ≡ app.db)

    -- The reply is that of the router's outcome, and its attempts are queued.
    abbrev pub IsRouted : Caller → Reply ChatCompletionResponse → App W S → Type 0
    IsRouted caller reply app' =
        (o : Outcome W) × (w1 : S) × (route env settings fuel cfg request caller
            ((env.now app.world).1)
          ≡ some (o, w1))
        × (reply ≡ reply_of o)
        × (app'.accounting ≡ enqueue_all (attempts_of o) app.accounting)
        × (app'.db ≡ app.db)

    -- What a request gets, by its caller, whether the query of its usage raises, and whether that
    -- is over its cap.
    abbrev pub IsFor : Caller → Bool → Bool → Reply ChatCompletionResponse → App W S → Type 0
    IsFor caller true capped reply app' = (reply ≡ internal_error) × IsIdle app'
    IsFor caller false true reply app' = (reply ≡ over_cap) × IsIdle app'
    IsFor caller false false reply app' = IsRouted caller reply app'

    -- What a request gets, by whether the query of its caller raises.
    abbrev pub IsHandled : Bool → Option Caller → Reply ChatCompletionResponse → App W S → Type 0
    IsHandled true who reply app' = (reply ≡ internal_error) × (app' ≡ app)
    IsHandled false none reply app' = (reply ≡ unauthorized) × IsIdle app'
    IsHandled false (some caller) reply app' =
        IsFor caller (usage_raises pg caller) (is_over_cap today caller app.db) reply app'

    answer_caller-IsHandled :
        (who : Option Caller) (auth' : CallerResolver W)
        → enough_fuel cfg request.model ≤ fuel
        → (reply : Reply ChatCompletionResponse) × (app' : App W S) × (answer_caller env settings
              fuel cfg request pg today app
              (some (who, record app { auth = auth' }))
            ≡ some (reply, app'))
          × IsHandled false who reply app'
          × (app'.auth ≡ auth')
    unfolding answer_caller
    answer_caller-IsHandled none auth' enough =
        (unauthorized, record app { auth = auth' }, refl, (refl, (refl, refl, refl, refl)), refl)
    answer_caller-IsHandled (some caller) auth' enough =
        let (o, w1, w2, routed, elapsed, served) =
          serve_total caller (record app { auth = auth' }) enough in
        let after : App W S = record app { auth = auth'; world = w2 } in
        let billed = answer-Billed caller request.model elapsed o after in
        elim (Bool-cases (usage_raises pg caller)) [
          | inl down ↦ (
            internal_error,
            record app { auth = auth' },
            rw (answer_caller, down) refl,
            rw down (refl, (refl, refl, refl, refl)),
            refl,
          )
          | inr up ↦ elim (Bool-cases (is_over_cap today caller app.db)) [
            | inl capped ↦ (
              over_cap,
              record app { auth = auth' },
              rw (answer_caller, up, capped) refl,
              rw (up, capped) (refl, (refl, refl, refl, refl)),
              refl,
            )
            | inr free ↦ (
              (answer caller request.model elapsed o after).0,
              (answer caller request.model elapsed o after).1,
              rw (answer_caller, up, free) served,
              rw (up, free) (o, w1, routed, billed.0, billed.1.0, billed.1.1),
              billed.1.2,
            )
          ]
        ]

    -- With a pepper, a cache of callers that agrees with the database, and enough fuel for the
    -- router: where the query of the caller raises, because Postgres does not answer it or finds a
    -- row that is no caller, the request gets a 500 and nothing changes. Else one whose header is
    -- of no enabled caller gets a 401; one whose caller has a cap, where Postgres does not answer
    -- the query of its usage, a 500; one of a caller who has used up the tokens of the day gets a
    -- 429; in these cases the router is not called, and queue, metrics and database stay. Any other
    -- request gets what `route` comes to, a response or an error with the status of its kind, and
    -- exactly the attempts of a response are queued, in order. The agreement of the cache is kept.
    pub chat_completions-IsHandled :
        (hmac_sha256 : String → String → String) (pepper : String) (authorization : Option String)
        (now : W)
        → (pepper == "") ≡ false
        → IsCoherent hmac_sha256 pepper (λ key_hash. caller_by_key_hash key_hash app.db) app.auth
        → enough_fuel cfg request.model ≤ fuel
        → (reply : Reply ChatCompletionResponse) × (app' : App W S) × (chat_completions env settings
              fuel cfg hmac_sha256 pepper request pg authorization now today app
            ≡ some (reply, app'))
          × IsHandled
              (lookup_raises hmac_sha256 pepper pg authorization now app)
              (caller_of hmac_sha256 pepper
                (λ key_hash. caller_by_key_hash key_hash app.db)
                authorization)
              reply
              app'
          × IsCoherent hmac_sha256 pepper (λ key_hash. caller_by_key_hash key_hash app.db) app'.auth
    unfolding chat_completions resolve_caller
    chat_completions-IsHandled hmac_sha256 pepper authorization now peppered coherent enough =
        let db : String → Option Caller = λ key_hash. caller_by_key_hash key_hash app.db in
        elim (Bool-cases (lookup_raises hmac_sha256 pepper pg authorization now app)) [
          | inl down ↦ (
            internal_error,
            app,
            rw (chat_completions, resolve_caller, down) refl,
            rw down (refl, refl),
            coherent,
          )
          | inr up ↦
              let (auth', resolved, kept) =
                resolve_bearer-IsCoherent hmac_sha256 pepper db authorization now app.auth peppered
                  coherent in
              let (reply, app', e, handled, same) =
                answer_caller-IsHandled (caller_of hmac_sha256 pepper db authorization) auth'
                  enough in
              (
                reply,
                app',
                rw (chat_completions, resolve_caller, up, resolved) e,
                rw up handled,
                rw same kept,
              )
        ]
