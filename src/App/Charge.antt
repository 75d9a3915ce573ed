-- ===== src/App/Charge.antt =====
-- What a successful chat request of gateway/app.py costs its caller.
use librouter.Prelude.{
  arith, ◌∷◌, ap, [], ◌≡◌, ◌≢◌, refl, ℕ, ◌+◌, ◌≤◌, String, Bool, true, false, Option, none, some,
  List, ◌++◌, length, All, All-map, string_eq, ◌==◌, inl, inr, Bool-cases,
}
use librouter.Prelude.Dict.{get}
use librouter.Prelude.Outside.{length-Distinct}
use librouter.Weights.Pick.{refs}
use librouter.Models.{candidate_eq}
use librouter.Prelude.Float.{Float}
use librouter.Models.{
  AttemptRecord, Caller, ChatCompletionRequest, ChatCompletionResponse, Config, ErrorBody,
  TierConfig,
}
use librouter.Db.{
  caller_by_key_hash, caller_tokens_used_today, sum_tokens, today_start, write_batch,
}
use librouter.Db.Usage.{caller_tokens_used_today-write_batch}
use librouter.Auth.Bearer.{caller_of, IsCoherent}
use librouter.Router.{Call, Env, Outcome, Settings, result, error, crash}
use librouter.Router.Route.{route, set_up}
use librouter.Router.Report.{IsServed, callees, Report, route-Report}
use librouter.Router.Termination.{enough_fuel, length-refs, route-Finishes}
use librouter.App.{
  App, Postgres, usage_raises, lookup_raises, success, http_error, internal_error, is_over_cap,
  chat_completions,
}
use librouter.App.Billing.{reply_of, attempts_of, enqueue_all, enqueue_all-room}
use librouter.App.Chat.{IsHandled, chat_completions-IsHandled}
use librouter.App.Named.{AllNamed, named_from_start}

not-http_error :
    {A : Type 0} (a : A) (status : ℕ) (detail : ErrorBody) → success a ≢ http_error status detail
not-http_error a status detail = cc

not-internal_error : {A : Type 0} (a : A) → success a ≢ internal_error
not-internal_error a = cc

module _ {W S : Type 0} ⦃d : Float W⦄ (env : Env W S) (settings : Settings W) (fuel : ℕ)
    (cfg : Config W) (request : ChatCompletionRequest W) (tier : TierConfig W)
    (known : get cfg.tiers request.model ≡ some tier)
    (enough : enough_fuel cfg request.model ≤ fuel) where
  abbrev pub call_of : Caller → S → Call W
  call_of caller s = (set_up env settings request caller tier s).0

  -- Both descriptions of what `route` comes to.
  route-Described :
      (caller : Caller) (s s' : S) (o : Outcome W)
      → route env settings fuel cfg request caller s ≡ some (o, s')
      → Report env (call_of caller s) o × AllNamed (call_of caller s) o
  route-Described caller s s' o e =
      let (o1, s1, e1, report) =
        route-Report env settings fuel cfg request caller s enough tier known in
      let (o2, s2, m, e2, run, ends) =
        route-Finishes env settings fuel cfg request caller s tier known
          (rw (known, enough_fuel) at enough) in
      let same1 : o1 ≡ o = cc in
      let same2 : o2 ≡ o = cc in
      let named : AllNamed (call_of caller s) o2 =
        named_from_start (call_of caller s) env run ends in
      (rw same1 at report, rw same2 at named)

  module _ (today ts : ℕ) (app app' : App W S) (response : ChatCompletionResponse) where
    -- The response is served and paid for by the attempts of one caller, who was within the cap.
    pub record IsCharged (who : Option Caller) : Type 0 where
      pub caller : Caller
      pub attempts : List (AttemptRecord W)
      pub identified : who ≡ some caller
      pub within_cap : is_over_cap today caller app.db ≡ false
      pub served : IsServed env (call_of caller ((env.now app.world).1)) response attempts
      pub named : All (λ a. (a.caller ≡ caller.name) × (a.tier ≡ request.model)) attempts
      pub queued : app'.accounting.buffer ≡ app.accounting.buffer ++ attempts
      pub kept : app'.accounting.dropped_total ≡ app.accounting.dropped_total
      pub counted :
          caller_tokens_used_today today caller.name (write_batch ts attempts app'.db)
          ≡ caller_tokens_used_today today caller.name app.db + sum_tokens attempts

    -- There are at most as many attempts as candidates.
    length-attempts :
        (call : Call W) (attempts : List (AttemptRecord W))
        → call.candidates ≡ tier.candidates
        → IsServed env call response attempts
        → length attempts ≤ length tier.candidates
    length-attempts call attempts same h = omega (
      arith,
      length-Distinct (callees attempts) (refs call.candidates) h.distinct h.in_tier,
      length-refs call.candidates,
      length-callees attempts,
      ap length same,
    )
      where
        length-callees : (l : List (AttemptRecord W)) → length (callees l) ≡ length l
        length-callees [] = refl
        length-callees (a ∷ l) = omega (arith, length-callees l)

    Routed-IsCharged :
        length app.accounting.buffer + length tier.candidates ≤ app.accounting.capacity
        → today_start today ≤ ts
        → (caller : Caller) (o : Outcome W) (s' : S) → is_over_cap today caller app.db ≡ false
        → route env settings fuel cfg request caller ((env.now app.world).1) ≡ some (o, s')
        → success response ≡ reply_of o
        → app'.accounting ≡ enqueue_all (attempts_of o) app.accounting
        → app'.db ≡ app.db
        → IsCharged (some caller)
    unfolding set_up
    Routed-IsCharged room later caller (error x) s' free routed shown queue db =
        elim (not-http_error response _ _ shown) [ ]
    Routed-IsCharged room later caller crash s' free routed shown queue db =
        elim (not-internal_error response shown) [ ]
    Routed-IsCharged room later caller (result resp attempts) s' free routed shown queue db =
        let s = (env.now app.world).1 in
        let described = route-Described caller s s' (result resp attempts) routed in
        let same : resp ≡ response = cc in
        let served = rw same at described.0 in
        let named = described.1 in
        let fits =
          enqueue_all-room attempts app.accounting
            (omega (arith, room, length-attempts (call_of caller s) attempts refl served)) in
        record {
          caller = caller;
          attempts = attempts;
          identified = refl;
          within_cap = free;
          served = served;
          named = named;
          queued = rw queue fits.0;
          kept = rw queue fits.1;
          counted = rw db (
              caller_tokens_used_today-write_batch today ts caller.name attempts app.db later (
                All-map _ (λ (a : AttemptRecord W). a.caller ≡ caller.name) attempts (λ a h. h.0)
                  named));
        }

  -- For a configured tier, with a pepper, a cache of callers that agrees with the database, enough
  -- fuel for the router and room in the queue for as many records as the tier has candidates, if
  -- the handler answers with a response: the header is of an enabled caller who was below the cap
  -- of the day; the response is that of the last of the attempts, served as the router promises,
  -- and each attempt names that caller and the tier; the queue has them at its end, in order, and
  -- dropped nothing; and once they are written to the database, not before the day of the request,
  -- the tokens that count against the cap have grown by exactly those of the attempts.
  pub chat_completions-IsCharged :
      (hmac_sha256 : String → String → String) (pepper : String) (pg : Postgres)
      (authorization : Option String) (now : W) (today ts : ℕ) (app app' : App W S)
      (response : ChatCompletionResponse)
      → (pepper == "") ≡ false
      → IsCoherent hmac_sha256 pepper (λ key_hash. caller_by_key_hash key_hash app.db) app.auth
      → length app.accounting.buffer + length tier.candidates ≤ app.accounting.capacity
      → today_start today ≤ ts
      → chat_completions env settings fuel cfg hmac_sha256 pepper request pg authorization now today
          app
        ≡ some (success response, app')
      → IsCharged today ts app app' response (
          caller_of hmac_sha256 pepper
            (λ key_hash. caller_by_key_hash key_hash app.db)
            authorization)
  chat_completions-IsCharged hmac_sha256 pepper pg authorization now today ts app app' response
        peppered coherent room later answered =
      let who =
        caller_of hmac_sha256 pepper (λ key_hash. caller_by_key_hash key_hash app.db)
          authorization in
      let (reply, app2, e, handled, kept) =
        chat_completions-IsHandled env settings fuel cfg request pg today app hmac_sha256 pepper
          authorization now peppered coherent enough in
      let same_reply : reply ≡ success response = cc in
      let same_app : app2 ≡ app' = cc in
      from_handled (lookup_raises hmac_sha256 pepper pg authorization now app) who
        (rw (same_reply, same_app) at handled)
    where
      from_handled :
          (down : Bool) (who : Option Caller)
          → IsHandled env settings fuel cfg request pg today app down who (success response) app'
          → IsCharged today ts app app' response who
      from_handled true who h = elim (not-internal_error response h.0) [ ]
      from_handled false none h = elim (not-http_error response _ _ h.0) [ ]
      from_handled false (some caller) h = elim (Bool-cases (usage_raises pg caller)) [
        | inl down ↦ elim (not-internal_error response ((rw down at h).0)) [ ]
        | inr up ↦ elim (Bool-cases (is_over_cap today caller app.db)) [
          | inl capped ↦ elim (not-http_error response _ _ ((rw (up, capped) at h).0)) [ ]
          | inr free ↦
              let (o, s', routed, shown, queue, db) = rw (up, free) at h in
              Routed-IsCharged today ts app app' response room later caller o s' free routed shown
                queue db
        ]
      ]
