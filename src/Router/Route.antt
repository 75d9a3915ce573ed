-- ===== src/Router/Route.antt =====
-- gateway/router.py: `Router._record` and `Router.route`, round by round.
use Prim.Native.String.{◌++◌ as str_append}
use librouter.Prelude.{
  ℕ, zero, suc, ◌+◌, String, true, false, Option, none, some, [], ◌∷◌, ◌++◌, length, string_eq,
  if◌then◌else◌, nat_eq, ◌==◌,
}
use librouter.Prelude.Dict.{get}
use librouter.Prelude.Int.{pos_part}
use librouter.Prelude.Float.{Float, ◌⊕◌, ◌⊖◌, ◌⊗◌, of_nat, fmin, fmax}
use librouter.Models.{
  AttemptRecord, Caller, CandidateRef, ChatCompletionRequest, ChatCompletionResponse, ChatResult,
  Config, Role, TierConfig,
}
use librouter.Models.Request.{prompt_chars}
use librouter.Errors.{ProviderError, caller_error_for, status_for}
use librouter.Ratelimit.{estimate_tokens}
use librouter.Weights.{pick}
use librouter.Router.{
  RouterErrorKind, RouterError, Outcome, Answer, Acquired, Env, Settings, Loop, Turn, Call, skip,
  class_name, is_final, client_trace_id, error_body, result, error, crash, done, again,
}

module _ {W : Type 0} where
  abbrev pub start : Loop W
  start = record { exclude = []; tried = []; attempts = [] }

  -- The raise behind the loop.
  abbrev pub exhausted : Loop W → RouterError
  exhausted l = record {
    kind = RouterErrorKind.upstream_unavailable;
    body = error_body "upstream_unavailable" "all candidates exhausted" true;
    tried = l.tried;
  }

  -- The raise at the top of a round.
  abbrev pub out_of_budget : Loop W → RouterError
  out_of_budget l = record {
    kind = RouterErrorKind.deadline_exceeded;
    body = error_body "deadline_exceeded" "ran out of budget mid-failover" true;
    tried = l.tried;
  }

  -- The error that is raised at once: the next candidate would refuse the request as well.
  abbrev pub final_error : Loop W → CandidateRef → ProviderError → RouterError
  final_error l cand e =
      let (http_status, body) = caller_error_for e in
      record {
        kind = if http_status == 400 then RouterErrorKind.invalid_request else RouterErrorKind.auth;
        body = body;
        tried = l.tried ++ ((cand, status_for e.class) ∷ []);
      }

  abbrev pub response : Call W → ChatResult → ChatCompletionResponse
  response call r = record {
    id = call.request_id;
    model = call.tier;
    choices =
        record {
          index = 0;
          message = record { role = Role.assistant; content = r.text };
          finish_reason = r.finish_reason;
        }
        ∷ [];
    usage = record {
      prompt_tokens = r.input_tokens;
      completion_tokens = r.output_tokens;
      total_tokens = r.input_tokens + r.output_tokens;
    };
  }

module _ {W : Type 0} ⦃d : Float W⦄ (settings : Settings W) where
  -- The time that one vendor call is given.
  unfoldable pub attempt_timeout : W → W
  attempt_timeout remaining =
      fmin (fmax (d.literal 1 1) (remaining ⊖ settings.deadline_buffer_s))
        settings.per_attempt_max_s

module _ {W S : Type 0} ⦃d : Float W⦄ (env : Env W S) (settings : Settings W) where
  -- The fields that `_record` takes beside the call's own.
  unfoldable pub record_attempt :
      Call W → CandidateRef → ℕ → W → String → ℕ → ℕ → Option String → AttemptRecord W
  record_attempt call cand attempt_idx latency_s status input_tokens output_tokens vendor_req_id =
      record {
        request_id = call.request_id;
        caller = call.caller;
        tier = call.tier;
        provider = cand.provider;
        model = cand.model;
        attempt_idx = attempt_idx;
        input_tokens = input_tokens;
        output_tokens = output_tokens;
        cost_usd = env.cost_usd cand.provider cand.model input_tokens output_tokens;
        latency_ms = pos_part (d.trunc (latency_s ⊗ of_nat 1000));
        status = status;
        vendor_req_id = vendor_req_id;
        client_trace_id = call.trace_id;
      }

  -- The `except ProviderError` branch, with the time that has passed. An exception of the observer
  -- leaves the loop.
  unfoldable pub on_error : Call W → Loop W → CandidateRef → ProviderError → W → S → Turn W S
  unfolding record_attempt
  on_error call l cand e elapsed s =
      let status = status_for e.class in
      let rec = record_attempt call cand (length l.attempts) elapsed status 0 0 none in
      let l' = record l { attempts = l.attempts ++ (rec ∷ []) } in
      elim (env.record_failure cand (class_name e.class) s) [
        | none ↦ done crash s
        | some s' ↦
            if is_final e.class
            then done (error (final_error l cand e)) s'
            else skip cand status l' s'
      ]

  -- The successful end.
  unfoldable pub on_reply : Call W → Loop W → CandidateRef → ChatResult → W → S → Turn W S
  unfolding record_attempt
  on_reply call l cand r elapsed s =
      let rec =
        record_attempt call cand (length l.attempts) elapsed "ok" r.input_tokens r.output_tokens
          r.vendor_request_id in
      elim (env.record_success cand elapsed s) [
        | none ↦ done crash s
        | some s' ↦ done (result (response call r) (l.attempts ++ (rec ∷ []))) s'
      ]

  -- From the moment that the bucket has granted the request.
  unfoldable pub call_vendor : Call W → Loop W → CandidateRef → W → S → Turn W S
  unfolding on_error on_reply
  call_vendor call l cand remaining s =
      let (t0, s1) = env.now s in
      if env.has_vendor cand.provider
      then (let (answer, s2) =
            env.chat cand call.messages call.params (attempt_timeout settings remaining) s1 in
          let (t1, s3) = env.now s2 in
          elim answer [
            | Answer.reply r ↦ on_reply call l cand r (t1 ⊖ t0) s3
            | Answer.raises e ↦ on_error call l cand e (t1 ⊖ t0) s3
            | Answer.other_exception ↦ done crash s2
          ])
      else skip cand "vendor_missing" l s1

  -- From the moment that a candidate is picked.
  unfoldable pub try_candidate : Call W → Loop W → CandidateRef → W → S → Turn W S
  unfolding call_vendor
  try_candidate call l cand remaining s =
      let (verdict, s') = env.try_acquire cand.provider cand.model call.est s in
      elim verdict [
        | Acquired.acquired true ↦ call_vendor call l cand remaining s'
        | Acquired.acquired false ↦ skip cand "bucket_empty" l s'
        | Acquired.key_error ↦ done crash s'
      ]

  -- One round of `while True`.
  unfoldable pub turn : Call W → Loop W → S → Turn W S
  unfolding try_candidate
  turn call l s =
      let (now, s1) = env.now s in
      let remaining = call.deadline ⊖ now in
      if d.lt remaining (d.literal 15 1)
      then elim l.attempts [
        | [] ↦ done (error (exhausted l)) s1
        | _ ∷ _ ↦ done (error (out_of_budget l)) s1
      ]
      else (let (picked, s2) = pick env.random (env.engine s1) call.candidates l.exclude s1 in
          elim picked [
            | none ↦ done (error (exhausted l)) s2
            | some cand ↦ try_candidate call l cand remaining s2
          ])

  -- `none` means that the fuel ran out.
  unfoldable pub rounds : ℕ → Call W → Loop W → S → Option (Outcome W × S)
  unfolding turn
  rounds zero call l s = none
  rounds (suc fuel) call l s = elim (turn call l s) [
    | done outcome s' ↦ some (outcome, s')
    | again l' s' ↦ rounds fuel call l' s'
  ]

  -- The call that `route` sets up for a tier that it knows, and the state after doing so.
  unfoldable pub set_up : ChatCompletionRequest W → Caller → TierConfig W → S → Call W × S
  set_up req caller tier s =
      let (now, s1) = env.now s in
      let (request_id, s2) = env.uuid4 s1 in
      (
        record {
          request_id = request_id;
          caller = caller.name;
          tier = req.model;
          trace_id = client_trace_id req.metadata;
          messages = req.messages;
          params = record {
            max_tokens = req.max_tokens;
            temperature = req.temperature;
            top_p = req.top_p;
          };
          est = estimate_tokens (prompt_chars req.messages) req.max_tokens;
          deadline = now ⊕ settings.total_budget_s;
          candidates = tier.candidates;
        },
        s2,
      )

  abbrev pub unknown_tier : String → Outcome W
  unknown_tier tier = error (record {
    kind = RouterErrorKind.invalid_request;
    body = error_body "invalid_request" (str_append "unknown tier " (env.repr tier)) false;
    tried = [];
  })

  -- `route`, on fuel for the loop.
  unfoldable pub route :
      ℕ → Config W → ChatCompletionRequest W → Caller → S → Option (Outcome W × S)
  unfolding rounds set_up
  route fuel cfg req caller s = elim (get cfg.tiers req.model) [
    | none ↦ some (unknown_tier req.model, s)
    | some tier ↦ let (call, s') = set_up req caller tier s in rounds fuel call start s'
  ]
