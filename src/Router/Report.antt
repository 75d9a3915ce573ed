-- ===== src/Router/Report.antt =====
-- What `Router.route` reports (gateway/router.py): the attempts of an answer, the `tried` list and
-- the cause of an error.
use librouter.Prelude.{
  ℕ, ◌≤◌, ◌≡◌, refl, ◌≢◌, String, true, false, some, List, [], ◌∷◌, ◌++◌, map, arith, length,
  if◌then◌else◌, contains, All, All-append, Distinct, Distinct-snoc, ◌==◌, string_eq, nat_eq, ap,
  ap₂, sym, ◌∙◌, inl, inr, Bool-cases, map-append,
}
use librouter.Prelude.Dict.{get}
use librouter.Prelude.Float.{Float}
use librouter.Models.{
  AttemptRecord, Caller, CandidateRef, candidate_eq, ChatCompletionRequest, ChatCompletionResponse,
  ChatResult, Config, TierConfig,
}
use librouter.Errors.{ProviderError, caller_error_for, status_for}
use librouter.Weights.Pick.{refs}
use librouter.Router.{
  RouterErrorKind, RouterError, Outcome, Answer, Tried, Env, Settings, Loop, Call, is_final, result,
  error, crash,
}
use librouter.Router.Route.{route, set_up, response, final_error}
use librouter.Router.Advance.{
  IsAsked, IsLate, IsOut, IsAttempt, IsFresh, Ends, answered, refused, used_up, too_late, crashed,
}
use librouter.Router.Invariant.{
  is_skip, called, summary, IsNumbered, IsNumbered-snoc, IsRetried, IsConsistent, from_start,
  summary-attempt,
}
use librouter.Router.Termination.{enough_fuel, route-Finishes}

abbrev first : CandidateRef × String → CandidateRef
first e = e.0

abbrev pub firsts : Tried → List CandidateRef
firsts = map first

abbrev pub callees : {W : Type 0} → List (AttemptRecord W) → List CandidateRef
callees attempts = firsts (map summary attempts)

contains-called :
    (l : Tried) (c : CandidateRef)
    → contains (firsts l) c ≡ false
    → contains (firsts (called l)) c ≡ false
contains-called [] c h = refl
contains-called ((x, status) ∷ l) c h = ground (arith, contains-called l c)

Distinct-called : (l : Tried) → Distinct (firsts l) → Distinct (firsts (called l))
Distinct-called [] h = tt
Distinct-called ((x, status) ∷ l) h = ground (arith, contains-called l x, Distinct-called l)

All-called {κ} :
    (P : CandidateRef → Type κ) (l : Tried) → All P (firsts l) → All P (firsts (called l))
All-called P [] h = tt
All-called P ((x, status) ∷ l) h = elim (Bool-cases (is_skip status)) [
  | inl e ↦ rw e (All-called P l h.1)
  | inr e ↦ rw e (h.0, All-called P l h.1)
]

module _ {W S : Type 0} ⦃d : Float W⦄ (env : Env W S) (call : Call W) where
  abbrev pub InTier : CandidateRef → Type 0
  InTier c = contains (refs call.candidates) c ≡ true

  -- An answer: the last attempt succeeded, those before it failed in a way that allows another try,
  -- they are numbered in order and went to different candidates of the tier, the vendor of the last
  -- one replied with `r`, and the response and the last record carry what `r` has.
  pub record IsServed (resp : ChatCompletionResponse) (attempts : List (AttemptRecord W))
      : Type 0 where
    pub before : List (AttemptRecord W)
    pub last : AttemptRecord W
    pub r : ChatResult
    pub split : attempts ≡ before ++ (last ∷ [])
    pub replied :
        IsAsked env call (record { provider = last.provider; model = last.model }) (Answer.reply r)
    pub ok : last.status ≡ "ok"
    pub retried : All IsRetried before
    pub numbered : IsNumbered 0 attempts
    pub distinct : Distinct (callees attempts)
    pub in_tier : All InTier (callees attempts)
    pub resp_eq : resp ≡ response call r
    pub input_tokens : last.input_tokens ≡ r.input_tokens
    pub output_tokens : last.output_tokens ≡ r.output_tokens

  -- Why an error was raised.
  pub data Cause (e : RouterError) : Type 0 where
    final :
        (before : Tried) (cand : CandidateRef) (exc : ProviderError)
        → is_final exc.class ≡ true
        → IsAsked env call cand (Answer.raises exc)
        → e.tried ≡ before ++ ((cand, status_for exc.class) ∷ [])
        → e.body ≡ (caller_error_for exc).1
        → e.kind ≡ (
            if (caller_error_for exc).0 == 400
            then RouterErrorKind.invalid_request
            else RouterErrorKind.auth)
        → Cause e
    no_candidate :
        (s : S)
        → IsOut env call (firsts e.tried) s
        → e.kind ≡ RouterErrorKind.upstream_unavailable
        → Cause e
    no_time_to_call :
        (s : S)
        → IsLate env call s
        → called e.tried ≡ []
        → e.kind ≡ RouterErrorKind.upstream_unavailable
        → Cause e
    no_time :
        (s : S)
        → IsLate env call s
        → called e.tried ≢ []
        → e.kind ≡ RouterErrorKind.deadline_exceeded
        → Cause e

  -- An error: no candidate was tried twice, all are of the tier, and there is a cause.
  pub record IsRaised (e : RouterError) : Type 0 where
    pub distinct : Distinct (firsts e.tried)
    pub in_tier : All InTier (firsts e.tried)
    pub cause : Cause e

  abbrev pub Report : Outcome W → Type 0
  Report (result resp attempts) = IsServed resp attempts
  Report (error e) = IsRaised e
  Report crash = Unit

  answered-IsServed :
      (l : Loop W) (cand : CandidateRef) (r : ChatResult) (a : AttemptRecord W)
      → IsConsistent call l
      → IsFresh call l cand
      → IsAttempt call cand "ok" (length l.attempts) a
      → (a.input_tokens ≡ r.input_tokens) × (a.output_tokens ≡ r.output_tokens)
      → IsAsked env call cand (Answer.reply r)
      → IsServed (response call r) (l.attempts ++ (a ∷ []))
  answered-IsServed l cand r a h fresh rec tokens asked = record {
    before = l.attempts;
    last = a;
    r = r;
    split = refl;
    replied = rw (rec.provider, rec.model) asked;
    ok = rec.status_eq;
    retried = h.retried;
    numbered =
        IsNumbered-snoc 0 (length l.attempts) l.attempts a h.numbered rec.attempt_idx (omega arith);
    distinct = rw whom (Distinct-snoc _ cand earlier new);
    in_tier = rw whom (
        All-append InTier (firsts (called l.tried)) (cand ∷ [])
          (All-called InTier l.tried (rw h.same at h.in_tier)) (fresh.in_tier, tt));
    resp_eq = refl;
    input_tokens = tokens.0;
    output_tokens = tokens.1;
  }
    where
      whom : callees (l.attempts ++ (a ∷ [])) ≡ firsts (called l.tried) ++ (cand ∷ [])
      whom =
          ap firsts (map-append summary l.attempts (a ∷ []))
          ∙ map-append first (map summary l.attempts) (summary a ∷ [])
          ∙ ap₂ ◌++◌ (ap firsts h.recorded) (
              ap (λ (x : CandidateRef × String). x.0 ∷ [])
                (summary-attempt call cand "ok" (length l.attempts) a rec))

      earlier : Distinct (firsts (called l.tried))
      earlier = Distinct-called l.tried (rw h.same at h.distinct)

      new : contains (firsts (called l.tried)) cand ≡ false
      new = contains-called l.tried cand (rw h.same at fresh.not_excluded)

  refused-IsRaised :
      (l : Loop W) (cand : CandidateRef) (e : ProviderError)
      → IsConsistent call l
      → IsFresh call l cand
      → is_final e.class ≡ true
      → IsAsked env call cand (Answer.raises e)
      → IsRaised (final_error l cand e)
  refused-IsRaised l cand e h fresh fin asked = record {
    distinct = rw whom (Distinct-snoc l.exclude cand h.distinct fresh.not_excluded);
    in_tier = rw whom (All-append InTier l.exclude (cand ∷ []) h.in_tier (fresh.in_tier, tt));
    cause = final l.tried cand e fin asked refl refl refl;
  }
    where
      whom : firsts (l.tried ++ ((cand, status_for e.class) ∷ [])) ≡ l.exclude ++ (cand ∷ [])
      whom =
          map-append first l.tried ((cand, status_for e.class) ∷ [])
          ∙ ap (λ x. x ++ (cand ∷ [])) (sym h.same)

  passed-IsRaised :
      (l : Loop W) (e : RouterError)
      → IsConsistent call l
      → e.tried ≡ l.tried
      → Cause e
      → IsRaised e
  passed-IsRaised l e h same why = record {
    distinct = rw (same, ← h.same) h.distinct;
    in_tier = rw (same, ← h.same) h.in_tier;
    cause = why;
  }

  -- An error for want of time comes after a call.
  called-ne-nil : (l : Loop W) → IsConsistent call l → l.attempts ≢ [] → called l.tried ≢ []
  called-ne-nil l h some_made none_called =
      some_made (map-nil l.attempts (h.recorded ∙ none_called))
    where
      map-nil : (as_ : List (AttemptRecord W)) → map summary as_ ≡ [] → as_ ≡ []
      map-nil [] e = refl
      map-nil (a ∷ as_) e = cc

  Ends-Report : (l : Loop W) (o : Outcome W) → IsConsistent call l → Ends env call l o → Report o
  Ends-Report l o h (answered cand r a fresh rec tokens asked e) =
      rw e (answered-IsServed l cand r a h fresh rec tokens asked)
  Ends-Report l o h (refused cand exc fresh fin asked e) =
      rw e (refused-IsRaised l cand exc h fresh fin asked)
  Ends-Report l o h (used_up s (inr out) e) =
      rw e (passed-IsRaised l _ h refl (no_candidate s (rw h.same at out) refl))
  Ends-Report l o h (used_up s (inl (nothing, late)) e) = rw e (
      passed-IsRaised l _ h refl
        (no_time_to_call s late (sym h.recorded ∙ ap (map summary) nothing) refl))
  Ends-Report l o h (too_late s late made e) =
      rw e (passed-IsRaised l _ h refl (no_time s late (called-ne-nil l h made) refl))
  Ends-Report l o h (crashed e) = rw e tt

module _ {W S : Type 0} ⦃d : Float W⦄ (env : Env W S) (settings : Settings W) (fuel : ℕ)
    (cfg : Config W) (req : ChatCompletionRequest W) (caller : Caller) (s : S)
    (enough : enough_fuel cfg req.model ≤ fuel) where
  -- For a configured tier `route` ends, and what it ends with is right. An answer comes with the
  -- attempts in order, numbered from 0: only the last succeeded, the others failed with errors that
  -- allow another try, no candidate was called twice, all are of the tier, and the response carries
  -- what the vendor of the last one replied. An error names only candidates of the tier, none
  -- twice, and is raised because a vendor raised an error that allows no other try, because each
  -- candidate of the tier was tried or has no weight, or because less than the least time of a
  -- round is left, with another kind before the first call than after one. Nothing is said of
  -- `crash`, the end by an exception that `route` does not catch, of Redis among them.
  pub route-Report :
      (tier : TierConfig W)
      → get cfg.tiers req.model ≡ some tier
      → (o : Outcome W) × (s' : S) × (route env settings fuel cfg req caller s ≡ some (o, s'))
        × Report env (set_up env settings req caller tier s).0 o
  route-Report tier known =
      let (o, s', m, e, run, ends) =
        route-Finishes env settings fuel cfg req caller s tier known
          (rw (known, enough_fuel) at enough) in
      let call = (set_up env settings req caller tier s).0 in
      (o, s', e, Ends-Report env call m o (from_start call run) ends)
