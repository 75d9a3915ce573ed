-- ===== src/Router/Advance.antt =====
-- What one round of the router's loop may do: the loop goes on only by `Advances`, and ends only by
-- `Ends` (gateway/router.py).
use librouter.Prelude.{
  ℕ, ◌≡◌, refl, String, true, false, Option, none, some, List, [], ◌∷◌, ◌++◌, ◌⊎◌, inl, inr, length,
  contains, ◌≢◌, Bool-cases, Option-cases, All,
}
use librouter.Prelude.Float.{Float, ◌⊖◌}
use librouter.Models.{AttemptRecord, CandidateRef, candidate_eq, ChatResult}
use librouter.Errors.{ErrorClass, ProviderError, status_for}
use librouter.Weights.{pick}
use librouter.Weights.Pick.{refs, IsShut, pick-IsOpen, pick-none_iff}
use librouter.Router.{
  Outcome, Answer, Acquired, Env, Settings, Loop, Turn, Call, skip, is_final, class_name, result,
  error, crash, done, again,
}
use librouter.Router.Route.{
  record_attempt, on_error, on_reply, call_vendor, try_candidate, turn, exhausted, out_of_budget,
  final_error, response, attempt_timeout,
}

module _ {W : Type 0} (call : Call W) where
  -- The record of an attempt carries the call, the candidate and its position among the attempts.
  pub record IsAttempt (cand : CandidateRef) (status : String) (idx : ℕ) (a : AttemptRecord W)
      : Type 0 where
    pub request_id : a.request_id ≡ call.request_id
    pub caller : a.caller ≡ call.caller
    pub tier : a.tier ≡ call.tier
    pub provider : a.provider ≡ cand.provider
    pub model : a.model ≡ cand.model
    pub attempt_idx : a.attempt_idx ≡ idx
    pub status_eq : a.status ≡ status

  -- A candidate of the tier that was not excluded before.
  pub record IsFresh (l : Loop W) (cand : CandidateRef) : Type 0 where
    pub in_tier : contains (refs call.candidates) cand ≡ true
    pub not_excluded : contains l.exclude cand ≡ false

  -- The candidate is noted with its status; a failed call is recorded, a candidate whose bucket is
  -- empty or whose vendor is missing is not.
  pub data Noted (l l' : Loop W) (cand : CandidateRef) (status : String) : Type 0 where
    skipped :
        (status ≡ "bucket_empty") ⊎ (status ≡ "vendor_missing")
        → l'.attempts ≡ l.attempts
        → Noted l l' cand status
    failed :
        (e : ErrorClass) (a : AttemptRecord W)
        → is_final e ≡ false
        → status ≡ status_for e
        → l'.attempts ≡ l.attempts ++ (a ∷ [])
        → IsAttempt cand status (length l.attempts) a
        → Noted l l' cand status

  pub record Advances (l l' : Loop W) : Type 0 where
    pub cand : CandidateRef
    pub status : String
    pub fresh : IsFresh l cand
    pub excluded : l'.exclude ≡ l.exclude ++ (cand ∷ [])
    pub tried : l'.tried ≡ l.tried ++ ((cand, status) ∷ [])
    pub noted : Noted l l' cand status

module _ {W S : Type 0} ⦃d : Float W⦄ (env : Env W S) (call : Call W) where
  -- The vendor of the candidate, asked with the messages of the call, gave this answer.
  abbrev pub IsAsked : CandidateRef → Answer → Type 0
  IsAsked cand answer =
      (timeout : W) × (s : S) × (s' : S) × (env.chat cand call.messages call.params timeout s
        ≡ (answer, s'))

  -- Less than the least time of a round is left.
  abbrev pub IsLate : S → Type 0
  IsLate s = d.lt (call.deadline ⊖ (env.now s).0) (d.literal 15 1) ≡ true

  -- Every candidate of the tier is excluded or has no weight.
  abbrev pub IsOut : List CandidateRef → S → Type 0
  IsOut exclude s = All (IsShut (env.engine (env.now s).1) exclude) (refs call.candidates)

  -- How the loop ends from a state of its lists.
  pub data Ends (l : Loop W) (o : Outcome W) : Type 0 where
    answered :
        (cand : CandidateRef) (r : ChatResult) (a : AttemptRecord W)
        → IsFresh call l cand
        → IsAttempt call cand "ok" (length l.attempts) a
        → (a.input_tokens ≡ r.input_tokens) × (a.output_tokens ≡ r.output_tokens)
        → IsAsked cand (Answer.reply r)
        → o ≡ result (response call r) (l.attempts ++ (a ∷ []))
        → Ends l o
    refused :
        (cand : CandidateRef) (e : ProviderError)
        → IsFresh call l cand
        → is_final e.class ≡ true
        → IsAsked cand (Answer.raises e)
        → o ≡ error (final_error l cand e)
        → Ends l o
    used_up :
        (s : S)
        → ((l.attempts ≡ []) × IsLate s) ⊎ IsOut l.exclude s
        → o ≡ error (exhausted l)
        → Ends l o
    too_late : (s : S) → IsLate s → l.attempts ≢ [] → o ≡ error (out_of_budget l) → Ends l o
    crashed : o ≡ crash → Ends l o

  abbrev pub Allowed : Loop W → Turn W S → Type 0
  Allowed l (done o s) = Ends l o
  Allowed l (again l' s) = Advances call l l'

module _ {W S : Type 0} ⦃d : Float W⦄ (env : Env W S) (settings : Settings W) (call : Call W)
    (l : Loop W) where
  record_attempt-IsAttempt :
      (cand : CandidateRef) (latency : W) (status : String) (m n : ℕ) (vendor : Option String)
      → let a =
          record_attempt env settings call cand (length l.attempts) latency status m n vendor in
        IsAttempt call cand status (length l.attempts) a
  unfolding record_attempt
  record_attempt-IsAttempt cand latency status m n vendor = record {
    request_id = refl;
    caller = refl;
    tier = refl;
    provider = refl;
    model = refl;
    attempt_idx = refl;
    status_eq = refl;
  }

  on_error-Allowed :
      (cand : CandidateRef) (e : ProviderError) (elapsed : W) (s : S)
      → IsFresh call l cand
      → IsAsked env call cand (Answer.raises e)
      → Allowed env call l (on_error env settings call l cand e elapsed s)
  unfolding on_error
  on_error-Allowed cand e elapsed s fresh asked =
      elim (Option-cases (env.record_failure cand (class_name e.class) s)) [
        | inl raised ↦ rw (raised, Allowed) (crashed refl)
        | inr (s', noted) ↦ elim (Bool-cases (is_final e.class)) [
          | inl final ↦ rw (noted, final, Allowed) (refused cand e fresh final asked refl)
          | inr more ↦
              rw (noted, more, Allowed)
                (record {
                  cand = cand;
                  status = status_for e.class;
                  fresh = fresh;
                  excluded = refl;
                  tried = refl;
                  noted =
                      failed e.class _ more refl refl
                        (record_attempt-IsAttempt cand elapsed (status_for e.class) 0 0 none);
                })
        ]
      ]

  on_reply-Allowed :
      (cand : CandidateRef) (r : ChatResult) (elapsed : W) (s : S)
      → IsFresh call l cand
      → IsAsked env call cand (Answer.reply r)
      → Allowed env call l (on_reply env settings call l cand r elapsed s)
  unfolding on_reply
  on_reply-Allowed cand r elapsed s fresh asked =
      elim (Option-cases (env.record_success cand elapsed s)) [
        | inl raised ↦ rw (raised, Allowed) (crashed refl)
        | inr (s', noted) ↦
            rw (noted, Allowed)
              (answered cand r _ fresh
                (record_attempt-IsAttempt cand elapsed "ok" r.input_tokens r.output_tokens
                  r.vendor_request_id)
                (refl, refl) asked refl)
      ]

  skip-Allowed :
      (cand : CandidateRef) (status : String) (s : S)
      → IsFresh call l cand
      → (status ≡ "bucket_empty") ⊎ (status ≡ "vendor_missing")
      → Allowed env call l (skip cand status l s)
  skip-Allowed cand status s fresh why = record {
    cand = cand;
    status = status;
    fresh = fresh;
    excluded = refl;
    tried = refl;
    noted = skipped why refl;
  }

  call_vendor-Allowed :
      (cand : CandidateRef) (remaining : W) (s : S)
      → IsFresh call l cand
      → Allowed env call l (call_vendor env settings call l cand remaining s)
  unfolding call_vendor
  call_vendor-Allowed cand remaining s fresh = elim (Bool-cases (env.has_vendor cand.provider)) [
    | inl e ↦ rw e (answer_case _ _ refl)
    | inr e ↦ rw e (skip-Allowed cand "vendor_missing" (env.now s).1 fresh (inr refl))
  ]
    where
      answer_case :
          (answer : Answer) (s2 : S)
          → env.chat cand call.messages call.params
              (attempt_timeout settings remaining)
              (env.now s).1
            ≡ (answer, s2)
          → Allowed env call l (elim answer [
            | Answer.reply r ↦
                on_reply env settings call l cand r ((env.now s2).0 ⊖ (env.now s).0) (env.now s2).1
            | Answer.raises e ↦
                on_error env settings call l cand e ((env.now s2).0 ⊖ (env.now s).0) (env.now s2).1
            | Answer.other_exception ↦ done crash s2
          ])
      answer_case (Answer.reply r) s2 asked =
          on_reply-Allowed cand r ((env.now s2).0 ⊖ (env.now s).0) (env.now s2).1 fresh
            (attempt_timeout settings remaining, (env.now s).1, s2, asked)
      answer_case (Answer.raises e) s2 asked =
          on_error-Allowed cand e ((env.now s2).0 ⊖ (env.now s).0) (env.now s2).1 fresh
            (attempt_timeout settings remaining, (env.now s).1, s2, asked)
      answer_case Answer.other_exception s2 asked = crashed refl

  try_candidate-Allowed :
      (cand : CandidateRef) (remaining : W) (s : S)
      → IsFresh call l cand
      → Allowed env call l (try_candidate env settings call l cand remaining s)
  unfolding try_candidate
  try_candidate-Allowed cand remaining s fresh =
      verdict_case (env.try_acquire cand.provider cand.model call.est s).0
    where
      after : S
      after = (env.try_acquire cand.provider cand.model call.est s).1

      verdict_case :
          (verdict : Acquired)
          → Allowed env call l (elim verdict [
            | Acquired.acquired true ↦ call_vendor env settings call l cand remaining after
            | Acquired.acquired false ↦ skip cand "bucket_empty" l after
            | Acquired.key_error ↦ done crash after
          ])
      verdict_case (Acquired.acquired true) = call_vendor-Allowed cand remaining after fresh
      verdict_case (Acquired.acquired false) =
          skip-Allowed cand "bucket_empty" after fresh (inl refl)
      verdict_case Acquired.key_error = crashed refl

  -- Every round of the loop is allowed: it goes on with one more candidate of the tier, fresh until
  -- then, or it ends in one of five ways.
  pub turn-Allowed : (s : S) → Allowed env call l (turn env settings call l s)
  unfolding turn
  turn-Allowed s = elim (Bool-cases (d.lt (call.deadline ⊖ (env.now s).0) (d.literal 15 1))) [
    | inl e ↦ rw e (late e l.attempts refl)
    | inr e ↦
        rw e (picked_case (pick env.random (env.engine s1) call.candidates l.exclude s1).0 refl)
  ]
    where
      s1 : S
      s1 = (env.now s).1

      remaining : W
      remaining = call.deadline ⊖ (env.now s).0

      s2 : S
      s2 = (pick env.random (env.engine s1) call.candidates l.exclude s1).1

      late :
          IsLate env call s
          → (attempts : List (AttemptRecord W)) → l.attempts ≡ attempts
          → Allowed env call l (elim attempts [
            | [] ↦ done (error (exhausted l)) s1
            | _ ∷ _ ↦ done (error (out_of_budget l)) s1
          ])
      late h [] e = used_up s (inl (e, h)) refl
      late h (a ∷ rest) e = too_late s h (λ none_made. cc) refl

      picked_case :
          (picked : Option CandidateRef)
          → (pick env.random (env.engine s1) call.candidates l.exclude s1).0 ≡ picked
          → Allowed env call l (elim picked [
            | none ↦ done (error (exhausted l)) s2
            | some cand ↦ try_candidate env settings call l cand remaining s2
          ])
      picked_case none e =
          used_up s
            (inr ((pick-none_iff env.random (env.engine s1) call.candidates l.exclude s1).0 e)) refl
      picked_case (some cand) e =
          let (open_, in_tier) =
            pick-IsOpen env.random (env.engine s1) call.candidates l.exclude s1 cand e in
          try_candidate-Allowed cand remaining s2
            (record { in_tier = in_tier; not_excluded = open_.0 })
