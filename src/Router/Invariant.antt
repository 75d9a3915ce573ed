-- ===== src/Router/Invariant.antt =====
-- The invariant of the lists that the failover loop of gateway/router.py carries along.
use mathlib.Core.List.{map-append, append-nil}
use mathlib.Core.Path.{ap₂}
use librouter.Prelude.{
  ℕ, suc, ◌+◌, ◌≡◌, refl, String, Bool, true, false, ◌||◌, List, [], ◌∷◌, ◌++◌, map, inl, inr,
  arith, length, if◌then◌else◌, contains, All, All-append, Distinct, Distinct-snoc, ◌==◌, string_eq,
  ap, sym, ◌∙◌,
}
use librouter.Models.{AttemptRecord, CandidateRef, candidate_eq}
use librouter.Errors.{ErrorClass, status_for}
use librouter.Weights.Pick.{refs}
use librouter.Router.{Tried, Loop, Call, is_final}
use librouter.Router.Advance.{IsAttempt, Noted, skipped, failed, Advances}
use librouter.Router.Termination.{Run, here, next}
use librouter.Router.Route.{start}

-- The two statuses of a candidate that was passed over without a call.
abbrev pub is_skip : String → Bool
is_skip status = status == "bucket_empty" || status == "vendor_missing"

-- The tried candidates that were called.
abbrev pub called : Tried → Tried
called [] = []
called ((c, status) ∷ l) = if is_skip status then called l else (c, status) ∷ called l

module _ {W : Type 0} where
  -- The candidate and the status of a record, as `tried` holds them.
  abbrev pub summary : AttemptRecord W → CandidateRef × String
  summary a = (record { provider = a.provider; model = a.model }, a.status)

  -- Each record has its position as its `attempt_idx`.
  abbrev pub IsNumbered : ℕ → List (AttemptRecord W) → Type 0
  IsNumbered i [] = Unit
  IsNumbered i (a ∷ as_) = (a.attempt_idx ≡ i) × IsNumbered (suc i) as_

  -- A status of an error after which the router goes on.
  abbrev pub IsRetried : AttemptRecord W → Type 0
  IsRetried a = (e : ErrorClass) × (is_final e ≡ false) × (a.status ≡ status_for e)

  pub IsNumbered-snoc :
      (i j : ℕ) (l : List (AttemptRecord W)) (a : AttemptRecord W)
      → IsNumbered i l
      → a.attempt_idx ≡ j
      → j ≡ i + length l
      → IsNumbered i (l ++ (a ∷ []))
  IsNumbered-snoc i j [] a h e k = (omega arith, tt)
  IsNumbered-snoc i j (b ∷ l) a h e k = (h.0, IsNumbered-snoc (suc i) j l a h.1 e (omega arith))

pub called-append : (l m : Tried) → called (l ++ m) ≡ called l ++ called m
called-append [] m = refl
called-append ((c, status) ∷ l) m = ground (arith, called-append l m)

-- No error status is one of a candidate that was passed over.
pub is_skip-status_for : (e : ErrorClass) → is_skip (status_for e) ≡ false
unfolding status_for
is_skip-status_for ErrorClass.rate_limited = refl
is_skip-status_for e = refl

module _ {W : Type 0} (call : Call W) where
  pub record IsConsistent (l : Loop W) : Type 0 where
    pub same : l.exclude ≡ map (λ (e : CandidateRef × String). e.0) l.tried
    pub distinct : Distinct l.exclude
    pub in_tier : All (λ c. contains (refs call.candidates) c ≡ true) l.exclude
    pub recorded : map summary l.attempts ≡ called l.tried
    pub numbered : IsNumbered 0 l.attempts
    pub retried : All IsRetried l.attempts

  start-IsConsistent : IsConsistent start
  start-IsConsistent = record {
    same = refl;
    distinct = tt;
    in_tier = tt;
    recorded = refl;
    numbered = tt;
    retried = tt;
  }

  pub summary-attempt :
      (cand : CandidateRef) (status : String) (idx : ℕ) (a : AttemptRecord W)
      → IsAttempt call cand status idx a
      → summary a ≡ (cand, status)
  summary-attempt cand status idx a rec = cc (rec.provider, rec.model, rec.status_eq)

  recorded-Noted :
      (l l' : Loop W) (cand : CandidateRef) (status : String)
      → IsConsistent l
      → Noted call l l' cand status
      → map summary l'.attempts ≡ called l.tried ++ called ((cand, status) ∷ [])
  recorded-Noted l l' cand status h (skipped (inl w) e) =
      rw (e, w) (h.recorded ∙ sym (append-nil (called l.tried)))
  recorded-Noted l l' cand status h (skipped (inr w) e) =
      rw (e, w) (h.recorded ∙ sym (append-nil (called l.tried)))
  recorded-Noted l l' cand status h (failed e a more s_eq a_eq rec) =
      let call_made : is_skip status ≡ false = rw s_eq (is_skip-status_for e) in
      rw (a_eq, call_made)
        (map-append summary l.attempts (a ∷ [])
          ∙ ap₂ ◌++◌ h.recorded
              (ap (λ x. x ∷ []) (summary-attempt cand status (length l.attempts) a rec)))

  IsNumbered-Noted :
      (l l' : Loop W) (cand : CandidateRef) (status : String)
      → IsConsistent l
      → Noted call l l' cand status
      → IsNumbered 0 l'.attempts × All IsRetried l'.attempts
  IsNumbered-Noted l l' cand status h (skipped why e) = rw e (h.numbered, h.retried)
  IsNumbered-Noted l l' cand status h (failed e a more s_eq a_eq rec) = rw a_eq (
    IsNumbered-snoc 0 (length l.attempts) l.attempts a h.numbered rec.attempt_idx (omega arith),
    All-append IsRetried l.attempts (a ∷ []) h.retried ((e, more, rec.status_eq ∙ s_eq), tt),
  )

  Advances-IsConsistent : (l l' : Loop W) → Advances call l l' → IsConsistent l → IsConsistent l'
  Advances-IsConsistent l l' step h =
      let (numbers, retries) = IsNumbered-Noted l l' step.cand step.status h step.noted in
      let new : CandidateRef × String = (step.cand, step.status) in
      record {
        same =
            rw (step.excluded, step.tried)
              (ap (λ x. x ++ (step.cand ∷ [])) h.same
                ∙ sym (map-append (λ (e : CandidateRef × String). e.0) l.tried (new ∷ [])));
        distinct =
            rw step.excluded (Distinct-snoc l.exclude step.cand h.distinct step.fresh.not_excluded);
        in_tier = rw step.excluded (
            All-append (λ c. contains (refs call.candidates) c ≡ true) l.exclude (step.cand ∷ [])
              h.in_tier (step.fresh.in_tier, tt));
        recorded = rw step.tried (
            recorded-Noted l l' step.cand step.status h step.noted
            ∙ sym (called-append l.tried (new ∷ [])));
        numbered = numbers;
        retried = retries;
      }

  -- The lists stay consistent as long as the loop runs.
  Run-IsConsistent : {l m : Loop W} → Run call l m → IsConsistent l → IsConsistent m
  Run-IsConsistent here h = h
  Run-IsConsistent (next a r) h = Run-IsConsistent r (Advances-IsConsistent _ _ a h)

  pub from_start : {m : Loop W} → Run call start m → IsConsistent m
  from_start r = Run-IsConsistent r start-IsConsistent
