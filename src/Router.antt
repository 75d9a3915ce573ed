-- ===== src/Router.antt =====
-- gateway/router.py: the failover loop. `S` is the state of everything that the router talks to,
-- and `Env` the operations: the clock, the random generator, the token bucket, the vendors, the
-- observer, the price table. The weight engine is read from the state, since the refresh task may
-- replace its cache while the router waits. A `crash` is an exception that the router does not
-- catch.
pub mod Route
pub mod Advance
pub mod Termination
pub mod Invariant
pub mod Report
pub mod Timeout
pub mod Sample
mod Tests
use Prim.Native.Char.{Char}
use Prim.Native.String.{◌++◌ as str_append}
use librouter.Prelude.{
  ℕ, zero, suc, String, Bool, true, false, Option, none, some, List, [], ◌∷◌, ◌++◌, length,
  string_eq, if◌then◌else◌,
}
use librouter.Prelude.Dict.{Dict, get}
use librouter.Prelude.Int.{pos_part}
use librouter.Prelude.Float.{Float, ◌⊕◌, ◌⊖◌, ◌⊗◌, of_nat, fmin, fmax}
use librouter.Models.{
  AttemptRecord, Caller, CandidateRef, ChatCompletionRequest, ChatCompletionResponse, ChatParams,
  ChatResult, Choice, Config, ErrorBody, Message, Role, TierEntry, Usage,
}
use librouter.Models.Request.{prompt_chars}
use librouter.Errors.{ErrorClass, ProviderError, caller_error_for, status_for}
use librouter.Ratelimit.{estimate_tokens}
use librouter.Weights.{WeightEngine, pick}

pub data RouterErrorKind : Type 0 where
  invalid_request auth upstream_unavailable deadline_exceeded : RouterErrorKind

abbrev pub Tried : Type 0
Tried = List (CandidateRef × String)

pub record RouterError : Type 0 where
  pub kind : RouterErrorKind
  pub body : ErrorBody
  pub tried : Tried

pub data Outcome (W : Type 0) : Type 0 where
  result : ChatCompletionResponse → List (AttemptRecord W) → Outcome W
  error : RouterError → Outcome W
  crash : Outcome W

-- What `vendor.chat` does: it returns, raises a `ProviderError`, or raises something else.
pub data Answer : Type 0 where
  reply : ChatResult → Answer
  raises : ProviderError → Answer
  other_exception : Answer

-- What `bucket.try_acquire` does; `key_error` is an exception, of a missing limit or of Redis.
pub data Acquired : Type 0 where
  acquired : Bool → Acquired
  key_error : Acquired

pub record Env (W S : Type 0) : Type 0 where
  pub now : S → W × S
  pub random : S → W × S
  pub uuid4 : S → String × S
  pub engine : S → WeightEngine W
  pub try_acquire : String → String → ℕ → S → Acquired × S
  pub has_vendor : String → Bool
  pub chat : CandidateRef → List Message → ChatParams W → W → S → Answer × S
  -- The two calls of the observer; `none` is an exception of Redis.
  pub record_failure : CandidateRef → String → S → Option S
  pub record_success : CandidateRef → W → S → Option S
  pub cost_usd : String → String → ℕ → ℕ → W
  -- The builtin `repr` of a string.
  pub repr : String → String

pub record Settings (W : Type 0) : Type 0 where
  pub total_budget_s : W
  pub per_attempt_max_s : W
  pub deadline_buffer_s : W

-- `type(e).__name__`
abbrev pub class_name : ErrorClass → String
class_name ErrorClass.rate_limited = "RateLimited"
class_name ErrorClass.transient_5xx = "Transient5xx"
class_name ErrorClass.timeout = "Timeout"
class_name ErrorClass.bad_request = "BadRequest"
class_name ErrorClass.auth_error = "AuthError"
class_name ErrorClass.content_filtered = "ContentFiltered"
class_name ErrorClass.provider_error = "ProviderError"

-- `isinstance(e, (BadRequest, AuthError, ContentFiltered))`
unfoldable pub is_final : ErrorClass → Bool
is_final ErrorClass.bad_request = true
is_final ErrorClass.auth_error = true
is_final ErrorClass.content_filtered = true
is_final _ = false

-- `s[:n]`
unfoldable pub first_chars : ℕ → String → String
first_chars zero s = String.[]
first_chars (suc n) String.[] = String.[]
first_chars (suc n) (String.◌∷◌ c s) = String.◌∷◌ c (first_chars n s)

unfoldable pub client_trace_id : Option (Dict String String) → Option String
unfolding first_chars
client_trace_id none = none
client_trace_id (some metadata) = elim (get metadata "request_id") [
  | none ↦ none
  | some raw ↦ some (first_chars 128 raw)
]

abbrev error_body : String → String → Bool → ErrorBody
error_body type message retryable = record { type = type; message = message; retryable = retryable }

-- The three lists that the loop of `route` carries along; `exclude` is a set.
pub record Loop (W : Type 0) : Type 0 where
  pub exclude : List CandidateRef
  pub tried : Tried
  pub attempts : List (AttemptRecord W)

-- One round of the loop ends it, or goes on.
pub data Turn (W S : Type 0) : Type 0 where
  done : Outcome W → S → Turn W S
  again : Loop W → S → Turn W S

-- What is fixed before the loop.
pub record Call (W : Type 0) : Type 0 where
  pub request_id : String
  pub caller : String
  pub tier : String
  pub trace_id : Option String
  pub messages : List Message
  pub params : ChatParams W
  pub est : ℕ
  pub deadline : W
  pub candidates : List (TierEntry W)

abbrev pub skip : {W S : Type 0} → CandidateRef → String → Loop W → S → Turn W S
skip cand status l s =
    again
      (record l { tried = l.tried ++ ((cand, status) ∷ []); exclude = l.exclude ++ (cand ∷ []) }) s
