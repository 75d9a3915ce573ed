-- ===== src/Errors.antt =====
-- gateway/errors.py: the provider error classes and the mapping to the response of the caller.
-- `ErrorClass` is `type(exc)`: the six subclasses and the base class itself.
pub mod Visible
mod Tests
use librouter.Prelude.{ℕ, String, Bool, true, false, Option, List, [], ◌∷◌}
use librouter.Models.{ErrorBody}

pub data ProviderErrorKind : Type 0 where
  rate_limited transient_5xx timeout bad_request auth content_filtered : ProviderErrorKind

pub data ErrorClass : Type 0 where
  rate_limited transient_5xx timeout bad_request auth_error content_filtered : ErrorClass
  provider_error : ErrorClass

pub record ProviderError : Type 0 where
  pub class : ErrorClass
  pub message : String
  pub vendor_detail : Option String

-- The class attribute `kind`.
unfoldable pub kind : ErrorClass → ProviderErrorKind
kind ErrorClass.rate_limited = ProviderErrorKind.rate_limited
kind ErrorClass.transient_5xx = ProviderErrorKind.transient_5xx
kind ErrorClass.timeout = ProviderErrorKind.timeout
kind ErrorClass.bad_request = ProviderErrorKind.bad_request
kind ErrorClass.auth_error = ProviderErrorKind.auth
kind ErrorClass.content_filtered = ProviderErrorKind.content_filtered
kind ErrorClass.provider_error = ProviderErrorKind.transient_5xx

unfoldable pub retryable_error_types : List ErrorClass
retryable_error_types = ErrorClass.rate_limited ∷ ErrorClass.transient_5xx ∷ ErrorClass.timeout ∷ []

unfoldable pub non_retryable_error_types : List ErrorClass
non_retryable_error_types =
    ErrorClass.bad_request ∷ ErrorClass.auth_error ∷ ErrorClass.content_filtered ∷ []

abbrev body : String → String → ErrorBody
body type message = record { type = type; message = message; retryable = false }

-- HTTP status and body.
unfoldable pub caller_error_for : ProviderError → ℕ × ErrorBody
caller_error_for exc = elim (exc.class) [
  | ErrorClass.bad_request ↦ (400, body "invalid_request" "request rejected by upstream provider")
  | ErrorClass.auth_error ↦ (401, body "auth" "authentication failed")
  | ErrorClass.content_filtered ↦
      (400, body "content_filtered" "content filtered by upstream provider")
  | _ ↦ (500, body "internal" "upstream error")
]

-- The entries of `_STATUS_FOR_ERROR_KIND`, with the default of its lookup in the router.
unfoldable pub status_for : ErrorClass → String
status_for ErrorClass.rate_limited = "rate_limited"
status_for ErrorClass.transient_5xx = "transient_5xx"
status_for ErrorClass.timeout = "timeout"
status_for ErrorClass.bad_request = "bad_request"
status_for ErrorClass.auth_error = "auth"
status_for ErrorClass.content_filtered = "content_filtered"
status_for ErrorClass.provider_error = "transient_5xx"
