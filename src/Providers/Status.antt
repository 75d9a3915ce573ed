-- ===== src/Providers/Status.antt =====
-- The three adapters on the HTTP statuses of their vendors.
use librouter.Prelude.{◌≡◌, ◌≢◌, ℕ, ◌≤◌, ◌<◌, none, some, arith, nat_eq, ◌==◌, if◌then◌else◌}
use librouter.Errors.{ErrorClass}
use librouter.Providers.Sdk.{SdkError}
use librouter.Providers.Openai
use librouter.Providers.Anthropic
use librouter.Providers.Google.{GoogleError, api_error}
use librouter.Providers.Google

-- The SDKs of OpenAI and Anthropic document the exception of each status: 400, 401 and 429 have one
-- each, a status of 500 or more has `InternalServerError`, and the others are `APIStatusError`s.
pub record IsDocumented (error_for : ℕ → SdkError) : Type 0 where
  pub for_400 : error_for 400 ≡ SdkError.bad_request
  pub for_401 : error_for 401 ≡ SdkError.authentication
  pub for_429 : error_for 429 ≡ SdkError.rate_limit
  pub for_5xx : (status : ℕ) → 500 ≤ status → error_for status ≡ SdkError.internal_server
  pub for_other :
      (status : ℕ)
      → status ≢ 400
      → status ≢ 401
      → status ≢ 429
      → status < 500
      → error_for status ≡ SdkError.api_status status

-- For every HTTP status of a vendor's error response, with the SDKs of OpenAI and Anthropic as they
-- document their exceptions: these two adapters raise the same class of error, and it is the class
-- that the Google adapter raises, but for 403, a BadRequest here and an AuthError there.
pub class_of-Agree :
    (error_for : ℕ → SdkError)
    → IsDocumented error_for
    → (status : ℕ)
    → (Anthropic.class_of (error_for status) ≡ Openai.class_of (error_for status))
      × (Openai.class_of (error_for status)
          ≡ some (
              if status == 403
              then ErrorClass.bad_request
              else Google.class_of (api_error (some status) none)))
      × (Google.class_of (api_error (some 403) none) ≡ ErrorClass.auth_error)
unfolding Openai.class_of Anthropic.class_of Google.class_of
class_of-Agree error_for doc status =
    ground (arith, doc.for_400, doc.for_401, doc.for_429, doc.for_5xx status, doc.for_other status)
