-- ===== src/Errors/Tests.antt =====
-- Instances of the theorems on gateway/errors.py.
use librouter.Prelude.{◌≡◌, refl, ◌≢◌, ◌↔◌, ◌⊎◌, true, false, none, some, contains}
use librouter.Errors.{
  ErrorClass, ProviderError, caller_error_for, non_retryable_error_types, retryable_error_types,
}
use librouter.Errors.Visible.{class_eq, caller_error_for_opaque, caller_error_for_partition}

abbrev leaky : ProviderError
leaky = record {
  class = ErrorClass.auth_error;
  message = "AuthenticationError";
  vendor_detail = some "key sk-1 is bad";
}

abbrev quiet : ProviderError
quiet = record { class = ErrorClass.auth_error; message = ""; vendor_detail = none }

caller_error_for_runs : (caller_error_for leaky).0 ≡ 401
unfolding caller_error_for
caller_error_for_runs = refl

caller_error_for_opaque_example : caller_error_for leaky ≡ caller_error_for quiet
caller_error_for_opaque_example = caller_error_for_opaque leaky quiet refl

caller_error_for_partition_example :
    (((caller_error_for leaky).0 ≢ 500)
      ↔ (contains non_retryable_error_types ErrorClass.auth_error ≡ true))
    × ((contains retryable_error_types ErrorClass.auth_error ≡ false)
        ⊎ ((caller_error_for leaky).0 ≡ 500))
    × ((caller_error_for leaky).1.retryable ≡ false)
caller_error_for_partition_example = caller_error_for_partition leaky
