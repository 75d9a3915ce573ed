-- ===== src/Errors/Visible.antt =====
-- What the caller of the gateway can see of a provider error (gateway/errors.py).
use librouter.Prelude.{ℕ, ◌≡◌, ◌≢◌, ◌↔◌, ◌⊎◌, true, false, arith, Eq, ◌==◌, nat_eq, contains}
use librouter.Errors.{
  ErrorClass, ProviderError, caller_error_for, retryable_error_types, non_retryable_error_types,
}

class-discrete : Discrete ErrorClass
class-discrete = hlevel

-- The position of a class, by which classes are compared.
abbrev rank : ErrorClass → ℕ
rank ErrorClass.rate_limited = 0
rank ErrorClass.transient_5xx = 1
rank ErrorClass.timeout = 2
rank ErrorClass.bad_request = 3
rank ErrorClass.auth_error = 4
rank ErrorClass.content_filtered = 5
rank ErrorClass.provider_error = 6

pub rank_iff : (a b : ErrorClass) → ((rank a == rank b) ≡ true) ↔ (a ≡ b)
rank_iff a b = ground arith

instance abbrev pub class_eq : Eq ErrorClass
class_eq = record { beq = λ a b. rank a == rank b; beq_iff = rank_iff }

-- Two errors of one class give the same status and body, whatever their message and vendor detail:
-- no text of a vendor reaches the caller.
pub caller_error_for_opaque :
    (e f : ProviderError) → e.class ≡ f.class → caller_error_for e ≡ caller_error_for f
unfolding caller_error_for
caller_error_for_opaque e f h = rw h

-- The status is 400 or 401 exactly for the classes listed as not retryable and 500 exactly for the
-- others; a class listed as retryable is among the others; and no body promises that a retry helps.
pub caller_error_for_partition :
    (e : ProviderError)
    → (((caller_error_for e).0 ≢ 500) ↔ (contains non_retryable_error_types e.class ≡ true))
      × ((contains retryable_error_types e.class ≡ false) ⊎ ((caller_error_for e).0 ≡ 500))
      × ((caller_error_for e).1.retryable ≡ false)
unfolding caller_error_for retryable_error_types non_retryable_error_types
caller_error_for_partition e = ground arith
