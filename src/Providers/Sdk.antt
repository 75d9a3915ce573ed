-- ===== src/Providers/Sdk.antt =====
-- What the adapters of gateway/providers share: the exceptions of the OpenAI and Anthropic SDKs,
-- and small readings of Python.
use Prim.Native.String.{◌++◌ as str_append}
use librouter.Prelude.{ℕ, String, Option, none, some, List, [], ◌∷◌}
use librouter.Errors.{ErrorClass, ProviderError}

-- The `except` clauses, by the first that an exception fits: `APITimeoutError` is an
-- `APIConnectionError`, and the others with a status are `APIStatusError`s.
pub data SdkError : Type 0 where
  asyncio_timeout api_timeout rate_limit authentication bad_request : SdkError
  internal_server api_connection : SdkError
  api_status : ℕ → SdkError
  -- Anything that no clause names.
  unknown : SdkError

-- `type(e).__name__` and `str(e)`
pub record Failure (E : Type 0) : Type 0 where
  pub error : E
  pub type_name : String
  pub text : String

-- What awaiting a client's call gives.
pub data Reply (E A : Type 0) : Type 0 where
  replied : A → Reply E A
  failed : Failure E → Reply E A

-- `raise C(type(e).__name__, vendor_detail=str(e)) from e`
abbrev pub translated : {E : Type 0} → ErrorClass → Failure E → ProviderError
translated class e = record { class = class; message = e.type_name; vendor_detail = some e.text }

-- `getattr(usage, field, 0) or 0`
abbrev pub count_or_zero : Option ℕ → ℕ
count_or_zero none = 0
count_or_zero (some n) = n

-- `s or ""`
abbrev pub text_or_empty : Option String → String
text_or_empty none = ""
text_or_empty (some s) = s

-- `sep.join(parts)`
unfoldable pub join : String → List String → String
join sep [] = ""
join sep (s ∷ []) = s
join sep (s ∷ (t ∷ parts)) = str_append s (str_append sep (join sep (t ∷ parts)))
