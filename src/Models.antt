-- ===== src/Models.antt =====
-- gateway/models.py: the configuration, the wire shapes and the internal records. `W` is the type
-- of floats. The bounds that pydantic checks on a request stand in Models/Request.antt.
pub mod Request
pub mod Valid
use librouter.Prelude.{
  ℕ, String, ◌≡◌, refl, ◌↔◌, Bool, true, false, ◌&&◌, Option, List, arith, Eq, ◌==◌, string_eq,
}
use librouter.Prelude.Dict.{Dict}

pub record RateLimitEntry : Type 0 where
  pub rpm : ℕ
  pub tpm : ℕ

pub record TierEntry (W : Type 0) : Type 0 where
  pub provider : String
  pub model : String
  pub weight : W
  pub rate_limits : RateLimitEntry

pub record TierConfig (W : Type 0) : Type 0 where
  pub candidates : List (TierEntry W)

pub record CallerEntry : Type 0 where
  pub name : String
  pub key_hash : String
  pub daily_token_cap : Option ℕ
  pub enabled : Bool

pub record RoutingConfig (W : Type 0) : Type 0 where
  pub refresh_interval_ms : ℕ
  pub health_window_s : ℕ
  pub target_latency_s : W
  pub min_weight_floor : W
  pub rng_seed_env : Option String

pub data ProviderMode : Type 0 where
  mock real : ProviderMode

pub data SecretsMode : Type 0 where
  mock env : SecretsMode

pub record Config (W : Type 0) : Type 0 where
  pub provider_mode : ProviderMode
  pub secrets_mode : SecretsMode
  pub tiers : Dict String (TierConfig W)
  pub routing : RoutingConfig W
  pub callers : List CallerEntry

pub data Role : Type 0 where
  system user assistant tool : Role

pub record Message : Type 0 where
  pub role : Role
  pub content : String

pub record Usage : Type 0 where
  pub prompt_tokens : ℕ
  pub completion_tokens : ℕ
  pub total_tokens : ℕ

pub record Choice : Type 0 where
  pub index : ℕ
  pub message : Message
  pub finish_reason : Option String

pub record ChatCompletionRequest (W : Type 0) : Type 0 where
  pub model : String
  pub messages : List Message
  pub max_tokens : ℕ
  pub temperature : Option W
  pub top_p : Option W
  pub stream : Bool
  pub metadata : Option (Dict String String)

pub record ChatCompletionResponse : Type 0 where
  pub id : String
  pub model : String
  pub choices : List Choice
  pub usage : Usage

pub record ErrorBody : Type 0 where
  pub type : String
  pub message : String
  pub retryable : Bool

pub record ChatParams (W : Type 0) : Type 0 where
  pub max_tokens : ℕ
  pub temperature : Option W
  pub top_p : Option W

pub record ChatResult : Type 0 where
  pub text : String
  pub finish_reason : Option String
  pub input_tokens : ℕ
  pub output_tokens : ℕ
  pub vendor_request_id : Option String

pub record CandidateRef : Type 0 where
  pub provider : String
  pub model : String

pub record AttemptRecord (W : Type 0) : Type 0 where
  pub request_id : String
  pub caller : String
  pub tier : String
  pub provider : String
  pub model : String
  pub attempt_idx : ℕ
  pub input_tokens : ℕ
  pub output_tokens : ℕ
  pub cost_usd : W
  pub latency_ms : ℕ
  pub status : String
  pub vendor_req_id : Option String
  pub client_trace_id : Option String

pub record Caller : Type 0 where
  pub name : String
  pub daily_token_cap : Option ℕ
  pub enabled : Bool

-- Frozen pydantic models compare field by field.
abbrev candidate_beq : CandidateRef → CandidateRef → Bool
candidate_beq a b = a.provider == b.provider && a.model == b.model

pub candidate_beq_iff : (a b : CandidateRef) → (candidate_beq a b ≡ true) ↔ (a ≡ b)
candidate_beq_iff a b =
    ground (arith, string_eq.beq_iff a.provider b.provider, string_eq.beq_iff a.model b.model)

instance abbrev pub candidate_eq : Eq CandidateRef
candidate_eq = record { beq = candidate_beq; beq_iff = candidate_beq_iff }

-- `CandidateRef(provider=t.provider, model=t.model)`
abbrev pub ref_of : {W : Type 0} → TierEntry W → CandidateRef
ref_of t = record { provider = t.provider; model = t.model }
