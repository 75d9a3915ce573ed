-- ===== src/Providers/Tests.antt =====
-- The adapters, the registry and the scripted vendors on concrete values.
use librouter.Prelude.{
  ◌≡◌, refl, ℕ, String, true, Option, none, some, List, [], ◌∷◌, map, arith, nat_eq, ◌==◌,
  string_eq, leb, if◌then◌else◌,
}
use librouter.Prelude.Dict.{Dict, get}
use librouter.Prelude.Float.{Milli, milli_float}
use librouter.Models.{Config, Message, ProviderMode, SecretsMode, Role}
use librouter.Errors.{ErrorClass}
use librouter.Secrets.{SecretsManager, has_secret}
use librouter.Providers.Sdk.{SdkError}
use librouter.Providers.Openai
use librouter.Providers.Anthropic
use librouter.Providers.Anthropic.{split_system}
use librouter.Providers.Google
use librouter.Providers.Google.{api_error, convert_messages, has_infix}
use librouter.Providers.Status.{IsDocumented, class_of-Agree}
use librouter.Providers.Conversation.{content_of, convert_messages-split_system}
use librouter.Providers.Registry.{build_vendors, IsMade, build_vendors-IsMade}

-- The exceptions as the SDKs document them.
abbrev error_for : ℕ → SdkError
error_for status =
    if status == 400
    then SdkError.bad_request
    else if status == 401
    then SdkError.authentication
    else if status == 429
    then SdkError.rate_limit
    else if leb 500 status
    then SdkError.internal_server
    else SdkError.api_status status

error_for-IsDocumented : IsDocumented error_for
error_for-IsDocumented = record {
  for_400 = refl;
  for_401 = refl;
  for_429 = refl;
  for_5xx = ground arith;
  for_other = ground arith;
}

class_of-Agree_example :
    (Anthropic.class_of (error_for 403) ≡ Openai.class_of (error_for 403))
    × (Openai.class_of (error_for 403) ≡ some ErrorClass.bad_request)
    × (Google.class_of (api_error (some 403) none) ≡ ErrorClass.auth_error)
class_of-Agree_example = class_of-Agree error_for error_for-IsDocumented 403

abbrev say : Role → String → Message
say role content = record { role = role; content = content }

abbrev conversation : List Message
conversation = say Role.system "be brief" ∷ (say Role.user "hi" ∷ (say Role.system "be kind" ∷ []))

system_text : (split_system conversation).0 ≡ some "be brief\n\nbe kind"
unfolding split_system
system_text = refl

convert_messages-split_system_example :
    convert_messages conversation
    ≡ ((split_system conversation).0, map content_of ((split_system conversation).1))
convert_messages-split_system_example = convert_messages-split_system conversation

-- A process with two keys, one of them empty.
abbrev environ : Dict String String
environ = ("OPENAI_API_KEY", "k") ∷ (("GOOGLE_API_KEY", "") ∷ [])

abbrev real_config : Config Milli
real_config = record {
  provider_mode = ProviderMode.real;
  secrets_mode = SecretsMode.env;
  tiers = [];
  routing = record {
    refresh_interval_ms = 500;
    health_window_s = 30;
    target_latency_s = 2000;
    min_weight_floor = 10;
    rng_seed_env = none;
  };
  callers = [];
}

abbrev build : String → SecretsManager → Option String
build name sm = some name

built :
    build_vendors environ (λ name. name) build real_config SecretsManager.env_manager
    ≡ some (("openai", "openai") ∷ [])
unfolding build_vendors has_secret get
built = refl

build_vendors-IsMade_example :
    IsMade environ
      (λ name. name)
      build
      SecretsManager.env_manager
      (build_vendors environ (λ name. name) build real_config SecretsManager.env_manager)
build_vendors-IsMade_example =
    build_vendors-IsMade environ (λ name. name) build real_config SecretsManager.env_manager refl

safety : has_infix "SAFETY" "FINISHREASON.SAFETY" ≡ true
unfolding has_infix
safety = refl
