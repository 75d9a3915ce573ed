-- ===== src/Providers/Anthropic.antt =====
-- gateway/providers/anthropic.py
use librouter.Prelude.{
  ℕ, String, Bool, true, false, ◌&&◌, Option, none, some, List, [], ◌∷◌, leb, ltb, nat_eq,
  string_eq, ◌==◌, if◌then◌else◌,
}
use librouter.Prelude.Float.{Float, ◌⊕◌}
use librouter.Models.{ChatParams, Message, Role}
use librouter.Errors.{ErrorClass}
use librouter.Router.{Answer}
use librouter.Providers.Sdk.{
  SdkError, Reply, replied, failed, translated, count_or_zero, text_or_empty, join,
}

abbrev pub is_system : Role → Bool
is_system Role.system = true
is_system _ = false

-- The loop of `_split_system`: the parts of the system text, and the other messages.
unfoldable pub split_parts : List Message → List String × List Message
split_parts [] = ([], [])
split_parts (m ∷ ms) =
    let (system_parts, rest) = split_parts ms in
    if is_system m.role then (m.content ∷ system_parts, rest) else (system_parts, m ∷ rest)

unfoldable pub split_system : List Message → Option String × List Message
unfolding split_parts join
split_system messages =
    let (system_parts, rest) = split_parts messages in
    (elim system_parts [ [] ↦ none | s ∷ parts ↦ some (join "\n\n" (s ∷ parts)) ], rest)

pub record Request (W : Type 0) : Type 0 where
  pub model : String
  pub max_tokens : ℕ
  pub messages : List Message
  pub system : Option String
  pub temperature : Option W
  pub top_p : Option W
  pub timeout : W
  pub wait_for : W

-- A content block, with the attributes that it may lack.
pub record Block : Type 0 where
  pub type : Option String
  pub text : Option String

pub record MessageUsage : Type 0 where
  pub input_tokens : Option ℕ
  pub output_tokens : Option ℕ

pub record MessageReply : Type 0 where
  pub content : List Block
  pub stop_reason : Option String
  pub usage : MessageUsage
  pub id : Option String

unfoldable pub class_of : SdkError → Option ErrorClass
class_of SdkError.asyncio_timeout = some ErrorClass.timeout
class_of SdkError.api_timeout = some ErrorClass.timeout
class_of SdkError.rate_limit = some ErrorClass.rate_limited
class_of SdkError.authentication = some ErrorClass.auth_error
class_of SdkError.bad_request = some ErrorClass.bad_request
class_of SdkError.internal_server = some ErrorClass.transient_5xx
class_of SdkError.api_connection = some ErrorClass.transient_5xx
class_of (SdkError.api_status status_code) = some (
    if leb 500 status_code && ltb status_code 600
    then ErrorClass.transient_5xx
    else if status_code == 429
    then ErrorClass.rate_limited
    else ErrorClass.bad_request)
class_of SdkError.unknown = none

-- The loop over the content blocks.
unfoldable pub text_parts : List Block → List String
text_parts [] = []
text_parts (b ∷ bs) =
    let rest = text_parts bs in
    if text_or_empty b.type == "text" then text_or_empty b.text ∷ rest else rest

unfoldable pub read_reply : MessageReply → Answer
unfolding text_parts join
read_reply resp =
    if text_or_empty resp.stop_reason == "refusal"
    then Answer.raises (record {
      class = ErrorClass.content_filtered;
      message = "anthropic refusal";
      vendor_detail = none;
    })
    else Answer.reply (record {
      text = join "" (text_parts resp.content);
      finish_reason = resp.stop_reason;
      input_tokens = count_or_zero resp.usage.input_tokens;
      output_tokens = count_or_zero resp.usage.output_tokens;
      vendor_request_id = resp.id;
    })

unfoldable pub answer_of : Reply SdkError MessageReply → Answer
unfolding class_of read_reply
answer_of (replied resp) = read_reply resp
answer_of (failed e) = elim (class_of e.error) [
  | none ↦ Answer.other_exception
  | some class ↦ Answer.raises (translated class e)
]

module _ {W S : Type 0} ⦃d : Float W⦄
    (create : Request W → S → Reply SdkError MessageReply × S) where
  unfoldable pub request : String → List Message → ChatParams W → W → Request W
  unfolding split_system
  request model messages params timeout_s =
      let (system, conv) = split_system messages in
      record {
        model = model;
        max_tokens = params.max_tokens;
        messages = conv;
        system = system;
        temperature = params.temperature;
        top_p = params.top_p;
        timeout = timeout_s;
        wait_for = timeout_s ⊕ d.literal 5 1;
      }

  unfoldable pub chat : String → List Message → ChatParams W → W → S → Answer × S
  unfolding answer_of request
  chat model messages params timeout_s s =
      let (reply, s') = create (request model messages params timeout_s) s in (answer_of reply, s')
