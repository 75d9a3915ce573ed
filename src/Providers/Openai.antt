-- ===== src/Providers/Openai.antt =====
-- gateway/providers/openai.py
use librouter.Prelude.{
  ℕ, String, ◌&&◌, Option, none, some, List, [], ◌∷◌, leb, ltb, nat_eq, string_eq, ◌==◌,
  if◌then◌else◌,
}
use librouter.Prelude.Float.{Float, ◌⊕◌}
use librouter.Models.{ChatParams, Message}
use librouter.Errors.{ErrorClass}
use librouter.Router.{Answer}
use librouter.Providers.Sdk.{
  SdkError, Reply, replied, failed, translated, count_or_zero, text_or_empty,
}

-- `kwargs`, where an absent float is a key that is not set, and the two timeouts.
pub record Request (W : Type 0) : Type 0 where
  pub model : String
  pub messages : List Message
  pub max_tokens : ℕ
  pub temperature : Option W
  pub top_p : Option W
  pub timeout : W
  pub wait_for : W

pub record CompletionUsage : Type 0 where
  pub prompt_tokens : Option ℕ
  pub completion_tokens : Option ℕ

pub record CompletionChoice : Type 0 where
  pub finish_reason : Option String
  pub content : Option String

pub record Completion : Type 0 where
  pub choices : List CompletionChoice
  pub usage : CompletionUsage
  pub id : Option String

-- The `except` clauses; `none` is an exception that passes.
unfoldable pub class_of : SdkError → Option ErrorClass
class_of SdkError.asyncio_timeout = some ErrorClass.timeout
class_of SdkError.api_timeout = some ErrorClass.timeout
class_of SdkError.rate_limit = some ErrorClass.rate_limited
class_of SdkError.authentication = some ErrorClass.auth_error
class_of SdkError.bad_request = some ErrorClass.bad_request
class_of SdkError.internal_server = some ErrorClass.transient_5xx
class_of SdkError.api_connection = some ErrorClass.transient_5xx
class_of (SdkError.api_status status_code) = some (
    if leb 500 status_code && ltb status_code 600
    then ErrorClass.transient_5xx
    else if status_code == 429
    then ErrorClass.rate_limited
    else ErrorClass.bad_request)
class_of SdkError.unknown = none

-- What follows a reply; without a choice, `resp.choices[0]` raises an IndexError.
unfoldable pub read_completion : Completion → Answer
read_completion resp = elim resp.choices [
  | [] ↦ Answer.other_exception
  | choice ∷ _ ↦
      if text_or_empty choice.finish_reason == "content_filter"
      then Answer.raises (record {
        class = ErrorClass.content_filtered;
        message = "openai content_filter";
        vendor_detail = none;
      })
      else Answer.reply (record {
        text = text_or_empty choice.content;
        finish_reason = choice.finish_reason;
        input_tokens = count_or_zero resp.usage.prompt_tokens;
        output_tokens = count_or_zero resp.usage.completion_tokens;
        vendor_request_id = resp.id;
      })
]

unfoldable pub answer_of : Reply SdkError Completion → Answer
unfolding class_of read_completion
answer_of (replied resp) = read_completion resp
answer_of (failed e) = elim (class_of e.error) [
  | none ↦ Answer.other_exception
  | some class ↦ Answer.raises (translated class e)
]

module _ {W S : Type 0} ⦃d : Float W⦄ (create : Request W → S → Reply SdkError Completion × S) where
  unfoldable pub request : String → List Message → ChatParams W → W → Request W
  request model messages params timeout_s = record {
    model = model;
    messages = messages;
    max_tokens = params.max_tokens;
    temperature = params.temperature;
    top_p = params.top_p;
    timeout = timeout_s;
    wait_for = timeout_s ⊕ d.literal 5 1;
  }

  unfoldable pub chat : String → List Message → ChatParams W → W → S → Answer × S
  unfolding answer_of request
  chat model messages params timeout_s s =
      let (reply, s') = create (request model messages params timeout_s) s in (answer_of reply, s')
