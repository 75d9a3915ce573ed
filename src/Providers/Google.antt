-- ===== src/Providers/Google.antt =====
-- gateway/providers/google.py. `upper` is the builtin `str.upper`.
use Prim.Native.String.{◌++◌ as str_append}
use librouter.Prelude.{
  ℕ, String, Bool, true, false, ◌&&◌, ◌||◌, not, Option, none, some, List, [], ◌∷◌, ◌++◌, leb,
  nat_eq, string_eq, ◌==◌, if◌then◌else◌,
}
use librouter.Models.{ChatParams, Message, Role}
use librouter.Errors.{ErrorClass}
use librouter.Router.{Answer}
use librouter.Auth.{drop_prefix}
use librouter.Providers.Sdk.{Reply, replied, failed, translated, count_or_zero, text_or_empty, join}

pub data ContentRole : Type 0 where
  user_content model_content : ContentRole

-- An entry of `contents`, with one part of text.
pub record Content : Type 0 where
  pub role : ContentRole
  pub text : String

abbrev pub role_of : Role → ContentRole
role_of Role.user = user_content
role_of _ = model_content

unfoldable pub convert_parts : List Message → List String × List Content
convert_parts [] = ([], [])
convert_parts (m ∷ ms) =
    let (system_parts, contents) = convert_parts ms in
    elim m.role [
      | Role.system ↦ (m.content ∷ system_parts, contents)
      | _ ↦ (system_parts, record { role = role_of m.role; text = m.content } ∷ contents)
    ]

unfoldable pub convert_messages : List Message → Option String × List Content
unfolding convert_parts join
convert_messages messages =
    let (system_parts, contents) = convert_parts messages in
    (elim system_parts [ [] ↦ none | s ∷ parts ↦ some (join "\n\n" (s ∷ parts)) ], contents)

pub record Request (W : Type 0) : Type 0 where
  pub model : String
  pub contents : List Content
  pub max_output_tokens : ℕ
  pub temperature : Option W
  pub top_p : Option W
  pub system_instruction : Option String
  pub wait_for : W

-- What the call may raise; an `APIError` has its status under one of two attributes.
pub data GoogleError : Type 0 where
  asyncio_timeout : GoogleError
  api_error : Option ℕ → Option ℕ → GoogleError
  unknown : GoogleError

pub record Candidate : Type 0 where
  pub finish_reason : Option String
  pub parts : List (Option String)

pub record ContentReply : Type 0 where
  pub text : Option String
  pub candidates : List Candidate
  pub prompt_token_count : Option ℕ
  pub candidates_token_count : Option ℕ
  pub response_id : Option String

-- `getattr(e, "code", None) or getattr(e, "status_code", None) or 0`
abbrev pub status_of : Option ℕ → Option ℕ → ℕ
status_of code status_code =
    if count_or_zero code == 0 then count_or_zero status_code else count_or_zero code

abbrev pub class_of_status : ℕ → ErrorClass
class_of_status status =
    if status == 429
    then ErrorClass.rate_limited
    else if status == 401 || status == 403
    then ErrorClass.auth_error
    else if leb 500 status
    then ErrorClass.transient_5xx
    else ErrorClass.bad_request

unfoldable pub class_of : GoogleError → ErrorClass
class_of GoogleError.asyncio_timeout = ErrorClass.timeout
class_of (GoogleError.api_error code status_code) = class_of_status (status_of code status_code)
class_of GoogleError.unknown = ErrorClass.transient_5xx

-- The texts of the parts that have one.
unfoldable pub part_texts : List (Option String) → List String
part_texts [] = []
part_texts (t ∷ ts) =
    let rest = part_texts ts in if text_or_empty t == "" then rest else text_or_empty t ∷ rest

unfoldable pub all_texts : List Candidate → List String
unfolding part_texts
all_texts [] = []
all_texts (c ∷ cs) = part_texts c.parts ++ all_texts cs

-- `resp.text`, or the texts of all candidates.
unfoldable pub reply_text : ContentReply → String
unfolding all_texts join
reply_text resp = elim resp.text [ none ↦ join "" (all_texts resp.candidates) | some t ↦ t ]

-- `needle in s`
unfoldable pub has_infix : String → String → Bool
unfolding drop_prefix
has_infix needle String.[] = needle == ""
has_infix needle (String.◌∷◌ c s) =
    let later = has_infix needle s in
    elim (drop_prefix needle (String.◌∷◌ c s)) [ some _ ↦ true | none ↦ later ]

module _ (upper : String → String) where
  -- The finish reason of the first candidate.
  abbrev pub first_finish : List Candidate → Option String
  first_finish [] = none
  first_finish (c ∷ _) = c.finish_reason

  unfoldable pub is_blocked : Option String → Bool
  unfolding has_infix
  is_blocked none = false
  is_blocked (some reason) = not (reason == "") && has_infix "SAFETY" (upper reason)

  unfoldable pub read_reply : ContentReply → Answer
  unfolding is_blocked reply_text
  read_reply resp =
      let finish_reason = first_finish resp.candidates in
      if is_blocked finish_reason
      then Answer.raises (record {
        class = ErrorClass.content_filtered;
        message = str_append "google safety: " (text_or_empty finish_reason);
        vendor_detail = none;
      })
      else Answer.reply (record {
        text = reply_text resp;
        finish_reason = finish_reason;
        input_tokens = count_or_zero resp.prompt_token_count;
        output_tokens = count_or_zero resp.candidates_token_count;
        vendor_request_id = resp.response_id;
      })

  unfoldable pub answer_of : Reply GoogleError ContentReply → Answer
  unfolding class_of read_reply
  answer_of (replied resp) = read_reply resp
  answer_of (failed e) = Answer.raises (translated (class_of e.error) e)

  module _ {W S : Type 0} (generate : Request W → S → Reply GoogleError ContentReply × S) where
    unfoldable pub request : String → List Message → ChatParams W → W → Request W
    unfolding convert_messages
    request model messages params timeout_s =
        let (system, contents) = convert_messages messages in
        record {
          model = model;
          contents = contents;
          max_output_tokens = params.max_tokens;
          temperature = params.temperature;
          top_p = params.top_p;
          system_instruction = system;
          wait_for = timeout_s;
        }

    unfoldable pub chat : String → List Message → ChatParams W → W → S → Answer × S
    unfolding answer_of request
    chat model messages params timeout_s s =
        let (reply, s') = generate (request model messages params timeout_s) s in
        (answer_of reply, s')
