-- ===== src/Providers/Mock.antt =====
-- gateway/providers/mock: the scripted vendors. `sleep` is `asyncio.sleep` on the state of the
-- process, `two_places` the format `.2f`, `hexdigest` the hex SHA-256 digest of a text.
use Prim.Native.String.{◌++◌ as str_append, count}
use librouter.Prelude.{
  ℕ, ◌+◌, ◌/◌, suc, String, Option, none, some, List, [], ◌∷◌, ◌++◌, string_eq, ◌==◌, if◌then◌else◌,
}
use librouter.Prelude.Float.{Float, nought, fmin}
use librouter.Models.{ChatParams, ChatResult, Message}
use librouter.Models.Request.{prompt_chars}
use librouter.Errors.{ErrorClass, ProviderError}
use librouter.Router.{Answer, first_chars}
use librouter.Providers.Sdk.{text_or_empty, join}

pub record ScriptedResponse (W : Type 0) : Type 0 where
  pub result : Option ChatResult
  pub error : Option ProviderError
  pub latency_s : W

pub record MockVendor (W : Type 0) : Type 0 where
  pub name : String
  pub vrid_prefix : String
  pub default_text : String
  pub script : List (ScriptedResponse W)
  pub call_count : ℕ

-- `vendor_request_id` of a result, when it has none.
unfoldable pub with_request_id : String → ChatResult → ChatResult
with_request_id vrid result = elim result.vendor_request_id [
  | none ↦ record result { vendor_request_id = some vrid }
  | some _ ↦ result
]

unfoldable pub contents_of : List Message → List String
contents_of [] = []
contents_of (m ∷ ms) = m.content ∷ contents_of ms

module _ {W : Type 0} ⦃d : Float W⦄ where
  abbrev pub new_vendor : String → String → MockVendor W
  new_vendor name vrid_prefix = record {
    name = name;
    vrid_prefix = vrid_prefix;
    default_text = "ok";
    script = [];
    call_count = 0;
  }

  unfoldable pub openai_mock : MockVendor W
  openai_mock = new_vendor "openai" "vrid-openai-mock"

  unfoldable pub anthropic_mock : MockVendor W
  anthropic_mock = new_vendor "anthropic" "vrid-anthropic-mock"

  unfoldable pub google_mock : MockVendor W
  google_mock = new_vendor "google" "vrid-google-mock"

  -- `queue` and `queue_each`
  unfoldable pub queue : List (ScriptedResponse W) → MockVendor W → MockVendor W
  queue steps v = record v { script = v.script ++ steps }

  -- `queue_success`, where an empty text is the default one.
  unfoldable pub queue_success :
      Option String → ℕ → ℕ → W → Option String → String → MockVendor W → MockVendor W
  queue_success text input_tokens output_tokens latency_s vendor_request_id finish_reason v =
      record v {
        script =
            v.script
            ++ (record {
              result = some (record {
                text = if text_or_empty text == "" then v.default_text else text_or_empty text;
                finish_reason = some finish_reason;
                input_tokens = input_tokens;
                output_tokens = output_tokens;
                vendor_request_id = vendor_request_id;
              });
              error = none;
              latency_s = latency_s;
            }
                ∷ []);
      }

  unfoldable pub queue_error : ProviderError → W → MockVendor W → MockVendor W
  queue_error exc latency_s v = record v {
    script = v.script ++ (record { result = none; error = some exc; latency_s = latency_s } ∷ []);
  }

  unfoldable pub clear : MockVendor W → MockVendor W
  clear v = record v { script = []; call_count = 0 }

  -- The first step of the script, or a success that depends on the messages only.
  unfoldable pub next_step : List Message → MockVendor W → ScriptedResponse W × MockVendor W
  unfolding prompt_chars
  next_step messages v = elim v.script [
    | step ∷ steps ↦ (step, record v { script = steps })
    | [] ↦ (
      record {
        result = some (record {
          text = v.default_text;
          finish_reason = some "stop";
          input_tokens = prompt_chars messages / 4 + 1;
          output_tokens = count v.default_text / 4 + 1;
          vendor_request_id = none;
        });
        error = none;
        latency_s = nought;
      },
      v,
    )
  ]

  module _ {S : Type 0} (sleep : W → S → S) (two_places : W → String)
      (hexdigest : String → String) where
    -- The id that `chat` makes from the model and the texts.
    unfoldable pub vendor_request_id : MockVendor W → String → List Message → String
    unfolding contents_of first_chars join
    vendor_request_id v model messages =
        let digest =
          first_chars 12
            (hexdigest (str_append model (str_append "|" (join "" (contents_of messages))))) in
        str_append v.vrid_prefix (str_append "-" digest)

    unfoldable pub timed_out : MockVendor W → W → Answer
    timed_out v timeout_s = Answer.raises (record {
      class = ErrorClass.timeout;
      message =
          str_append v.name
            (str_append ": simulated timeout after " (str_append (two_places timeout_s) "s"));
      vendor_detail = none;
    })

    -- What a step gives once its latency has passed; `assert result is not None` may fail.
    unfoldable pub answer_of : MockVendor W → String → List Message → ScriptedResponse W → Answer
    unfolding vendor_request_id with_request_id
    answer_of v model messages step = elim step.error [
      | some error ↦ Answer.raises error
      | none ↦ elim step.result [
        | none ↦ Answer.other_exception
        | some result ↦ Answer.reply (with_request_id (vendor_request_id v model messages) result)
      ]
    ]

    unfoldable pub chat :
        String → List Message → ChatParams W → W → MockVendor W → S → Answer × MockVendor W × S
    unfolding next_step timed_out answer_of
    chat model messages params timeout_s v s =
        let (step, v') = next_step messages (record v { call_count = suc v.call_count }) in
        if d.lt nought step.latency_s
        then if d.le timeout_s step.latency_s
          then (timed_out v' timeout_s, v', sleep (fmin timeout_s step.latency_s) s)
          else (answer_of v' model messages step, v', sleep step.latency_s s)
        else (answer_of v' model messages step, v', s)
