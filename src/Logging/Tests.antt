-- ===== src/Logging/Tests.antt =====
-- Two events of a log that differ in a header and in a key within a text (gateway/logging.py).
use librouter.Prelude.{
  ◌≡◌, refl, ℕ, String, ◌||◌, Option, none, some, [], ◌∷◌, string_eq, ◌==◌, if◌then◌else◌, length,
}
use librouter.Logging.{
  Fields, text, dict, other, end, field, Pattern, RedactProcessor, new_processor, scrub_with,
  scrub_value, scrub_fields, effective_level, processors,
}
use librouter.Logging.Redact.{
  AreAlike, texts, dicts, others, ends, hidden, shown, scrub_fields_hides,
}

abbrev lower : String → String
lower s = if s == "Authorization" then "authorization" else s

-- A pattern that fits two keys.
abbrev key_pattern : Pattern
key_pattern r t = if t == "key sk-1" || t == "key sk-2" then r else t

abbrev redactor : RedactProcessor
redactor = record {
  field_names = "authorization" ∷ ("token" ∷ []);
  patterns = key_pattern ∷ [];
  replacement = "<redacted>";
}

abbrev log_event : String → String → Fields ℕ
log_event header key =
    field "headers" (dict (field "Authorization" (text header) (field "size" (other 3) end)))
      (field "event" (text key) end)

alike : AreAlike lower redactor (log_event "Bearer a" "key sk-1") (log_event "Bearer b" "key sk-2")
unfolding scrub_with
alike =
    shown "headers"
      (dicts (
        hidden "Authorization" (text "Bearer a") (text "Bearer b") refl
          (shown "size" (others 3) ends)))
      (shown "event" (texts "key sk-1" "key sk-2" refl) ends)

scrub_fields_hides_example :
    scrub_fields lower redactor (log_event "Bearer a" "key sk-1")
    ≡ scrub_fields lower redactor (log_event "Bearer b" "key sk-2")
scrub_fields_hides_example =
    scrub_fields_hides lower redactor (log_event "Bearer a" "key sk-1")
      (log_event "Bearer b" "key sk-2") alike

redacted :
    scrub_fields lower redactor (log_event "Bearer a" "key sk-1")
    ≡ log_event "<redacted>" "<redacted>"
unfolding scrub_fields scrub_value scrub_with
redacted = refl

abbrev level_named : String → Option ℕ
level_named name = if name == "DEBUG" then some 10 else none

-- At DEBUG nothing is redacted.
debug_pipeline :
    length (
      processors lower
        (λ s. s)
        level_named
        (some "DEBUG")
        (record {
          level = none;
          redact = some (record { field_names = []; patterns = []; replacement = none });
        }))
    ≡ 4
unfolding processors effective_level new_processor
debug_pipeline = refl
