-- ===== src/Logging.antt =====
-- gateway/logging.py. A value of an event is a text, a dictionary, or something else (of type `O`)
-- that is left as it is. `lower` and `upper` are the builtin methods of a text, and a compiled
-- pattern is what its `sub` does with a replacement and a text.
pub mod Redact
mod Tests
use librouter.Prelude.{
  ℕ, String, Bool, true, false, ◌&&◌, ◌||◌, not, Option, none, some, List, [], ◌∷◌, ◌++◌, map, ltb,
  contains, string_eq, ◌==◌, if◌then◌else◌,
}

mutual
  pub data Value (O : Type 0) : Type 0 where
    text : String → Value O
    dict : Fields O → Value O
    other : O → Value O

  -- The items of a dictionary, in their order.
  pub data Fields (O : Type 0) : Type 0 where
    end : Fields O
    field : String → Value O → Fields O → Fields O

abbrev pub Pattern : Type 0
Pattern = String → String → String

pub record RedactProcessor : Type 0 where
  pub field_names : List String
  pub patterns : List Pattern
  pub replacement : String

-- `_scrub_string`: one pattern after the other.
unfoldable pub scrub_with : String → List Pattern → String → String
scrub_with replacement [] value = value
scrub_with replacement (sub ∷ patterns) value =
    scrub_with replacement patterns (sub replacement value)

module _ (lower : String → String) where
  -- `__init__`
  unfoldable pub new_processor : List String → List Pattern → String → RedactProcessor
  new_processor field_names patterns replacement = record {
    field_names = map lower field_names;
    patterns = patterns;
    replacement = replacement;
  }

  module _ (p : RedactProcessor) where
    abbrev pub is_named : String → Bool
    is_named key = contains p.field_names (lower key)

    -- `_scrub_value`, and the comprehension over the items of a dictionary, which is also
    -- `__call__`.
    unfoldable mutual
      unfolding scrub_with

      pub scrub_value : {O : Type 0} → String → Value O → Value O
      scrub_value key (text value) =
          if is_named key
          then text p.replacement
          else text (scrub_with p.replacement p.patterns value)
      scrub_value key (dict value) =
          let scrubbed = scrub_fields value in
          if is_named key then text p.replacement else dict scrubbed
      scrub_value key (other value) = if is_named key then text p.replacement else other value

      pub scrub_fields : {O : Type 0} → Fields O → Fields O
      scrub_fields end = end
      scrub_fields (field key value rest) = field key (scrub_value key value) (scrub_fields rest)

-- The two parts of gateway/config/logger.json, each of which may be absent; an absent file has
-- neither.
pub record RedactConfig : Type 0 where
  pub field_names : List String
  pub patterns : List Pattern
  pub replacement : Option String

pub record LoggerConfig : Type 0 where
  pub level : Option String
  pub redact : Option RedactConfig

-- The pipeline of structlog.
pub data Processor : Type 0 where
  merge_contextvars add_log_level time_stamper json_renderer : Processor
  redact_with : RedactProcessor → Processor

-- `a or b` on texts.
abbrev or_text : Option String → String → String
or_text none b = b
or_text (some a) b = if a == "" then b else a

-- `level_named` is `getattr(logging, name)`, `none` for a name that the module does not have.
module _ (lower upper : String → String) (level_named : String → Option ℕ) where
  unfoldable pub effective_level : Option String → LoggerConfig → ℕ
  effective_level level cfg =
      let json_level : String = elim cfg.level [ none ↦ "INFO" | some l ↦ l ] in
      elim (level_named (upper (or_text level (or_text (some json_level) "INFO")))) [
        | none ↦ 20
        | some n ↦ n
      ]

  -- The redaction, unless the level is DEBUG or nothing is configured.
  abbrev redaction : ℕ → Option RedactConfig → List Processor
  redaction level none = []
  redaction level (some cfg) =
      if ltb 10 level
      then redact_with (
          new_processor lower cfg.field_names cfg.patterns
            (elim cfg.replacement [ none ↦ "<redacted>" | some r ↦ r ]))
        ∷ []
      else []

  unfoldable pub processors : Option String → LoggerConfig → List Processor
  unfolding effective_level new_processor
  processors level cfg =
      (merge_contextvars ∷ (add_log_level ∷ (time_stamper ∷ [])))
      ++ (redaction (effective_level level cfg) cfg.redact ++ (json_renderer ∷ []))
