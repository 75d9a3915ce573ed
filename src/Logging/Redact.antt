-- ===== src/Logging/Redact.antt =====
-- What the redaction of gateway/logging.py hides.
use librouter.Prelude.{◌≡◌, refl, sym, ◌∙◌, ap₂, String, true, string_eq}
use librouter.Logging.{
  Value, Fields, text, dict, other, end, field, RedactProcessor, is_named, scrub_value,
  scrub_fields, scrub_with,
}

module _ (lower : String → String) (p : RedactProcessor) {O : Type 0} where
  -- Two events that differ only in what is to be hidden: the values under the names of the
  -- processor, at any depth, and texts that the patterns make equal.
  mutual
    pub data IsAlike : Value O → Value O → Type 0 where
      texts :
          (a b : String)
          → scrub_with p.replacement p.patterns a ≡ scrub_with p.replacement p.patterns b
          → IsAlike (text a) (text b)
      dicts : {f g : Fields O} → AreAlike f g → IsAlike (dict f) (dict g)
      others : (o : O) → IsAlike (other o) (other o)

    pub data AreAlike : Fields O → Fields O → Type 0 where
      ends : AreAlike end end
      hidden :
          {f g : Fields O} (key : String) (a b : Value O)
          → is_named lower p key ≡ true
          → AreAlike f g
          → AreAlike (field key a f) (field key b g)
      shown :
          {a b : Value O} {f g : Fields O} (key : String)
          → IsAlike a b
          → AreAlike f g
          → AreAlike (field key a f) (field key b g)

  -- A value under a name is replaced.
  scrub_value-named :
      (key : String) (a : Value O)
      → is_named lower p key ≡ true
      → scrub_value lower p key a ≡ text p.replacement
  unfolding scrub_value
  scrub_value-named key (text c) h = rw (scrub_value, h) refl
  scrub_value-named key (dict c) h = rw (scrub_value, h) refl
  scrub_value-named key (other c) h = rw (scrub_value, h) refl

  mutual
    unfolding scrub_value scrub_fields

    scrub_value-IsAlike :
        {a b : Value O} (key : String)
        → IsAlike a b
        → scrub_value lower p key a ≡ scrub_value lower p key b
    scrub_value-IsAlike key (texts a b h) = rw (scrub_value, h) refl
    scrub_value-IsAlike key (dicts h) = rw (scrub_value, scrub_fields-AreAlike h) refl
    scrub_value-IsAlike key (others o) = refl

    scrub_fields-AreAlike :
        {f g : Fields O} → AreAlike f g → scrub_fields lower p f ≡ scrub_fields lower p g
    scrub_fields-AreAlike ends = refl
    scrub_fields-AreAlike (hidden key a b named h) =
        ap₂ (field key) (scrub_value-named key a named ∙ sym (scrub_value-named key b named))
          (scrub_fields-AreAlike h)
    scrub_fields-AreAlike (shown key same h) =
        ap₂ (field key) (scrub_value-IsAlike key same) (scrub_fields-AreAlike h)

  -- Two events that have the same keys and differ only in the values under the names of the
  -- processor, in whatever case and at any depth, or in texts that its patterns make equal, are the
  -- same once they are redacted.
  pub scrub_fields_hides :
      (f g : Fields O) → AreAlike f g → scrub_fields lower p f ≡ scrub_fields lower p g
  scrub_fields_hides f g h = scrub_fields-AreAlike h
