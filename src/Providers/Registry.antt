-- ===== src/Providers/Registry.antt =====
-- gateway/providers/__init__.py. `V` is the type of vendors; a real vendor's constructor may raise
-- (`none`), which a model of it says by its name. The error of `build_vendors` is `none`.
use librouter.Prelude.{
  sym, ◌∙◌, ◌≡◌, ◌≢◌, refl, String, Option, none, some, [], ◌∷◌, if◌then◌else◌, arith, string_eq,
  ◌==◌,
}
use librouter.Prelude.Dict.{Dict, get, put, get-put}
use librouter.Models.{Config, ProviderMode}
use librouter.Secrets.{SecretsManager, has_secret}

abbrev pub real_vendor_key_names : Dict String String
real_vendor_key_names =
    ("openai", "OPENAI_API_KEY")
    ∷ (("anthropic", "ANTHROPIC_API_KEY") ∷ (("google", "GOOGLE_API_KEY") ∷ []))

module _ {V : Type 0} (environ : Dict String String) (mock : String → V)
    (build : String → SecretsManager → Option V) where
  -- `out[name] = builder(secrets)`, skipped if the constructor raises.
  unfoldable pub put_built : String → Option V → Dict String V → Dict String V
  unfolding put
  put_built name none out = out
  put_built name (some vendor) out = put name vendor out

  -- The body of the loop over the builders, and the loop.
  unfoldable pub add_vendor : SecretsManager → String → String → Dict String V → Dict String V
  unfolding has_secret put_built
  add_vendor sm name key_name out =
      if has_secret environ sm key_name then put_built name (build name sm) out else out

  unfoldable pub build_real : SecretsManager → Dict String String → Dict String V → Dict String V
  unfolding add_vendor
  build_real sm [] out = out
  build_real sm ((name, key_name) ∷ builders) out =
      build_real sm builders (add_vendor sm name key_name out)

  abbrev some_vendor : Dict String V → Option (Dict String V)
  some_vendor [] = none
  some_vendor (x ∷ out) = some (x ∷ out)

  unfoldable pub build_vendors : {W : Type 0} → Config W → SecretsManager → Option (Dict String V)
  unfolding build_real
  build_vendors cfg sm = elim cfg.provider_mode [
    | ProviderMode.mock ↦ some (
        ("openai", mock "openai")
        ∷ (("anthropic", mock "anthropic") ∷ (("google", mock "google") ∷ [])))
    | ProviderMode.real ↦ some_vendor (build_real sm real_vendor_key_names [])
  ]

  -- What a provider gets: its vendor if its key is present and its constructor returns.
  unfoldable pub made : SecretsManager → String → String → Option V
  unfolding has_secret
  made sm name key_name = if has_secret environ sm key_name then build name sm else none

  abbrev made_or : Option V → Option V → Option V
  made_or none before = before
  made_or (some vendor) before = some vendor

  -- The last builder of a name that gives a vendor, or what was there before.
  abbrev last_made : SecretsManager → Dict String String → String → Option V → Option V
  last_made sm [] name before = before
  last_made sm ((n, key_name) ∷ builders) name before =
      last_made sm builders name (if n == name then made_or (made sm n key_name) before else before)

  get-put_built :
      (n name : String) (built : Option V) (out : Dict String V)
      → get (put_built n built out) name
        ≡ (if n == name then made_or built (get out name) else get out name)
  unfolding put_built
  get-put_built n name none out = ground arith
  get-put_built n name (some v) out = ground (arith, get-put n name v out)

  get-add_vendor :
      (sm : SecretsManager) (n key_name name : String) (out : Dict String V)
      → get (add_vendor sm n key_name out) name
        ≡ (if n == name then made_or (made sm n key_name) (get out name) else get out name)
  unfolding add_vendor made
  get-add_vendor sm n key_name name out = ground (arith, get-put_built n name (build n sm) out)

  get-build_real :
      (sm : SecretsManager) (builders : Dict String String) (out : Dict String V) (name : String)
      → get (build_real sm builders out) name ≡ last_made sm builders name (get out name)
  unfolding build_real
  get-build_real sm [] out name = refl
  get-build_real sm ((n, key_name) ∷ builders) out name =
      rw (get-build_real sm builders (add_vendor sm n key_name out) name, get-add_vendor) refl

  -- The vendor that a name asks for, by its key and its constructor.
  abbrev pub made_for : SecretsManager → String → Option V
  made_for sm name =
      if name == "openai"
      then made sm "openai" "OPENAI_API_KEY"
      else if name == "anthropic"
      then made sm "anthropic" "ANTHROPIC_API_KEY"
      else if name == "google"
      then made sm "google" "GOOGLE_API_KEY"
      else none

  -- The table of the vendors so made, `none` if there is none to put in it.
  pub IsMade : SecretsManager → Option (Dict String V) → Type 0
  IsMade sm none = (name : String) → made_for sm name ≡ none
  IsMade sm (some out) = (out ≢ []) × ((name : String) → get out name ≡ made_for sm name)

  last_made-made_for :
      (sm : SecretsManager) (name : String)
      → last_made sm real_vendor_key_names name none ≡ made_for sm name
  last_made-made_for sm name = ground (
    arith,
    string_eq.beq_iff "openai" name,
    string_eq.beq_iff "anthropic" name,
    string_eq.beq_iff "google" name,
    string_eq.beq_iff name "openai",
    string_eq.beq_iff name "anthropic",
    string_eq.beq_iff name "google",
    string_eq.beq_iff "openai" "google",
    string_eq.beq_iff "openai" "anthropic",
    string_eq.beq_iff "anthropic" "google",
  )

  some_vendor-IsMade :
      (sm : SecretsManager) (out : Dict String V)
      → ((name : String) → get out name ≡ last_made sm real_vendor_key_names name none)
      → IsMade sm (some_vendor out)
  unfolding IsMade get
  some_vendor-IsMade sm [] h = λ name. sym (last_made-made_for sm name) ∙ sym (h name)
  some_vendor-IsMade sm (x ∷ out) h = (ground arith, λ name. h name ∙ last_made-made_for sm name)

  -- In real mode the construction fails exactly if none of the three providers has both its key and
  -- a constructor that returns; otherwise the table has, under each of the three names, the vendor
  -- so made if there is one, and nothing under any other name.
  pub build_vendors-IsMade :
      {W : Type 0} (cfg : Config W) (sm : SecretsManager)
      → cfg.provider_mode ≡ ProviderMode.real
      → IsMade sm (build_vendors cfg sm)
  unfolding build_vendors
  build_vendors-IsMade cfg sm h =
      rw h (some_vendor-IsMade sm _ (λ name. get-build_real sm real_vendor_key_names [] name))
