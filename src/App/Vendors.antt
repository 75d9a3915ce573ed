-- ===== src/App/Vendors.antt =====
-- The vendors that the start of gateway/app.py builds, the refresh task and the pick.
use librouter.Prelude.{
  ◌≡◌, ◌≢◌, refl, String, true, false, inl, inr, Option, none, some, List, [], ◌∷◌, arith,
  Option-cases, contains, string_eq,
}
use librouter.Prelude.Dict.{Dict, get}
use librouter.Prelude.Float.{Float, IsOrdered, nought}
use librouter.Models.{CandidateRef, candidate_eq, Config, TierEntry}
use librouter.Weights.{WeightEngine, pick, weight}
use librouter.Weights.Pick.{pick-IsOpen}
use librouter.Refresh.{Sources, tick}
use librouter.Refresh.Signals.{has}
use librouter.Refresh.Available.{tick-IsAvailable}
use librouter.Secrets.{SecretsManager, secret}
use librouter.Providers.Registry.{build_vendors}
use librouter.App.Boot.{
  Gateway, apply_env_overrides, boot, boot_secrets, db_dsn, keys_of, make_gateway,
}

get-keys_of :
    {V : Type 0} (d : Dict String V) (k : String) → contains (keys_of d) k ≡ true → get d k ≢ none
unfolding get
get-keys_of [] k h = absurd (ground arith)
get-keys_of ((j, v) ∷ d) k h = ground (arith, get-keys_of d k)

has-get :
    {V : Type 0} (d : Dict CandidateRef V) (c : CandidateRef) → get d c ≢ none → has d c ≡ true
unfolding get
has-get [] c h = absurd (h refl)
has-get ((j, v) ∷ d) c h = ground (arith, has-get d c)

weight-none :
    {W : Type 0} ⦃d : Float W⦄ (laws : IsOrdered W) (engine : WeightEngine W) (c : CandidateRef)
    → d.le (weight engine c) nought ≡ false
    → get engine.cache c ≢ none
unfolding weight
weight-none laws engine c h gone =
    absurd (ground (arith, laws.le_refl nought, rw (weight, gone) at h))

available_providers-make_gateway :
    {W V : Type 0} (environ : Dict String String) (mock : String → V)
    (build : String → SecretsManager → Option V) (cfg : Config W) (secrets : SecretsManager)
    (g : Gateway W V)
    → make_gateway environ mock build cfg secrets ≡ some g
    → g.available_providers ≡ keys_of g.vendors
unfolding make_gateway
available_providers-make_gateway environ mock build cfg secrets g e =
    elim (Option-cases (secret environ secrets "GATEWAY_KEY_HASH_PEPPER")) [
      | inl absent ↦ absurd (ground (arith, rw (make_gateway, absent) at e))
      | inr (pepper, found) ↦ elim (Option-cases (build_vendors environ mock build cfg secrets)) [
        | inl failed ↦ absurd (ground (arith, rw (make_gateway, found, failed) at e))
        | inr (vendors, made) ↦ ground (arith, rw (make_gateway, found, made) at e)
      ]
    ]

module _ {W V : Type 0} (environ : Dict String String) (mock : String → V)
    (build : String → SecretsManager → Option V) (stored : Config W) (g : Gateway W V)
    (booted : boot environ mock build stored ≡ some g) where
  available_providers-boot : g.available_providers ≡ keys_of g.vendors
  unfolding boot
  available_providers-boot = elim (Option-cases (db_dsn environ)) [
    | inl undefined ↦ absurd (ground (arith, rw (boot, undefined) at booted))
    | inr (dsn, defined) ↦
        elim (Option-cases (
          apply_env_overrides (get environ "GATEWAY_PROVIDER_MODE")
            (get environ "GATEWAY_SECRETS_MODE") stored)) [
              | inl invalid ↦ absurd (ground (arith, rw (boot, defined, invalid) at booted))
              | inr (cfg, valid) ↦
                  available_providers-make_gateway environ mock build cfg
                    (boot_secrets environ cfg.secrets_mode) g (rw (boot, defined, valid) at booted)
            ]
  ]

  -- In a process that has started, after a tick of the refresh task with the vendors that were
  -- built, whatever the cache held before and whatever Redis answers: a candidate that is picked
  -- has a vendor. The order laws of floats are used.
  pub pick-HasVendor :
      {S T : Type 0} ⦃d : Float W⦄ (laws : IsOrdered W) (sources : Sources W S)
      (engine engine' : WeightEngine W) (s s' : S) (random : T → W × T) (ts : List (TierEntry W))
      (exclude : List CandidateRef) (t : T) (c : CandidateRef)
      → tick sources (some g.available_providers) g.cfg engine s ≡ some (engine', s')
      → (pick random engine' ts exclude t).0 ≡ some c
      → get g.vendors c.provider ≢ none
  pick-HasVendor laws sources engine engine' s s' random ts exclude t c ticked picked =
      let positive = (pick-IsOpen random engine' ts exclude t c picked).0.1 in
      let cached = has-get engine'.cache c (weight-none laws engine' c positive) in
      let there =
        tick-IsAvailable sources (some g.available_providers) g.cfg engine engine' s s' c ticked
          cached in
      get-keys_of g.vendors c.provider (rw available_providers-boot at there)
