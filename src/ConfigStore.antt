-- ===== src/ConfigStore.antt =====
-- gateway/config_store.py: the configuration in Postgres behind a cache in Redis. `cache` is the
-- payload, bytes of type `P`, under `gw:config:current`, gone once its time to live is over;
-- `encode` and `decode` are `json.dumps` of the dump and the validation of `json.loads`, which is
-- `none` if it raises. A `ConfigStoreError` and a `ValidationError` are `none`.
pub mod Tables
pub mod Rows
pub mod Written
pub mod RoundTrip
pub mod Valid
pub mod SingleFlight
pub mod Turns
pub mod Progress
mod Tests
use librouter.Prelude.{
  String, Bool, true, false, Option, none, some, List, [], ◌∷◌, string_eq, if◌then◌else◌,
}
use librouter.Prelude.Dict.{Dict, get, put, setdefault}
use librouter.Prelude.Float.{Float}
use librouter.Models.Valid.{is_valid_config}
use librouter.Models.{
  Config, ProviderMode, RateLimitEntry, RoutingConfig, SecretsMode, TierConfig, TierEntry,
}
use librouter.Db.{
  Database, ModelEntry, fetch_routing_config, fetch_tiers, fetch_tier_models, upsert_tier,
  upsert_tier_models, upsert_routing_config,
}

abbrev pub TierMap : Type 0 → Type 0
TierMap W = Dict String (ModelEntry W)

abbrev pub tier_entry_of : {W : Type 0} → String → ModelEntry W → TierEntry W
tier_entry_of provider e = record {
  provider = provider;
  model = e.model;
  weight = e.weight;
  rate_limits = e.rate_limits;
}

abbrev pub stored_of : {W : Type 0} → TierEntry W → ModelEntry W
stored_of t = record { model = t.model; weight = t.weight; rate_limits = t.rate_limits }

abbrev pub or_empty : {W : Type 0} → Option (TierMap W) → TierMap W
or_empty none = []
or_empty (some tier_map) = tier_map

-- How Postgres and Redis answer a write; `broken_off` has the rows that a failed statement leaves.
pub data WriteEnd (W : Type 0) : Type 0 where
  completed : WriteEnd W
  broken_off : Database W → WriteEnd W
  not_deleted : WriteEnd W

-- `provider_tier_map[row["provider"]] = row["config"]` for each row.
unfoldable pub put_rows : {V : Type 0} → Dict String V → Dict String V → Dict String V
unfolding put
put_rows [] out = out
put_rows ((k, v) ∷ rows) out = put_rows rows (put k v out)

module _ {W : Type 0} where
  -- The candidates of a tier, by the order of the providers.
  unfoldable pub tier_entries : String → Dict String (TierMap W) → List (TierEntry W)
  unfolding get
  tier_entries tier_name [] = []
  tier_entries tier_name ((provider, tier_map) ∷ rows) =
      let rest = tier_entries tier_name rows in
      elim (get tier_map tier_name) [ none ↦ rest | some e ↦ tier_entry_of provider e ∷ rest ]

  unfoldable pub build_tiers :
      Dict String (Option String)
      → Dict String (TierMap W)
      → Dict String (TierConfig W)
      → Dict String (TierConfig W)
  unfolding put tier_entries
  build_tiers [] provider_tier_map out = out
  build_tiers ((tier_name, _) ∷ rows) provider_tier_map out =
      build_tiers rows provider_tier_map
        (put tier_name (record { candidates = tier_entries tier_name provider_tier_map }) out)

  -- The cached configuration, if there is one that can be read.
  unfoldable pub cached_config :
      {P : Type 0} → (P → Option (Config W)) → Option P → Option (Config W)
  cached_config decode none = none
  cached_config decode (some payload) = decode payload

  unfoldable pub write_to_redis : {P : Type 0} → (Config W → P) → Config W → Option P → Option P
  write_to_redis encode cfg cache = some (encode cfg)

  -- `provider_map[cand.provider][tier_name] = ...`, after the key is made.
  unfoldable pub add_entry :
      String → TierEntry W → Dict String (TierMap W) → Dict String (TierMap W)
  unfolding get put
  add_entry tier_name cand provider_map =
      put cand.provider (put tier_name (stored_of cand) (or_empty (get provider_map cand.provider)))
        provider_map

  unfoldable pub add_entries :
      String → List (TierEntry W) → Dict String (TierMap W) → Dict String (TierMap W)
  unfolding add_entry
  add_entries tier_name [] provider_map = provider_map
  add_entries tier_name (cand ∷ cands) provider_map =
      add_entries tier_name cands (add_entry tier_name cand provider_map)

  -- The loop over the tiers, which writes each tier on the way.
  unfoldable pub write_tiers :
      Dict String (TierConfig W)
      → Dict String (TierMap W)
      → Database W
      → Dict String (TierMap W) × Database W
  unfolding add_entries upsert_tier
  write_tiers [] provider_map db = (provider_map, db)
  write_tiers ((tier_name, tier_cfg) ∷ tiers) provider_map db =
      write_tiers tiers (add_entries tier_name tier_cfg.candidates provider_map)
        (upsert_tier tier_name none db)

  unfoldable pub write_tier_models : Dict String (TierMap W) → Database W → Database W
  unfolding upsert_tier_models
  write_tier_models [] db = db
  write_tier_models ((provider, tier_cfg_map) ∷ provider_map) db =
      write_tier_models provider_map (upsert_tier_models provider tier_cfg_map db)

  -- The run in which Postgres takes every statement; each commits alone.
  unfoldable pub write_to_db : Config W → Database W → Database W
  unfolding write_tiers write_tier_models upsert_routing_config
  write_to_db cfg db =
      let (provider_map, written) = write_tiers cfg.tiers [] db in
      upsert_routing_config cfg.routing (write_tier_models provider_map written)

  -- `write`: the database, then the deletion of the key, when neither raises.
  unfoldable pub write : {P : Type 0} → Config W → Database W → Option P → Database W × Option P
  unfolding write_to_db
  write cfg db cache = (write_to_db cfg db, none)

  -- `write` as it may end: an exception of Postgres leaves the statements that were taken before,
  -- and one of Redis all of them; both leave the payload. The Boolean says whether `write`
  -- returned.
  unfoldable pub try_write :
      {P : Type 0} → WriteEnd W → Config W → Database W → Option P → (Database W × Option P) × Bool
  unfolding write write_to_db
  try_write completed cfg db cache = (write cfg db cache, true)
  try_write (broken_off left) cfg db cache = ((left, cache), false)
  try_write not_deleted cfg db cache = ((write_to_db cfg db, cache), false)

  module _ ⦃d : Float W⦄ (order_by : (V : Type 0) → Dict String V → Dict String V) where
    -- The objects that `load_from_db` builds of the rows.
    unfoldable pub rows_config : Database W → Option (Config W)
    unfolding put_rows build_tiers
    rows_config db = elim (fetch_routing_config db) [
      | none ↦ none
      | some routing ↦ some (record {
        provider_mode = ProviderMode.mock;
        secrets_mode = SecretsMode.mock;
        tiers =
            build_tiers (fetch_tiers order_by db) (put_rows (fetch_tier_models order_by db) []) [];
        routing = routing;
        callers = [];
      })
    ]

    -- `none` also where the constructors refuse a value of the rows, with a ValidationError.
    unfoldable pub load_from_db : Database W → Option (Config W)
    unfolding rows_config is_valid_config
    load_from_db db = elim (rows_config db) [
      | none ↦ none
      | some cfg ↦ if is_valid_config cfg then some cfg else none
    ]

    module _ {P : Type 0} (encode : Config W → P) (decode : P → Option (Config W)) where
      -- What stands under the lock: the second look at the cache, the rows, the new payload.
      unfoldable pub refill_locked : Bool → Database W → Option P → Option (Config W) × Option P
      unfolding cached_config load_from_db write_to_redis
      refill_locked force db cache = elim (if force then none else cached_config decode cache) [
        | some cfg ↦ (some cfg, cache)
        | none ↦ elim (load_from_db db) [
          | none ↦ (none, cache)
          | some cfg ↦ (some cfg, write_to_redis encode cfg cache)
        ]
      ]

      -- A call of `load_or_refresh` that nothing interrupts.
      unfoldable pub load_or_refresh : Bool → Database W → Option P → Option (Config W) × Option P
      unfolding cached_config refill_locked
      load_or_refresh force db cache = elim (if force then none else cached_config decode cache) [
        | some cfg ↦ (some cfg, cache)
        | none ↦ refill_locked force db cache
      ]
