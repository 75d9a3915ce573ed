-- ===== src/ConfigStore/Written.antt =====
-- The rows after `write_to_db`, and what `load_from_db` makes of rows, in gateway/config_store.py.
use librouter.Prelude.{Bool, ◌≡◌, String, ◌||◌, Option, [], arith, string_eq, if◌then◌else◌}
use librouter.Prelude.Dict.{Dict, get, IsKeyed}
use librouter.Models.{Config, TierConfig}
use librouter.Db.{Database, ModelEntry, upsert_routing_config}
use librouter.ConfigStore.{TierMap, put_rows, build_tiers, write_tiers, write_to_db}
use librouter.ConfigStore.Tables.{
  is_some, row_entry, last_entry, mentions, entries_for, listed, candidates_of, write_tiers-IsKeyed,
  row_entry-write_tiers, is_some-write_tiers, tiers-write_tiers,
}
use librouter.ConfigStore.Rows.{
  get-put_rows, put_rows-IsKeyed, entries_for-tier_entries, get-build_tiers,
  tier_models-write_tiers, tier_models-write_tier_models, tiers-write_tier_models,
}

-- `ORDER BY` a primary key: the same rows in some order.
pub record IsOrderBy (order_by : (V : Type 0) → Dict String V → Dict String V) : Type 1 where
  pub keyed : (V : Type 0) (d : Dict String V) → IsKeyed d → IsKeyed (order_by V d)
  pub same :
      (V : Type 0) (d : Dict String V) (k : String) → IsKeyed d → get (order_by V d) k ≡ get d k

-- The two primary keys.
pub record IsTables {W : Type 0} (db : Database W) : Type 0 where
  pub tiers_keyed : IsKeyed db.tiers
  pub tier_models_keyed : IsKeyed db.tier_models

module _ {W : Type 0} where
  -- What a provider has in a tier after `cfg` was written over the rows of `db`.
  abbrev pub entry_after : Config W → Database W → String → String → Option (ModelEntry W)
  entry_after cfg db p t =
      if mentions p cfg.tiers
      then last_entry p (candidates_of cfg.tiers t)
      else row_entry db.tier_models p t

  pub row_entry-write_to_db :
      (cfg : Config W) (db : Database W) (p t : String)
      → IsKeyed cfg.tiers
      → IsTables db
      → row_entry ((write_to_db cfg db).tier_models) p t ≡ entry_after cfg db p t
  unfolding write_to_db upsert_routing_config
  row_entry-write_to_db cfg db p t h k =
      let written = write_tiers cfg.tiers [] db in
      ground (
        arith,
        tier_models-write_tier_models (written.0) (written.1),
        tier_models-write_tiers cfg.tiers [] db,
        get-put_rows (written.0) db.tier_models p
            ((write_tiers-IsKeyed cfg.tiers [] db tt k.tiers_keyed).0),
        row_entry-write_tiers cfg.tiers [] db p t h,
        is_some-write_tiers cfg.tiers [] db p,
      )

  pub tiers-write_to_db :
      (cfg : Config W) (db : Database W) (t : String)
      → is_some (get ((write_to_db cfg db).tiers) t)
        ≡ (is_some (get cfg.tiers t) || is_some (get db.tiers t))
  unfolding write_to_db upsert_routing_config
  tiers-write_to_db cfg db t =
      let written = write_tiers cfg.tiers [] db in
      rw (tiers-write_tier_models (written.0) (written.1)) (tiers-write_tiers cfg.tiers [] db t)

  pub write_to_db-IsTables :
      (cfg : Config W) (db : Database W) → IsTables db → IsTables (write_to_db cfg db)
  unfolding write_to_db upsert_routing_config
  write_to_db-IsTables cfg db k =
      let written = write_tiers cfg.tiers [] db in
      record {
        tiers_keyed =
            rw (tiers-write_tier_models (written.0) (written.1))
              ((write_tiers-IsKeyed cfg.tiers [] db tt k.tiers_keyed).1);
        tier_models_keyed =
            rw
              (
                tier_models-write_tier_models (written.0) (written.1),
                tier_models-write_tiers cfg.tiers [] db,
              )
              (put_rows-IsKeyed (written.0) db.tier_models k.tier_models_keyed);
      }

  -- A tier that is written, or that stood there before.
  abbrev pub has_tier : Config W → Database W → String → Bool
  has_tier cfg db t = is_some (get cfg.tiers t) || is_some (get db.tiers t)

  -- What a configuration that was read has, after `cfg` was written over the rows of `db`.
  abbrev pub IsStored : Config W → Database W → Config W → Type 0
  IsStored cfg db c =
      (c.routing ≡ cfg.routing)
      × ((t : String) → is_some (get c.tiers t) ≡ has_tier cfg db t)
      × ((t p : String)
          → entries_for p (candidates_of c.tiers t)
            ≡ (if has_tier cfg db t then listed p (entry_after cfg db p t) else []))

  module _ (order_by : (V : Type 0) → Dict String V → Dict String V)
      (order : IsOrderBy order_by) where
    -- The configuration that `load_from_db` makes of the rows of `db`.
    abbrev pub tiers_of : Database W → Dict String (TierConfig W)
    tiers_of db =
        build_tiers (order_by (Option String) db.tiers)
          (put_rows (order_by (TierMap W) db.tier_models) []) []

    pub is_some-tiers_of :
        (db : Database W) (t : String)
        → IsTables db
        → is_some (get (tiers_of db) t) ≡ is_some (get db.tiers t)
    unfolding get
    is_some-tiers_of db t k = ground (
      arith,
      get-build_tiers (order_by (Option String) db.tiers)
          (put_rows (order_by (TierMap W) db.tier_models) []) [] t,
      order.same (Option String) db.tiers t k.tiers_keyed,
    )

    pub entries_for-tiers_of :
        (db : Database W) (t p : String)
        → IsTables db
        → entries_for p (candidates_of (tiers_of db) t)
          ≡ (if is_some (get db.tiers t) then listed p (row_entry db.tier_models p t) else [])
    unfolding get
    entries_for-tiers_of db t p k =
        let ordered : Dict String (TierMap W) = order_by (TierMap W) db.tier_models in
        let rows : Dict String (TierMap W) = put_rows ordered [] in
        let keyed = order.keyed (TierMap W) db.tier_models k.tier_models_keyed in
        ground (
          arith,
          get-build_tiers (order_by (Option String) db.tiers) rows [] t,
          entries_for-tier_entries t rows p (put_rows-IsKeyed ordered [] tt),
          get-put_rows ordered [] p keyed,
          order.same (TierMap W) db.tier_models p k.tier_models_keyed,
          order.same (Option String) db.tiers t k.tiers_keyed,
        )
