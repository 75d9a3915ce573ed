-- ===== src/ConfigStore/Valid.antt =====
-- Configurations that pass pydantic's checks (gateway/models.py), in the tables of
-- gateway/config_store.py: the objects that `load_from_db` builds of rows from valid configurations
-- are valid again.
use librouter.Prelude.{
  ◌≡◌, refl, sym, ◌∙◌, String, Bool, true, ◌&&◌, Option, none, some, List, [], ◌∷◌, arith,
  string_eq, All, Option-cases, inl, inr,
}
use librouter.Prelude.Dict.{
  Dict, get, put, AllValues, put-AllValues, get-AllValues, get-of_AllValues,
}
use librouter.Prelude.Float.{Float, nought}
use librouter.Models.{Config, TierConfig, TierEntry}
use librouter.Models.Valid.{
  rate_limits_ok, entry_ok, candidates_ok, tiers_ok, routing_ok, is_valid_config,
}
use librouter.Db.{Database, ModelEntry, upsert_routing_config, upsert_tier}
use librouter.ConfigStore.{
  TierMap, or_empty, stored_of, put_rows, tier_entries, build_tiers, add_entry, add_entries,
  write_tiers, write_to_db, rows_config, load_from_db,
}
use librouter.ConfigStore.Rows.{tier_models-write_tiers, tier_models-write_tier_models}
use librouter.ConfigStore.Written.{IsOrderBy, IsTables, tiers_of, write_to_db-IsTables}

and_parts : (a b : Bool) → (a && b) ≡ true → (a ≡ true) × (b ≡ true)
and_parts a b h = (ground arith, ground arith)

module _ {W : Type 0} ⦃d : Float W⦄ where
  abbrev pub IsValidEntry : ModelEntry W → Type 0
  IsValidEntry e = (d.le nought e.weight && rate_limits_ok e.rate_limits) ≡ true

  abbrev pub AreValidRows : Dict String (TierMap W) → Type 0
  AreValidRows = AllValues (AllValues IsValidEntry)

  -- The rows that the constructors of `load_from_db` accept.
  pub record IsValidTables (db : Database W) : Type 0 where
    pub models : AreValidRows db.tier_models
    pub routing : elim db.routing_config [ none ↦ true | some r ↦ routing_ok r ] ≡ true

  put_rows-AreValidRows :
      (rows out : Dict String (TierMap W))
      → AreValidRows rows
      → AreValidRows out
      → AreValidRows (put_rows rows out)
  unfolding put_rows
  put_rows-AreValidRows [] out h k = k
  put_rows-AreValidRows ((p, m) ∷ rows) out h k =
      put_rows-AreValidRows rows (put p m out) h.1
        (put-AllValues (AllValues IsValidEntry) p m out k h.0)

  candidates_ok-tier_entries :
      (t : String) (rows : Dict String (TierMap W))
      → AreValidRows rows
      → candidates_ok (tier_entries t rows) ≡ true
  unfolding tier_entries
  candidates_ok-tier_entries t [] h = refl
  candidates_ok-tier_entries t ((p, m) ∷ rows) h = elim (Option-cases (get m t)) [
    | inl absent ↦ ground (arith, candidates_ok-tier_entries t rows h.1)
    | inr (e, there) ↦
        let valid = get-AllValues IsValidEntry t e m h.0 there in
        ground (arith, valid, candidates_ok-tier_entries t rows h.1)
  ]

  tiers_ok-put :
      (t : String) (tier : TierConfig W) (tiers : Dict String (TierConfig W))
      → candidates_ok tier.candidates ≡ true
      → tiers_ok tiers ≡ true
      → tiers_ok (put t tier tiers) ≡ true
  unfolding put
  tiers_ok-put t tier [] h k = ground arith
  tiers_ok-put t tier ((s, old) ∷ tiers) h k = ground (arith, tiers_ok-put t tier tiers h)

  tiers_ok-build_tiers :
      (names : Dict String (Option String)) (rows : Dict String (TierMap W))
      (out : Dict String (TierConfig W))
      → AreValidRows rows
      → tiers_ok out ≡ true
      → tiers_ok (build_tiers names rows out) ≡ true
  unfolding build_tiers
  tiers_ok-build_tiers [] rows out h k = k
  tiers_ok-build_tiers ((t, _) ∷ names) rows out h k =
      tiers_ok-build_tiers names rows _ h
        (tiers_ok-put t _ out (candidates_ok-tier_entries t rows h) k)

  add_entry-AreValidRows :
      (t : String) (c : TierEntry W) (rows : Dict String (TierMap W))
      → entry_ok c ≡ true
      → AreValidRows rows
      → AreValidRows (add_entry t c rows)
  unfolding add_entry
  add_entry-AreValidRows t c rows h k =
      put-AllValues (AllValues IsValidEntry) c.provider _ rows k (
        put-AllValues IsValidEntry t (stored_of c) _ (or_empty-valid (get rows c.provider) there) h)
    where
      there : (m : TierMap W) → get rows c.provider ≡ some m → AllValues IsValidEntry m
      there m e = get-AllValues (AllValues IsValidEntry) c.provider m rows k e

      or_empty-valid :
          (o : Option (TierMap W))
          → ((m : TierMap W) → o ≡ some m → AllValues IsValidEntry m)
          → AllValues IsValidEntry (or_empty o)
      or_empty-valid none f = tt
      or_empty-valid (some m) f = f m refl

  add_entries-AreValidRows :
      (t : String) (cs : List (TierEntry W)) (rows : Dict String (TierMap W))
      → candidates_ok cs ≡ true
      → AreValidRows rows
      → AreValidRows (add_entries t cs rows)
  unfolding add_entries
  add_entries-AreValidRows t [] rows h k = k
  add_entries-AreValidRows t (c ∷ cs) rows h k =
      let (first, rest) = and_parts _ _ h in
      add_entries-AreValidRows t cs (add_entry t c rows) rest
        (add_entry-AreValidRows t c rows first k)

  write_tiers-AreValidRows :
      (tiers : Dict String (TierConfig W)) (rows : Dict String (TierMap W)) (db : Database W)
      → tiers_ok tiers ≡ true
      → AreValidRows rows
      → AreValidRows (write_tiers tiers rows db).0
  unfolding write_tiers
  write_tiers-AreValidRows [] rows db h k = k
  write_tiers-AreValidRows ((t, tier) ∷ tiers) rows db h k =
      let (first, rest) = and_parts _ _ h in
      write_tiers-AreValidRows tiers (add_entries t tier.candidates rows) (upsert_tier t none db)
        rest (add_entries-AreValidRows t tier.candidates rows first k)

  -- A valid configuration leaves valid rows, whatever valid rows stood there before.
  pub write_to_db-IsValidTables :
      (cfg : Config W) (db : Database W)
      → is_valid_config cfg ≡ true
      → AreValidRows db.tier_models
      → IsValidTables (write_to_db cfg db)
  unfolding write_to_db upsert_routing_config is_valid_config
  write_to_db-IsValidTables cfg db h k =
      let written = write_tiers cfg.tiers [] db in
      let (tiers, others) = and_parts _ _ h in
      record {
        models =
            rw
              (
                tier_models-write_tier_models (written.0) (written.1),
                tier_models-write_tiers cfg.tiers [] db,
              )
              (put_rows-AreValidRows (written.0) db.tier_models
                (write_tiers-AreValidRows cfg.tiers [] db tiers tt) k);
        routing = (and_parts _ _ others).0;
      }

  -- What is read of valid rows is valid.
  rows_config-valid :
      (order_by : (V : Type 0) → Dict String V → Dict String V) (db : Database W)
      → IsOrderBy order_by
      → IsTables db
      → IsValidTables db
      → (c : Config W) → rows_config order_by db ≡ some c
      → is_valid_config c ≡ true
  unfolding rows_config is_valid_config
  rows_config-valid order_by db order tables k c e =
      let ordered : Dict String (TierMap W) = order_by (TierMap W) db.tier_models in
      let valid_rows : AreValidRows ordered =
        get-of_AllValues (AllValues IsValidEntry) ordered
          (order.keyed (TierMap W) db.tier_models tables.tier_models_keyed)
          (λ p m g.
            get-AllValues (AllValues IsValidEntry) p m db.tier_models k.models
              (sym (order.same (TierMap W) db.tier_models p tables.tier_models_keyed) ∙ g)) in
      let valid_tiers : tiers_ok (tiers_of order_by order db) ≡ true =
        tiers_ok-build_tiers (order_by (Option String) db.tiers) (put_rows ordered []) []
          (put_rows-AreValidRows ordered [] valid_rows tt) refl in
      elim (Option-cases db.routing_config) [
        | inl empty ↦ ground arith
        | inr (r, there) ↦ ground (arith, valid_tiers, k.routing)
      ]

  -- So that the load finds what was built.
  pub load_from_db-rows_config :
      (order_by : (V : Type 0) → Dict String V → Dict String V) (db : Database W)
      → IsOrderBy order_by
      → IsTables db
      → IsValidTables db
      → (c : Config W) → rows_config order_by db ≡ some c
      → (load_from_db order_by db ≡ some c) × (is_valid_config c ≡ true)
  unfolding load_from_db
  load_from_db-rows_config order_by db order tables k c e =
      let valid = rows_config-valid order_by db order tables k c e in
      (rw (load_from_db, e, valid) refl, valid)

  -- Configurations written one after the other.
  abbrev pub write_all : List (Config W) → Database W → Database W
  write_all [] db = db
  write_all (cfg ∷ cfgs) db = write_all cfgs (write_to_db cfg db)

  -- Over tables whose primary keys hold and whose rows are valid, as empty ones are: after one or
  -- more valid configurations were written, one after the other, the load finds a configuration,
  -- and it is valid, so that no constructor in `load_from_db` raises.
  pub load_from_db-write_all :
      (order_by : (V : Type 0) → Dict String V → Dict String V) (cfg : Config W)
      (cfgs : List (Config W)) (db : Database W)
      → IsOrderBy order_by
      → All (λ c. is_valid_config c ≡ true) (cfg ∷ cfgs)
      → IsTables db
      → IsValidTables db
      → (c : Config W) × (load_from_db order_by (write_all (cfg ∷ cfgs) db) ≡ some c)
        × (is_valid_config c ≡ true)
  load_from_db-write_all order_by cfg [] db order h tables k =
      let after : Database W = write_to_db cfg db in
      let (c, read) = found in
      let (loads, valid) =
        load_from_db-rows_config order_by after order (write_to_db-IsTables cfg db tables)
          (write_to_db-IsValidTables cfg db h.0 k.models) c read in
      (c, loads, valid)
    where
      found : (c : Config W) × (rows_config order_by (write_to_db cfg db) ≡ some c)
      found = unfold rows_config write_to_db upsert_routing_config in (_, refl)
  load_from_db-write_all order_by cfg (next ∷ cfgs) db order h tables k =
      load_from_db-write_all order_by next cfgs (write_to_db cfg db) order h.1
        (write_to_db-IsTables cfg db tables) (write_to_db-IsValidTables cfg db h.0 k.models)
