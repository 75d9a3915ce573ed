-- ===== src/ConfigStore/RoundTrip.antt =====
-- A configuration that gateway/config_store.py writes and reads again.
use librouter.Prelude.{
  ◌≡◌, ◌≢◌, if◌then◌else◌, refl, ◌≤◌, String, Bool, true, false, Option, Bool-cases, inl, inr, none,
  some, List, [], ◌∷◌, arith, length, string_eq,
}
use mathlib.Core.Option.{some-injective}
use librouter.Prelude.Dict.{Dict, get, IsKeyed}
use librouter.Prelude.Float.{Float}
use librouter.Models.Valid.{is_valid_config}
use librouter.ConfigStore.Valid.{AreValidRows, load_from_db-rows_config, write_to_db-IsValidTables}
use librouter.Models.{Config, TierConfig, TierEntry}
use librouter.Db.{Database, upsert_routing_config}
use librouter.ConfigStore.{
  write_to_db, rows_config, load_from_db, load_or_refresh, refill_locked, write, cached_config,
  write_to_redis,
}
use librouter.ConfigStore.Tables.{
  is_some, last_entry, names, mentions, entries_for, listed, candidates_of,
}
use librouter.ConfigStore.Written.{
  IsOrderBy, IsTables, IsStored, row_entry-write_to_db, tiers-write_to_db, write_to_db-IsTables,
  is_some-tiers_of, entries_for-tiers_of,
}

module _ {W : Type 0} ⦃d : Float W⦄ where
  -- Two configurations with the same routing and tiers, where each tier has the same entries of
  -- each provider.
  abbrev pub IsSame : Config W → Config W → Type 0
  IsSame cfg c =
      (c.routing ≡ cfg.routing)
      × ((t : String) → is_some (get c.tiers t) ≡ is_some (get cfg.tiers t))
      × ((t p : String)
          → entries_for p (candidates_of c.tiers t) ≡ entries_for p (candidates_of cfg.tiers t))

  none-ne-some : (c : Config W) → none ≢ some c
  none-ne-some c = cc

  names_iff :
      (p : String) (cs : List (TierEntry W))
      → names p cs ≡ false
      → (entries_for p cs ≡ []) × (last_entry p cs ≡ none)
  names_iff p [] h = (refl, refl)
  names_iff p (c ∷ cs) h = ground (arith, names_iff p cs)

  none_of-mentions :
      (p t : String) (tiers : Dict String (TierConfig W))
      → mentions p tiers ≡ false
      → entries_for p (candidates_of tiers t) ≡ []
  unfolding get
  none_of-mentions p t [] h = refl
  none_of-mentions p t ((s, tc) ∷ tiers) h =
      ground (arith, names_iff p tc.candidates, none_of-mentions p t tiers)

  length-entries :
      (p : String) (cs : List (TierEntry W)) → length (entries_for p cs) ≤ 0 → names p cs ≡ false
  length-entries p [] h = refl
  length-entries p (c ∷ cs) h = ground (arith, length-entries p cs)

  listed-last_entry :
      (p : String) (cs : List (TierEntry W))
      → length (entries_for p cs) ≤ 1
      → listed p (last_entry p cs) ≡ entries_for p cs
  listed-last_entry p [] h = refl
  listed-last_entry p (c ∷ cs) h = ground (
    arith,
    listed-last_entry p cs,
    length-entries p cs,
    names_iff p cs,
    string_eq.beq_iff c.provider p,
  )

  -- A configuration over no rows, with at most one entry of a provider in each tier.
  IsStored-IsSame :
      (cfg : Config W) (db : Database W) (c : Config W)
      → ((t p : String) → length (entries_for p (candidates_of cfg.tiers t)) ≤ 1)
      → db.tiers ≡ []
      → db.tier_models ≡ []
      → IsStored cfg db c
      → IsSame cfg c
  unfolding get
  IsStored-IsSame cfg db c single e1 e2 stored = (
    stored.0,
    λ t. ground (arith, stored.1 t),
    λ t p. ground (
      arith,
      stored.1 t,
      stored.2 t p,
      single t p,
      listed-last_entry p (candidates_of cfg.tiers t),
      none_of-mentions p t cfg.tiers,
    ),
  )

  module _ (order_by : (V : Type 0) → Dict String V → Dict String V)
      (order : IsOrderBy order_by) where
    -- For a valid configuration in which no tier name stands twice, and tables whose primary keys
    -- hold, over rows of providers that are valid: when every statement has been taken, the load
    -- raises nothing, and `load_from_db` reads back the routing, the tiers that were written and
    -- those that stood there before, and, for every provider of a tier, its last entry in the
    -- configuration, or, of a provider that the configuration does not mention, the entry of its
    -- old row.
    pub load_from_db-write_to_db :
        (cfg : Config W) (db : Database W)
        → IsKeyed cfg.tiers
        → is_valid_config cfg ≡ true
        → IsTables db
        → AreValidRows db.tier_models
        → (c : Config W) × (load_from_db order_by (write_to_db cfg db) ≡ some c) × IsStored cfg db c
    unfolding rows_config write_to_db upsert_routing_config
    load_from_db-write_to_db cfg db h valid k rows =
        let after : Database W = write_to_db cfg db in
        let tables : IsTables after = write_to_db-IsTables cfg db k in
        (
          _,
          (load_from_db-rows_config order_by after order tables
              (write_to_db-IsValidTables cfg db valid rows) _ refl).0,
          (
            refl,
            λ t. rw (is_some-tiers_of order_by order after t tables) (tiers-write_to_db cfg db t),
            λ t p.
                rw
                  (
                    entries_for-tiers_of order_by order after t p tables,
                    tiers-write_to_db cfg db t,
                    row_entry-write_to_db cfg db p t h k,
                  )
                  refl,
          ),
        )

    -- What the load returns has been checked.
    pub loaded-valid :
        (db : Database W) (c : Config W)
        → load_from_db order_by db ≡ some c
        → is_valid_config c ≡ true
    unfolding load_from_db
    loaded-valid db c e = go (rows_config order_by db) e
      where
        go :
            (o : Option (Config W))
            → (elim o [ none ↦ none | some cfg ↦ if is_valid_config cfg then some cfg else none ])
              ≡ some c
            → is_valid_config c ≡ true
        go none h = cc
        go (some built) h = elim (Bool-cases (is_valid_config built)) [
          | inl valid ↦ rw (← some-injective built c (rw valid at h)) valid
          | inr invalid ↦ elim (none-ne-some c (rw invalid at h)) [ ]
        ]

    module _ {P : Type 0} (encode : Config W → P) (decode : P → Option (Config W))
        (decode-encode : (c : Config W)
          → is_valid_config c ≡ true
          → decode (encode c) ≡ some c) where
      -- For a valid configuration with no tier name twice and at most one entry of a provider in
      -- each tier, written to a database without tiers: the next `load_or_refresh`, forced or not,
      -- answers a configuration with the same routing and tiers, and the same entries of each
      -- provider in each tier; it caches that, and each later call that is not forced answers the
      -- same again.
      pub load_or_refresh-write :
          (cfg : Config W) (db : Database W) (cache : Option P) (force : Bool)
          → IsKeyed cfg.tiers
          → is_valid_config cfg ≡ true
          → ((t p : String) → length (entries_for p (candidates_of cfg.tiers t)) ≤ 1)
          → db.tiers ≡ []
          → db.tier_models ≡ []
          → let (db', cache') = write cfg db cache in
            (c : Config W) × (load_or_refresh order_by encode decode force db' cache'
              ≡ (some c, some (encode c)))
            × IsSame cfg c
            × ((later : Database W)
                → load_or_refresh order_by encode decode false later (some (encode c))
                  ≡ (some c, some (encode c)))
      unfolding load_or_refresh refill_locked cached_config write_to_redis write
      load_or_refresh-write cfg db cache force h valid single e1 e2 =
          let tables : IsTables db = record {
            tiers_keyed = rw e1 tt;
            tier_models_keyed = rw e2 tt;
          } in
          let read = load_from_db-write_to_db cfg db h valid tables (rw e2 tt) in
          (
            read.0,
            ground (arith, read.1),
            IsStored-IsSame cfg db (read.0) single e1 e2 (read.2),
            λ later.
                rw
                  (
                    load_or_refresh,
                    cached_config,
                    decode-encode (read.0) (loaded-valid (write_to_db cfg db) (read.0) (read.1)),
                  )
                  refl,
          )
