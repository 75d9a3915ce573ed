-- ===== src/Scripts/Seeded.antt =====
-- What scripts/seed_config.py leaves, and what the gateway loads of it.
use mathlib.Core.Path.{subst}
use mathlib.Core.Option.{some-injective}
use librouter.Prelude.{
  ◌≡◌, refl, ◌⊎◌, inl, inr, sym, ◌∙◌, String, Bool, true, false, Option, none, some, [], ◌∷◌, arith,
  if◌then◌else◌, Bool-cases, Option-cases, string_eq,
}
use librouter.Prelude.Dict.{Dict, IsKeyed}
use librouter.Prelude.Float.{Float}
use librouter.Models.{Config}
use librouter.Models.Valid.{is_valid_config}
use librouter.Db.{Database}
use librouter.Db.Pool.{Handle, Files, connect, close, sort_files, apply_files, run_migrations}
use librouter.ConfigStore.{
  WriteEnd, completed, broken_off, not_deleted, try_write, write, write_to_db, load_from_db,
}
use librouter.ConfigStore.Written.{IsOrderBy, IsTables, IsStored}
use librouter.ConfigStore.RoundTrip.{load_from_db-write_to_db, loaded-valid}
use librouter.ConfigStore.Valid.{IsValidTables}
use librouter.Scripts.{ScriptRun}
use librouter.Scripts.SeedConfig.{validated, seed_from_yaml, after_migrations, seed_config}

module _ {D : Type 0} (execute : String → D → Option D)
    (same_rows : (sql : String) (d e : D) → execute sql d ≡ some e → e ≡ d) where
  apply_files-same : (files : Files) (d e : D) → apply_files execute files d ≡ some e → e ≡ d
  unfolding apply_files
  apply_files-same [] d e h = ground arith
  apply_files-same ((name, none) ∷ files) d e h = cc
  apply_files-same ((name, some sql) ∷ files) d e h = elim (Option-cases (execute sql d)) [
    | inl fails ↦ absurd (ground arith)
    | inr (d', runs) ↦ apply_files-same files d' e (ground arith) ∙ same_rows sql d d' runs
  ]

  run_migrations-same :
      (le : String → String → Bool) (directory : Option Files) (handle : Handle) (d : D)
      → (run_migrations execute le directory handle d).0 ≡ d
  unfolding run_migrations
  run_migrations-same le none handle d = refl
  run_migrations-same le (some []) handle d = refl
  run_migrations-same le (some (f ∷ files)) handle d =
      elim (Option-cases (apply_files execute (sort_files le (f ∷ files)) d)) [
        | inl fails ↦ ground arith
        | inr (e, runs) ↦ ground (arith, apply_files-same (sort_files le (f ∷ files)) d e runs)
      ]

module _ {W : Type 0} ⦃d : Float W⦄ (shape : String → Option (Config W))
    (le : String → String → Bool) (execute : String → Database W → Option (Database W)) where
  abbrev opened : Handle
  opened = record { pool = true }

  -- Why the script exits with 1.
  abbrev pub Refusal : Option String → Bool → Option Files → Bool → Database W → Type 0
  Refusal file created directory loaded db =
      (file ≡ none)
      ⊎ ((created ≡ false)
          ⊎ (((run_migrations execute le directory opened db).1 ≡ false)
              ⊎ ((loaded ≡ false)
                  ⊎ ((raw : String) × (file ≡ some raw)
                      × ((cfg : Config W) → shape raw ≡ some cfg → is_valid_config cfg ≡ false)))))

  -- What is in the database after a configuration was seeded: it has been checked, and the next
  -- load finds its routing and its tiers in a valid configuration.
  abbrev pub Seeds :
      ((V : Type 0) → Dict String V → Dict String V)
      → Option String
      → Database W
      → {P : Type 0} → Database W × Option P
      → Type 0
  Seeds order_by file db (db', cache') =
      (raw : String) × (cfg : Config W) × (file ≡ some raw)
      × (shape raw ≡ some cfg)
      × (is_valid_config cfg ≡ true)
      × (cache' ≡ none)
      × ((c : Config W) × (load_from_db order_by db' ≡ some c)
          × (is_valid_config c ≡ true)
          × IsStored cfg db c)

  -- What a write that was broken off leaves: the configuration was checked, and the payload stays.
  abbrev pub BreaksOff :
      Option String
      → WriteEnd W
      → Database W
      → {P : Type 0} → Option P
      → Database W × Option P
      → Type 0
  BreaksOff file end db cache left =
      (raw : String) × (cfg : Config W) × (file ≡ some raw)
      × (shape raw ≡ some cfg)
      × (is_valid_config cfg ≡ true)
      × (((d : Database W) × (end ≡ broken_off d) × (left ≡ (d, cache)))
          ⊎ ((end ≡ not_deleted) × (left ≡ (write_to_db cfg db, cache))))

  -- What the script leaves, in each case.
  abbrev pub Seeding :
      ((V : Type 0) → Dict String V → Dict String V)
      → Option String
      → Bool
      → Option Files
      → Bool
      → WriteEnd W
      → Database W
      → {P : Type 0} → Option P
      → ScriptRun (Database W × Option P)
      → Type 0
  Seeding order_by file created directory loaded end db cache run =
      (run.handle.pool ≡ false)
      × (((run.exit_code ≡ 0) × (end ≡ completed) × Seeds order_by file db run.database)
          ⊎ (((run.exit_code ≡ 1)
                × (run.database ≡ (db, cache))
                × Refusal file created directory loaded db)
              ⊎ ((run.exit_code ≡ 1) × BreaksOff file end db cache run.database)))

  validated-cases :
      (raw : String)
      → ((cfg : Config W) × (validated shape raw ≡ some cfg)
          × (shape raw ≡ some cfg)
          × (is_valid_config cfg ≡ true))
        ⊎ ((validated shape raw ≡ none)
            × ((cfg : Config W) → shape raw ≡ some cfg → is_valid_config cfg ≡ false))
  unfolding validated
  validated-cases raw = elim (Option-cases (shape raw)) [
    | inl none_read ↦ inr (rw (none_read, validated) refl, λ cfg h. absurd (ground arith))
    | inr (cfg, reads) ↦ elim (Bool-cases (is_valid_config cfg)) [
      | inl valid ↦ inl (cfg, rw (reads, validated, valid) refl, reads, valid)
      | inr invalid ↦ inr (
        rw (reads, validated, invalid) refl,
        λ c h.
            let same : cfg ≡ c = some-injective cfg c (sym reads ∙ h) in
            subst (λ x. is_valid_config x ≡ false) same invalid,
      )
    ]
  ]

  module _ (order_by : (V : Type 0) → Dict String V → Dict String V) (order : IsOrderBy order_by)
      (same_rows : (sql : String) (db e : Database W) → execute sql db ≡ some e → e ≡ db)
      (keyed : (raw : String) (cfg : Config W) → shape raw ≡ some cfg → IsKeyed cfg.tiers) where
    -- A configuration that was checked is in the database, and is loaded again.
    written-Seeds :
        {P : Type 0} (raw : String) (cfg : Config W) (db : Database W) (cache : Option P)
        → shape raw ≡ some cfg
        → is_valid_config cfg ≡ true
        → IsTables db
        → IsValidTables db
        → Seeds order_by (some raw) db (write cfg db cache)
    unfolding write
    written-Seeds raw cfg db cache reads valid tables rows =
        let (c, loads, stored) =
          load_from_db-write_to_db order_by order cfg db (keyed raw cfg reads) valid tables
            rows.models in
        (
          raw,
          cfg,
          refl,
          reads,
          valid,
          refl,
          (c, loads, loaded-valid order_by order (write_to_db cfg db) c loads, stored),
        )

    after_migrations-Seeding :
        {P : Type 0} (raw : String) (created : Bool) (directory : Option Files) (loaded : Bool)
        (end : WriteEnd W) (db : Database W) (cache : Option P) (m : Database W × Bool)
        → m.0 ≡ db
        → (run_migrations execute le directory opened db).1 ≡ m.1
        → IsTables db
        → IsValidTables db
        → Seeding order_by
            (some raw)
            created
            directory
            loaded
            end
            db
            cache
            (after_migrations shape raw loaded end opened cache m)
    unfolding after_migrations close seed_from_yaml try_write
    after_migrations-Seeding raw created directory loaded end db cache (db', false) e f tables
          rows =
        (refl, inr (inl (refl, ground arith, inr (inr (inl f)))))
    after_migrations-Seeding raw created directory false end db cache (db', true) e f tables rows =
        (refl, inr (inl (refl, ground arith, inr (inr (inr (inl refl))))))
    after_migrations-Seeding raw created directory true end db cache (db', true) e f tables rows =
        elim (validated-cases raw) [
          | inl (cfg, accepted, reads, valid) ↦
              rw (accepted, after_migrations, seed_from_yaml) (ending end cfg reads valid)
          | inr (refused, invalid) ↦
              rw (refused, after_migrations, seed_from_yaml)
                (refl, inr (inl (refl, ground arith, inr (inr (inr (inr (raw, refl, invalid)))))))
        ]
      where
        ending :
            (end : WriteEnd W) (cfg : Config W)
            → shape raw ≡ some cfg
            → is_valid_config cfg ≡ true
            → Seeding order_by (some raw) created directory true end db cache (record {
              exit_code = if (try_write end cfg db' cache).1 then 0 else 1;
              database = (try_write end cfg db' cache).0;
              handle = close opened;
            })
        ending completed cfg reads valid =
            (refl, inl (refl, refl, rw e (written-Seeds raw cfg db cache reads valid tables rows)))
        ending (broken_off left) cfg reads valid =
            (refl, inr (inr (refl, (raw, cfg, refl, reads, valid, inl (left, refl, refl)))))
        ending not_deleted cfg reads valid =
            (refl, inr (inr (refl, (raw, cfg, refl, reads, valid, inr (refl, rw e refl)))))

    pub seed_config-Seeding :
        {P : Type 0} (file : Option String) (created : Bool) (directory : Option Files)
        (loaded : Bool) (end : WriteEnd W) (db : Database W) (cache : Option P)
        → IsTables db
        → IsValidTables db
        → Seeding order_by file created directory loaded end db cache
            (seed_config shape le execute file created directory loaded end db cache)
    unfolding seed_config connect
    seed_config-Seeding none created directory loaded end db cache tables rows =
        (refl, inr (inl (refl, refl, inl refl)))
    seed_config-Seeding (some raw) false directory loaded end db cache tables rows =
        (refl, inr (inl (refl, refl, inr (inl refl))))
    seed_config-Seeding (some raw) true directory loaded end db cache tables rows =
        after_migrations-Seeding raw true directory loaded end db cache _
          (run_migrations-same execute same_rows le directory opened db) refl tables rows
