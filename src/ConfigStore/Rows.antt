-- ===== src/ConfigStore/Rows.antt =====
-- The rows of a table put into a dictionary and read as tiers, in gateway/config_store.py.
use librouter.Prelude.{◌≡◌, refl, String, Option, none, some, [], ◌∷◌, arith, string_eq}
use librouter.Prelude.Dict.{Dict, get, put, get-put, IsKeyed, put-IsKeyed}
use librouter.Models.{TierConfig}
use librouter.Db.{Database, upsert_tier, upsert_tier_models}
use librouter.ConfigStore.{
  TierMap, put_rows, tier_entries, build_tiers, write_tiers, write_tier_models,
}
use librouter.ConfigStore.Tables.{or_before, row_entry, entries_for, listed}

module _ {V : Type 0} where
  pub get-put_rows :
      (rows out : Dict String V) (k : String)
      → IsKeyed rows
      → get (put_rows rows out) k ≡ or_before (get rows k) (get out k)
  unfolding put_rows get
  get-put_rows [] out k h = refl
  get-put_rows ((j, v) ∷ rows) out k h =
      ground (
        arith,
        get-put_rows rows (put j v out) k h.1,
        get-put j k v out,
        h.0,
        string_eq.beq_iff j k,
      )

  pub put_rows-IsKeyed : (rows out : Dict String V) → IsKeyed out → IsKeyed (put_rows rows out)
  unfolding put_rows
  put_rows-IsKeyed [] out h = h
  put_rows-IsKeyed ((j, v) ∷ rows) out h =
      put_rows-IsKeyed rows (put j v out) (put-IsKeyed j v out h)

module _ {W : Type 0} where
  -- Without a row, a provider has no candidate.
  entries_for-tier_entries-none :
      (t : String) (rows : Dict String (TierMap W)) (p : String)
      → get rows p ≡ none
      → entries_for p (tier_entries t rows) ≡ []
  unfolding tier_entries get
  entries_for-tier_entries-none t [] p h = refl
  entries_for-tier_entries-none t ((q, m) ∷ rows) p h =
      ground (arith, entries_for-tier_entries-none t rows p)

  -- A provider's candidates of a tier are what its row has.
  pub entries_for-tier_entries :
      (t : String) (rows : Dict String (TierMap W)) (p : String)
      → IsKeyed rows
      → entries_for p (tier_entries t rows) ≡ listed p (row_entry rows p t)
  unfolding tier_entries get
  entries_for-tier_entries t [] p h = refl
  entries_for-tier_entries t ((q, m) ∷ rows) p h = ground (
    arith,
    entries_for-tier_entries t rows p h.1,
    entries_for-tier_entries-none t rows p,
    h.0,
    string_eq.beq_iff q p,
  )

  pub get-build_tiers :
      (rows : Dict String (Option String)) (pm : Dict String (TierMap W))
      (out : Dict String (TierConfig W)) (t : String)
      → get (build_tiers rows pm out) t ≡ (elim (get rows t) [
        | none ↦ get out t
        | some _ ↦ some (record { candidates = tier_entries t pm })
      ])
  unfolding build_tiers get
  get-build_tiers [] pm out t = refl
  get-build_tiers ((s, f) ∷ rows) pm out t = ground (
    arith,
    get-build_tiers rows pm (put s (record { candidates = tier_entries s pm }) out) t,
    get-put s t (record { candidates = tier_entries s pm }) out,
    string_eq.beq_iff s t,
  )

  -- The two loops of `write_to_db` on the tables.
  pub tier_models-write_tiers :
      (tiers : Dict String (TierConfig W)) (pm : Dict String (TierMap W)) (db : Database W)
      → (write_tiers tiers pm db).1.tier_models ≡ db.tier_models
  unfolding write_tiers upsert_tier
  tier_models-write_tiers [] pm db = refl
  tier_models-write_tiers ((t, tc) ∷ ts) pm db = tier_models-write_tiers ts _ _

  pub tier_models-write_tier_models :
      (pm : Dict String (TierMap W)) (db : Database W)
      → (write_tier_models pm db).tier_models ≡ put_rows pm db.tier_models
  unfolding write_tier_models put_rows upsert_tier_models
  tier_models-write_tier_models [] db = refl
  tier_models-write_tier_models ((p, m) ∷ pm) db =
      tier_models-write_tier_models pm (upsert_tier_models p m db)

  pub tiers-write_tier_models :
      (pm : Dict String (TierMap W)) (db : Database W) → (write_tier_models pm db).tiers ≡ db.tiers
  unfolding write_tier_models upsert_tier_models
  tiers-write_tier_models [] db = refl
  tiers-write_tier_models ((p, m) ∷ pm) db = tiers-write_tier_models pm (upsert_tier_models p m db)
