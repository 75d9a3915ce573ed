-- ===== src/ConfigStore/Tables.antt =====
-- What the loops of gateway/config_store.py leave in a dictionary, read back by a provider and a
-- tier.
use librouter.Prelude.{
  ◌≡◌, refl, String, Bool, true, false, ◌&&◌, ◌||◌, Option, none, some, List, [], ◌∷◌, arith,
  string_eq, ◌==◌, if◌then◌else◌,
}
use librouter.Prelude.Dict.{Dict, get, put, get-put, IsKeyed, put-IsKeyed}
use librouter.Models.{TierConfig, TierEntry}
use librouter.Db.{Database, ModelEntry, upsert_tier}
use librouter.ConfigStore.{
  TierMap, tier_entry_of, stored_of, or_empty, add_entry, add_entries, write_tiers,
}

abbrev pub or_before : {A : Type 0} → Option A → Option A → Option A
or_before none before = before
or_before (some a) before = some a

abbrev pub is_some : {A : Type 0} → Option A → Bool
is_some none = false
is_some (some a) = true

module _ {W : Type 0} where
  -- The entry of a tier in a provider's row.
  abbrev pub row_entry : Dict String (TierMap W) → String → String → Option (ModelEntry W)
  row_entry rows provider tier_name = get (or_empty (get rows provider)) tier_name

  -- The last entry of a provider among the candidates of a tier, and whether there is one.
  abbrev pub last_entry : String → List (TierEntry W) → Option (ModelEntry W)
  last_entry provider [] = none
  last_entry provider (c ∷ cs) =
      or_before (last_entry provider cs)
        (if c.provider == provider then some (stored_of c) else none)

  abbrev pub names : String → List (TierEntry W) → Bool
  names provider [] = false
  names provider (c ∷ cs) = c.provider == provider || names provider cs

  abbrev pub mentions : String → Dict String (TierConfig W) → Bool
  mentions provider [] = false
  mentions provider ((_, tier_cfg) ∷ tiers) =
      names provider tier_cfg.candidates || mentions provider tiers

  -- The candidates of a provider, in their order.
  abbrev pub entries_for : String → List (TierEntry W) → List (TierEntry W)
  entries_for provider [] = []
  entries_for provider (c ∷ cs) =
      let rest = entries_for provider cs in if c.provider == provider then c ∷ rest else rest

  abbrev pub listed : String → Option (ModelEntry W) → List (TierEntry W)
  listed provider none = []
  listed provider (some e) = tier_entry_of provider e ∷ []

  row_entry-add_entry :
      (t : String) (c : TierEntry W) (pm : Dict String (TierMap W)) (p s : String)
      → row_entry (add_entry t c pm) p s
        ≡ (if c.provider == p && t == s then some (stored_of c) else row_entry pm p s)
  unfolding add_entry
  row_entry-add_entry t c pm p s = ground (
    arith,
    get-put c.provider p (put t (stored_of c) (or_empty (get pm c.provider))) pm,
    get-put t s (stored_of c) (or_empty (get pm c.provider)),
    string_eq.beq_iff c.provider p,
  )

  row_entry-add_entries :
      (t : String) (cs : List (TierEntry W)) (pm : Dict String (TierMap W)) (p s : String)
      → row_entry (add_entries t cs pm) p s
        ≡ (if t == s then or_before (last_entry p cs) (row_entry pm p s) else row_entry pm p s)
  unfolding add_entries
  row_entry-add_entries t [] pm p s = ground arith
  row_entry-add_entries t (c ∷ cs) pm p s =
      ground
        (arith, row_entry-add_entries t cs (add_entry t c pm) p s, row_entry-add_entry t c pm p s)

  is_some-add_entry :
      (t : String) (c : TierEntry W) (pm : Dict String (TierMap W)) (p : String)
      → is_some (get (add_entry t c pm) p) ≡ (c.provider == p || is_some (get pm p))
  unfolding add_entry
  is_some-add_entry t c pm p =
      ground (arith, get-put c.provider p (put t (stored_of c) (or_empty (get pm c.provider))) pm)

  is_some-add_entries :
      (t : String) (cs : List (TierEntry W)) (pm : Dict String (TierMap W)) (p : String)
      → is_some (get (add_entries t cs pm) p) ≡ (names p cs || is_some (get pm p))
  unfolding add_entries
  is_some-add_entries t [] pm p = refl
  is_some-add_entries t (c ∷ cs) pm p =
      ground (arith, is_some-add_entries t cs (add_entry t c pm) p, is_some-add_entry t c pm p)

  add_entries-IsKeyed :
      (t : String) (cs : List (TierEntry W)) (pm : Dict String (TierMap W))
      → IsKeyed pm
      → IsKeyed (add_entries t cs pm)
  unfolding add_entries add_entry
  add_entries-IsKeyed t [] pm h = h
  add_entries-IsKeyed t (c ∷ cs) pm h =
      add_entries-IsKeyed t cs (add_entry t c pm) (put-IsKeyed c.provider _ pm h)

  -- The rows that `write_tiers` collects, and the names that it writes.
  pub write_tiers-IsKeyed :
      (tiers : Dict String (TierConfig W)) (pm : Dict String (TierMap W)) (db : Database W)
      → IsKeyed pm
      → IsKeyed db.tiers
      → IsKeyed ((write_tiers tiers pm db).0) × IsKeyed ((write_tiers tiers pm db).1.tiers)
  unfolding write_tiers upsert_tier
  write_tiers-IsKeyed [] pm db h k = (h, k)
  write_tiers-IsKeyed ((t, tc) ∷ ts) pm db h k =
      write_tiers-IsKeyed ts (add_entries t tc.candidates pm) (upsert_tier t none db)
        (add_entries-IsKeyed t tc.candidates pm h) (put-IsKeyed t none db.tiers k)

  abbrev pub candidates_of : Dict String (TierConfig W) → String → List (TierEntry W)
  candidates_of tiers t = elim (get tiers t) [ none ↦ [] | some tc ↦ tc.candidates ]

  pub row_entry-write_tiers :
      (tiers : Dict String (TierConfig W)) (pm : Dict String (TierMap W)) (db : Database W)
      (p s : String)
      → IsKeyed tiers
      → row_entry ((write_tiers tiers pm db).0) p s
        ≡ or_before (last_entry p (candidates_of tiers s)) (row_entry pm p s)
  unfolding write_tiers get
  row_entry-write_tiers [] pm db p s h = refl
  row_entry-write_tiers ((t, tc) ∷ ts) pm db p s h = ground (
    arith,
    row_entry-write_tiers ts (add_entries t tc.candidates pm) (upsert_tier t none db) p s h.1,
    row_entry-add_entries t tc.candidates pm p s,
    string_eq.beq_iff t s,
    h.0,
  )

  pub is_some-write_tiers :
      (tiers : Dict String (TierConfig W)) (pm : Dict String (TierMap W)) (db : Database W)
      (p : String)
      → is_some (get ((write_tiers tiers pm db).0) p) ≡ (mentions p tiers || is_some (get pm p))
  unfolding write_tiers
  is_some-write_tiers [] pm db p = refl
  is_some-write_tiers ((t, tc) ∷ ts) pm db p = ground (
    arith,
    is_some-write_tiers ts (add_entries t tc.candidates pm) (upsert_tier t none db) p,
    is_some-add_entries t tc.candidates pm p,
  )

  pub tiers-write_tiers :
      (tiers : Dict String (TierConfig W)) (pm : Dict String (TierMap W)) (db : Database W)
      (s : String)
      → is_some (get ((write_tiers tiers pm db).1.tiers) s)
        ≡ (is_some (get tiers s) || is_some (get db.tiers s))
  unfolding write_tiers upsert_tier get
  tiers-write_tiers [] pm db s = refl
  tiers-write_tiers ((t, tc) ∷ ts) pm db s = ground (
    arith,
    tiers-write_tiers ts (add_entries t tc.candidates pm) (upsert_tier t none db) s,
    get-put t s none db.tiers,
  )
