-- ===== src/Scripts/Login.antt =====
-- What scripts/seed_callers.py leaves in the database, and the requests of the callers that it
-- seeds.
use Prim.Native.String.{◌++◌ as str_append}
use librouter.Prelude.{
  ◌≡◌, refl, sym, ap, ◌∙◌, String, true, false, Option, none, some, List, [], ◌∷◌, arith, string_eq,
  ◌==◌, if◌then◌else◌, Option-cases, inl, inr, beq_refl, Bool-cases,
}
use librouter.Prelude.Dict.{Dict, get, get-put, put-IsKeyed, IsKeyed}
use librouter.Prelude.Float.{Float}
use librouter.Models.{Caller}
use librouter.Models.Valid.{caller_name_ok}
use librouter.Db.{
  Database, CallerRow, find_caller, caller_by_key_hash, caller_row_raises, upsert_caller,
}
use librouter.Auth.{CallerResolver, bearer_token, hash_api_key, enabled_only, resolve_bearer}
use librouter.Auth.Bearer.{IsCoherent, caller_of, resolve_bearer-IsCoherent}
use librouter.Scripts.SeedCallers.{SeedEntry, env_key_name, enabled_of, seed_from_json}

abbrev pub caller_of_row : String → CallerRow → Caller
caller_of_row name row = record {
  name = name;
  daily_token_cap = row.daily_token_cap;
  enabled = row.enabled;
}

-- The only row with a hash is the one that is found by it.
find_caller_only :
    (key_hash name : String) (row : CallerRow) (rows : Dict String CallerRow)
    → IsKeyed rows
    → get rows name ≡ some row
    → row.key_hash ≡ key_hash
    → ((n : String) (r : CallerRow) → get rows n ≡ some r → r.key_hash ≡ key_hash → n ≡ name)
    → find_caller key_hash rows ≡ some (caller_of_row name row)
unfolding find_caller get
find_caller_only key_hash name row [] k e h only = absurd (ground arith)
find_caller_only key_hash name row ((n, r) ∷ rows) k e h only =
    let here = only n r (rw (beq_refl n) refl) in
    let further : (m : String) (q : CallerRow)
        → get rows m ≡ some q
        → q.key_hash ≡ key_hash
        → m ≡ name =
      λ m q g. only m q (ground (arith, k.0, g, string_eq.beq_iff n m)) in
    elim (Bool-cases (n == name)) [
      | inl same ↦ ground (arith, string_eq.beq_iff r.key_hash key_hash, string_eq.beq_iff n name)
      | inr other ↦ ground (
        arith,
        here,
        string_eq.beq_iff r.key_hash key_hash,
        string_eq.beq_iff n name,
        find_caller_only key_hash name row rows k.1 (rw other at e) h further,
      )
    ]

module _ (upper : String → String) (hmac_sha256 : String → String → String)
    (environ : Dict String String) (pepper : String) where
  abbrev pub hash_of : String → String
  hash_of plaintext = str_append "v2:hmac-sha256:" (hmac_sha256 pepper plaintext)

  -- The row that an entry stands for, if its key is in the environment.
  abbrev pub row_of : SeedEntry → Option CallerRow
  row_of entry = elim (get environ (env_key_name upper entry.name)) [
    | none ↦ none
    | some plaintext ↦ some (record {
      key_hash = hash_of plaintext;
      daily_token_cap = entry.daily_token_cap;
      enabled = enabled_of entry;
    })
  ]

  -- The row of the last entry of a name that has a key.
  abbrev pub seeded_row : List SeedEntry → String → Option CallerRow
  seeded_row [] name = none
  seeded_row (entry ∷ entries) name = elim (seeded_row entries name) [
    | some row ↦ some row
    | none ↦ if entry.name == name then row_of entry else none
  ]

  abbrev pub row_after : {W : Type 0} → List SeedEntry → Database W → String → Option CallerRow
  row_after entries db name = elim (seeded_row entries name) [
    | some row ↦ some row
    | none ↦ get db.callers name
  ]

  -- What the loop leaves: the rows, and the other tables as they were.
  pub record IsSeeded {W : Type 0} (entries : List SeedEntry) (db : Database W) (after : Database W)
      : Type 0 where
    pub rows : (name : String) → get after.callers name ≡ row_after entries db name
    pub keyed : IsKeyed after.callers
    pub same_requests : after.requests ≡ db.requests
    pub same_tiers : after.tiers ≡ db.tiers
    pub same_models : after.tier_models ≡ db.tier_models
    pub same_routing : after.routing_config ≡ db.routing_config

  module _ {W : Type 0} (entry : SeedEntry) (entries : List SeedEntry) (db : Database W) where
    seed_skips :
        get environ (env_key_name upper entry.name) ≡ none
        → seed_from_json upper hmac_sha256 environ pepper (entry ∷ entries) db
          ≡ seed_from_json upper hmac_sha256 environ pepper entries db
    unfolding seed_from_json
    seed_skips h = rw (h, seed_from_json) refl

    abbrev seeded : String → Database W
    seeded key = upsert_caller entry.name (hash_of key) entry.daily_token_cap (enabled_of entry) db

    seed_upserts :
        (key : String)
        → get environ (env_key_name upper entry.name) ≡ some key
        → (pepper == "") ≡ false
        → seed_from_json upper hmac_sha256 environ pepper (entry ∷ entries) db
          ≡ seed_from_json upper hmac_sha256 environ pepper entries (seeded key)
    unfolding seed_from_json hash_api_key
    seed_upserts key h p = rw (h, p, seed_from_json) refl

    IsSeeded-skip :
        (after : Database W)
        → get environ (env_key_name upper entry.name) ≡ none
        → IsSeeded entries db after
        → IsSeeded (entry ∷ entries) db after
    IsSeeded-skip after h s = record {
      rows = λ name. ground (arith, s.rows name, h);
      keyed = s.keyed;
      same_requests = s.same_requests;
      same_tiers = s.same_tiers;
      same_models = s.same_models;
      same_routing = s.same_routing;
    }

    IsSeeded-upsert :
        (key : String) (after : Database W)
        → get environ (env_key_name upper entry.name) ≡ some key
        → IsSeeded entries (seeded key) after
        → IsSeeded (entry ∷ entries) db after
    unfolding upsert_caller
    IsSeeded-upsert key after h s = record {
      rows =
          λ name. ground (arith, s.rows name, h, get-put entry.name name (row_with key) db.callers);
      keyed = s.keyed;
      same_requests = s.same_requests;
      same_tiers = s.same_tiers;
      same_models = s.same_models;
      same_routing = s.same_routing;
    }
      where
        row_with : String → CallerRow
        row_with k = record {
          key_hash = hash_of k;
          daily_token_cap = entry.daily_token_cap;
          enabled = enabled_of entry;
        }

  -- With a pepper, and whatever the order and the repetitions of the entries, the loop comes to its
  -- end; a name has the row of its last entry whose key is in the environment, or the row that it
  -- had, and the other tables stay.
  pub seed_from_json-IsSeeded :
      {W : Type 0} (entries : List SeedEntry) (db : Database W)
      → (pepper == "") ≡ false
      → IsKeyed db.callers
      → ((seed_from_json upper hmac_sha256 environ pepper entries db).1 ≡ true)
        × IsSeeded entries db (seed_from_json upper hmac_sha256 environ pepper entries db).0
  unfolding seed_from_json
  seed_from_json-IsSeeded [] db p k = (refl, ground arith)
  seed_from_json-IsSeeded (entry ∷ entries) db p k =
      elim (Option-cases (get environ (env_key_name upper entry.name))) [
        | inl absent ↦
            let (ended, rest) = seed_from_json-IsSeeded entries db p k in
            rw (seed_skips entry entries db absent)
              (ended, IsSeeded-skip entry entries db _ absent rest)
        | inr (key, there) ↦
            let (ended, rest) =
              seed_from_json-IsSeeded entries (seeded entry entries db key) p (keyed key) in
            rw (seed_upserts entry entries db key there p)
              (ended, IsSeeded-upsert entry entries db key _ there rest)
      ]
    where
      keyed : (key : String) → IsKeyed (seeded entry entries db key).callers
      keyed key = put-IsKeyed entry.name _ db.callers k

  pub resolve_bearer-seed_from_json :
      {W : Type 0} ⦃d : Float W⦄ (entries : List SeedEntry) (db : Database W) (name : String)
      (row : CallerRow) (header : Option String) (key : String) (now : W) (r : CallerResolver W)
      → (pepper == "") ≡ false
      → caller_name_ok name ≡ true
      → IsKeyed db.callers
      → seeded_row entries name ≡ some row
      → bearer_token header ≡ some key
      → row.key_hash ≡ hash_of key
      → ((n : String) (q : CallerRow)
          → row_after entries db n ≡ some q
          → q.key_hash ≡ hash_of key
          → n ≡ name)
      → let after = (seed_from_json upper hmac_sha256 environ pepper entries db).0 in
        IsCoherent hmac_sha256 pepper (λ key_hash. caller_by_key_hash key_hash after) r
        → (r' : CallerResolver W) × (resolve_bearer hmac_sha256 pepper
              (λ key_hash. caller_by_key_hash key_hash after)
              header
              now
              r
            ≡ some (enabled_only (some (caller_of_row name row)), r'))
          × (caller_row_raises (hash_of key) after ≡ false)
  unfolding caller_by_key_hash caller_row_raises
  resolve_bearer-seed_from_json {W} ⦃d⦄ entries db name row header key now r p named k e bearer
        hashed only coherent =
      let after : Database W = (seed_from_json upper hmac_sha256 environ pepper entries db).0 in
      let s = (seed_from_json-IsSeeded entries db p k).1 in
      let found : find_caller (hash_of key) after.callers ≡ some (caller_of_row name row) =
        find_caller_only (hash_of key) name row after.callers s.keyed
          (s.rows name ∙ rw (row_after, e) refl) hashed (λ n q g. only n q (sym (s.rows n) ∙ g)) in
      let (r', answered, _) =
        resolve_bearer-IsCoherent hmac_sha256 pepper (λ key_hash. caller_by_key_hash key_hash after)
          header now r p coherent in
      let same : caller_of hmac_sha256 pepper (λ key_hash. caller_by_key_hash key_hash after) header
          ≡ enabled_only (some (caller_of_row name row)) =
        rw (caller_of, bearer) (ap enabled_only found) in
      (
        r',
        answered ∙ ap (λ (c : Option Caller). some (c, r')) same,
        rw (caller_row_raises, caller_by_key_hash, found, named) refl,
      )
