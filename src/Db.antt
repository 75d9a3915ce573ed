-- ===== src/Db.antt =====
-- gateway/db.py: the SQL statements on the tables. A table with a primary key is a dictionary of
-- its key, `requests` the list of its rows with the second in which each was written; a JSON column
-- is the value that it is read back as. `ORDER BY` and the sum of a numeric column are Postgres's,
-- and parameters.
mod Tests
pub mod Usage
pub mod Pool
use librouter.Prelude.{
  ℕ, ◌+◌, ◌-◌, ◌%◌, String, Bool, true, false, ◌&&◌, ◌||◌, not, Option, none, some, List, [], ◌∷◌,
  ◌++◌, map, leb, length, string_eq, ◌==◌, if◌then◌else◌,
}
use librouter.Prelude.Dict.{Dict, get, put}
use librouter.Models.Valid.{caller_name_ok}
use librouter.Models.{AttemptRecord, Caller, RateLimitEntry, RoutingConfig}

-- What the JSON of a provider's row has for a tier.
pub record ModelEntry (W : Type 0) : Type 0 where
  pub model : String
  pub weight : W
  pub rate_limits : RateLimitEntry

pub record CallerRow : Type 0 where
  pub key_hash : String
  pub daily_token_cap : Option ℕ
  pub enabled : Bool

pub record RequestRow (W : Type 0) : Type 0 where
  pub ts : ℕ
  pub attempt : AttemptRecord W

pub record Database (W : Type 0) : Type 0 where
  pub tiers : Dict String (Option String)
  pub tier_models : Dict String (Dict String (ModelEntry W))
  pub routing_config : Option (RoutingConfig W)
  pub callers : Dict String CallerRow
  pub requests : List (RequestRow W)

pub record UsageRow (W : Type 0) : Type 0 where
  pub caller : String
  pub provider : String
  pub model : String
  pub attempts : ℕ
  pub tokens : ℕ
  pub cost_usd : W

abbrev row_at : {W : Type 0} → ℕ → AttemptRecord W → RequestRow W
row_at ts attempt = record { ts = ts; attempt = attempt }

-- The first row of the callers that has the hash, by the key of the table, as the caller that it
-- stands for; `caller_row_raises` says where the constructor of `Caller` refuses it.
unfoldable pub find_caller : String → Dict String CallerRow → Option Caller
find_caller key_hash [] = none
find_caller key_hash ((name, row) ∷ rows) =
    if row.key_hash == key_hash
    then some (record { name = name; daily_token_cap = row.daily_token_cap; enabled = row.enabled })
    else find_caller key_hash rows

-- `datetime.now(timezone.utc)` with the time of day set to zero, in seconds.
abbrev pub today_start : ℕ → ℕ
today_start now = now - now % 86_400

abbrev pub tokens_of : {W : Type 0} → AttemptRecord W → ℕ
tokens_of r = r.input_tokens + r.output_tokens

-- `SUM(input_tokens + output_tokens)` over the rows of a caller since a time.
unfoldable pub sum_since : {W : Type 0} → String → ℕ → List (RequestRow W) → ℕ
sum_since caller since [] = 0
sum_since caller since (r ∷ rows) =
    let rest = sum_since caller since rows in
    if r.attempt.caller == caller && leb since r.ts then tokens_of r.attempt + rest else rest

-- The `WHERE` of `usage_summary`: the clauses that are there.
unfoldable pub is_selected : {W : Type 0} → Option String → Option ℕ → RequestRow W → Bool
is_selected caller since r =
    (elim caller [ none ↦ true | some name ↦ r.attempt.caller == name ])
    && (elim since [ none ↦ true | some t ↦ leb t r.ts ])

-- The rows of one group, and those of the others.
abbrev pub same_group : {W : Type 0} → AttemptRecord W → AttemptRecord W → Bool
same_group a b = a.caller == b.caller && (a.provider == b.provider && a.model == b.model)

unfoldable pub is_grouped : {W : Type 0} → AttemptRecord W → List (AttemptRecord W) → Bool
is_grouped a [] = false
is_grouped a (b ∷ rest) = same_group b a || is_grouped a rest

-- One row for each group.
unfoldable pub groups : {W : Type 0} → List (AttemptRecord W) → List (AttemptRecord W)
unfolding is_grouped
groups [] = []
groups (a ∷ rest) = let later = groups rest in if is_grouped a later then later else a ∷ later

unfoldable pub group_members :
    {W : Type 0} → AttemptRecord W → List (AttemptRecord W) → List (AttemptRecord W)
group_members a [] = []
group_members a (b ∷ rest) =
    let later = group_members a rest in if same_group a b then b ∷ later else later

unfoldable pub selected :
    {W : Type 0} → Option String → Option ℕ → List (RequestRow W) → List (AttemptRecord W)
unfolding is_selected
selected caller since [] = []
selected caller since (r ∷ rows) =
    let later = selected caller since rows in
    if is_selected caller since r then r.attempt ∷ later else later

abbrev pub sum_tokens : {W : Type 0} → List (AttemptRecord W) → ℕ
sum_tokens [] = 0
sum_tokens (r ∷ rows) = tokens_of r + sum_tokens rows

module _ {W : Type 0} where
  unfoldable pub write_batch : ℕ → List (AttemptRecord W) → Database W → Database W
  write_batch ts records db = record db { requests = db.requests ++ map (row_at ts) records }

  unfoldable pub upsert_caller : String → String → Option ℕ → Bool → Database W → Database W
  unfolding put
  upsert_caller name key_hash daily_token_cap enabled db = record db {
    callers =
        put name
          (record { key_hash = key_hash; daily_token_cap = daily_token_cap; enabled = enabled })
          db.callers;
  }

  unfoldable pub caller_by_key_hash : String → Database W → Option Caller
  unfolding find_caller
  caller_by_key_hash key_hash db = find_caller key_hash db.callers

  -- Whether the row that the query finds is refused by the constructor of `Caller`, which checks
  -- the name; a cap in the table is a natural number.
  unfoldable pub caller_row_raises : String → Database W → Bool
  unfolding caller_by_key_hash
  caller_row_raises key_hash db = elim (caller_by_key_hash key_hash db) [
    | none ↦ false
    | some caller ↦ not (caller_name_ok caller.name)
  ]

  unfoldable pub caller_tokens_used_today : ℕ → String → Database W → ℕ
  unfolding sum_since
  caller_tokens_used_today now caller db = sum_since caller (today_start now) db.requests

  unfoldable pub upsert_tier : String → Option String → Database W → Database W
  unfolding put
  upsert_tier name fallback_tier db = record db { tiers = put name fallback_tier db.tiers }

  unfoldable pub upsert_tier_models : String → Dict String (ModelEntry W) → Database W → Database W
  unfolding put
  upsert_tier_models provider config db = record db {
    tier_models = put provider config db.tier_models;
  }

  unfoldable pub upsert_routing_config : RoutingConfig W → Database W → Database W
  upsert_routing_config routing db = record db { routing_config = some routing }

  abbrev pub fetch_routing_config : Database W → Option (RoutingConfig W)
  fetch_routing_config db = db.routing_config

  module _ (sum_cost : List W → W) (order_usage : List (UsageRow W) → List (UsageRow W)) where
    unfoldable pub usage_of : List (AttemptRecord W) → AttemptRecord W → UsageRow W
    unfolding group_members
    usage_of rows a =
        let members = group_members a rows in
        record {
          caller = a.caller;
          provider = a.provider;
          model = a.model;
          attempts = length members;
          tokens = sum_tokens members;
          cost_usd = sum_cost (map (λ r. r.cost_usd) members);
        }

    unfoldable pub usage_summary : Option String → Option ℕ → Database W → List (UsageRow W)
    unfolding selected groups usage_of
    usage_summary caller since db =
        let rows = selected caller since db.requests in
        order_usage (map (usage_of rows) (groups rows))

  module _ (order_by : (V : Type 0) → Dict String V → Dict String V) where
    abbrev pub fetch_tiers : Database W → Dict String (Option String)
    fetch_tiers db = order_by (Option String) db.tiers

    abbrev pub fetch_tier_models : Database W → Dict String (Dict String (ModelEntry W))
    fetch_tier_models db = order_by (Dict String (ModelEntry W)) db.tier_models
