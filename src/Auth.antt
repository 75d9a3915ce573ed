-- ===== src/Auth.antt =====
-- gateway/auth.py: from a bearer header to a caller, with the cache of `CallerResolver`, an
-- OrderedDict whose first entry is the one that was used least recently. The HMAC of `hash_api_key`
-- and the database are parameters; an exception of the database leaves the cache as it is, and
-- App.resolve_caller has it. `resolve_bearer` awaits the database between `cached_answer` and
-- `remember`; what other requests do meanwhile is another resolver handed to `remember`.
pub mod Cache
pub mod Resolve
pub mod Bearer
mod Tests
use Prim.Native.Char.{Char, code}
use Prim.Native.String.{◌++◌ as str_append}
use librouter.Prelude.{
  ℕ, ◌≡◌, String, Bool, true, false, Option, none, some, List, [], ◌∷◌, ◌++◌, length, ltb, leb,
  ◌||◌, ◌&&◌, nat_eq, string_eq, ◌==◌, if◌then◌else◌,
}
use librouter.Prelude.Dict.{Dict, get, put}
use librouter.Prelude.Float.{Float, ◌⊖◌}
use librouter.Models.{Caller}

-- A character that `str.strip` takes away, by its code.
abbrev pub is_space : Char → Bool
is_space c =
    let n = code c in
    (leb 9 n && leb n 13)
    || (leb 28 n && leb n 32)
    || n == 133
    || n == 160
    || n == 5760
    || (leb 8192 n && leb n 8202)
    || n == 8232
    || n == 8233
    || n == 8239
    || n == 8287
    || n == 12288

unfoldable pub lstrip : String → String
lstrip String.[] = String.[]
lstrip (String.◌∷◌ c s) = let rest = lstrip s in if is_space c then rest else String.◌∷◌ c s

unfoldable pub rstrip : String → String
rstrip String.[] = String.[]
rstrip (String.◌∷◌ c s) =
    let rest = rstrip s in if is_space c && rest == "" then String.[] else String.◌∷◌ c rest

-- `header.startswith(prefix)` and the rest of the header.
unfoldable pub drop_prefix : String → String → Option String
drop_prefix String.[] s = some s
drop_prefix (String.◌∷◌ c p) String.[] = none
drop_prefix (String.◌∷◌ c p) (String.◌∷◌ b s) =
    let rest = drop_prefix p s in if code c == code b then rest else none

-- The token of a header, if it is a bearer header with one.
unfoldable pub bearer_token : Option String → Option String
unfolding lstrip rstrip drop_prefix
bearer_token none = none
bearer_token (some header) = elim (drop_prefix "Bearer " header) [
  | none ↦ none
  | some rest ↦ let token = rstrip (lstrip rest) in if token == "" then none else some token
]

-- `hash_api_key`, with the hexadecimal digest as a parameter: pepper, then text. An empty pepper is
-- the ValueError.
unfoldable pub hash_api_key : (String → String → String) → String → String → Option String
hash_api_key hmac_sha256 pepper raw =
    if pepper == "" then none else some (str_append "v2:hmac-sha256:" (hmac_sha256 pepper raw))

abbrev pub Cache : Type 0 → Type 0
Cache W = Dict String (W × Option Caller)

pub record CallerResolver (W : Type 0) : Type 0 where
  pub ttl : W
  pub maxsize : ℕ
  pub cache : Cache W

-- A caller that may not call counts as none.
unfoldable pub enabled_only : Option Caller → Option Caller
enabled_only none = none
enabled_only (some caller) = if caller.enabled then some caller else none

module _ {W : Type 0} where
  unfoldable pub remove : String → Cache W → Cache W
  remove k [] = []
  remove k ((j, e) ∷ l) = let rest = remove k l in if j == k then rest else (j, e) ∷ rest

  -- `OrderedDict.move_to_end` of a key that is there.
  unfoldable pub move_to_end : String → Cache W → Cache W
  unfolding get remove
  move_to_end k cache = elim (get cache k) [
    | none ↦ cache
    | some e ↦ remove k cache ++ ((k, e) ∷ [])
  ]

  -- `popitem(last=False)` while the cache is above its size.
  abbrev pub evict : ℕ → Cache W → Cache W
  evict maxsize [] = []
  evict maxsize (e ∷ l) = if ltb maxsize (length (e ∷ l)) then l else e ∷ l

module _ {W : Type 0} ⦃d : Float W⦄ where
  -- The answer from the cache, with the entry marked as used; `none` where the database is asked.
  unfoldable pub cached_answer :
      String → W → CallerResolver W → Option (Option Caller × CallerResolver W)
  unfolding get move_to_end
  cached_answer key_hash now r = elim (get r.cache key_hash) [
    | none ↦ none
    | some (stored_at, caller) ↦
        if d.lt (now ⊖ stored_at) r.ttl
        then some (caller, record r { cache = move_to_end key_hash r.cache })
        else none
  ]

  -- What follows the answer of the database.
  unfoldable pub remember :
      String → W → Option Caller → CallerResolver W → Option Caller × CallerResolver W
  unfolding put move_to_end enabled_only
  remember key_hash now found r =
      let caller = enabled_only found in
      let cache = move_to_end key_hash (put key_hash (now, caller) r.cache) in
      (caller, record r { cache = evict r.maxsize cache })

  -- A request whose lookup no other one interrupts; `db` is what the database holds.
  unfoldable pub resolve_hash :
      (String → Option Caller) → String → W → CallerResolver W → Option Caller × CallerResolver W
  unfolding cached_answer remember
  resolve_hash db key_hash now r = elim (cached_answer key_hash now r) [
    | some answer ↦ answer
    | none ↦ remember key_hash now (db key_hash) r
  ]

  -- The hash with which `resolve_bearer` asks the database, where it does.
  unfoldable pub asked_hash :
      (String → String → String) → String → Option String → W → CallerResolver W → Option String
  unfolding bearer_token hash_api_key cached_answer
  asked_hash hmac_sha256 pepper header now r = elim (bearer_token header) [
    | none ↦ none
    | some token ↦ elim (hash_api_key hmac_sha256 pepper token) [
      | none ↦ none
      | some key_hash ↦ elim (cached_answer key_hash now r) [
        | some answer ↦ none
        | none ↦ some key_hash
      ]
    ]
  ]

  -- `resolve_bearer`; `none` is the ValueError of an empty pepper, which the constructor rules out.
  unfoldable pub resolve_bearer :
      (String → String → String)
      → String
      → (String → Option Caller)
      → Option String
      → W
      → CallerResolver W
      → Option (Option Caller × CallerResolver W)
  unfolding bearer_token hash_api_key resolve_hash
  resolve_bearer hmac_sha256 pepper db header now r = elim (bearer_token header) [
    | none ↦ some (none, r)
    | some token ↦ elim (hash_api_key hmac_sha256 pepper token) [
      | none ↦ none
      | some key_hash ↦ some (resolve_hash db key_hash now r)
    ]
  ]
