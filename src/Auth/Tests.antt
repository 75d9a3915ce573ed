-- ===== src/Auth/Tests.antt =====
-- Instances of the theorems on gateway/auth.py, at floats of whole thousandths.
use Prim.Native.String.{◌++◌ as str_append}
use librouter.Prelude.{
  ◌≡◌, refl, String, true, false, Option, none, some, [], ◌∷◌, arith, string_eq, ◌==◌,
  if◌then◌else◌,
}
use librouter.Prelude.Dict.{get, put}
use librouter.Prelude.Float.{Milli, milli_float}
use librouter.Models.{Caller}
use librouter.Auth.{
  CallerResolver, enabled_only, lstrip, rstrip, drop_prefix, bearer_token, hash_api_key, remove,
  move_to_end, cached_answer, remember, resolve_hash, resolve_bearer,
}
use librouter.Auth.Cache.{IsBacked}
use librouter.Auth.Resolve.{IsUsed, IsRecent, resolve_hash-IsUsed, resolve_hash-IsBacked}
use librouter.Auth.Bearer.{caller_of, IsCoherent, resolve_bearer-IsCoherent}

program : Unit {0}
unfolding get put enabled_only lstrip rstrip drop_prefix bearer_token hash_api_key remove
    move_to_end cached_answer remember resolve_hash resolve_bearer
program = tt

abbrev hmac : String → String → String
hmac pepper raw = str_append pepper (str_append "." raw)

abbrev alice : Caller
alice = record { name = "alice"; daily_token_cap = none; enabled = true }

abbrev bob : Caller
bob = record { name = "bob"; daily_token_cap = none; enabled = false }

abbrev db : String → Option Caller
db k = if k == "v2:hmac-sha256:salt.a" then some alice else if k == "b" then some bob else none

-- A full cache of two, with answers from 10 s and from 50 s.
abbrev r : CallerResolver Milli
r = record {
  ttl = 60000;
  maxsize = 2;
  cache = ("b", (10000, none)) ∷ ("v2:hmac-sha256:salt.a", (50000, some alice)) ∷ [];
}

bearer_token_runs : bearer_token (some "Bearer  a ") ≡ some "a"
unfolding program
bearer_token_runs = refl

-- A third hash at 80 s: the entry of `b` goes.
resolve_hash_runs :
    (resolve_hash db "c" 80000 r).1.cache
    ≡ ("v2:hmac-sha256:salt.a", (50000, some alice)) ∷ ("c", (80000, none)) ∷ []
unfolding program
resolve_hash_runs = refl

r-IsCoherent : IsBacked (λ k t c. c ≡ enabled_only (db k)) r.cache
unfolding program
r-IsCoherent = (refl, (refl, tt))

resolve_hash-IsUsed_example :
    IsUsed db "b" 80000 r (resolve_hash db "b" 80000 r).0 (resolve_hash db "b" 80000 r).1.cache
resolve_hash-IsUsed_example = resolve_hash-IsUsed db "b" 80000 r (omega arith)

resolve_hash-IsBacked_example :
    (t : Milli) × IsRecent db "b" 80000 r t
    × ((resolve_hash db "b" 80000 r).0 ≡ enabled_only (db "b"))
    × IsBacked (λ k u c. c ≡ enabled_only (db k)) (resolve_hash db "b" 80000 r).1.cache
resolve_hash-IsBacked_example =
    resolve_hash-IsBacked db "b" 80000 r (λ k u c. c ≡ enabled_only (db k)) r-IsCoherent refl

resolve_bearer-IsCoherent_example :
    (r' : CallerResolver Milli) × (resolve_bearer hmac "salt" db (some "Bearer a") 80000 r
      ≡ some (caller_of hmac "salt" db (some "Bearer a"), r'))
    × IsCoherent hmac "salt" db r'
resolve_bearer-IsCoherent_example =
    resolve_bearer-IsCoherent hmac "salt" db (some "Bearer a") 80000 r refl r-IsCoherent
