-- ===== src/Auth/Bearer.antt =====
-- From a header to a caller (gateway/auth.py), while the database does not change.
use Prim.Native.String.{◌++◌ as str_append}
use librouter.Prelude.{◌≡◌, refl, String, false, Option, none, some, string_eq, ◌==◌}
use librouter.Prelude.Float.{Float}
use librouter.Models.{Caller}
use librouter.Auth.{
  CallerResolver, enabled_only, bearer_token, hash_api_key, resolve_hash, resolve_bearer,
}
use librouter.Auth.Cache.{IsBacked}
use librouter.Auth.Resolve.{resolve_hash-IsBacked}

module _ (hmac_sha256 : String → String → String) (pepper : String)
    (db : String → Option Caller) where
  -- The caller of a header without any cache: an enabled caller under the hash of the token.
  abbrev pub caller_of : Option String → Option Caller
  caller_of header = elim (bearer_token header) [
    | none ↦ none
    | some token ↦ enabled_only (db (str_append "v2:hmac-sha256:" (hmac_sha256 pepper token)))
  ]

module _ {W : Type 0} ⦃d : Float W⦄ (hmac_sha256 : String → String → String) (pepper : String)
    (db : String → Option Caller) where
  -- The cache holds what the database says.
  abbrev pub IsCoherent : CallerResolver W → Type 0
  IsCoherent r = IsBacked (λ key_hash t c. c ≡ enabled_only (db key_hash)) r.cache

  -- With a pepper, a database that answers and a cache that agrees with it, `resolve_bearer` does
  -- not raise, answers for every header at every time what a resolver without a cache would, and
  -- keeps the agreement.
  pub resolve_bearer-IsCoherent :
      (header : Option String) (now : W) (r : CallerResolver W)
      → (pepper == "") ≡ false
      → IsCoherent r
      → (r' : CallerResolver W) × (resolve_bearer hmac_sha256 pepper db header now r
          ≡ some (caller_of hmac_sha256 pepper db header, r'))
        × IsCoherent r'
  unfolding resolve_bearer hash_api_key
  resolve_bearer-IsCoherent header now r peppered h = go (bearer_token header) refl
    where
      go :
          (o : Option String)
          → bearer_token header ≡ o
          → (r' : CallerResolver W) × (resolve_bearer hmac_sha256 pepper db header now r
              ≡ some (caller_of hmac_sha256 pepper db header, r'))
            × IsCoherent r'
      go none e = (r, rw (resolve_bearer, caller_of, e) refl, h)
      go (some token) e =
          let key_hash = str_append "v2:hmac-sha256:" (hmac_sha256 pepper token) in
          let (t, recent, same, kept) =
            resolve_hash-IsBacked db key_hash now r (λ k u c. c ≡ enabled_only (db k)) h refl in
          (
            (resolve_hash db key_hash now r).1,
            rw (resolve_bearer, caller_of, e, hash_api_key, peppered, ← same) refl,
            kept,
          )
