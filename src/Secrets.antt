-- ===== src/Secrets.antt =====
-- gateway/secrets.py: the two secrets managers. `environ` is the environment of the process at the
-- time of a call; `none` stands for the KeyError of `get`, or the ValueError of an unknown mode,
-- which the type of modes rules out.
use librouter.Prelude.{
  ◌≡◌, ◌≢◌, ◌↔◌, String, Bool, true, false, Option, none, some, [], string_eq, ◌==◌, if◌then◌else◌,
  arith,
}
use librouter.Prelude.Dict.{Dict, get, put}
use librouter.Models.{SecretsMode}

pub data SecretsManager : Type 0 where
  env_manager : SecretsManager
  mock_manager : Dict String String → SecretsManager

module _ (environ : Dict String String) where
  -- `os.environ.get(key, "")`
  abbrev pub env_value : String → String
  env_value key = elim (get environ key) [ none ↦ "" | some value ↦ value ]

  unfoldable pub secret : SecretsManager → String → Option String
  unfolding get
  secret env_manager key = if env_value key == "" then none else some (env_value key)
  secret (mock_manager store) key = get store key

  unfoldable pub has_secret : SecretsManager → String → Bool
  unfolding get
  has_secret env_manager key = if env_value key == "" then false else true
  has_secret (mock_manager store) key = elim (get store key) [ none ↦ false | some value ↦ true ]

  -- A secret is present exactly if `get` does not raise.
  pub has_secret_iff :
      (sm : SecretsManager) (key : String) → (has_secret sm key ≡ true) ↔ (secret sm key ≢ none)
  unfolding has_secret secret
  has_secret_iff env_manager key = ground arith
  has_secret_iff (mock_manager store) key = ground arith

unfoldable pub build_secrets_manager : SecretsMode → SecretsManager
build_secrets_manager SecretsMode.mock = mock_manager []
build_secrets_manager SecretsMode.env = env_manager

-- `MockSecretsManager.set`
unfoldable pub set_secret : String → String → SecretsManager → SecretsManager
unfolding put
set_secret key value env_manager = env_manager
set_secret key value (mock_manager store) = mock_manager (put key value store)
