-- ===== src/Ratelimit/Scripts.antt =====
-- gateway/redis_state.py: how a script is loaded and run, and the other keys. `R` is the state of
-- Redis, whose `script_load`, `evalsha` and `eval` are parameters; `none` of `evalsha` is a
-- NoScriptError. `show` writes a number in decimal.
use Prim.Native.String.{◌++◌ as str_append}
use librouter.Prelude.{ℕ, String, Option, none, some, List}

pub record LoadedScripts : Type 0 where
  pub ratelimit : String
  pub clamp : String

unfoldable pub breaker_key : String → String → String
breaker_key provider model = str_append "gw:brk:" (str_append provider (str_append ":" model))

unfoldable pub observe_key : (ℕ → String) → String → String → ℕ → String
observe_key show provider model epoch_sec =
    str_append "gw:obs:"
      (str_append provider (str_append ":" (str_append model (str_append ":" (show epoch_sec)))))

module _ {R : Type 0} (script_load : String → R → String × R)
    (ratelimit_lua clamp_lua : String) where
  -- `load_scripts`: the digests are asked for once.
  unfoldable pub load_scripts : Option LoadedScripts → R → LoadedScripts × R
  load_scripts (some scripts) r = (scripts, r)
  load_scripts none r =
      let (ratelimit, r1) = script_load ratelimit_lua r in
      let (clamp, r2) = script_load clamp_lua r1 in
      (record { ratelimit = ratelimit; clamp = clamp }, r2)

module _ {R A : Type 0} (evalsha : String → ℕ → List String → R → Option (A × R))
    (eval : String → ℕ → List String → R → A × R) where
  -- `_eval`: a script that Redis has lost is sent again.
  unfoldable pub eval_script : String → String → ℕ → List String → R → A × R
  eval_script source sha numkeys args r = elim (evalsha sha numkeys args r) [
    | some answer ↦ answer
    | none ↦ eval source numkeys args r
  ]
