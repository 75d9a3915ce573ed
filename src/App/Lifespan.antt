-- ===== src/App/Lifespan.antt =====
-- gateway/app.py: `lifespan`, from the first connection to the last one that is closed. `Resources`
-- is what the process holds. What is outside answers by parameters: whether Redis takes the scripts
-- (`loaded`; `none` if `from_url` raises a ValueError on the URL), whether Postgres makes a pool
-- (`created`), and whether `int` reads a text (`is_int`).
use librouter.Prelude.{
  String, Bool, true, false, ◌&&◌, Option, none, some, [], string_eq, ◌==◌, if◌then◌else◌,
}
use librouter.Prelude.Dict.{Dict}
use librouter.Prelude.Float.{Float}
use librouter.Models.{Config, RoutingConfig}
use librouter.Db.{Database}
use librouter.Db.Pool.{Handle, connect, close}
use librouter.Auth.{lstrip, rstrip}
use librouter.Secrets.{SecretsManager, env_value}
use librouter.ConfigStore.{load_or_refresh}
use librouter.Weights.{WeightEngine}
use librouter.Refresh.{Sources, tick}
use librouter.Refresh.Task.{RefreshTask, stop_task}
use librouter.Accounting.{AccountingQueue, stop}
use librouter.App.Boot.{Gateway, boot, db_dsn, text_of}

pub record Resources : Type 0 where
  pub redis : Bool
  pub pool : Handle
  -- The tasks of the refresh and of the accounting.
  pub refreshing : Bool
  pub draining : Bool

abbrev pub nothing_held : Resources
nothing_held = record {
  redis = false;
  pool = record { pool = false };
  refreshing = false;
  draining = false;
}

abbrev pub redis_held : Resources
redis_held = record nothing_held { redis = true }

-- An exception that leaves the process with what it held, or the process that serves.
pub data Startup (W V S : Type 0) : Type 0 where
  failed : Resources → Startup W V S
  started : Resources → Gateway W V → WeightEngine W → S → Startup W V S

-- The seed of the random generator: an empty one is none, another one must be a number.
unfoldable pub seed_is_read : (String → Bool) → Dict String String → Option String → Bool
unfolding lstrip rstrip
seed_is_read is_int environ rng_seed_env =
    let rng_seed_raw = rstrip (lstrip (env_value environ (text_of rng_seed_env))) in
    if rng_seed_raw == "" then true else is_int rng_seed_raw

abbrev pub new_engine : {W : Type 0} → RoutingConfig W → WeightEngine W
new_engine routing = record { routing = routing; cache = [] }

module _ {W V S : Type 0} ⦃d : Float W⦄ (environ : Dict String String) (is_int : String → Bool)
    (mock : String → V) (build : String → SecretsManager → Option V) (sources : Sources W S) where
  -- The refresh task, the generator and the accounting, after the first tick.
  unfoldable pub start_tasks : Resources → Gateway W V → WeightEngine W → S → Startup W V S
  unfolding seed_is_read
  start_tasks r g engine s =
      let refreshing = record r { refreshing = true } in
      if seed_is_read is_int environ g.cfg.routing.rng_seed_env
      then started (record refreshing { draining = true }) g engine s
      else failed refreshing

  -- From the stored configuration to the first tick.
  unfoldable pub start_with : Resources → Config W → S → Startup W V S
  unfolding boot tick start_tasks
  start_with r stored s = elim (boot environ mock build stored) [
    | none ↦ failed r
    | some g ↦ elim (tick sources (some g.available_providers) g.cfg (new_engine g.cfg.routing) s) [
      | none ↦ failed r
      | some (engine, s') ↦ start_tasks r g engine s'
    ]
  ]

  module _ {P : Type 0} (order_by : (V : Type 0) → Dict String V → Dict String V)
      (encode : Config W → P) (decode : P → Option (Config W)) where
    unfoldable pub start_process : Option Bool → Bool → Database W → Option P → S → Startup W V S
    unfolding db_dsn connect load_or_refresh start_with
    start_process loaded created db cache s =
        let connected : Startup W V S = elim (connect created nothing_held.pool) [
          | none ↦ failed redis_held
          | some handle ↦
              let r = record redis_held { pool = handle } in
              elim (load_or_refresh order_by encode decode false db cache).0 [
                | none ↦ failed r
                | some stored ↦ start_with r stored s
              ]
        ] in
        elim (db_dsn environ) [
          | none ↦ failed nothing_held
          | some dsn ↦ elim loaded [
            | none ↦ failed nothing_held
            | some true ↦ connected
            | some false ↦ failed redis_held
          ]
        ]

-- The end of the process, with the writer's answers to the last three batches: a write needs the
-- pool, which is there until the queue has stopped. Where the refresh task has crashed, its `stop`
-- raises, and the rest of the cleanup does not run.
unfoldable pub shutdown :
    {A : Type 0}
    → RefreshTask
    → Bool
    → Bool
    → Bool
    → Resources
    → AccountingQueue A
    → Resources × AccountingQueue A
unfolding stop close stop_task
shutdown task ok1 ok2 ok3 r q =
    let refreshed : Resources = record r { refreshing = false } in
    let here = refreshed.pool.pool in
    let q' = stop (here && ok1) (here && ok2) (here && ok3) q in
    let drained : Resources = record refreshed { draining = false } in
    let closed : Resources = record drained { pool = close drained.pool } in
    elim (stop_task task) [
      | none ↦ (refreshed, q)
      | some stopped ↦ (record closed { redis = false }, q')
    ]
