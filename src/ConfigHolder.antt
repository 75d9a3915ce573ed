-- ===== src/ConfigHolder.antt =====
-- gateway/config/__init__.py: the holder of the configuration and its reload on a signal. The task
-- of the reload runs after `reload` has returned; `do_reload` is its body.
use librouter.Prelude.{String, Bool, true, false, Option, none, some}
use librouter.Prelude.Float.{Float}
use librouter.Models.{Config}
use librouter.Db.{Database}
use librouter.Prelude.Dict.{Dict}
use librouter.ConfigStore.{load_or_refresh}

pub record ConfigHolder (W : Type 0) : Type 0 where
  pub value : Config W
  -- Whether a store was given.
  pub config_store : Bool

-- Whether `reload` starts a task: there is a store, and the event loop runs.
unfoldable pub reload_starts : {W : Type 0} → Bool → ConfigHolder W → Bool
reload_starts loop_runs holder = elim holder.config_store [ false ↦ false | true ↦ loop_runs ]

-- `self.value = new`, unless the load raised.
abbrev with_value : {W : Type 0} → Option (Config W) → ConfigHolder W → ConfigHolder W
with_value none holder = holder
with_value (some new) holder = record holder { value = new }

module _ {W P : Type 0} ⦃d : Float W⦄ (order_by : (V : Type 0) → Dict String V → Dict String V)
    (encode : Config W → P) (decode : P → Option (Config W)) where
  -- `_do_reload`: an error keeps the old configuration.
  unfoldable pub do_reload : Database W → Option P → ConfigHolder W → ConfigHolder W × Option P
  unfolding load_or_refresh
  do_reload db cache holder =
      let (loaded, cache') = load_or_refresh order_by encode decode true db cache in
      (with_value loaded holder, cache')
