-- ===== src/Refresh/Task.antt =====
-- gateway/routing/refresh.py: the task around the ticks. A round is one turn of `_loop`, with
-- whether its tick returned and the random number that it draws otherwise; `crashed` says that an
-- exception left the loop.
use librouter.Prelude.{
  ℕ, suc, Bool, true, false, ◌&&◌, not, Option, none, some, List, [], ◌∷◌, if◌then◌else◌,
}
use librouter.Prelude.Float.{Float}
use librouter.Models.{RoutingConfig}
use librouter.Refresh.{next_wait}

pub record RefreshTask : Type 0 where
  pub running : Bool
  pub stop_set : Bool
  pub crashed : Bool
  pub consecutive_failures : ℕ
  -- The counter REFRESH_ERRORS_TOTAL.
  pub refresh_errors : ℕ

abbrev pub new_task : RefreshTask
new_task = record {
  running = false;
  stop_set = false;
  crashed = false;
  consecutive_failures = 0;
  refresh_errors = 0;
}

-- `start`: a task that is there is left alone, and the event of `stop` is not cleared.
unfoldable pub start_task : RefreshTask → RefreshTask
start_task t = if t.running then t else record t { running = true; consecutive_failures = 0 }

-- `stop` waits for the task, and raises (`none`) what the task raised.
unfoldable pub stop_task : RefreshTask → Option RefreshTask
stop_task t =
    if t.running && t.crashed then none else some (record t { stop_set = true; running = false })

module _ {W : Type 0} ⦃d : Float W⦄ (routing : RoutingConfig W) where
  unfoldable pub failed_tick : W → RefreshTask → RefreshTask
  unfolding next_wait
  failed_tick random t =
      let failures = suc t.consecutive_failures in
      let counted : RefreshTask = record t {
        consecutive_failures = failures;
        refresh_errors = suc t.refresh_errors;
      } in
      elim (next_wait routing failures random) [
        | none ↦ record counted { crashed = true }
        | some wait ↦ counted
      ]

  unfoldable pub loop_round : Bool × W → RefreshTask → RefreshTask
  unfolding failed_tick
  loop_round (ok, random) t =
      if t.running && (not t.stop_set && not t.crashed)
      then (if ok then record t { consecutive_failures = 0 } else failed_tick random t)
      else t

  unfoldable pub loop_rounds : List (Bool × W) → RefreshTask → RefreshTask
  unfolding loop_round
  loop_rounds [] t = t
  loop_rounds (r ∷ rs) t = loop_rounds rs (loop_round r t)
