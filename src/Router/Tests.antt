-- ===== src/Router/Tests.antt =====
-- A world of scripted vendors, and instances of the theorems on gateway/router.py in it.
use librouter.Prelude.{◌≡◌, refl, String, Option, some, List, [], ◌∷◌, arith, string_eq}
use librouter.Prelude.Dict.{get, put}
use librouter.Prelude.Float.{Milli, milli_float, Milli-IsOrdered, ◌≼◌, fmin}
use librouter.Models.{AttemptRecord, candidate_eq}
use librouter.Models.Request.{prompt_chars}
use librouter.Errors.{caller_error_for, status_for}
use librouter.Ratelimit.{estimate_tokens}
use librouter.Weights.{
  health_score, budget_score, effective_weight, signals_weight, weight, weighted, choose, pick,
  pick_from,
}
use librouter.Router.{Outcome, client_trace_id, is_final, result}
use librouter.Router.Route.{attempt_timeout, route, set_up}
use librouter.Router.Termination.{route_total}
use librouter.Router.Report.{Report, route-Report}
use librouter.Router.Timeout.{attempt_timeout_bounds}
use librouter.Router.Sample.{World, world_env, settings, tier, cfg, req, caller, failover}

program : Unit {0}
unfolding get put health_score budget_score effective_weight signals_weight weight weighted choose
    pick pick_from caller_error_for status_for estimate_tokens prompt_chars client_trace_id is_final
    attempt_timeout route
program = tt

abbrev statuses : Option (Outcome Milli × World) → List String
statuses (some (result resp attempts, w)) = go attempts
  where
    go : List (AttemptRecord Milli) → List String
    go [] = []
    go (a ∷ rest) = a.status ∷ go rest
statuses _ = []

failover_runs :
    statuses (route world_env settings 3 cfg req caller failover) ≡ "timeout" ∷ "ok" ∷ []
unfolding program
failover_runs = refl

route_total_example :
    (r : Outcome Milli × World) × (route world_env settings 3 cfg req caller failover ≡ some r)
unfolding program
route_total_example = route_total world_env settings 3 cfg req caller failover (omega arith)

route-Report_example :
    (o : Outcome Milli) × (w : World) × (route world_env settings 3 cfg req caller failover
      ≡ some (o, w))
    × Report world_env (set_up world_env settings req caller tier failover).0 o
unfolding program
route-Report_example =
    route-Report world_env settings 3 cfg req caller failover (omega arith) tier refl

attempt_timeout_bounds_example :
    let t = attempt_timeout settings 4000 in (t ≼ 4000) × (t ≼ 8000) × (fmin 100 8000 ≼ t)
attempt_timeout_bounds_example = attempt_timeout_bounds Milli-IsOrdered settings 4000 refl refl
