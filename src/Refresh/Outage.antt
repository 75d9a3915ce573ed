-- ===== src/Refresh/Outage.antt =====
-- The refresh task of gateway/routing/refresh.py while its ticks fail.
use mathlib.Core.Path.{subst}
use librouter.Prelude.{
  ◌≡◌, refl, ℕ, suc, ◌≤◌, ◌<◌, Bool, true, false, none, some, List, [], ◌∷◌, arith, leb, ltb,
  if◌then◌else◌, Bool-cases, inl, inr,
}
use librouter.Prelude.Float.{Float}
use librouter.Models.{RoutingConfig}
use librouter.Refresh.{next_wait}
use librouter.Refresh.Task.{
  RefreshTask, failed_tick, loop_round, loop_rounds, new_task, start_task, stop_task,
}

-- The loop runs, and has seen `n` failures since its last good tick.
pub record Runs (n : ℕ) (t : RefreshTask) : Type 0 where
  pub running : t.running ≡ true
  pub not_stopped : t.stop_set ≡ false
  pub not_crashed : t.crashed ≡ false
  pub streak : t.consecutive_failures ≡ n

module _ {W : Type 0} ⦃d : Float W⦄ (routing : RoutingConfig W) where
  -- The most failures in a row, of which `n` have come before.
  unfoldable pub longest_streak : ℕ → List (Bool × W) → ℕ
  longest_streak n [] = n
  longest_streak n ((true, random) ∷ rs) =
      let later = longest_streak 0 rs in if leb n later then later else n
  longest_streak n ((false, random) ∷ rs) = longest_streak (suc n) rs

  longest_streak_least : (n : ℕ) (rs : List (Bool × W)) → n ≤ longest_streak n rs
  unfolding longest_streak
  longest_streak_least n [] = omega arith
  longest_streak_least n ((true, random) ∷ rs) = ground arith
  longest_streak_least n ((false, random) ∷ rs) = omega (arith, longest_streak_least (suc n) rs)

  loop_round-Runs :
      (n : ℕ) (random : W) (t : RefreshTask)
      → Runs n t
      → n < 1024
      → Runs (suc n) (loop_round routing (false, random) t)
  unfolding loop_round failed_tick next_wait
  loop_round-Runs n random t h lt = record {
    running = ground (arith, h.running, h.not_stopped, h.not_crashed, h.streak);
    not_stopped = ground (arith, h.running, h.not_stopped, h.not_crashed, h.streak);
    not_crashed = ground (arith, h.running, h.not_stopped, h.not_crashed, h.streak);
    streak = ground (arith, h.running, h.not_stopped, h.not_crashed, h.streak);
  }

  recovers :
      (n : ℕ) (random : W) (t : RefreshTask)
      → Runs n t
      → Runs 0 (loop_round routing (true, random) t)
  unfolding loop_round
  recovers n random t h = record {
    running = ground (arith, h.running, h.not_stopped, h.not_crashed);
    not_stopped = ground (arith, h.running, h.not_stopped, h.not_crashed);
    not_crashed = ground (arith, h.running, h.not_stopped, h.not_crashed);
    streak = ground (arith, h.running, h.not_stopped, h.not_crashed);
  }

  abbrev HasCrashed : RefreshTask → Type 0
  HasCrashed t = (t.running ≡ true) × (t.crashed ≡ true)

  crashes :
      (random : W) (t : RefreshTask)
      → Runs 1024 t
      → HasCrashed (loop_round routing (false, random) t)
  unfolding loop_round failed_tick next_wait
  crashes random t h = (
    ground (arith, h.running, h.not_stopped, h.not_crashed, h.streak),
    ground (arith, h.running, h.not_stopped, h.not_crashed, h.streak),
  )

  loop_round-crashed :
      (r : Bool × W) (t : RefreshTask) → t.crashed ≡ true → loop_round routing r t ≡ t
  unfolding loop_round
  loop_round-crashed (ok, random) t h = ground arith

  loop_rounds-crashed :
      (rs : List (Bool × W)) (t : RefreshTask) → t.crashed ≡ true → loop_rounds routing rs t ≡ t
  unfolding loop_rounds
  loop_rounds-crashed [] t h = refl
  loop_rounds-crashed (r ∷ rs) t h = rw (loop_round-crashed r t h) (loop_rounds-crashed rs t h)

  loop_rounds-HasCrashed :
      (rs : List (Bool × W)) (t : RefreshTask)
      → HasCrashed t
      → HasCrashed (loop_rounds routing rs t)
  loop_rounds-HasCrashed rs t (running, crashed) =
      rw (loop_rounds-crashed rs t crashed) (running, crashed)

  -- Wherever the streak stands that the first round takes up.
  loop_rounds-longest_streak :
      (n : ℕ) (rs : List (Bool × W)) (t : RefreshTask)
      → Runs n t
      → n ≤ 1024
      → ((loop_rounds routing rs t).running ≡ true)
        × ((loop_rounds routing rs t).crashed ≡ leb 1025 (longest_streak n rs))
  unfolding loop_rounds longest_streak
  loop_rounds-longest_streak n [] t h le = (h.running, ground (arith, h.not_crashed))
  loop_rounds-longest_streak n ((true, random) ∷ rs) t h le =
      let (running, ends) =
        loop_rounds-longest_streak 0 rs (loop_round routing (true, random) t)
          (recovers n random t h) (omega arith) in
      (running, ground (arith, ends))
  loop_rounds-longest_streak n ((false, random) ∷ rs) t h le = elim (Bool-cases (ltb n 1024)) [
    | inl lt ↦
        loop_rounds-longest_streak (suc n) rs (loop_round routing (false, random) t)
          (loop_round-Runs n random t h (ground arith)) (ground arith)
    | inr ge ↦
        let (running, ends) =
          loop_rounds-HasCrashed rs _ (crashes random t (subst (λ k. Runs k t) (full ge) h)) in
        (running, ground (arith, ends, longest_streak_least (suc n) rs))
  ]
    where
      full : ltb n 1024 ≡ false → n ≡ 1024
      full ge = ground arith

  -- Once started, whatever the rounds: if at most 1024 ticks in a row failed at any time, the loop
  -- has not crashed, and stopping the task succeeds; and if ever 1025 failed in a row, it has ended
  -- with an exception, however many good ticks would follow, and stopping the task raises.
  pub loop_rounds-stop_task :
      (rs : List (Bool × W))
      → ((loop_rounds routing rs (start_task new_task)).crashed ≡ leb 1025 (longest_streak 0 rs))
        × (stop_task (loop_rounds routing rs (start_task new_task)) ≡ (
            if leb 1025 (longest_streak 0 rs)
            then none
            else some (record (loop_rounds routing rs (start_task new_task)) {
              stop_set = true;
              running = false;
            })))
  unfolding start_task stop_task
  loop_rounds-stop_task rs =
      let started : Runs 0 (start_task new_task) = record {
        running = refl;
        not_stopped = refl;
        not_crashed = refl;
        streak = refl;
      } in
      let (running, ends) =
        loop_rounds-longest_streak 0 rs (start_task new_task) started (omega arith) in
      (ends, ground (arith, running, ends))
