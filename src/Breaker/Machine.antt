-- ===== src/Breaker/Machine.antt =====
-- The state machine of a breaker (gateway/breaker.py): the transitions that one refresh may make.
use librouter.Prelude.{
  ℕ, zero, suc, ◌≤◌, ◌<◌, ◌≡◌, refl, false, Option, none, some, ◌⊎◌, inl, inr, arith, leb, nat_eq,
  ◌==◌, Bool-cases,
}
use librouter.Prelude.Float.{Float, ◌≼◌, ◌⊖◌, ◌⊘◌, of_nat}
use librouter.Breaker.{
  BreakerState, SnapshotEntry, Settings, should_trip, next_from, compute_next_state,
}

module _ {W : Type 0} ⦃d : Float W⦄ (settings : Settings W) (now : W) where
  -- The open period of an entry is over.
  abbrev pub IsOver : SnapshotEntry W → Type 0
  IsOver e = settings.open_duration_s ≼ now ⊖ e.opened_at_s

  -- What the samples of the window, and those since the half-open transition, make of an entry.
  pub data Decides (prev : SnapshotEntry W) (total failures : ℕ) (post : Option (ℕ × ℕ))
      (e : SnapshotEntry W) : Type 0 where
    -- Closed and healthy: too few samples, or too few failures among them.
    stays_closed :
        prev.state ≡ BreakerState.closed
        → (total < settings.min_samples)
          ⊎ (d.le settings.failure_threshold (of_nat failures ⊘ of_nat total) ≡ false)
        → e.state ≡ BreakerState.closed
        → Decides prev total failures post e
    -- Closed, with enough samples and the threshold reached.
    trips :
        prev.state ≡ BreakerState.closed
        → settings.min_samples ≤ total
        → settings.failure_threshold ≼ of_nat failures ⊘ of_nat total
        → e.state ≡ BreakerState.opened
        → e.opened_at_s ≡ now
        → Decides prev total failures post e
    -- Open: the samples change nothing.
    stays_open :
        prev.state ≡ BreakerState.opened
        → e.state ≡ BreakerState.opened
        → e.opened_at_s ≡ prev.opened_at_s
        → Decides prev total failures post e
    -- Half-open: a failure opens, else a success closes, else nothing changes.
    probe_failed :
        (succ fail : ℕ)
        → prev.state ≡ BreakerState.half_open
        → post ≡ some (succ, fail)
        → 0 < fail
        → e.state ≡ BreakerState.opened
        → e.opened_at_s ≡ now
        → Decides prev total failures post e
    probe_passed :
        (succ : ℕ)
        → prev.state ≡ BreakerState.half_open
        → post ≡ some (succ, 0)
        → 0 < succ
        → e.state ≡ BreakerState.closed
        → Decides prev total failures post e
    waits :
        prev.state ≡ BreakerState.half_open
        → (post ≡ none) ⊎ (post ≡ some (0, 0))
        → e.state ≡ BreakerState.half_open
        → e.half_opened_at_s ≡ prev.half_opened_at_s
        → Decides prev total failures post e

  -- `none` is a ZeroDivisionError.
  abbrev pub Decided : SnapshotEntry W → ℕ → ℕ → Option (ℕ × ℕ) → Option (SnapshotEntry W) → Type 0
  Decided prev total failures post none = ⊥
  Decided prev total failures post (some e) = Decides prev total failures post e

  module _ (prev : SnapshotEntry W) (total failures : ℕ) where
    closed_case :
        (post : Option (ℕ × ℕ))
        → 0 < settings.min_samples
        → prev.state ≡ BreakerState.closed
        → Decided prev total failures post
            (next_from settings BreakerState.closed prev total failures now post)
    unfolding next_from
    closed_case post pos_min st = elim (Bool-cases (leb settings.min_samples total)) [
      | inr few ↦ rw (few, next_from, should_trip) (stays_closed st (inl (ground arith)) refl)
      | inl many ↦
          let some_seen : (total == 0) ≡ false = ground arith in
          elim (Bool-cases (d.le settings.failure_threshold (of_nat failures ⊘ of_nat total))) [
            | inl bad ↦
                rw (many, some_seen, bad, next_from, should_trip)
                  (trips st (ground arith) bad refl refl)
            | inr fine ↦
                rw (many, some_seen, fine, next_from, should_trip) (stays_closed st (inr fine) refl)
          ]
    ]

    half_open_case :
        (post : Option (ℕ × ℕ))
        → prev.state ≡ BreakerState.half_open
        → Decided prev total failures post
            (next_from settings BreakerState.half_open prev total failures now post)
    unfolding next_from
    half_open_case none st = waits st (inl refl) refl refl
    half_open_case (some (succ, suc fail)) st =
        probe_failed succ (suc fail) st refl (omega arith) (ground arith) (ground arith)
    half_open_case (some (suc succ, zero)) st =
        probe_passed (suc succ) st refl (omega arith) (ground arith)
    half_open_case (some (zero, zero)) st = waits st (inr refl) (ground arith) (ground arith)

    case_of :
        (st : BreakerState) (post : Option (ℕ × ℕ))
        → 0 < settings.min_samples
        → prev.state ≡ st
        → Decided prev total failures post (next_from settings st prev total failures now post)
    unfolding next_from
    case_of BreakerState.closed post pos_min e = closed_case post pos_min e
    case_of BreakerState.half_open post pos_min e = half_open_case post e
    case_of BreakerState.opened post pos_min e = stays_open e refl refl

    -- With a positive sample minimum no division by zero occurs, and the next state of a breaker is
    -- the one that its samples call for: closed trips exactly on enough samples at the threshold,
    -- open stays, half-open goes by the samples since its transition, a failure before a success.
    pub compute_next_state-Decided :
        (post : Option (ℕ × ℕ))
        → 0 < settings.min_samples
        → Decided prev total failures post
            (compute_next_state settings prev total failures now post)
    unfolding compute_next_state
    compute_next_state-Decided post pos_min = case_of prev.state post pos_min refl
