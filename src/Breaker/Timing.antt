-- ===== src/Breaker/Timing.antt =====
-- The time-driven transition of gateway/breaker.py, and what one refresh may do to an entry.
use librouter.Prelude.{◌≡◌, ◌≢◌, refl, false, ◌⊎◌, inl, inr, Bool-cases}
use librouter.Prelude.Float.{Float, ◌⊖◌}
use librouter.Breaker.{BreakerState, SnapshotEntry, Settings, transition_from, after_window}
use librouter.Breaker.Machine.{IsOver}

module _ {W : Type 0} ⦃d : Float W⦄ (settings : Settings W) (now : W) where
  -- An entry whose open period is over becomes half-open now; every other entry stays as it is.
  pub data Elapses (e e' : SnapshotEntry W) : Type 0 where
    reopens :
        e.state ≡ BreakerState.opened
        → IsOver settings now e
        → e' ≡ record e { state = BreakerState.half_open; half_opened_at_s = now }
        → Elapses e e'
    stays :
        (e.state ≢ BreakerState.opened)
          ⊎ (d.le settings.open_duration_s (now ⊖ e.opened_at_s) ≡ false)
        → e' ≡ e
        → Elapses e e'

  Elapses-from :
      (st : BreakerState) (e : SnapshotEntry W)
      → e.state ≡ st
      → Elapses e (transition_from settings st now e)
  unfolding transition_from
  Elapses-from BreakerState.opened e st =
      elim (Bool-cases (d.le settings.open_duration_s (now ⊖ e.opened_at_s))) [
        | inl over ↦ rw over (reopens st over refl)
        | inr early ↦ rw early (stays (inr early) refl)
      ]
  Elapses-from BreakerState.closed e st = stays (inl (λ h. cc)) refl
  Elapses-from BreakerState.half_open e st = stays (inl (λ h. cc)) refl

  pub after_window-Elapses : (e : SnapshotEntry W) → Elapses e (after_window settings now e)
  unfolding after_window
  after_window-Elapses e = Elapses-from e.state e refl
