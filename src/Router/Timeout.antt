-- ===== src/Router/Timeout.antt =====
-- The time that the router gives to one vendor call (gateway/router.py).
use librouter.Prelude.{arith}
use librouter.Prelude.Float.{
  Float, IsOrdered, ◌≼◌, ◌⊖◌, nought, fmin, fmax, fmin-le_left, fmin-le_right, fmax-le, le-fmin,
  le-fmax_left,
}
use librouter.Router.{Settings}
use librouter.Router.Route.{attempt_timeout}

module _ {W : Type 0} ⦃d : Float W⦄ (laws : IsOrdered W) (settings : Settings W) where
  open laws use {le_trans, literal_mono, sub-le}

  -- A round with 1.5 s left gives a vendor, if the buffer is not negative, at most the time that is
  -- left and at most the limit of one attempt, and at least the lesser of a tenth of a second and
  -- that limit.
  pub attempt_timeout_bounds :
      (remaining : W)
      → d.literal 15 1 ≼ remaining
      → nought ≼ settings.deadline_buffer_s
      → let t = attempt_timeout settings remaining in
        (t ≼ remaining)
        × (t ≼ settings.per_attempt_max_s)
        × (fmin (d.literal 1 1) settings.per_attempt_max_s ≼ t)
  unfolding attempt_timeout
  attempt_timeout_bounds remaining in_time hb =
      let tenth = d.literal 1 1 in
      let rest = remaining ⊖ settings.deadline_buffer_s in
      let small = le_trans _ _ _ (literal_mono 1 15 1 (omega arith)) in_time in
      (
        le_trans _ _ _ (fmin-le_left laws (fmax tenth rest) settings.per_attempt_max_s)
            (fmax-le laws tenth rest remaining small (sub-le remaining _ hb)),
        fmin-le_right laws (fmax tenth rest) settings.per_attempt_max_s,
        le-fmin laws _ _ _
            (le_trans _ _ _ (fmin-le_left laws tenth settings.per_attempt_max_s)
              (le-fmax_left laws tenth rest))
            (fmin-le_right laws tenth settings.per_attempt_max_s),
      )
