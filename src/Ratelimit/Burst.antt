-- ===== src/Ratelimit/Burst.antt =====
-- What one instant can cost: acquires on one bucket at one time (RATELIMIT_LUA of
-- gateway/redis_state.py).
use librouter.Prelude.{
  ℕ, ◌+◌, ◌-◌, ◌≤◌, ◌≡◌, refl, Bool, true, false, ◌&&◌, some, List, [], ◌∷◌, arith, if◌then◌else◌,
  Bool-cases, inl, inr,
}
use librouter.Prelude.Float.{
  Float, IsOrdered, ◌≼◌, ◌⊖◌, of_nat, nought, one, fmin-le_left, le_of_of_nat,
}
use librouter.Ratelimit.Bounds.{refill_now-le}
use librouter.Ratelimit.{Bucket, refill, ratelimit_script}

module _ {W : Type 0} ⦃d : Float W⦄ (now_ms rpm_cap tpm_cap : ℕ) (refill_rpm refill_tpm : W) where
  abbrev step : ℕ → Bucket W → Bool × Bucket W
  step t b =
      let (answer, after) = ratelimit_script now_ms rpm_cap tpm_cap refill_rpm refill_tpm t b in
      (answer.ok, after)

  -- The requests and the tokens that a row of acquires at one time is granted.
  unfoldable pub granted : List ℕ → Bucket W → ℕ × ℕ
  granted [] b = (0, 0)
  granted (t ∷ ts) b =
      let (done, after) = step t b in
      let rest = granted ts after in if done then (rest.0 + 1, rest.1 + t) else rest

  module _ (laws : IsOrdered W) (hr : nought ≼ refill_rpm) (ht : nought ≼ refill_tpm) where
    open laws use {le_refl, le_trans, add-zero, zero-mul, add_mono, sub_of_nat}

    refill-le :
        (cap n : ℕ) (per_ms x : W) (b : Bucket W)
        → nought ≼ per_ms
        → b.last_refill_ms ≡ some now_ms
        → x ≼ of_nat n
        → refill now_ms cap per_ms b (some x) ≼ of_nat n
    refill-le cap n per_ms x b hp e h =
        le_trans _ _ _ (refill_now-le laws now_ms cap per_ms x b hp e) h

    -- What an acquire at this time finds, bounded by whole numbers.
    abbrev IsBelow : ℕ → ℕ → Bucket W → Type 0
    IsBelow n m b =
        (refill now_ms rpm_cap refill_rpm b b.rpm_remaining ≼ of_nat n)
        × (refill now_ms tpm_cap refill_tpm b b.tpm_remaining ≼ of_nat m)

    stored : W → W → Bucket W
    stored r t = record {
      rpm_remaining = some r;
      tpm_remaining = some t;
      last_refill_ms = some now_ms;
    }

    stored-IsBelow : (n m : ℕ) (r t : W) → r ≼ of_nat n → t ≼ of_nat m → IsBelow n m (stored r t)
    unfolding stored
    stored-IsBelow n m r t h k = (
      refill-le rpm_cap n refill_rpm r (stored r t) hr refl h,
      refill-le tpm_cap m refill_tpm t (stored r t) ht refl k,
    )

    step_refused :
        (t n m : ℕ) (b : Bucket W) → IsBelow n m b → (step t b).0 ≡ false → IsBelow n m (step t b).1
    unfolding ratelimit_script stored
    step_refused t n m b (h, k) refused =
        let r = refill now_ms rpm_cap refill_rpm b b.rpm_remaining in
        let tp = refill now_ms tpm_cap refill_tpm b b.tpm_remaining in
        elim (Bool-cases (d.le one r && d.le (of_nat t) tp)) [
          | inl e ↦ absurd (ground arith)
          | inr e ↦ rw e (stored-IsBelow n m r tp h k)
        ]

    step_granted :
        (t n m : ℕ) (b : Bucket W)
        → IsBelow n m b
        → (step t b).0 ≡ true
        → (1 ≤ n) × (t ≤ m) × IsBelow (n - 1) (m - t) (step t b).1
    unfolding ratelimit_script stored
    step_granted t n m b (h, k) done =
        let r = refill now_ms rpm_cap refill_rpm b b.rpm_remaining in
        let tp = refill now_ms tpm_cap refill_tpm b b.tpm_remaining in
        elim (Bool-cases (d.le one r && d.le (of_nat t) tp)) [
          | inl e ↦
              let one_le : one ≼ r = ground arith in
              let t_le : of_nat t ≼ tp = ground arith in
              let n_pos : 1 ≤ n = le_of_of_nat laws 1 n (le_trans _ _ _ one_le h) in
              let m_ge : t ≤ m = le_of_of_nat laws t m (le_trans _ _ _ t_le k) in
              rw e (
                n_pos,
                m_ge,
                stored-IsBelow (n - 1) (m - t) (r ⊖ one) (tp ⊖ of_nat t) (sub_of_nat r 1 n n_pos h)
                    (sub_of_nat tp t m m_ge k),
              )
          | inr e ↦ absurd (ground arith)
        ]

    granted-le :
        (ts : List ℕ) (n m : ℕ) (b : Bucket W)
        → IsBelow n m b
        → ((granted ts b).0 ≤ n) × ((granted ts b).1 ≤ m)
    unfolding granted
    granted-le [] n m b h = omega arith
    granted-le (t ∷ ts) n m b h = elim (Bool-cases (step t b).0) [
      | inl e ↦
          let (n_pos, m_ge, low) = step_granted t n m b h e in
          let (ih_n, ih_m) = granted-le ts (n - 1) (m - t) (step t b).1 low in
          rw e (omega arith, omega arith)
      | inr e ↦ rw e (granted-le ts n m (step t b).1 (step_refused t n m b h e))
    ]

    -- However many acquires of whatever sizes hit one bucket within one millisecond, and whatever
    -- it held, they are granted at most `rpm_cap` requests and `tpm_cap` tokens together.
    pub granted-le-caps :
        (ts : List ℕ) (b : Bucket W) → ((granted ts b).0 ≤ rpm_cap) × ((granted ts b).1 ≤ tpm_cap)
    unfolding refill
    granted-le-caps ts b =
        granted-le ts rpm_cap tpm_cap b (fmin-le_left laws _ _, fmin-le_left laws _ _)
