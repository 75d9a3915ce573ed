-- ===== src/Ratelimit/Bounds.antt =====
-- The invariant of a bucket (the Lua scripts of gateway/redis_state.py): what is stored lies
-- between zero and the cap.
use librouter.Prelude.{ℕ, ◌≡◌, refl, Option, none, some, arith, ltb, if◌then◌else◌, ◌-◌}
use librouter.Prelude.Float.{
  Float, IsOrdered, ◌≼◌, ◌⊖◌, ◌⊗◌, of_nat, nought, le-fmin, fmin-le_left, fmin-le_right, le_of_lt,
  le_of_not-le,
}
use librouter.Ratelimit.{Bucket, or_else, refill, ratelimit_script, clamp_script}

module _ {W : Type 0} ⦃d : Float W⦄ where
  -- A stored count is not negative; a field that is absent stands for a full bucket.
  abbrev pub IsNonneg : Option W → Type 0
  IsNonneg none = Unit
  IsNonneg (some x) = nought ≼ x

  -- A count is stored, and lies between zero and the cap.
  abbrev pub IsWithin : ℕ → Option W → Type 0
  IsWithin cap none = ⊥
  IsWithin cap (some x) = (nought ≼ x) × (x ≼ of_nat cap)

  -- What a clamp may leave of a count, given what the vendor reports and the old count.
  abbrev pub IsClamped : ℕ → Option W → Option W → Type 0
  IsClamped observed old none = ⊥
  IsClamped observed none (some x) = (x ≼ of_nat observed) × (nought ≼ x)
  IsClamped observed (some o) (some x) = (x ≼ of_nat observed) × (nought ≼ x) × (x ≼ o)

  module _ (laws : IsOrdered W) where
    open laws use {
      le_refl, le_trans, le-add, mul_nonneg, of_nat_mono, sub_nonneg, sub-le, lt-eq-not-le,
      add_mono, zero-mul, add-zero,
    }

    pub zero-le-of_nat : (n : ℕ) → ◌≼◌ {W = W} nought (of_nat n)
    zero-le-of_nat n = of_nat_mono 0 n (omega arith)

    or_else-nonneg :
        (cap : ℕ) (field : Option W) → IsNonneg field → nought ≼ or_else field (of_nat cap)
    or_else-nonneg cap none h = zero-le-of_nat cap
    or_else-nonneg cap (some x) h = h

    pub refill_bounds :
        (now_ms cap : ℕ) (per_ms : W) (b : Bucket W) (field : Option W)
        → nought ≼ per_ms
        → IsNonneg field
        → (nought ≼ refill now_ms cap per_ms b field)
          × (refill now_ms cap per_ms b field ≼ of_nat cap)
    unfolding refill
    refill_bounds now_ms cap per_ms b field hp hf =
        let last_ms = or_else (b.last_refill_ms) now_ms in
        let elapsed = if ltb now_ms last_ms then 0 else now_ms - last_ms in
        let rem = or_else field (of_nat cap) in
        let more = of_nat elapsed ⊗ per_ms in
        let kept = le-add rem more (mul_nonneg _ _ (zero-le-of_nat elapsed) hp) in
        let sum = le_trans _ _ _ (or_else-nonneg cap field hf) kept in
        (le-fmin laws _ _ _ (zero-le-of_nat cap) sum, fmin-le_left laws _ _)

    -- At the time of the last refill nothing is added.
    pub refill_now-le :
        (now_ms cap : ℕ) (per_ms x : W) (b : Bucket W)
        → nought ≼ per_ms
        → b.last_refill_ms ≡ some now_ms
        → refill now_ms cap per_ms b (some x) ≼ x
    unfolding refill
    refill_now-le now_ms cap per_ms x b hp e = rw e (
        let none_added : (if ltb now_ms now_ms then 0 else now_ms - now_ms) ≡ 0 = ground arith in
        rw none_added (
          le_trans _ _ _ (fmin-le_right laws _ _)
            (le_trans _ _ _ (add_mono _ _ _ _ (le_refl x) (zero-mul per_ms hp)) (add-zero x))))

    -- A count that is debited by no more than it holds stays within its bounds.
    debit-IsWithin :
        (cap m : ℕ) (x : W) → of_nat m ≼ x → x ≼ of_nat cap → IsWithin cap (some (x ⊖ of_nat m))
    debit-IsWithin cap m x h k =
        (sub_nonneg _ _ h, le_trans _ _ _ (sub-le x (of_nat m) (zero-le-of_nat m)) k)

    -- After every acquire, granted or refused, both stored counts lie between zero and their caps,
    -- if what was stored before is not negative and the refill rates are not.
    pub ratelimit_script-IsWithin :
        (now_ms rpm_cap tpm_cap : ℕ) (refill_rpm refill_tpm : W) (req_tokens : ℕ) (b : Bucket W)
        → nought ≼ refill_rpm
        → nought ≼ refill_tpm
        → IsNonneg b.rpm_remaining
        → IsNonneg b.tpm_remaining
        → let after =
            (ratelimit_script now_ms rpm_cap tpm_cap refill_rpm refill_tpm req_tokens b).1 in
          IsWithin rpm_cap after.rpm_remaining × IsWithin tpm_cap after.tpm_remaining
    unfolding ratelimit_script
    ratelimit_script-IsWithin now_ms rpm_cap tpm_cap refill_rpm refill_tpm req_tokens b hr ht nr
          nt =
        let r = refill now_ms rpm_cap refill_rpm b b.rpm_remaining in
        let t = refill now_ms tpm_cap refill_tpm b b.tpm_remaining in
        let br = refill_bounds now_ms rpm_cap refill_rpm b b.rpm_remaining hr nr in
        let bt = refill_bounds now_ms tpm_cap refill_tpm b b.tpm_remaining ht nt in
        ground (arith, br, bt, debit-IsWithin rpm_cap 1 r, debit-IsWithin tpm_cap req_tokens t)

    clamp_one-IsClamped :
        (observed : ℕ) (field : Option W)
        → IsNonneg field
        → let cur = or_else field (of_nat observed) in
          IsClamped observed field
            (some (if d.lt (of_nat observed) cur then of_nat observed else cur))
    clamp_one-IsClamped observed none h =
        ground (arith, le_refl (of_nat observed), zero-le-of_nat observed)
    clamp_one-IsClamped observed (some x) h = ground (
      arith,
      le_refl x,
      le_refl (of_nat observed),
      zero-le-of_nat observed,
      le_of_lt laws (of_nat observed) x,
      lt-eq-not-le (of_nat observed) x,
      le_of_not-le laws x (of_nat observed),
    )

    -- If the stored counts are not negative, a clamp never raises a count: each new count is at
    -- most what the vendor reports and at most the old one, and is not negative. The time of the
    -- last refill stays.
    pub clamp_script-IsClamped :
        (rpm_observed tpm_observed : ℕ) (b : Bucket W)
        → IsNonneg b.rpm_remaining
        → IsNonneg b.tpm_remaining
        → let after = (clamp_script rpm_observed tpm_observed b).1 in
          IsClamped rpm_observed b.rpm_remaining after.rpm_remaining
          × IsClamped tpm_observed b.tpm_remaining after.tpm_remaining
          × (after.last_refill_ms ≡ b.last_refill_ms)
    unfolding clamp_script
    clamp_script-IsClamped rpm_observed tpm_observed b hr ht = (
      clamp_one-IsClamped rpm_observed b.rpm_remaining hr,
      clamp_one-IsClamped tpm_observed b.tpm_remaining ht,
      refl,
    )
