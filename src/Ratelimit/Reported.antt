-- ===== src/Ratelimit/Reported.antt =====
-- The counts that `RedisTokenBucket.remaining` reports (gateway/ratelimit.py).
use librouter.Prelude.{
  ℕ, suc, ◌+◌, ◌≡◌, refl, String, ◌&&◌, Option, some, arith, string_eq, Bool-cases, inl, inr, leb,
}
use librouter.Prelude.Dict.{Dict, get, put}
use librouter.Prelude.Int.{ℤ, pos, pos_part, neg_part, ◌≤ℤ◌}
use librouter.Prelude.Float.{Float, IsOrdered, ◌≼◌, ◌⊖◌, ◌⊘◌, of_nat, nought, one, le_of_of_nat}
use librouter.Models.{RateLimitEntry}
use librouter.Ratelimit.{
  Bucket, ok, bucket_at, bucket_key, candidate_key, refill, ratelimit_script, ratelimit_acquire,
  remaining,
}
use librouter.Ratelimit.Bounds.{IsNonneg, IsWithin, ratelimit_script-IsWithin, zero-le-of_nat}

module _ {W : Type 0} ⦃d : Float W⦄ (laws : IsOrdered W) where
  open laws use {le_trans, of_nat-lt, div_nonneg, floor_iff}

  -- Whole numbers between zero and a cap.
  abbrev pub IsCount : ℕ → ℤ → Type 0
  IsCount most n = (pos 0 ≤ℤ n) × (n ≤ℤ pos most)

  floor-IsCount : (most : ℕ) (x : W) → nought ≼ x → x ≼ of_nat most → IsCount most (d.floor x)
  floor-IsCount most x low high =
      let n = d.floor x in
      (
        (floor_iff 0 x low).0 low,
        elim (Bool-cases (leb (pos_part n) (most + neg_part n))) [
          | inl e ↦ ground arith
          | inr e ↦
              let above : pos (suc most) ≤ℤ n = ground arith in
              let wrong =
                le_of_of_nat laws (suc most) most
                  (le_trans _ _ _ ((floor_iff (suc most) x low).1 above) high) in
              absurd (omega (arith, wrong))
        ],
      )

  floored-IsCount :
      (most : ℕ) (field : Option W) (x : W)
      → field ≡ some x
      → IsWithin most field
      → IsCount most (d.floor x)
  floored-IsCount most field x e h =
      let within : (nought ≼ x) × (x ≼ of_nat most) = rw e at h in
      floor-IsCount most x within.0 within.1

  -- The reply has the floors of what is stored.
  replied :
      (now_ms rpm_cap tpm_cap : ℕ) (refill_rpm refill_tpm : W) (t : ℕ) (b : Bucket W)
      → let r = ratelimit_script now_ms rpm_cap tpm_cap refill_rpm refill_tpm t b in
        (x : W) × (y : W) × (r.1.rpm_remaining ≡ some x)
        × (r.1.tpm_remaining ≡ some y)
        × (r.0.rpm ≡ d.floor x)
        × (r.0.tpm ≡ d.floor y)
  unfolding ratelimit_script
  replied now_ms rpm_cap tpm_cap refill_rpm refill_tpm t b =
      let rpm = refill now_ms rpm_cap refill_rpm b b.rpm_remaining in
      let tpm = refill now_ms tpm_cap refill_tpm b b.tpm_remaining in
      elim (Bool-cases (d.le one rpm && d.le (of_nat t) tpm)) [
        | inl e ↦ rw (ratelimit_script, e) (rpm ⊖ one, tpm ⊖ of_nat t, refl, refl, refl, refl)
        | inr e ↦ rw (ratelimit_script, e) (rpm, tpm, refl, refl, refl, refl)
      ]

  -- With the order laws of floats, for a candidate with a rate limit whose stored counts are not
  -- negative, `remaining` does not raise, and reports counts between zero and the caps of the
  -- limit.
  pub remaining-IsCount :
      (limits : Dict String RateLimitEntry) (provider model : String) (entry : RateLimitEntry)
      (now_ms : ℕ) (store : Dict String (Bucket W))
      → get limits (candidate_key provider model) ≡ some entry
      → IsNonneg (bucket_at store (bucket_key provider model)).rpm_remaining
      → IsNonneg (bucket_at store (bucket_key provider model)).tpm_remaining
      → (counts : ℤ × ℤ) × (after : Dict String (Bucket W)) × (remaining limits provider model
            now_ms store
          ≡ ok (counts, after))
        × IsCount entry.rpm counts.0
        × IsCount entry.tpm counts.1
  unfolding remaining ratelimit_acquire
  remaining-IsCount limits provider model entry now_ms store known hr ht =
      let b = bucket_at store (bucket_key provider model) in
      let rate = λ (n : ℕ). of_nat {W = W} n ⊘ of_nat 60_000 in
      let rate_nonneg =
        λ (n : ℕ). div_nonneg _ _ (zero-le-of_nat laws n) (of_nat-lt 0 60_000 (omega arith)) in
      let r = ratelimit_script now_ms entry.rpm entry.tpm (rate entry.rpm) (rate entry.tpm) 0 b in
      let within =
        ratelimit_script-IsWithin laws now_ms entry.rpm entry.tpm (rate entry.rpm) (rate entry.tpm)
          0 b (rate_nonneg entry.rpm) (rate_nonneg entry.tpm) hr ht in
      let (x, y, ex, ey, fx, fy) =
        replied now_ms entry.rpm entry.tpm (rate entry.rpm) (rate entry.tpm) 0 b in
      (
        (r.0.rpm, r.0.tpm),
        put (bucket_key provider model) r.1 store,
        rw (remaining, known) refl,
        rw fx (floored-IsCount entry.rpm _ x ex within.0),
        rw fy (floored-IsCount entry.tpm _ y ey within.1),
      )
