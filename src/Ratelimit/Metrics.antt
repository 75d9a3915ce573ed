-- ===== src/Ratelimit/Metrics.antt =====
-- What `RedisTokenBucket.remaining` costs (gateway/ratelimit.py): it is meant as a read, and it
-- takes one request from the bucket each time.
use librouter.Prelude.{
  ℕ, zero, suc, ◌-◌, ◌≤◌, ◌≡◌, refl, String, false, Option, none, some, arith, string_eq,
  Bool-cases, inl, inr,
}
use librouter.Prelude.Dict.{Dict, get, put, get-put_self}
use librouter.Prelude.Float.{
  Float, IsOrdered, ◌≼◌, ◌≺◌, ◌⊘◌, ◌⊖◌, of_nat, nought, one, lt_of_le-lt, lt_of_lt-le, lt_of_not-le,
  not-le_of_lt, fmin-le_left,
}
use librouter.Models.{RateLimitEntry}
use librouter.Ratelimit.{
  Bucket, Reply, ok, bucket_at, bucket_key, candidate_key, refill, ratelimit_script,
  ratelimit_acquire, try_acquire, remaining,
}
use librouter.Ratelimit.Bounds.{
  IsNonneg, IsWithin, refill_now-le, refill_bounds, ratelimit_script-IsWithin, zero-le-of_nat,
}
use librouter.Ratelimit.Store.{store_after}

module _ {W : Type 0} ⦃d : Float W⦄ where
  -- Redis after `k` calls of `remaining` for one candidate in one millisecond.
  unfoldable pub polls :
      Dict String RateLimitEntry
      → String
      → String
      → ℕ
      → ℕ
      → Dict String (Bucket W)
      → Dict String (Bucket W)
  polls limits provider model now_ms zero store = store
  polls limits provider model now_ms (suc k) store =
      polls limits provider model now_ms k
        (store_after (remaining limits provider model now_ms store) store)

  module _ (laws : IsOrdered W) (limits : Dict String RateLimitEntry) (provider model : String)
      (now_ms : ℕ) (entry : RateLimitEntry) where
    open laws use {le_refl, le_trans, of_nat_mono, of_nat-lt, div_nonneg, sub_one-lt}

    abbrev key : String
    key = bucket_key provider model

    abbrev rate : ℕ → W
    rate cap = of_nat cap ⊘ of_nat 60_000

    rate-nonneg : (cap : ℕ) → nought ≼ rate cap
    rate-nonneg cap = div_nonneg _ _ (zero-le-of_nat laws cap) (of_nat-lt 0 60_000 (omega arith))

    abbrev acquire : ℕ → Bucket W → Reply × Bucket W
    acquire = ratelimit_script now_ms entry.rpm entry.tpm (rate entry.rpm) (rate entry.tpm)

    -- The requests that an acquire finds are fewer than `n`; nothing stored is negative.
    record IsLow (n : ℕ) (b : Bucket W) : Type 0 where
      below : refill now_ms entry.rpm (rate entry.rpm) b b.rpm_remaining ≺ of_nat n
      rpm_nonneg : IsNonneg b.rpm_remaining
      tpm_nonneg : IsNonneg b.tpm_remaining

    IsWithin-IsNonneg : (cap : ℕ) (field : Option W) → IsWithin cap field → IsNonneg field
    IsWithin-IsNonneg cap none h = absurd h
    IsWithin-IsNonneg cap (some x) h = h.0

    poll_below :
        (n : ℕ) (b : Bucket W)
        → IsLow (suc n) b
        → refill now_ms entry.rpm (rate entry.rpm) (acquire 0 b).1 (acquire 0 b).1.rpm_remaining
          ≺ of_nat (suc (n - 1))
    unfolding ratelimit_script
    poll_below n b h =
        let r = refill now_ms entry.rpm (rate entry.rpm) b b.rpm_remaining in
        let t = refill now_ms entry.tpm (rate entry.tpm) b b.tpm_remaining in
        let zero_le : of_nat 0 ≼ t =
          (refill_bounds laws now_ms entry.tpm (rate entry.tpm) b b.tpm_remaining
            (rate-nonneg entry.tpm) h.tpm_nonneg).0 in
        let stays : (x y : W)
            → x ≺ of_nat (suc (n - 1))
            → refill now_ms entry.rpm (rate entry.rpm)
                (record {
                  rpm_remaining = some x;
                  tpm_remaining = some y;
                  last_refill_ms = some now_ms;
                })
                (some x)
              ≺ of_nat (suc (n - 1)) =
          λ x y lt.
            lt_of_le-lt laws _ _ _
              (refill_now-le laws now_ms entry.rpm (rate entry.rpm) x _ (rate-nonneg entry.rpm)
                refl)
              lt in
        elim (Bool-cases (d.le one r)) [
          | inl e ↦
              rw (e, zero_le)
                (stays (r ⊖ one) (t ⊖ of_nat 0) (
                  lt_of_lt-le laws _ _ _ (sub_one-lt r n e h.below)
                    (of_nat_mono n (suc (n - 1)) (omega arith))))
          | inr e ↦ rw e (
              stays r t (
                lt_of_lt-le laws _ _ _ (lt_of_not-le laws one r e)
                  (of_nat_mono 1 (suc (n - 1)) (omega arith))))
        ]

    -- A call of `remaining` takes one request, or finds less than one.
    poll-IsLow : (n : ℕ) (b : Bucket W) → IsLow (suc n) b → IsLow (suc (n - 1)) (acquire 0 b).1
    poll-IsLow n b h = record {
      below = lower;
      rpm_nonneg = IsWithin-IsNonneg entry.rpm (acquire 0 b).1.rpm_remaining within.0;
      tpm_nonneg = IsWithin-IsNonneg entry.tpm (acquire 0 b).1.tpm_remaining within.1;
    }
      where
        within :
            IsWithin entry.rpm (acquire 0 b).1.rpm_remaining
            × IsWithin entry.tpm (acquire 0 b).1.tpm_remaining
        within =
            ratelimit_script-IsWithin laws now_ms entry.rpm entry.tpm (rate entry.rpm)
              (rate entry.tpm) 0 b (rate-nonneg entry.rpm) (rate-nonneg entry.tpm) h.rpm_nonneg
              h.tpm_nonneg

        lower :
            refill now_ms entry.rpm (rate entry.rpm) (acquire 0 b).1 (acquire 0 b).1.rpm_remaining
            ≺ of_nat (suc (n - 1))
        lower = poll_below n b h

    acquire-refused : (t : ℕ) (b : Bucket W) → IsLow 1 b → (acquire t b).0.ok ≡ false
    unfolding ratelimit_script
    acquire-refused t b h = rw (not-le_of_lt laws _ _ h.below)

    module _ (known : get limits (candidate_key provider model) ≡ some entry) where
      remaining-bucket :
          (store : Dict String (Bucket W))
          → bucket_at (store_after (remaining limits provider model now_ms store) store) key
            ≡ (acquire 0 (bucket_at store key)).1
      unfolding remaining ratelimit_acquire
      remaining-bucket store = rw (known, store_after, remaining) (rw get-put_self)

      polls-IsLow :
          (k n : ℕ) (store : Dict String (Bucket W))
          → n ≤ k
          → IsLow (suc n) (bucket_at store key)
          → IsLow 1 (bucket_at (polls limits provider model now_ms k store) key)
      unfolding polls
      polls-IsLow zero zero store le h = h
      polls-IsLow zero (suc n) store le h = absurd (omega arith)
      polls-IsLow (suc k) n store le h =
          polls-IsLow k (n - 1) _ (omega arith)
            (rw remaining-bucket (poll-IsLow n (bucket_at store key) h))

      -- Once `remaining` was called as often as the requests-per-minute cap, every acquire of the
      -- same millisecond is refused, whatever its size: the calls that only measure the bucket have
      -- emptied it. The candidate has a rate limit, and nothing negative is stored.
      pub polls-exhaust :
          (k t : ℕ) (store : Dict String (Bucket W))
          → entry.rpm ≤ k
          → IsNonneg (bucket_at store key).rpm_remaining
          → IsNonneg (bucket_at store key).tpm_remaining
          → let polled = polls limits provider model now_ms k store in
            (r : Reply) × (after : Dict String (Bucket W)) × (try_acquire limits provider model t
                now_ms polled
              ≡ ok (r, after))
            × (r.ok ≡ false)
      unfolding try_acquire ratelimit_acquire refill
      polls-exhaust k t store le hr ht =
          let polled = polls limits provider model now_ms k store in
          let full : IsLow (suc entry.rpm) (bucket_at store key) = record {
            below =
                lt_of_le-lt laws _ _ _ (fmin-le_left laws _ _)
                  (of_nat-lt entry.rpm (suc entry.rpm) (omega arith));
            rpm_nonneg = hr;
            tpm_nonneg = ht;
          } in
          (
            (acquire t (bucket_at polled key)).0,
            put key (acquire t (bucket_at polled key)).1 polled,
            rw (known, try_acquire),
            acquire-refused t (bucket_at polled key) (polls-IsLow k entry.rpm store le full),
          )
