-- ===== src/Ratelimit/Store.antt =====
-- `RedisTokenBucket` over the whole of Redis (gateway/ratelimit.py): which buckets a call touches.
use librouter.Prelude.{ℕ, ◌≡◌, refl, String, false, string_eq, ◌==◌, Option-cases, inl, inr}
use librouter.Prelude.Dict.{Dict, get, put, get-put_ne}
use librouter.Prelude.Float.{Float}
use librouter.Models.{RateLimitEntry}
use librouter.Ratelimit.{
  Bucket, Result, ok, key_error, bucket_at, bucket_key, candidate_key, ratelimit_acquire,
  try_acquire, clamp, remaining,
}

-- What Redis holds after a call: a `KeyError` comes before any command is sent.
abbrev pub store_after : {A S : Type 0} → Result (A × S) → S → S
store_after (ok (a, after)) store = after
store_after (key_error key) store = store

module _ {W : Type 0} ⦃d : Float W⦄ (limits : Dict String RateLimitEntry) (provider model : String)
    (now_ms : ℕ) (store : Dict String (Bucket W)) where
  -- A call for one candidate leaves every bucket under another key as it was, and the key of the
  -- bucket is what `bucket_key` makes of the candidate.
  pub bucket_calls_frame :
      (request_tokens rpm_observed tpm_observed : ℕ) (key : String)
      → (bucket_key provider model == key) ≡ false
      → (bucket_at
            (store_after (try_acquire limits provider model request_tokens now_ms store) store)
            key
          ≡ bucket_at store key)
        × (bucket_at
              (store_after (clamp limits provider model rpm_observed tpm_observed store) store)
              key
            ≡ bucket_at store key)
        × (bucket_at (store_after (remaining limits provider model now_ms store) store) key
            ≡ bucket_at store key)
  unfolding try_acquire clamp remaining ratelimit_acquire
  bucket_calls_frame request_tokens rpm_observed tpm_observed key h =
      elim (Option-cases (get limits (candidate_key provider model))) [
        | inl e ↦ rw (e, store_after, try_acquire, clamp, remaining) (refl, refl, refl)
        | inr (entry, e) ↦
            rw (e, store_after, try_acquire, clamp, remaining) (kept _, kept _, kept _)
      ]
    where
      kept :
          (b : Bucket W)
          → bucket_at (put (bucket_key provider model) b store) key ≡ bucket_at store key
      kept b = rw (get-put_ne (bucket_key provider model) key b store h)
