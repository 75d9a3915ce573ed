-- ===== src/Ratelimit/Tests.antt =====
-- Instances of the theorems on gateway/ratelimit.py and the Lua scripts of gateway/redis_state.py,
-- at floats of whole thousandths.
use librouter.Prelude.{◌≤◌, ◌≡◌, refl, true, false, String, some, [], ◌∷◌, arith, string_eq}
use librouter.Prelude.Dict.{Dict, get, put}
use librouter.Prelude.Int.{ℤ, pos}
use librouter.Prelude.Float.{Milli, milli_float, Milli-IsOrdered}
use librouter.Models.{RateLimitEntry}
use librouter.Ratelimit.{
  Bucket, Reply, ok, key_error, bucket_at, bucket_key, candidate_key, estimate_tokens,
  ratelimit_script, clamp_script, refill, ratelimit_acquire, try_acquire, clamp, remaining,
}
use librouter.Ratelimit.Bounds.{
  IsWithin, IsClamped, ratelimit_script-IsWithin, clamp_script-IsClamped,
}
use librouter.Ratelimit.Burst.{granted, granted-le-caps}
use librouter.Ratelimit.Store.{store_after, bucket_calls_frame}
use librouter.Ratelimit.Reported.{IsCount, remaining-IsCount}
use librouter.Ratelimit.Metrics.{polls, polls-exhaust}

program : Unit {0}
unfolding get put candidate_key bucket_key estimate_tokens refill ratelimit_script clamp_script
    ratelimit_acquire try_acquire clamp remaining granted polls
program = tt

abbrev half_full : Bucket Milli
half_full = record {
  rpm_remaining = some 30_000;
  tpm_remaining = some 500_000;
  last_refill_ms = some 1000;
}

abbrev entry : RateLimitEntry
entry = record { rpm = 60; tpm = 1000 }

abbrev limits : Dict String RateLimitEntry
limits = ("openai/gpt", entry) ∷ []

abbrev empty : Dict String (Bucket Milli)
empty = []

-- One second later one request and seventeen tokens have come back; 100 tokens are asked for.
ratelimit_script_runs :
    (ratelimit_script 2000 60 1000 1 17 100 half_full).0
    ≡ record { ok = true; rpm = pos 30; tpm = pos 417 }
unfolding program
ratelimit_script_runs = refl

estimate_tokens_runs : estimate_tokens 403 1024 ≡ 1124
unfolding program
estimate_tokens_runs = refl

unknown_candidate : try_acquire limits "google" "gpt" 1 0 empty ≡ key_error "google/gpt"
unfolding program
unknown_candidate = refl

ratelimit_script-IsWithin_example :
    let after = (ratelimit_script 2000 60 1000 1 17 100 half_full).1 in
    IsWithin 60 after.rpm_remaining × IsWithin 1000 after.tpm_remaining
ratelimit_script-IsWithin_example =
    ratelimit_script-IsWithin Milli-IsOrdered 2000 60 1000 1 17 100 half_full refl refl refl refl

clamp_script-IsClamped_example :
    let after = (clamp_script 3 700 half_full).1 in
    IsClamped 3 (some 30_000) after.rpm_remaining
    × IsClamped 700 (some 500_000) after.tpm_remaining
    × (after.last_refill_ms ≡ some 1000)
clamp_script-IsClamped_example = clamp_script-IsClamped Milli-IsOrdered 3 700 half_full refl refl

granted-le-caps_example :
    let g = granted 2000 2 1000 1 17 (400 ∷ 700 ∷ 1 ∷ 1 ∷ []) half_full in (g.0 ≤ 2) × (g.1 ≤ 1000)
granted-le-caps_example =
    granted-le-caps 2000 2 1000 1 17 Milli-IsOrdered refl refl (400 ∷ 700 ∷ 1 ∷ 1 ∷ []) half_full

granted_runs : granted 2000 2 1000 1 17 (400 ∷ 700 ∷ 1 ∷ 1 ∷ []) half_full ≡ (2, 401)
unfolding program
granted_runs = refl

bucket_calls_frame_example :
    let key : String = "gw:bkt:openai:other" in
    (bucket_at (store_after (try_acquire limits "openai" "gpt" 5 0 empty) empty) key
      ≡ bucket_at empty key)
    × (bucket_at (store_after (clamp limits "openai" "gpt" 7 9 empty) empty) key
        ≡ bucket_at empty key)
    × (bucket_at (store_after (remaining limits "openai" "gpt" 0 empty) empty) key
        ≡ bucket_at empty key)
unfolding program
bucket_calls_frame_example =
    bucket_calls_frame limits "openai" "gpt" 0 empty 5 7 9 "gw:bkt:openai:other" refl

polls-exhaust_example :
    let polled = polls limits "openai" "gpt" 0 60 empty in
    (r : Reply) × (after : Dict String (Bucket Milli)) × (try_acquire limits "openai" "gpt" 1 0
        polled
      ≡ ok (r, after))
    × (r.ok ≡ false)
unfolding program
polls-exhaust_example =
    polls-exhaust Milli-IsOrdered limits "openai" "gpt" 0 entry refl 60 1 empty (omega arith) tt tt

remaining-IsCount_example :
    (counts : ℤ × ℤ) × (after : Dict String (Bucket Milli)) × (remaining limits "openai" "gpt" 0
        empty
      ≡ ok (counts, after))
    × IsCount Milli-IsOrdered entry.rpm counts.0
    × IsCount Milli-IsOrdered entry.tpm counts.1
unfolding program
remaining-IsCount_example =
    remaining-IsCount Milli-IsOrdered limits "openai" "gpt" entry 0 empty refl tt tt
