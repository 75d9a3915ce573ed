-- ===== src/Ratelimit.antt =====
-- gateway/redis_state.py (the two Lua scripts and their runners) and gateway/ratelimit.py.
-- A bucket is the Redis hash with its three fields, each of which may be absent; the numbers of Lua
-- are doubles, so `W` again. Times are whole milliseconds, which doubles hold exactly.
pub mod Bounds
pub mod Scripts
pub mod Burst
pub mod Store
pub mod Metrics
pub mod Reported
mod Tests
use Prim.Native.Nat.{max}
use Prim.Native.String.{◌++◌ as str_append}
use librouter.Prelude.{
  ℕ, ◌+◌, ◌-◌, ◌/◌, String, Bool, true, false, ◌&&◌, Option, none, some, ltb, if◌then◌else◌,
  string_eq,
}
use librouter.Prelude.Dict.{Dict, get, put}
use librouter.Prelude.Int.{ℤ}
use librouter.Prelude.Float.{Float, ◌⊕◌, ◌⊖◌, ◌⊗◌, ◌⊘◌, of_nat, one, fmin}
use librouter.Models.{RateLimitEntry}

pub record Bucket (W : Type 0) : Type 0 where
  pub rpm_remaining : Option W
  pub tpm_remaining : Option W
  pub last_refill_ms : Option ℕ

-- The hash of a key that Redis does not hold.
abbrev pub absent : {W : Type 0} → Bucket W
absent = record { rpm_remaining = none; tpm_remaining = none; last_refill_ms = none }

-- The reply `{ok, floor(rpm_rem), floor(tpm_rem)}`.
pub record Reply : Type 0 where
  pub ok : Bool
  pub rpm : ℤ
  pub tpm : ℤ

-- `None` stands for the `KeyError` of `_entry`.
pub data Result (A : Type 0) : Type 0 where
  ok : A → Result A
  key_error : String → Result A

abbrev pub or_else {ℓ} : {A : Type ℓ} → Option A → A → A
or_else none a = a
or_else (some x) a = x

unfoldable pub estimate_tokens : ℕ → ℕ → ℕ
estimate_tokens prompt_chars max_tokens = max 1 (prompt_chars / 4 + max_tokens)

unfoldable pub candidate_key : String → String → String
candidate_key provider model = str_append provider (str_append "/" model)

unfoldable pub bucket_key : String → String → String
bucket_key provider model = str_append "gw:bkt:" (str_append provider (str_append ":" model))

module _ {W : Type 0} ⦃d : Float W⦄ where
  -- The refill of one dimension: `math.min(cap, rem + elapsed * refill)`.
  unfoldable pub refill : ℕ → ℕ → W → Bucket W → Option W → W
  refill now_ms cap per_ms b field =
      let last_ms = or_else (b.last_refill_ms) now_ms in
      let elapsed = if ltb now_ms last_ms then 0 else now_ms - last_ms in
      fmin (of_nat cap) (or_else field (of_nat cap) ⊕ of_nat elapsed ⊗ per_ms)

  -- What the script writes back and replies: HMSET of the three fields, and the rounded counts.
  abbrev pub script_reply : ℕ → Bool → W → W → Reply × Bucket W
  script_reply now_ms done rpm tpm = (
    record { ok = done; rpm = d.floor rpm; tpm = d.floor tpm },
    record { rpm_remaining = some rpm; tpm_remaining = some tpm; last_refill_ms = some now_ms },
  )

  -- RATELIMIT_LUA on one hash.
  unfoldable pub ratelimit_script : ℕ → ℕ → ℕ → W → W → ℕ → Bucket W → Reply × Bucket W
  ratelimit_script now_ms rpm_cap tpm_cap refill_rpm refill_tpm req_tokens b =
      let rpm_rem = refill now_ms rpm_cap refill_rpm b (b.rpm_remaining) in
      let tpm_rem = refill now_ms tpm_cap refill_tpm b (b.tpm_remaining) in
      if d.le one rpm_rem && d.le (of_nat req_tokens) tpm_rem
      then script_reply now_ms true (rpm_rem ⊖ one) (tpm_rem ⊖ of_nat req_tokens)
      else script_reply now_ms false rpm_rem tpm_rem

  -- CLAMP_LUA on one hash.
  unfoldable pub clamp_script : ℕ → ℕ → Bucket W → (ℤ × ℤ) × Bucket W
  clamp_script rpm_observed tpm_observed b =
      let rpm_cur = or_else (b.rpm_remaining) (of_nat rpm_observed) in
      let tpm_cur = or_else (b.tpm_remaining) (of_nat tpm_observed) in
      let rpm = if d.lt (of_nat rpm_observed) rpm_cur then of_nat rpm_observed else rpm_cur in
      let tpm = if d.lt (of_nat tpm_observed) tpm_cur then of_nat tpm_observed else tpm_cur in
      ((d.floor rpm, d.floor tpm), record b { rpm_remaining = some rpm; tpm_remaining = some tpm })

  -- The bucket of a key, where Redis answers `nil` for the fields of a key that it does not hold.
  abbrev pub bucket_at : Dict String (Bucket W) → String → Bucket W
  bucket_at store key = or_else (get store key) absent

  -- `RedisState.ratelimit_acquire` with the arguments that the facade computes from the entry.
  unfoldable pub ratelimit_acquire :
      String → ℕ → RateLimitEntry → ℕ → Dict String (Bucket W) → Reply × Dict String (Bucket W)
  unfolding ratelimit_script
  ratelimit_acquire key now_ms entry request_tokens store =
      let (answer, b) =
        ratelimit_script now_ms entry.rpm entry.tpm (of_nat entry.rpm ⊘ of_nat 60_000)
          (of_nat entry.tpm ⊘ of_nat 60_000) request_tokens (bucket_at store key) in
      (answer, put key b store)

  -- `RedisTokenBucket.try_acquire`: `limits` is `_limits`, `now_ms` what the clock returns.
  unfoldable pub try_acquire :
      Dict String RateLimitEntry
      → String
      → String
      → ℕ
      → ℕ
      → Dict String (Bucket W)
      → Result (Reply × Dict String (Bucket W))
  try_acquire limits provider model request_tokens now_ms store =
      elim (get limits (candidate_key provider model)) [
        | none ↦ key_error (candidate_key provider model)
        | some entry ↦
            ok (ratelimit_acquire (bucket_key provider model) now_ms entry request_tokens store)
      ]

  -- `RedisTokenBucket.clamp`
  unfoldable pub clamp :
      Dict String RateLimitEntry
      → String
      → String
      → ℕ
      → ℕ
      → Dict String (Bucket W)
      → Result ((ℤ × ℤ) × Dict String (Bucket W))
  clamp limits provider model rpm_observed tpm_observed store =
      elim (get limits (candidate_key provider model)) [
        | none ↦ key_error (candidate_key provider model)
        | some entry ↦
            let key = bucket_key provider model in
            let (observed, b) = clamp_script rpm_observed tpm_observed (bucket_at store key) in
            ok (observed, put key b store)
      ]

  -- `RedisTokenBucket.remaining`: an acquire of no tokens, whose verdict is thrown away.
  unfoldable pub remaining :
      Dict String RateLimitEntry
      → String
      → String
      → ℕ
      → Dict String (Bucket W)
      → Result ((ℤ × ℤ) × Dict String (Bucket W))
  remaining limits provider model now_ms store = elim (get limits (candidate_key provider model)) [
    | none ↦ key_error (candidate_key provider model)
    | some entry ↦
        let (answer, store') = ratelimit_acquire (bucket_key provider model) now_ms entry 0 store in
        ok ((answer.rpm, answer.tpm), store')
  ]
