-- ===== src/Breaker/Keys.antt =====
-- gateway/breaker.py: the scan of the sample keys in Redis, and the slot of a half-open probe.
-- `show` writes a number in decimal; Redis is a parameter, with `set_nx_ex` for `SET NX EX`.
use Prim.Native.String.{◌++◌ as str_append}
use librouter.Prelude.{ℕ, String, Bool, Option, none, some, List, [], ◌∷◌, string_eq}
use librouter.Prelude.Int.{ℤ, pos_part}
use librouter.Prelude.Float.{Float}
use librouter.Models.{CandidateRef}
use librouter.Auth.{drop_prefix}
use librouter.Breaker.{Snapshot, seed_snapshot}

-- The text before and after the first place where `sep` stands: `split(sep, 1)` with two parts.
unfoldable pub cut : String → String → Option (String × String)
unfolding drop_prefix
cut sep String.[] = none
cut sep (String.◌∷◌ c s) =
    let later : Option (String × String) = cut sep s in
    elim (drop_prefix sep (String.◌∷◌ c s)) [
      | some rest ↦ some ("", rest)
      | none ↦ elim later [ none ↦ none | some (before, rest) ↦ some (String.◌∷◌ c before, rest) ]
    ]

-- `split(sep)`, if it has exactly two parts.
unfoldable pub split_two : String → String → Option (String × String)
unfolding cut
split_two sep s = elim (cut sep s) [
  | none ↦ none
  | some (a, b) ↦ elim (cut sep b) [ none ↦ some (a, b) | some _ ↦ none ]
]

unfoldable pub sample_key : (ℤ → String) → String → String → ℤ → String
sample_key show provider model epoch_sec = str_append "gw:brk:" (
    str_append provider
      (str_append ":" (str_append model (str_append ":samples:" (show epoch_sec)))))

-- The candidate that a sample key names; other keys are passed over.
unfoldable pub parse_key : String → Option CandidateRef
unfolding cut split_two drop_prefix
parse_key key = elim (drop_prefix "gw:brk:" key) [
  | none ↦ none
  | some rest ↦ elim (split_two ":samples:" rest) [
    | none ↦ none
    | some (named, epoch_sec) ↦ elim (cut ":" named) [
      | none ↦ none
      | some (provider, model_name) ↦ some (record { provider = provider; model = model_name })
    ]
  ]
]

unfoldable pub scan_candidates : List String → List CandidateRef
unfolding parse_key
scan_candidates [] = []
scan_candidates (key ∷ keys) =
    let rest = scan_candidates keys in
    elim (parse_key key) [ none ↦ rest | some cand ↦ cand ∷ rest ]

-- The seeding from the keys that `SCAN` returns.
unfoldable pub seed_snapshot_from_keys :
    {W : Type 0} ⦃d : Float W⦄ → List String → Snapshot W → Snapshot W
unfolding scan_candidates seed_snapshot
seed_snapshot_from_keys keys snapshot = seed_snapshot (scan_candidates keys) snapshot

unfoldable pub breaker_probe_key : String → String → String
breaker_probe_key provider model =
    str_append "gw:brk:" (str_append provider (str_append ":" (str_append model ":probe")))

unfoldable pub acquire_probe_lock :
    {R : Type 0} → (String → String → ℕ → R → Bool × R) → String → String → ℕ → R → Bool × R
acquire_probe_lock set_nx_ex probe_key holder ttl_s r = set_nx_ex probe_key holder ttl_s r

unfoldable pub try_probe :
    {W R : Type 0} ⦃d : Float W⦄
    → (ℕ → String)
    → (String → String → ℕ → R → Bool × R)
    → String
    → String
    → W
    → R
    → Bool × R
unfolding breaker_probe_key acquire_probe_lock
try_probe ⦃d⦄ show set_nx_ex provider model now r =
    acquire_probe_lock set_nx_ex (breaker_probe_key provider model)
      (str_append "probe:" (show (pos_part (d.trunc now)))) 10 r
