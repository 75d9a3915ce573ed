-- ===== src/Models/Valid.antt =====
-- gateway/models.py: what pydantic checks of a configuration beyond the types of its fields. A
-- refused one raises a ValidationError.
use Prim.Native.Char.{Char, code}
use Prim.Native.String.{count}
use librouter.Prelude.{String, Bool, true, ◌&&◌, ◌||◌, List, [], ◌∷◌, ltb, leb, nat_eq, ◌==◌}
use librouter.Prelude.Dict.{Dict}
use librouter.Prelude.Float.{Float, nought}
use librouter.Models.{CallerEntry, Config, RateLimitEntry, RoutingConfig, TierConfig, TierEntry}

-- A character of a caller's name: a small letter, a digit, `_` or `-`.
abbrev is_name_char : Char → Bool
is_name_char c =
    let n = code c in (leb 97 n && leb n 122) || ((leb 48 n && leb n 57) || (n == 95 || n == 45))

name_chars_ok : String → Bool
name_chars_ok String.[] = true
name_chars_ok (String.◌∷◌ c s) = is_name_char c && name_chars_ok s

-- `CallerName`
unfoldable pub caller_name_ok : String → Bool
unfolding name_chars_ok
caller_name_ok name = leb 1 (count name) && (leb (count name) 64 && name_chars_ok name)

abbrev pub rate_limits_ok : RateLimitEntry → Bool
rate_limits_ok rl = ltb 0 rl.rpm && ltb 0 rl.tpm

abbrev pub callers_ok : List CallerEntry → Bool
callers_ok [] = true
callers_ok (c ∷ cs) = caller_name_ok c.name && callers_ok cs

module _ {W : Type 0} ⦃d : Float W⦄ where
  abbrev pub entry_ok : TierEntry W → Bool
  entry_ok t = d.le nought t.weight && rate_limits_ok t.rate_limits

  abbrev pub candidates_ok : List (TierEntry W) → Bool
  candidates_ok [] = true
  candidates_ok (t ∷ ts) = entry_ok t && candidates_ok ts

  abbrev pub tiers_ok : Dict String (TierConfig W) → Bool
  tiers_ok [] = true
  tiers_ok ((name, tier) ∷ tiers) = candidates_ok tier.candidates && tiers_ok tiers

  abbrev pub routing_ok : RoutingConfig W → Bool
  routing_ok r =
      ltb 0 r.refresh_interval_ms
      && (ltb 0 r.health_window_s
          && (d.lt nought r.target_latency_s && d.le nought r.min_weight_floor))

  unfoldable pub is_valid_config : Config W → Bool
  is_valid_config cfg = tiers_ok cfg.tiers && (routing_ok cfg.routing && callers_ok cfg.callers)
