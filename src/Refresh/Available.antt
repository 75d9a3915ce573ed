-- ===== src/Refresh/Available.antt =====
-- Whatever Redis answers, only candidates of available providers get signals
-- (gateway/routing/refresh.py).
use mathlib.Core.Option.{some-injective}
use librouter.Prelude.{
  ◌≡◌, ap, String, true, ◌⊎◌, inl, inr, Option, some, List, [], ◌∷◌, arith, Bool-cases,
  Option-cases, ◌==◌,
}
use librouter.Prelude.Dict.{put}
use librouter.Models.{CandidateRef, candidate_eq, Config}
use librouter.Weights.{WeightEngine, update_cache}
use librouter.Refresh.{
  Sources, Seen, Signals, is_available, read_signals, collect, build_signals, tick, all_candidates,
}
use librouter.Refresh.Signals.{has, has-put, same_availability}

module _ {W S : Type 0} (sources : Sources W S) (available : Option (List String)) where
  -- Every candidate with signals is one that was there before, or is available.
  abbrev IsCovered : Signals W → Signals W → Type 0
  IsCovered out result =
      (c : CandidateRef)
      → has result c ≡ true
      → (has out c ≡ true) ⊎ (is_available available c ≡ true)

  collect-IsCovered :
      (seen : Seen W) (out : Signals W) (s : S) (r : Signals W × S)
      → collect sources available seen out s ≡ some r
      → IsCovered out (r.0)
  unfolding collect
  collect-IsCovered [] out s r e c h =
      let same : out ≡ r.0 = ap (λ (x : Signals W × S). x.0) (some-injective _ _ e) in
      inl (rw same h)
  collect-IsCovered ((cand, (base_weight, rl)) ∷ rest) out s r e c h =
      elim (Bool-cases (is_available available cand)) [
        | inr shut ↦ collect-IsCovered rest out s r (rw shut at e) c h
        | inl usable ↦ elim (Option-cases (read_signals sources cand base_weight rl s)) [
          | inl failed ↦ absurd (ground (arith, rw (usable, failed) at e))
          | inr ((signals, s'), read) ↦
              elim (collect-IsCovered rest (put cand signals out) s' r (rw (usable, read) at e) c
                h) [
                  | inl before ↦ elim (Bool-cases (cand == c)) [
                    | inl same ↦ inr (rw (same_availability available cand c same) usable)
                    | inr other ↦ inl (ground (arith, has-put cand c signals out))
                  ]
                  | inr there ↦ inr there
                ]
        ]
      ]

  -- After a tick the cache of the engine has available candidates only.
  pub tick-IsAvailable :
      (cfg : Config W) (engine engine' : WeightEngine W) (s s' : S) (c : CandidateRef)
      → tick sources available cfg engine s ≡ some (engine', s')
      → has engine'.cache c ≡ true
      → is_available available c ≡ true
  unfolding tick build_signals update_cache
  tick-IsAvailable cfg engine engine' s s' c e h =
      elim (Option-cases (sources.refresh_snapshot s)) [
        | inl down ↦ absurd (ground (arith, rw (tick, build_signals, down) at e))
        | inr (s1, up) ↦
            elim (Option-cases (collect sources available (all_candidates cfg.tiers []) [] s1)) [
              | inl failed ↦ absurd (ground (arith, rw (tick, build_signals, up, failed) at e))
              | inr ((signals, s2), collected) ↦
                  let same : engine'.cache ≡ signals =
                    ground (arith, rw (tick, build_signals, up, collected) at e) in
                  elim (collect-IsCovered (all_candidates cfg.tiers []) [] s1 (signals, s2)
                    collected c (rw same at h)) [
                      | inl none_before ↦ absurd (ground arith)
                      | inr there ↦ there
                    ]
            ]
      ]
