-- ===== src/Refresh/Signals.antt =====
-- Which candidates get signals (gateway/routing/refresh.py).
use librouter.Prelude.{
  ◌≡◌, refl, String, Bool, true, false, Option, some, List, [], ◌∷◌, arith, contains, ◌||◌, ◌&&◌,
  ◌==◌, Eq, Bool-cases, inl, inr, string_eq,
}
use librouter.Prelude.Dict.{Dict, setdefault, put}
use librouter.Prelude.Int.{ℤ}
use librouter.Models.{
  CandidateRef, candidate_eq, Config, RateLimitEntry, TierConfig, TierEntry, ref_of,
}
use librouter.Breaker.{BreakerState}
use librouter.Observe.{WindowAggregate}
use librouter.Weights.{CandidateSignals}
use librouter.Weights.Pick.{refs}
use librouter.Refresh.{
  Sources, Seen, Signals, tier_candidates, all_candidates, is_available, signals_of, read_signals,
  collect, build_signals,
}

module _ {ℓ κ} {K : Type ℓ} {V : Type κ} ⦃e : Eq K⦄ where
  -- `k in d`
  abbrev pub has : Dict K V → K → Bool
  has [] k = false
  has ((j, v) ∷ d) k = j == k || has d k

  pub has-put : (k j : K) (v : V) (d : Dict K V) → has (put k v d) j ≡ (has d j || (k == j))
  unfolding put
  has-put k j v [] = ground arith
  has-put k j v ((i, w) ∷ d) =
      ground (arith, e.beq_iff i k, e.beq_iff i j, e.beq_iff k j, has-put k j v d)

  has-setdefault :
      (k j : K) (v : V) (d : Dict K V) → has (setdefault k v d) j ≡ (has d j || (k == j))
  unfolding setdefault
  has-setdefault k j v [] = ground arith
  has-setdefault k j v ((i, w) ∷ d) =
      ground (arith, e.beq_iff i k, e.beq_iff i j, e.beq_iff k j, has-setdefault k j v d)

module _ {W : Type 0} (c : CandidateRef) where
  -- The candidate stands in some tier.
  abbrev pub in_tiers : Dict String (TierConfig W) → Bool
  in_tiers [] = false
  in_tiers ((name, tier) ∷ tiers) = contains (refs tier.candidates) c || in_tiers tiers

  has-tier_candidates :
      (ts : List (TierEntry W)) (seen : Seen W)
      → has (tier_candidates ts seen) c ≡ (has seen c || contains (refs ts) c)
  unfolding tier_candidates
  has-tier_candidates [] seen = ground arith
  has-tier_candidates (t ∷ ts) seen =
      let next = setdefault (ref_of t) (t.weight, t.rate_limits) seen in
      ground (
        arith,
        has-tier_candidates ts next,
        has-setdefault (ref_of t) c (t.weight, t.rate_limits) seen,
      )

  has-all_candidates :
      (tiers : Dict String (TierConfig W)) (seen : Seen W)
      → has (all_candidates tiers seen) c ≡ (has seen c || in_tiers tiers)
  unfolding all_candidates
  has-all_candidates [] seen = ground arith
  has-all_candidates ((name, tier) ∷ tiers) seen = ground (
    arith,
    has-all_candidates tiers (tier_candidates tier.candidates seen),
    has-tier_candidates tier.candidates seen,
  )

pub same_availability :
    (available : Option (List String)) (cand c : CandidateRef)
    → (cand == c) ≡ true
    → is_available available c ≡ is_available available cand
same_availability available cand c h = rw ((candidate_eq.beq_iff cand c).0 h) refl

module _ {W S : Type 0} (sources : Sources W S) where
  -- Redis answers, and the bucket has limits for the candidates of the tiers.
  pub record IsUp (cfg : Config W) : Type 0 where
    pub refreshed : (s : S) → (s' : S) × (sources.refresh_snapshot s ≡ some s')
    pub aggregated :
        (cand : CandidateRef) (s : S)
        → (r : WindowAggregate W × S) × (sources.aggregate cand s ≡ some r)
    pub measured :
        (cand : CandidateRef) (s : S)
        → in_tiers cand cfg.tiers ≡ true
        → (r : (ℤ × ℤ) × S) × (sources.remaining cand.provider cand.model s ≡ some r)
    pub looked_up :
        (provider model : String) (s : S)
        → (r : BreakerState × S) × (sources.state provider model s ≡ some r)

  module _ (available : Option (List String)) (cfg : Config W) (up : IsUp cfg) where
    read_signals-total :
        (cand : CandidateRef) (base_weight : W) (rl : RateLimitEntry) (s : S)
        → in_tiers cand cfg.tiers ≡ true
        → (r : CandidateSignals W × S) × (read_signals sources cand base_weight rl s ≡ some r)
    unfolding read_signals
    read_signals-total cand base_weight rl s listed =
        let (a, ea) = up.aggregated cand s in
        let (m, em) = up.measured cand a.1 listed in
        let (b, eb) = up.looked_up cand.provider cand.model m.1 in
        ((signals_of base_weight rl a.0 m.0 b.0, b.1), rw (read_signals, ea, em, eb) refl)

    collect-covers :
        (seen : Seen W) (out : Signals W) (s : S)
        → ((c : CandidateRef) → has seen c ≡ true → in_tiers c cfg.tiers ≡ true)
        → (r : Signals W × S) × (collect sources available seen out s ≡ some r)
          × ((c : CandidateRef)
              → has r.0 c ≡ (has out c || (has seen c && is_available available c)))
    unfolding collect
    collect-covers [] out s listed = ((out, s), refl, λ c. ground arith)
    collect-covers ((cand, (base_weight, rl)) ∷ rest) out s listed =
        let later : (c : CandidateRef) → has rest c ≡ true → in_tiers c cfg.tiers ≡ true =
          λ c there. listed c (ground (arith, there)) in
        elim (Bool-cases (is_available available cand)) [
          | inr shut ↦
              let (r, e, h) = collect-covers rest out s later in
              (
                r,
                rw shut e,
                λ c. elim (Bool-cases (cand == c)) [
                  | inl same ↦ ground (arith, h c, same_availability available cand c same)
                  | inr other ↦ ground (arith, h c)
                ],
              )
          | inl usable ↦
              let ((signals, s'), er) =
                read_signals-total cand base_weight rl s
                  (listed cand (ground (arith, candidate_eq.beq_iff cand cand))) in
              let (r, e, h) = collect-covers rest (put cand signals out) s' later in
              (
                r,
                rw (usable, er) e,
                λ c. elim (Bool-cases (cand == c)) [
                  | inl same ↦ ground (
                    arith,
                    h c,
                    has-put cand c signals out,
                    same_availability available cand c same,
                  )
                  | inr other ↦ ground (arith, h c, has-put cand c signals out)
                ],
              )
        ]

    -- While Redis answers and the bucket has limits for every candidate of the tiers,
    -- `build_signals` does not raise, and has signals for exactly the candidates of the tiers whose
    -- provider is available.
    pub build_signals-covers :
        (s : S)
        → (r : Signals W × S) × (build_signals sources available cfg s ≡ some r)
          × ((c : CandidateRef) → has r.0 c ≡ (in_tiers c cfg.tiers && is_available available c))
    unfolding build_signals
    build_signals-covers s =
        let (s', up_to_date) = up.refreshed s in
        let (r, e, h) =
          collect-covers (all_candidates cfg.tiers []) [] s'
            (λ c there. ground (arith, there, has-all_candidates c cfg.tiers [])) in
        (
          r,
          rw (build_signals, up_to_date) e,
          λ c. ground (arith, h c, has-all_candidates c cfg.tiers []),
        )
