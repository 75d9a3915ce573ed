-- ===== src/Router/Termination.antt =====
-- The failover loop of gateway/router.py ends: each round excludes one more candidate of the tier.
use librouter.Prelude.{
  ℕ, zero, suc, ◌≤◌, ◌<◌, ◌≡◌, refl, Option, none, some, List, [], ◌∷◌, arith, length, string_eq,
  String, Option-cases, inl, inr,
}
use librouter.Prelude.Outside.{count_outside, count_outside-le, count_outside-lt}
use librouter.Prelude.Dict.{get}
use librouter.Prelude.Float.{Float}
use librouter.Models.{Caller, candidate_eq, ChatCompletionRequest, Config, TierConfig, TierEntry}
use librouter.Weights.Pick.{refs}
use librouter.Router.{Outcome, Env, Settings, Loop, Turn, Call, done, again}
use librouter.Router.Route.{turn, rounds, route, start, set_up, unknown_tier}
use librouter.Router.Advance.{Advances, Ends, Allowed, turn-Allowed}

pub length-refs : {W : Type 0} (ts : List (TierEntry W)) → length (refs ts) ≡ length ts
length-refs [] = refl
length-refs (t ∷ ts) = omega (arith, length-refs ts)

-- The rounds between two states of the lists.
pub data Run {W : Type 0} (call : Call W) : Loop W → Loop W → Type 0 where
  here : {l : Loop W} → Run call l l
  next : {l m n : Loop W} → Advances call l m → Run call m n → Run call l n

-- The loop, begun at `l`, runs to lists at which it ends with the outcome that it returns.
abbrev pub Finishes :
    {W S : Type 0} → ⦃d : Float W⦄ → Env W S → Call W → Loop W → Option (Outcome W × S) → Type 0
Finishes {W} {S} env call l r =
    (o : Outcome W) × (s' : S) × (m : Loop W) × (r ≡ some (o, s'))
    × Run call l m
    × Ends env call m o

-- One round more than the tier has candidates; none for a tier that is not configured.
abbrev pub enough_fuel : {W : Type 0} → Config W → String → ℕ
enough_fuel cfg model = elim (get cfg.tiers model) [
  | none ↦ 0
  | some tier ↦ suc (length tier.candidates)
]

module _ {W S : Type 0} ⦃d : Float W⦄ (env : Env W S) (settings : Settings W) where
  abbrev pub left : Call W → Loop W → ℕ
  left call l = count_outside (refs call.candidates) l.exclude

  Advances-left : (call : Call W) (l l' : Loop W) → Advances call l l' → left call l' < left call l
  Advances-left call l l' a = rw a.excluded (
      count_outside-lt (refs call.candidates) l.exclude a.cand a.fresh.not_excluded a.fresh.in_tier)

  -- A round is followed by the rest of the loop.
  finish :
      (fuel : ℕ) (call : Call W) (l : Loop W)
      → ((m : Loop W) (s : S)
          → left call m < fuel
          → Finishes env call m (rounds env settings fuel call m s))
      → left call l < suc fuel
      → (t : Turn W S) → Allowed env call l t
      → Finishes env call l (elim t [
        | done outcome s' ↦ some (outcome, s')
        | again l' s' ↦ rounds env settings fuel call l' s'
      ])
  finish fuel call l ih h (done o s') a = (o, s', l, refl, here, a)
  finish fuel call l ih h (again l' s') a =
      let (o, s2, m, e, run, ends) = ih l' s' (omega (arith, Advances-left call l l' a)) in
      (o, s2, m, e, next a run, ends)

  -- The loop ends within its fuel, if the fuel exceeds the number of candidates not excluded yet.
  pub rounds-Finishes :
      (fuel : ℕ) (call : Call W) (l : Loop W) (s : S)
      → left call l < fuel
      → Finishes env call l (rounds env settings fuel call l s)
  unfolding rounds
  rounds-Finishes zero call l s h = elim h [ ]
  rounds-Finishes (suc fuel) call l s h =
      finish fuel call l (λ m s' h'. rounds-Finishes fuel call m s' h') h
        (turn env settings call l s) (turn-Allowed env settings call l s)

  -- What `set_up` fixes of a call.
  pub candidates-set_up :
      (req : ChatCompletionRequest W) (caller : Caller) (tier : TierConfig W) (s : S)
      → (set_up env settings req caller tier s).0.candidates ≡ tier.candidates
  unfolding set_up
  candidates-set_up req caller tier s = refl

  -- The loop that `route` runs for a known tier ends, with fuel above the number of candidates.
  pub route-Finishes :
      (fuel : ℕ) (cfg : Config W) (req : ChatCompletionRequest W) (caller : Caller) (s : S)
      (tier : TierConfig W)
      → get cfg.tiers req.model ≡ some tier
      → length tier.candidates < fuel
      → Finishes env
          (set_up env settings req caller tier s).0
          start
          (route env settings fuel cfg req caller s)
  unfolding route
  route-Finishes fuel cfg req caller s tier known h =
      rw (known, route)
        (rounds-Finishes fuel _ start _
          (omega (arith, count_outside-le (refs tier.candidates) [], length-refs tier.candidates)))

  -- For every request and every behaviour of the clock, the buckets and the vendors, `route`
  -- returns or raises: its loop makes at most one round more than the tier has candidates.
  pub route_total :
      (fuel : ℕ) (cfg : Config W) (req : ChatCompletionRequest W) (caller : Caller) (s : S)
      → enough_fuel cfg req.model ≤ fuel
      → (r : Outcome W × S) × (route env settings fuel cfg req caller s ≡ some r)
  unfolding route
  route_total fuel cfg req caller s enough = elim (Option-cases (get cfg.tiers req.model)) [
    | inl unknown ↦ ((unknown_tier env settings req.model, s), rw (unknown, route))
    | inr (tier, known) ↦
        let (o, s', m, e, run, ends) =
          route-Finishes fuel cfg req caller s tier known (rw (known, enough_fuel) at enough) in
        ((o, s'), e)
  ]
