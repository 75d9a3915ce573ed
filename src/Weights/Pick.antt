-- ===== src/Weights/Pick.antt =====
-- Which candidate `WeightEngine.pick` may return (gateway/routing/weights.py).
use librouter.Prelude.{
  ◌≡◌, refl, ◌↔◌, true, false, none, some, List, [], ◌∷◌, ◌⊎◌, inl, inr, arith, contains,
  Bool-cases, All, All-map, beq_refl,
}
use mathlib.Core.Option.{some-injective}
use librouter.Prelude.Float.{Float, ◌≼◌, ◌⊕◌, nought}
use librouter.Models.{CandidateRef, candidate_eq, ref_of, TierEntry}
use librouter.Weights.{WeightEngine, weight, weighted, choose, pick, pick_from}

abbrev pub refs : {W : Type 0} → List (TierEntry W) → List CandidateRef
refs [] = []
refs (t ∷ ts) = ref_of t ∷ refs ts

module _ {W : Type 0} ⦃d : Float W⦄ (engine : WeightEngine W) (exclude : List CandidateRef) where
  -- A candidate that may be picked: not excluded, and with a weight above zero.
  abbrev pub IsOpen : CandidateRef → Type 0
  IsOpen c = (contains exclude c ≡ false) × (d.le (weight engine c) nought ≡ false)

  -- A candidate that may not.
  abbrev pub IsShut : CandidateRef → Type 0
  IsShut c = (contains exclude c ≡ true) ⊎ (weight engine c ≼ nought)

  here_or_later :
      (t : TierEntry W) (ts : List (TierEntry W)) (x : CandidateRef)
      → contains (refs ts) x ≡ true
      → contains (refs (t ∷ ts)) x ≡ true
  here_or_later t ts x h = ground arith

  weighted-IsOpen :
      (ts : List (TierEntry W))
      → All
          (λ (e : CandidateRef × W). IsOpen e.0 × (contains (refs ts) e.0 ≡ true))
          (weighted engine exclude ts)
  unfolding weighted
  weighted-IsOpen [] = tt
  weighted-IsOpen (t ∷ ts) =
      let later =
        All-map (λ (e : CandidateRef × W). IsOpen e.0 × (contains (refs ts) e.0 ≡ true))
          (λ (e : CandidateRef × W). IsOpen e.0 × (contains (refs (t ∷ ts)) e.0 ≡ true))
          (weighted engine exclude ts) (λ e h. (h.0, here_or_later t ts e.0 h.1))
          (weighted-IsOpen ts) in
      elim (Bool-cases (contains exclude (ref_of t))) [
        | inl e ↦ rw e later
        | inr e ↦ elim (Bool-cases (d.le (weight engine (ref_of t)) nought)) [
          | inl f ↦ rw (e, f) later
          | inr f ↦ rw (e, f) (((e, f), rw (beq_refl (ref_of t))), later)
        ]
      ]

  weighted_nil : (ts : List (TierEntry W)) → weighted engine exclude ts ≡ [] → All IsShut (refs ts)
  unfolding weighted
  weighted_nil [] h = tt
  weighted_nil (t ∷ ts) h = elim (Bool-cases (contains exclude (ref_of t))) [
    | inl e ↦ (inl e, weighted_nil ts (rw e at h))
    | inr e ↦ elim (Bool-cases (d.le (weight engine (ref_of t)) nought)) [
      | inl f ↦ (inr f, weighted_nil ts (rw (e, f) at h))
      | inr f ↦ absurd (ground arith)
    ]
  ]

  weighted-IsShut :
      (ts : List (TierEntry W)) → All IsShut (refs ts) → weighted engine exclude ts ≡ []
  unfolding weighted
  weighted-IsShut [] h = refl
  weighted-IsShut (t ∷ ts) (inl e, h) = rw e (weighted-IsShut ts h)
  weighted-IsShut (t ∷ ts) (inr f, h) = ground (arith, weighted-IsShut ts h)

-- What holds of the default and of every candidate of the list holds of the chosen one.
choose_all {κ} :
    {W : Type 0} ⦃d : Float W⦄ (P : CandidateRef → Type κ) (r acc : W) (c : CandidateRef)
    (l : List (CandidateRef × W))
    → P c
    → All (λ (e : CandidateRef × W). P e.0) l
    → P (choose r acc c l)
unfolding choose
choose_all ⦃d⦄ P r acc c [] p h = p
choose_all ⦃d⦄ P r acc c ((c', w) ∷ l) p h = elim (Bool-cases (d.le r (acc ⊕ w))) [
  | inl e ↦ rw e h.0
  | inr e ↦ rw e (choose_all P r (acc ⊕ w) c' l h.0 h.1)
]

module _ {W S : Type 0} ⦃d : Float W⦄ (random : S → W × S) (engine : WeightEngine W)
    (ts : List (TierEntry W)) (exclude : List CandidateRef) (s : S) where
  pick_from-All :
      (l : List (CandidateRef × W)) (c : CandidateRef)
      → All
          (λ (e : CandidateRef × W). IsOpen engine exclude e.0 × (contains (refs ts) e.0 ≡ true))
          l
      → (pick_from random l s).0 ≡ some c
      → IsOpen engine exclude c × (contains (refs ts) c ≡ true)
  unfolding pick_from
  pick_from-All [] c h e = cc
  pick_from-All ((c', w) ∷ l) c h e = rw (← some-injective _ _ e) (
      choose_all (λ x. IsOpen engine exclude x × (contains (refs ts) x ≡ true)) _ nought c'
        ((c', w) ∷ l) h.0 h)

  -- What is picked is a candidate of the tier, is not excluded and has a weight above zero.
  pub pick-IsOpen :
      (c : CandidateRef)
      → (pick random engine ts exclude s).0 ≡ some c
      → IsOpen engine exclude c × (contains (refs ts) c ≡ true)
  unfolding pick
  pick-IsOpen c e =
      pick_from-All (weighted engine exclude ts) c (weighted-IsOpen engine exclude ts) e

  pick_from-none : (l : List (CandidateRef × W)) → (pick_from random l s).0 ≡ none → l ≡ []
  unfolding pick_from
  pick_from-none [] e = refl
  pick_from-none ((c, w) ∷ l) e = cc

  -- Nothing is picked exactly when every candidate of the tier is excluded or has no weight.
  pub pick-none_iff :
      ((pick random engine ts exclude s).0 ≡ none) ↔ All (IsShut engine exclude) (refs ts)
  unfolding pick pick_from
  pick-none_iff = (
    λ e. weighted_nil engine exclude ts (pick_from-none (weighted engine exclude ts) e),
    λ h. rw (weighted-IsShut engine exclude ts h) refl,
  )
