-- ===== src/Prelude/Dict.antt =====
-- Python's dictionaries as association lists in insertion order, over any key with an `Eq`.
use mathlib.Core.Path.{◌≡◌, refl, subst}
use mathlib.Core.Logic.{inl, inr}
use mathlib.Core.Bool.{false}
use mathlib.Core.List.{List, [], ◌∷◌}
use mathlib.Core.Option.{Option, none, some}
use native.Mathlib.Omega.{arith}
use librouter.Prelude.Tests.{if◌then◌else◌, Bool-cases}
use librouter.Prelude.Keys.{Eq, ◌==◌, beq_refl}
use librouter.Prelude.Lists.{All}

abbrev pub Dict {ℓ κ} : Type ℓ → Type κ → Type (ℓ ⊔ κ)
Dict K V = List (K × V)

module _ {ℓ κ} {K : Type ℓ} {V : Type κ} ⦃e : Eq K⦄ where
  -- `d.get(k)`
  unfoldable pub get : Dict K V → K → Option V
  get [] k = none
  get ((j, v) ∷ d) k = if j == k then some v else get d k

  -- `d[k] = v`: a key that is there keeps its place.
  unfoldable pub put : K → V → Dict K V → Dict K V
  put k v [] = (k, v) ∷ []
  put k v ((j, w) ∷ d) = if j == k then (j, v) ∷ d else (j, w) ∷ put k v d

  -- `d.setdefault(k, v)`
  unfoldable pub setdefault : K → V → Dict K V → Dict K V
  setdefault k v [] = (k, v) ∷ []
  setdefault k v ((j, w) ∷ d) = if j == k then (j, w) ∷ d else (j, w) ∷ setdefault k v d

  pub get-put :
      (k j : K) (v : V) (d : Dict K V) → get (put k v d) j ≡ (if k == j then some v else get d j)
  unfolding get put
  get-put k j v [] = refl
  get-put k j v ((i, w) ∷ d) =
      ground (arith, e.beq_iff k j, e.beq_iff i k, e.beq_iff i j, get-put k j v d)

  pub get-put_self : (k : K) (v : V) (d : Dict K V) → get (put k v d) k ≡ some v
  get-put_self k v d = rw (get-put, beq_refl)

  pub get-put_ne : (k j : K) (v : V) (d : Dict K V) → (k == j) ≡ false → get (put k v d) j ≡ get d j
  get-put_ne k j v d h = rw (get-put, h)

  pub get-setdefault :
      (k j : K) (v : V) (d : Dict K V)
      → get (setdefault k v d) j
        ≡ elim (get d j) [ some w ↦ some w | none ↦ if k == j then some v else none ]
  unfolding get setdefault
  get-setdefault k j v [] = refl
  get-setdefault k j v ((i, w) ∷ d) =
      ground (arith, e.beq_iff k j, e.beq_iff i k, e.beq_iff i j, get-setdefault k j v d)

  -- No key stands twice, as in a Python dictionary or in a table with a primary key.
  abbrev pub IsKeyed : Dict K V → Type κ
  IsKeyed [] = Unit
  IsKeyed ((k, v) ∷ d) = (get d k ≡ none) × IsKeyed d

  pub put-IsKeyed : (k : K) (v : V) (d : Dict K V) → IsKeyed d → IsKeyed (put k v d)
  unfolding get put
  put-IsKeyed k v [] h = (refl, tt)
  put-IsKeyed k v ((j, w) ∷ d) h =
      ground (arith, h.0, get-put k j v d, e.beq_iff k j, e.beq_iff j k, put-IsKeyed k v d h.1)

  -- What all values of a dictionary have in common.
  abbrev pub AllValues {μ} : (V → Type μ) → Dict K V → Type μ
  AllValues Q = All (λ e. Q e.1)

  pub put-AllValues {μ} :
      (Q : V → Type μ) (k : K) (v : V) (d : Dict K V)
      → AllValues Q d
      → Q v
      → AllValues Q (put k v d)
  unfolding put
  put-AllValues Q k v [] a q = (q, tt)
  put-AllValues Q k v ((j, w) ∷ d) a q = elim (Bool-cases (j == k)) [
    | inl same ↦ rw same (q, a.1)
    | inr other ↦ rw other (a.0, put-AllValues Q k v d a.1 q)
  ]

  pub get-AllValues {μ} :
      (Q : V → Type μ) (k : K) (v : V) (d : Dict K V) → AllValues Q d → get d k ≡ some v → Q v
  unfolding get
  get-AllValues Q k v [] a h = cc
  get-AllValues Q k v ((j, w) ∷ d) a h = elim (Bool-cases (j == k)) [
    | inl same ↦ let eq : w ≡ v = ground arith in subst Q eq a.0
    | inr other ↦ get-AllValues Q k v d a.1 (rw other at h)
  ]

  pub get-of_AllValues {μ} :
      (Q : V → Type μ) (d : Dict K V)
      → IsKeyed d
      → ((k : K) (v : V) → get d k ≡ some v → Q v)
      → AllValues Q d
  unfolding get
  get-of_AllValues Q [] keyed h = tt
  get-of_AllValues Q ((j, w) ∷ d) keyed h = (
    h j w (rw (beq_refl j) refl),
    get-of_AllValues Q d keyed.1 (λ k v g. h k v (ground (arith, keyed.0, e.beq_iff j k))),
  )
