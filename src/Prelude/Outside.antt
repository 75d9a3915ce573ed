-- ===== src/Prelude/Outside.antt =====
-- How many elements of a list stand outside another: a measure for loops that exclude what they
-- saw.
use Prim.Native.Nat.{ℕ, suc, ◌≤◌, ◌<◌}
use mathlib.Core.Path.{◌≡◌, refl}
use mathlib.Core.Logic.{inl, inr}
use mathlib.Core.Bool.{true, false}
use mathlib.Core.List.{List, [], ◌∷◌, ◌++◌}
use native.Mathlib.Omega.{arith}
use librouter.Prelude.Tests.{if◌then◌else◌, Bool-cases}
use librouter.Prelude.Keys.{Eq, ◌==◌, beq_refl}
use librouter.Prelude.Lists.{length, All, Distinct, contains, contains-append}

module _ {ℓ} {A : Type ℓ} ⦃e : Eq A⦄ where
  pub count_outside : List A → List A → ℕ
  count_outside [] seen = 0
  count_outside (x ∷ xs) seen =
      let rest = count_outside xs seen in if contains seen x then rest else suc rest

  pub count_outside-le : (xs seen : List A) → count_outside xs seen ≤ length xs
  unfolding count_outside
  count_outside-le [] seen = omega arith
  count_outside-le (x ∷ xs) seen = ground (arith, count_outside-le xs seen)

  count_outside_anti :
      (xs seen : List A) (c : A) → count_outside xs (seen ++ (c ∷ [])) ≤ count_outside xs seen
  unfolding count_outside
  count_outside_anti [] seen c = omega arith
  count_outside_anti (x ∷ xs) seen c =
      ground (arith, count_outside_anti xs seen c, contains-append seen (c ∷ []) x)

  -- To see one more element of the list leaves fewer outside.
  pub count_outside-lt :
      (xs seen : List A) (c : A)
      → contains seen c ≡ false
      → contains xs c ≡ true
      → count_outside xs (seen ++ (c ∷ [])) < count_outside xs seen
  unfolding count_outside
  count_outside-lt [] seen c fresh h = absurd (ground arith)
  count_outside-lt (x ∷ xs) seen c fresh h = elim (Bool-cases (x == c)) [
    | inl same ↦
        let eq : x ≡ c = (e.beq_iff x c).0 same in
        ground (
          arith,
          count_outside_anti xs seen c,
          contains-append seen (c ∷ []) x,
          beq_refl c,
          e.beq_iff c x,
        )
    | inr other ↦ ground (
      arith,
      count_outside_anti xs seen c,
      contains-append seen (c ∷ []) x,
      count_outside-lt xs seen c,
    )
  ]

  -- Different elements of a list, none of them seen, are at most as many as stand outside.
  length-count_outside :
      (xs ys seen : List A)
      → Distinct xs
      → ((c : A) → contains xs c ≡ true → contains ys c ≡ true)
      → ((c : A) → contains xs c ≡ true → contains seen c ≡ false)
      → length xs ≤ count_outside ys seen
  length-count_outside [] ys seen d h k = omega arith
  length-count_outside (x ∷ xs) ys seen d h k = ground (
    arith,
    count_outside-lt ys seen x (k x (ground (arith, beq_refl x)))
        (h x (ground (arith, beq_refl x))),
    length-count_outside xs ys (seen ++ (x ∷ [])) d.1 (λ c m. h c (ground arith))
        (λ c m. ground (arith, k c, contains-append seen (x ∷ []) c, e.beq_iff x c, d.0)),
  )

  -- Different elements of a list are at most as many as it has.
  pub length-Distinct :
      (xs ys : List A) → Distinct xs → All (λ c. contains ys c ≡ true) xs → length xs ≤ length ys
  length-Distinct xs ys d h = omega (
    arith,
    length-count_outside xs ys [] d (λ c. member xs c h) (λ c m. refl),
    count_outside-le ys [],
  )
    where
      member :
          (zs : List A) (c : A)
          → All (λ x. contains ys x ≡ true) zs
          → contains zs c ≡ true
          → contains ys c ≡ true
      member [] c a m = absurd (ground arith)
      member (z ∷ zs) c a m = ground (arith, a.0, e.beq_iff z c, member zs c a.1)
