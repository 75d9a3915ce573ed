-- ===== src/Pricing/Cost.antt =====
-- What a call costs (gateway/pricing.py).
use librouter.Prelude.{
  ℕ, ◌≤◌, ◌≡◌, refl, true, false, Option, none, some, [], ◌∷◌, ◌++◌, ◌⊎◌, inl, inr, arith, contains,
  contains-append, beq_refl, Bool-cases, Option-cases, ap,
}
use librouter.Prelude.Dict.{get}
use librouter.Prelude.Float.{Float, IsOrdered, ◌≼◌, nought}
use librouter.Models.{CandidateRef, candidate_eq}
use librouter.Pricing.{Entry, PricingTable, cost_usd}

module _ {W : Type 0} ⦃d : Float W⦄ (key : CandidateRef) (table : PricingTable W) where
  -- No price of the candidate is negative.
  abbrev pub HasPrices : Option (Entry W) → Type 0
  HasPrices none = Unit
  HasPrices (some entry) =
      (nought ≼ entry.input_cost_per_token) × (nought ≼ entry.output_cost_per_token)

  -- With the order laws of floats and prices that are not negative, more tokens never cost less.
  pub cost_usd_mono :
      IsOrdered W
      → (i i' o o' : ℕ) → HasPrices (get table.index key)
      → i ≤ i'
      → o ≤ o'
      → (cost_usd key i o table).0 ≼ (cost_usd key i' o' table).0
  unfolding cost_usd
  cost_usd_mono laws i i' o o' priced hi ho = go (get table.index key) refl priced
    where
      go :
          (e : Option (Entry W))
          → get table.index key ≡ e
          → HasPrices e
          → (cost_usd key i o table).0 ≼ (cost_usd key i' o' table).0
      go none eq h = elim (Bool-cases (contains table.warned key)) [
        | inl old ↦ rw (cost_usd, eq, old) (laws.le_refl nought)
        | inr new ↦ rw (cost_usd, eq, new) (laws.le_refl nought)
      ]
      go (some e) eq (hin, hout) =
          rw (cost_usd, eq)
            (laws.add_mono _ _ _ _
              (laws.mul_mono _ _ _ _ (laws.of_nat_mono 0 i (omega arith)) (laws.of_nat_mono i i' hi)
                hin (laws.le_refl _))
              (laws.mul_mono _ _ _ _ (laws.of_nat_mono 0 o (omega arith)) (laws.of_nat_mono o o' ho)
                hout (laws.le_refl _)))

  first_warning :
      (i o : ℕ)
      → get table.index key ≡ none
      → contains table.warned key ≡ false
      → cost_usd key i o table
        ≡ (nought, true, record table { warned = table.warned ++ (key ∷ []) })
  unfolding cost_usd
  first_warning i o unknown new = rw (cost_usd, unknown, new) refl

module _ {W : Type 0} ⦃d : Float W⦄ (key : CandidateRef) where
  warned-quiet :
      (i o : ℕ) (table : PricingTable W)
      → contains table.warned key ≡ true
      → cost_usd key i o table ≡ ((cost_usd key i o table).0, false, table)
  unfolding cost_usd
  warned-quiet i o table old = elim (Option-cases (get table.index key)) [
    | inl unknown ↦ rw (cost_usd, unknown, old) refl
    | inr (entry, known) ↦ rw (cost_usd, known) refl
  ]

  known-quiet :
      (i o : ℕ) (table : PricingTable W) (entry : Entry W)
      → get table.index key ≡ some entry
      → cost_usd key i o table ≡ ((cost_usd key i o table).0, false, table)
  unfolding cost_usd
  known-quiet i o table entry known = rw (cost_usd, known) refl

  -- A candidate without a price is warned of at most once: a call warns only if no call before it
  -- did, and the next call for the same candidate, with any tokens, does not warn.
  cost_usd_warns :
      (i i' o o' : ℕ) (table : PricingTable W)
      → (((cost_usd key i o table).1 ≡ false) ⊎ (contains table.warned key ≡ false))
        × ((cost_usd key i' o' (cost_usd key i o table).2).1 ≡ false)
  cost_usd_warns i i' o o' table = elim (Bool-cases (contains table.warned key)) [
    | inl old ↦ rw (warned-quiet i o table old, warned-quiet i' o' table old) (inl refl, refl)
    | inr new ↦ elim (Option-cases (get table.index key)) [
      | inr (entry, known) ↦
          rw (known-quiet i o table entry known, known-quiet i' o' table entry known)
            (inr new, refl)
      | inl unknown ↦
          let after = record table { warned = table.warned ++ (key ∷ []) } in
          let there : contains (table.warned ++ (key ∷ [])) key ≡ true =
            ground (arith, contains-append table.warned (key ∷ []) key, beq_refl key) in
          rw (first_warning key table i o unknown new)
            (inr new, ap (λ r. r.1) (warned-quiet i' o' after there))
    ]
  ]
