-- ===== src/Auth/Cache.antt =====
-- The operations on the OrderedDict of gateway/auth.py.
use librouter.Prelude.{
  ℕ, suc, ◌≤◌, ◌≡◌, refl, String, Option, some, [], ◌∷◌, ◌++◌, ◌⊎◌, inl, inr, arith, length,
  length-append, ltb, All, Bool-cases, string_eq, ◌==◌, beq_refl,
}
use mathlib.Core.Option.{some-injective}
use librouter.Prelude.Dict.{get, put, get-put_self}
use librouter.Models.{Caller}
use librouter.Auth.{Cache, remove, move_to_end, evict}

module _ {W : Type 0} where
  remove-put :
      (k : String) (e : W × Option Caller) (l : Cache W) → remove k (put k e l) ≡ remove k l
  unfolding remove put
  remove-put k e [] = rw (beq_refl) refl
  remove-put k e ((j, v) ∷ l) = ground (arith, remove-put k e l)

  -- A store and the move to the end.
  pub move_to_end-put :
      (k : String) (e : W × Option Caller) (l : Cache W)
      → move_to_end k (put k e l) ≡ remove k l ++ ((k, e) ∷ [])
  unfolding move_to_end
  move_to_end-put k e l = rw (move_to_end, get-put_self k e l, remove-put k e l) refl

  length-remove : (k : String) (l : Cache W) → length (remove k l) ≤ length l
  unfolding remove
  length-remove k [] = omega arith
  length-remove k ((j, e) ∷ l) = ground (arith, length-remove k l)

  pub length-remove_present :
      (k : String) (e : W × Option Caller) (l : Cache W)
      → get l k ≡ some e
      → suc (length (remove k l)) ≤ length l
  unfolding remove get
  length-remove_present k e [] h = absurd (ground arith)
  length-remove_present k e ((j, v) ∷ l) h =
      ground (arith, length-remove k l, length-remove_present k e l)

  -- Room for one more is room for what is stored: an eviction makes it.
  pub length-evict :
      (maxsize : ℕ) (l : Cache W) → length l ≤ suc maxsize → length (evict maxsize l) ≤ maxsize
  length-evict maxsize [] h = omega arith
  length-evict maxsize (e ∷ l) h = ground arith

  pub length-store :
      (maxsize : ℕ) (k : String) (e : W × Option Caller) (l : Cache W)
      → length l ≤ maxsize
      → length (evict maxsize (remove k l ++ ((k, e) ∷ []))) ≤ maxsize
  length-store maxsize k e l h =
      length-evict maxsize _
        (omega (arith, length-append (remove k l) ((k, e) ∷ []), length-remove k l))

  -- What an eviction leaves in front of the last entry: everything, or all but the first.
  pub evict-last :
      (maxsize : ℕ) (l : Cache W) (x : String × (W × Option Caller))
      → 1 ≤ maxsize
      → (before : Cache W) × (evict maxsize (l ++ (x ∷ [])) ≡ before ++ (x ∷ []))
        × ((before ≡ l)
            ⊎ ((oldest : String × (W × Option Caller)) × (l ≡ oldest ∷ before)
                × (maxsize ≤ length l)))
  evict-last maxsize [] x h = ([], ground arith, inl refl)
  evict-last maxsize (y ∷ l) x h = elim (Bool-cases (ltb maxsize (suc (length (l ++ (x ∷ [])))))) [
    | inl full ↦ (l, rw full refl, inr (y, refl, ground (arith, length-append l (x ∷ []))))
    | inr room ↦ (y ∷ l, rw room refl, inl refl)
  ]

  module _ {κ} (Q : String → W → Option Caller → Type κ) where
    -- Every entry of a cache is one that `Q` allows.
    abbrev pub IsBacked : Cache W → Type κ
    IsBacked = All (λ e. Q e.0 e.1.0 e.1.1)

    pub get-IsBacked :
        (k : String) (t : W) (c : Option Caller) (l : Cache W)
        → IsBacked l
        → get l k ≡ some (t, c)
        → Q k t c
    unfolding get
    get-IsBacked k t c [] h e = absurd (ground arith)
    get-IsBacked k t c ((j, v) ∷ l) h e = elim (Bool-cases (j == k)) [
      | inl same ↦
          let value : v ≡ (t, c) = some-injective _ _ (rw same at e) in
          rw ((string_eq.beq_iff j k).0 same, value) at h.0
      | inr other ↦ get-IsBacked k t c l h.1 (rw other at e)
    ]

    pub remove-IsBacked : (k : String) (l : Cache W) → IsBacked l → IsBacked (remove k l)
    unfolding remove
    remove-IsBacked k [] h = tt
    remove-IsBacked k ((j, v) ∷ l) h = elim (Bool-cases (j == k)) [
      | inl same ↦ rw same (remove-IsBacked k l h.1)
      | inr other ↦ rw other (h.0, remove-IsBacked k l h.1)
    ]

    pub evict-IsBacked : (maxsize : ℕ) (l : Cache W) → IsBacked l → IsBacked (evict maxsize l)
    evict-IsBacked maxsize [] h = tt
    evict-IsBacked maxsize (e ∷ l) h = elim (Bool-cases (ltb maxsize (length (e ∷ l)))) [
      | inl full ↦ rw full h.1
      | inr room ↦ rw room h
    ]
