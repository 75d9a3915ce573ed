-- ===== src/Pricing/Index.antt =====
-- Where the entries of the index come from (gateway/pricing.py).
use librouter.Prelude.{
  ◌≡◌, refl, String, false, Option, none, some, [], ◌∷◌, ◌⊎◌, inl, inr, All, Bool-cases, ◌==◌,
  string_eq,
}
use librouter.Prelude.Dict.{Dict, put}
use librouter.Models.{CandidateRef, candidate_eq}
use librouter.Pricing.{Entry, Info, Row, object, other, priced, add_row, add_rows, build_index}

module _ {W : Type 0} where
  -- The file has this value under this key.
  abbrev pub HasRow : Dict String (Row W) → String → Row W → Type 0
  HasRow [] k r = ⊥
  HasRow ((j, q) ∷ rows) k r = ((j ≡ k) × (q ≡ r)) ⊎ HasRow rows k r

  -- An entry of the index is that of an object of the file under the name of the model.
  pub record IsPriced (raw : Dict String (Row W)) (key : CandidateRef) (entry : Entry W)
      : Type 0 where
    pub info : Info W
    pub listed : HasRow raw key.model (object info)
    pub from_info : priced info ≡ some (key.provider, entry)
    pub is_model : (key.model == "sample_spec") ≡ false

  module _ (raw : Dict String (Row W)) where
    abbrev pub IsTrue : Dict CandidateRef (Entry W) → Type 0
    IsTrue = All (λ e. IsPriced raw e.0 e.1)

    put-IsTrue :
        (key : CandidateRef) (entry : Entry W) (index : Dict CandidateRef (Entry W))
        → IsPriced raw key entry
        → IsTrue index
        → IsTrue (put key entry index)
    unfolding put
    put-IsTrue key entry [] h rest = (h, tt)
    put-IsTrue key entry ((k, e) ∷ index) h (old, rest) = elim (Bool-cases (k == key)) [
      | inl same ↦ rw same (rw (← (candidate_eq.beq_iff k key).0 same) at h, rest)
      | inr differ ↦ rw differ (old, put-IsTrue key entry index h rest)
    ]

    add_row-IsTrue :
        (k : String) (r : Row W) (index : Dict CandidateRef (Entry W))
        → HasRow raw k r
        → IsTrue index
        → IsTrue (add_row k r index)
    add_row-IsTrue k other index there h = h
    add_row-IsTrue k (object info) index there h = elim (Bool-cases (k == "sample_spec")) [
      | inl spec ↦ rw spec h
      | inr model ↦ rw model (go model (priced info) refl)
    ]
      where
        go :
            (k == "sample_spec") ≡ false
            → (p : Option (String × Entry W)) → priced info ≡ p
            → IsTrue (elim p [
              | none ↦ index
              | some (ours, entry) ↦ put (record { provider = ours; model = k }) entry index
            ])
        go model none e = h
        go model (some (ours, entry)) e =
            put-IsTrue (record { provider = ours; model = k }) entry index
              (record { info = info; listed = there; from_info = e; is_model = model }) h

    add_rows-IsTrue :
        (rows : Dict String (Row W)) (index : Dict CandidateRef (Entry W))
        → ((k : String) (r : Row W) → HasRow rows k r → HasRow raw k r)
        → IsTrue index
        → IsTrue (add_rows rows index)
    unfolding add_rows
    add_rows-IsTrue [] index sub h = h
    add_rows-IsTrue ((k, r) ∷ rows) index sub h =
        add_rows-IsTrue rows (add_row k r index) (λ j q there. sub j q (inr there))
          (add_row-IsTrue k r index (sub k r (inl (refl, refl))) h)

    pub build_index-IsPriced : All (λ e. IsPriced raw e.0 e.1) (build_index raw)
    unfolding build_index
    build_index-IsPriced = add_rows-IsTrue raw [] (λ k r there. there) tt
