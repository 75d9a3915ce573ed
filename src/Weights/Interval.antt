-- ===== src/Weights/Interval.antt =====
-- The weighted choice of `WeightEngine.pick` (gateway/routing/weights.py): which interval the
-- random point lies in.
use librouter.Prelude.{◌≡◌, refl, List, [], ◌∷◌, ◌++◌, ◌⊎◌, inl, inr, Bool-cases, ap}
use librouter.Prelude.Float.{Float, IsOrdered, ◌≼◌, ◌≺◌, ◌⊕◌, lt_of_not-le}
use librouter.Models.{CandidateRef}
use librouter.Weights.{choose}

module _ {W : Type 0} ⦃d : Float W⦄ where
  -- The weights summed from the left, as the loop adds them.
  abbrev pub sum_from : W → List (CandidateRef × W) → W
  sum_from acc [] = acc
  sum_from acc ((c, w) ∷ l) = sum_from (acc ⊕ w) l

  abbrev pub last_of : CandidateRef → List (CandidateRef × W) → CandidateRef
  last_of c [] = c
  last_of c ((c', w) ∷ l) = last_of c' l

  -- The point `r` lies above the weights before the candidate `x`, and not above those up to it.
  pub record LiesIn (r acc : W) (l : List (CandidateRef × W)) (x : CandidateRef) : Type 0 where
    pub before : List (CandidateRef × W)
    pub after : List (CandidateRef × W)
    pub w : W
    pub split : l ≡ before ++ ((x, w) ∷ after)
    pub above : (before ≡ []) ⊎ (sum_from acc before ≺ r)
    pub within : r ≼ sum_from acc before ⊕ w

  -- The point lies above all weights, and `x` is the last candidate.
  pub record LiesBehind (r acc : W) (c : CandidateRef) (l : List (CandidateRef × W))
      (x : CandidateRef) : Type 0 where
    pub beyond : (l ≡ []) ⊎ (sum_from acc l ≺ r)
    pub last : x ≡ last_of c l

  -- The chosen candidate is the one whose share of the line the random point lies in; where
  -- rounding put the point above the sum of all weights, it is the last one.
  pub choose-LiesIn :
      IsOrdered W
      → (r acc : W) (c : CandidateRef) (l : List (CandidateRef × W))
      → LiesIn r acc l (choose r acc c l) ⊎ LiesBehind r acc c l (choose r acc c l)
  unfolding choose
  choose-LiesIn laws r acc c [] = inr (record { beyond = inl refl; last = refl })
  choose-LiesIn laws r acc c ((c', w) ∷ l) = elim (Bool-cases (d.le r (acc ⊕ w))) [
    | inl e ↦
        rw e (
          inl
            (record { before = []; after = l; w = w; split = refl; above = inl refl; within = e }))
    | inr e ↦ rw e (elim (choose-LiesIn laws r (acc ⊕ w) c' l) [
      | inl h ↦ inl (record {
        before = (c', w) ∷ h.before;
        after = h.after;
        w = h.w;
        split = ap (◌∷◌ (c', w)) h.split;
        above = inr (above_all (acc ⊕ w) h.before (lt_of_not-le laws r (acc ⊕ w) e) h.above);
        within = h.within;
      })
      | inr h ↦ inr (record {
        beyond = inr (above_all (acc ⊕ w) l (lt_of_not-le laws r (acc ⊕ w) e) h.beyond);
        last = h.last;
      })
    ])
  ]
    where
      above_all :
          (a : W) (m : List (CandidateRef × W))
          → a ≺ r
          → (m ≡ []) ⊎ (sum_from a m ≺ r)
          → sum_from a m ≺ r
      above_all a m h (inl e) = rw e h
      above_all a m h (inr k) = k
