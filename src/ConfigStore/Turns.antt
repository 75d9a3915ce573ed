-- ===== src/ConfigStore/Turns.antt =====
-- The turns of concurrent calls of `load_or_refresh` in gateway/config_store.py: a turn of a task
-- moves it on, or it waits for the lock.
use librouter.Prelude.{
  ◌≡◌, refl, ◌⊎◌, inl, inr, ℕ, zero, suc, ◌+◌, ◌*◌, ◌≤◌, ◌<◌, String, Bool, true, false, ◌||◌,
  Option, none, some, List, [], ◌∷◌, ◌++◌, arith, nat_eq, ◌==◌, All, Bool-cases, Option-cases, ap,
}
use librouter.Prelude.Dict.{Dict}
use librouter.Prelude.Float.{Float}
use librouter.Models.{Config}
use librouter.Db.{Database}
use librouter.ConfigStore.{load_from_db, cached_config}
use librouter.ConfigStore.SingleFlight.{
  Phase, starting, waiting, holding, fetching, storing, answered, Flight, Event, run_task, expire,
  set_phase, HasConfig, is_locked, step_from, happen,
}

-- How many turns a task still needs.
abbrev pub rank : {W : Type 0} → Phase W → ℕ
rank starting = 5
rank waiting = 4
rank holding = 3
rank fetching = 2
rank (storing _) = 1
rank (answered _) = 0

abbrev pub total : {W : Type 0} → ℕ → (ℕ → Phase W) → ℕ
total zero phases = 0
total (suc n) phases = rank (phases n) + total n phases

-- A round has a turn for each of the first `n` tasks, in any order and any number, and for no other
-- task; the payload may be taken away on the way.
abbrev pub has_turn : ℕ → List Event → Bool
has_turn i [] = false
has_turn i (run_task j ∷ events) = j == i || has_turn i events
has_turn i (expire ∷ events) = has_turn i events

abbrev pub IsAmong : ℕ → Event → Type 0
IsAmong n (run_task j) = j < n
IsAmong n expire = Unit

abbrev pub IsRound : ℕ → List Event → Type 0
IsRound n events = ((i : ℕ) → i < n → has_turn i events ≡ true) × All (IsAmong n) events

-- Rounds one after the other.
abbrev pub in_a_row : List (List Event) → List Event
in_a_row [] = []
in_a_row (round ∷ rounds) = round ++ in_a_row rounds

module _ {W : Type 0} where
  total-set_above :
      (n i : ℕ) (p : Phase W) (phases : ℕ → Phase W)
      → n ≤ i
      → total n (set_phase i p phases) ≡ total n phases
  unfolding set_phase
  total-set_above zero i p phases h = refl
  total-set_above (suc n) i p phases h =
      ground (arith, nat_eq.beq_iff i n, total-set_above n i p phases)

  -- A task of a lower rank counts less.
  total-set_phase :
      (n i : ℕ) (p : Phase W) (phases : ℕ → Phase W)
      → i < n
      → total n (set_phase i p phases) + rank (phases i) ≡ total n phases + rank p
  unfolding set_phase
  total-set_phase zero i p phases h = absurd (omega arith)
  total-set_phase (suc n) i p phases h =
      ground (arith, nat_eq.beq_iff i n, total-set_phase n i p phases, total-set_above n i p phases)

  pub total-rank :
      (n i : ℕ) (phases : ℕ → Phase W) → i < n → total n phases ≡ 0 → rank (phases i) ≡ 0
  total-rank zero i phases h e = absurd (omega arith)
  total-rank (suc n) i phases h e = ground (arith, nat_eq.beq_iff i n, total-rank n i phases)

  pub is_locked-rank : (p : Phase W) → is_locked p ≡ true → 1 ≤ rank p
  is_locked-rank holding h = omega arith
  is_locked-rank fetching h = omega arith
  is_locked-rank (storing _) h = omega arith
  is_locked-rank starting h = cc
  is_locked-rank waiting h = cc
  is_locked-rank (answered _) h = cc

  pub rank-answered :
      (c : Config W) (p : Phase W) → HasConfig c p → rank p ≡ 0 → p ≡ answered (some c)
  rank-answered c (answered r) h e = ap answered h
  rank-answered c starting h e = absurd (omega arith)
  rank-answered c waiting h e = absurd (omega arith)
  rank-answered c holding h e = absurd (omega arith)
  rank-answered c fetching h e = absurd (omega arith)
  rank-answered c (storing _) h e = absurd (omega arith)

  pub total_starting :
      (n : ℕ) (phases : ℕ → Phase W) → ((i : ℕ) → phases i ≡ starting) → total n phases ≡ 5 * n
  total_starting zero phases h = refl
  total_starting (suc n) phases h = ground (arith, h n, total_starting n phases h)

  -- If something is left to do, some task has turns to take.
  pub unanswered :
      (n : ℕ) (phases : ℕ → Phase W)
      → 1 ≤ total n phases
      → (i : ℕ) × (i < n) × (1 ≤ rank (phases i))
  unanswered zero phases h = absurd (omega arith)
  unanswered (suc n) phases h = elim (Bool-cases (rank (phases n) == 0)) [
    | inl done ↦ let (i, lt, r) = unanswered n phases (ground arith) in (i, omega arith, r)
    | inr more ↦ (n, omega arith, ground arith)
  ]

-- A task that its next turn moves on.
abbrev pub IsActive : {W P : Type 0} → Flight W P → ℕ → Type 0
IsActive s k = (1 ≤ rank (s.phases k)) × ((s.lock ≡ none) ⊎ (s.lock ≡ some k))

module _ {W P : Type 0} ⦃d : Float W⦄ (order_by : (V : Type 0) → Dict String V → Dict String V)
    (encode : Config W → P) (decode : P → Option (Config W)) (db : Database W) where
  -- What a turn does: the task goes on, or nothing happens, since it has answered or waits.
  abbrev pub Moves : ℕ → Phase W → Flight W P → Flight W P → Type 0
  Moves i p s s' =
      ((q : Phase W) × (s'.phases ≡ set_phase i q s.phases) × (rank q < rank p))
      ⊎ ((s' ≡ s) × ((rank p ≡ 0) ⊎ ((p ≡ waiting) × ((j : ℕ) × (s.lock ≡ some j)))))

  pub step_from-Moves :
      (i : ℕ) (p : Phase W) (s : Flight W P)
      → Moves i p s (step_from order_by encode decode db i p s)
  unfolding step_from
  step_from-Moves i starting s = elim (Option-cases (cached_config decode s.cache)) [
    | inl e ↦ rw (e, step_from) (inl (waiting, refl, omega arith))
    | inr (cfg, e) ↦ rw (e, step_from) (inl (answered (some cfg), refl, omega arith))
  ]
  step_from-Moves i waiting s = elim (Option-cases s.lock) [
    | inl e ↦ rw (e, step_from) (inl (holding, refl, omega arith))
    | inr (j, e) ↦ inr (ground arith, inr (refl, (j, e)))
  ]
  step_from-Moves i holding s = elim (Option-cases (cached_config decode s.cache)) [
    | inl e ↦ rw (e, step_from) (inl (fetching, refl, omega arith))
    | inr (cfg, e) ↦ rw (e, step_from) (inl (answered (some cfg), refl, omega arith))
  ]
  step_from-Moves i fetching s = elim (Option-cases (load_from_db order_by db)) [
    | inl e ↦ rw (e, step_from) (inl (answered none, refl, omega arith))
    | inr (cfg, e) ↦ rw (e, step_from) (inl (storing cfg, refl, omega arith))
  ]
  step_from-Moves i (storing cfg) s = inl (answered (some cfg), refl, omega arith)
  step_from-Moves i (answered r) s = inr (refl, inl refl)

  -- What an event among the first `n` tasks does to the turns that are left.
  abbrev pub Falls : ℕ → ℕ → Event → Flight W P → Type 0
  Falls n k e s =
      let s' = happen order_by encode decode db e s in
      (total n s'.phases < total n s.phases)
      ⊎ ((total n s'.phases ≡ total n s.phases)
          × (IsActive s k → IsActive s' k × (has_turn k (e ∷ []) ≡ false)))

  pub happen-Falls :
      (n k : ℕ) (e : Event) (s : Flight W P)
      → IsAmong n e
      → (s.lock ≡ some k → is_locked (s.phases k) ≡ true)
      → Falls n k e s
  unfolding happen
  happen-Falls n k expire s h locks = inr (refl, λ a. (a, refl))
  happen-Falls n k (run_task i) s h locks = elim (step_from-Moves i (s.phases i) s) [
    | inl (q, e, lt) ↦ inl (rw e (omega (arith, total-set_phase n i q s.phases h)))
    | inr (e, stays) ↦ inr (rw e refl, λ a. (rw e a, ground (arith, nat_eq.beq_iff i k)))
  ]
