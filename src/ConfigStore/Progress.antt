-- ===== src/ConfigStore/Progress.antt =====
-- Concurrent calls of `load_or_refresh` in gateway/config_store.py come to an end: a turn of a task
-- moves it on, or it waits for the lock, whose holder a turn moves on. `Turns` counts the turns
-- that are left.
use librouter.Prelude.{
  ◌≡◌, refl, ◌⊎◌, inl, inr, ℕ, suc, ◌+◌, ◌*◌, ◌≤◌, ◌<◌, String, true, false, Option, some, List, [],
  ◌∷◌, ◌++◌, arith, nat_eq, ◌==◌, All, length, Bool-cases, Option-cases, ◌∙◌,
}
use librouter.Prelude.Dict.{Dict}
use librouter.Prelude.Float.{Float}
use librouter.Models.{Config}
use librouter.Db.{Database}
use librouter.ConfigStore.{load_from_db}
use librouter.ConfigStore.SingleFlight.{
  starting, answered, Flight, Event, run_task, expire, set_phase, cold, happen, run_events, IsSound,
  step_from-IsSound, expire-IsSound, run_events-SingleFlight,
}
use librouter.ConfigStore.Turns.{
  total, has_turn, IsAmong, IsRound, in_a_row, total-rank, is_locked-rank, rank-answered,
  total_starting, unanswered, IsActive, happen-Falls, step_from-Moves,
}

module _ {W P : Type 0} ⦃d : Float W⦄ (order_by : (V : Type 0) → Dict String V → Dict String V)
    (encode : Config W → P) (decode : P → Option (Config W)) (db : Database W) where
  module _ (c : Config W) (in_db : load_from_db order_by db ≡ some c)
      (law : decode (encode c) ≡ some c) where
    abbrev Sound : Flight W P → Type 0
    Sound s = (m : ℕ) × IsSound order_by encode decode db c m s

    happen-Sound :
        (e : Event) (s : Flight W P) → Sound s → Sound (happen order_by encode decode db e s)
    unfolding happen
    happen-Sound expire s (m, h) =
        (suc m, unfold happen in expire-IsSound order_by encode decode db c in_db law m s h)
    happen-Sound (run_task i) s (m, h) =
        (m, step_from-IsSound order_by encode decode db c in_db law i m (s.phases i) s refl h)

    run_events-Sound :
        (events : List Event) (s : Flight W P)
        → Sound s
        → Sound (run_events order_by encode decode db events s)
    unfolding run_events
    run_events-Sound [] s h = h
    run_events-Sound (e ∷ events) s h = run_events-Sound events _ (happen-Sound e s h)

    -- No order of turns takes a step back.
    run_events-le :
        (n : ℕ) (events : List Event) (s : Flight W P)
        → Sound s
        → All (IsAmong n) events
        → total n (run_events order_by encode decode db events s).phases ≤ total n s.phases
    unfolding run_events
    run_events-le n [] s h a = omega arith
    run_events-le n (e ∷ events) s h a =
        let rest = run_events-le n events _ (happen-Sound e s h) a.1 in
        elim (happen-Falls order_by encode decode db n 0 e s a.0 ((h.1.fits 0).2)) [
          | inl lt ↦ omega arith
          | inr (eq, _) ↦ omega arith
        ]

    -- A turn of an active task, somewhere among the events, takes a step.
    run_events-lt :
        (n k : ℕ) (events : List Event) (s : Flight W P)
        → Sound s
        → All (IsAmong n) events
        → IsActive s k
        → has_turn k events ≡ true
        → total n (run_events order_by encode decode db events s).phases < total n s.phases
    unfolding run_events
    run_events-lt n k [] s h a active turn = cc
    run_events-lt n k (e ∷ events) s h a active turn =
        let next = happen-Sound e s h in
        elim (happen-Falls order_by encode decode db n k e s a.0 ((h.1.fits k).2)) [
          | inl lt ↦ omega (arith, run_events-le n events _ next a.1)
          | inr (eq, keeps) ↦
              let (still, passed) = keeps active in
              omega (arith, run_events-lt n k events _ next a.1 still (later e events turn passed))
        ]
      where
        later :
            (e : Event) (events : List Event)
            → has_turn k (e ∷ events) ≡ true
            → has_turn k (e ∷ []) ≡ false
            → has_turn k events ≡ true
        later (run_task j) events t p = ground arith
        later expire events t p = t

    run_events-append :
        (l m : List Event) (s : Flight W P)
        → run_events order_by encode decode db (l ++ m) s
          ≡ run_events order_by encode decode db m (run_events order_by encode decode db l s)
    unfolding run_events
    run_events-append [] m s = refl
    run_events-append (e ∷ l) m s = run_events-append l m _

    -- Who takes the next step: the holder of the lock, or any task that has not answered. Tasks
    -- beyond the first `n` have not begun.
    mover :
        (n : ℕ) (s : Flight W P)
        → Sound s
        → ((i : ℕ) → n ≤ i → s.phases i ≡ starting)
        → 1 ≤ total n s.phases
        → (k : ℕ) × (k < n) × IsActive s k
    mover n s h later more = elim (Option-cases s.lock) [
      | inl free ↦ let (i, lt, r) = unanswered n s.phases more in (i, lt, (r, inl free))
      | inr (j, held) ↦
          let locked = (h.1.fits j).2 held in
          (
            j,
            ground (arith, later j, locked, is_locked-rank (s.phases j)),
            (is_locked-rank (s.phases j) locked, inr held),
          )
    ]

    -- After a round something is done, or nothing was left.
    run_events-IsRound :
        (n : ℕ) (round : List Event) (s : Flight W P)
        → Sound s
        → ((i : ℕ) → n ≤ i → s.phases i ≡ starting)
        → IsRound n round
        → (total n (run_events order_by encode decode db round s).phases + 1 ≤ total n s.phases)
          ⊎ (total n (run_events order_by encode decode db round s).phases ≡ 0)
    run_events-IsRound n round s h later (turns, among) =
        elim (Bool-cases (total n s.phases == 0)) [
          | inl done ↦ inr (ground (arith, run_events-le n round s h among))
          | inr more ↦
              let (k, lt, active) = mover n s h later (ground arith) in
              inl (omega (arith, run_events-lt n k round s h among active (turns k lt)))
        ]

    -- Tasks without a turn stay where they are.
    run_events-beyond :
        (n i : ℕ) (events : List Event) (s : Flight W P)
        → All (IsAmong n) events
        → n ≤ i
        → (run_events order_by encode decode db events s).phases i ≡ s.phases i
    unfolding run_events happen set_phase
    run_events-beyond n i [] s a le = refl
    run_events-beyond n i (expire ∷ events) s a le = run_events-beyond n i events _ a.1 le
    run_events-beyond n i (run_task j ∷ events) s a le =
        run_events-beyond n i events _ a.1 le
        ∙ elim (step_from-Moves order_by encode decode db j (s.phases j) s) [
          | inl (q, e, lt) ↦ rw e (ground (arith, nat_eq.beq_iff j i))
          | inr (e, _) ↦ rw e refl
        ]

    -- As many rounds as turns are left finish everything.
    in_a_row-finishes :
        (n : ℕ) (rounds : List (List Event)) (s : Flight W P)
        → Sound s
        → ((i : ℕ) → n ≤ i → s.phases i ≡ starting)
        → All (IsRound n) rounds
        → total n s.phases ≤ length rounds
        → total n (run_events order_by encode decode db (in_a_row rounds) s).phases ≡ 0
    unfolding run_events
    in_a_row-finishes n [] s h later a le = omega arith
    in_a_row-finishes n (round ∷ rounds) s h later a le =
        let next : Flight W P = run_events order_by encode decode db round s in
        rw (run_events-append round (in_a_row rounds) s) (
          in_a_row-finishes n rounds next (run_events-Sound round s h)
            (λ i le. run_events-beyond n i round s a.0.1 le ∙ later i le) a.1
            (elim (run_events-IsRound n round s h later a.0) [
              | inl lt ↦ omega arith
              | inr done ↦ omega arith
            ]))

    -- With a configuration in the database whose payload can be read, calls from a cold cache take
    -- their turns in rounds: each of the first `n` tasks has a turn in each round, in any order,
    -- the payload may be taken away at any time, and no other task has begun. After five rounds for
    -- each task, every one of them has answered, with the configuration of the database.
    pub run_events_answers :
        (n : ℕ) (rounds : List (List Event)) (i : ℕ)
        → All (IsRound n) rounds
        → 5 * n ≤ length rounds
        → i < n
        → (run_events order_by encode decode db (in_a_row rounds) cold).phases i ≡ answered (some c)
    run_events_answers n rounds i a le lt =
        let s : Flight W P = run_events order_by encode decode db (in_a_row rounds) cold in
        let start : Sound cold =
          (0, record { cached = tt; fits = ground arith; budget = ground arith }) in
        let done : total n s.phases ≡ 0 =
          in_a_row-finishes n rounds cold start (λ j le. refl) a
            (omega (arith, total_starting n _ (λ j. refl))) in
        rank-answered c (s.phases i)
          ((run_events-SingleFlight order_by encode decode db c in_db law (in_a_row rounds)).1 i)
          (total-rank n i s.phases lt done)
