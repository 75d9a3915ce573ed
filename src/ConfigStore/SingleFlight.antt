-- ===== src/ConfigStore/SingleFlight.antt =====
-- Many calls of `load_or_refresh` at once, in gateway/config_store.py: every call is a task, and a
-- step of a task is the code up to its next `await`. `expire` is the end of the payload's time to
-- live, or the deletion by `write`. The calls are not forced, and the database stays as it is.
use librouter.Prelude.{
  ◌≡◌, refl, ℕ, suc, ◌+◌, ◌≤◌, String, Bool, true, false, Option, none, some, List, [], ◌∷◌, arith,
  nat_eq, ◌==◌, if◌then◌else◌,
}
use librouter.Prelude.Dict.{Dict}
use librouter.Prelude.Float.{Float}
use librouter.Models.{Config}
use librouter.Db.{Database}
use librouter.ConfigStore.{load_from_db, cached_config, write_to_redis}

-- Where a task stands: before its first look at the cache; in the line for the lock; in the locked
-- block, before the second look, before the rows, or before the payload; at its answer.
pub data Phase (W : Type 0) : Type 0 where
  starting waiting holding fetching : Phase W
  storing : Config W → Phase W
  answered : Option (Config W) → Phase W

pub record Flight (W P : Type 0) : Type 0 where
  pub phases : ℕ → Phase W
  pub lock : Option ℕ
  pub cache : Option P
  -- How often a task read the database.
  pub fetches : ℕ

pub data Event : Type 0 where
  run_task : ℕ → Event
  expire : Event

unfoldable pub set_phase : {W : Type 0} → ℕ → Phase W → (ℕ → Phase W) → ℕ → Phase W
set_phase i p phases j = if i == j then p else phases j

-- No task has begun, and nothing is cached.
abbrev pub cold : {W P : Type 0} → Flight W P
cold = record { phases = λ i. starting; lock = none; cache = none; fetches = 0 }

-- How often the payload was taken away.
abbrev pub expiries : List Event → ℕ
expiries [] = 0
expiries (run_task i ∷ events) = expiries events
expiries (expire ∷ events) = suc (expiries events)

-- The configurations that a phase has are `c`.
abbrev pub HasConfig : {W : Type 0} → Config W → Phase W → Type 0
HasConfig c (storing d) = d ≡ c
HasConfig c (answered r) = r ≡ some c
HasConfig c _ = Unit

-- What a phase says of the lock and of the cache.
abbrev pub is_locked : {W : Type 0} → Phase W → Bool
is_locked holding = true
is_locked fetching = true
is_locked (storing _) = true
is_locked _ = false

abbrev pub is_storing : {W : Type 0} → Phase W → Bool
is_storing (storing _) = true
is_storing _ = false

abbrev pub is_refilling : {W : Type 0} → Phase W → Bool
is_refilling fetching = true
is_refilling (storing _) = true
is_refilling _ = false

abbrev pub goes_to : {W P : Type 0} → ℕ → Phase W → Flight W P → Flight W P
goes_to i p s = record s { phases = set_phase i p s.phases }

module _ {W P : Type 0} ⦃d : Float W⦄ (order_by : (V : Type 0) → Dict String V → Dict String V)
    (encode : Config W → P) (decode : P → Option (Config W)) (db : Database W) where
  -- The step of task `i` from the phase it is in.
  unfoldable pub step_from : ℕ → Phase W → Flight W P → Flight W P
  unfolding set_phase cached_config load_from_db write_to_redis
  step_from i starting s = elim (cached_config decode s.cache) [
    | some cfg ↦ goes_to i (answered (some cfg)) s
    | none ↦ goes_to i waiting s
  ]
  step_from i waiting s = elim s.lock [
    | some _ ↦ s
    | none ↦ record (goes_to i holding s) { lock = some i }
  ]
  step_from i holding s = elim (cached_config decode s.cache) [
    | some cfg ↦ record (goes_to i (answered (some cfg)) s) { lock = none }
    | none ↦ goes_to i fetching s
  ]
  step_from i fetching s = elim (load_from_db order_by db) [
    | some cfg ↦ record (goes_to i (storing cfg) s) { fetches = suc s.fetches }
    | none ↦ record (goes_to i (answered none) s) { fetches = suc s.fetches; lock = none }
  ]
  step_from i (storing cfg) s = record (goes_to i (answered (some cfg)) s) {
    cache = write_to_redis encode cfg s.cache;
    lock = none;
  }
  step_from i (answered r) s = s

  unfoldable pub happen : Event → Flight W P → Flight W P
  unfolding step_from
  happen (run_task i) s = step_from i (s.phases i) s
  happen expire s = record s { cache = none }

  unfoldable pub run_events : List Event → Flight W P → Flight W P
  unfolding happen
  run_events [] s = s
  run_events (e ∷ events) s = run_events events (happen e s)

  -- 1 if the database must be read once more before something is cached.
  abbrev pub missing : Flight W P → ℕ
  missing s = elim s.cache [
    | some _ ↦ 0
    | none ↦ elim s.lock [ none ↦ 1 | some i ↦ if is_storing (s.phases i) then 0 else 1 ]
  ]

  abbrev pub IsCached : Config W → Option P → Type 0
  IsCached c none = Unit
  IsCached c (some payload) = payload ≡ encode c

  -- Task `i` has the lock exactly in the locked block, and nothing is cached while it refills.
  abbrev pub Fits : Config W → Flight W P → ℕ → Type 0
  Fits c s i =
      HasConfig c (s.phases i)
      × (is_locked (s.phases i) ≡ true → s.lock ≡ some i)
      × (s.lock ≡ some i → is_locked (s.phases i) ≡ true)
      × (is_refilling (s.phases i) ≡ true → s.cache ≡ none)

  pub record IsSound (c : Config W) (n : ℕ) (s : Flight W P) : Type 0 where
    pub cached : IsCached c s.cache
    pub fits : (i : ℕ) → Fits c s i
    pub budget : s.fetches + missing s ≤ suc n

  module _ (c : Config W) (in_db : load_from_db order_by db ≡ some c)
      (law : decode (encode c) ≡ some c) where
    missing-goes_to :
        (i : ℕ) (p : Phase W) (s : Flight W P)
        → is_storing p ≡ is_storing (s.phases i)
        → missing (goes_to i p s) ≡ missing s
    unfolding set_phase
    missing-goes_to i p s h = ground (arith, nat_eq.beq_iff i)

    pub step_from-IsSound :
        (i n : ℕ) (p : Phase W) (s : Flight W P)
        → s.phases i ≡ p
        → IsSound c n s
        → IsSound c n (step_from i p s)
    unfolding step_from cached_config set_phase write_to_redis
    step_from-IsSound i n p s e h = record {
      cached = ground (arith, h.cached, e, h.fits i, in_db);
      fits = λ j. ground (arith, law, e, in_db, h.cached, h.fits i, h.fits j, nat_eq.beq_iff i j);
      budget = ground (
        arith,
        h.budget,
        e,
        in_db,
        h.fits i,
        nat_eq.beq_iff i i,
        missing-goes_to i waiting s,
        missing-goes_to i fetching s,
        missing-goes_to i (answered (some c)) s,
      );
    }

    pub expire-IsSound :
        (n : ℕ) (s : Flight W P) → IsSound c n s → IsSound c (suc n) (happen expire s)
    unfolding happen
    expire-IsSound n s h = record {
      cached = tt;
      fits = λ j. ground (arith, h.fits j);
      budget = ground (arith, h.budget);
    }

    IsSound-le : (n m : ℕ) (s : Flight W P) → n ≤ m → IsSound c n s → IsSound c m s
    IsSound-le n m s le h = record {
      cached = h.cached;
      fits = h.fits;
      budget = omega (arith, h.budget);
    }

    pub run_events-IsSound :
        (events : List Event) (n : ℕ) (s : Flight W P)
        → IsSound c n s
        → IsSound c (expiries events + n) (run_events events s)
    unfolding run_events happen
    run_events-IsSound [] n s h = IsSound-le n (0 + n) s (omega arith) h
    run_events-IsSound (run_task i ∷ events) n s h =
        run_events-IsSound events n _ (step_from-IsSound i n (s.phases i) s refl h)
    run_events-IsSound (expire ∷ events) n s h =
        IsSound-le (expiries events + suc n) (suc (expiries events) + n) _ (omega arith)
          (run_events-IsSound events (suc n) _ (expire-IsSound n s h))

    -- From a cold cache, with a configuration in the database whose payload can be read: whatever
    -- the order in which any number of calls run and the payload is taken away, the database is
    -- read at most once more often than the payload is taken away, and each call that has answered
    -- has the configuration of the database.
    pub run_events-SingleFlight :
        (events : List Event)
        → ((run_events events cold).fetches ≤ suc (expiries events))
          × ((i : ℕ) → HasConfig c ((run_events events cold).phases i))
    run_events-SingleFlight events =
        let sound : IsSound c (expiries events + 0) (run_events events cold) =
          run_events-IsSound events 0 cold
            (record { cached = tt; fits = ground arith; budget = ground arith }) in
        (ground (arith, sound.budget), λ i. (sound.fits i).0)
