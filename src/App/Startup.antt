-- ===== src/App/Startup.antt =====
-- How `lifespan` of gateway/app.py begins and ends.
use librouter.Prelude.{
  ◌≡◌, refl, ◌⊎◌, inl, inr, String, Bool, true, false, Option, none, some, List, [], ◌∷◌, ◌++◌,
  append_assoc, append-nil, arith, Bool-cases, Option-cases, ◌∙◌, ap,
}
use librouter.Prelude.Dict.{Dict}
use librouter.Prelude.Float.{Float}
use librouter.Models.{Config}
use librouter.Db.{Database}
use librouter.Db.Pool.{connect, close}
use librouter.Secrets.{SecretsManager}
use librouter.ConfigStore.{load_or_refresh}
use librouter.Weights.{WeightEngine}
use librouter.Refresh.{Sources, tick}
use librouter.Refresh.Task.{RefreshTask, stop_task}
use librouter.Accounting.{AccountingQueue, take_batch, flush, flush_start, flush_end, stop}
use librouter.App.Boot.{Gateway, boot, db_dsn}
use librouter.App.Lifespan.{
  Resources, nothing_held, redis_held, Startup, failed, started, seed_is_read, new_engine,
  start_tasks, start_with, start_process, shutdown,
}

abbrev pub pool_held : Resources
pool_held = record redis_held { pool = record { pool = true } }

abbrev pub refresh_held : Resources
refresh_held = record pool_held { refreshing = true }

abbrev pub all_held : Resources
all_held = record refresh_held { draining = true }

module _ {W V S : Type 0} ⦃d : Float W⦄ (environ : Dict String String) (is_int : String → Bool)
    (mock : String → V) (build : String → SecretsManager → Option V) (sources : Sources W S) where
  abbrev pub first_tick : Gateway W V → S → Option (WeightEngine W × S)
  first_tick g s = tick sources (some g.available_providers) g.cfg (new_engine g.cfg.routing) s

  -- From a stored configuration on: what the process holds, and why.
  abbrev pub EndsWith : Config W → S → Startup W V S → Type 0
  EndsWith stored s (failed r) =
      ((r ≡ pool_held)
        × ((boot environ mock build stored ≡ none)
            ⊎ ((g : Gateway W V) × (boot environ mock build stored ≡ some g)
                × (first_tick g s ≡ none))))
      ⊎ ((r ≡ refresh_held)
          × ((g : Gateway W V) × (boot environ mock build stored ≡ some g)
              × (seed_is_read is_int environ g.cfg.routing.rng_seed_env ≡ false)))
  EndsWith stored s (started r g engine s') =
      (r ≡ all_held)
      × (boot environ mock build stored ≡ some g)
      × (first_tick g s ≡ some (engine, s'))
      × (seed_is_read is_int environ g.cfg.routing.rng_seed_env ≡ true)

  start_with-EndsWith :
      (stored : Config W) (s : S)
      → EndsWith stored s (start_with environ is_int mock build sources pool_held stored s)
  unfolding start_with start_tasks
  start_with-EndsWith stored s = elim (Option-cases (boot environ mock build stored)) [
    | inl unbooted ↦ rw (unbooted, start_with) (inl (refl, inl unbooted))
    | inr (g, booted) ↦ elim (Option-cases (first_tick g s)) [
      | inl unticked ↦ rw (booted, unticked, start_with) (inl (refl, inr (g, booted, unticked)))
      | inr ((engine, s'), ticked) ↦
          elim (Bool-cases (seed_is_read is_int environ g.cfg.routing.rng_seed_env)) [
            | inl seeded ↦ rw (booted, ticked, start_with, seeded) (refl, booted, ticked, seeded)
            | inr unseeded ↦
                rw (booted, ticked, start_with, unseeded) (inr (refl, (g, booted, unseeded)))
          ]
    ]
  ]

  module _ {P : Type 0} (order_by : (V : Type 0) → Dict String V → Dict String V)
      (encode : Config W → P) (decode : P → Option (Config W)) where
    -- All ways in which the start can end, with what the process holds then.
    abbrev pub Ends : Option Bool → Bool → Database W → Option P → S → Startup W V S → Type 0
    Ends loaded created db cache s end =
        ((end ≡ failed nothing_held) × ((db_dsn environ ≡ none) ⊎ (loaded ≡ none)))
        ⊎ (((end ≡ failed redis_held) × ((loaded ≡ some false) ⊎ (created ≡ false)))
            ⊎ (((end ≡ failed pool_held)
                  × ((load_or_refresh order_by encode decode false db cache).0 ≡ none))
                ⊎ ((stored : Config W) × ((load_or_refresh order_by encode decode false db cache).0
                      ≡ some stored)
                    × EndsWith stored s end)))

    pub start_process-Ends :
        (loaded : Option Bool) (created : Bool) (db : Database W) (cache : Option P) (s : S)
        → Ends loaded created db cache s (
            start_process environ is_int mock build sources order_by encode decode loaded created db
              cache s)
    unfolding start_process connect
    start_process-Ends none created db cache s = elim (Option-cases (db_dsn environ)) [
      | inl unnamed ↦ inl (rw (unnamed, start_process) refl, inl unnamed)
      | inr (dsn, named) ↦ inl (rw (named, start_process) refl, inr refl)
    ]
    start_process-Ends (some false) created db cache s = elim (Option-cases (db_dsn environ)) [
      | inl unnamed ↦ inl (rw (unnamed, start_process) refl, inl unnamed)
      | inr (dsn, named) ↦ inr (inl (rw (named, start_process) refl, inl refl))
    ]
    start_process-Ends (some true) false db cache s = elim (Option-cases (db_dsn environ)) [
      | inl unnamed ↦ inl (rw (unnamed, start_process) refl, inl unnamed)
      | inr (dsn, named) ↦ inr (inl (rw (named, start_process) refl, inr refl))
    ]
    start_process-Ends (some true) true db cache s = elim (Option-cases (db_dsn environ)) [
      | inl unnamed ↦ inl (rw (unnamed, start_process) refl, inl unnamed)
      | inr (dsn, named) ↦
          elim (Option-cases (load_or_refresh order_by encode decode false db cache).0) [
            | inl missing ↦ inr (inr (inl (rw (named, missing, start_process) refl, missing)))
            | inr (stored, found) ↦
                let goes_on : start_process environ is_int mock build sources order_by encode decode
                      (some true) true db cache s
                    ≡ start_with environ is_int mock build sources pool_held stored s =
                  rw (named, found, start_process) refl in
                inr (inr (inr (stored, found, rw goes_on (start_with-EndsWith stored s))))
          ]
    ]

module _ {A : Type 0} where
  batch_written :
      (b : List A) (q : AccountingQueue A)
      → q.in_flight ≡ []
      → q.buffer ≡ b
      → ((take_batch b q).written ++ (take_batch b q).in_flight ≡ q.written ++ b)
        × ((take_batch b q).buffer ≡ [])
        × ((take_batch b q).dropped_total ≡ q.dropped_total)
  batch_written [] q idle e = (rw idle refl, e, refl)
  batch_written (rec ∷ recs) q idle e = (refl, refl, refl)

  flush_settles :
      (q : AccountingQueue A)
      → q.in_flight ≡ []
      → ((flush true q).written ≡ q.written ++ q.buffer)
        × ((flush true q).in_flight ≡ [])
        × ((flush true q).buffer ≡ [])
        × ((flush true q).dropped_total ≡ q.dropped_total)
  unfolding flush flush_start flush_end
  flush_settles q idle = let (w, b, same) = batch_written q.buffer q idle refl in (w, refl, b, same)

  -- Nothing is held any more, and all that was queued is written, in its order.
  abbrev pub IsSettled : AccountingQueue A → Resources × AccountingQueue A → Type 0
  IsSettled q (r', q') =
      (r' ≡ nothing_held)
      × (q'.written ≡ q.written ++ (q.in_flight ++ q.buffer))
      × (q'.in_flight ≡ [])
      × (q'.buffer ≡ [])
      × (q'.dropped_total ≡ q.dropped_total)

  shutdown-IsSettled :
      (task stopped : RefreshTask) (r : Resources) (q : AccountingQueue A)
      → stop_task task ≡ some stopped
      → r.pool.pool ≡ true
      → IsSettled q (shutdown task true true true r q)
  unfolding shutdown stop close
  shutdown-IsSettled task stopped r q halts held =
      let first : AccountingQueue A = flush_end true (record q { wakeup = true }) in
      let (w1, idle1, b1, d1) = flush_settles first (unfold flush_end in refl) in
      let (w2, idle2, b2, d2) = flush_settles (flush true first) idle1 in
      let all : (flush true (flush true first)).written ≡ q.written ++ (q.in_flight ++ q.buffer) =
        w2
        ∙ rw (b1, append-nil, w1)
            (unfold flush_end in append_assoc q.written q.in_flight q.buffer) in
      rw (halts, shutdown, held) (refl, all, idle2, b2, d2 ∙ d1 ∙ unfold flush_end in refl)

module _ {W V S P A : Type 0} ⦃d : Float W⦄ (environ : Dict String String) (is_int : String → Bool)
    (mock : String → V) (build : String → SecretsManager → Option V) (sources : Sources W S)
    (order_by : (V : Type 0) → Dict String V → Dict String V) (encode : Config W → P)
    (decode : P → Option (Config W)) where
  -- In a process that has started, whatever is queued then: if stopping the refresh task succeeds,
  -- the database takes the last batches and nothing is queued meanwhile, the end of the process
  -- writes what is in flight and in the buffer, in the order of the queue, drops nothing, and lets
  -- go of all that the start took.
  pub shutdown-start_process :
      (loaded : Option Bool) (created : Bool) (db : Database W) (cache : Option P) (s s' : S)
      (r : Resources) (g : Gateway W V) (engine : WeightEngine W) (task stopped : RefreshTask)
      (q : AccountingQueue A)
      → start_process environ is_int mock build sources order_by encode decode loaded created db
          cache s
        ≡ started r g engine s'
      → stop_task task ≡ some stopped
      → IsSettled q (shutdown task true true true r q)
  shutdown-start_process loaded created db cache s s' r g engine task stopped q e halts =
      shutdown-IsSettled task stopped r q halts (holds (rw e at ends))
    where
      ends :
          Ends environ is_int mock build sources order_by encode decode loaded created db cache s (
            start_process environ is_int mock build sources order_by encode decode loaded created db
              cache s)
      ends =
          start_process-Ends environ is_int mock build sources order_by encode decode loaded created
            db cache s

      holds :
          Ends environ is_int mock build sources order_by encode decode loaded created db cache s
            (started r g engine s')
          → r.pool.pool ≡ true
      holds (inl (wrong, _)) = absurd (ground arith)
      holds (inr (inl (wrong, _))) = absurd (ground arith)
      holds (inr (inr (inl (wrong, _)))) = absurd (ground arith)
      holds (inr (inr (inr (stored, _, serving)))) = ap (λ (x : Resources). x.pool.pool) serving.0
