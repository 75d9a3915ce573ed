-- ===== src/Accounting/Settled.antt =====
-- The invariant of the accounting task of gateway/accounting.py, in any order of its events.
use librouter.Prelude.{
  ◌≡◌, refl, ℕ, ◌≤◌, Bool, true, false, List, [], ◌∷◌, ◌++◌, length, append-nil, append_assoc, leb,
  Bool-cases, inl, inr,
}
use librouter.Accounting.{AccountingQueue, flush_start, enqueue, make_room, popleft}
use librouter.Accounting.Task.{
  TaskPhase, off, created, waiting, flushing, last_flush, ended, final_flush, AccountingTask,
  TaskEvent, start_called, stop_called, recorded, resumed, awaits, begin_flush, answer_batch,
  loop_test, woken_at, wake, turn_at, signal, halt_at, start_at, task_event, task_events,
}
use librouter.Accounting.Counts.{
  IsSound, wakeup-IsSound, take_batch-IsSound, flush_end-IsSound, enqueue-IsSound,
}
use librouter.Accounting.Stop.{flush_end-idle}

module _ {A : Type 0} where
  abbrev pub records_of : List (TaskEvent A) → List A
  records_of [] = []
  records_of (recorded rec ∷ es) = rec ∷ records_of es
  records_of (_ ∷ es) = records_of es

  pub records_of-cons :
      (e : TaskEvent A) (es : List (TaskEvent A))
      → records_of (e ∷ es) ≡ records_of (e ∷ []) ++ records_of es
  records_of-cons start_called es = refl
  records_of-cons stop_called es = refl
  records_of-cons (recorded rec) es = refl
  records_of-cons (resumed ok) es = refl

  popleft-in_flight : (b : List A) (q : AccountingQueue A) → (popleft b q).in_flight ≡ q.in_flight
  popleft-in_flight [] q = refl
  popleft-in_flight (_ ∷ _) q = refl

  enqueue-in_flight : (rec : A) (q : AccountingQueue A) → (enqueue rec q).in_flight ≡ q.in_flight
  unfolding enqueue make_room
  enqueue-in_flight rec q = elim (Bool-cases (leb q.capacity (length q.buffer))) [
    | inl e ↦ rw (e, make_room) (popleft-in_flight q.buffer q)
    | inr e ↦ rw (e, make_room) refl
  ]

  -- No batch is in flight but where a flush awaits the writer.
  abbrev pub IsIdle : TaskPhase → List A → Type 0
  IsIdle flushing b = Unit
  IsIdle last_flush b = Unit
  IsIdle final_flush b = Unit
  IsIdle _ b = b ≡ []

  module _ (cap : ℕ) (cap_pos : 1 ≤ cap) where
    pub record IsKept (past : List A) (t : AccountingTask A) : Type 0 where
      pub sound : IsSound cap past t.queue
      pub idle : IsIdle t.phase t.queue.in_flight

    flush_start-IsSound :
        (past : List A) (q : AccountingQueue A)
        → q.in_flight ≡ []
        → IsSound cap past q
        → IsSound cap past (flush_start q)
    unfolding flush_start
    flush_start-IsSound past q idle h = take_batch-IsSound cap cap_pos past q.buffer q refl idle h

    last_flush-IsKept :
        (past : List A) (t : AccountingTask A)
        → t.queue.in_flight ≡ []
        → IsSound cap past t.queue
        → IsKept past (begin_flush last_flush ended t)
    unfolding begin_flush
    last_flush-IsKept past t idle h = record {
      sound = flush_start-IsSound past t.queue idle h;
      idle = at_batch (flush_start t.queue).in_flight;
    }
      where
        at_batch : (b : List A) → IsIdle (awaits last_flush ended b) b
        at_batch [] = refl
        at_batch (_ ∷ _) = tt

    final_flush-IsKept :
        (past : List A) (t : AccountingTask A)
        → t.queue.in_flight ≡ []
        → IsSound cap past t.queue
        → IsKept past (begin_flush final_flush off t)
    unfolding begin_flush
    final_flush-IsKept past t idle h = record {
      sound = flush_start-IsSound past t.queue idle h;
      idle = at_batch (flush_start t.queue).in_flight;
    }
      where
        at_batch : (b : List A) → IsIdle (awaits final_flush off b) b
        at_batch [] = refl
        at_batch (_ ∷ _) = tt

    loop_test-IsKept :
        (past : List A) (t : AccountingTask A)
        → t.queue.in_flight ≡ []
        → IsSound cap past t.queue
        → IsKept past (loop_test t)
    unfolding loop_test
    loop_test-IsKept past t idle h = elim (Bool-cases t.stop_set) [
      | inl e ↦
          rw (e, loop_test)
            (let kept = last_flush-IsKept past t idle h in
              record { sound = kept.sound; idle = kept.idle })
      | inr e ↦ rw (e, loop_test) (record { sound = h; idle = idle })
    ]

    woken_at-IsKept :
        (past b : List A) (t : AccountingTask A)
        → t.queue.in_flight ≡ b
        → IsSound cap past t.queue
        → IsKept past (woken_at b t)
    woken_at-IsKept past [] t e h = loop_test-IsKept past t e h
    woken_at-IsKept past (_ ∷ _) t e h = record { sound = h; idle = tt }

    answered-IsSound :
        (ok : Bool) (past : List A) (t : AccountingTask A)
        → IsSound cap past t.queue
        → IsSound cap past (answer_batch ok t).queue × ((answer_batch ok t).queue.in_flight ≡ [])
    answered-IsSound ok past t h =
        (flush_end-IsSound cap cap_pos ok past t.queue h, flush_end-idle ok t.queue)

    turn_at-IsKept :
        (p : TaskPhase) (ok : Bool) (past : List A) (t : AccountingTask A)
        → t.phase ≡ p
        → IsIdle p t.queue.in_flight
        → IsSound cap past t.queue
        → IsKept past (turn_at p ok t)
    unfolding turn_at wake
    turn_at-IsKept off ok past t e idle h = record { sound = h; idle = rw e idle }
    turn_at-IsKept created ok past t e idle h = loop_test-IsKept past t idle h
    turn_at-IsKept waiting ok past t e idle h =
        woken_at-IsKept past _ _ refl
          (flush_start-IsSound past _ idle (wakeup-IsSound cap past t.queue false h))
    turn_at-IsKept flushing ok past t e idle h =
        let (sound, empty) = answered-IsSound ok past t h in
        loop_test-IsKept past (answer_batch ok t) empty sound
    turn_at-IsKept last_flush ok past t e idle h =
        let (sound, empty) = answered-IsSound ok past t h in record { sound = sound; idle = empty }
    turn_at-IsKept ended ok past t e idle h = final_flush-IsKept past t idle h
    turn_at-IsKept final_flush ok past t e idle h =
        let (sound, empty) = answered-IsSound ok past t h in record { sound = sound; idle = empty }

    halt_at-IsKept :
        (p : TaskPhase) (past : List A) (t : AccountingTask A)
        → t.phase ≡ p
        → IsKept past t
        → IsKept past (halt_at p t)
    unfolding halt_at
    halt_at-IsKept p past t e h = at_phase p (rw e at h.idle)
      where
        woken : IsSound cap past (record t.queue { wakeup = true })
        woken = wakeup-IsSound cap past t.queue true h.sound

        signalled : IsKept past (signal t)
        signalled = record { sound = woken; idle = h.idle }

        at_phase : (p : TaskPhase) → IsIdle p t.queue.in_flight → IsKept past (halt_at p t)
        at_phase off idle = final_flush-IsKept past (signal t) idle woken
        at_phase created idle = signalled
        at_phase waiting idle = signalled
        at_phase flushing idle = signalled
        at_phase last_flush idle = signalled
        at_phase ended idle = signalled
        at_phase final_flush idle = signalled

    start_at-IsKept :
        (p : TaskPhase) (past : List A) (t : AccountingTask A)
        → t.phase ≡ p
        → IsKept past t
        → IsKept past (start_at p t)
    unfolding start_at
    start_at-IsKept off past t e h = record { sound = h.sound; idle = rw e at h.idle }
    start_at-IsKept created past t e h = h
    start_at-IsKept waiting past t e h = h
    start_at-IsKept flushing past t e h = h
    start_at-IsKept last_flush past t e h = h
    start_at-IsKept ended past t e h = h
    start_at-IsKept final_flush past t e h = h

    pub task_event-IsKept :
        (e : TaskEvent A) (past : List A) (t : AccountingTask A)
        → IsKept past t
        → IsKept (past ++ records_of (e ∷ [])) (task_event e t)
    unfolding task_event
    task_event-IsKept start_called past t h =
        rw (append-nil) (start_at-IsKept t.phase past t refl h)
    task_event-IsKept stop_called past t h = rw (append-nil) (halt_at-IsKept t.phase past t refl h)
    task_event-IsKept (recorded rec) past t h = record {
      sound = enqueue-IsSound cap cap_pos past t.queue rec h.sound;
      idle = rw (enqueue-in_flight rec t.queue) h.idle;
    }
    task_event-IsKept (resumed ok) past t h =
        rw (append-nil) (turn_at-IsKept t.phase ok past t refl h.idle h.sound)

    pub task_events-IsKept :
        (es : List (TaskEvent A)) (past : List A) (t : AccountingTask A)
        → IsKept past t
        → IsKept (past ++ records_of es) (task_events es t)
    unfolding task_events
    task_events-IsKept [] past t h = rw (append-nil) h
    task_events-IsKept (e ∷ es) past t h =
        rw (records_of-cons e es, ← append_assoc past (records_of (e ∷ [])) (records_of es))
          (task_events-IsKept es (past ++ records_of (e ∷ [])) (task_event e t)
            (task_event-IsKept e past t h))
