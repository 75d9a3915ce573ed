-- ===== src/Accounting/Ended.antt =====
-- How `stop` ends the accounting task of gateway/accounting.py while requests still record.
use librouter.Prelude.{
  ◌⊎◌, ◌≡◌, refl, ap, ℕ, ◌+◌, ◌≤◌, Bool, false, List, [], ◌∷◌, ◌++◌, length, All, arith, append-nil,
  append_assoc, Sublistᴰ, leb, Bool-cases, inl, inr,
}
use librouter.Accounting.{AccountingQueue, flush_start, enqueue, make_room, popleft}
use librouter.Accounting.Task.{
  TaskPhase, off, created, waiting, flushing, last_flush, ended, final_flush, AccountingTask,
  TaskEvent, start_called, stop_called, recorded, resumed, awaits, begin_flush, answer_batch,
  loop_test, woken_at, wake, turn_at, signal, halt_at, task_event, task_events, idle_task,
}
use librouter.Accounting.Counts.{empty_queue-IsSound}
use librouter.Accounting.Stop.{flush_end-same, take_batch-empties}
use librouter.Accounting.Turns.{turns, IsMeanwhile, turns-off, halt_at-rank}
use librouter.Accounting.Settled.{IsKept, records_of, task_events-IsKept, task_event-IsKept}
use librouter.Prelude.Order.{Sublistᴰ-append, drop-Sublistᴰ}
use mathlib.Core.List.Sublistᴰ

abbrev pub IsRunning : TaskPhase → Type 0
IsRunning final_flush = ⊥
IsRunning _ = Unit

module _ {A : Type 0} where
  -- From the flush of `stop` on, the buffer has only what was recorded since the stop began.
  abbrev pub IsFresh : TaskPhase → List A → List A → Type 0
  IsFresh off b late = Sublistᴰ b late
  IsFresh final_flush b late = Sublistᴰ b late
  IsFresh _ b late = Unit

  pub flush_start-empties : (q : AccountingQueue A) → (flush_start q).buffer ≡ []
  unfolding flush_start
  flush_start-empties q = take_batch-empties q.buffer q refl

  popleft-Sublist :
      (b : List A) (q : AccountingQueue A) → q.buffer ≡ b → Sublistᴰ (popleft b q).buffer b
  popleft-Sublist [] q e = rw e (Sublistᴰ.nil-sublist [])
  popleft-Sublist (x ∷ b) q e = drop-Sublistᴰ [] (x ∷ []) b

  enqueue-Sublist :
      (rec : A) (late : List A) (q : AccountingQueue A)
      → Sublistᴰ q.buffer late
      → Sublistᴰ (enqueue rec q).buffer (late ++ (rec ∷ []))
  unfolding enqueue make_room
  enqueue-Sublist rec late q h =
      Sublistᴰ-append (rec ∷ []) (elim (Bool-cases (leb q.capacity (length q.buffer))) [
        | inl e ↦ rw (e, make_room) (Sublistᴰ.trans (popleft-Sublist q.buffer q refl) h)
        | inr e ↦ rw (e, make_room) h
      ])

  recorded-IsFresh :
      (p : TaskPhase) (rec : A) (late : List A) (q : AccountingQueue A)
      → IsFresh p q.buffer late
      → IsFresh p (enqueue rec q).buffer (late ++ (rec ∷ []))
  recorded-IsFresh off rec late q h = enqueue-Sublist rec late q h
  recorded-IsFresh final_flush rec late q h = enqueue-Sublist rec late q h
  recorded-IsFresh created rec late q h = tt
  recorded-IsFresh waiting rec late q h = tt
  recorded-IsFresh flushing rec late q h = tt
  recorded-IsFresh last_flush rec late q h = tt
  recorded-IsFresh ended rec late q h = tt

  final_flush-IsFresh :
      (late : List A) (t : AccountingTask A)
      → IsFresh
          (begin_flush final_flush off t).phase
          (begin_flush final_flush off t).queue.buffer
          late
  unfolding begin_flush
  final_flush-IsFresh late t =
      rw (flush_start-empties t.queue) (at_batch (flush_start t.queue).in_flight)
    where
      at_batch : (b : List A) → IsFresh (awaits final_flush off b) [] late
      at_batch [] = Sublistᴰ.nil-sublist late
      at_batch (_ ∷ _) = Sublistᴰ.nil-sublist late

  loop_test-IsFresh :
      (late : List A) (t : AccountingTask A)
      → IsFresh (loop_test t).phase (loop_test t).queue.buffer late
  unfolding loop_test begin_flush
  loop_test-IsFresh late t = elim (Bool-cases t.stop_set) [
    | inl e ↦ rw (e, loop_test) (at_batch (flush_start t.queue).in_flight)
    | inr e ↦ rw (e, loop_test) tt
  ]
    where
      at_batch :
          (b : List A) → IsFresh (awaits last_flush ended b) (flush_start t.queue).buffer late
      at_batch [] = tt
      at_batch (_ ∷ _) = tt

  woken_at-IsFresh :
      (b late : List A) (t : AccountingTask A)
      → IsFresh (woken_at b t).phase (woken_at b t).queue.buffer late
  woken_at-IsFresh [] late t = loop_test-IsFresh late t
  woken_at-IsFresh (_ ∷ _) late t = tt

  turn_at-IsFresh :
      (p : TaskPhase) (ok : Bool) (late : List A) (t : AccountingTask A)
      → t.phase ≡ p
      → IsFresh p t.queue.buffer late
      → IsFresh (turn_at p ok t).phase (turn_at p ok t).queue.buffer late
  unfolding turn_at wake
  turn_at-IsFresh off ok late t e h = rw e h
  turn_at-IsFresh created ok late t e h = loop_test-IsFresh late t
  turn_at-IsFresh waiting ok late t e h =
      let q = flush_start (record t.queue { wakeup = false }) in
      woken_at-IsFresh q.in_flight late (record t { queue = q })
  turn_at-IsFresh flushing ok late t e h = loop_test-IsFresh late (answer_batch ok t)
  turn_at-IsFresh last_flush ok late t e h = tt
  turn_at-IsFresh ended ok late t e h = final_flush-IsFresh late t
  turn_at-IsFresh final_flush ok late t e h = rw (flush_end-same ok t.queue) h

  meanwhile-IsFresh :
      (es : List (TaskEvent A)) (late : List A) (t : AccountingTask A)
      → All IsMeanwhile es
      → IsFresh t.phase t.queue.buffer late
      → IsFresh (task_events es t).phase (task_events es t).queue.buffer (late ++ records_of es)
  unfolding task_events task_event
  meanwhile-IsFresh [] late t _ h = rw (append-nil) h
  meanwhile-IsFresh (start_called ∷ es) late t (never, _) h = absurd never
  meanwhile-IsFresh (stop_called ∷ es) late t (never, _) h = absurd never
  meanwhile-IsFresh (recorded rec ∷ es) late t (_, all) h =
      rw (← append_assoc late (rec ∷ []) (records_of es)) (
        meanwhile-IsFresh es (late ++ (rec ∷ [])) _ all
          (recorded-IsFresh t.phase rec late t.queue h))
  meanwhile-IsFresh (resumed ok ∷ es) late t (_, all) h =
      meanwhile-IsFresh es late _ all (turn_at-IsFresh t.phase ok late t refl h)

  -- A stop that begins, and no other one that is in its own flush.
  halt_at-IsFresh :
      (p : TaskPhase) (t : AccountingTask A)
      → t.phase ≡ p
      → IsRunning p
      → IsFresh (halt_at p t).phase (halt_at p t).queue.buffer []
  unfolding halt_at
  halt_at-IsFresh off t e _ = final_flush-IsFresh [] (signal t)
  halt_at-IsFresh created t e _ = rw e tt
  halt_at-IsFresh waiting t e _ = rw e tt
  halt_at-IsFresh flushing t e _ = rw e tt
  halt_at-IsFresh last_flush t e _ = rw e tt
  halt_at-IsFresh ended t e _ = rw e tt
  halt_at-IsFresh final_flush t e never = absurd never

  -- No stop comes while one runs, and no start in its own flush, where `start` would make a second
  -- task. A start while the task is there is one that the code ignores.
  abbrev pub IsOrderlyAt : TaskEvent A → AccountingTask A → Type 0
  IsOrderlyAt start_called t = IsRunning t.phase
  IsOrderlyAt stop_called t = IsRunning t.phase × ((t.phase ≡ off) ⊎ (t.stop_set ≡ false))
  IsOrderlyAt (recorded rec) t = Unit
  IsOrderlyAt (resumed ok) t = Unit

  abbrev pub IsOrderly : List (TaskEvent A) → AccountingTask A → Type 0
  IsOrderly [] t = Unit
  IsOrderly (e ∷ es) t = IsOrderlyAt e t × IsOrderly es (task_event e t)

  -- The state in which `stop` has returned: `before` was recorded up to the call, `late` after it.
  pub record IsStopped (before late : List A) (t : AccountingTask A) : Type 0 where
    pub is_off : t.phase ≡ off
    pub no_batch : t.queue.in_flight ≡ []
    pub accounted :
        length (before ++ late)
        ≡ length t.queue.written + length t.queue.buffer + t.queue.dropped_total
    pub in_order : Sublistᴰ (t.queue.written ++ t.queue.buffer) (before ++ late)
    pub only_late : Sublistᴰ t.queue.buffer late

  -- For a positive capacity and every history of starts, stops, requests, turns of the task and
  -- answers of the writer in which no stop, and no start in its own flush, comes while a stop runs:
  -- a call of `stop` after it, without another one and without a start meanwhile, has returned
  -- after five turns at most, whatever is recorded meanwhile and whichever writes fail. Then no
  -- batch is in flight; each record is written, dropped and counted, or in the buffer; what is
  -- written and in the buffer is in the order of the records; and the buffer has only records that
  -- came after the call.
  pub task_events-IsStopped :
      (cap flush_size : ℕ) (history meanwhile : List (TaskEvent A))
      → 1 ≤ cap
      → IsOrderly history (idle_task cap flush_size)
      → IsOrderlyAt stop_called (task_events history (idle_task cap flush_size))
      → All IsMeanwhile meanwhile
      → 5 ≤ turns meanwhile
      → IsStopped (records_of history) (records_of meanwhile) (
          task_events meanwhile
            (task_event stop_called (task_events history (idle_task cap flush_size))))
  unfolding task_event
  task_events-IsStopped cap flush_size history meanwhile cap_pos orderly may_stop all enough =
      let t = task_events history (idle_task cap flush_size) in
      let fresh : IsKept cap cap_pos [] (idle_task cap flush_size) = record {
        sound = empty_queue-IsSound cap flush_size;
        idle = refl;
      } in
      let before = task_events-IsKept cap cap_pos history [] _ fresh in
      let signalled = task_event-IsKept cap cap_pos stop_called (records_of history) t before in
      let kept =
        task_events-IsKept cap cap_pos meanwhile (records_of history) _
          (rw (append-nil) at signalled) in
      let (low, set) = halt_at-rank t.phase t in
      let over = turns-off meanwhile (halt_at t.phase t) all set (omega (arith, low, enough)) in
      let late =
        meanwhile-IsFresh meanwhile [] (halt_at t.phase t) all
          (halt_at-IsFresh t.phase t refl may_stop.0) in
      let no_batch : (task_events meanwhile (halt_at t.phase t)).queue.in_flight ≡ [] =
        rw over at kept.idle in
      let none_out = ap length no_batch in
      record {
        is_off = over;
        no_batch = no_batch;
        accounted = omega (arith, kept.sound.counted, none_out);
        in_order = rw no_batch at kept.sound.order;
        only_late = rw over at late;
      }
