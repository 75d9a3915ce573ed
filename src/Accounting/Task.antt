-- ===== src/Accounting/Task.antt =====
-- gateway/accounting.py: the drain task, `start` and `stop`, which take turns with the requests. A
-- turn resumes whichever of the task and `stop` can go on: it is the wake-up of a task that waits,
-- and the answer of the writer where a flush awaits it. A `stop`, or a `start` in the flush of
-- `stop`, while a stop runs is not modelled: it leaves the phase as it is.
use librouter.Prelude.{Bool, true, false, List, [], ◌∷◌, if◌then◌else◌, ℕ}
use librouter.Accounting.{AccountingQueue, empty_queue, enqueue, flush_start, flush_end}

-- Where the task is: there is none; its first step; the wait in the loop; the flush in the loop;
-- the flush behind it; its end; and then the flush of `stop`.
pub data TaskPhase : Type 0 where
  off created waiting flushing last_flush ended final_flush : TaskPhase

pub record AccountingTask (A : Type 0) : Type 0 where
  pub queue : AccountingQueue A
  pub phase : TaskPhase
  pub stop_set : Bool

pub data TaskEvent (A : Type 0) : Type 0 where
  start_called : TaskEvent A
  stop_called : TaskEvent A
  recorded : A → TaskEvent A
  resumed : Bool → TaskEvent A

module _ {A : Type 0} where
  abbrev pub idle_task : ℕ → ℕ → AccountingTask A
  idle_task capacity flush_size = record {
    queue = empty_queue capacity flush_size;
    phase = off;
    stop_set = false;
  }

  -- The phase after the start of a flush: it awaits the writer, or there was nothing to write.
  abbrev pub awaits : TaskPhase → TaskPhase → List A → TaskPhase
  awaits busy done [] = done
  awaits busy done (_ ∷ _) = busy

  unfoldable pub begin_flush : TaskPhase → TaskPhase → AccountingTask A → AccountingTask A
  unfolding flush_start
  begin_flush busy done t =
      let q = flush_start t.queue in record t { queue = q; phase = awaits busy done q.in_flight }

  abbrev pub answer_batch : Bool → AccountingTask A → AccountingTask A
  answer_batch ok t = record t { queue = flush_end ok t.queue }

  -- The head of `while`, and the flush behind the loop.
  unfoldable pub loop_test : AccountingTask A → AccountingTask A
  unfolding begin_flush
  loop_test t = if t.stop_set then begin_flush last_flush ended t else record t { phase = waiting }

  abbrev pub woken_at : List A → AccountingTask A → AccountingTask A
  woken_at [] t = loop_test t
  woken_at (_ ∷ _) t = record t { phase = flushing }

  unfoldable pub wake : AccountingTask A → AccountingTask A
  unfolding flush_start
  wake t =
      let q = flush_start (record t.queue { wakeup = false }) in
      woken_at q.in_flight (record t { queue = q })

  unfoldable pub turn_at : TaskPhase → Bool → AccountingTask A → AccountingTask A
  unfolding loop_test wake begin_flush
  turn_at off ok t = t
  turn_at created ok t = loop_test t
  turn_at waiting ok t = wake t
  turn_at flushing ok t = loop_test (answer_batch ok t)
  turn_at last_flush ok t = record (answer_batch ok t) { phase = ended }
  turn_at ended ok t = begin_flush final_flush off t
  turn_at final_flush ok t = record (answer_batch ok t) { phase = off }

  -- `stop` up to its first `await`; without a task it goes on to its own flush.
  abbrev pub signal : AccountingTask A → AccountingTask A
  signal t = record t { stop_set = true; queue = record t.queue { wakeup = true } }

  unfoldable pub halt_at : TaskPhase → AccountingTask A → AccountingTask A
  unfolding begin_flush
  halt_at off t = begin_flush final_flush off (signal t)
  halt_at _ t = signal t

  unfoldable pub start_at : TaskPhase → AccountingTask A → AccountingTask A
  start_at off t = record t { stop_set = false; phase = created }
  start_at _ t = t

  unfoldable pub task_event : TaskEvent A → AccountingTask A → AccountingTask A
  unfolding turn_at halt_at start_at enqueue
  task_event start_called t = start_at t.phase t
  task_event stop_called t = halt_at t.phase t
  task_event (recorded rec) t = record t { queue = enqueue rec t.queue }
  task_event (resumed ok) t = turn_at t.phase ok t

  unfoldable pub task_events : List (TaskEvent A) → AccountingTask A → AccountingTask A
  unfolding task_event
  task_events [] t = t
  task_events (e ∷ es) t = task_events es (task_event e t)
