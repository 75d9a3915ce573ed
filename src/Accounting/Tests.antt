-- ===== src/Accounting/Tests.antt =====
-- Instances of the theorems on gateway/accounting.py.
use librouter.Prelude.{inr, ℕ, ◌+◌, ◌≡◌, refl, true, false, List, [], ◌∷◌, arith, length, Sublistᴰ}
use librouter.Accounting.{
  AccountingQueue, Event, queued, woken, answered, empty_queue, make_room, enqueue, flush_start,
  flush_end, flush, drain_round, event, events, stop,
}
use librouter.Accounting.Counts.{sent, IsSound, events-IsSound}
use librouter.Accounting.Stop.{stop-settles}
use librouter.Accounting.Task.{
  TaskEvent, start_called, stop_called, recorded, resumed, begin_flush, loop_test, wake, turn_at,
  halt_at, start_at, task_event, task_events, idle_task,
}
use librouter.Accounting.Settled.{records_of}
use librouter.Accounting.Ended.{IsStopped, task_events-IsStopped}

program : Unit {0}
unfolding make_room enqueue flush_start flush_end flush drain_round event events stop begin_flush
    loop_test wake turn_at halt_at start_at task_event task_events
program = tt

-- A batch of two fails, of the three records behind it one makes room, and two are written at the
-- end.
abbrev history : List (Event ℕ)
history = queued 1 ∷ queued 2 ∷ woken ∷ queued 3 ∷ answered false ∷ queued 4 ∷ queued 5 ∷ []

abbrev last_state : AccountingQueue ℕ
last_state = stop true true true (events history (empty_queue 2 200))

written_runs : last_state.written ≡ 4 ∷ 5 ∷ []
unfolding program
written_runs = refl

-- The metric counts the failed batch only.
dropped_runs : (last_state.dropped_total ≡ 3) × (last_state.metric ≡ 2)
unfolding program
dropped_runs = (refl, refl)

events-IsSound_example : IsSound 2 (sent history) (events history (empty_queue 2 200))
events-IsSound_example = events-IsSound 2 (omega arith) 200 history

stop-settles_example :
    (last_state.buffer ≡ [])
    × (last_state.in_flight ≡ [])
    × (length (sent history) ≡ length last_state.written + last_state.dropped_total)
    × Sublistᴰ last_state.written (sent history)
stop-settles_example = stop-settles 2 200 history true true true (omega arith)

-- The task waits for the writer when it is told to stop, and two records come after that.
abbrev served : List (TaskEvent ℕ)
served = start_called ∷ resumed true ∷ recorded 1 ∷ recorded 2 ∷ resumed true ∷ recorded 3 ∷ []

abbrev meanwhile : List (TaskEvent ℕ)
meanwhile =
    resumed false
    ∷ resumed true
    ∷ recorded 4
    ∷ resumed true
    ∷ resumed true
    ∷ recorded 5
    ∷ resumed true
    ∷ []

stopped_runs :
    ((task_events meanwhile
        (task_event stop_called (task_events served (idle_task 4 2)))).queue.written
      ≡ 3 ∷ 4 ∷ [])
    × ((task_events meanwhile
          (task_event stop_called (task_events served (idle_task 4 2)))).queue.buffer
        ≡ 5 ∷ [])
unfolding program
stopped_runs = (refl, refl)

task_events-IsStopped_example :
    IsStopped
      (records_of served)
      (records_of meanwhile)
      (task_events meanwhile (task_event stop_called (task_events served (idle_task 4 2))))
task_events-IsStopped_example =
    task_events-IsStopped 4 2 served meanwhile (omega arith)
      (unfold program in (tt, (tt, (tt, (tt, (tt, (tt, tt))))))) (unfold program in (tt, inr refl))
      (tt, (tt, (tt, (tt, (tt, (tt, (tt, tt))))))) (omega arith)
