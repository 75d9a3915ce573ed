-- ===== src/Accounting.antt =====
-- gateway/accounting.py: the queue of attempt records between the requests and the database. A
-- flush takes the buffer before it awaits the writer, so records may be queued while it waits; its
-- two halves are `flush_start` and `flush_end`, and `in_flight` is the batch between them. The
-- writer is a parameter: an event says whether it wrote the batch or raised. One task at a time
-- flushes: the drain task, and after its end `stop`.
pub mod Counts
pub mod Task
mod Turns
mod Settled
mod Ended
mod Stop
mod Tests
use librouter.Prelude.{
  ℕ, ◌+◌, ◌≡◌, Bool, true, false, List, [], ◌∷◌, ◌++◌, length, leb, if◌then◌else◌,
}

-- `written` is what the writer has accepted, `metric` the counter ACCOUNTING_DROPPED.
pub record AccountingQueue (A : Type 0) : Type 0 where
  pub capacity : ℕ
  pub flush_size : ℕ
  pub buffer : List A
  pub dropped_total : ℕ
  pub wakeup : Bool
  pub in_flight : List A
  pub written : List A
  pub metric : ℕ

-- What the other tasks and the writer do to the queue, in the order in which it happens.
pub data Event (A : Type 0) : Type 0 where
  queued : A → Event A
  -- The drain loop wakes up, by the event or by the timeout.
  woken : Event A
  -- The writer has answered: true if it wrote the batch.
  answered : Bool → Event A

module _ {A : Type 0} where
  -- `__init__`
  abbrev pub empty_queue : ℕ → ℕ → AccountingQueue A
  empty_queue capacity flush_size = record {
    capacity = capacity;
    flush_size = flush_size;
    buffer = [];
    dropped_total = 0;
    wakeup = false;
    in_flight = [];
    written = [];
    metric = 0;
  }

  -- `popleft` and the count, at the buffer; an empty one is the `IndexError` that is passed over.
  abbrev pub popleft : List A → AccountingQueue A → AccountingQueue A
  popleft [] q = q
  popleft (oldest ∷ rest) q = record q { buffer = rest; dropped_total = q.dropped_total + 1 }

  -- The oldest record makes room.
  unfoldable pub make_room : AccountingQueue A → AccountingQueue A
  make_room q = if leb q.capacity (length q.buffer) then popleft q.buffer q else q

  unfoldable pub enqueue : A → AccountingQueue A → AccountingQueue A
  unfolding make_room
  enqueue rec q =
      let q' = make_room q in
      let buffer = q'.buffer ++ (rec ∷ []) in
      record q' {
        buffer = buffer;
        wakeup = if leb q'.flush_size (length buffer) then true else q'.wakeup;
      }

  abbrev pub take_batch : List A → AccountingQueue A → AccountingQueue A
  take_batch [] q = q
  take_batch (rec ∷ recs) q = record q { in_flight = rec ∷ recs; buffer = [] }

  -- `_flush` up to the `await`.
  unfoldable pub flush_start : AccountingQueue A → AccountingQueue A
  flush_start q = take_batch q.buffer q

  -- `_flush` after the `await`: the batch is written, or dropped and counted.
  unfoldable pub flush_end : Bool → AccountingQueue A → AccountingQueue A
  flush_end true q = record q { written = q.written ++ q.in_flight; in_flight = [] }
  flush_end false q = record q {
    dropped_total = q.dropped_total + length q.in_flight;
    metric = q.metric + length q.in_flight;
    in_flight = [];
  }

  unfoldable pub flush : Bool → AccountingQueue A → AccountingQueue A
  unfolding flush_start flush_end
  flush ok q = flush_end ok (flush_start q)

  -- A round of `_drain_loop`, at the batch in flight: while it awaits the writer it does not wake
  -- up.
  abbrev pub drain_at : List A → AccountingQueue A → AccountingQueue A
  drain_at [] q = flush_start (record q { wakeup = false })
  drain_at (_ ∷ _) q = q

  unfoldable pub drain_round : AccountingQueue A → AccountingQueue A
  unfolding flush_start
  drain_round q = drain_at q.in_flight q

  unfoldable pub event : Event A → AccountingQueue A → AccountingQueue A
  unfolding enqueue drain_round flush_end
  event (queued rec) q = enqueue rec q
  event woken q = drain_round q
  event (answered ok) q = flush_end ok q

  unfoldable pub events : List (Event A) → AccountingQueue A → AccountingQueue A
  unfolding event
  events [] q = q
  events (e ∷ es) q = events es (event e q)

  -- `stop` of a started queue, with nothing queued meanwhile: the writer answers for the batch in
  -- flight, the drain task flushes behind its loop, and `stop` flushes. A drain task that was
  -- waiting flushes once more in its loop, which leaves nothing to the flush behind it.
  unfoldable pub stop : Bool → Bool → Bool → AccountingQueue A → AccountingQueue A
  unfolding flush flush_end
  stop ok1 ok2 ok3 q = flush ok3 (flush ok2 (flush_end ok1 (record q { wakeup = true })))
