-- ===== src/App/Billing.antt =====
-- What the answer to a chat request leaves in the queue of gateway/accounting.py.
use librouter.Prelude.{
  ◌≡◌, refl, sym, ◌+◌, ◌≤◌, String, List, [], ◌∷◌, ◌++◌, arith, length, length-append, append-nil,
  append_assoc,
}
use librouter.Models.{AttemptRecord, Caller, ChatCompletionResponse}
use librouter.Accounting.{AccountingQueue, enqueue, make_room}
use librouter.Router.{Outcome, result, error, crash}
use librouter.App.{App, Reply, success, http_error, internal_error, http_status_for, answer, bill}

-- What a client sees of the end of `route`.
abbrev pub reply_of : {W : Type 0} → Outcome W → Reply ChatCompletionResponse
reply_of (result response attempts) = success response
reply_of (error e) = http_error (http_status_for e.kind) e.body
reply_of crash = internal_error

-- The attempts that `route` hands over: those of an answer, and none with an error.
abbrev pub attempts_of : {W : Type 0} → Outcome W → List (AttemptRecord W)
attempts_of (result response attempts) = attempts
attempts_of _ = []

-- The queue after the records of a list.
abbrev pub enqueue_all : {A : Type 0} → List A → AccountingQueue A → AccountingQueue A
enqueue_all [] q = q
enqueue_all (a ∷ recs) q = enqueue_all recs (enqueue a q)

-- A queue with room takes them all, in order, and drops none.
pub enqueue_all-room :
    {A : Type 0} (recs : List A) (q : AccountingQueue A)
    → length q.buffer + length recs ≤ q.capacity
    → ((enqueue_all recs q).buffer ≡ q.buffer ++ recs)
      × ((enqueue_all recs q).dropped_total ≡ q.dropped_total)
unfolding enqueue make_room
enqueue_all-room [] q h = (sym (append-nil q.buffer), refl)
enqueue_all-room (a ∷ recs) q h = ground (
  arith,
  enqueue_all-room recs (enqueue a q),
  length-append q.buffer (a ∷ []),
  append_assoc q.buffer (a ∷ []) recs,
)

module _ {W S : Type 0} where
  -- What billing changes: the queue and the metrics.
  abbrev pub Billed : List (AttemptRecord W) → App W S → App W S → Type 0
  Billed attempts app app' =
      (app'.accounting ≡ enqueue_all attempts app.accounting)
      × (app'.db ≡ app.db)
      × (app'.auth ≡ app.auth)

  bill-Billed :
      (caller tier : String) (attempts : List (AttemptRecord W)) (app : App W S)
      → Billed attempts app (bill caller tier attempts app)
  unfolding bill
  bill-Billed caller tier [] app = (refl, refl, refl)
  bill-Billed caller tier (a ∷ attempts) app = bill-Billed caller tier attempts _

  pub answer-Billed :
      (caller : Caller) (tier : String) (elapsed : W) (o : Outcome W) (app : App W S)
      → ((answer caller tier elapsed o app).0 ≡ reply_of o)
        × Billed (attempts_of o) app ((answer caller tier elapsed o app).1)
  unfolding answer
  answer-Billed caller tier elapsed (error e) app = (refl, (refl, refl, refl))
  answer-Billed caller tier elapsed crash app = (refl, (refl, refl, refl))
  answer-Billed caller tier elapsed (result response attempts) app =
      (refl, bill-Billed caller.name tier attempts _)
