-- ===== src/Accounting/Stop.antt =====
-- The end of the accounting queue: `stop` (gateway/accounting.py).
use librouter.Prelude.{
  ℕ, ◌+◌, ◌≤◌, ◌≡◌, refl, ◌∙◌, Bool, true, false, List, [], ◌∷◌, append-nil, arith, length,
  Sublistᴰ, ap,
}
use librouter.Accounting.{
  AccountingQueue, Event, empty_queue, take_batch, flush_start, flush_end, flush, events, stop,
}
use librouter.Accounting.Counts.{
  sent, IsSound, wakeup-IsSound, take_batch-IsSound, flush_end-IsSound, events-IsSound,
}

module _ {A : Type 0} where
  pub flush_end-idle : (ok : Bool) (q : AccountingQueue A) → (flush_end ok q).in_flight ≡ []
  unfolding flush_end
  flush_end-idle true q = refl
  flush_end-idle false q = refl

  pub flush_end-same : (ok : Bool) (q : AccountingQueue A) → (flush_end ok q).buffer ≡ q.buffer
  unfolding flush_end
  flush_end-same true q = refl
  flush_end-same false q = refl

  pub take_batch-empties :
      (b : List A) (q : AccountingQueue A) → q.buffer ≡ b → (take_batch b q).buffer ≡ []
  take_batch-empties [] q e = e
  take_batch-empties (_ ∷ _) q e = refl

  module _ (cap : ℕ) (cap_pos : 1 ≤ cap) (past : List A) where
    -- What a flush leaves.
    record IsFlushed (q : AccountingQueue A) : Type 0 where
      sound : IsSound cap past q
      idle : q.in_flight ≡ []
      empty : q.buffer ≡ []

    flush-IsFlushed :
        (ok : Bool) (q : AccountingQueue A)
        → IsSound cap past q
        → q.in_flight ≡ []
        → IsFlushed (flush ok q)
    unfolding flush flush_start
    flush-IsFlushed ok q h idle = record {
      sound =
          flush_end-IsSound cap cap_pos ok past _
            (take_batch-IsSound cap cap_pos past q.buffer q refl idle h);
      idle = flush_end-idle ok _;
      empty = flush_end-same ok _ ∙ take_batch-empties q.buffer q refl;
    }

    stop-IsFlushed :
        (ok1 ok2 ok3 : Bool) (q : AccountingQueue A)
        → IsSound cap past q
        → IsFlushed (stop ok1 ok2 ok3 q)
    unfolding stop
    stop-IsFlushed ok1 ok2 ok3 q h =
        let first = flush_end-IsSound cap cap_pos ok1 past _ (wakeup-IsSound cap past q true h) in
        let second = flush-IsFlushed ok2 _ first (flush_end-idle ok1 _) in
        flush-IsFlushed ok3 _ second.sound second.idle

  pub stop-settles :
      (cap flush_size : ℕ) (es : List (Event A)) (ok1 ok2 ok3 : Bool)
      → 1 ≤ cap
      → let q = stop ok1 ok2 ok3 (events es (empty_queue cap flush_size)) in
        (q.buffer ≡ [])
        × (q.in_flight ≡ [])
        × (length (sent es) ≡ length q.written + q.dropped_total)
        × Sublistᴰ q.written (sent es)
  stop-settles cap flush_size es ok1 ok2 ok3 cap_pos =
      let h =
        stop-IsFlushed cap cap_pos (sent es) ok1 ok2 ok3 (events es (empty_queue cap flush_size))
          (events-IsSound cap cap_pos flush_size es) in
      let none_out = ap length h.idle in
      let none_left = ap length h.empty in
      (
        h.empty,
        h.idle,
        omega (arith, h.sound.counted),
        rw (h.idle, h.empty, append-nil) at h.sound.order,
      )
