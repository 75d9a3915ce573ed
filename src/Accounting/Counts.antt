-- ===== src/Accounting/Counts.antt =====
-- What becomes of the records that are queued (gateway/accounting.py).
use librouter.Prelude.{
  ℕ, suc, ◌+◌, ◌≤◌, ◌≡◌, refl, ap, Bool, true, false, List, [], ◌∷◌, ◌++◌, append-nil, arith,
  length, length-append, leb, Bool-cases, inl, inr, append_assoc, Sublistᴰ,
}
use librouter.Prelude.Order.{append-Sublistᴰ, Sublistᴰ-append, drop-Sublistᴰ}
use mathlib.Core.List.Sublistᴰ
use librouter.Accounting.{
  AccountingQueue, Event, queued, woken, answered, empty_queue, popleft, take_batch, make_room,
  enqueue, flush_start, flush_end, drain_at, drain_round, event, events,
}

module _ {A : Type 0} where
  -- The records that a sequence of events queues.
  abbrev pub sent : List (Event A) → List A
  sent [] = []
  sent (queued rec ∷ es) = rec ∷ sent es
  sent (_ ∷ es) = sent es

  -- What is still on its way, after what was written.
  abbrev pub kept : AccountingQueue A → List A
  kept q = q.written ++ (q.in_flight ++ q.buffer)

  module _ (cap : ℕ) where
    -- The state after `past` was queued.
    pub record IsSound (past : List A) (q : AccountingQueue A) : Type 0 where
      pub counted :
          length past ≡ length q.written + length q.in_flight + length q.buffer + q.dropped_total
      pub order : Sublistᴰ (kept q) past
      pub same_cap : q.capacity ≡ cap
      pub bounded : length q.buffer ≤ cap
      pub measured : q.metric ≤ q.dropped_total

  pub empty_queue-IsSound : (cap flush_size : ℕ) → IsSound cap [] (empty_queue cap flush_size)
  empty_queue-IsSound cap flush_size = record {
    counted = refl;
    order = Sublistᴰ.nil-sublist [];
    same_cap = refl;
    bounded = omega arith;
    measured = omega arith;
  }

  -- The event of the drain task does not count.
  pub wakeup-IsSound :
      (cap : ℕ) (past : List A) (q : AccountingQueue A) (wakeup : Bool)
      → IsSound cap past q
      → IsSound cap past (record q { wakeup = wakeup })
  wakeup-IsSound cap past q wakeup h = record {
    counted = h.counted;
    order = h.order;
    same_cap = h.same_cap;
    bounded = h.bounded;
    measured = h.measured;
  }

  -- Two lists behind a third: the one in the middle may lose its first element.
  drop_oldest :
      (w f : List A) (x : A) (rest past : List A)
      → Sublistᴰ (w ++ (f ++ (x ∷ rest))) past
      → Sublistᴰ (w ++ (f ++ rest)) past
  drop_oldest w f x rest past s =
      Sublistᴰ.trans (append-Sublistᴰ w (drop-Sublistᴰ f (x ∷ []) rest)) s

  kept-snoc :
      (w f b past : List A) (rec : A)
      → Sublistᴰ (w ++ (f ++ b)) past
      → Sublistᴰ (w ++ (f ++ (b ++ (rec ∷ [])))) (past ++ (rec ∷ []))
  kept-snoc w f b past rec s =
      rw (← append_assoc f b (rec ∷ []), ← append_assoc w (f ++ b) (rec ∷ []))
        (Sublistᴰ-append (rec ∷ []) s)

  module _ (cap : ℕ) (cap_pos : 1 ≤ cap) where
    popleft-IsSound :
        (past b : List A) (q : AccountingQueue A)
        → q.buffer ≡ b
        → IsSound cap past q
        → IsSound cap past (popleft b q) × (suc (length (popleft b q).buffer) ≤ cap)
    popleft-IsSound past [] q eq h = (h, rw eq cap_pos)
    popleft-IsSound past (oldest ∷ rest) q eq h =
        let same : length q.buffer ≡ suc (length rest) = ap length eq in
        let room : suc (length rest) ≤ cap = omega (arith, h.bounded) in
        (
          record {
            counted = omega (arith, h.counted);
            order = drop_oldest q.written q.in_flight oldest rest past (rw eq at h.order);
            same_cap = h.same_cap;
            bounded = omega arith;
            measured = omega (arith, h.measured);
          },
          room,
        )

    -- After `make_room` there is room for one record.
    make_room-IsSound :
        (past : List A) (q : AccountingQueue A)
        → IsSound cap past q
        → IsSound cap past (make_room q) × (suc (length (make_room q).buffer) ≤ cap)
    unfolding make_room
    make_room-IsSound past q h = elim (Bool-cases (leb q.capacity (length q.buffer))) [
      | inr e ↦ rw (e, make_room) (h, ground (arith, h.same_cap))
      | inl e ↦ rw (e, make_room) (popleft-IsSound past q.buffer q refl h)
    ]

    pub enqueue-IsSound :
        (past : List A) (q : AccountingQueue A) (rec : A)
        → IsSound cap past q
        → IsSound cap (past ++ (rec ∷ [])) (enqueue rec q)
    unfolding enqueue
    enqueue-IsSound past q rec h0 =
        let (h, room) = make_room-IsSound past q h0 in
        let q' = make_room q in
        record {
          counted =
              omega (
                arith,
                h.counted,
                length-append past (rec ∷ []),
                length-append q'.buffer (rec ∷ []),
              );
          order = kept-snoc q'.written q'.in_flight q'.buffer past rec h.order;
          same_cap = h.same_cap;
          bounded = omega (arith, room, length-append q'.buffer (rec ∷ []));
          measured = h.measured;
        }

    pub take_batch-IsSound :
        (past b : List A) (q : AccountingQueue A)
        → q.buffer ≡ b
        → q.in_flight ≡ []
        → IsSound cap past q
        → IsSound cap past (take_batch b q)
    take_batch-IsSound past [] q eq idle h = h
    take_batch-IsSound past (x ∷ b) q eq idle h =
        let same : length q.buffer ≡ suc (length b) = ap length eq in
        let none_out : length q.in_flight ≡ 0 = ap length idle in
        record {
          counted = omega (arith, h.counted);
          order = rw (append-nil) (rw (eq, idle) at h.order);
          same_cap = h.same_cap;
          bounded = omega arith;
          measured = h.measured;
        }

    pub flush_end-IsSound :
        (ok : Bool) (past : List A) (q : AccountingQueue A)
        → IsSound cap past q
        → IsSound cap past (flush_end ok q)
    unfolding flush_end
    flush_end-IsSound true past q h = record {
      counted = omega (arith, h.counted, length-append q.written q.in_flight);
      order = rw (append_assoc) h.order;
      same_cap = h.same_cap;
      bounded = h.bounded;
      measured = h.measured;
    }
    flush_end-IsSound false past q h = record {
      counted = omega (arith, h.counted);
      order =
          Sublistᴰ.trans (append-Sublistᴰ q.written (drop-Sublistᴰ [] q.in_flight q.buffer))
            h.order;
      same_cap = h.same_cap;
      bounded = h.bounded;
      measured = omega (arith, h.measured);
    }

    drain_from :
        (past f : List A) (q : AccountingQueue A)
        → q.in_flight ≡ f
        → IsSound cap past q
        → IsSound cap past (drain_at f q)
    unfolding flush_start
    drain_from past [] q idle h =
        take_batch-IsSound past q.buffer (record q { wakeup = false }) refl idle
          (wakeup-IsSound cap past q false h)
    drain_from past (_ ∷ _) q busy h = h

    event-IsSound :
        (e : Event A) (past : List A) (q : AccountingQueue A)
        → IsSound cap past q
        → IsSound cap (past ++ sent (e ∷ [])) (event e q)
    unfolding event drain_round
    event-IsSound (queued rec) past q h = enqueue-IsSound past q rec h
    event-IsSound woken past q h = rw (append-nil) (drain_from past q.in_flight q refl h)
    event-IsSound (answered ok) past q h = rw (append-nil) (flush_end-IsSound ok past q h)

    sent-cons : (e : Event A) (es : List (Event A)) → sent (e ∷ es) ≡ sent (e ∷ []) ++ sent es
    sent-cons (queued rec) es = refl
    sent-cons woken es = refl
    sent-cons (answered ok) es = refl

    events-from :
        (es : List (Event A)) (past : List A) (q : AccountingQueue A)
        → IsSound cap past q
        → IsSound cap (past ++ sent es) (events es q)
    unfolding events
    events-from [] past q h = rw (append-nil) h
    events-from (e ∷ es) past q h =
        rw (sent-cons e es, ← append_assoc past (sent (e ∷ [])) (sent es))
          (events-from es (past ++ sent (e ∷ [])) (event e q) (event-IsSound e past q h))

    -- For a positive capacity, whatever was queued, however the drain task and the writer took
    -- turns and whichever writes failed: each record queued is written, on its way, or counted as
    -- dropped; what is written and on its way is a sublist of what was queued, in its order; the
    -- buffer is never above the capacity; and the metric is never above the count of the dropped.
    pub events-IsSound :
        (flush_size : ℕ) (es : List (Event A))
        → IsSound cap (sent es) (events es (empty_queue cap flush_size))
    events-IsSound flush_size es =
        events-from es [] (empty_queue cap flush_size) (empty_queue-IsSound cap flush_size)
