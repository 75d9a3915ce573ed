-- ===== src/Accounting/Turns.antt =====
-- The turns after which the accounting task of gateway/accounting.py has ended, once `stop` is
-- called.
use librouter.Prelude.{◌≡◌, refl, ℕ, suc, ◌≤◌, Bool, true, List, [], ◌∷◌, All, arith}
use librouter.Accounting.Task.{
  TaskPhase, off, created, waiting, flushing, last_flush, ended, final_flush, AccountingTask,
  TaskEvent, start_called, stop_called, recorded, resumed, awaits, begin_flush, answer_batch,
  loop_test, woken_at, wake, turn_at, halt_at, task_event, task_events,
}

-- The turns that are left once the stop is signalled.
abbrev pub rank : TaskPhase → ℕ
rank off = 0
rank final_flush = 1
rank ended = 2
rank last_flush = 3
rank flushing = 4
rank created = 4
rank waiting = 5

rank-off : (p : TaskPhase) → rank p ≤ 0 → p ≡ off
rank-off off le = refl
rank-off created le = absurd (omega arith)
rank-off waiting le = absurd (omega arith)
rank-off flushing le = absurd (omega arith)
rank-off last_flush le = absurd (omega arith)
rank-off ended le = absurd (omega arith)
rank-off final_flush le = absurd (omega arith)

rank_most : (p : TaskPhase) → rank p ≤ 5
rank_most off = omega arith
rank_most created = omega arith
rank_most waiting = omega arith
rank_most flushing = omega arith
rank_most last_flush = omega arith
rank_most ended = omega arith
rank_most final_flush = omega arith

module _ {A : Type 0} where
  abbrev pub turns : List (TaskEvent A) → ℕ
  turns [] = 0
  turns (resumed ok ∷ es) = suc (turns es)
  turns (_ ∷ es) = turns es

  -- What happens while `stop` runs.
  abbrev pub IsMeanwhile : TaskEvent A → Type 0
  IsMeanwhile start_called = ⊥
  IsMeanwhile stop_called = ⊥
  IsMeanwhile (recorded rec) = Unit
  IsMeanwhile (resumed ok) = Unit

  awaits-rank :
      (busy done : TaskPhase) (b : List A) (n : ℕ)
      → rank busy ≤ n
      → rank done ≤ n
      → rank (awaits busy done b) ≤ n
  awaits-rank busy done [] n hb hd = hd
  awaits-rank busy done (_ ∷ _) n hb hd = hb

  loop_test-rank :
      (t : AccountingTask A) (n : ℕ)
      → t.stop_set ≡ true
      → 3 ≤ n
      → (rank (loop_test t).phase ≤ n) × ((loop_test t).stop_set ≡ true)
  unfolding loop_test begin_flush
  loop_test-rank t n h le =
      rw (h, loop_test) (awaits-rank last_flush ended _ n (omega arith) (omega arith), refl)

  woken_at-rank :
      (b : List A) (t : AccountingTask A) (n : ℕ)
      → t.stop_set ≡ true
      → 4 ≤ n
      → (rank (woken_at b t).phase ≤ n) × ((woken_at b t).stop_set ≡ true)
  woken_at-rank [] t n h le = loop_test-rank t n h (omega arith)
  woken_at-rank (_ ∷ _) t n h le = (le, h)

  turn_at-rank :
      (p : TaskPhase) (ok : Bool) (t : AccountingTask A) (n : ℕ)
      → t.phase ≡ p
      → t.stop_set ≡ true
      → rank p ≤ suc n
      → (rank (turn_at p ok t).phase ≤ n) × ((turn_at p ok t).stop_set ≡ true)
  unfolding turn_at wake begin_flush
  turn_at-rank off ok t n e h le = (rw e (omega arith), h)
  turn_at-rank created ok t n e h le = loop_test-rank t n h (omega arith)
  turn_at-rank waiting ok t n e h le = woken_at-rank _ _ n h (omega arith)
  turn_at-rank flushing ok t n e h le = loop_test-rank (answer_batch ok t) n h (omega arith)
  turn_at-rank last_flush ok t n e h le = (omega arith, h)
  turn_at-rank ended ok t n e h le =
      (awaits-rank final_flush off _ n (omega arith) (omega arith), h)
  turn_at-rank final_flush ok t n e h le = (omega arith, h)

  pub turns-off :
      (es : List (TaskEvent A)) (t : AccountingTask A)
      → All IsMeanwhile es
      → t.stop_set ≡ true
      → rank t.phase ≤ turns es
      → (task_events es t).phase ≡ off
  unfolding task_events task_event
  turns-off [] t _ h le = rank-off t.phase le
  turns-off (start_called ∷ es) t (never, _) h le = absurd never
  turns-off (stop_called ∷ es) t (never, _) h le = absurd never
  turns-off (recorded rec ∷ es) t (_, all) h le = turns-off es _ all h le
  turns-off (resumed ok ∷ es) t (_, all) h le =
      let (falls, set) = turn_at-rank t.phase ok t (turns es) refl h le in
      turns-off es (turn_at t.phase ok t) all set falls

  pub halt_at-rank :
      (p : TaskPhase) (t : AccountingTask A)
      → (rank (halt_at p t).phase ≤ 5) × ((halt_at p t).stop_set ≡ true)
  unfolding halt_at begin_flush
  halt_at-rank p t = (rank_most _, set p)
    where
      set : (p : TaskPhase) → (halt_at p t).stop_set ≡ true
      set off = refl
      set created = refl
      set waiting = refl
      set flushing = refl
      set last_flush = refl
      set ended = refl
      set final_flush = refl
