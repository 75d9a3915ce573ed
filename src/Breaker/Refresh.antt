-- ===== src/Breaker/Refresh.antt =====
-- One refresh of the whole snapshot (gateway/breaker.py).
use librouter.Prelude.{
  ◌+◌, ◌<◌, ◌≡◌, refl, Bool, true, false, ◌&&◌, Bool-cases, Option-cases, Option, none, some, List,
  [], ◌∷◌, ◌⊎◌, inl, inr, arith,
}
use librouter.Prelude.Int.{range}
use librouter.Prelude.Float.{Float, ◌⊖◌}
use librouter.Models.{CandidateRef, candidate_eq}
use librouter.Breaker.{
  BreakerState, SnapshotEntry, Samples, Snapshot, Settings, Counts, total_over, seed_snapshot,
  since_half_open, after_window, next_entry, read_entry, refresh_entries, refresh_snapshot,
}
use librouter.Breaker.Machine.{
  IsOver, Decides, Decided, stays_closed, trips, stays_open, probe_failed, probe_passed, waits,
  compute_next_state-Decided,
}
use librouter.Breaker.Timing.{Elapses, reopens, stays, after_window-Elapses}

module _ {W : Type 0} ⦃d : Float W⦄ (settings : Settings W) (samples : Samples) (now : W)
    (reads : CandidateRef → Bool) where
  -- The samples of a candidate in the seconds of the window.
  abbrev pub window_counts : CandidateRef → Counts
  window_counts cand =
      total_over samples cand (range (d.trunc (now ⊖ settings.window_s)) (d.trunc now))

  -- One entry: the samples decide, then the time.
  pub record Refreshes (cand : CandidateRef) (e e' : SnapshotEntry W) : Type 0 where
    pub mid : SnapshotEntry W
    pub decided :
        Decides settings now e
          ((window_counts cand).successes + (window_counts cand).failures)
          (window_counts cand).failures
          (since_half_open settings samples cand e now)
          mid
    pub elapsed : Elapses settings now mid e'

  -- The same candidates in the same order, each entry refreshed.
  abbrev pub Steps : Snapshot W → Snapshot W → Type 0
  Steps [] [] = Unit
  Steps ((c, e) ∷ l) ((c', e') ∷ l') = (c' ≡ c) × Refreshes c e e' × Steps l l'
  Steps _ _ = ⊥

  abbrev pub all_read : Snapshot W → Bool
  all_read [] = true
  all_read ((cand, e) ∷ l) = reads cand && all_read l

  -- How a refresh ends.
  abbrev pub Refreshed : List CandidateRef → Bool → Snapshot W → Bool × Snapshot W → Type 0
  Refreshed scanned scan_ok snapshot (true, new) =
      ((scan_ok && all_read (seed_snapshot scanned snapshot)) ≡ true)
      × Steps (seed_snapshot scanned snapshot) new
  Refreshed scanned scan_ok snapshot (false, new) =
      ((scan_ok && all_read (seed_snapshot scanned snapshot)) ≡ false)
      × (new ≡ seed_snapshot scanned snapshot)

  next_entry-Decided :
      (cand : CandidateRef) (e : SnapshotEntry W)
      → 0 < settings.min_samples
      → Decided settings now e
          ((window_counts cand).successes + (window_counts cand).failures)
          (window_counts cand).failures
          (since_half_open settings samples cand e now)
          (next_entry settings samples now cand e)
  unfolding next_entry
  next_entry-Decided cand e pos_min =
      compute_next_state-Decided settings now e
        ((window_counts cand).successes + (window_counts cand).failures)
        (window_counts cand).failures (since_half_open settings samples cand e now) pos_min

  refresh_entries-Steps :
      (snapshot : Snapshot W)
      → 0 < settings.min_samples
      → all_read snapshot ≡ true
      → (new : Snapshot W) × (refresh_entries settings reads samples now snapshot ≡ some new)
        × Steps snapshot new
  unfolding refresh_entries read_entry
  refresh_entries-Steps [] pos_min up = ([], refl, tt)
  refresh_entries-Steps ((cand, e) ∷ l) pos_min up =
      let (rest, rest_eq, steps) = refresh_entries-Steps l pos_min (ground (arith, up)) in
      go rest rest_eq steps (next_entry settings samples now cand e) refl
        (next_entry-Decided cand e pos_min)
    where
      read : reads cand ≡ true
      read = ground (arith, up)

      go :
          (rest : Snapshot W)
          → refresh_entries settings reads samples now l ≡ some rest
          → Steps l rest
          → (r : Option (SnapshotEntry W)) → next_entry settings samples now cand e ≡ r
          → Decided settings now e
              ((window_counts cand).successes + (window_counts cand).failures)
              (window_counts cand).failures
              (since_half_open settings samples cand e now)
              r
          → (new : Snapshot W) × (refresh_entries settings reads samples now ((cand, e) ∷ l)
              ≡ some new)
            × Steps ((cand, e) ∷ l) new
      go rest rest_eq steps none eq h = absurd h
      go rest rest_eq steps (some mid) eq h = (
        (cand, after_window settings now mid) ∷ rest,
        rw (read, eq, rest_eq, refresh_entries, read_entry),
        (
          refl,
          record { mid = mid; decided = h; elapsed = after_window-Elapses settings now mid },
          steps,
        ),
      )

  refresh_entries-unread :
      (snapshot : Snapshot W)
      → all_read snapshot ≡ false
      → refresh_entries settings reads samples now snapshot ≡ none
  unfolding refresh_entries read_entry
  refresh_entries-unread [] down = absurd (ground (arith, down))
  refresh_entries-unread ((cand, e) ∷ l) down = elim (Bool-cases (reads cand)) [
    | inr unread ↦ rw (unread, refresh_entries, read_entry) refl
    | inl read ↦
        let rest = refresh_entries-unread l (ground (arith, down)) in
        elim (Option-cases (next_entry settings samples now cand e)) [
          | inl failed ↦ rw (read, failed, refresh_entries, read_entry) refl
          | inr (mid, decided) ↦ rw (read, decided, rest, refresh_entries, read_entry) refl
        ]
  ]

  -- With a positive sample minimum a refresh returns exactly if Redis answers the scan and the
  -- reads of every candidate: then it keeps the seeded candidates in their order, and each breaker
  -- moves as its samples and then the clock decide. Else it raises, and the snapshot is the old one
  -- with the scanned candidates seeded: no breaker has moved.
  pub refresh_snapshot-Steps :
      (scanned : List CandidateRef) (scan_ok : Bool) (snapshot : Snapshot W)
      → 0 < settings.min_samples
      → Refreshed scanned scan_ok snapshot
          (refresh_snapshot settings scanned scan_ok reads samples now snapshot)
  unfolding refresh_snapshot
  refresh_snapshot-Steps scanned false snapshot pos_min = (refl, refl)
  refresh_snapshot-Steps scanned true snapshot pos_min =
      elim (Bool-cases (all_read (seed_snapshot scanned snapshot))) [
        | inl up ↦
            let (new, refreshed, steps) =
              refresh_entries-Steps (seed_snapshot scanned snapshot) pos_min up in
            rw (refreshed, refresh_snapshot) (up, steps)
        | inr down ↦
            rw (refresh_entries-unread (seed_snapshot scanned snapshot) down, refresh_snapshot)
              (down, refl)
      ]

  pub opened_refresh :
      (cand : CandidateRef) (e e' : SnapshotEntry W)
      → Refreshes cand e e'
      → e.state ≡ BreakerState.opened
      → ((e'.state ≡ BreakerState.opened)
          × (e'.opened_at_s ≡ e.opened_at_s)
          × (d.le settings.open_duration_s (now ⊖ e.opened_at_s) ≡ false))
        ⊎ ((e'.state ≡ BreakerState.half_open)
            × (e'.half_opened_at_s ≡ now)
            × IsOver settings now e)
  opened_refresh cand e e' r st = go r.decided r.elapsed
    where
      go :
          Decides settings now e
            ((window_counts cand).successes + (window_counts cand).failures)
            (window_counts cand).failures
            (since_half_open settings samples cand e now)
            r.mid
          → Elapses settings now r.mid e'
          → ((e'.state ≡ BreakerState.opened)
              × (e'.opened_at_s ≡ e.opened_at_s)
              × (d.le settings.open_duration_s (now ⊖ e.opened_at_s) ≡ false))
            ⊎ ((e'.state ≡ BreakerState.half_open)
                × (e'.half_opened_at_s ≡ now)
                × IsOver settings now e)
      go (stays_closed h few c) el = absurd (ground arith)
      go (trips h many bad c at_) el = absurd (ground arith)
      go (probe_failed succ fail h p f c at_) el = absurd (ground arith)
      go (probe_passed succ h p f c) el = absurd (ground arith)
      go (waits h p c at_) el = absurd (ground arith)
      go (stays_open h c at_) (reopens o over eq) =
          inr (ground arith, ground arith, rw (← at_) over)
      go (stays_open h c at_) (stays (inl ne) eq) = absurd (ne c)
      go (stays_open h c at_) (stays (inr early) eq) =
          inl (ground arith, ground arith, rw (← at_) early)
