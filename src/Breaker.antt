-- ===== src/Breaker.antt =====
-- gateway/breaker.py: the circuit breaker of each (provider, model). `samples` is what Redis holds
-- of the per-second counters, with absent fields read as 0; their time to live is four windows, so
-- none that a refresh reads has expired. Candidates are the pairs (provider, model), and no two of
-- them are taken to join to one key.
pub mod Machine
pub mod Refresh
pub mod Keys
pub mod Scan
pub mod Timing
mod Tests
use librouter.Prelude.{
  ℕ, zero, suc, ◌+◌, ◌≡◌, Bool, true, false, ◌&&◌, Option, none, some, List, [], ◌∷◌, ltb, leb,
  if◌then◌else◌, nat_eq, ◌==◌, Eq,
}
use librouter.Prelude.Dict.{Dict, get, put, setdefault}
use librouter.Prelude.Int.{ℤ, range, int_eq}
use librouter.Prelude.Float.{Float, ◌⊖◌, ◌⊘◌, of_nat, nought}
use librouter.Models.{CandidateRef, candidate_eq}

pub data BreakerState : Type 0 where
  closed half_open opened : BreakerState

pub record SnapshotEntry (W : Type 0) : Type 0 where
  pub state : BreakerState
  pub opened_at_s : W
  pub samples : ℕ
  pub failures : ℕ
  pub half_opened_at_s : W

-- The arguments of the constructor.
pub record Settings (W : Type 0) : Type 0 where
  pub window_s : W
  pub min_samples : ℕ
  pub open_duration_s : W
  pub failure_threshold : W

-- The fields `successes` and `failures` of one sample key.
pub record Counts : Type 0 where
  pub successes : ℕ
  pub failures : ℕ

abbrev pub Samples : Type 0
Samples = CandidateRef → ℤ → Counts

abbrev pub Snapshot : Type 0 → Type 0
Snapshot W = Dict CandidateRef (SnapshotEntry W)

unfoldable pub total_over : Samples → CandidateRef → List ℤ → Counts
total_over samples cand [] = record { successes = 0; failures = 0 }
total_over samples cand (sec ∷ secs) =
    let rest = total_over samples cand secs in
    let here = samples cand sec in
    record { successes = here.successes + rest.successes; failures = here.failures + rest.failures }

module _ {W : Type 0} ⦃d : Float W⦄ where
  -- `_increment` for `record_success` and `record_failure`.
  unfoldable pub increment : Bool → W → CandidateRef → Samples → Samples
  increment success now cand samples c sec =
      let old = samples c sec in
      if c == cand && sec == d.trunc now
      then (if success
          then record old { successes = old.successes + 1 }
          else record old { failures = old.failures + 1 })
      else old

  unfoldable pub record_success : W → CandidateRef → Samples → Samples
  unfolding increment
  record_success = increment true

  unfoldable pub record_failure : W → CandidateRef → Samples → Samples
  unfolding increment
  record_failure = increment false

  abbrev pub fresh_entry : SnapshotEntry W
  fresh_entry = record {
    state = BreakerState.closed;
    opened_at_s = nought;
    samples = 0;
    failures = 0;
    half_opened_at_s = nought;
  }

  -- `_seed_snapshot_from_keys`: `scanned` are the candidates that the sample keys in Redis name.
  unfoldable pub seed_snapshot : List CandidateRef → Snapshot W → Snapshot W
  seed_snapshot [] snapshot = snapshot
  seed_snapshot (cand ∷ cands) snapshot = seed_snapshot cands (setdefault cand fresh_entry snapshot)

  module _ (settings : Settings W) where
    -- The test that trips a closed breaker; `none` is the ZeroDivisionError.
    unfoldable pub should_trip : ℕ → ℕ → Option Bool
    should_trip total failures =
        if leb settings.min_samples total
        then (if total == 0
            then none
            else some (d.le settings.failure_threshold (of_nat failures ⊘ of_nat total)))
        else some false

    abbrev entry_of : BreakerState → W → W → ℕ → ℕ → SnapshotEntry W
    entry_of state opened_at half_opened_at total failures = record {
      state = state;
      opened_at_s = opened_at;
      samples = total;
      failures = failures;
      half_opened_at_s = half_opened_at;
    }

    -- `_compute_next_state`, by `cur_state`; the pair is `(ho_succ, ho_fail)`.
    unfoldable pub next_from :
        BreakerState → SnapshotEntry W → ℕ → ℕ → W → Option (ℕ × ℕ) → Option (SnapshotEntry W)
    unfolding should_trip
    next_from BreakerState.opened prev total failures now post_half_open =
        some (entry_of BreakerState.opened prev.opened_at_s prev.half_opened_at_s total failures)
    next_from BreakerState.half_open prev total failures now post_half_open =
        let hold =
          entry_of BreakerState.half_open prev.opened_at_s prev.half_opened_at_s total failures in
        elim post_half_open [
          | none ↦ some hold
          | some (ho_succ, ho_fail) ↦ some (
              if ltb 0 ho_fail
              then entry_of BreakerState.opened now nought total failures
              else if ltb 0 ho_succ
              then entry_of BreakerState.closed nought nought total failures
              else hold)
        ]
    next_from BreakerState.closed prev total failures now post_half_open =
        elim (should_trip total failures) [
          | none ↦ none
          | some true ↦ some (entry_of BreakerState.opened now nought total failures)
          | some false ↦ some (entry_of BreakerState.closed nought nought total failures)
        ]

    unfoldable pub compute_next_state :
        SnapshotEntry W → ℕ → ℕ → W → Option (ℕ × ℕ) → Option (SnapshotEntry W)
    unfolding next_from
    compute_next_state prev = next_from prev.state prev

    -- The samples of a half-open breaker since its transition, the second of it included.
    unfoldable pub since_half_open : Samples → CandidateRef → SnapshotEntry W → W → Option (ℕ × ℕ)
    unfolding total_over range
    since_half_open samples cand entry now = elim (entry.state) [
      | BreakerState.half_open ↦
          let ho = total_over samples cand (range (d.trunc entry.half_opened_at_s) (d.trunc now)) in
          some (ho.successes, ho.failures)
      | _ ↦ none
    ]

    -- The body of the loop of `refresh_snapshot` for one candidate.
    unfoldable pub next_entry :
        Samples → W → CandidateRef → SnapshotEntry W → Option (SnapshotEntry W)
    unfolding compute_next_state since_half_open total_over range
    next_entry samples now cand entry =
        let secs = range (d.trunc (now ⊖ settings.window_s)) (d.trunc now) in
        let all = total_over samples cand secs in
        compute_next_state entry (all.successes + all.failures) all.failures now
          (since_half_open samples cand entry now)

    -- `_transition_after_window_into` for one entry, by its state.
    unfoldable pub transition_from : BreakerState → W → SnapshotEntry W → SnapshotEntry W
    transition_from BreakerState.opened now entry =
        if d.le settings.open_duration_s (now ⊖ entry.opened_at_s)
        then record entry { state = BreakerState.half_open; half_opened_at_s = now }
        else entry
    transition_from _ now entry = entry

    unfoldable pub after_window : W → SnapshotEntry W → SnapshotEntry W
    unfolding transition_from
    after_window now entry = transition_from entry.state now entry

    -- The reads of a candidate's samples, which Redis answers or not.
    unfoldable pub read_entry :
        (CandidateRef → Bool)
        → Samples
        → W
        → CandidateRef
        → SnapshotEntry W
        → Option (SnapshotEntry W)
    unfolding next_entry
    read_entry reads samples now cand entry =
        if reads cand then next_entry samples now cand entry else none

    -- `refresh_snapshot` after the seeding: the new dictionary is built aside, and `none` is an
    -- exception. Each candidate of the snapshot has sample keys in the window.
    unfoldable pub refresh_entries :
        (CandidateRef → Bool) → Samples → W → Snapshot W → Option (Snapshot W)
    unfolding read_entry after_window
    refresh_entries reads samples now [] = some []
    refresh_entries reads samples now ((cand, entry) ∷ l) =
        elim (read_entry reads samples now cand entry) [
          | none ↦ none
          | some e ↦ elim (refresh_entries reads samples now l) [
            | none ↦ none
            | some rest ↦ some ((cand, after_window now e) ∷ rest)
          ]
        ]

    -- Whether the refresh returned, and the snapshot that it leaves. A scan that Redis breaks off
    -- has seeded the candidates of the keys before that; a read that fails leaves the seeded one.
    unfoldable pub refresh_snapshot :
        List CandidateRef
        → Bool
        → (CandidateRef → Bool)
        → Samples
        → W
        → Snapshot W
        → Bool × Snapshot W
    unfolding seed_snapshot refresh_entries
    refresh_snapshot scanned scan_ok reads samples now snapshot =
        let seeded = seed_snapshot scanned snapshot in
        if scan_ok
        then elim (refresh_entries reads samples now seeded) [
          | none ↦ (false, seeded)
          | some new ↦ (true, new)
        ]
        else (false, seeded)

  -- `state`, of the snapshot that the seeding leaves.
  unfoldable pub state_of : Snapshot W → CandidateRef → BreakerState
  state_of snapshot cand = elim (get snapshot cand) [
    | none ↦ BreakerState.closed
    | some entry ↦ entry.state
  ]
