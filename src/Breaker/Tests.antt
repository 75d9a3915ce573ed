-- ===== src/Breaker/Tests.antt =====
-- Instances of the theorems on gateway/breaker.py, at floats of whole thousandths.
use librouter.Prelude.{Bool, true, ◌≡◌, refl, false, none, [], ◌∷◌, arith, ◌⊎◌, List, map, All}
use librouter.Prelude.Dict.{get, setdefault}
use librouter.Prelude.Int.{ℤ, range}
use librouter.Prelude.Float.{Milli, milli_float, ◌⊖◌}
use librouter.Models.{CandidateRef, candidate_eq}
use librouter.Breaker.{
  BreakerState, SnapshotEntry, Settings, Samples, Snapshot, total_over, increment, record_success,
  record_failure, fresh_entry, seed_snapshot, should_trip, next_from, compute_next_state,
  since_half_open, next_entry, read_entry, transition_from, after_window, refresh_entries,
  refresh_snapshot, state_of,
}
use librouter.Breaker.Machine.{IsOver, Decided, stays_open, compute_next_state-Decided}
use librouter.Breaker.Timing.{reopens}
use librouter.Breaker.Refresh.{Refreshes, Refreshed, refresh_snapshot-Steps, opened_refresh}
use librouter.Auth.{drop_prefix}
use librouter.Breaker.Keys.{
  cut, parse_key, sample_key, scan_candidates, split_two, seed_snapshot_from_keys,
}
use librouter.Breaker.Scan.{IsReadable, key_of, seeded_entry, seed_snapshot_from_keys-sample_key}

program : Unit {0}
unfolding get setdefault range total_over increment record_success record_failure seed_snapshot
    should_trip next_from compute_next_state since_half_open next_entry transition_from after_window
    read_entry refresh_entries refresh_snapshot state_of drop_prefix cut split_two parse_key
    sample_key scan_candidates
program = tt

abbrev settings : Settings Milli
settings = record {
  window_s = 30000;
  min_samples = 2;
  open_duration_s = 30000;
  failure_threshold = 300;
}

abbrev gpt : CandidateRef
gpt = record { provider = "openai"; model = "gpt" }

abbrev no_samples : Samples
no_samples = λ cand sec. record { successes = 0; failures = 0 }

-- Two failures at 98 s and a success at 99 s.
abbrev seen : Samples
seen =
    record_success {W = Milli} 99000 gpt
      (record_failure {W = Milli} 98500 gpt (record_failure {W = Milli} 98000 gpt no_samples))

-- The breaker after a first refresh at 100 s, and after a second at 130 s.
after_first : Bool × Snapshot Milli
unfolding program
after_first = refresh_snapshot settings (gpt ∷ []) true (λ cand. true) seen 100000 []

-- Closed trips at two failures of three.
abbrev tripped : SnapshotEntry Milli
tripped = record {
  state = BreakerState.opened;
  opened_at_s = 100000;
  samples = 3;
  failures = 2;
  half_opened_at_s = 0;
}

after_first_runs : after_first ≡ (true, (gpt, tripped) ∷ [])
unfolding program after_first
after_first_runs = refl

state_of_runs : state_of ((gpt, tripped) ∷ []) gpt ≡ BreakerState.opened
unfolding program
state_of_runs = refl

compute_next_state-Decided_example :
    Decided settings 100000 fresh_entry 3 2 none
      (compute_next_state settings fresh_entry 3 2 100000 none)
compute_next_state-Decided_example =
    compute_next_state-Decided settings 100000 fresh_entry 3 2 none (omega arith)

abbrev answers : CandidateRef → Bool
answers cand = true

refresh_snapshot-Steps_example :
    Refreshed settings seen 130000 answers
      (gpt ∷ [])
      true
      ((gpt, tripped) ∷ [])
      (refresh_snapshot settings (gpt ∷ []) true answers seen 130000 ((gpt, tripped) ∷ []))
refresh_snapshot-Steps_example =
    refresh_snapshot-Steps settings seen 130000 answers (gpt ∷ []) true ((gpt, tripped) ∷ [])
      (omega arith)

-- The open period of `tripped` is over at 130 s.
abbrev reopened : SnapshotEntry Milli
reopened = record tripped {
  state = BreakerState.half_open;
  samples = 0;
  failures = 0;
  half_opened_at_s = 130000;
}

tripped-Refreshes : Refreshes settings no_samples 130000 answers gpt tripped reopened
unfolding program
tripped-Refreshes = record {
  mid = record tripped { samples = 0; failures = 0 };
  decided = stays_open refl refl refl;
  elapsed = reopens refl refl refl;
}

opened_refresh_example :
    ((reopened.state ≡ BreakerState.opened)
      × (reopened.opened_at_s ≡ tripped.opened_at_s)
      × (milli_float.le settings.open_duration_s (◌⊖◌ {W = Milli} 130000 tripped.opened_at_s)
          ≡ false))
    ⊎ ((reopened.state ≡ BreakerState.half_open)
        × (reopened.half_opened_at_s ≡ 130000)
        × IsOver settings 130000 tripped)
opened_refresh_example =
    opened_refresh settings no_samples 130000 answers gpt tripped reopened tripped-Refreshes refl

-- A model with a colon keeps it, and a state key is passed over.
parsed :
    scan_candidates
      (sample_key (λ n. "12") "openai" "ft:gpt" (ℤ.pos 12) ∷ ("gw:brk:openai:gpt:probe" ∷ []))
    ≡ record { provider = "openai"; model = "ft:gpt" } ∷ []
unfolding program
parsed = refl

abbrev recorded : List (CandidateRef × ℤ)
recorded =
    (gpt, ℤ.pos 12)
    ∷ ((record { provider = "openai"; model = "ft:gpt" }, ℤ.pos 12) ∷ ((gpt, ℤ.pos 13) ∷ []))

recorded-IsReadable : All (IsReadable (λ n. "12")) recorded
unfolding program
recorded-IsReadable = ((refl, refl, refl), ((refl, refl, refl), ((refl, refl, refl), tt)))

seed_snapshot_from_keys-sample_key_example :
    get (seed_snapshot_from_keys (map (key_of (λ n. "12")) recorded) ((gpt, tripped) ∷ [])) gpt
    ≡ seeded_entry (map (λ r. r.0) recorded) ((gpt, tripped) ∷ []) gpt
seed_snapshot_from_keys-sample_key_example =
    seed_snapshot_from_keys-sample_key (λ n. "12") recorded ((gpt, tripped) ∷ []) gpt
      recorded-IsReadable
