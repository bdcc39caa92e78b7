-- ===== src/Examples/Store.antt =====
-- src/limit_halo/model.py: the store on concrete snapshots.
use limit_halo.Prelude.{
  ℕ, ◌≡◌, ◌≤◌, refl, inl, inr, String, false, none, some, List, [], ◌∷◌, arith, length, map,
}
use limit_halo.Prelude.Int.{pos}
use limit_halo.Prelude.Result.{ok}
use limit_halo.Json.{int}
use limit_halo.Dict.{keys, insert, keys, insert, keys, insert, lookup}
use limit_halo.Model.Metric.{
  Metric, ready, stale, unavailable, refreshing, offline, IsValid, claude_keys,
}
use limit_halo.Model.Store.{
  snapshot_freshness, by_key, snapshot_freshness, by_key, snapshot_freshness, by_key, MetricStore,
  new_store, update_codex, update_claude, snapshot, check_claude, check_codex, mark_provider,
}
use limit_halo.Model.Store.Calls.{Call, update_codex_call, update_claude_call, mark_call, run}
use limit_halo.Model.Store.Freshness.{update_codex_monotone, update_claude_monotone}
use limit_halo.Model.Store.LastGood.{
  update_claude-last_good, mark_provider-measured, measured_codex, measured_claude,
}
use limit_halo.Model.Store.Invariant.{IsConsistent}
use limit_halo.Model.Store.Snapshot.{snapshot_total, IsAscending}
use limit_halo.Model.Store.Consistency.Calls.{run-IsConsistent, AllValidCalls}

abbrev pub measured : String → String → ℕ → ℕ → ℕ → Metric
measured key provider mins used time = record {
  key = key;
  provider = provider;
  window_duration_mins = mins;
  used_percent = some used;
  resets_at = some (pos 2_000_000);
  state = ready;
  observed_at = time;
  retry_after_seconds = none;
  error_code = none;
}

abbrev pub absent : String → ℕ → Metric
absent key time = record (measured key "claude" 10_080 0 time) {
  used_percent = none;
  resets_at = none;
  state = unavailable;
}

abbrev pub five_hours : ℕ → ℕ → Metric
five_hours = measured "claude_300" "claude" 300

abbrev pub full_snapshot : ℕ → List Metric
full_snapshot time =
    five_hours 40 time
    ∷ measured "claude_10080" "claude" 10_080 70 time
    ∷ measured "claude_fable_10080" "claude" 10_080 5 time
    ∷ []

-- The weekly window is missing.
abbrev partial_snapshot : ℕ → List Metric
partial_snapshot time =
    five_hours 41 time
    ∷ absent "claude_10080" time
    ∷ measured "claude_fable_10080" "claude" 10_080 6 time
    ∷ []

abbrev pub two_windows : ℕ → List Metric
two_windows time =
    measured "codex_10080" "codex" 10_080 12 time ∷ measured "codex_300" "codex" 300 30 time ∷ []

abbrev pub history : List Call
history =
    mark_call "claude" refreshing 10 none
    ∷ update_claude_call (full_snapshot 100) (int (pos 1))
    ∷ update_codex_call (two_windows 100) (int (pos 1))
    ∷ mark_call "codex" offline 120 (some "codex_unavailable")
    ∷ []

abbrev pub seen : MetricStore
seen = run (new_store 0) history

measured-IsValid_codex :
    (key : String) (mins used time : ℕ)
    → 1 ≤ mins
    → mins ≤ 525_600
    → used ≤ 100
    → IsValid (measured key "codex" mins used time)
measured-IsValid_codex key mins used time low high small = record {
  known_provider = inl refl;
  duration_positive = low;
  duration_bounded = high;
  percent_in_range = small;
}

measured-IsValid_claude :
    (key : String) (mins used time : ℕ)
    → 1 ≤ mins
    → mins ≤ 525_600
    → used ≤ 100
    → IsValid (measured key "claude" mins used time)
measured-IsValid_claude key mins used time low high small = record {
  known_provider = inr refl;
  duration_positive = low;
  duration_bounded = high;
  percent_in_range = small;
}

pub history-AllValidCalls : AllValidCalls history
history-AllValidCalls = (
  tt,
  (
    (
      measured-IsValid_claude _ _ _ _ (omega arith) (omega arith) (omega arith),
      (
        measured-IsValid_claude _ _ _ _ (omega arith) (omega arith) (omega arith),
        (measured-IsValid_claude _ _ _ _ (omega arith) (omega arith) (omega arith), tt),
      ),
    ),
    (
      (
        measured-IsValid_codex _ _ _ _ (omega arith) (omega arith) (omega arith),
        (measured-IsValid_codex _ _ _ _ (omega arith) (omega arith) (omega arith), tt),
      ),
      (tt, tt),
    ),
  ),
)

run-IsConsistent_example : IsConsistent seen
run-IsConsistent_example = run-IsConsistent 0 history history-AllValidCalls

snapshot_total_example :
    (codex : List Metric) × (claude : List Metric) × (snapshot seen 200 ≡ ok (codex, claude))
    × (length codex ≤ 2)
    × IsAscending codex
    × (map (λ (m : Metric). m.key) claude ≡ claude_keys)
snapshot_total_example = snapshot_total 0 history 200 history-AllValidCalls

update_codex_monotone_example :
    (update_codex
      (run (update_codex (new_store 0) (two_windows 100) (int (pos 5))).1 history)
      (two_windows 100)
      (int (pos 5))).0
    ≡ ok false
unfolding check_codex
update_codex_monotone_example =
    update_codex_monotone (new_store 0) (two_windows 100) (two_windows 100) (int (pos 5))
      (int (pos 5)) history _ _ (100, 5) (100, 5) refl refl refl

update_claude_monotone_example :
    (update_claude
      (run (update_claude (new_store 0) (full_snapshot 100) (int (pos 2))).1 history)
      (partial_snapshot 90)
      (int (pos 3))).0
    ≡ ok false
unfolding check_claude by_key insert keys lookup snapshot_freshness
update_claude_monotone_example =
    update_claude_monotone (new_store 0) (full_snapshot 100) (partial_snapshot 90) (int (pos 2))
      (int (pos 3)) history _ _ (100, 2) (90, 3) tt refl refl refl

update_claude-last_good_example :
    lookup "claude_10080" (update_claude seen (partial_snapshot 300) (int (pos 2))).1.claude
    ≡ some (record (measured "claude_10080" "claude" 10_080 70 100) {
      state = stale;
      error_code = some "optional_temporarily_unavailable";
    })
unfolding check_claude by_key insert keys lookup snapshot_freshness update_claude run mark_provider
    update_codex check_codex new_store
update_claude-last_good_example =
    update_claude-last_good seen (partial_snapshot 300) (int (pos 2)) _ (300, 2) "claude_10080"
      (measured "claude_10080" "claude" 10_080 70 100) (absent "claude_10080" 300) 70 refl refl refl
      refl refl refl

mark_provider-measured_example :
    (measured_codex (mark_provider seen "codex" offline 400 none).1.codex
      ≡ measured_codex seen.codex)
    × (measured_claude (mark_provider seen "codex" offline 400 none).1.claude
        ≡ measured_claude seen.claude)
mark_provider-measured_example = mark_provider-measured seen "codex" offline 400 none
