-- ===== src/Model/Store/LastGood.antt =====
-- Measured values survive: what an accepted Claude snapshot and a change of state keep.
use limit_halo.Prelude.{
  refl, ℕ, ◌≡◌, String, true, false, Option, none, some, List, [], ◌∷◌, arith, Bool-cases, inl, inr,
  ◌∙◌,
}
use limit_halo.Prelude.Result.{Result, ok}
use limit_halo.Prelude.Int.{ℤ}
use limit_halo.Json.{Value}
use limit_halo.Dict.{Dict, lookup, lookup-map_items, map_items, map_found}
use limit_halo.Model.Metric.{ProviderState, stale, unavailable, ready, Metric}
use limit_halo.Model.Store.{
  map_metrics, mark_codex, mark_provider, MetricStore, Freshness, merge_metric, merge_claude,
  update_claude, accept_claude, commit_claude, check_claude, is_outdated, mark_metric,
}

-- What an accepted update stores.
accepted_claude :
    (s : MetricStore) (values : Dict Metric) (f : Freshness)
    → (accept_claude s values f).0 ≡ ok true
    → (accept_claude s values f).1.claude ≡ merge_claude s.claude values
unfolding accept_claude
accepted_claude s values f h = elim (Bool-cases (is_outdated s.accepted.claude f)) [
  | inl old ↦ let refused : Result.ok false ≡ ok true = rw old at h in cc
  | inr new ↦ rw new
]

lookup-update_claude :
    (s : MetricStore) (items : List Metric) (q : Value) (values : Dict Metric) (f : Freshness)
    (key : String)
    → check_claude items q ≡ ok (values, f)
    → (update_claude s items q).0 ≡ ok true
    → lookup key (update_claude s items q).1.claude
      ≡ map_found (merge_metric (lookup key s.claude)) (lookup key values)
unfolding update_claude commit_claude
lookup-update_claude s items q values f key checked accepted = rw checked (
    rw (accepted_claude s values f (rw checked at accepted)) (
      unfold merge_claude in
      lookup-map_items (λ k m. merge_metric (lookup k s.claude) m) key values))

-- An accepted Claude snapshot in which an optional window is unavailable keeps the measured entry
-- of that window as it was observed: percentage, reset and observation time stay. The entry is
-- marked stale, with the error code of a temporary omission.
pub update_claude-last_good :
    (s : MetricStore) (items : List Metric) (q : Value) (values : Dict Metric) (f : Freshness)
    (key : String) (prior metric : Metric) (used : ℕ)
    → check_claude items q ≡ ok (values, f)
    → (update_claude s items q).0 ≡ ok true
    → lookup key s.claude ≡ some prior
    → prior.used_percent ≡ some used
    → lookup key values ≡ some metric
    → metric.state ≡ unavailable
    → lookup key (update_claude s items q).1.claude
      ≡ some (record prior { state = stale; error_code = some "optional_temporarily_unavailable" })
update_claude-last_good s items q values f key prior metric used checked accepted had measured new
      absent =
    lookup-update_claude s items q values f key checked accepted
    ∙ unfold merge_metric in rw (new, had) (ground (arith, measured, absent))

-- A window that an accepted Claude snapshot measures is stored as it came.
pub update_claude-measured :
    (s : MetricStore) (items : List Metric) (q : Value) (values : Dict Metric) (f : Freshness)
    (key : String) (metric : Metric)
    → check_claude items q ≡ ok (values, f)
    → (update_claude s items q).0 ≡ ok true
    → lookup key values ≡ some metric
    → metric.state ≡ ready
    → lookup key (update_claude s items q).1.claude ≡ some metric
update_claude-measured s items q values f key metric checked accepted new present =
    lookup-update_claude s items q values f key checked accepted
    ∙ unfold merge_metric in rw new (ground (arith, present))

-- A measured value: the percentage, the reset, and when it was observed.
abbrev pub Measurement : Type 0
Measurement = ℕ × Option ℤ × ℕ

abbrev pub measurement : Metric → Option Measurement
measurement m = elim m.used_percent [
  | none ↦ none
  | some used ↦ some (used, m.resets_at, m.observed_at)
]

-- What is measured, window by window and key by key; what is not measured is left out.
abbrev pub measured_codex : List (ℕ × Metric) → List (ℕ × Measurement)
measured_codex [] = []
measured_codex ((d, m) ∷ ms) = elim (measurement m) [
  | none ↦ measured_codex ms
  | some v ↦ (d, v) ∷ measured_codex ms
]

abbrev pub measured_claude : Dict Metric → List (String × Measurement)
measured_claude [] = []
measured_claude ((k, m) ∷ d) = elim (measurement m) [
  | none ↦ measured_claude d
  | some v ↦ (k, v) ∷ measured_claude d
]

module _ (st : ProviderState) (now : ℕ) (code : Option String) where
  mark_metric-measurement : (m : Metric) → measurement (mark_metric st now code m) ≡ measurement m
  unfolding mark_metric
  mark_metric-measurement m = ground arith

  measured-map_metrics :
      (ms : List (ℕ × Metric))
      → measured_codex (map_metrics (mark_metric st now code) ms) ≡ measured_codex ms
  unfolding map_metrics
  measured-map_metrics [] = refl
  measured-map_metrics ((d, m) ∷ ms) =
      ground (arith, mark_metric-measurement m, measured-map_metrics ms)

  measured-mark_codex :
      (ms : List (ℕ × Metric)) → measured_codex (mark_codex st now code ms) ≡ measured_codex ms
  unfolding mark_codex
  measured-mark_codex [] = refl
  measured-mark_codex (m ∷ ms) = measured-map_metrics (m ∷ ms)

  measured-map_items :
      (d : Dict Metric)
      → measured_claude (map_items (λ _ m. mark_metric st now code m) d) ≡ measured_claude d
  unfolding map_items
  measured-map_items [] = refl
  measured-map_items ((k, m) ∷ d) = ground (arith, mark_metric-measurement m, measured-map_items d)

-- Marking a provider with any state, also an unknown provider, changes no measured value of either
-- provider: every percentage stays, with its reset and the time at which it was observed.
pub mark_provider-measured :
    (s : MetricStore) (provider : String) (st : ProviderState) (now : ℕ) (code : Option String)
    → (measured_codex (mark_provider s provider st now code).1.codex ≡ measured_codex s.codex)
      × (measured_claude (mark_provider s provider st now code).1.claude ≡ measured_claude s.claude)
mark_provider-measured s provider st now code =
    unfold mark_provider in
    ground (arith, measured-mark_codex st now code s.codex, measured-map_items st now code s.claude)
