-- ===== src/Model/Store/Consistency/Calls.antt =====
-- Every call of the store keeps it consistent, from the constructor on.
use limit_halo.Prelude.{
  ℕ, ◌≤◌, ◌≡◌, refl, String, Option, none, List, [], ◌∷◌, arith, str_eq, length, All, Bool-cases,
  inl, inr,
}
use limit_halo.Prelude.Result.{Result, ok, err}
use limit_halo.Json.{Value}
use limit_halo.Dict.{Dict, lookup}
use limit_halo.Model.Metric.{
  blank_metric, ProviderState, Metric, IsValid, unavailable_claude, disabled, unavailable,
}
use limit_halo.Model.Store.{
  keyed, MetricStore, Freshness, new_store, is_outdated, mark_metric, mark_provider,
  set_claude_disabled, update_codex, update_claude, accept_codex, commit_codex, check_codex,
  accept_claude, commit_claude, check_claude,
}
use limit_halo.Model.Store.Calls.{
  Call, HasValidMetrics, update_codex_call, update_claude_call, mark_call, disable_call, step, run,
}
use limit_halo.Model.Store.Invariant.{IsClaudeEntry, IsConsistent}
use limit_halo.Model.Store.Consistency.Codex.{
  IsCollected, check_codex-IsCollected, mark_codex-IsCollected,
}
use limit_halo.Model.Store.Consistency.Claude.{
  IsKeyed, check_claude-IsKeyed, merge_claude-IsKeyed, map_items-IsKeyed, mark_metric-IsClaudeEntry,
}

-- The two halves of the invariant.
codex_half : {s : MetricStore} → IsConsistent s → IsCollected s.codex
codex_half c = record { entries = c.codex_entries; distinct = c.codex_distinct }

claude_half : {s : MetricStore} → IsConsistent s → IsKeyed s.claude
claude_half c = record {
  entries = c.claude_entries;
  found = c.claude_found;
  count = c.claude_count;
}

from_halves :
    (s : MetricStore) → IsCollected s.codex → length s.codex ≤ 2 → IsKeyed s.claude → IsConsistent s
from_halves s c size k = record {
  codex_entries = c.entries;
  codex_distinct = c.distinct;
  codex_count = size;
  claude_entries = k.entries;
  claude_found = k.found;
  claude_count = k.count;
}

accept_codex-IsConsistent :
    (s : MetricStore) (clean : List (ℕ × Metric)) (f : Freshness)
    → IsConsistent s
    → IsCollected clean
    → length clean ≤ 2
    → IsConsistent (accept_codex s clean f).1
unfolding accept_codex
accept_codex-IsConsistent s clean f c kept small =
    elim (Bool-cases (is_outdated s.accepted.codex f)) [
      | inl old ↦ rw old c
      | inr new ↦ rw new (from_halves _ kept small (claude_half c))
    ]

commit_codex-IsConsistent :
    (s : MetricStore) (metrics : List Metric) (q : Value)
    (checked : Result (List (ℕ × Metric) × Freshness))
    → check_codex metrics q ≡ checked
    → All IsValid metrics
    → IsConsistent s
    → IsConsistent (commit_codex s checked).1
unfolding commit_codex
commit_codex-IsConsistent s metrics q (err e) h valid c = c
commit_codex-IsConsistent s metrics q (ok (clean, f)) h valid c =
    let (kept, size, small) = check_codex-IsCollected metrics q clean f valid h in
    accept_codex-IsConsistent s clean f c kept (omega arith)

accept_claude-IsConsistent :
    (s : MetricStore) (values : Dict Metric) (f : Freshness)
    → IsConsistent s
    → IsKeyed values
    → IsConsistent (accept_claude s values f).1
unfolding accept_claude
accept_claude-IsConsistent s values f c keyed =
    elim (Bool-cases (is_outdated s.accepted.claude f)) [
      | inl old ↦ rw old c
      | inr new ↦ rw new (
          from_halves _ (codex_half c) c.codex_count
            (merge_claude-IsKeyed s.claude values c.claude_entries keyed))
    ]

commit_claude-IsConsistent :
    (s : MetricStore) (items : List Metric) (q : Value) (checked : Result (Dict Metric × Freshness))
    → check_claude items q ≡ checked
    → All IsValid items
    → IsConsistent s
    → IsConsistent (commit_claude s checked).1
unfolding commit_claude
commit_claude-IsConsistent s items q (err e) h valid c = c
commit_claude-IsConsistent s items q (ok (values, f)) h valid c =
    accept_claude-IsConsistent s values f c (check_claude-IsKeyed items q values f valid h)

mark_provider-IsConsistent :
    (s : MetricStore) (provider : String) (st : ProviderState) (now : ℕ) (code : Option String)
    → IsConsistent s
    → IsConsistent (mark_provider s provider st now code).1
mark_provider-IsConsistent s provider st now code c = elim (Bool-cases (str_eq provider "codex")) [
  | inl codex ↦
      let (kept, small) = mark_codex-IsCollected st now code s.codex (codex_half c) c.codex_count in
      unfold mark_provider in rw codex (from_halves _ kept small (claude_half c))
  | inr other ↦ elim (Bool-cases (str_eq provider "claude")) [
    | inl claude ↦
        unfold mark_provider in
        rw (other, claude)
          (from_halves _ (codex_half c) c.codex_count (
            map_items-IsKeyed (λ _ m. mark_metric st now code m)
              (mark_metric-IsClaudeEntry st now code) s.claude (claude_half c)))
    | inr neither ↦ unfold mark_provider in rw (other, neither) c
  ]
]

-- The entries that `unavailable_claude` makes.
blank-IsClaudeEntry :
    (k : String) (mins : ℕ) (st : ProviderState) (now : ℕ)
    → 1 ≤ mins
    → mins ≤ 525_600
    → IsClaudeEntry k (blank_metric k "claude" mins st now none)
blank-IsClaudeEntry k mins st now low high = (
  refl,
  refl,
  record {
    known_provider = inr refl;
    duration_positive = low;
    duration_bounded = high;
    percent_in_range = tt;
  },
)

unavailable_claude-IsKeyed :
    (now : ℕ) (st : ProviderState) → IsKeyed (keyed (unavailable_claude now st))
unfolding unavailable_claude lookup
unavailable_claude-IsKeyed now st = record {
  entries = (
    blank-IsClaudeEntry _ _ st now (omega arith) (omega arith),
    (
      blank-IsClaudeEntry _ _ st now (omega arith) (omega arith),
      (blank-IsClaudeEntry _ _ st now (omega arith) (omega arith), tt),
    ),
  );
  found = ((_, refl), ((_, refl), ((_, refl), tt)));
  count = refl;
}

-- One call.
pub step-IsConsistent :
    (s : MetricStore) (c : Call) → HasValidMetrics c → IsConsistent s → IsConsistent (step s c)
unfolding step update_codex update_claude set_claude_disabled
step-IsConsistent s (update_codex_call metrics q) valid h =
    commit_codex-IsConsistent s metrics q _ refl valid h
step-IsConsistent s (update_claude_call metrics q) valid h =
    commit_claude-IsConsistent s metrics q _ refl valid h
step-IsConsistent s (mark_call provider st now code) valid h =
    mark_provider-IsConsistent s provider st now code h
step-IsConsistent s (disable_call now) valid h =
    from_halves _ (codex_half h) h.codex_count (unavailable_claude-IsKeyed now disabled)

new_store-IsConsistent : (now : ℕ) → IsConsistent (new_store now)
unfolding new_store
new_store-IsConsistent now =
    from_halves _ (record { entries = tt; distinct = tt }) (omega arith)
      (unavailable_claude-IsKeyed now unavailable)

abbrev pub AllValidCalls : List Call → Type 0
AllValidCalls [] = Unit
AllValidCalls (c ∷ cs) = HasValidMetrics c × AllValidCalls cs

run_from-IsConsistent :
    (s : MetricStore) (calls : List Call)
    → AllValidCalls calls
    → IsConsistent s
    → IsConsistent (run s calls)
unfolding run
run_from-IsConsistent s [] valid h = h
run_from-IsConsistent s (c ∷ cs) valid h =
    run_from-IsConsistent (step s c) cs valid.1 (step-IsConsistent s c valid.0 h)

-- Whatever calls are made of a new store, with metrics that the constructor made, the store has at
-- most two Codex entries with distinct windows and exactly one Claude entry for each of the three
-- keys; each entry is keyed by its own window or key, belongs to its provider and is in range.
pub run-IsConsistent :
    (now : ℕ) (calls : List Call) → AllValidCalls calls → IsConsistent (run (new_store now) calls)
run-IsConsistent now calls valid =
    run_from-IsConsistent (new_store now) calls valid (new_store-IsConsistent now)
