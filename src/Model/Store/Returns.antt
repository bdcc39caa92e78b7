-- ===== src/Model/Store/Returns.antt =====
-- The only exceptions of the updates of src/limit_halo/model.py are those of their checks.
use limit_halo.Prelude.{ℕ, ◌≡◌, Bool, List, arith, Bool-cases, inl, inr}
use limit_halo.Prelude.Result.{ok}
use limit_halo.Dict.{Dict}
use limit_halo.Json.{Value}
use limit_halo.Model.Metric.{Metric}
use limit_halo.Model.Store.{
  true, false, MetricStore, update_claude, check_claude, commit_claude, accept_claude, Freshness,
  is_outdated, update_codex, check_codex, commit_codex, accept_codex,
}

accept_claude_returns :
    (s : MetricStore) (values : Dict Metric) (f : Freshness)
    → (b : Bool) × ((accept_claude s values f).0 ≡ ok b)
unfolding accept_claude
accept_claude_returns s values f = elim (Bool-cases (is_outdated s.accepted.claude f)) [
  | inl e ↦ (false, ground arith)
  | inr e ↦ (true, ground arith)
]

pub update_claude_returns :
    (s : MetricStore) (items : List Metric) (q : Value) (c : Dict Metric × Freshness)
    → check_claude items q ≡ ok c
    → (b : Bool) × ((update_claude s items q).0 ≡ ok b)
unfolding update_claude commit_claude
update_claude_returns s items q c h = rw h (accept_claude_returns s c.0 c.1)

accept_codex_returns :
    (s : MetricStore) (clean : List (ℕ × Metric)) (f : Freshness)
    → (b : Bool) × ((accept_codex s clean f).0 ≡ ok b)
unfolding accept_codex
accept_codex_returns s clean f = elim (Bool-cases (is_outdated s.accepted.codex f)) [
  | inl e ↦ (false, ground arith)
  | inr e ↦ (true, ground arith)
]

pub update_codex_returns :
    (s : MetricStore) (metrics : List Metric) (q : Value) (c : List (ℕ × Metric) × Freshness)
    → check_codex metrics q ≡ ok c
    → (b : Bool) × ((update_codex s metrics q).0 ≡ ok b)
unfolding update_codex commit_codex
update_codex_returns s metrics q c h = rw h (accept_codex_returns s c.0 c.1)
