-- ===== src/Model/Store/Calls.antt =====
-- Sequences of calls of `MetricStore`: every method that changes the store, in any order, from
-- any thread (the lock makes each call one step).
use limit_halo.Prelude.{ℕ, String, Option, List, [], ◌∷◌}
use limit_halo.Json.{Value}
use limit_halo.Model.Metric.{ProviderState, Metric, IsValid}
use limit_halo.Model.Store.{
  MetricStore, update_codex, update_claude, mark_provider, set_claude_disabled,
}
use limit_halo.Prelude.{All}

pub data Call : Type 0 where
  update_codex_call : List Metric → Value → Call
  update_claude_call : List Metric → Value → Call
  mark_call : String → ProviderState → ℕ → Option String → Call
  disable_call : ℕ → Call

-- The store after a call; what it returns or raises is left aside.
unfoldable pub step : MetricStore → Call → MetricStore
step s (update_codex_call metrics sequence) = (update_codex s metrics sequence).1
step s (update_claude_call metrics sequence) = (update_claude s metrics sequence).1
step s (mark_call provider state now error_code) = (mark_provider s provider state now error_code).1
step s (disable_call now) = set_claude_disabled s now

unfoldable pub run : MetricStore → List Call → MetricStore
unfolding step
run s [] = s
run s (c ∷ cs) = run (step s c) cs

-- The metrics that a call passes were made by the constructor.
abbrev pub HasValidMetrics : Call → Type 0
HasValidMetrics (update_codex_call metrics _) = All IsValid metrics
HasValidMetrics (update_claude_call metrics _) = All IsValid metrics
HasValidMetrics _ = Unit
