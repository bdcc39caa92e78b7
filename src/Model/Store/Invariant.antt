-- ===== src/Model/Store/Invariant.antt =====
-- What holds of a `MetricStore` between two calls.
use limit_halo.Prelude.{ℕ, ◌≤◌, ◌≡◌, String, false, some, List, [], ◌∷◌, length}
use limit_halo.Dict.{Dict, lookup}
use limit_halo.Dict.Items.{AllItems}
use limit_halo.Model.Metric.{Metric, IsValid, claude_keys}
use limit_halo.Model.Store.{MetricStore, has_window}

-- An entry of `_codex`: keyed by its own window, and made for Codex.
abbrev pub IsCodexEntry : ℕ → Metric → Type 0
IsCodexEntry d m = (m.window_duration_mins ≡ d) × (m.provider ≡ "codex") × IsValid m

abbrev pub AllCodex : List (ℕ × Metric) → Type 0
AllCodex [] = Unit
AllCodex ((d, m) ∷ ms) = IsCodexEntry d m × AllCodex ms

-- No window stands twice.
abbrev pub Distinct : List (ℕ × Metric) → Type 0
Distinct [] = Unit
Distinct ((d, m) ∷ ms) = (has_window d ms ≡ false) × Distinct ms

-- An entry of `_claude`: keyed by its own key, and made for Claude.
abbrev pub IsClaudeEntry : String → Metric → Type 0
IsClaudeEntry k m = (m.key ≡ k) × (m.provider ≡ "claude") × IsValid m

abbrev pub AllFound : List String → Dict Metric → Type 0
AllFound [] d = Unit
AllFound (k ∷ ks) d = ((m : Metric) × (lookup k d ≡ some m)) × AllFound ks d

pub record IsConsistent (s : MetricStore) : Type 0 where
  pub codex_entries : AllCodex s.codex
  pub codex_distinct : Distinct s.codex
  pub codex_count : length s.codex ≤ 2
  pub claude_entries : AllItems IsClaudeEntry s.claude
  pub claude_found : AllFound claude_keys s.claude
  pub claude_count : length s.claude ≡ 3
