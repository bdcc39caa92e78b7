-- ===== src/Hud/Select.antt =====
-- src/limit_halo/model.py: the metrics that are selected for display.
use limit_halo.Prelude.{
  ℕ, String, Bool, true, false, ◌||◌, ◌&&◌, not, List, [], ◌∷◌, ◌++◌, str_eq, ◌==◌, if◌then◌else◌,
  take, same_set, sort_by,
}
use limit_halo.Prelude.Result.{Result, ok, err, value_error, ◌>>=◌, ◌>>◌, raise_if}
use limit_halo.Dict.{keys}
use limit_halo.Model.Metric.{Metric, claude_keys}
use limit_halo.Model.Store.{by_key, select_keys}

-- `xs[-1:]`
abbrev pub last_one {ℓ} : {A : Type ℓ} → List A → List A
last_one [] = []
last_one (x ∷ []) = x ∷ []
last_one (x ∷ y ∷ ys) = last_one (y ∷ ys)

abbrev pub window : Metric → ℕ
window m = m.window_duration_mins

abbrev pub is_weekly : Metric → Bool
is_weekly m = m.window_duration_mins == 10_080

abbrev pub weekly_only : List Metric → List Metric
weekly_only [] = []
weekly_only (m ∷ ms) = if is_weekly m then m ∷ weekly_only ms else weekly_only ms

abbrev pub or_last : List Metric → List Metric → List Metric
or_last [] all = last_one all
or_last (m ∷ ms) all = m ∷ []

-- The three Claude metrics in the order of their keys.
unfoldable pub select_claude : List Metric → Result (List Metric)
select_claude claude = do
  let found = by_key [] claude
  raise_if (not (same_set (keys found) claude_keys)) (value_error "incomplete Claude state")
  select_keys claude_keys found

unfoldable pub select_hud_metrics : String → List Metric → List Metric → Result (List Metric)
unfolding select_claude
select_hud_metrics preset codex claude = do
  let codex_values = sort_by window codex
  let found = by_key [] claude
  raise_if (not (same_set (keys found) claude_keys)) (value_error "incomplete Claude state")
  selected ←
      (if str_eq preset "wide"
        then ok (take 2 codex_values)
        else if str_eq preset "compact"
        then ok (or_last (weekly_only codex_values) codex_values)
        else err (value_error "invalid preset"))
  rest ← select_keys claude_keys found
  ok (selected ++ rest)

abbrev is_empty : List Metric → Bool
is_empty [] = true
is_empty _ = false

unfoldable pub select_codex : String → List Metric → Bool → Result (List Metric)
select_codex preset codex_values codex_visible =
    if codex_visible && not (is_empty codex_values)
    then (if str_eq preset "wide"
        then ok (take 2 codex_values)
        else if str_eq preset "compact"
        then ok (last_one codex_values)
        else err (value_error "invalid preset"))
    else if not (str_eq preset "compact" || str_eq preset "wide")
    then err (value_error "invalid preset")
    else ok []

unfoldable pub select_visible_hud_metrics :
    String → List Metric → List Metric → Bool → Bool → Result (List Metric)
unfolding select_codex
select_visible_hud_metrics preset codex claude codex_visible claude_visible = do
  selected ← select_codex preset (sort_by window codex) codex_visible
  rest ← (if claude_visible then select_claude claude else ok [])
  ok (selected ++ rest)
