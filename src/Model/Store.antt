-- ===== src/Model/Store.antt =====
-- src/limit_halo/model.py, `MetricStore`: provider state in memory, with the last good values kept.
-- Every method holds the lock, so a method is one step here; it returns its result and the store.
pub mod Calls
pub mod Invariant
pub mod Consistency
pub mod Freshness
pub mod LastGood
pub mod Snapshot
pub mod Returns
use limit_halo.Prelude.{
  ℕ, suc, String, Bool, true, false, ◌||◌, ◌&&◌, not, Option, none, some, List, [], ◌∷◌, ◌++◌, map,
  ltb, leb, ◌==◌, str_eq, if◌then◌else◌, length, all, any, same_set,
}
use limit_halo.Prelude.Int.{pos}
use limit_halo.Prelude.Result.{
  Error, Result, ok, err, value_error, key_error, ◌>>=◌, ◌>>◌, raise_if,
}
use limit_halo.Json.{Value, null, int}
use limit_halo.Dict.{Dict, lookup, insert, keys, map_items}
use limit_halo.Model.Metric.{
  ProviderState, stale, disabled, unavailable, Metric, is_ready, is_unavailable, blank_metric,
  stale_if_needed, claude_keys, unavailable_claude,
}

-- A dictionary with the two fixed keys "codex" and "claude".
pub record Providers {ℓ} (A : Type ℓ) : Type ℓ where
  pub codex : A
  pub claude : A

-- The observation time of a snapshot, and its acquisition sequence.
abbrev pub Freshness : Type 0
Freshness = ℕ × ℕ

-- `freshness <= previous` on tuples.
abbrev pub freshness_le : Freshness → Freshness → Bool
freshness_le (time, sequence) (time', sequence') =
    ltb time time' || (time == time' && leb sequence sequence')

pub record MetricStore : Type 0 where
  pub codex : List (ℕ × Metric)
  pub claude : Dict Metric
  pub ever : Providers Bool
  pub accepted : Providers (Option Freshness)
  -- How often `on_change` was called.
  pub notified : ℕ

abbrev keyed : List Metric → Dict Metric
keyed [] = []
keyed (m ∷ ms) = (m.key, m) ∷ keyed ms

unfoldable pub new_store : ℕ → MetricStore
unfolding unavailable_claude
new_store now = record {
  codex = [];
  claude = keyed (unavailable_claude now unavailable);
  ever = record { codex = false; claude = false };
  accepted = record { codex = none; claude = none };
  notified = 0;
}

-- The set of observation times has one element.
unfoldable pub one_observation : List Metric → Option ℕ
one_observation [] = none
one_observation (m ∷ ms) =
    if all (λ (n : Metric). n.observed_at == m.observed_at) ms then some m.observed_at else none

check_sequence : Value → Result ℕ
check_sequence null = ok 0
check_sequence (int (pos n)) = ok n
check_sequence _ = err (value_error "invalid acquisition sequence")

some_or : Error → Option ℕ → Result ℕ
some_or e none = err e
some_or e (some n) = ok n

unfoldable pub snapshot_freshness : List Metric → Value → Result Freshness
unfolding one_observation check_sequence some_or
snapshot_freshness metrics sequence = do
  time ← some_or (value_error "snapshot observations differ") (one_observation metrics)
  number ← check_sequence sequence
  ok (time, number)

-- `previous is not None and freshness <= previous`
unfoldable pub is_outdated : Option Freshness → Freshness → Bool
is_outdated none f = false
is_outdated (some p) f = freshness_le f p

abbrev pub has_window : ℕ → List (ℕ × Metric) → Bool
has_window d [] = false
has_window d ((e, m) ∷ ms) = e == d || has_window d ms

-- The loop of `update_codex`: `clean` holds the metrics already seen.
unfoldable pub collect_codex : List (ℕ × Metric) → List Metric → Result (List (ℕ × Metric))
collect_codex clean [] = ok clean
collect_codex clean (m ∷ ms) =
    let rest = collect_codex (clean ++ (m.window_duration_mins, m) ∷ []) ms in
    if not (str_eq m.provider "codex") || not (is_ready m.state)
    then err (value_error "invalid Codex metric")
    else if has_window m.window_duration_mins clean
    then err (value_error "duplicate Codex duration")
    else rest

unfoldable pub check_codex : List Metric → Value → Result (List (ℕ × Metric) × Freshness)
unfolding collect_codex snapshot_freshness
check_codex metrics sequence = do
  raise_if (not (leb 1 (length metrics) && leb (length metrics) 2))
      (value_error "Codex must expose one or two windows")
  clean ← collect_codex [] metrics
  freshness ← snapshot_freshness metrics sequence
  ok (clean, freshness)

accept_codex : MetricStore → List (ℕ × Metric) → Freshness → Result Bool × MetricStore
unfolding is_outdated
accept_codex s clean f = if is_outdated s.accepted.codex f then (ok false, s) else (
  ok true,
  record s {
    codex = clean;
    ever = record { codex = true; claude = s.ever.claude };
    accepted = record { codex = some f; claude = s.accepted.claude };
    notified = suc s.notified;
  },
)

commit_codex : MetricStore → Result (List (ℕ × Metric) × Freshness) → Result Bool × MetricStore
unfolding accept_codex
commit_codex s (err e) = (err e, s)
commit_codex s (ok (clean, f)) = accept_codex s clean f

unfoldable pub update_codex : MetricStore → List Metric → Value → Result Bool × MetricStore
unfolding commit_codex
update_codex s metrics sequence = commit_codex s (check_codex metrics sequence)

-- `{metric.key: metric for metric in items}`
unfoldable pub by_key : Dict Metric → List Metric → Dict Metric
by_key d [] = d
by_key d (m ∷ ms) = by_key (insert m.key m d) ms

abbrev pub found_ready : Option Metric → Result Bool
found_ready none = err (key_error "claude_300")
found_ready (some m) = ok (is_ready m.state)

unfoldable pub check_claude : List Metric → Value → Result (Dict Metric × Freshness)
check_claude items sequence = do
  raise_if (not (length items == 3)) (value_error "incomplete Claude metric set")
  let values = by_key [] items
  raise_if (not (length values == length items) || not (same_set (keys values) claude_keys))
      (value_error "incomplete Claude metric set")
  raise_if (any (λ (m : Metric). not (str_eq m.provider "claude")) items)
      (value_error "invalid Claude provider")
  baseline ← found_ready (lookup "claude_300" values)
  raise_if (not baseline) (value_error "Claude session baseline is not ready")
  raise_if (any (λ (m : Metric). not (is_ready m.state || is_unavailable m.state)) items)
      (value_error "invalid Claude snapshot state")
  freshness ← snapshot_freshness items sequence
  ok (values, freshness)

-- One entry of the merge: an optional window that vanished keeps its last measured value.
unfoldable pub merge_metric : Option Metric → Metric → Metric
merge_metric none metric = metric
merge_metric (some prior) metric = elim prior.used_percent [
  | none ↦ metric
  | some _ ↦
      if is_unavailable metric.state
      then record prior { state = stale; error_code = some "optional_temporarily_unavailable" }
      else metric
]

unfoldable pub merge_claude : Dict Metric → Dict Metric → Dict Metric
unfolding merge_metric map_items lookup
merge_claude old values = map_items (λ key metric. merge_metric (lookup key old) metric) values

accept_claude : MetricStore → Dict Metric → Freshness → Result Bool × MetricStore
unfolding is_outdated merge_claude
accept_claude s values f = if is_outdated s.accepted.claude f then (ok false, s) else (
  ok true,
  record s {
    claude = merge_claude s.claude values;
    ever = record { codex = s.ever.codex; claude = true };
    accepted = record { codex = s.accepted.codex; claude = some f };
    notified = suc s.notified;
  },
)

commit_claude : MetricStore → Result (Dict Metric × Freshness) → Result Bool × MetricStore
unfolding accept_claude
commit_claude s (err e) = (err e, s)
commit_claude s (ok (values, f)) = accept_claude s values f

unfoldable pub update_claude : MetricStore → List Metric → Value → Result Bool × MetricStore
unfolding commit_claude
update_claude s items sequence = commit_claude s (check_claude items sequence)

-- `observed_at` of a metric that is marked: a measured one keeps its own.
unfoldable pub mark_metric : ProviderState → ℕ → Option String → Metric → Metric
mark_metric state now error_code m = record m {
  state = state;
  observed_at = elim m.used_percent [ none ↦ now | some _ ↦ m.observed_at ];
  error_code = error_code;
}

unfoldable pub map_metrics : (Metric → Metric) → List (ℕ × Metric) → List (ℕ × Metric)
map_metrics f [] = []
map_metrics f ((d, m) ∷ ms) = (d, f m) ∷ map_metrics f ms

unfoldable pub mark_codex :
    ProviderState → ℕ → Option String → List (ℕ × Metric) → List (ℕ × Metric)
unfolding map_metrics mark_metric
mark_codex state now error_code [] =
    (10_080, blank_metric "codex_unavailable" "codex" 10_080 state now error_code) ∷ []
mark_codex state now error_code (m ∷ ms) = map_metrics (mark_metric state now error_code) (m ∷ ms)

unfoldable pub mark_provider :
    MetricStore → String → ProviderState → ℕ → Option String → Result (Unit {0}) × MetricStore
unfolding mark_codex mark_metric map_items
mark_provider s provider state now error_code =
    if str_eq provider "codex"
    then (
      ok tt,
      record s { codex = mark_codex state now error_code s.codex; notified = suc s.notified },
    )
    else if str_eq provider "claude"
    then (
      ok tt,
      record s {
        claude = map_items (λ _ m. mark_metric state now error_code m) s.claude;
        notified = suc s.notified;
      },
    )
    else (err (value_error "invalid provider"), s)

unfoldable pub set_claude_disabled : MetricStore → ℕ → MetricStore
unfolding unavailable_claude
set_claude_disabled s now = record s {
  claude = keyed (unavailable_claude now disabled);
  accepted = record { codex = s.accepted.codex; claude = none };
  notified = suc s.notified;
}

-- `sorted` on the pairs of `_codex`, whose first parts differ.
unfoldable pub insert_sorted : ℕ × Metric → List (ℕ × Metric) → List (ℕ × Metric)
insert_sorted p [] = p ∷ []
insert_sorted p (q ∷ qs) = if leb p.0 q.0 then p ∷ q ∷ qs else q ∷ insert_sorted p qs

unfoldable pub sort_codex : List (ℕ × Metric) → List (ℕ × Metric)
unfolding insert_sorted
sort_codex [] = []
sort_codex (p ∷ ps) = insert_sorted p (sort_codex ps)

abbrev pub second_parts : List (ℕ × Metric) → List Metric
second_parts [] = []
second_parts ((d, m) ∷ ms) = m ∷ second_parts ms

abbrev pub found : String → Option Metric → Result Metric
found key none = err (key_error key)
found key (some m) = ok m

unfoldable pub select_keys : List String → Dict Metric → Result (List Metric)
unfolding lookup
select_keys [] d = ok []
select_keys (k ∷ ks) d = do m ← found k (lookup k d); ms ← select_keys ks d; ok (m ∷ ms)

unfoldable pub snapshot : MetricStore → ℕ → Result (List Metric × List Metric)
unfolding select_keys sort_codex stale_if_needed
snapshot s now = do
  claude ← select_keys claude_keys s.claude
  ok (
    map (stale_if_needed now) (second_parts (sort_codex s.codex)),
    map (stale_if_needed now) claude,
  )

unfoldable pub ever_succeeded : MetricStore → String → Result Bool
ever_succeeded s provider =
    if str_eq provider "codex"
    then ok s.ever.codex
    else if str_eq provider "claude"
    then ok s.ever.claude
    else err (value_error "invalid provider")
