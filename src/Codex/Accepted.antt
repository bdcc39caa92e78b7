-- ===== src/Codex/Accepted.antt =====
-- Normalized Codex rate limits are a snapshot that the store takes without an exception.
use mathlib.Core.Path.{subst}
use limit_halo.Prelude.{
  ℕ, ◌≡◌, ◌<◌, ◌⊎◌, inl, inr, arith, String, Bool, true, false, Option, none, some, List, [], ◌∷◌,
  All, ◌==◌, if_holds,
}
use limit_halo.Prelude.Int.{pos}
use limit_halo.Prelude.Result.{Result, ok, err, ◌>>=◌, bind_returned}
use limit_halo.Json.{Value, Fields, null, bool, int, float, str, arr, obj, get, get?}
use limit_halo.Model.Metric.{Metric, IsValid, make_metric, ready}
use limit_halo.Model.Metric.Validity.{make_metric-IsValid, make_metric_fields}
use limit_halo.Model.Store.{MetricStore, update_codex, check_codex, Freshness}
use limit_halo.Model.Store.Returns.{update_codex_returns}
use limit_halo.Codex.{
  strict_window, rejected, secondary_window, sorted_windows, windows_of, normalize_snapshot,
  is_codex, top_metrics, select_bucket, agree, found_top, merged_buckets, normalize_rate_limits,
}

-- A window that was just read.
pub record IsWindow (time : ℕ) (m : Metric) : Type 0 where
  pub of_codex : m.provider ≡ "codex"
  pub in_state : m.state ≡ ready
  pub observed : m.observed_at ≡ time
  pub valid : IsValid m

rejected_ok : (r : Result Metric) (m : Metric) → rejected r ≡ ok m → r ≡ ok m
unfolding rejected
rejected_ok (ok n) m h = h
rejected_ok (err e) m h = cc

rejected-IsWindow :
    (key : String) (duration used reset : Value) (time : ℕ) (m : Metric)
    → rejected (make_metric key "codex" duration used reset ready time) ≡ ok m
    → IsWindow time m
rejected-IsWindow key duration used reset time m h =
    let made = rejected_ok (make_metric key "codex" duration used reset ready time) m h in
    let (_, p, s, o) = make_metric_fields key "codex" duration used reset ready time m made in
    record {
      of_codex = p;
      in_state = s;
      observed = o;
      valid = make_metric-IsValid key "codex" duration used reset ready time made;
    }

strict_window-IsWindow :
    (window : Value) (time : ℕ) (m : Metric) → strict_window window time ≡ ok m → IsWindow time m
unfolding strict_window
strict_window-IsWindow window time m h = grind (arith, rejected-IsWindow)

ok_value : (xs ys : List Metric) → ◌≡◌ {A = Result (List Metric)} (ok xs) (ok ys) → xs ≡ ys
ok_value xs ys h = cc

-- One window, or two with growing durations.
unfoldable pub IsSnapshot : ℕ → List Metric → Type 0
IsSnapshot time (a ∷ []) = IsWindow time a
IsSnapshot time (a ∷ b ∷ []) =
    IsWindow time a × IsWindow time b × (a.window_duration_mins < b.window_duration_mins)
IsSnapshot time _ = ⊥

two_sorted :
    (first other : Metric) (rest ms : List Metric)
    → sorted_windows first (other ∷ rest) ≡ ok ms
    → ((first ∷ other ∷ [] ≡ ms) × (first.window_duration_mins < other.window_duration_mins))
      ⊎ ((other ∷ first ∷ [] ≡ ms) × (other.window_duration_mins < first.window_duration_mins))
unfolding sorted_windows
two_sorted first other rest ms e = ground arith

sorted_windows-IsSnapshot :
    (time : ℕ) (first : Metric) (others ms : List Metric)
    → IsWindow time first
    → All (IsWindow time) others
    → sorted_windows first others ≡ ok ms
    → IsSnapshot time ms
unfolding sorted_windows IsSnapshot
sorted_windows-IsSnapshot time first [] ms h hs e =
    subst (IsSnapshot time) (ok_value (first ∷ []) ms e) h
sorted_windows-IsSnapshot time first (other ∷ rest) ms h (ho, hs) e =
    elim (two_sorted first other rest ms e) [
      | inl (same, lt) ↦ subst (IsSnapshot time) same (h, ho, lt)
      | inr (same, lt) ↦ subst (IsSnapshot time) same (ho, h, lt)
    ]

listed-IsWindow :
    (value : Value) (time : ℕ) (ms : List Metric)
    → (strict_window value time >>= λ m. ok (m ∷ [])) ≡ ok ms
    → All (IsWindow time) ms
listed-IsWindow value time ms h =
    let (m, hm, e) = bind_returned (strict_window value time) (λ (m : Metric). ok (m ∷ [])) h in
    subst (All (IsWindow time)) (ok_value (m ∷ []) ms e)
      (strict_window-IsWindow value time m hm, tt)

secondary-IsWindow :
    (value : Value) (time : ℕ) (ms : List Metric)
    → secondary_window value time ≡ ok ms
    → All (IsWindow time) ms
unfolding secondary_window
secondary-IsWindow null time ms h = subst (All (IsWindow time)) (ok_value [] ms h) tt
secondary-IsWindow (bool b) time ms h = listed-IsWindow (bool b) time ms h
secondary-IsWindow (int n) time ms h = listed-IsWindow (int n) time ms h
secondary-IsWindow (float f) time ms h = listed-IsWindow (float f) time ms h
secondary-IsWindow (str s) time ms h = listed-IsWindow (str s) time ms h
secondary-IsWindow (arr items) time ms h = listed-IsWindow (arr items) time ms h
secondary-IsWindow (obj fs) time ms h = listed-IsWindow (obj fs) time ms h

windows-IsSnapshot :
    (fs : Fields) (time : ℕ) (ms : List Metric) → windows_of fs time ≡ ok ms → IsSnapshot time ms
unfolding windows_of
windows-IsSnapshot fs time ms h =
    let (first, h1, k1) =
      bind_returned (strict_window (get "primary" fs) time)
        (λ (first : Metric).
          secondary_window (get "secondary" fs) time >>= λ others. sorted_windows first others)
        h in
    let (others, h2, k2) =
      bind_returned (secondary_window (get "secondary" fs) time)
        (λ (others : List Metric). sorted_windows first others) k1 in
    sorted_windows-IsSnapshot time first others ms
      (strict_window-IsWindow (get "primary" fs) time first h1)
      (secondary-IsWindow (get "secondary" fs) time others h2) k2

normalize-IsSnapshot :
    (snapshot : Value) (time : ℕ) (ms : List Metric)
    → normalize_snapshot snapshot time ≡ ok ms
    → IsSnapshot time ms
unfolding normalize_snapshot
normalize-IsSnapshot snapshot time ms h = grind (arith, windows-IsSnapshot)

IsTop : ℕ → Option (List Metric) → Type 0
IsTop time none = Unit {0}
IsTop time (some ms) = IsSnapshot time ms

top_value :
    (xs ys : Option (List Metric))
    → ◌≡◌ {A = Result (Option (List Metric))} (ok xs) (ok ys)
    → xs ≡ ys
top_value xs ys h = cc

some-IsTop :
    (fs : Fields) (time : ℕ) (top : Option (List Metric))
    → (normalize_snapshot (obj fs) time >>= λ ms. ok (some ms)) ≡ ok top
    → IsTop time top
unfolding IsTop
some-IsTop fs time top h =
    let (ms, hm, e) =
      bind_returned (normalize_snapshot (obj fs) time) (λ (ms : List Metric). ok (some ms)) h in
    subst (IsTop time) (top_value (some ms) top e) (normalize-IsSnapshot (obj fs) time ms hm)

none-IsTop :
    (time : ℕ) (top : Option (List Metric))
    → ◌≡◌ {A = Result (Option (List Metric))} (ok none) (ok top)
    → IsTop time top
unfolding IsTop
none-IsTop time top h = subst (IsTop time) (top_value none top h) tt

top_metrics-IsTop :
    (value : Value) (time : ℕ) (top : Option (List Metric))
    → top_metrics value time ≡ ok top
    → IsTop time top
unfolding top_metrics
top_metrics-IsTop (obj fs) time top h =
    if_holds (λ (r : Result (Option (List Metric))). r ≡ ok top → IsTop time top) (is_codex fs)
      (normalize_snapshot (obj fs) time >>= λ ms. ok (some ms)) (ok none)
      (λ _ e. some-IsTop fs time top e) (λ _ e. none-IsTop time top e) h
top_metrics-IsTop _ time top h = none-IsTop time top h

select_bucket-IsSnapshot :
    (by_id : Option Value) (top : Option (List Metric)) (time : ℕ) (ms : List Metric)
    → IsTop time top
    → select_bucket by_id top time ≡ ok ms
    → IsSnapshot time ms
unfolding select_bucket agree found_top IsTop
select_bucket-IsSnapshot none none time ms t h = cc
select_bucket-IsSnapshot none (some top) time ms t h = subst (IsSnapshot time) (ok_value top ms h) t
select_bucket-IsSnapshot (some by_id) top time ms t h = grind (arith, normalize-IsSnapshot)

merged-IsSnapshot :
    (fs : Fields) (now : ℕ) (ms : List Metric) → merged_buckets fs now ≡ ok ms → IsSnapshot now ms
unfolding merged_buckets
merged-IsSnapshot fs now ms h =
    let (top, ht, e) =
      bind_returned (top_metrics (get "rateLimits" fs) now)
        (λ (top : Option (List Metric)). select_bucket (get? "rateLimitsByLimitId" fs) top now) h in
    select_bucket-IsSnapshot (get? "rateLimitsByLimitId" fs) top now ms
      (top_metrics-IsTop (get "rateLimits" fs) now top ht) e

normalize_rate_limits-IsSnapshot :
    (result : Value) (now : ℕ) (ms : List Metric)
    → normalize_rate_limits result now ≡ ok ms
    → IsSnapshot now ms
unfolding normalize_rate_limits
normalize_rate_limits-IsSnapshot result now ms h = grind (arith, merged-IsSnapshot)

one_checked :
    (a : Metric) (time sequence : ℕ)
    → IsWindow time a
    → check_codex (a ∷ []) (int (pos sequence))
      ≡ ok ((a.window_duration_mins, a) ∷ [], (a.observed_at, sequence))
unfolding check_codex
one_checked a time sequence h = simp (h.of_codex, h.in_state)

two_checked :
    (a b : Metric) (time sequence : ℕ)
    → IsWindow time a
    → IsWindow time b
    → (a.window_duration_mins == b.window_duration_mins) ≡ false
    → (b.observed_at == a.observed_at) ≡ true
    → check_codex (a ∷ b ∷ []) (int (pos sequence))
      ≡ ok (
        (a.window_duration_mins, a) ∷ (b.window_duration_mins, b) ∷ [],
        (a.observed_at, sequence),
      )
unfolding check_codex
two_checked a b time sequence h k d o = simp (h.of_codex, h.in_state, k.of_codex, k.in_state, d, o)

snapshot_checked :
    (ms : List Metric) (time sequence : ℕ)
    → IsSnapshot time ms
    → (c : List (ℕ × Metric) × Freshness) × (check_codex ms (int (pos sequence)) ≡ ok c)
unfolding IsSnapshot
snapshot_checked [] time sequence h = absurd h
snapshot_checked (a ∷ []) time sequence h = (_, one_checked a time sequence h)
snapshot_checked (a ∷ b ∷ []) time sequence (h, k, lt) =
    (_, two_checked a b time sequence h k (ground arith) (ground (arith, h.observed, k.observed)))
snapshot_checked (a ∷ b ∷ c ∷ ms) time sequence h = absurd h

-- Rate limits that are normalized, whatever the server sent, are one or two valid windows with
-- growing durations, all observed at the given time, and `update_codex` takes them at any
-- store and sequence without an exception.
pub normalize_rate_limits_accepted :
    (result : Value) (now : ℕ) (ms : List Metric) (s : MetricStore) (sequence : ℕ)
    → normalize_rate_limits result now ≡ ok ms
    → IsSnapshot now ms × ((b : Bool) × ((update_codex s ms (int (pos sequence))).0 ≡ ok b))
normalize_rate_limits_accepted result now ms s sequence h =
    let shape = normalize_rate_limits-IsSnapshot result now ms h in
    let (c, hc) = snapshot_checked ms now sequence shape in
    (shape, update_codex_returns s ms (int (pos sequence)) c hc)
