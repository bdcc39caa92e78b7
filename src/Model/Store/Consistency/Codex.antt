-- ===== src/Model/Store/Consistency/Codex.antt =====
-- The Codex half of the store stays consistent.
use limit_halo.Prelude.{
  ℕ, ◌+◌, ◌≤◌, ◌≡◌, refl, String, true, false, Option, List, [], ◌∷◌, ◌++◌, arith, str_eq, eq_iff,
  length, length-append, All, inl, ◌||◌, ◌==◌,
}
use limit_halo.Prelude.Result.{ok}
use limit_halo.Json.{Value}
use limit_halo.Model.Metric.{ProviderState, Metric, IsValid}
use limit_halo.Model.Store.{
  Freshness, has_window, collect_codex, check_codex, map_metrics, mark_metric, mark_codex,
}
use limit_halo.Model.Store.Invariant.{IsCodexEntry, AllCodex, Distinct}

AllCodex-append :
    (ms : List (ℕ × Metric)) (d : ℕ) (m : Metric)
    → AllCodex ms
    → IsCodexEntry d m
    → AllCodex (ms ++ (d, m) ∷ [])
AllCodex-append [] d m h e = (e, tt)
AllCodex-append ((d', m') ∷ ms) d m h e = (h.0, AllCodex-append ms d m h.1 e)

has_window-append :
    (e : ℕ) (ms : List (ℕ × Metric)) (d : ℕ) (m : Metric)
    → has_window e (ms ++ (d, m) ∷ []) ≡ (has_window e ms || d == e)
has_window-append e [] d m = ground arith
has_window-append e ((d', m') ∷ ms) d m = ground (arith, has_window-append e ms d m)

Distinct-append :
    (ms : List (ℕ × Metric)) (d : ℕ) (m : Metric)
    → Distinct ms
    → has_window d ms ≡ false
    → Distinct (ms ++ (d, m) ∷ [])
Distinct-append [] d m h new = (refl, tt)
Distinct-append ((d', m') ∷ ms) d m h new =
    (ground (arith, has_window-append d' ms d m), Distinct-append ms d m h.1 (ground arith))

pub record IsCollected (ms : List (ℕ × Metric)) : Type 0 where
  pub entries : AllCodex ms
  pub distinct : Distinct ms

-- The loop of `update_codex` keeps what it has collected consistent, and drops nothing.
pub collect_codex-IsCollected :
    (clean : List (ℕ × Metric)) (ms : List Metric) (out : List (ℕ × Metric))
    → IsCollected clean
    → All IsValid ms
    → collect_codex clean ms ≡ ok out
    → IsCollected out × (length out ≡ length clean + length ms)
unfolding collect_codex
collect_codex-IsCollected clean [] out c valid h =
    let same : clean ≡ out = cc in rw (← same) (c, omega arith)
collect_codex-IsCollected clean (m ∷ ms) out c valid h =
    let entry : (str_eq m.provider "codex" ≡ true)
        × (has_window m.window_duration_mins clean ≡ false)
        × (collect_codex (clean ++ (m.window_duration_mins, m) ∷ []) ms ≡ ok out) =
      (ground arith, ground arith, ground arith) in
    let (kept, size) =
      collect_codex-IsCollected (clean ++ (m.window_duration_mins, m) ∷ []) ms out
        (record {
          entries = AllCodex-append clean _ m c.entries (refl, (eq_iff _ _).0 entry.0, valid.0);
          distinct = Distinct-append clean _ m c.distinct entry.1;
        })
        valid.1 entry.2 in
    (kept, omega (arith, size, length-append {0} clean ((m.window_duration_mins, m) ∷ [])))

-- What `update_codex` has checked can replace the Codex entries.
pub check_codex-IsCollected :
    (metrics : List Metric) (q : Value) (clean : List (ℕ × Metric)) (f : Freshness)
    → All IsValid metrics
    → check_codex metrics q ≡ ok (clean, f)
    → IsCollected clean × (length clean ≡ length metrics) × (length metrics ≤ 2)
check_codex-IsCollected metrics q clean f valid h =
    let (kept, size) =
      collect_codex-IsCollected [] metrics clean (record { entries = tt; distinct = tt }) valid
        (unfold check_codex in ground arith) in
    (kept, omega (arith, size), unfold check_codex in ground arith)

has_window-map_metrics :
    (f : Metric → Metric) (e : ℕ) (ms : List (ℕ × Metric))
    → has_window e (map_metrics f ms) ≡ has_window e ms
unfolding map_metrics
has_window-map_metrics f e [] = refl
has_window-map_metrics f e ((d, m) ∷ ms) = rw (has_window-map_metrics f e ms)

-- A change of the metrics that leaves their windows, providers and ranges alone.
pub map_metrics-IsCollected :
    (f : Metric → Metric)
    → ((d : ℕ) (m : Metric) → IsCodexEntry d m → IsCodexEntry d (f m))
    → (ms : List (ℕ × Metric)) → IsCollected ms
    → IsCollected (map_metrics f ms) × (length (map_metrics f ms) ≡ length ms)
unfolding map_metrics
map_metrics-IsCollected f keep [] c = (record { entries = tt; distinct = tt }, refl)
map_metrics-IsCollected f keep ((d, m) ∷ ms) c =
    let (rest, size) =
      map_metrics-IsCollected f keep ms
        (record { entries = c.entries.1; distinct = c.distinct.1 }) in
    (
      record {
        entries = (keep d m c.entries.0, rest.entries);
        distinct = (rw (has_window-map_metrics f d ms) c.distinct.0, rest.distinct);
      },
      omega (arith, size),
    )

pub mark_metric-IsCodexEntry :
    (st : ProviderState) (now : ℕ) (code : Option String) (d : ℕ) (m : Metric)
    → IsCodexEntry d m
    → IsCodexEntry d (mark_metric st now code m)
unfolding mark_metric
mark_metric-IsCodexEntry st now code d m h = (
  h.0,
  h.1,
  record {
    known_provider = h.2.known_provider;
    duration_positive = h.2.duration_positive;
    duration_bounded = h.2.duration_bounded;
    percent_in_range = h.2.percent_in_range;
  },
)

pub mark_codex-IsCollected :
    (st : ProviderState) (now : ℕ) (code : Option String) (ms : List (ℕ × Metric))
    → IsCollected ms
    → length ms ≤ 2
    → IsCollected (mark_codex st now code ms) × (length (mark_codex st now code ms) ≤ 2)
unfolding mark_codex
mark_codex-IsCollected st now code [] c small = (
  record {
    entries = (
      (
        refl,
        refl,
        record {
          known_provider = inl refl;
          duration_positive = omega arith;
          duration_bounded = omega arith;
          percent_in_range = tt;
        },
      ),
      tt,
    );
    distinct = (refl, tt);
  },
  omega arith,
)
mark_codex-IsCollected st now code (m ∷ ms) c small =
    let (kept, size) =
      map_metrics-IsCollected (mark_metric st now code) (mark_metric-IsCodexEntry st now code)
        (m ∷ ms) c in
    (kept, omega (arith, size))
