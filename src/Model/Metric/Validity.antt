-- ===== src/Model/Metric/Validity.antt =====
-- What the checks of `Metric.__post_init__` establish, and that they accept what is in range.
use limit_halo.Prelude.{ℕ, ◌≡◌, String, arith, eq_iff}
use limit_halo.Prelude.Result.{ok}
use limit_halo.Json.{Value}
use limit_halo.Model.Metric.{ProviderState, Metric, IsValid, make_metric, stale_if_needed}

-- A metric that the constructor returns satisfies the record's invariant, whatever the values.
pub make_metric-IsValid :
    (key provider : String) (duration used reset : Value) (state : ProviderState) (observed_at : ℕ)
    {m : Metric}
    → make_metric key provider duration used reset state observed_at ≡ ok m
    → IsValid m
unfolding make_metric
make_metric-IsValid key provider duration used reset _ observed_at h =
    ground (arith, eq_iff provider "codex", eq_iff provider "claude")

pub stale_if_needed-IsValid : (now : ℕ) (m : Metric) → IsValid m → IsValid (stale_if_needed now m)
unfolding stale_if_needed
stale_if_needed-IsValid now m h = ground arith

-- The fields that the constructor takes as they are.
pub make_metric_fields :
    (key provider : String) (duration used reset : Value) (st : ProviderState) (time : ℕ)
    (m : Metric)
    → make_metric key provider duration used reset st time ≡ ok m
    → (m.key ≡ key) × (m.provider ≡ provider) × (m.state ≡ st) × (m.observed_at ≡ time)
unfolding make_metric
make_metric_fields key provider duration used reset st time m h = ground arith
