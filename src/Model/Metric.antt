-- ===== src/Model/Metric.antt =====
-- src/limit_halo/model.py: provider states and the validated metric record. Times are counted in
-- microseconds, percentages and window lengths in natural numbers, resets in signed seconds.
pub mod Validity
use limit_halo.Prelude.{
  ℕ, ◌-◌, ◌*◌, ◌≤◌, ◌≡◌, ◌⊎◌, String, Bool, true, false, ◌||◌, ◌&&◌, not, Option, none, some, List,
  [], ◌∷◌, leb, str_eq, if◌then◌else◌,
}
use limit_halo.Prelude.Int.{ℤ, pos}
use limit_halo.Prelude.Result.{Result, ok, err, value_error, ◌>>=◌, ◌>>◌, raise_if}
use limit_halo.Json.{Value, null, int}

pub data ProviderState : Type 0 where
  ready refreshing stale offline authorization_required provider_error disabled unavailable :
      ProviderState

-- One second, in the unit of `observed_at` and of the clock.
abbrev pub second : ℕ
second = 1_000_000

abbrev pub codex_stale_seconds : ℕ
codex_stale_seconds = 180

abbrev pub claude_stale_seconds : ℕ
claude_stale_seconds = 600

pub record Metric : Type 0 where
  pub key : String
  pub provider : String
  pub window_duration_mins : ℕ
  pub used_percent : Option ℕ
  pub resets_at : Option ℤ
  pub state : ProviderState
  pub observed_at : ℕ
  pub retry_after_seconds : Option ℕ
  pub error_code : Option String

abbrev pub is_ready : ProviderState → Bool
is_ready ready = true
is_ready _ = false

abbrev pub is_unavailable : ProviderState → Bool
is_unavailable unavailable = true
is_unavailable _ = false

check_duration : Value → Result ℕ
check_duration (int (pos n)) =
    if leb 1 n && leb n 525_600 then ok n else err (value_error "invalid duration")
check_duration _ = err (value_error "invalid duration")

check_percent : Value → Result (Option ℕ)
check_percent null = ok none
check_percent (int (pos n)) = if leb n 100 then ok (some n) else err (value_error "invalid percent")
check_percent _ = err (value_error "invalid percent")

check_reset : Value → Result (Option ℤ)
check_reset null = ok none
check_reset (int n) = ok (some n)
check_reset _ = err (value_error "invalid reset")

-- The value of a state, `none` if it is no `ProviderState`.
state_or_raise : Option ProviderState → Result ProviderState
state_or_raise none = err (value_error "invalid provider state")
state_or_raise (some state) = ok state

-- The time of an observation, `none` if it is not finite.
check_observation : Option ℕ → Result ℕ
check_observation none = err (value_error "invalid observation")
check_observation (some time) = ok time

-- `Metric(...)` with the last two fields at their defaults: the checks of `__post_init__`.
unfoldable pub checked_metric :
    String → String → Value → Value → Value → Option ProviderState → Option ℕ → Result Metric
unfolding check_duration check_percent check_reset state_or_raise check_observation
checked_metric key provider duration used reset state observed_at = do
  raise_if (not (str_eq provider "codex" || str_eq provider "claude"))
      (value_error "invalid provider")
  known_state ← state_or_raise state
  mins ← check_duration duration
  percent ← check_percent used
  resets ← check_reset reset
  time ← check_observation observed_at
  ok (record {
    key = key;
    provider = provider;
    window_duration_mins = mins;
    used_percent = percent;
    resets_at = resets;
    state = known_state;
    observed_at = time;
    retry_after_seconds = none;
    error_code = none;
  })

-- `Metric(...)` as the program calls it, with a member of the enumeration and a reading of a clock.
unfoldable pub make_metric :
    String → String → Value → Value → Value → ProviderState → ℕ → Result Metric
unfolding checked_metric
make_metric key provider duration used reset state observed_at =
    checked_metric key provider duration used reset (some state) (some observed_at)

-- What `__post_init__` establishes.
abbrev pub PercentInRange : Option ℕ → Type 0
PercentInRange none = Unit
PercentInRange (some n) = n ≤ 100

pub record IsValid (m : Metric) : Type 0 where
  pub known_provider : (m.provider ≡ "codex") ⊎ (m.provider ≡ "claude")
  pub duration_positive : 1 ≤ m.window_duration_mins
  pub duration_bounded : m.window_duration_mins ≤ 525_600
  pub percent_in_range : PercentInRange m.used_percent

unfoldable pub stale_if_needed : ℕ → Metric → Metric
stale_if_needed now m =
    let stale_after =
      (if str_eq m.provider "codex" then codex_stale_seconds else claude_stale_seconds) * second in
    if is_ready m.state && leb stale_after (now - m.observed_at)
    then record m { state = stale }
    else m

-- A metric with nothing measured.
abbrev pub blank_metric : String → String → ℕ → ProviderState → ℕ → Option String → Metric
blank_metric key provider mins state now error_code = record {
  key = key;
  provider = provider;
  window_duration_mins = mins;
  used_percent = none;
  resets_at = none;
  state = state;
  observed_at = now;
  retry_after_seconds = none;
  error_code = error_code;
}

abbrev pub claude_keys : List String
claude_keys = "claude_300" ∷ "claude_10080" ∷ "claude_fable_10080" ∷ []

unfoldable pub unavailable_claude : ℕ → ProviderState → List Metric
unavailable_claude now state =
    blank_metric "claude_300" "claude" 300 state now none
    ∷ blank_metric "claude_10080" "claude" 10_080 state now none
    ∷ blank_metric "claude_fable_10080" "claude" 10_080 state now none
    ∷ []
