-- ===== src/Shell.antt =====
-- src/limit_halo/app.py: whether a provider is shown, what counts as present, and the recovery that
-- follows a sign-in.
pub mod Recovery
use limit_halo.Prelude.{
  ℕ, zero, suc, ◌+◌, String, Bool, true, false, ◌&&◌, ◌||◌, not, Option, none, some, List, [], ◌∷◌,
  leb, any, if◌then◌else◌, str_eq,
}
use limit_halo.Prelude.Result.{Result, ok, err, value_error, ◌>>=◌}
use limit_halo.Config.{AppConfig}

-- `provider_should_be_visible`
unfoldable pub provider_should_be_visible : String → Bool → Result Bool
provider_should_be_visible mode present =
    if str_eq mode "disabled"
    then ok false
    else if str_eq mode "enabled"
    then ok true
    else if str_eq mode "auto"
    then ok present
    else err (value_error "invalid provider mode")

-- What `main` knows of the providers.
pub record Presence : Type 0 where
  pub codex_candidate : Bool
  pub claude_client_present : Bool
  pub claude_broker_present : Bool

-- `present`
unfoldable pub present : Presence → AppConfig → String → Result Bool
present p c provider =
    if str_eq provider "codex"
    then ok p.codex_candidate
    else if str_eq provider "claude"
    then ok (
        p.claude_broker_present
        || p.claude_client_present && not (str_eq c.claude_consent "denied"))
    else err (value_error "invalid provider")

-- `detected`
unfoldable pub detected : Presence → String → Result Bool
detected p provider =
    if str_eq provider "codex"
    then ok p.codex_candidate
    else if str_eq provider "claude"
    then ok (p.claude_client_present || p.claude_broker_present)
    else err (value_error "invalid provider")

-- Whether anything is shown after the settings were edited, by what the providers ever gave. The
-- second test is made only where the first one fails, as `or` does.
unfoldable pub anything_visible : Presence → AppConfig → Bool → Bool → Result Bool
unfolding provider_should_be_visible
anything_visible p c codex_succeeded claude_succeeded = do
  codex ← provider_should_be_visible c.codex_mode (p.codex_candidate || codex_succeeded)
  if codex
      then ok true
      else provider_should_be_visible c.claude_mode (
          p.claude_broker_present
          || p.claude_client_present && not (str_eq c.claude_consent "denied")
          || claude_succeeded)

-- The attempts to recover after a sign-in. What an attempt meets: whether the program ends or another
-- sign-in has begun, whether the provider is ready before and after the refresh, and whether the
-- official client has exited.
pub record Meeting : Type 0 where
  pub superseded : Bool
  pub ready_before : Bool
  pub ready_after : Bool
  pub exited : Bool

-- Whether an attempt has refreshed, and the numbers of the next one, where there is one.
abbrev pub next_exited : Bool → ℕ → ℕ
next_exited exited observations = if exited then suc observations else 0

unfoldable pub recover : Meeting → ℕ → ℕ → Bool × Option (ℕ × ℕ)
recover m attempt exited_observations =
    if m.superseded || m.ready_before
    then (false, none)
    else if m.ready_after || leb 47 attempt || leb 3 (next_exited m.exited exited_observations)
    then (true, none)
    else (true, some (suc attempt, next_exited m.exited exited_observations))

-- One more refresh where the attempt made one.
abbrev pub counted : Bool → Option ℕ → Option ℕ
counted refreshed none = none
counted refreshed (some n) = some (if refreshed then suc n else n)

-- The refreshes of an attempt and of those that follow it.
abbrev pub follow : Bool × Option (ℕ × ℕ) → (ℕ → ℕ → Option ℕ) → Option ℕ
follow (refreshed, none) rest = counted refreshed (some 0)
follow (refreshed, some (a, e)) rest = counted refreshed (rest a e)

-- The attempts, from one of a number: how many refreshes they make. `none` stands for a chain that is
-- longer than the fuel. What the attempts meet is given by their numbers.
unfoldable pub recoveries : ℕ → (ℕ → Meeting) → ℕ → ℕ → Option ℕ
recoveries zero meetings attempt exited = none
recoveries (suc fuel) meetings attempt exited =
    follow (recover (meetings attempt) attempt exited) (λ a e. recoveries fuel meetings a e)
