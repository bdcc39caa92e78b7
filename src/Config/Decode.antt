-- ===== src/Config/Decode.antt =====
-- src/limit_halo/config.py: the local times of a day and the strict decoders of the older schemas
-- of the settings. `none` stands for a refusal; the callers take an exception of a membership test
-- for a refusal too, so that `known` is false where the source raises `TypeError`.
use limit_halo.Prelude.{
  ℕ, ◌+◌, ◌*◌, ◌-◌, ◌/◌, ◌%◌, String, Bool, true, false, ◌&&◌, not, Option, none, some, List, [],
  ◌∷◌, str_eq, ◌==◌, if◌then◌else◌, leb, ltb, all, mem, same_set, length,
}
use Prim.Native.String.{◌++◌ as str_append}
use limit_halo.Prelude.Decimal.{digit}
use limit_halo.Prelude.Int.{ℤ, pos, negsuc, leb_ℤ}
use limit_halo.Json.{Value, Fields, null, bool, int, str, arr, item, no_items, get, get?, keys}
use limit_halo.Claude.Frame.{codes}
use limit_halo.Config.{AppConfig, safe_defaults}

abbrev pub is_digit : ℕ → Bool
is_digit c = leb b'0' c && leb c b'9'

-- "HH:MM" as minutes of the day, on the code points of the text.
unfoldable pub parse_clock : List ℕ → Option ℕ
parse_clock (a ∷ b ∷ colon ∷ c ∷ d ∷ []) =
    if colon == b':'
      && is_digit a
      && is_digit b
      && is_digit c
      && is_digit d
      && leb ((a - b'0') * 10 + (b - b'0')) 23
      && leb ((c - b'0') * 10 + (d - b'0')) 59
    then some (((a - b'0') * 10 + (b - b'0')) * 60 + ((c - b'0') * 10 + (d - b'0')))
    else none
parse_clock _ = none

-- `_parse_minutes`
unfoldable pub parse_minutes : Value → Option ℕ
unfolding parse_clock
parse_minutes (str text) = parse_clock (codes text)
parse_minutes _ = none

abbrev pub two_digits : ℕ → String
two_digits n = str_append (digit (n / 10)) (digit (n % 10))

-- `_format_minutes`, of minutes below 1440; the source refuses others.
unfoldable pub format_minutes : ℕ → Option String
format_minutes value =
    if leb value 1439
    then some (str_append (two_digits (value / 60)) (str_append ":" (two_digits (value % 60))))
    else none

unfoldable pub valid_coordinate : Value → Bool
valid_coordinate null = true
valid_coordinate (int n) = leb_ℤ (negsuc 99_999) n && leb_ℤ n (pos 100_000)
valid_coordinate _ = false

abbrev pub coordinate_of : Value → Option ℤ
coordinate_of (int n) = some n
coordinate_of _ = none

-- `value in names`
abbrev pub known : Value → List String → Bool
known (str s) names = mem s names
known _ names = false

abbrev pub is_bool : Value → Bool
is_bool (bool b) = true
is_bool _ = false

abbrev pub truth : Value → Bool
truth (bool b) = b
truth _ = false

abbrev pub text : Value → String
text (str s) = s
text _ = ""

abbrev pub v2_keys : List String
v2_keys =
    "schemaVersion" ∷ "language" ∷ "claudeEnabled" ∷ "consentCompleted" ∷ "topmost"
    ∷ "startWithWindows" ∷ "displayPreset" ∷ "warningThresholds" ∷ "x" ∷ "y" ∷ []

-- Three percentages, each lower than the one before.
unfoldable pub falling_thresholds : Value → Bool
falling_thresholds (arr (item (int (pos a)) (item (int (pos b)) (item (int (pos c)) no_items)))) =
    leb a 100 && leb b 100 && leb c 100 && ltb c b && ltb b a
falling_thresholds _ = false

-- The tests of schema 2, in their order.
unfoldable pub accepts_v2 : Fields → Bool
unfolding falling_thresholds valid_coordinate
accepts_v2 fs =
    same_set (keys fs) v2_keys
    && is_bool (get "claudeEnabled" fs)
    && is_bool (get "consentCompleted" fs)
    && is_bool (get "topmost" fs)
    && is_bool (get "startWithWindows" fs)
    && known (get "language" fs) ("uk" ∷ "en" ∷ [])
    && known (get "displayPreset" fs) ("compact" ∷ "wide" ∷ [])
    && falling_thresholds (get "warningThresholds" fs)
    && valid_coordinate (get "x" fs)
    && valid_coordinate (get "y" fs)
    && not (truth (get "claudeEnabled" fs) && not (truth (get "consentCompleted" fs)))

unfoldable pub decode_v2 : Fields → Option AppConfig
unfolding accepts_v2
decode_v2 fs =
    if accepts_v2 fs
    then some (record safe_defaults {
      locale = if str_eq (text (get "language" fs)) "uk" then "uk-UA" else "en-US";
      claude_mode = if truth (get "claudeEnabled" fs) then "enabled" else "disabled";
      claude_consent = if truth (get "consentCompleted" fs) then "granted" else "denied";
      topmost = truth (get "topmost" fs);
      start_with_windows = truth (get "startWithWindows" fs);
      display_preset = text (get "displayPreset" fs);
      x = coordinate_of (get "x" fs);
      y = coordinate_of (get "y" fs);
    })
    else none

abbrev all_in : List String → List String → Bool
all_in names allowed = all (λ name. mem name allowed) names

-- The keys of schema 1, or of a file without a schema.
legacy_keys : Value → List String → Bool
legacy_keys null ks = not (length ks == 0) && all_in ks ("x" ∷ "y" ∷ "topmost" ∷ [])
legacy_keys version ks =
    all_in ks ("schemaVersion" ∷ "x" ∷ "y" ∷ "topmost" ∷ [])
    && not (same_set ks ("schemaVersion" ∷ []))

-- A key that is absent is accepted.
abbrev absent_or : (Value → Bool) → Option Value → Bool
absent_or test none = true
absent_or test (some value) = test value

abbrev topmost_of : Option Value → Bool
topmost_of none = true
topmost_of (some value) = truth value

unfoldable pub decode_legacy : Fields → Option AppConfig
unfolding legacy_keys valid_coordinate
decode_legacy fs =
    if legacy_keys (get "schemaVersion" fs) (keys fs)
      && absent_or valid_coordinate (get? "x" fs)
      && absent_or valid_coordinate (get? "y" fs)
      && absent_or is_bool (get? "topmost" fs)
    then some (record safe_defaults {
      x = coordinate_of (get "x" fs);
      y = coordinate_of (get "y" fs);
      topmost = topmost_of (get? "topmost" fs);
    })
    else none
