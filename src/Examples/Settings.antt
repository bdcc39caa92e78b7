-- ===== src/Examples/Settings.antt =====
-- The settings and their file: instances of the theorems.
use limit_halo.Prelude.Decimal.{digit}
use limit_halo.Config.Overlay.{merge_fields, merge_fields}
use limit_halo.Config.Decode.{format_minutes, valid_coordinate}
use limit_halo.Prelude.{
  false, ℕ, String, true, Option, none, some, List, [], ◌∷◌, ◌≡◌, ◌≤◌, refl, map, str_eq,
  if◌then◌else◌, All,
}
use limit_halo.Prelude.Int.{pos}
use limit_halo.Prelude.Result.{ok, err, value_error}
use limit_halo.Json.{
  keys, keys, keys, Value, Fields, obj, arr, int, null, item, no_items, empty, entry, get?,
}
use limit_halo.Claude.Frame.{codes}
use limit_halo.Config.{safe_defaults}
use limit_halo.Config.Extension.{
  has_forbidden_key, safe_value, append_field, replace_field, normalized_key, count_items,
  normalized_key, has_forbidden_key, safe_value, Unicode,
}
use limit_halo.Config.Extension.Limits.{safe_unknown_value-nodes, nodes, nesting}
use limit_halo.Config.Overlay.Known.{get_at, get_at-merge_unknown_overlay}
use limit_halo.Config.Schema.{checked_overlay, Platform, to_json_object, known_fields}
use limit_halo.Config.Strict.{threshold_of, strict_decode}
use limit_halo.Config.Strict.Ascii.{IsUnicode, lower, ascii_alnum}
use limit_halo.Config.Strict.RoundTrip.{IsCodec, IsValid, strict_decode-to_json_object}
use limit_halo.Config.File.{
  read_file, revision, Look, Revision, Reading, Writing, new_config_store, save, read_current,
}
use limit_halo.Prelude.Decimal.{digit}
use limit_halo.Json.{keys}
use limit_halo.Config.Decode.{format_minutes, valid_coordinate, parse_clock, parse_minutes}
use limit_halo.Config.Equality.{
  same_config, same_coordinate, same_numbers, same_switches, same_texts,
}
use limit_halo.Config.Extension.{safe_value, has_forbidden_key, normalized_key, without}
use limit_halo.Config.Overlay.{merge_fields}
use limit_halo.Config.Schema.{checked_overlay}
use limit_halo.Config.Strict.{decode_v3, accepts_v3, threshold_of, accepted_overlay, unknown_fields}
use limit_halo.Config.File.{payload_of, check_unchanged, check_write_target, revision, same_state}
use limit_halo.Setup.Persist.{Calls, persist_configuration}
use limit_halo.Setup.Rollback.{IsSettled, persist_configuration-IsSettled}
use limit_halo.Config.File.Guarded.{save-IsGuarded, IsGuarded}
use limit_halo.Config.File.Blocked.{
  IsUnread, load_rejected_preserves, saving, loading, replacements,
}

abbrev ascii_unicode : Unicode
ascii_unicode = record { casefold = λ s. map lower (codes s); is_alnum = ascii_alnum }

abbrev dumps_small : Fields → String
dumps_small empty = "{}"
dumps_small _ = "settings"

abbrev platform : Platform
platform = record {
  unicode = ascii_unicode;
  codec = record {
    dumps = dumps_small;
    loads = λ s. if str_eq s "{}" then some (obj empty) else none;
  };
}

platform-IsUnicode : IsUnicode ascii_unicode
platform-IsUnicode = record { folds = λ s h. refl; classes = λ c h. refl }

platform-IsCodec : IsCodec platform.codec
platform-IsCodec = record { dumps_empty = refl; loads_empty = refl }

defaults-IsValid : IsValid safe_defaults
unfolding threshold_of valid_coordinate
defaults-IsValid = record {
  version = refl;
  locale = refl;
  claude = refl;
  codex = refl;
  consent = refl;
  view = refl;
  colors = refl;
  threshold = refl;
  quiet_start = refl;
  quiet_end = refl;
  x = refl;
  y = refl;
  no_extension = refl;
}

strict_decode-to_json_object_example :
    (fs : Fields) × (to_json_object platform safe_defaults ≡ ok fs)
    × (strict_decode platform (obj fs) ≡ some safe_defaults)
strict_decode-to_json_object_example =
    strict_decode-to_json_object platform platform-IsUnicode platform-IsCodec safe_defaults
      defaults-IsValid

abbrev extension : Value
extension = obj (entry "future" (arr (item (int (pos 7)) (item null no_items))) empty)

safe_unknown_value-nodes_example : (nodes extension ≤ 256) × (nesting extension ≤ 8)
unfolding safe_value keys has_forbidden_key normalized_key count_items
safe_unknown_value-nodes_example = safe_unknown_value-nodes ascii_unicode extension refl

-- Settings with a nested one, and an extension beside it.
abbrev plain_fields : Fields
plain_fields = entry "alerts" (obj (entry "enabled" (Value.bool true) empty)) empty

abbrev extended : Fields
extended =
    entry "alerts" (obj (entry "enabled" (Value.bool true) (entry "future" null empty))) empty

abbrev alerts_extension : Fields
alerts_extension = entry "alerts" (obj (entry "future" null empty)) empty

get_at-merge_unknown_overlay_example :
    get_at ("alerts" ∷ "enabled" ∷ []) (obj extended) ≡ some (Value.bool true)
unfolding merge_fields get? get_at keys normalized_key append_field replace_field
get_at-merge_unknown_overlay_example =
    get_at-merge_unknown_overlay ascii_unicode plain_fields alerts_extension extended "alerts"
      ("enabled" ∷ []) (Value.bool true) refl refl tt

abbrev known_bytes : List ℕ
known_bytes = codes "settings\n"

abbrev file : Revision
file = record { st_dev = 1; st_ino = 2; st_size = 9; st_mtime_ns = 3; st_ctime_ns = 4 }

abbrev no_reading : Reading
no_reading = record {
  before = Look.missing;
  content = err (value_error "none");
  after = Look.missing;
}

-- A first save, with no file before.
abbrev first_write : Writing
first_write = record {
  reading = no_reading;
  first = Look.missing;
  prepare = ok tt;
  written = ok tt;
  second = Look.missing;
  replaced = ok tt;
  last = Look.entry true file;
}

abbrev read_known : List ℕ → Option Value
read_known bytes = some (obj (known_fields safe_defaults "22:00" "08:00"))

first_save :
    (save platform read_known safe_defaults first_write new_config_store).replaced
    ≡ some known_bytes
unfolding save payload_of to_json_object format_minutes checked_overlay safe_value keys
    has_forbidden_key merge_fields strict_decode known_fields normalized_key get? decode_v3
    accepts_v3 valid_coordinate threshold_of parse_clock parse_minutes same_config same_coordinate
    same_numbers same_switches same_texts without check_unchanged check_write_target read_current
    revision same_state accepted_overlay unknown_fields digit
first_save = refl

save-IsGuarded_example :
    IsGuarded platform read_known safe_defaults first_write new_config_store known_bytes
save-IsGuarded_example =
    save-IsGuarded platform read_known safe_defaults first_write new_config_store known_bytes
      first_save

abbrev broken : Reading
broken = record { before = Look.entry true file; content = ok []; after = Look.entry true file }

load_rejected_preserves_example :
    All
      (λ o. o ≡ none)
      (replacements platform read_known
        (loading broken first_write ∷ saving safe_defaults first_write ∷ [])
        new_config_store)
unfolding read_current revision read_file IsUnread
load_rejected_preserves_example =
    load_rejected_preserves platform read_known broken first_write new_config_store
      (value_error "configuration size is invalid") (saving safe_defaults first_write ∷ []) refl
      (tt, tt)

-- The registration is set, but the settings cannot be written: it is set back.
abbrev failing_calls : Calls
failing_calls = record {
  before = ok false;
  set = ok tt;
  after = ok true;
  writing = record first_write { prepare = err (value_error "no folder") };
  set_back = ok tt;
  writing_back = first_write;
}

persist_configuration-IsSettled_example :
    IsSettled platform read_known safe_defaults false failing_calls (
      persist_configuration platform read_known safe_defaults safe_defaults false failing_calls
        new_config_store)
persist_configuration-IsSettled_example =
    persist_configuration-IsSettled platform read_known safe_defaults safe_defaults false
      failing_calls new_config_store refl
