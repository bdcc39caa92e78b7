-- ===== src/Examples/Workers.antt =====
-- src/limit_halo/codex_protocol.py, diagnostics.py and the consent gate on concrete states.
use limit_halo.Prelude.{
  ◌||◌, leb, ℕ, ◌≡◌, ◌≤◌, ◌+◌, refl, true, false, none, some, List, [], ◌∷◌, All, arith,
}
use limit_halo.Prelude.Int.{◌-ℤ◌, pos, negsuc}
use limit_halo.Hud.Place.{Area, clamp_origin_to_work_area}
use limit_halo.Hud.Place.Contained.{IsContained, clamp_origin-IsContained}
use limit_halo.Prelude.Result.{ok, err, protocol_failure}
use limit_halo.Json.{int}
use limit_halo.Model.Metric.{Metric, ProviderState}
use limit_halo.Model.Store.{new_store}
use limit_halo.Model.Coalescer.{request, new_coalescer}
use limit_halo.Codex.Collector.{CodexCollector, asked, stopped, Poll, request_codex, poll_once}
use limit_halo.Codex.Collector.Manual.{asks, IsCompleted, poll_once-IsCompleted}
use limit_halo.Codex.Frame.{Scan}
use limit_halo.Diagnostics.{dpi_bucket, distance, has_state, provider_state_of}
use limit_halo.Diagnostics.Buckets.{IsBucket, rank, dpi_bucket_nearest, provider_state_of_urgent}
use limit_halo.Shell.{Meeting, recoveries}
use limit_halo.Shell.Recovery.{IsExitedAt, recoveries_terminate}
use limit_halo.Config.{AppConfig, safe_defaults}
use limit_halo.Config.Merge.{merge_settings_changes}
use limit_halo.Config.Merge.Edits.{merge_settings_changes_edits}
use limit_halo.Claude.Runtime.{Runtime}
use limit_halo.Claude.Runtime.Consent.{
  starts, disables, use_all, consented_starts, clients_consented,
}
use limit_halo.Examples.Store.{absent}

abbrev worker : CodexCollector
worker = request_codex (
    request_codex (record {
      stop = false;
      manual_event = false;
      wake_event = false;
      manual = new_coalescer;
      acquisition_sequence = 0;
      backoff_index = 0;
      store = new_store 0;
    }))

abbrev failing : Poll
failing = record {
  wall = 5;
  update = ok false;
  due = false;
  reading = err (protocol_failure "app-server exited");
  during = asked ∷ stopped ∷ [];
}

poll_once-IsCompleted_example :
    IsCompleted (worker.manual.pending.codex || asks failing.during) (poll_once failing worker).1
unfolding request_codex request
poll_once-IsCompleted_example = poll_once-IsCompleted failing worker refl refl

abbrev brackets : List ℕ
brackets = b'[' ∷ b'{' ∷ []

abbrev scanned : Scan
scanned = record { depth = pos 0; in_string = false; escaped = false }

dpi_bucket_nearest_example :
    IsBucket (dpi_bucket (int (pos 108)))
    × All
        (λ bucket. distance (dpi_bucket (int (pos 108))) 108 ≤ distance bucket 108)
        (96 ∷ 120 ∷ 144 ∷ 192 ∷ [])
dpi_bucket_nearest_example = dpi_bucket_nearest 108 (omega arith)

provider_state_of_urgent_example :
    (s : ProviderState) × (provider_state_of (absent "claude_300" 1 ∷ []) "codex" safe_defaults
      ≡ some s)
    × (has_state s (absent "claude_300" 1 ∷ []) ≡ true)
    × All (λ (n : Metric). rank s ≤ rank n.state) (absent "claude_300" 1 ∷ [])
provider_state_of_urgent_example =
    provider_state_of_urgent (absent "claude_300" 1) [] "codex" safe_defaults refl

abbrev fresh : Runtime
fresh = record { store = new_store 0; collector = none; alive = false; clients = 0 }

clients_consented_example :
    (use_all (starts safe_defaults (ok tt) 1 1 ∷ disables 2 ∷ []) fresh).clients
    ≤ fresh.clients + consented_starts (starts safe_defaults (ok tt) 1 1 ∷ disables 2 ∷ [])
clients_consented_example =
    clients_consented (starts safe_defaults (ok tt) 1 1 ∷ disables 2 ∷ []) fresh

abbrev work_area : Area
work_area = record { left = negsuc 99; top = pos 0; right = pos 900; bottom = pos 600 }

clamped :
    clamp_origin_to_work_area (pos 850) (negsuc 9) 200 60 work_area ≡ ok (pos 700, pos 0, true)
unfolding clamp_origin_to_work_area ◌-ℤ◌
clamped = refl

clamp_origin-IsContained_example : IsContained (pos 700) (pos 0) 200 60 work_area
clamp_origin-IsContained_example =
    clamp_origin-IsContained (pos 850) (negsuc 9) 200 60 work_area (pos 700) (pos 0) clamped

abbrev edited : AppConfig
edited = record safe_defaults { locale = "uk-UA"; alert_threshold_percent = 5; x = some (pos 7) }

abbrev moved : AppConfig
moved = record safe_defaults { x = some (pos 40); y = some (negsuc 3) }

merge_settings_changes_edits_example :
    (merge_settings_changes moved safe_defaults safe_defaults ≡ moved)
    × (merge_settings_changes safe_defaults safe_defaults edited ≡ record edited {
      schema_version = safe_defaults.schema_version;
      x = safe_defaults.x;
      y = safe_defaults.y;
      preserved_unknown_json = safe_defaults.preserved_unknown_json;
    })
merge_settings_changes_edits_example = merge_settings_changes_edits moved safe_defaults edited

-- The official client has exited from the third attempt on.
abbrev exiting : ℕ → Meeting
exiting n = record {
  superseded = false;
  ready_before = false;
  ready_after = false;
  exited = leb 2 n;
}

recoveries_terminate_example :
    (n : ℕ) × (recoveries 48 exiting 0 0 ≡ some n)
    × (n ≤ 48)
    × ((k : ℕ) → IsExitedAt k exiting → n ≤ k + 3)
recoveries_terminate_example = recoveries_terminate exiting
