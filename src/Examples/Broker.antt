-- ===== src/Examples/Broker.antt =====
-- src/limit_halo/claude_protocol.py on a concrete answer of the broker.
use limit_halo.Prelude.{ℕ, ◌≡◌, refl, false, String, Option, none, some, List, [], ◌∷◌, inl, arith}
use limit_halo.Prelude.Int.{pos}
use limit_halo.Prelude.Result.{ok, err, broker_failure}
use limit_halo.Claude.Frame.{
  frame_body, strip_newline, need_object, exact_keys, strict_int, check_credential,
}
use limit_halo.Json.{keys, get?, Value, null, int, str, obj, empty, entry}
use limit_halo.Model.Metric.{make_metric, Metric, ready, unavailable}
use limit_halo.Model.Store.{new_store}
use limit_halo.Model.Coalescer.{request, new_coalescer}
use limit_halo.Claude.Broker.{
  BrokerResult, parse_broker_line, parse_payload, check_envelope, parse_outcome, check_status,
  check_diagnostic, finish, parse_metrics, parse_metric, check_reset_value, used_percent,
}
use limit_halo.Claude.Broker.Accepted.{IsReport, parse_broker_line-IsReport}
use limit_halo.Claude.Collector.{
  Collector, asked, stopped, Round, iteration, attempt, run_rounds, request_refresh,
}
use limit_halo.Claude.Collector.Alive.{
  IsArmed, IsAnswer, OnlyAsked, AllOrdinary, Survives, run_rounds-Survives,
}
use limit_halo.Claude.Collector.Schedule.{IsScheduled, manual_schedule, automatic_schedule}

abbrev answer : Value
answer = obj (
    entry "protocol" (str "ai-usage-claude-broker/1") (
      entry "requestId" (str "0123456789abcdef0123456789abcdef") (
        entry "acquisitionSequence" (int (pos 7)) (
          entry "status" (str "OK") (
            entry "acquiredAtUnixSeconds" (int (pos 1000)) (
              entry "durationMs" (int (pos 20)) (
                entry "credentialVersion" null (
                  entry "transportDiagnostic" null (
                    entry "metrics"
                      (obj (
                        entry "claude_session"
                          (obj (
                            entry "remainingMicros" (int (pos 62_500_000))
                              (entry "resetUnixSeconds" (int (pos 2000)) empty)))
                          (entry "claude_weekly_all" null
                            (entry "claude_fable_weekly" null empty))))
                      empty)))))))))

abbrev measured : Metric
measured = record {
  key = "claude_300";
  provider = "claude";
  window_duration_mins = 300;
  used_percent = some 38;
  resets_at = some (pos 2000);
  state = ready;
  observed_at = 1_000_000_000;
  retry_after_seconds = none;
  error_code = none;
}

abbrev absent : String → Metric
absent key = record {
  key = key;
  provider = "claude";
  window_duration_mins = 10_080;
  used_percent = none;
  resets_at = none;
  state = unavailable;
  observed_at = 1_000_000_000;
  retry_after_seconds = none;
  error_code = none;
}

abbrev report : BrokerResult
report = record {
  sequence = 7;
  status = "OK";
  observed_at = 1000;
  metrics = measured ∷ absent "claude_10080" ∷ absent "claude_fable_10080" ∷ [];
  provider_state = ready;
  redacted_error_code = none;
}

abbrev decoder : List ℕ → Option Value
decoder line = some answer

parsed :
    parse_broker_line decoder
      (b'{' ∷ b'}' ∷ 10 ∷ [])
      "0123456789abcdef0123456789abcdef"
      7
      1_000_000_000
    ≡ ok report
unfolding parse_broker_line frame_body strip_newline parse_payload need_object check_envelope
    exact_keys keys get? strict_int check_credential parse_outcome check_status check_diagnostic
    finish parse_metrics parse_metric check_reset_value make_metric used_percent
parsed = refl

parse_broker_line-IsReport_example : IsReport 7 report
parse_broker_line-IsReport_example =
    parse_broker_line-IsReport decoder (b'{' ∷ b'}' ∷ 10 ∷ []) "0123456789abcdef0123456789abcdef" 7
      1_000_000_000 report parsed

abbrev idle : Collector
idle = record {
  stop = false;
  manual_event = false;
  manual = new_coalescer;
  failure_index = 0;
  next_automatic = 500;
  store = new_store 0;
}

abbrev good : Round
good = record {
  now = 600;
  later = 700;
  wall = 1_000_000_000;
  entering = asked ∷ [];
  during = asked ∷ [];
  answer = ok report;
}

abbrev bad : Round
bad = record {
  now = 800;
  later = 900;
  wall = 1_000_000_001;
  entering = [];
  during = stopped ∷ [];
  answer = err (broker_failure "broker deadline exceeded");
}

idle-IsArmed : IsArmed idle
idle-IsArmed = ground arith

run_rounds-Survives_example : Survives (run_rounds (good ∷ bad ∷ []) idle)
unfolding AllOrdinary IsAnswer OnlyAsked
run_rounds-Survives_example =
    run_rounds-Survives (good ∷ bad ∷ []) idle
      (
        parse_broker_line-IsReport decoder (b'{' ∷ b'}' ∷ 10 ∷ [])
            "0123456789abcdef0123456789abcdef" 7 1_000_000_000 report parsed,
        tt,
        (("broker deadline exceeded", inl refl), tt, tt),
      )
      idle-IsArmed

manual_schedule_example :
    (iteration good (request_refresh idle)).1.next_automatic ≡ (request_refresh idle).next_automatic
unfolding request_refresh request
manual_schedule_example = manual_schedule good (request_refresh idle) refl

automatic_schedule_example : IsScheduled 900 (attempt false bad idle).1
unfolding IsAnswer
automatic_schedule_example = automatic_schedule bad idle ("broker deadline exceeded", inl refl)
