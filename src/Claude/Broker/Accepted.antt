-- ===== src/Claude/Broker/Accepted.antt =====
-- What an accepted broker line promises to the collector and to the store.
use limit_halo.Prelude.{
  ==_iff, Bool-cases, ap, eq_iff, sym, ◌∙◌, ℕ, ◌*◌, ◌≡◌, inl, inr, String, false, List, [], ◌∷◌,
  arith,
}
use limit_halo.Prelude.Int.{pos}
use limit_halo.Prelude.Result.{ok, ◌>>=◌, ◌>>◌, bind_returned, then_returned}
use limit_halo.Json.{Value, Fields, int, obj, get}
use limit_halo.Model.Metric.{ready, Metric, second, is_ready}
use limit_halo.Model.Store.{Freshness, check_claude}
use limit_halo.Claude.Frame.{need_object}
use limit_halo.Claude.Broker.{
  frame_body, exact_keys, decoded_or, parse_outcome, parse_broker_line, check_status, Result,
  check_diagnostic, parse_payload, check_envelope, str_eq, none, Option, Dict, BrokerResult,
  failure_state, finish, parse_metrics,
}
use limit_halo.Claude.Broker.Answers.{checked_answer, parse_metrics-AreAnswered}

-- What a result promises to the collector.
pub record IsReport (sequence : ℕ) (r : BrokerResult) : Type 0 where
  pub correlated : r.sequence ≡ sequence
  pub accepted :
      r.status ≡ "OK"
      → (c : Dict Metric × Freshness) × (check_claude r.metrics (int (pos r.sequence)) ≡ ok c)
  pub failed : str_eq r.status "OK" ≡ false → (r.metrics ≡ []) × (is_ready r.provider_state ≡ false)

failure_state_not_ready : (status : String) → is_ready (failure_state status) ≡ false
unfolding failure_state
failure_state_not_ready status = ground arith

finish_failure-IsReport :
    (sequence observed : ℕ) (status : String) (code : Option String) (values : Fields)
    (r : BrokerResult)
    → str_eq status "OK" ≡ false
    → finish sequence observed status code values ≡ ok r
    → IsReport sequence r
unfolding finish
finish_failure-IsReport sequence observed status code values r e h = record {
  correlated = grind arith;
  accepted = λ k. grind (arith, eq_iff);
  failed = λ k. grind (arith, failure_state_not_ready);
}

answered_check :
    (ms : List Metric) (r : BrokerResult) (sequence : ℕ) (c : Dict Metric × Freshness)
    → r.metrics ≡ ms
    → r.sequence ≡ sequence
    → check_claude ms (int (pos sequence)) ≡ ok c
    → check_claude r.metrics (int (pos r.sequence)) ≡ ok c
answered_check ms r sequence c hm hs h = simp (hm, hs, h)

finish_success-IsReport :
    (sequence observed : ℕ) (code : Option String) (values : Fields) (r : BrokerResult)
    → finish sequence observed "OK" code values ≡ ok r
    → IsReport sequence r
unfolding finish
finish_success-IsReport sequence observed code values r h =
    let (ms, hm, hr) =
      bind_returned (parse_metrics values observed)
        (λ (parsed : List Metric). ok (record {
          sequence = sequence;
          status = "OK";
          observed_at = observed;
          metrics = parsed;
          provider_state = ready;
          redacted_error_code = none;
        }))
        h in
    let (c, hc) =
      checked_answer values (observed * second) sequence ms
        (parse_metrics-AreAnswered values observed ms hm) in
    record {
      correlated = cc;
      accepted = λ k. (c, answered_check ms r sequence c (cc) (cc) hc);
      failed = λ k. grind (arith, eq_iff);
    }

finish-IsReport :
    (sequence observed : ℕ) (status : String) (code : Option String) (values : Fields)
    (r : BrokerResult)
    → finish sequence observed status code values ≡ ok r
    → IsReport sequence r
finish-IsReport sequence observed status code values r h = elim (Bool-cases (str_eq status "OK")) [
  | inl e ↦
      let same = (eq_iff status "OK").0 e in
      finish_success-IsReport sequence observed code values r
        (ap (λ st. finish sequence observed st code values) (sym same) ∙ h)
  | inr e ↦ finish_failure-IsReport sequence observed status code values r e h
]

envelope_sequence :
    (payload : Fields) (request_id : String) (sequence received : ℕ) (e : ℕ × ℕ)
    → check_envelope payload request_id sequence received ≡ ok e
    → e.0 ≡ sequence
unfolding check_envelope
envelope_sequence payload request_id sequence received e h = grind (arith, ==_iff)

values_step : ℕ × ℕ → String → Option String → Fields → Result BrokerResult
values_step e status code values =
    exact_keys values ("claude_session" ∷ "claude_weekly_all" ∷ "claude_fable_weekly" ∷ [])
    >> finish e.0 e.1 status code values

code_step : Fields → ℕ × ℕ → String → Option String → Result BrokerResult
unfolding values_step
code_step payload e status code =
    need_object "metrics malformed" (get "metrics" payload) >>= values_step e status code

status_step : Fields → ℕ × ℕ → String → Result BrokerResult
unfolding code_step
status_step payload e status =
    check_diagnostic status (get "transportDiagnostic" payload) >>= code_step payload e status

outcome-IsReport :
    (payload : Fields) (e : ℕ × ℕ) (r : BrokerResult)
    → parse_outcome payload e ≡ ok r
    → IsReport e.0 r
unfolding parse_outcome status_step code_step values_step
outcome-IsReport payload e r h =
    let (st, _, h1) =
      bind_returned (check_status (get "status" payload)) (status_step payload e) h in
    let (code, _, h2) =
      bind_returned (check_diagnostic st (get "transportDiagnostic" payload))
        (code_step payload e st) h1 in
    let (values, _, h3) =
      bind_returned (need_object "metrics malformed" (get "metrics" payload))
        (values_step e st code) h2 in
    let (_, h4) =
      then_returned
        (exact_keys values ("claude_session" ∷ "claude_weekly_all" ∷ "claude_fable_weekly" ∷ []))
        (finish e.0 e.1 st code values) h3 in
    finish-IsReport e.0 e.1 st code values r h4

IsReport-of : (n m : ℕ) (r : BrokerResult) → n ≡ m → IsReport n r → IsReport m r
IsReport-of n m r h p = record {
  correlated = p.correlated ∙ h;
  accepted = p.accepted;
  failed = p.failed;
}

payload-IsReport :
    (payload : Fields) (request_id : String) (sequence received : ℕ) (r : BrokerResult)
    → parse_payload (obj payload) request_id sequence received ≡ ok r
    → IsReport sequence r
unfolding parse_payload need_object
payload-IsReport payload request_id sequence received r h =
    let (e, he, h1) =
      bind_returned (check_envelope payload request_id sequence received) (parse_outcome payload)
        h in
    IsReport-of (e.0) sequence r (envelope_sequence payload request_id sequence received e he)
      (outcome-IsReport payload e r h1)

decoded-IsReport :
    (decoded : Value) (request_id : String) (sequence received : ℕ) (r : BrokerResult)
    → parse_payload decoded request_id sequence received ≡ ok r
    → IsReport sequence r
decoded-IsReport (obj payload) request_id sequence received r h =
    payload-IsReport payload request_id sequence received r h
decoded-IsReport _ request_id sequence received r h = unfold parse_payload need_object in cc

-- A line that is accepted, for the request of number `sequence`, has that number. If its status is
-- "OK", the store finds no fault with its metrics, so that `update_claude` does not raise; if not,
-- it carries no metrics and a state that is not ready.
pub parse_broker_line-IsReport :
    (loads : List ℕ → Option Value) (line : List ℕ) (request_id : String) (sequence received : ℕ)
    (r : BrokerResult)
    → parse_broker_line loads line request_id sequence received ≡ ok r
    → IsReport sequence r
unfolding parse_broker_line
parse_broker_line-IsReport loads line request_id sequence received r h =
    let read = λ (body : List ℕ).
      decoded_or (loads body) >>= λ decoded. parse_payload decoded request_id sequence received in
    let (body, _, h1) = bind_returned (frame_body line request_id) read h in
    let (decoded, _, h2) =
      bind_returned (decoded_or (loads body))
        (λ (decoded : Value). parse_payload decoded request_id sequence received) h1 in
    decoded-IsReport decoded request_id sequence received r h2
